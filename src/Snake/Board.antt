-- ===== src/Snake/Board.antt =====
-- The game of kernel/src/gui/snake.rs stays on its board.
use kafka_os.Base.{
  ◌+◌, ◌-◌, ◌%◌, ◌≡◌, ◌<◌, refl, Bool, true, false, ◌||◌, Option, none, some, List, [], ◌∷◌, leb,
  ltb, if◌then◌else◌, length, take, ◌>>=◌, arith,
}
use kafka_os.Notepad.{pop}
use kafka_os.Notepad.Edit.Total.{get_elem?_lt}
use kafka_os.Snake.{
  Point, SnakeGame, grid_cols, grid_rows, rand, place_food, spawn_food, end_game, ahead, advance,
  collide, update, tick, contains_point, same_point, ticks_per_update,
}

abbrev pub AllOn : List Point → Type 0
AllOn [] = Unit {0}
AllOn (p ∷ body) = (p.x < grid_cols) × (p.y < grid_rows) × AllOn body

-- The snake has a head, and every segment is on the board.
pub record IsGame (g : SnakeGame) : Type 0 where
  pub nonempty : 0 < length g.body
  pub on_board : AllOn g.body

abbrev pub Plays : Option SnakeGame → Type 0
Plays none = ⊥
Plays (some g) = IsGame g

end_game-IsGame : (g : SnakeGame) → IsGame g → IsGame (end_game g)
unfolding end_game
end_game-IsGame g v = record { nonempty = v.nonempty; on_board = v.on_board }

place_food-IsGame : (free : List Point) (g : SnakeGame) → IsGame g → Plays (place_food free g)
unfolding place_food
place_food-IsGame [] g v = end_game-IsGame g v
place_food-IsGame (p ∷ free) g v =
    let (food, e) = get_elem?_lt (p ∷ free) (rand g.rng_seed % length (p ∷ free)) (omega arith) in
    rw (e, ◌>>=◌) (record { nonempty = v.nonempty; on_board = v.on_board })

pop_body :
    (p : Point) (body : List Point)
    → AllOn (p ∷ body)
    → (tail : Point) × (rest : List Point) × (pop (p ∷ body) ≡ some (tail, rest))
      × (length rest ≡ length body)
      × AllOn rest
unfolding pop
pop_body p [] on = (p, [], refl, refl, tt)
pop_body p (q ∷ body) (x, y, on) =
    let (tail, rest, e, l, still) = pop_body q body on in
    (tail, p ∷ rest, rw e refl, omega arith, (x, y, still))

Plays-moved :
    (o : Option SnakeGame) → Plays o → Plays (o >>= λ next. some (record next { moved = true }))
Plays-moved none v = v
Plays-moved (some g) v = record { nonempty = v.nonempty; on_board = v.on_board }

either-Plays : (b : Bool) (x y : Option SnakeGame) → Plays x → Plays y → Plays (if b then x else y)
either-Plays true x y v w = v
either-Plays false x y v w = w

where_Plays :
    (b : Bool) (x y : Option SnakeGame)
    → Plays x
    → (b ≡ false → Plays y)
    → Plays (if b then x else y)
where_Plays true x y v w = v
where_Plays false x y v w = w refl

advance-IsGame :
    (p : Point) (g : SnakeGame) → IsGame g → p.x < grid_cols → p.y < grid_rows → Plays (advance p g)
unfolding advance spawn_food
advance-IsGame p g v x y =
    let (tail, rest, e, l, on) = pop_body p g.body (x, y, v.on_board) in
    Plays-moved _ (
      either-Plays (same_point p g.food) _ _
        (place_food-IsGame _ _ (record { nonempty = omega arith; on_board = (x, y, v.on_board) }))
        (rw e (record { nonempty = omega (arith, v.nonempty); on_board = on })))

collide-IsGame : (o : Option Point) (g : SnakeGame) → IsGame g → Plays (collide o g)
unfolding collide
collide-IsGame none g v = end_game-IsGame g v
collide-IsGame (some p) g v =
    where_Plays (leb grid_cols p.x || leb grid_rows p.y) _ _ (end_game-IsGame g v) (λ e.
      either-Plays (contains_point (take (length g.body - 1) g.body) p) _ _ (end_game-IsGame g v)
        (advance-IsGame p g v (ground (arith, e)) (ground (arith, e))))

update-IsGame : (g : SnakeGame) → IsGame g → Plays (update g)
unfolding update
update-IsGame g v =
    let (head, e) = get_elem?_lt g.body 0 v.nonempty in
    rw (e, ◌>>=◌)
      (collide-IsGame (ahead g.next_direction head) _
        (record { nonempty = v.nonempty; on_board = v.on_board }))

-- A tick of the game does not panic, and keeps the snake on the board.
pub tick-IsGame : (g : SnakeGame) → IsGame g → Plays (tick g)
unfolding tick
tick-IsGame g v =
    let counted : IsGame (record g { tick_counter = g.tick_counter + 1 }) = record {
      nonempty = v.nonempty;
      on_board = v.on_board;
    } in
    let due : IsGame (record g { tick_counter = 0 }) = record {
      nonempty = v.nonempty;
      on_board = v.on_board;
    } in
    either-Plays _ (some g) _ v (
      either-Plays (ltb (g.tick_counter + 1) (ticks_per_update g)) (some _) (update _) counted
        (update-IsGame _ due))
