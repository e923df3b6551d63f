-- ===== src/Snake/Moves.antt =====
-- What a tick of kernel/src/gui/snake.rs does to the snake: a crash, a move, or nothing.
use kafka_os.Base.{
  ℕ, suc, ◌+◌, ◌%◌, ◌-◌, ◌≡◌, ◌<◌, ◌∙◌, inl, inr, refl, ap, Bool, true, false, ◌&&◌, ◌||◌, not,
  Option, none, some, List, [], ◌∷◌, leb, ltb, ◌==◌, if◌then◌else◌, length, take, get_elem?, ◌>>=◌,
  arith, Bool-cases,
}
use kafka_os.Notepad.{pop}
use kafka_os.Notepad.Edit.Total.{Returns, Returns-bind, get_elem?_lt}
use kafka_os.Snake.{
  rand, Point, Direction, GameState, SnakeGame, place_food, spawn_food, end_game, ahead, advance,
  collide, update, tick, contains_point, same_point, ticks_per_update, is_playing,
}
use kafka_os.Snake.Board.{AllOn, IsGame, Plays, tick-IsGame}

-- A cell that lies next to another in a direction.
abbrev pub is_next : Direction → Point → Point → Bool
is_next Direction.up p q = q.x == p.x && q.y + 1 == p.y
is_next Direction.down p q = q.x == p.x && q.y == p.y + 1
is_next Direction.left p q = q.x + 1 == p.x && q.y == p.y
is_next Direction.right p q = q.x == p.x + 1 && q.y == p.y

-- The wall of the board of 20 by 15 cells is next in a direction.
abbrev pub at_wall : Direction → Point → Bool
at_wall Direction.up p = p.y == 0
at_wall Direction.down p = p.y == 14
at_wall Direction.left p = p.x == 0
at_wall Direction.right p = p.x == 19

abbrev pub but_last : List Point → List Point
but_last [] = []
but_last (p ∷ []) = []
but_last (p ∷ q ∷ body) = p ∷ but_last (q ∷ body)

-- One of some segments is next in a direction.
abbrev pub any_next : Direction → Point → List Point → Bool
any_next dir p [] = false
any_next dir p (q ∷ body) = is_next dir p q || any_next dir p body

-- The wall or the body is ahead. The last segment moves on.
abbrev pub crashes : SnakeGame → Point → Bool
crashes g head = at_wall g.next_direction head || any_next g.next_direction head (but_last g.body)

abbrev pub is_due : SnakeGame → Bool
is_due g = is_playing g.state && leb (ticks_per_update g) (g.tick_counter + 1)

-- The snake goes on to the next cell. It grows where that is the food.
abbrev pub Moves : SnakeGame → Point → SnakeGame → Type 0
Moves g head g' =
    (p : Point) × (is_next g.next_direction head p ≡ true)
    × (g'.body ≡ p ∷ (if same_point p g.food then g.body else but_last g.body))

-- What becomes of a game, by whether it is due and whether it crashes.
abbrev pub Becomes : Bool → Bool → SnakeGame → Point → SnakeGame → Type 0
Becomes false crash g head g' = (g'.state ≡ g.state) × (g'.body ≡ g.body)
Becomes true true g head g' = (g'.state ≡ GameState.game_over) × (g'.body ≡ g.body)
Becomes true false g head g' = Moves g head g'

take-but_last : (body : List Point) → take (length body - 1) body ≡ but_last body
take-but_last [] = refl
take-but_last (p ∷ []) = refl
take-but_last (p ∷ q ∷ body) =
    let e : suc (suc (length body)) - 1 ≡ suc (suc (length body) - 1) = omega arith in
    rw e (ap (λ (l : List Point). p ∷ l) (take-but_last (q ∷ body)))

pop-but_last :
    (p : Point) (body : List Point)
    → (tail : Point) × (pop (p ∷ body) ≡ some (tail, but_last (p ∷ body)))
unfolding pop
pop-but_last p [] = (p, refl)
pop-but_last p (q ∷ body) = let (tail, e) = pop-but_last q body in (tail, rw e refl)

-- The point ahead is the next cell, or beyond the wall.
abbrev Ahead : Direction → Point → Option Point → Type 0
Ahead dir p none = at_wall dir p ≡ true
Ahead dir p (some q) =
    ((r : Point) → same_point r q ≡ is_next dir p r)
    × (is_next dir p q ≡ true)
    × ((leb 20 q.x || leb 15 q.y) ≡ at_wall dir p)

eq_below : (m n : ℕ) → (n == 0) ≡ false → (m == n - 1) ≡ (m + 1 == n)
eq_below m n e = ground arith

ahead-Ahead : (dir : Direction) (p : Point) → p.x < 20 → p.y < 15 → Ahead dir p (ahead dir p)
unfolding ahead
ahead-Ahead Direction.up p hx hy = elim (Bool-cases (p.y == 0)) [
  | inl e ↦ rw e e
  | inr e ↦
      rw e
        (λ r. ap (λ (b : Bool). r.x == p.x && b) (eq_below r.y p.y e), ground arith, ground arith)
]
ahead-Ahead Direction.down p hx hy = (λ r. refl, ground arith, ground arith)
ahead-Ahead Direction.left p hx hy = elim (Bool-cases (p.x == 0)) [
  | inl e ↦ rw e e
  | inr e ↦
      rw e
        (λ r. ap (λ (b : Bool). b && r.y == p.y) (eq_below r.x p.x e), ground arith, ground arith)
]
ahead-Ahead Direction.right p hx hy = (λ r. refl, ground arith, ground arith)

contains_point-any_next :
    (dir : Direction) (p q : Point) (body : List Point)
    → ((r : Point) → same_point r q ≡ is_next dir p r)
    → contains_point body q ≡ any_next dir p body
unfolding contains_point
contains_point-any_next dir p q [] h = refl
contains_point-any_next dir p q (r ∷ body) h = rw (h r, contains_point-any_next dir p q body h) refl

-- The food leaves the body as it is.
place_food-body :
    (free : List Point) (g : SnakeGame) → Returns (λ g'. g'.body ≡ g.body) (place_food free g)
unfolding place_food end_game
place_food-body [] g = refl
place_food-body (p ∷ free) g =
    let (food, e) = get_elem?_lt (p ∷ free) (rand g.rng_seed % length (p ∷ free)) (omega arith) in
    rw (e, ◌>>=◌) refl

cons-but_last :
    (p head : Point) (tail body : List Point)
    → body ≡ head ∷ tail
    → but_last (p ∷ body) ≡ p ∷ but_last body
cons-but_last p head tail body h = rw h refl

advance-body :
    (p : Point) (g : SnakeGame) (head : Point) (tail : List Point)
    → g.body ≡ head ∷ tail
    → Returns
        (λ g'. g'.body ≡ p ∷ (if same_point p g.food then g.body else but_last g.body))
        (advance p g)
unfolding advance spawn_food
advance-body p g head tail h = elim (Bool-cases (same_point p g.food)) [
  | inl e ↦ rw e (
      Returns-bind (λ g'. g'.body ≡ p ∷ g.body) _ (spawn_food _) _ (place_food-body _ _)
        (λ g' q. q))
  | inr e ↦
      let (t, popped) = pop-but_last p g.body in rw (e, popped) (cons-but_last p head tail g.body h)
]

-- What becomes of a game, by whether it crashes.
abbrev Collided : Bool → SnakeGame → Point → Option SnakeGame → Type 0
Collided crash g head none = ⊥
Collided crash g head (some g') = Becomes true crash g head g'

advance-Collided :
    (p : Point) (g : SnakeGame) (head : Point) (tail : List Point)
    → is_next g.next_direction head p ≡ true
    → g.body ≡ head ∷ tail
    → Collided false g head (advance p g)
advance-Collided p g head tail next h = go (advance p g) (advance-body p g head tail h)
  where
    go :
        (o : Option SnakeGame)
        → Returns (λ g'. g'.body ≡ p ∷ (if same_point p g.food then g.body else but_last g.body)) o
        → Collided false g head o
    go none r = r
    go (some g') r = (p, next, r)

collide-Collided :
    (o : Option Point) (g : SnakeGame) (head : Point) (tail : List Point)
    → Ahead g.next_direction head o
    → g.body ≡ head ∷ tail
    → Collided (crashes g head) g head (collide o g)
unfolding collide end_game
collide-Collided none g head tail a h = rw a (refl, refl)
collide-Collided (some p) g head tail (same, next, wall) h =
    let bitten : contains_point (take (length g.body - 1) g.body) p
        ≡ any_next g.next_direction head (but_last g.body) =
      ap (λ (l : List Point). contains_point l p) (take-but_last g.body)
      ∙ contains_point-any_next g.next_direction head p (but_last g.body) same in
    rw (wall, bitten)
      (go (at_wall g.next_direction head) (any_next g.next_direction head (but_last g.body)))
  where
    go :
        (wall bitten : Bool)
        → Collided
            (wall || bitten)
            g
            head
            (if wall then some (end_game g) else if bitten then some (end_game g) else advance p g)
    go true bitten = (refl, refl)
    go false true = (refl, refl)
    go false false = advance-Collided p g head tail next h

-- The game with the fields that a due move sets first.
abbrev begun : SnakeGame → SnakeGame
begun g = record g {
  tick_counter = 0;
  direction = g.next_direction;
  moved = false;
  just_ate = false;
}

Collided-begun :
    (crash : Bool) (g : SnakeGame) (head : Point) (o : Option SnakeGame)
    → Collided crash (begun g) head o
    → Collided crash g head o
Collided-begun crash g head none r = r
Collided-begun true g head (some g') r = r
Collided-begun false g head (some g') r = r

on_board_head :
    (body tail : List Point) (head : Point) → AllOn body → body ≡ head ∷ tail → AllOn (head ∷ tail)
on_board_head body tail head on h = rw h at on

update-Collided :
    (g : SnakeGame) (head : Point) (tail : List Point)
    → g.body ≡ head ∷ tail
    → AllOn g.body
    → Collided (crashes g head) g head (update (record g { tick_counter = 0 }))
unfolding update
update-Collided g head tail h on =
    let (x, y, _) = on_board_head g.body tail head on h in
    let found : get_elem? g.body 0 ≡ some head = ap (λ (l : List Point). get_elem? l 0) h in
    rw (found, ◌>>=◌)
      (Collided-begun (crashes g head) g head (collide (ahead g.next_direction head) (begun g)) (
        collide-Collided (ahead g.next_direction head) (begun g) head tail
          (ahead-Ahead g.next_direction head x y) h))

by_tick :
    (plays early crash : Bool) (g later : SnakeGame) (head : Point) (o : Option SnakeGame)
    → later.state ≡ g.state
    → later.body ≡ g.body
    → Collided crash g head o
    → Returns
        (Becomes (plays && not early) crash g head)
        (if not plays then some g else if early then some later else o)
by_tick false early crash g later head o s b r = (refl, refl)
by_tick true true crash g later head o s b r = (s, b)
by_tick true false crash g later head none s b r = r
by_tick true false crash g later head (some g') s b r = r

due_when : (n m : ℕ) → leb n m ≡ not (ltb m n)
due_when n m = elim (Bool-cases (ltb m n)) [ inl e ↦ ground arith | inr e ↦ ground arith ]

-- A tick does not panic and keeps the snake, of a head and a tail, on the board. Where the game plays and its
-- counter reaches the ticks of a move, a head with the wall or a segment other than the last next in its
-- direction ends the game and leaves the body, and any other goes on to the next cell: the last segment is
-- taken off unless that cell has the food. Where not, state and body stay.
pub tick-Ticked :
    (g : SnakeGame) (head : Point) (tail : List Point)
    → g.body ≡ head ∷ tail
    → IsGame g
    → Plays (tick g) × Returns (Becomes (is_due g) (crashes g head) g head) (tick g)
unfolding tick
tick-Ticked g head tail h v =
    let due = due_when (ticks_per_update g) (g.tick_counter + 1) in
    (
      tick-IsGame g v,
      rw due (
          by_tick (is_playing g.state) (ltb (g.tick_counter + 1) (ticks_per_update g))
            (crashes g head) g (record g { tick_counter = g.tick_counter + 1 }) head _ refl refl
            (update-Collided g head tail h v.on_board)),
    )
