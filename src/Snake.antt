-- ===== src/Snake.antt =====
-- `SnakeGame` of kernel/src/gui/snake.rs. A coordinate on the board is its number; the step that leaves the
-- board to the left or above has no such point. The tick counter of the interrupts is an argument. The
-- fields grid_cols and grid_rows, which are set once to the constants of those names, are left out.
mod Tests
pub mod Board
pub mod Moves
use kafka_os.Base.{
  ℕ, zero, suc, ◌+◌, ◌-◌, ◌*◌, ◌/◌, ◌%◌, ◌^◌, ◌≡◌, max, Bool, true, false, ◌&&◌, ◌||◌, not, Option,
  none, some, List, [], ◌∷◌, ◌++◌, ltb, leb, ◌==◌, if◌then◌else◌, length, take, get_elem?, ◌>>=◌,
}
use Prim.Native.Nat.{bit_xor}
use kafka_os.Notepad.{pop}

abbrev pub grid_cols : ℕ
grid_cols = 20

abbrev pub grid_rows : ℕ
grid_rows = 15

abbrev pub base_ticks : ℕ
base_ticks = 2

abbrev pub min_ticks : ℕ
min_ticks = 1

abbrev pub speed_step : ℕ
speed_step = 60

pub data Direction : Type 0 where
  up down left right : Direction

pub record Point : Type 0 where
  pub x : ℕ
  pub y : ℕ

pub data GameState : Type 0 where
  playing game_over paused : GameState

pub record SnakeGame : Type 0 where
  pub body : List Point
  pub direction : Direction
  pub next_direction : Direction
  pub food : Point
  pub state : GameState
  pub score : ℕ
  pub high_score : ℕ
  pub tick_counter : ℕ
  pub rng_seed : ℕ
  pub last_tail : Option Point
  pub moved : Bool
  pub just_ate : Bool

abbrev pub same_point : Point → Point → Bool
same_point p q = p.x == q.x && p.y == q.y

unfoldable pub contains_point : List Point → Point → Bool
contains_point [] p = false
contains_point (q ∷ body) p = same_point q p || contains_point body p

unfoldable pub ticks_per_update : SnakeGame → ℕ
ticks_per_update g = max (base_ticks - g.score / speed_step) min_ticks

unfoldable pub is_opposite : Direction → Direction → Bool
is_opposite Direction.up Direction.down = true
is_opposite Direction.down Direction.up = true
is_opposite Direction.left Direction.right = true
is_opposite Direction.right Direction.left = true
is_opposite _ _ = false

-- `game_over`
unfoldable pub end_game : SnakeGame → SnakeGame
end_game g = record g {
  state = GameState.game_over;
  high_score = if ltb g.high_score g.score then g.score else g.high_score;
}

-- The cells of one row from column `x` on, `n` of them, that the body leaves free; then of all rows.
unfoldable pub free_in_row : ℕ → ℕ → ℕ → List Point → List Point
free_in_row zero x y body = []
free_in_row (suc n) x y body =
    let p : Point = record { x = x; y = y } in
    let rest = free_in_row n (x + 1) y body in if contains_point body p then rest else p ∷ rest

unfoldable pub free_cells : ℕ → ℕ → List Point → List Point
unfolding free_in_row
free_cells zero y body = []
free_cells (suc n) y body = free_in_row grid_cols 0 y body ++ free_cells n (y + 1) body

-- `rand` on the seed: the new seed is the random number.
unfoldable pub rand : ℕ → ℕ
rand seed =
    let s1 = bit_xor seed (seed * 2 ^ 13 % 2 ^ 32) in
    let s2 = bit_xor s1 (s1 / 2 ^ 17) in bit_xor s2 (s2 * 2 ^ 5 % 2 ^ 32)

-- What follows the search for free cells.
unfoldable pub place_food : List Point → SnakeGame → Option SnakeGame
place_food [] g = some (end_game g)
place_food (p ∷ free) g = do
  food ← get_elem? (p ∷ free) (rand g.rng_seed % length (p ∷ free))
  some (record g { food = food; rng_seed = rand g.rng_seed })

unfoldable pub spawn_food : SnakeGame → Option SnakeGame
spawn_food g = place_food (free_cells grid_rows 0 g.body) g

-- The point ahead, or none where it has a negative coordinate.
unfoldable pub ahead : Direction → Point → Option Point
ahead Direction.up p = if p.y == 0 then none else some (record p { y = p.y - 1 })
ahead Direction.down p = some (record p { y = p.y + 1 })
ahead Direction.left p = if p.x == 0 then none else some (record p { x = p.x - 1 })
ahead Direction.right p = some (record p { x = p.x + 1 })

-- The move to a point that is free: the food is eaten, or the tail is taken off.
unfoldable pub advance : Point → SnakeGame → Option SnakeGame
advance new_head g = do
  let grown : SnakeGame = record g { body = new_head ∷ g.body }
  next ←
      if same_point new_head g.food
      then spawn_food (record grown { score = g.score + 10; just_ate = true; last_tail = none })
      else elim (pop grown.body) [
        | none ↦ some (record grown { last_tail = none })
        | some (tail, body) ↦ some (record grown { body = body; last_tail = some tail })
      ]
  some (record next { moved = true })

unfoldable pub collide : Option Point → SnakeGame → Option SnakeGame
collide none g = some (end_game g)
collide (some p) g =
    if leb grid_cols p.x || leb grid_rows p.y
    then some (end_game g)
    else if contains_point (take (length g.body - 1) g.body) p
    then some (end_game g)
    else advance p g

unfoldable pub update : SnakeGame → Option SnakeGame
update g = do
  head ← get_elem? g.body 0
  collide (ahead g.next_direction head)
      (record g { direction = g.next_direction; moved = false; just_ate = false })

abbrev pub is_playing : GameState → Bool
is_playing GameState.playing = true
is_playing _ = false

unfoldable pub tick : SnakeGame → Option SnakeGame
tick g =
    if not (is_playing g.state)
    then some g
    else if ltb (g.tick_counter + 1) (ticks_per_update g)
    then some (record g { tick_counter = g.tick_counter + 1 })
    else update (record g { tick_counter = 0 })

-- `ticks` is the tick counter of the interrupts.
unfoldable pub reset : ℕ → SnakeGame → Option SnakeGame
reset ticks g =
    let sx = grid_cols / 2 in
    let sy = grid_rows / 2 in
    spawn_food (record g {
      body =
          record { x = sx; y = sy }
          ∷ record { x = sx - 1; y = sy }
          ∷ record { x = sx - 2; y = sy }
          ∷ record { x = sx - 3; y = sy }
          ∷ [];
      direction = Direction.right;
      next_direction = Direction.right;
      state = GameState.playing;
      score = 0;
      tick_counter = 0;
      moved = false;
      just_ate = false;
      last_tail = none;
      rng_seed = (g.rng_seed + ticks % 2 ^ 32) % 2 ^ 32;
    })

unfoldable pub new_game : ℕ → Option SnakeGame
new_game ticks = reset ticks (record {
  body = [];
  direction = Direction.right;
  next_direction = Direction.right;
  food = record { x = 0; y = 0 };
  state = GameState.playing;
  score = 0;
  high_score = 0;
  tick_counter = 0;
  rng_seed = 54321;
  last_tail = none;
  moved = false;
  just_ate = false;
})

-- The arrow keys and W, A, S, D.
unfoldable pub direction_of : ℕ → Option Direction
direction_of scancode =
    if scancode == 0x48 || scancode == 0x11
    then some Direction.up
    else if scancode == 0x50 || scancode == 0x1F
    then some Direction.down
    else if scancode == 0x4B || scancode == 0x1E
    then some Direction.left
    else if scancode == 0x4D || scancode == 0x20
    then some Direction.right
    else none

abbrev turn : SnakeGame → Option Direction → SnakeGame
turn g none = g
turn g (some dir) = if is_opposite dir g.direction then g else record g { next_direction = dir }

unfoldable pub on_key : ℕ → ℕ → SnakeGame → Option SnakeGame
on_key ticks scancode g = elim g.state [
  | GameState.playing ↦
      if scancode == 0x19 || scancode == 0x01
      then some (record g { state = GameState.paused })
      else some (turn g (direction_of scancode))
  | GameState.paused ↦
      if scancode == 0x19 || (scancode == 0x01 || scancode == 0x1C)
      then some (record g { state = GameState.playing })
      else some g
  | GameState.game_over ↦ if scancode == 0x1C || scancode == 0x39 then reset ticks g else some g
]
