-- ===== src/Snake/Tests.antt =====
-- A snake of two segments at the right wall, kernel/src/gui/snake.rs.
use kafka_os.Base.{refl, false, none, [], ◌∷◌, arith}
use kafka_os.Snake.{SnakeGame, Direction, GameState, tick}
use kafka_os.Notepad.Edit.Total.{Returns}
use kafka_os.Snake.Board.{Plays}
use kafka_os.Snake.Moves.{Becomes, is_due, tick-Ticked}

abbrev below_wall : SnakeGame
below_wall = record {
  body = record { x = 19; y = 7 } ∷ record { x = 18; y = 7 } ∷ [];
  direction = Direction.right;
  next_direction = Direction.up;
  food = record { x = 19; y = 6 };
  state = GameState.playing;
  score = 60;
  high_score = 0;
  tick_counter = 0;
  rng_seed = 54321;
  last_tail = none;
  moved = false;
  just_ate = false;
}

tick-Ticked_example :
    Plays (tick below_wall)
    × Returns
        (Becomes (is_due below_wall) false below_wall (record { x = 19; y = 7 }))
        (tick below_wall)
tick-Ticked_example =
    tick-Ticked below_wall (record { x = 19; y = 7 }) (record { x = 18; y = 7 } ∷ []) refl
      (record {
        nonempty = omega arith;
        on_board = (omega arith, omega arith, (omega arith, omega arith, tt));
      })
