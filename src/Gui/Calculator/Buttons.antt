-- ===== src/Gui/Calculator/Buttons.antt =====
-- The buttons of the calculator: the clicks that `process_events` of kernel/src/gui/window.rs takes for it.
-- The text of a number is a parameter: `format!` writes it.
pub mod Typing
use kafka_os.Base.{
  ℕ, zero, suc, ◌+◌, ◌*◌, Bool, true, false, ◌&&◌, ◌||◌, not, Option, none, some, List, [], ◌∷◌,
  ◌++◌, ltb, leb, ◌==◌, if◌then◌else◌, ◌>>=◌, get_or,
}
use kafka_os.Base.Int.{ℤ, pos, ◌/ℤ◌, leb_ℤ, ltb_ℤ, sub_i32, to_u32}
use kafka_os.BTreeMap.{text_eq}
use kafka_os.Gui.Calculator.{EvalError, Outcome, is_digit, is_operator, evaluate_expression}

pub record Calculator : Type 0 where
  pub display : List ℕ
  pub clear_on_next : Bool

abbrev pub labels : List ℕ
labels =
    b'7' ∷ b'8' ∷ b'9' ∷ b'/' ∷ b'4' ∷ b'5' ∷ b'6' ∷ b'*' ∷ b'1' ∷ b'2' ∷ b'3' ∷ b'-' ∷ b'C' ∷ b'0'
    ∷ b'=' ∷ b'+' ∷ []

-- "Error", and the messages of the errors.
abbrev error_text : List ℕ
error_text = b'E' ∷ b'r' ∷ b'r' ∷ b'o' ∷ b'r' ∷ []

abbrev div_by_zero_text : List ℕ
div_by_zero_text = b'D' ∷ b'i' ∷ b'v' ∷ b' ' ∷ b'b' ∷ b'y' ∷ b' ' ∷ b'0' ∷ []

abbrev message : EvalError → List ℕ
message EvalError.syntax_error = b'S' ∷ b'y' ∷ b'n' ∷ b't' ∷ b'a' ∷ b'x' ∷ b' ' ∷ error_text
message EvalError.parse_error = b'P' ∷ b'a' ∷ b'r' ∷ b's' ∷ b'e' ∷ b' ' ∷ error_text
message EvalError.div_by_zero = div_by_zero_text
message EvalError.invalid_op =
    b'I' ∷ b'n' ∷ b'v' ∷ b'a' ∷ b'l' ∷ b'i' ∷ b'd' ∷ b' ' ∷ b'o' ∷ b'p' ∷ []

-- The button at a point of the window.
unfoldable pub button_at : ℤ → ℤ → Option ℕ
button_at x y =
    if leb_ℤ (pos 70) y && (leb_ℤ y (pos 230) && (leb_ℤ (pos 10) x && leb_ℤ x (pos 190)))
    then (let col = to_u32 (sub_i32 x (pos 10) /ℤ pos 45) in
        let row = to_u32 (sub_i32 y (pos 70) /ℤ pos 40) in
        if ltb col 4 && ltb row 4 then some (get_or labels (row * 4 + col) 0) else none)
    else none

-- A digit starts anew where the display is no number in the making.
abbrev starts_anew : Calculator → Bool
starts_anew s =
    s.clear_on_next
    || text_eq s.display (b'0' ∷ [])
    || text_eq s.display error_text
    || text_eq s.display div_by_zero_text

-- The text without a last operator.
abbrev pub without_operator : List ℕ → List ℕ
without_operator [] = []
without_operator (c ∷ []) = if is_operator c then [] else c ∷ []
without_operator (c ∷ d ∷ cs) = c ∷ without_operator (d ∷ cs)

abbrev pub answer : (ℤ → List ℕ) → Outcome ℤ → Option Calculator
answer format (Outcome.ok result) = some (record { display = format result; clear_on_next = true })
answer format (Outcome.err e) = some (record { display = message e; clear_on_next = true })
answer format Outcome.panic = none

unfoldable pub press : (ℤ → List ℕ) → Calculator → ℕ → Option Calculator
press format s btn =
    if is_digit btn
    then some (record {
      display = (if starts_anew s then [] else s.display) ++ (btn ∷ []);
      clear_on_next = false;
    })
    else if is_operator btn
    then some (record { display = without_operator s.display ++ (btn ∷ []); clear_on_next = false })
    else if btn == b'='
    then answer format (evaluate_expression s.display)
    else if btn == b'C'
    then some (record { display = b'0' ∷ []; clear_on_next = false })
    else some s

unfoldable pub press_all : (ℤ → List ℕ) → Calculator → List ℕ → Option Calculator
press_all format s [] = some s
press_all format s (btn ∷ btns) = do s' ← press format s btn; press_all format s' btns
