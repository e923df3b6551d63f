-- ===== src/Gui/Calculator.antt =====
-- The calculator of kernel/src/gui/window.rs. A character is its code, and the numbers are i32. A
-- panic is a division that overflows, or `unwrap` of nothing.
pub mod Meaning
pub mod Machine
pub mod Buttons
use kafka_os.Base.{
  ℕ, ◌+◌, ◌-◌, ◌*◌, ◌≡◌, Bool, true, false, ◌&&◌, ◌||◌, not, Option, none, some, List, [], ◌∷◌,
  ◌++◌, ltb, leb, ◌==◌, if◌then◌else◌, length,
}
use kafka_os.Base.Int.{ℤ, pos, negsuc, eqb_ℤ, ◌/ℤ◌, add_i32, sub_i32, mul_i32}
use kafka_os.BTreeMap.{text_eq}

pub data EvalError : Type 0 where
  syntax_error parse_error div_by_zero invalid_op : EvalError

-- What a function of type `Result<A, &'static str>` does.
pub data Outcome {ℓ} (A : Type ℓ) : Type ℓ where
  ok : A → Outcome A
  err : EvalError → Outcome A
  panic : Outcome A

infixl 5 ◌>>=◌
abbrev pub ◌>>=◌ {ℓ κ} : {A : Type ℓ} {B : Type κ} → Outcome A → (A → Outcome B) → Outcome B
ok a >>= f = f a
err e >>= f = err e
panic >>= f = panic

abbrev pub i32_min : ℤ
i32_min = negsuc 2147483647

unfoldable pub precedence : ℕ → ℕ
precedence op = if op == b'+' || op == b'-' then 1 else if op == b'*' || op == b'/' then 2 else 0

unfoldable pub apply_op : ℤ → ℤ → ℕ → Outcome ℤ
apply_op a b op =
    if op == b'+'
    then Outcome.ok (add_i32 a b)
    else if op == b'-'
    then Outcome.ok (sub_i32 a b)
    else if op == b'*'
    then Outcome.ok (mul_i32 a b)
    else if op == b'/'
    then (if eqb_ℤ b (pos 0)
        then Outcome.err EvalError.div_by_zero
        else if eqb_ℤ a i32_min && eqb_ℤ b (negsuc 0)
        then Outcome.panic
        else Outcome.ok (a /ℤ b))
    else Outcome.err EvalError.invalid_op

abbrev pub is_digit : ℕ → Bool
is_digit c = leb b'0' c && leb c b'9'

abbrev pub is_operator : ℕ → Bool
is_operator c = (c == b'+' || c == b'-') || (c == b'*' || c == b'/')

-- The two stacks, the top first.
pub record Stacks : Type 0 where
  pub nums : List ℤ
  pub ops : List ℕ

-- Two operands and an operator are replaced by the result.
unfoldable pub reduce : ℕ → List ℤ → Outcome (List ℤ)
unfolding apply_op
reduce op [] = Outcome.panic
reduce op (b ∷ []) = Outcome.panic
reduce op (b ∷ a ∷ nums) = do r ← apply_op a b op; Outcome.ok (r ∷ nums)

-- The loop before an operator is pushed.
unfoldable pub collapse : ℕ → List ℕ → List ℤ → Outcome Stacks
collapse c [] nums = Outcome.ok (record { nums = nums; ops = [] })
collapse c (top_op ∷ ops) nums =
    let rest = λ (reduced : List ℤ). collapse c ops reduced in
    if leb (precedence c) (precedence top_op)
    then reduce top_op nums >>= rest
    else Outcome.ok (record { nums = nums; ops = top_op ∷ ops })

-- The last loop: it pops an operator before it looks at the operands.
unfoldable pub finish : List ℕ → List ℤ → Outcome ℤ
finish [] (n ∷ []) = Outcome.ok n
finish [] _ = Outcome.err EvalError.parse_error
finish (op ∷ ops) nums =
    let rest = λ (reduced : List ℤ). finish ops reduced in
    if ltb (length nums) 2 then Outcome.err EvalError.syntax_error else reduce op nums >>= rest

-- The loop over the characters, and what follows it.
unfoldable pub scan : List ℕ → ℤ → Bool → Stacks → Outcome ℤ
scan [] current_num parsing_num s =
    if parsing_num then finish s.ops (current_num ∷ s.nums) else Outcome.err EvalError.syntax_error
scan (c ∷ expr) current_num parsing_num s =
    let digit = scan expr (add_i32 (mul_i32 current_num (pos 10)) (pos (c - 48))) true s in
    let operator = collapse c s.ops (current_num ∷ s.nums) >>= λ t.
    scan expr (pos 0) false (record { nums = t.nums; ops = c ∷ t.ops }) in
    let other = scan expr current_num parsing_num s in
    if is_digit c
    then digit
    else if is_operator c
    then (if parsing_num then operator else Outcome.err EvalError.syntax_error)
    else other

unfoldable pub evaluate_expression : List ℕ → Outcome ℤ
evaluate_expression expr = scan expr (pos 0) false (record { nums = []; ops = [] })
