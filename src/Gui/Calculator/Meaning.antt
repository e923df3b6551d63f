-- ===== src/Gui/Calculator/Meaning.antt =====
-- What an expression of the calculator of kernel/src/gui/window.rs means: a sum of products of literals,
-- each read from the left. The two stacks compute that.
use kafka_os.Base.{ℕ, ◌-◌, ◌≡◌, true, List, [], ◌∷◌, ◌++◌}
use kafka_os.Base.Int.{ℤ, pos, add_i32, mul_i32}
use kafka_os.Gui.Calculator.{Outcome, ◌>>=◌, apply_op, is_digit}

pub data AddOp : Type 0 where
  plus minus : AddOp

pub data MulOp : Type 0 where
  times over : MulOp

-- The digits of a number.
pub record Literal : Type 0 where
  pub first : ℕ
  pub rest : List ℕ

pub record Product : Type 0 where
  pub factor : Literal
  pub factors : List (MulOp × Literal)

pub record Sum : Type 0 where
  pub term : Product
  pub terms : List (AddOp × Product)

abbrev pub add_code : AddOp → ℕ
add_code AddOp.plus = b'+'
add_code AddOp.minus = b'-'

abbrev pub mul_code : MulOp → ℕ
mul_code MulOp.times = b'*'
mul_code MulOp.over = b'/'

-- The text of an expression.
abbrev pub print_literal : Literal → List ℕ → List ℕ
print_literal l tail = l.first ∷ (l.rest ++ tail)

abbrev pub print_factors : List (MulOp × Literal) → List ℕ → List ℕ
print_factors [] tail = tail
print_factors ((m, l) ∷ r) tail = mul_code m ∷ print_literal l (print_factors r tail)

abbrev pub print_product : Product → List ℕ → List ℕ
print_product p tail = print_literal p.factor (print_factors p.factors tail)

abbrev pub print_terms : List (AddOp × Product) → List ℕ
print_terms [] = []
print_terms ((a, p) ∷ r) = add_code a ∷ print_product p (print_terms r)

abbrev pub print : Sum → List ℕ
print e = print_product e.term (print_terms e.terms)

-- Its value.
abbrev pub value_from : ℤ → List ℕ → ℤ
value_from n [] = n
value_from n (d ∷ digits) = value_from (add_i32 (mul_i32 n (pos 10)) (pos (d - 48))) digits

abbrev pub value_literal : Literal → ℤ
value_literal l = value_from (pos 0) (l.first ∷ l.rest)

abbrev pub product_from : ℤ → List (MulOp × Literal) → Outcome ℤ
product_from acc [] = Outcome.ok acc
product_from acc ((m, l) ∷ r) =
    apply_op acc (value_literal l) (mul_code m) >>= λ w. product_from w r

abbrev pub value_product : Product → Outcome ℤ
value_product p = product_from (value_literal p.factor) p.factors

abbrev pub sum_from : ℤ → List (AddOp × Product) → Outcome ℤ
sum_from acc [] = Outcome.ok acc
sum_from acc ((a, p) ∷ r) =
    value_product p >>= λ v. apply_op acc v (add_code a) >>= λ w. sum_from w r

abbrev pub value : Sum → Outcome ℤ
value e = value_product e.term >>= λ v. sum_from v e.terms

-- The characters of every literal are digits.
abbrev pub AreDigits : List ℕ → Type 0
AreDigits [] = Unit {0}
AreDigits (d ∷ digits) = (is_digit d ≡ true) × AreDigits digits

abbrev pub IsLiteral : Literal → Type 0
IsLiteral l = AreDigits (l.first ∷ l.rest)

abbrev pub AreFactors : List (MulOp × Literal) → Type 0
AreFactors [] = Unit {0}
AreFactors ((m, l) ∷ r) = IsLiteral l × AreFactors r

abbrev pub IsProduct : Product → Type 0
IsProduct p = IsLiteral p.factor × AreFactors p.factors

abbrev pub AreTerms : List (AddOp × Product) → Type 0
AreTerms [] = Unit {0}
AreTerms ((a, p) ∷ r) = IsProduct p × AreTerms r

abbrev pub IsSum : Sum → Type 0
IsSum e = IsProduct e.term × AreTerms e.terms
