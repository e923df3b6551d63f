-- ===== src/Gui/Calculator/Machine.antt =====
-- The two stacks of the calculator of kernel/src/gui/window.rs compute the value of an expression.
use kafka_os.Base.{ℕ, true, false, List, [], ◌∷◌}
use kafka_os.Base.Int.{ℤ, pos}
use kafka_os.Gui.Calculator.{Outcome, Stacks, scan}
use kafka_os.Gui.Calculator.Meaning.{AddOp, Product, add_code, print_terms}

-- What is left of the sum before a product: nothing, or its value so far and the operator.
data Base : Type 0 where
  empty : Base
  pending : ℤ → AddOp → Base

base_nums : Base → List ℤ
base_nums Base.empty = []
base_nums (Base.pending acc a) = acc ∷ []

base_ops : Base → List ℕ
base_ops Base.empty = []
base_ops (Base.pending acc a) = add_code a ∷ []

-- An operator after a number, of either kind.
abbrev pushed : ℕ → List ℕ → Stacks → Outcome ℤ
pushed c tail t = scan tail (pos 0) false (record { nums = t.nums; ops = c ∷ t.ops })

-- What the code does after the product at the top, on what is left of the sum.
abbrev after : List (AddOp × Product) → Base → ℤ → Outcome ℤ
after r b w = scan (print_terms r) w true (record { nums = base_nums b; ops = base_ops b })
