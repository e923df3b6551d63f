-- ===== src/Cli/Calc.antt =====
-- The command `calc` of kernel/src/cli.rs.
use kafka_os.Base.{
  ℕ, ◌-◌, ◌%◌, ◌^◌, Bool, false, ◌&&◌, ◌||◌, Option, none, some, List, [], ◌∷◌, ltb, ◌==◌,
  if◌then◌else◌,
}
use kafka_os.Base.Int.{ℤ, pos, negsuc, ◌+ℤ◌, ◌-ℤ◌, ◌*ℤ◌, ◌/ℤ◌}
use kafka_os.BTreeMap.{text_eq}
use kafka_os.Cli.Text.{Word, parse_i64}
use kafka_os.Cli.Output.{Message}

-- An `i64` wraps around, but for a quotient or a remainder, whose overflow is a panic.
unfoldable pub signed64 : ℕ → ℤ
signed64 n = if ltb n (2 ^ 63) then pos n else negsuc (2 ^ 64 - 1 - n)

unfoldable pub wrap64 : ℤ → ℤ
unfolding signed64
wrap64 (pos n) = signed64 (n % 2 ^ 64)
wrap64 (negsuc n) = signed64 (2 ^ 64 - 1 - n % 2 ^ 64)

abbrev is_zero : ℤ → Bool
is_zero (pos n) = n == 0
is_zero (negsuc n) = false

-- The least `i64` by -1.
abbrev overflows : ℤ → ℤ → Bool
overflows (negsuc a) (negsuc b) = (a == 2 ^ 63 - 1) && (b == 0)
overflows (negsuc a) (pos b) = false
overflows (pos a) b = false

abbrev rem_ℤ : ℤ → ℤ → ℤ
rem_ℤ a b = a -ℤ a /ℤ b *ℤ b

unfoldable pub calculate : Word → ℤ → ℤ → Option Message
unfolding ◌+ℤ◌ ◌-ℤ◌ ◌*ℤ◌ ◌/ℤ◌ wrap64
calculate op a b =
    if text_eq op (b'+' ∷ [])
    then some (Message.result (wrap64 (a +ℤ b)))
    else if text_eq op (b'-' ∷ [])
    then some (Message.result (wrap64 (a -ℤ b)))
    else if text_eq op (b'*' ∷ [])
    then some (Message.result (wrap64 (a *ℤ b)))
    else if text_eq op (b'/' ∷ [])
    then (if is_zero b
        then some Message.division_by_zero
        else if overflows a b
        then none
        else some (Message.result (a /ℤ b)))
    else if text_eq op (b'%' ∷ [])
    then (if is_zero b || overflows a b then none else some (Message.result (rem_ℤ a b)))
    else some (Message.unknown_operator op)

abbrev calculate_parsed : Word → Word → Word → Option ℤ → Option ℤ → Option Message
calculate_parsed n op m none b = some (Message.not_a_number n)
calculate_parsed n op m (some a) none = some (Message.not_a_number m)
calculate_parsed n op m (some a) (some b) = calculate op a b

abbrev calc_usage : Message
calc_usage = Message.usage (b'c' ∷ b'a' ∷ b'l' ∷ b'c' ∷ [])

unfoldable pub calc : List Word → Option Message
calc [] = some calc_usage
calc (n ∷ []) = some Message.missing_operator
calc (n ∷ op ∷ []) = some calc_usage
calc (n ∷ op ∷ m ∷ args) = calculate_parsed n op m (parse_i64 n) (parse_i64 m)
