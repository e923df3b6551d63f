-- ===== src/Gui/Calculator/Buttons/Typing.antt =====
-- Typing an expression on the calculator of kernel/src/gui/window.rs.
use kafka_os.Base.{
  ℕ, ◌≤◌, ◌≡◌, ◌∙◌, ◌⊎◌, inl, inr, refl, sym, ap, Bool, true, false, Option, none, some, List, [],
  ◌∷◌, ◌++◌, append_assoc, append-nil, ◌==◌, ◌>>=◌, arith,
}
use kafka_os.Base.Int.{ℤ}
use kafka_os.BTreeMap.{text_eq}
use kafka_os.Gui.Calculator.{is_digit, is_operator, evaluate_expression}
use kafka_os.Gui.Calculator.Buttons.{
  Calculator, press, press_all, answer, without_operator, starts_anew,
}

-- Digits and operators; after an operator, a digit.
abbrev pub IsTyped : Bool → List ℕ → Type 0
IsTyped operator [] = Unit {0}
IsTyped operator (c ∷ cs) =
    ((is_digit c ≡ true) ⊎ ((operator ≡ false) × (is_digit c ≡ false) × (is_operator c ≡ true)))
    × IsTyped (is_operator c) cs

-- Whether the last character is an operator.
abbrev ends_in : List ℕ → Bool
ends_in [] = false
ends_in (c ∷ []) = is_operator c
ends_in (c ∷ d ∷ cs) = ends_in (d ∷ cs)

without_operator_same : (cs : List ℕ) → ends_in cs ≡ false → without_operator cs ≡ cs
without_operator_same [] e = refl
without_operator_same (c ∷ []) e = rw e refl
without_operator_same (c ∷ d ∷ cs) e = ap (◌∷◌ c) (without_operator_same (d ∷ cs) e)

ends_in-append : (cs : List ℕ) (c : ℕ) → ends_in (cs ++ (c ∷ [])) ≡ is_operator c
ends_in-append [] c = refl
ends_in-append (d ∷ []) c = refl
ends_in-append (d ∷ e ∷ cs) c = ends_in-append (e ∷ cs) c

-- A display that begins with another digit than 0.
abbrev Keeps : ℕ → Type 0
Keeps f = (49 ≤ f) × (f ≤ 57)

starts_anew-Keeps :
    (f : ℕ) (cs : List ℕ)
    → Keeps f
    → starts_anew (record { display = f ∷ cs; clear_on_next = false }) ≡ false
starts_anew-Keeps f cs (lo, hi) =
    let zeroth : (f == 48) ≡ false = ground arith in
    let no_error : (f == 69) ≡ false = ground arith in
    let no_division : (f == 68) ≡ false = ground arith in rw (zeroth, no_error, no_division) refl

-- A display that is being typed.
abbrev typed : List ℕ → Calculator
typed cs = record { display = cs; clear_on_next = false }

press-typed :
    (format : ℤ → List ℕ) (f : ℕ) (ds : List ℕ) (c : ℕ)
    → Keeps f
    → (is_digit c ≡ true)
      ⊎ ((ends_in (f ∷ ds) ≡ false) × (is_digit c ≡ false) × (is_operator c ≡ true))
    → press format (typed (f ∷ ds)) c ≡ some (typed (f ∷ (ds ++ (c ∷ []))))
unfolding press
press-typed format f ds c h (inl digit) = rw (digit, starts_anew-Keeps f ds h) refl
press-typed format f ds c h (inr (last, other, operator)) =
    rw (other, operator, without_operator_same (f ∷ ds) last) refl

press_all-typed :
    (format : ℤ → List ℕ) (f : ℕ) (ds cs after : List ℕ)
    → Keeps f
    → IsTyped (ends_in (f ∷ ds)) cs
    → press_all format (typed (f ∷ ds)) (cs ++ after)
      ≡ press_all format (typed (f ∷ (ds ++ cs))) after
unfolding press_all
press_all-typed format f ds [] after h t =
    ap (λ (l : List ℕ). press_all format (typed (f ∷ l)) after) (sym (append-nil ds))
press_all-typed format f ds (c ∷ cs) after h (first, t) =
    let grown = ds ++ (c ∷ []) in
    let last : IsTyped (ends_in (f ∷ grown)) cs = rw (ends_in-append (f ∷ ds) c) t in
    ap (λ (o : Option Calculator). o >>= (λ s. press_all format s (cs ++ after)))
      (press-typed format f ds c h first)
    ∙ press_all-typed format f grown cs after h last
    ∙ ap (λ (l : List ℕ). press_all format (typed (f ∷ l)) after) (append_assoc ds (c ∷ []) cs)

starts_at_zero :
    (s : Calculator) → (s.clear_on_next ≡ true) ⊎ (s.display ≡ b'0' ∷ []) → starts_anew s ≡ true
starts_at_zero s (inl clear) = rw clear refl
starts_at_zero s (inr zeroth) =
    let shown : text_eq s.display (b'0' ∷ []) ≡ true =
      ap (λ (l : List ℕ). text_eq l (b'0' ∷ [])) zeroth in
    ground arith

-- Typing on a calculator that shows 0, or an answer, a text of digits and operators that begins with a digit
-- from 1 to 9 and has no two operators in a row, shows exactly this text, and its keys can be followed by
-- any others.
typing :
    (format : ℤ → List ℕ) (s : Calculator) (f : ℕ) (cs after : List ℕ)
    → (s.clear_on_next ≡ true) ⊎ (s.display ≡ b'0' ∷ [])
    → Keeps f
    → IsTyped false cs
    → press_all format s (f ∷ (cs ++ after)) ≡ press_all format (typed (f ∷ cs)) after
unfolding press_all press
typing format s f cs after start (lo, hi) t =
    let digit : is_digit f ≡ true = ground arith in
    let no_operator : is_operator f ≡ false = ground arith in
    let last : IsTyped (is_operator f) cs = rw no_operator t in
    let first : press format s f ≡ some (typed (f ∷ [])) =
      rw (digit, starts_at_zero s start) refl in
    ap (λ (o : Option Calculator). o >>= (λ s'. press_all format s' (cs ++ after))) first
    ∙ press_all-typed format f [] cs after (lo, hi) last

bind_some : (o : Option Calculator) → (o >>= (λ s. some s)) ≡ o
bind_some none = refl
bind_some (some s) = refl

press_equals :
    (format : ℤ → List ℕ) (cs : List ℕ)
    → press_all format (typed cs) (b'=' ∷ []) ≡ answer format (evaluate_expression cs)
unfolding press_all press
press_equals format cs = bind_some (answer format (evaluate_expression cs))

-- On a calculator that shows 0, or an answer, the keys of a text of digits and operators that begins with a
-- digit from 1 to 9 and has no two operators in a row, and then the key `=`, give what the evaluation of
-- exactly this text gives: its result, the message of its error, or its panic.
pub press_all-evaluate_expression :
    (format : ℤ → List ℕ) (s : Calculator) (f : ℕ) (cs : List ℕ)
    → (s.clear_on_next ≡ true) ⊎ (s.display ≡ b'0' ∷ [])
    → (49 ≤ f) × (f ≤ 57)
    → IsTyped false cs
    → press_all format s (f ∷ (cs ++ (b'=' ∷ []))) ≡ answer format (evaluate_expression (f ∷ cs))
press_all-evaluate_expression format s f cs start h t =
    typing format s f cs (b'=' ∷ []) start h t ∙ press_equals format (f ∷ cs)
