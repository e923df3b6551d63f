-- ===== src/Cli/Line/Browse.antt =====
-- The history that the arrow keys of kernel/src/cli.rs go through.
use kafka_os.Base.{
  ℕ, zero, suc, ◌+◌, ◌-◌, ◌≤◌, ◌<◌, ◌≡◌, ◌∙◌, inl, inr, refl, sym, ap, true, false, some, List, [],
  ◌∷◌, ltb, ◌==◌, if◌then◌else◌, length, get_elem?, arith, Bool-cases,
}
use kafka_os.Notepad.Handlers.{KeyCode, DecodedKey}
use kafka_os.Notepad.Edit.Total.{Returns, Returns-bind}
use kafka_os.Cli.Text.{Word}
use kafka_os.Cli.Line.{Cli, recall, arrow_up, arrow_down, press}
use kafka_os.Cli.Line.Keys.{on_keys, on_key-press}

pub data Arrow : Type 0 where
  earlier later : Arrow

abbrev pub key_of : Arrow → DecodedKey
key_of Arrow.earlier = DecodedKey.raw_key KeyCode.arrow_up
key_of Arrow.later = DecodedKey.raw_key KeyCode.arrow_down

abbrev pub keys_of : List Arrow → List DecodedKey
keys_of [] = []
keys_of (a ∷ arrows) = key_of a ∷ keys_of arrows

-- The place between 0 and `n` that arrows lead to. Each stops at its end.
abbrev pub walk : ℕ → List Arrow → ℕ → ℕ
walk n [] i = i
walk n (Arrow.earlier ∷ arrows) i = walk n arrows (i - 1)
walk n (Arrow.later ∷ arrows) i = walk n arrows (if ltb i n then i + 1 else i)

-- The line of the history at a place, and the empty line behind the last.
abbrev pub line_at : List Word → ℕ → Word
line_at [] i = []
line_at (l ∷ lines) zero = l
line_at (l ∷ lines) (suc i) = line_at lines i

-- The prompt shows the line at a place of the history.
pub record IsAt (lines : List Word) (i : ℕ) (c : Cli) : Type 0 where
  pub closed : c.shell.editor.active ≡ false
  pub history_kept : c.history ≡ lines
  pub index_at : c.history_index ≡ i
  pub index_le : i ≤ length lines
  pub line_shown : c.input_buffer ≡ line_at lines i

line_at-end : (lines : List Word) → line_at lines (length lines) ≡ []
line_at-end [] = refl
line_at-end (l ∷ lines) = line_at-end lines

line_at-get_elem? :
    (lines : List Word) (i : ℕ) → i < length lines → get_elem? lines i ≡ some (line_at lines i)
line_at-get_elem? [] i h = absurd (omega arith)
line_at-get_elem? (l ∷ lines) zero h = refl
line_at-get_elem? (l ∷ lines) (suc i) h = line_at-get_elem? lines i (omega arith)

module _ (lines : List Word) where
  recall-IsAt :
      (c : Cli) (i j : ℕ) → IsAt lines i c → j < length lines → Returns (IsAt lines j) (recall c j)
  unfolding recall
  recall-IsAt c i j at h =
      let e : get_elem? c.history j ≡ some (line_at lines j) =
        ap (λ (ls : List Word). get_elem? ls j) at.history_kept ∙ line_at-get_elem? lines j h in
      rw e (record {
        closed = at.closed;
        history_kept = at.history_kept;
        index_at = refl;
        index_le = omega (arith, h);
        line_shown = refl;
      })

  arrow_up-IsAt : (c : Cli) (i : ℕ) → IsAt lines i c → Returns (IsAt lines (i - 1)) (arrow_up c)
  unfolding arrow_up
  arrow_up-IsAt c i at =
      let k = at.index_at in
      let le = at.index_le in
      elim (Bool-cases (ltb 0 c.history_index)) [
        | inl e ↦
            let same : c.history_index - 1 ≡ i - 1 = ap (λ n. n - 1) k in
            rw (e, same) (recall-IsAt c i (i - 1) at (ground arith))
        | inr e ↦ let same : i - 1 ≡ i = ground arith in rw (e, same) at
      ]

  arrow_down-IsAt :
      (c : Cli) (i : ℕ)
      → IsAt lines i c
      → Returns (IsAt lines (if ltb i (length lines) then i + 1 else i)) (arrow_down c)
  unfolding arrow_down
  arrow_down-IsAt c i at =
      let k = at.index_at in
      let n : length c.history ≡ length lines =
        ap (λ (ls : List Word). length ls) at.history_kept in
      let same : c.history_index + 1 ≡ i + 1 = ap (λ m. m + 1) k in
      elim (Bool-cases (ltb i (length lines))) [
        | inr e ↦
            let e' : ltb c.history_index (length c.history) ≡ false = ground arith in rw (e, e') at
        | inl e ↦
            let e' : ltb c.history_index (length c.history) ≡ true = ground arith in
            elim (Bool-cases (i + 1 == length lines)) [
              | inl f ↦
                  let f' : (c.history_index + 1 == length c.history) ≡ true = ground arith in
                  let last : i + 1 ≡ length lines = ground arith in
                  rw (e, e', f')
                    (record {
                      closed = at.closed;
                      history_kept = at.history_kept;
                      index_at = same;
                      index_le = ground arith;
                      line_shown = sym (ap (λ m. line_at lines m) last ∙ line_at-end lines);
                    })
              | inr f ↦
                  let f' : (c.history_index + 1 == length c.history) ≡ false = ground arith in
                  rw (e, e', f', same) (recall-IsAt c i (i + 1) at (ground arith))
            ]
      ]

  press_arrow-IsAt :
      (a : Arrow) (c : Cli) (i : ℕ)
      → IsAt lines i c
      → Returns (IsAt lines (walk (length lines) (a ∷ []) i)) (press (key_of a) c)
  unfolding press
  press_arrow-IsAt Arrow.earlier c i at = arrow_up-IsAt c i at
  press_arrow-IsAt Arrow.later c i at = arrow_down-IsAt c i at

  arrows-IsAt :
      (arrows : List Arrow) (c : Cli) (i : ℕ)
      → IsAt lines i c
      → Returns (IsAt lines (walk (length lines) arrows i)) (on_keys (keys_of arrows) c)
  arrows-IsAt [] c i at = at
  arrows-IsAt (Arrow.earlier ∷ arrows) c i at =
      rw (on_key-press (key_of Arrow.earlier) c at.closed) (
        Returns-bind (IsAt lines (i - 1)) _ (press (key_of Arrow.earlier) c)
          (on_keys (keys_of arrows)) (press_arrow-IsAt Arrow.earlier c i at)
          (λ d q. arrows-IsAt arrows d (i - 1) q))
  arrows-IsAt (Arrow.later ∷ arrows) c i at = rw (on_key-press (key_of Arrow.later) c at.closed) (
      Returns-bind (IsAt lines (if ltb i (length lines) then i + 1 else i)) _
        (press (key_of Arrow.later) c) (on_keys (keys_of arrows))
        (press_arrow-IsAt Arrow.later c i at) (λ d q. arrows-IsAt arrows d _ q))

-- From a prompt with an empty line behind the last of the history, no sequence of arrow keys is a panic: the
-- line is the one of the history at the place that the arrows lead to, each of which stops at its end, and
-- is empty behind the last; the history is as it was.
pub on_keys-IsAt :
    (arrows : List Arrow) (c : Cli)
    → c.shell.editor.active ≡ false
    → c.history_index ≡ length c.history
    → c.input_buffer ≡ []
    → Returns
        (IsAt c.history (walk (length c.history) arrows (length c.history)))
        (on_keys (keys_of arrows) c)
on_keys-IsAt arrows c closed last empty =
    arrows-IsAt c.history arrows c (length c.history) (record {
      closed = closed;
      history_kept = refl;
      index_at = last;
      index_le = omega arith;
      line_shown = empty ∙ sym (line_at-end c.history);
    })
