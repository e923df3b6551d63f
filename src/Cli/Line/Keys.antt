-- ===== src/Cli/Line/Keys.antt =====
-- Keys at the prompt of kernel/src/cli.rs.
use kafka_os.Base.{
  ℕ, ◌+◌, ◌-◌, ◌<◌, ◌≡◌, inl, inr, refl, Bool, true, false, not, Option, some, List, [], ◌∷◌, ltb,
  ◌==◌, if◌then◌else◌, length, ◌>>=◌, arith, Bool-cases,
}
use kafka_os.Notepad.Handlers.{KeyCode, DecodedKey}
use kafka_os.Notepad.Edit.Total.{Returns, Returns-bind, get_elem?_lt}
use kafka_os.Cli.Text.{Word, is_empty}
use kafka_os.Cli.Line.{Cli, erase_last, type_char, recall, arrow_up, arrow_down, press, on_key}
use kafka_os.Cli.Line.Session.{IsSession}

module _ (lines : List Word) where
  erase_last-IsSession : (c : Cli) → IsSession lines c → IsSession lines (erase_last c)
  unfolding erase_last
  erase_last-IsSession c s = elim (Bool-cases (is_empty c.input_buffer)) [
    | inl e ↦ rw e s
    | inr e ↦
        rw e (record { closed = s.closed; history_kept = s.history_kept; index_le = s.index_le })
  ]

  recall-IsSession :
      (c : Cli) (index : ℕ)
      → IsSession lines c
      → index < length c.history
      → Returns (IsSession lines) (recall c index)
  unfolding recall
  recall-IsSession c index s h =
      let (l, e) = get_elem?_lt c.history index h in
      rw e
        (record { closed = s.closed; history_kept = s.history_kept; index_le = omega (arith, h) })

  arrow_up-IsSession : (c : Cli) → IsSession lines c → Returns (IsSession lines) (arrow_up c)
  unfolding arrow_up
  arrow_up-IsSession c s =
      let le = s.index_le in
      elim (Bool-cases (ltb 0 c.history_index)) [
        | inl e ↦ rw e (recall-IsSession c (c.history_index - 1) s (ground arith))
        | inr e ↦ rw e s
      ]

  arrow_down-IsSession : (c : Cli) → IsSession lines c → Returns (IsSession lines) (arrow_down c)
  unfolding arrow_down
  arrow_down-IsSession c s = elim (Bool-cases (ltb c.history_index (length c.history))) [
    | inr e ↦ rw e s
    | inl e ↦ elim (Bool-cases (c.history_index + 1 == length c.history)) [
      | inr f ↦
          let le = s.index_le in
          rw (e, f) (recall-IsSession c (c.history_index + 1) s (ground arith))
      | inl f ↦
          rw (e, f)
            (record { closed = s.closed; history_kept = s.history_kept; index_le = ground arith })
    ]
  ]

-- A key that does not end the line.
abbrev pub is_line_key : DecodedKey → Bool
is_line_key (DecodedKey.unicode ch) = not (ch == b'\n')
is_line_key (DecodedKey.raw_key code) = true

abbrev pub AreLineKeys : List DecodedKey → Type 0
AreLineKeys [] = Unit {0}
AreLineKeys (k ∷ ks) = (is_line_key k ≡ true) × AreLineKeys ks

abbrev pub on_keys : List DecodedKey → Cli → Option Cli
on_keys [] c = some c
on_keys (k ∷ ks) c = on_key k false false c >>= on_keys ks

module _ (lines : List Word) where
  press-IsSession :
      (k : DecodedKey) (c : Cli)
      → is_line_key k ≡ true
      → IsSession lines c
      → Returns (IsSession lines) (press k c)
  unfolding press type_char
  press-IsSession (DecodedKey.unicode ch) c h s =
      let begun : (ch == b'\n') ≡ false = ground arith in
      rw begun (elim (Bool-cases (ch == 8)) [
        | inl e ↦ rw e (erase_last-IsSession lines c s)
        | inr e ↦
            rw e
              (record { closed = s.closed; history_kept = s.history_kept; index_le = s.index_le })
      ])
  press-IsSession (DecodedKey.raw_key KeyCode.arrow_up) c h s = arrow_up-IsSession lines c s
  press-IsSession (DecodedKey.raw_key KeyCode.arrow_down) c h s = arrow_down-IsSession lines c s
  press-IsSession (DecodedKey.raw_key KeyCode.arrow_left) c h s = s
  press-IsSession (DecodedKey.raw_key KeyCode.arrow_right) c h s = s
  press-IsSession (DecodedKey.raw_key KeyCode.home) c h s = s
  press-IsSession (DecodedKey.raw_key KeyCode.end) c h s = s
  press-IsSession (DecodedKey.raw_key KeyCode.delete_key) c h s = s
  press-IsSession (DecodedKey.raw_key KeyCode.escape) c h s = s
  press-IsSession (DecodedKey.raw_key KeyCode.other) c h s = s

-- While the editor is closed, a key is one of the prompt.
pub on_key-press :
    (k : DecodedKey) (c : Cli) → c.shell.editor.active ≡ false → on_key k false false c ≡ press k c
unfolding on_key
on_key-press k c closed = inactive c.shell.editor.active _ closed
  where
    inactive : (b : Bool) (o : Option Cli) → b ≡ false → (if b then o else press k c) ≡ press k c
    inactive true o e = cc
    inactive false o e = refl

-- Whatever is typed at the prompt without a line end, with the arrows between, no key is a panic: the editor
-- stays closed, the history is the one it was, and the place in it stays within it.
pub on_keys-IsSession :
    (keys : List DecodedKey) (lines : List Word) (c : Cli)
    → AreLineKeys keys
    → IsSession lines c
    → Returns (IsSession lines) (on_keys keys c)
on_keys-IsSession [] lines c h s = s
on_keys-IsSession (k ∷ ks) lines c (hk, h) s =
    Returns-bind (IsSession lines) (IsSession lines) (on_key k false false c) (on_keys ks)
      (rw (on_key-press k c s.closed) (press-IsSession lines k c hk s))
      (λ d q. on_keys-IsSession ks lines d h q)
