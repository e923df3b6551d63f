-- ===== src/Fs/Text.antt =====
-- What kernel/src/fs.rs does with text: `core::str::from_utf8`, `trim`, `trim_matches` and
-- `u64::from_str_radix` of the standard library, and the two field parsers of the TAR header.
use kafka_os.Base.{
  ℕ, ◌+◌, ◌-◌, ◌*◌, Bool, true, false, ◌&&◌, ◌||◌, Option, none, some, List, [], ◌∷◌, ltb, leb,
  ◌==◌, if◌then◌else◌, u64_mod,
}
use mathlib.Core.Option
use mathlib.Core.List.{reverse}

-- The decoder between two bytes: how many bytes the character still needs, the range of the next, and
-- the bits so far.
pub record Utf8 : Type 0 where
  pub need : ℕ
  pub lo : ℕ
  pub hi : ℕ
  pub bits : ℕ

abbrev pub idle : Utf8
idle = record { need = 0; lo = 0; hi = 0; bits = 0 }

abbrev expect : ℕ → ℕ → ℕ → ℕ → Option (Utf8 × Option ℕ)
expect need lo hi bits = some (record { need = need; lo = lo; hi = hi; bits = bits }, none)

-- The first byte of a character.
unfoldable pub utf8_first : ℕ → Option (Utf8 × Option ℕ)
utf8_first b =
    if ltb b 0x80
    then some (idle, some b)
    else if ltb b 0xc2
    then none
    else if ltb b 0xe0
    then expect 1 0x80 0xbf (b - 0xc0)
    else if b == 0xe0
    then expect 2 0xa0 0xbf 0
    else if b == 0xed
    then expect 2 0x80 0x9f 0xd
    else if ltb b 0xf0
    then expect 2 0x80 0xbf (b - 0xe0)
    else if b == 0xf0
    then expect 3 0x90 0xbf 0
    else if ltb b 0xf4
    then expect 3 0x80 0xbf (b - 0xf0)
    else if b == 0xf4
    then expect 3 0x80 0x8f 4
    else none

unfoldable pub utf8_next : Utf8 → ℕ → Option (Utf8 × Option ℕ)
unfolding utf8_first
utf8_next u b =
    if u.need == 0
    then utf8_first b
    else if leb u.lo b && leb b u.hi
    then (if u.need == 1
        then some (idle, some (u.bits * 64 + (b - 0x80)))
        else expect (u.need - 1) 0x80 0xbf (u.bits * 64 + (b - 0x80)))
    else none

abbrev pub put : Option ℕ → List ℕ → List ℕ
put none s = s
put (some c) s = c ∷ s

unfoldable pub utf8_from : Utf8 → List ℕ → Option (List ℕ)
unfolding utf8_next
utf8_from u [] = if u.need == 0 then some [] else none
utf8_from u (b ∷ bs) = elim (utf8_next u b) [
  | none ↦ none
  | some (v, c) ↦ Option.map (put c) (utf8_from v bs)
]

unfoldable pub from_utf8 : List ℕ → Option (List ℕ)
unfolding utf8_from
from_utf8 bytes = utf8_from idle bytes

unfoldable pub skip : (ℕ → Bool) → List ℕ → List ℕ
skip test [] = []
skip test (c ∷ s) = elim (test c) [ true ↦ skip test s | false ↦ c ∷ s ]

-- Both ends of the text.
unfoldable pub trim_where : (ℕ → Bool) → List ℕ → List ℕ
unfolding skip
trim_where test s = reverse (skip test (reverse (skip test s)))

-- Unicode's `White_Space`.
abbrev pub is_whitespace : ℕ → Bool
is_whitespace c =
    (leb 9 c && leb c 13)
    || c == 32
    || c == 0x85
    || c == 0xa0
    || c == 0x1680
    || (leb 0x2000 c && leb c 0x200a)
    || c == 0x2028
    || c == 0x2029
    || c == 0x202f
    || c == 0x205f
    || c == 0x3000

unfoldable pub trim : List ℕ → List ℕ
unfolding trim_where
trim s = trim_where is_whitespace s

unfoldable pub trim_zeros : List ℕ → List ℕ
unfolding trim_where
trim_zeros s = trim_where (λ c. c == 0) s

-- The digits of `from_str_radix(s, 8)`; an overflow is an error.
unfoldable pub octal_digits : ℕ → List ℕ → Option ℕ
octal_digits acc [] = some acc
octal_digits acc (c ∷ s) =
    let next = acc * 8 + (c - b'0') in
    let rest = octal_digits next s in
    if leb b'0' c && leb c b'7' && ltb next u64_mod then rest else none

-- The empty text and a lone sign are errors; a leading `+` is skipped.
unfoldable pub from_octal : List ℕ → Option ℕ
unfolding octal_digits
from_octal [] = none
from_octal (c ∷ []) = if c == b'+' then none else octal_digits 0 (c ∷ [])
from_octal (c ∷ d ∷ s) = if c == b'+' then octal_digits 0 (d ∷ s) else octal_digits 0 (c ∷ d ∷ s)

abbrev or_else {ℓ} : {A : Type ℓ} → Option A → A → A
or_else none d = d
or_else (some a) d = a

unfoldable pub parse_string : List ℕ → List ℕ
unfolding from_utf8 trim_zeros
parse_string bytes = trim_zeros (or_else (from_utf8 bytes) [])

unfoldable pub parse_octal : List ℕ → ℕ
unfolding from_utf8 trim_zeros trim from_octal
parse_octal bytes =
    or_else (from_octal (trim (trim_zeros (or_else (from_utf8 bytes) (b'0' ∷ []))))) 0
