-- ===== src/Cli/Text.antt =====
-- What kernel/src/cli.rs uses of the standard library's `str`, on texts as lists of characters.
use kafka_os.Base.{
  ℕ, suc, ◌+◌, ◌-◌, ◌*◌, ◌/◌, ◌%◌, ◌^◌, Bool, true, false, ◌&&◌, ◌||◌, Option, none, some, List, [],
  ◌∷◌, ◌++◌, ltb, leb, ◌==◌, if◌then◌else◌,
}
use kafka_os.Base.Int.{ℤ, pos, sub_ℕ}
use kafka_os.Fs.Text.{is_whitespace}

abbrev pub Word : Type 0
Word = List ℕ

abbrev pub is_empty : Word → Bool
is_empty [] = true
is_empty (c ∷ s) = false

abbrev flush : Word → List Word → List Word
flush w words = if is_empty w then words else w ∷ words

-- The words of a text, the first of which has begun.
unfoldable pub words_from : Word → List ℕ → List Word
words_from w [] = flush w []
words_from w (c ∷ s) = elim (is_whitespace c) [
  | true ↦ flush w (words_from [] s)
  | false ↦ words_from (w ++ (c ∷ [])) s
]

unfoldable pub split_whitespace : List ℕ → List Word
unfolding words_from
split_whitespace s = words_from [] s

abbrev pub strip_prefix : Word → Word → Option Word
strip_prefix s [] = some s
strip_prefix [] (p ∷ ps) = none
strip_prefix (c ∷ s) (p ∷ ps) = if c == p then strip_prefix s ps else none

abbrev pub starts_with : Word → Word → Bool
starts_with s [] = true
starts_with [] (p ∷ ps) = false
starts_with (c ∷ s) (p ∷ ps) = c == p && starts_with s ps

abbrev pub starts_with_slash : Word → Bool
starts_with_slash [] = false
starts_with_slash (c ∷ s) = c == b'/'

abbrev pub ends_with_slash : Word → Bool
ends_with_slash [] = false
ends_with_slash (c ∷ s) = (is_empty s && c == b'/') || ends_with_slash s

abbrev pub trim_start_slashes : Word → Word
trim_start_slashes [] = []
trim_start_slashes (c ∷ s) = if c == b'/' then trim_start_slashes s else c ∷ s

abbrev cons_trimmed : ℕ → Word → Word
cons_trimmed c t = if c == b'/' && is_empty t then [] else c ∷ t

abbrev pub trim_end_slashes : Word → Word
trim_end_slashes [] = []
trim_end_slashes (c ∷ s) = cons_trimmed c (trim_end_slashes s)

abbrev pub find_slash : Word → Option ℕ
find_slash [] = none
find_slash (c ∷ s) =
    if c == b'/' then some 0 else elim (find_slash s) [ none ↦ none | some i ↦ some (suc i) ]

abbrev pub rfind_slash : Word → Option ℕ
rfind_slash [] = none
rfind_slash (c ∷ s) = elim (rfind_slash s) [
  | some i ↦ some (suc i)
  | none ↦ if c == b'/' then some 0 else none
]

-- The bytes of UTF-8.
abbrev pub char_bytes : ℕ → List ℕ
char_bytes c =
    if ltb c 0x80
    then c ∷ []
    else if ltb c 0x800
    then (0xc0 + c / 64) ∷ (0x80 + c % 64) ∷ []
    else if ltb c 0x10000
    then (0xe0 + c / 4096) ∷ (0x80 + c / 64 % 64) ∷ (0x80 + c % 64) ∷ []
    else (0xf0 + c / 262144) ∷ (0x80 + c / 4096 % 64) ∷ (0x80 + c / 64 % 64) ∷ (0x80 + c % 64) ∷ []

abbrev pub as_bytes : List ℕ → List ℕ
as_bytes [] = []
as_bytes (c ∷ s) = char_bytes c ++ as_bytes s

-- The digits of an `i64`, up to a limit.
abbrev digits : ℕ → ℕ → Word → Option ℕ
digits limit acc [] = some acc
digits limit acc (c ∷ s) =
    let next = acc * 10 + (c - b'0') in
    let rest = digits limit next s in
    if leb b'0' c && leb c b'9' && leb next limit then rest else none

abbrev nonempty_digits : ℕ → Word → Option ℕ
nonempty_digits limit [] = none
nonempty_digits limit (c ∷ s) = digits limit 0 (c ∷ s)

abbrev signed : Option ℕ → Option ℤ
signed none = none
signed (some n) = some (pos n)

abbrev negated : Option ℕ → Option ℤ
negated none = none
negated (some n) = some (sub_ℕ 0 n)

-- `parse::<i64>()`: a sign or none, and a digit at least.
unfoldable pub parse_i64 : Word → Option ℤ
parse_i64 [] = none
parse_i64 (c ∷ s) =
    if c == b'-'
    then negated (nonempty_digits (2 ^ 63) s)
    else if c == b'+'
    then signed (nonempty_digits (2 ^ 63 - 1) s)
    else signed (nonempty_digits (2 ^ 63 - 1) (c ∷ s))

-- `String::pop`.
abbrev pub without_last : List ℕ → List ℕ
without_last [] = []
without_last (c ∷ []) = []
without_last (c ∷ d ∷ s) = c ∷ without_last (d ∷ s)
