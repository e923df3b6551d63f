-- ===== src/Fs/Tar.antt =====
-- `TarFileSystem` of kernel/src/fs.rs. The loops take fuel; a round more than the archive has bytes is
-- enough.
pub mod Fuel
use kafka_os.Base.{
  ℕ, zero, suc, ◌+◌, ◌-◌, ◌*◌, ◌/◌, ◌≤◌, ◌<◌, ◌≡◌, refl, Bool, true, false, Option, none, some,
  List, [], ◌∷◌, length, take, drop, get_or, ltb, leb, ◌==◌, if◌then◌else◌, arith, Bool-cases, inl,
  inr,
}
use mathlib.Core.Option
use kafka_os.BTreeMap.{text_eq}
use kafka_os.Fs.Text.{parse_string, parse_octal, trim}

-- `&data[from..to]` where the range lies inside.
abbrev pub slice : List ℕ → ℕ → ℕ → List ℕ
slice bytes from to = take (to - from) (drop from bytes)

unfoldable pub header_name : List ℕ → ℕ → List ℕ
unfolding parse_string
header_name archive ptr = parse_string (slice (slice archive ptr (ptr + 512)) 0 100)

unfoldable pub header_size : List ℕ → ℕ → ℕ
unfolding parse_octal
header_size archive ptr = parse_octal (slice (slice archive ptr (ptr + 512)) 124 136)

-- The loop goes on: a whole header is left, and it does not begin with a zero byte.
abbrev pub has_entry : List ℕ → ℕ → Bool
has_entry archive ptr =
    if leb (ptr + 512) (length archive)
    then (if get_or archive ptr 0 == 0 then false else true)
    else false

unfoldable pub next_entry : List ℕ → ℕ → ℕ
unfolding header_size
next_entry archive ptr = ptr + (512 + (header_size archive ptr + 511) / 512 * 512)

abbrev cons_name : List ℕ → List (List ℕ) → List (List ℕ)
cons_name [] names = names
cons_name (c ∷ s) names = (c ∷ s) ∷ names

-- The loops answer `none` only where they have not ended within their fuel.
unfoldable pub list_from : ℕ → List ℕ → ℕ → Option (List (List ℕ))
unfolding header_name next_entry
list_from zero archive ptr = none
list_from (suc fuel) archive ptr =
    let rest = list_from fuel archive (next_entry archive ptr) in
    if has_entry archive ptr then Option.map (cons_name (header_name archive ptr)) rest else some []

abbrev pub names_or : Option (List (List ℕ)) → List (List ℕ)
names_or none = []
names_or (some names) = names

unfoldable pub list_files : List ℕ → List (List ℕ)
unfolding list_from
list_files archive = names_or (list_from (suc (length archive)) archive 0)

-- The bytes after the header, if all of them are there.
unfoldable pub entry_bytes : List ℕ → ℕ → Option (List ℕ)
unfolding header_size
entry_bytes archive ptr =
    if leb (ptr + 512 + header_size archive ptr) (length archive)
    then some (slice archive (ptr + 512) (ptr + 512 + header_size archive ptr))
    else none

unfoldable pub read_from : ℕ → List ℕ → List ℕ → ℕ → Option (Option (List ℕ))
unfolding header_name next_entry entry_bytes trim
read_from zero archive target ptr = none
read_from (suc fuel) archive target ptr =
    let rest = read_from fuel archive target (next_entry archive ptr) in
    if has_entry archive ptr
    then (if text_eq (trim (header_name archive ptr)) (trim target)
        then some (entry_bytes archive ptr)
        else rest)
    else some none

abbrev pub bytes_or : Option (Option (List ℕ)) → Option (List ℕ)
bytes_or none = none
bytes_or (some found) = found

unfoldable pub read_file : List ℕ → List ℕ → Option (List ℕ)
unfolding read_from
read_file archive target = bytes_or (read_from (suc (length archive)) archive target 0)
