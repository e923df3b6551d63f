-- ===== src/Fs/Tar/Fuel.antt =====
-- The loops over the archive of kernel/src/fs.rs end within the fuel they are given.
use kafka_os.Base.{
  ℕ, zero, suc, ◌+◌, ◌≡◌, ◌≤◌, ◌<◌, refl, ap, true, false, Bool, Option, none, some, List, arith,
  length, if◌then◌else◌, inl, inr, Bool-cases,
}
use mathlib.Core.Option
use kafka_os.BTreeMap.{text_eq}
use kafka_os.Fs.Text.{trim}
use kafka_os.Fs.Tar.{
  has_entry, next_entry, header_name, cons_name, list_from, list_files, names_or, read_from,
  read_file, bytes_or,
}

next_entry_gt : (archive : List ℕ) (ptr : ℕ) → ptr < next_entry archive ptr
unfolding next_entry
next_entry_gt archive ptr = omega arith

has_entry-le :
    (archive : List ℕ) (ptr : ℕ) → has_entry archive ptr ≡ true → ptr + 512 ≤ length archive
has_entry-le archive ptr h = ground arith

-- A round that goes on has another round left.
next_round :
    (archive : List ℕ) (ptr f : ℕ)
    → has_entry archive ptr ≡ true
    → length archive < ptr + suc f
    → (0 < f) × (length archive < next_entry archive ptr + f)
next_round archive ptr f e h =
    let le = has_entry-le archive ptr e in
    let gt = next_entry_gt archive ptr in (omega arith, omega arith)

read_from-ends :
    (f g : ℕ) (archive target : List ℕ) (ptr : ℕ)
    → 0 < f
    → 0 < g
    → length archive < ptr + f
    → length archive < ptr + g
    → read_from f archive target ptr ≡ some (bytes_or (read_from g archive target ptr))
unfolding read_from
read_from-ends zero g archive target ptr pf pg h k = absurd (omega arith)
read_from-ends (suc f) zero archive target ptr pf pg h k = absurd (omega arith)
read_from-ends (suc f) (suc g) archive target ptr pf pg h k =
    elim (Bool-cases (has_entry archive ptr)) [
      | inr e ↦ rw e refl
      | inl e ↦
          let (qf, hf) = next_round archive ptr f e h in
          let (qg, hg) = next_round archive ptr g e k in
          rw e (
            go (text_eq (trim (header_name archive ptr)) (trim target)) _ _ _
              (read_from-ends f g archive target (next_entry archive ptr) qf qg hf hg))
    ]
  where
    go :
        (b : Bool) (here : Option (List ℕ)) (x y : Option (Option (List ℕ)))
        → x ≡ some (bytes_or y)
        → (if b then some here else x) ≡ some (bytes_or (if b then some here else y))
    go true here x y e = refl
    go false here x y e = e

list_from-ends :
    (f g : ℕ) (archive : List ℕ) (ptr : ℕ)
    → 0 < f
    → 0 < g
    → length archive < ptr + f
    → length archive < ptr + g
    → list_from f archive ptr ≡ some (names_or (list_from g archive ptr))
unfolding list_from
list_from-ends zero g archive ptr pf pg h k = absurd (omega arith)
list_from-ends (suc f) zero archive ptr pf pg h k = absurd (omega arith)
list_from-ends (suc f) (suc g) archive ptr pf pg h k = elim (Bool-cases (has_entry archive ptr)) [
  | inr e ↦ rw e refl
  | inl e ↦
      let (qf, hf) = next_round archive ptr f e h in
      let (qg, hg) = next_round archive ptr g e k in
      rw e (
        named (list_from f archive (next_entry archive ptr))
          (list_from g archive (next_entry archive ptr))
          (list_from-ends f g archive (next_entry archive ptr) qf qg hf hg)
          (list_from-ends g g archive (next_entry archive ptr) qg qg hg hg))
]
  where
    named :
        (x y : Option (List (List ℕ)))
        → x ≡ some (names_or y)
        → y ≡ some (names_or y)
        → Option.map (cons_name (header_name archive ptr)) x
          ≡ some (names_or (Option.map (cons_name (header_name archive ptr)) y))
    named x none e d = cc
    named x (some names) e d = ap (Option.map (cons_name (header_name archive ptr))) e

-- The loops of reading and of listing end by themselves, within at most one round more than the archive has
-- bytes: with that many rounds, or any more, each gives an answer, and it is the one of the whole operation.
pub archive_fuel :
    (fuel : ℕ) (archive target : List ℕ)
    → length archive < fuel
    → (read_from fuel archive target 0 ≡ some (read_file archive target))
      × (list_from fuel archive 0 ≡ some (list_files archive))
unfolding read_file list_files
archive_fuel fuel archive target h = (
  read_from-ends fuel (suc (length archive)) archive target 0 (omega arith) (omega arith)
      (omega arith) (omega arith),
  list_from-ends fuel (suc (length archive)) archive 0 (omega arith) (omega arith) (omega arith)
      (omega arith),
)
