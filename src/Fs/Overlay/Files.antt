-- ===== src/Fs/Overlay/Files.antt =====
-- What a reader of kernel/src/fs.rs sees by name after a write, an append, a change and a removal.
use kafka_os.Base.{
  ℕ, ◌⊎◌, ◌≡◌, ◌∙◌, ap, true, false, some, List, ◌++◌, if◌then◌else◌, arith, Bool-cases,
  Option-cases, inl, inr,
}
use kafka_os.BTreeMap
use kafka_os.BTreeMap.{is_some, text_key, text_eq, text_eq_iff}
use kafka_os.Fs.Tar
use kafka_os.Fs.Overlay.{
  OverlayFileSystem, Name, RamFile, read_slice, or_empty, store, ensure_ram, change_ram, write_file,
  append_file, remove_files, Removal,
}

pub read_slice-store :
    (fs : OverlayFileSystem) (name other : Name) (bytes : List ℕ)
    → read_slice (store fs name bytes) other
      ≡ (if text_eq name other then some bytes else read_slice fs other)
unfolding read_slice
read_slice-store fs name other bytes =
    ground
      (arith, BTreeMap.get-insert fs.ram_files name other (record { contents = bytes; mtime = 0 }))

ensure_ram_cases :
    (fs : OverlayFileSystem) (name : Name)
    → (f : RamFile) × (BTreeMap.get (ensure_ram fs name).ram_files name ≡ some f)
      × (f.contents ≡ or_empty (read_slice fs name))
unfolding ensure_ram read_slice
ensure_ram_cases fs name = elim (Option-cases (BTreeMap.get fs.ram_files name)) [
  | inl e ↦
      let c = BTreeMap.contains_key-get fs.ram_files name ∙ ap is_some e in
      (
        record { contents = or_empty (Tar.read_file fs.tar_fs name); mtime = 0 },
        rw c (BTreeMap.get-insert_self fs.ram_files name _),
        rw e,
      )
  | inr (f, e) ↦
      let c = BTreeMap.contains_key-get fs.ram_files name ∙ ap is_some e in (f, rw c e, rw e)
]

-- Moving a file to memory is not seen.
read_slice-ensure_ram :
    (fs : OverlayFileSystem) (name other : Name)
    → (text_eq name other ≡ false)
    → read_slice (ensure_ram fs name) other ≡ read_slice fs other
unfolding ensure_ram
read_slice-ensure_ram fs name other h =
    ground (arith, read_slice-store fs name other (or_empty (Tar.read_file fs.tar_fs name)))

-- A change of a file is a change of what was read of it, wherever that came from, and of no other file.
pub read_slice-change_ram :
    (fs : OverlayFileSystem) (name other : Name) (change : List ℕ → List ℕ)
    → read_slice (change_ram fs name change) other ≡ (
        if text_eq name other
        then some (change (or_empty (read_slice fs name)))
        else read_slice fs other)
unfolding change_ram
read_slice-change_ram fs name other change =
    let (f, found, same) = ensure_ram_cases fs name in
    rw found (
      read_slice-store (ensure_ram fs name) name other (change f.contents)
      ∙ rw same (elim (Bool-cases (text_eq name other)) [
        | inl e ↦ rw e
        | inr e ↦ rw e (read_slice-ensure_ram fs name other e)
      ]))

-- What is written is what is read back, and no other file changes.
pub read_slice-write_file :
    (fs : OverlayFileSystem) (name other : Name) (bytes : List ℕ)
    → read_slice (write_file fs name bytes) other
      ≡ (if text_eq name other then some bytes else read_slice fs other)
unfolding write_file
read_slice-write_file fs name other bytes = read_slice-store fs name other bytes

-- An append adds to the end of the file, also of one that so far is in the archive only; a missing file
-- is created; no other file changes.
pub read_slice-append_file :
    (fs : OverlayFileSystem) (name other : Name) (bytes : List ℕ)
    → read_slice (append_file fs name bytes) other ≡ (
        if text_eq name other
        then some (or_empty (read_slice fs name) ++ bytes)
        else read_slice fs other)
unfolding append_file
read_slice-append_file fs name other bytes =
    read_slice-change_ram fs name other (λ old. old ++ bytes)

get_same_text :
    (fs : OverlayFileSystem) (name other : Name)
    → text_eq name other ≡ true
    → BTreeMap.get fs.ram_files name ≡ BTreeMap.get fs.ram_files other
get_same_text fs name other h = ap (BTreeMap.get fs.ram_files) ((text_eq_iff name other).0 h)

-- A removal takes away the copy in memory only: a file of the archive that it had covered shows again,
-- and every other file reads as before. Where it does not answer that it removed the file, nothing changes.
read_slice-remove_files :
    (fs : OverlayFileSystem) (name other : Name)
    → (read_slice (remove_files fs name).0 other
        ≡ (if text_eq name other then Tar.read_file fs.tar_fs other else read_slice fs other))
      × (((remove_files fs name).1 ≡ Removal.removed) ⊎ ((remove_files fs name).0 ≡ fs))
unfolding remove_files read_slice
read_slice-remove_files fs name other =
    ground (arith, BTreeMap.get-remove fs.ram_files name other, get_same_text fs name other)
