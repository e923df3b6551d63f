-- ===== src/Fs/Overlay.antt =====
-- `OverlayFileSystem` of kernel/src/fs.rs: files in memory over a read-only archive, and the descriptors
-- of the open files. A method returns the new state and its result. Lengths and offsets stay below
-- 2 ^ 63, the bound of an allocation, but for what a seek is given.
pub mod Files
pub mod Descriptors
pub mod Fresh
use kafka_os.Base.{
  ℕ, zero, suc, ◌+◌, ◌-◌, ◌^◌, ◌≡◌, refl, min, Bool, true, false, ◌&&◌, ◌||◌, Option, none, some,
  List, [], ◌∷◌, ◌++◌, map, ltb, leb, ◌==◌, if◌then◌else◌, length, take, drop, replicate, ◌>>=◌,
}
use mathlib.Core.Option
use kafka_os.BTreeMap
use kafka_os.BTreeMap.{is_some, nat_key, text_key}
use kafka_os.Fs.Tar

abbrev pub Name : Type 0
Name = List ℕ

pub data FsError : Type 0 where
  not_found bad_fd not_writable invalid_seek : FsError

pub data Result {ℓ} (A : Type ℓ) : Type ℓ where
  ok : A → Result A
  err : FsError → Result A

pub record FileMeta : Type 0 where
  pub size : ℕ
  pub mtime : ℕ

pub record OpenFlags : Type 0 where
  pub read : Bool
  pub write : Bool
  pub create : Bool
  pub append : Bool
  pub trunc : Bool

-- A signed offset, forward by `n` or back by `n`.
pub data Delta : Type 0 where
  forward back : ℕ → Delta

pub data SeekFrom : Type 0 where
  start : ℕ → SeekFrom
  current end : Delta → SeekFrom

pub record RamFile : Type 0 where
  pub contents : List ℕ
  pub mtime : ℕ

pub record OpenFile : Type 0 where
  pub path : Name
  pub offset : ℕ
  pub flags : OpenFlags

pub record OverlayFileSystem : Type 0 where
  pub ram_files : List (Name × RamFile)
  pub tar_fs : List ℕ
  pub open_files : List (ℕ × OpenFile)
  pub next_fd : ℕ

abbrev pub mtime_unknown : ℕ
mtime_unknown = 0

abbrev pub current_timestamp : ℕ
current_timestamp = 0

unfoldable pub new : List ℕ → OverlayFileSystem
new archive = record { ram_files = []; tar_fs = archive; open_files = []; next_fd = 3 }

abbrev or_archive : Option RamFile → Option (List ℕ) → Option (List ℕ)
or_archive none archived = archived
or_archive (some f) archived = some f.contents

unfoldable pub read_slice : OverlayFileSystem → Name → Option (List ℕ)
read_slice fs name = or_archive (BTreeMap.get fs.ram_files name) (Tar.read_file fs.tar_fs name)

unfoldable pub read_file : OverlayFileSystem → Name → Option (List ℕ)
read_file fs name = read_slice fs name

unfoldable pub metadata : OverlayFileSystem → Name → Option FileMeta
metadata fs name = elim (BTreeMap.get fs.ram_files name) [
  | some f ↦ some (record { size = length f.contents; mtime = f.mtime })
  | none ↦
      Option.map (λ bytes. record { size = length bytes; mtime = mtime_unknown })
        (Tar.read_file fs.tar_fs name)
]

-- `ram_files.insert` of a file stamped now.
abbrev pub store : OverlayFileSystem → Name → List ℕ → OverlayFileSystem
store fs name contents = record fs {
  ram_files =
      BTreeMap.insert fs.ram_files name (record { contents = contents; mtime = current_timestamp });
}

unfoldable pub write_file : OverlayFileSystem → Name → List ℕ → OverlayFileSystem
write_file fs name contents = store fs name contents

abbrev pub or_empty : Option (List ℕ) → List ℕ
or_empty none = []
or_empty (some bytes) = bytes

unfoldable pub ensure_ram : OverlayFileSystem → Name → OverlayFileSystem
ensure_ram fs name =
    if BTreeMap.contains_key fs.ram_files name
    then fs
    else store fs name (or_empty (Tar.read_file fs.tar_fs name))

-- `get_mut(name).unwrap()` and a change of the contents, which stamps the file. After `ensure_ram` the
-- file is there.
abbrev change_file :
    OverlayFileSystem → Name → Option RamFile → (List ℕ → List ℕ) → OverlayFileSystem
change_file fs name none change = fs
change_file fs name (some f) change = store fs name (change f.contents)

unfoldable pub change_ram : OverlayFileSystem → Name → (List ℕ → List ℕ) → OverlayFileSystem
unfolding ensure_ram
change_ram fs name change =
    let ready = ensure_ram fs name in
    change_file ready name (BTreeMap.get ready.ram_files name) change

unfoldable pub append_file : OverlayFileSystem → Name → List ℕ → OverlayFileSystem
append_file fs name bytes = change_ram fs name (λ old. old ++ bytes)

abbrev fresh_names : List (Name × RamFile) → List Name → List Name
fresh_names ram [] = []
fresh_names ram (k ∷ ks) =
    if BTreeMap.contains_key ram k then fresh_names ram ks else k ∷ fresh_names ram ks

unfoldable pub list_files : OverlayFileSystem → List Name
list_files fs =
    map (λ entry. entry.0) fs.ram_files ++ fresh_names fs.ram_files (Tar.list_files fs.tar_fs)

pub data Removal : Type 0 where
  removed read_only missing : Removal

unfoldable pub remove_files : OverlayFileSystem → Name → OverlayFileSystem × Removal
remove_files fs name =
    if is_some (BTreeMap.get fs.ram_files name)
    then (record fs { ram_files = BTreeMap.remove fs.ram_files name }, Removal.removed)
    else if is_some (Tar.read_file fs.tar_fs name)
    then (fs, Removal.read_only)
    else (fs, Removal.missing)

-- `open`, in its four steps.
unfoldable pub exists : OverlayFileSystem → Name → Bool
exists fs path = BTreeMap.contains_key fs.ram_files path || is_some (Tar.read_file fs.tar_fs path)

unfoldable pub truncate_opened : OverlayFileSystem → Name → OpenFlags → OverlayFileSystem
truncate_opened fs path flags =
    if flags.trunc && flags.write then change_ram fs path (λ old. []) else fs

unfoldable pub start_offset : OverlayFileSystem → Name → OpenFlags → ℕ
start_offset fs path flags = if flags.append then length (or_empty (read_slice fs path)) else 0

unfoldable pub register : OverlayFileSystem → Name → OpenFlags → OverlayFileSystem × Result ℕ
register fs path flags = (
  record fs {
    next_fd = fs.next_fd + 1;
    open_files =
        BTreeMap.insert fs.open_files fs.next_fd
          (record { path = path; offset = start_offset fs path flags; flags = flags });
  },
  Result.ok fs.next_fd,
)

unfoldable pub open_file : OverlayFileSystem → Name → OpenFlags → OverlayFileSystem × Result ℕ
open_file fs path flags =
    if exists fs path
    then register (truncate_opened fs path flags) path flags
    else if flags.create
    then register (truncate_opened (store fs path []) path flags) path flags
    else (fs, Result.err FsError.not_found)

abbrev pub set_offset : OverlayFileSystem → ℕ → OpenFile → ℕ → OverlayFileSystem
set_offset fs fd of n = record fs {
  open_files = BTreeMap.insert fs.open_files fd (record of { offset = n });
}

-- The bytes from an offset, as many as a buffer of the given length takes.
abbrev pub chunk : List ℕ → ℕ → ℕ → List ℕ
chunk bytes offset room = take room (drop offset bytes)

abbrev read_opened :
    OverlayFileSystem
    → ℕ
    → List ℕ
    → OpenFile
    → Option (List ℕ)
    → OverlayFileSystem × Result (ℕ × List ℕ)
read_opened fs fd buf of none = (fs, Result.err FsError.not_found)
read_opened fs fd buf of (some bytes) =
    let got = chunk bytes of.offset (length buf) in
    (
      set_offset fs fd of (of.offset + length got),
      Result.ok (length got, got ++ drop (length got) buf),
    )

-- The count of bytes read, and the buffer after the call.
unfoldable pub read_fd : OverlayFileSystem → ℕ → List ℕ → OverlayFileSystem × Result (ℕ × List ℕ)
read_fd fs fd buf = elim (BTreeMap.get fs.open_files fd) [
  | none ↦ (fs, Result.err FsError.bad_fd)
  | some of ↦ read_opened fs fd buf of (read_slice fs of.path)
]

-- `resize` with zeros where the write ends behind the file, then the copy.
abbrev pub splice : List ℕ → ℕ → List ℕ → List ℕ
splice old offset buf =
    let end = offset + length buf in
    let padded = old ++ replicate (end - length old) 0 in
    take offset padded ++ (buf ++ drop end padded)

unfoldable pub write_fd : OverlayFileSystem → ℕ → List ℕ → OverlayFileSystem × Result ℕ
write_fd fs fd buf = elim (BTreeMap.get fs.open_files fd) [
  | none ↦ (fs, Result.err FsError.bad_fd)
  | some of ↦
      if of.flags.write
      then (
        set_offset (change_ram fs of.path (λ old. splice old of.offset buf)) fd of
            (of.offset + length buf),
        Result.ok (length buf),
      )
      else (fs, Result.err FsError.not_writable)
]

abbrev pub i64_limit : ℕ
i64_limit = 2 ^ 63

-- `base + d` on i64 for a base that is not negative: `none` where the sum is negative, which it also is
-- where it wraps.
abbrev pub moved : ℕ → Delta → Option ℕ
moved base (Delta.forward n) = if ltb (base + n) i64_limit then some (base + n) else none
moved base (Delta.back n) = if leb n base then some (base - n) else none

-- `o as i64` is negative from 2 ^ 63 on.
abbrev pub target : SeekFrom → ℕ → ℕ → Option ℕ
target (SeekFrom.start o) cur len = if ltb o i64_limit then some o else none
target (SeekFrom.current d) cur len = moved cur d
target (SeekFrom.end d) cur len = moved len d

abbrev seek_to : OverlayFileSystem → ℕ → OpenFile → Option ℕ → OverlayFileSystem × Result ℕ
seek_to fs fd of none = (fs, Result.err FsError.invalid_seek)
seek_to fs fd of (some n) = (set_offset fs fd of n, Result.ok n)

unfoldable pub seek : OverlayFileSystem → ℕ → SeekFrom → OverlayFileSystem × Result ℕ
seek fs fd pos = elim (BTreeMap.get fs.open_files fd) [
  | none ↦ (fs, Result.err FsError.bad_fd)
  | some of ↦ seek_to fs fd of (target pos of.offset (length (or_empty (read_slice fs of.path))))
]

unfoldable pub close : OverlayFileSystem → ℕ → OverlayFileSystem × Result (Unit {0})
close fs fd =
    if is_some (BTreeMap.get fs.open_files fd)
    then (record fs { open_files = BTreeMap.remove fs.open_files fd }, Result.ok tt)
    else (fs, Result.err FsError.bad_fd)
