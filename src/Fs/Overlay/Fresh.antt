-- ===== src/Fs/Overlay/Fresh.antt =====
-- The numbers of the descriptors of kernel/src/fs.rs, over every sequence of calls.
use kafka_os.Base.{
  ℕ, ◌<◌, ◌≤◌, ◌≡◌, ◌∙◌, refl, ap, Bool, true, false, Option, none, some, List, [], ◌∷◌,
  if◌then◌else◌, arith, ◌++◌, Option-cases, inl, inr,
}
use kafka_os.BTreeMap
use kafka_os.BTreeMap.{is_some, nat_key, text_eq, text_key, eqb_refl}
use kafka_os.Fs.Overlay.{
  OverlayFileSystem, Name, OpenFile, OpenFlags, SeekFrom, Result, new, store, ensure_ram,
  change_ram, write_file, append_file, remove_files, truncate_opened, register, open_file,
  start_offset, exists, set_offset, read_fd, read_opened, splice, write_fd, seek, seek_to, close,
}

-- The calls of a client.
pub data Call : Type 0 where
  opens : Name → OpenFlags → Call
  reads writes : ℕ → List ℕ → Call
  seeks : ℕ → SeekFrom → Call
  closes : ℕ → Call
  writes_file appends : Name → List ℕ → Call
  removes : Name → Call

unfoldable pub step : OverlayFileSystem → Call → OverlayFileSystem
step fs (Call.opens path flags) = (open_file fs path flags).0
step fs (Call.reads fd buf) = (read_fd fs fd buf).0
step fs (Call.writes fd buf) = (write_fd fs fd buf).0
step fs (Call.seeks fd pos) = (seek fs fd pos).0
step fs (Call.closes fd) = (close fs fd).0
step fs (Call.writes_file name bytes) = write_file fs name bytes
step fs (Call.appends name bytes) = append_file fs name bytes
step fs (Call.removes name) = (remove_files fs name).0

unfoldable pub run : OverlayFileSystem → List Call → OverlayFileSystem
run fs [] = fs
run fs (c ∷ cs) = run (step fs c) cs

-- Only numbers from 3 on and below `next_fd` are open.
pub record IsFresh (fs : OverlayFileSystem) : Type 0 where
  pub from_three : 3 ≤ fs.next_fd
  pub unused : (j : ℕ) → fs.next_fd ≤ j → BTreeMap.get fs.open_files j ≡ none
  pub reserved : (j : ℕ) → j < 3 → BTreeMap.get fs.open_files j ≡ none

-- A call that leaves the descriptors alone.
pub record SameTable (fs gs : OverlayFileSystem) : Type 0 where
  pub same_files : gs.open_files ≡ fs.open_files
  pub same_next : gs.next_fd ≡ fs.next_fd

SameTable-IsFresh : (fs gs : OverlayFileSystem) → SameTable fs gs → IsFresh fs → IsFresh gs
SameTable-IsFresh fs gs e w = record {
  from_three = rw (e.same_next) w.from_three;
  unused = rw (e.same_next, e.same_files) w.unused;
  reserved = rw (e.same_files) w.reserved;
}

change_ram-SameTable :
    (fs : OverlayFileSystem) (name : Name) (change : List ℕ → List ℕ)
    → SameTable fs (change_ram fs name change)
unfolding change_ram ensure_ram
change_ram-SameTable fs name change = ground arith

truncate_opened-SameTable :
    (fs : OverlayFileSystem) (path : Name) (flags : OpenFlags)
    → SameTable fs (truncate_opened fs path flags)
unfolding truncate_opened
truncate_opened-SameTable fs path flags =
    ground (arith, change_ram-SameTable fs path (λ (old : List ℕ). []))

register-IsFresh :
    (fs : OverlayFileSystem) (path : Name) (flags : OpenFlags)
    → IsFresh fs
    → IsFresh (register fs path flags).0
unfolding register
register-IsFresh fs path flags w =
    let of : OpenFile = record {
      path = path;
      offset = start_offset fs path flags;
      flags = flags;
    } in
    record {
      from_three = omega (arith, w.from_three);
      unused = λ j h. ground (arith, BTreeMap.get-insert fs.open_files fs.next_fd j of, w.unused j);
      reserved = λ j h.
          ground
            (arith, BTreeMap.get-insert fs.open_files fs.next_fd j of, w.reserved j, w.from_three);
    }

IsFresh-if :
    {A : Type 0} (b : Bool) (x y : OverlayFileSystem × Result A)
    → IsFresh x.0
    → IsFresh y.0
    → IsFresh (if b then x else y).0
IsFresh-if true x y v w = v
IsFresh-if false x y v w = w

open_file-IsFresh :
    (fs : OverlayFileSystem) (path : Name) (flags : OpenFlags)
    → IsFresh fs
    → IsFresh (open_file fs path flags).0
unfolding open_file
open_file-IsFresh fs path flags w =
    let t = truncate_opened-SameTable (store fs path []) path flags in
    IsFresh-if (exists fs path) _ _
      (register-IsFresh _ path flags
        (SameTable-IsFresh fs _ (truncate_opened-SameTable fs path flags) w))
      (IsFresh-if flags.create _ _
        (register-IsFresh _ path flags (
          SameTable-IsFresh fs _ (record { same_files = t.same_files; same_next = t.same_next }) w))
        w)

set_offset-IsFresh :
    (fs : OverlayFileSystem) (fd : ℕ) (of old : OpenFile) (n : ℕ)
    → BTreeMap.get fs.open_files fd ≡ some old
    → IsFresh fs
    → IsFresh (set_offset fs fd of n)
set_offset-IsFresh fs fd of old n e w = record {
  from_three = w.from_three;
  unused = λ j h. ground (
    arith,
    BTreeMap.get-insert fs.open_files fd j (record of { offset = n }),
    w.unused j,
    w.unused fd,
  );
  reserved = λ j h. ground (
    arith,
    BTreeMap.get-insert fs.open_files fd j (record of { offset = n }),
    w.reserved j,
    w.reserved fd,
  );
}

read_opened-IsFresh :
    (fs : OverlayFileSystem) (fd : ℕ) (buf : List ℕ) (of : OpenFile) (o : Option (List ℕ))
    → BTreeMap.get fs.open_files fd ≡ some of
    → IsFresh fs
    → IsFresh (read_opened fs fd buf of o).0
read_opened-IsFresh fs fd buf of none e w = w
read_opened-IsFresh fs fd buf of (some bytes) e w = set_offset-IsFresh fs fd of of _ e w

read_fd-IsFresh :
    (fs : OverlayFileSystem) (fd : ℕ) (buf : List ℕ) → IsFresh fs → IsFresh (read_fd fs fd buf).0
unfolding read_fd
read_fd-IsFresh fs fd buf w = elim (Option-cases (BTreeMap.get fs.open_files fd)) [
  | inl e ↦ rw (e, read_fd) w
  | inr (of, e) ↦ rw (e, read_fd) (read_opened-IsFresh fs fd buf of _ e w)
]

write_fd-IsFresh :
    (fs : OverlayFileSystem) (fd : ℕ) (buf : List ℕ) → IsFresh fs → IsFresh (write_fd fs fd buf).0
unfolding write_fd
write_fd-IsFresh fs fd buf w = elim (Option-cases (BTreeMap.get fs.open_files fd)) [
  | inl e ↦ rw (e, write_fd) w
  | inr (of, e) ↦
      let same = change_ram-SameTable fs of.path (λ old. splice old of.offset buf) in
      rw (e, write_fd)
        (IsFresh-if of.flags.write _ _
          (set_offset-IsFresh _ fd of of _ (ap (λ m. BTreeMap.get m fd) same.same_files ∙ e)
            (SameTable-IsFresh fs _ same w))
          w)
]

seek_to-IsFresh :
    (fs : OverlayFileSystem) (fd : ℕ) (of : OpenFile) (o : Option ℕ)
    → BTreeMap.get fs.open_files fd ≡ some of
    → IsFresh fs
    → IsFresh (seek_to fs fd of o).0
seek_to-IsFresh fs fd of none e w = w
seek_to-IsFresh fs fd of (some n) e w = set_offset-IsFresh fs fd of of n e w

seek-IsFresh :
    (fs : OverlayFileSystem) (fd : ℕ) (pos : SeekFrom) → IsFresh fs → IsFresh (seek fs fd pos).0
unfolding seek
seek-IsFresh fs fd pos w = elim (Option-cases (BTreeMap.get fs.open_files fd)) [
  | inl e ↦ rw (e, seek) w
  | inr (of, e) ↦ rw (e, seek) (seek_to-IsFresh fs fd of _ e w)
]

close-IsFresh : (fs : OverlayFileSystem) (fd : ℕ) → IsFresh fs → IsFresh (close fs fd).0
unfolding close
close-IsFresh fs fd w =
    IsFresh-if (is_some (BTreeMap.get fs.open_files fd)) _ _
      (record {
        from_three = w.from_three;
        unused = λ j h. ground (arith, BTreeMap.get-remove fs.open_files fd j, w.unused j);
        reserved = λ j h. ground (arith, BTreeMap.get-remove fs.open_files fd j, w.reserved j);
      })
      w

remove_files-SameTable :
    (fs : OverlayFileSystem) (name : Name) → SameTable fs (remove_files fs name).0
unfolding remove_files
remove_files-SameTable fs name = ground arith

step-IsFresh : (fs : OverlayFileSystem) (c : Call) → IsFresh fs → IsFresh (step fs c)
unfolding step write_file append_file
step-IsFresh fs (Call.opens path flags) w = open_file-IsFresh fs path flags w
step-IsFresh fs (Call.reads fd buf) w = read_fd-IsFresh fs fd buf w
step-IsFresh fs (Call.writes fd buf) w = write_fd-IsFresh fs fd buf w
step-IsFresh fs (Call.seeks fd pos) w = seek-IsFresh fs fd pos w
step-IsFresh fs (Call.closes fd) w = close-IsFresh fs fd w
step-IsFresh fs (Call.writes_file name bytes) w =
    SameTable-IsFresh fs _ (record { same_files = refl; same_next = refl }) w
step-IsFresh fs (Call.appends name bytes) w =
    SameTable-IsFresh fs _ (change_ram-SameTable fs name (λ old. old ++ bytes)) w
step-IsFresh fs (Call.removes name) w = SameTable-IsFresh fs _ (remove_files-SameTable fs name) w

run-IsFresh : (fs : OverlayFileSystem) (cs : List Call) → IsFresh fs → IsFresh (run fs cs)
unfolding run
run-IsFresh fs [] w = w
run-IsFresh fs (c ∷ cs) w = run-IsFresh (step fs c) cs (step-IsFresh fs c w)

new-IsFresh : (archive : List ℕ) → IsFresh (new archive)
unfolding new BTreeMap.get
new-IsFresh archive = record {
  from_three = omega arith;
  unused = λ j h. refl;
  reserved = λ j h. refl;
}

open_file-unused :
    (fs gs : OverlayFileSystem) (path : Name) (flags : OpenFlags) (fd : ℕ)
    → open_file fs path flags ≡ (gs, Result.ok fd)
    → fd ≡ fs.next_fd
unfolding open_file register
open_file-unused fs gs path flags fd e = ground (
  arith,
  truncate_opened-SameTable fs path flags,
  truncate_opened-SameTable (store fs path []) path flags,
)

-- After any sequence of calls, a successful open returns a number from 3 on that no open file has.
pub open_file_fresh :
    (archive : List ℕ) (cs : List Call) (path : Name) (flags : OpenFlags) (fd : ℕ)
    (gs : OverlayFileSystem)
    → open_file (run (new archive) cs) path flags ≡ (gs, Result.ok fd)
    → (3 ≤ fd) × (BTreeMap.get (run (new archive) cs).open_files fd ≡ none)
open_file_fresh archive cs path flags fd gs e =
    let fs = run (new archive) cs in
    let w = run-IsFresh (new archive) cs (new-IsFresh archive) in
    let same = open_file-unused fs gs path flags fd e in
    (omega (arith, w.from_three), w.unused fd (omega arith))
