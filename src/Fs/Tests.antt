-- ===== src/Fs/Tests.antt =====
-- One file and one descriptor of the file system of kernel/src/fs.rs, over an empty archive.
use kafka_os.Base.{
  ℕ, ◌-◌, ◌≤◌, ◌≡◌, refl, true, false, none, some, List, [], ◌∷◌, ltb, if◌then◌else◌, length,
  get_elem?, arith,
}
use kafka_os.BTreeMap
use kafka_os.BTreeMap.{nat_key, text_eq}
use kafka_os.Fs.Tar
use kafka_os.Fs.Tar.Fuel.{archive_fuel}
use kafka_os.Fs.Overlay.{
  OverlayFileSystem, Name, OpenFile, OpenFlags, SeekFrom, Result, new, read_slice, write_file,
  or_empty, open_file, write_fd, read_fd, seek, exists, truncate_opened, register,
}
use kafka_os.Fs.Overlay.Files.{read_slice-write_file}
use kafka_os.Fs.Overlay.Descriptors.{read_fd-write_fd, read_slice-write_fd}
use kafka_os.Fs.Overlay.Fresh.{Call, run, step, open_file_fresh}

abbrev log_file : Name
log_file = b'l' ∷ []

abbrev writing : OpenFlags
writing = record { read = true; write = true; create = true; append = false; trunc = false }

-- The descriptor 3 stands at the second of three bytes.
abbrev second_byte : OpenFile
second_byte = record { path = log_file; offset = 1; flags = writing }

abbrev opened : OverlayFileSystem
opened = record {
  ram_files = (log_file, record { contents = 7 ∷ 8 ∷ 9 ∷ []; mtime = 0 }) ∷ [];
  tar_fs = [];
  open_files = (3, second_byte) ∷ [];
  next_fd = 4;
}

read_slice-write_file_example :
    read_slice (write_file opened log_file (1 ∷ [])) log_file
    ≡ (if text_eq log_file log_file then some (1 ∷ []) else read_slice opened log_file)
read_slice-write_file_example = read_slice-write_file opened log_file log_file (1 ∷ [])

read_fd-write_fd_example :
    (read_fd
      (seek (write_fd opened 3 (5 ∷ 6 ∷ 4 ∷ [])).0 3 (SeekFrom.start 1)).0
      3
      (0 ∷ 0 ∷ 0 ∷ [])).1
    ≡ Result.ok (3, 5 ∷ 6 ∷ 4 ∷ [])
unfolding BTreeMap.get
read_fd-write_fd_example =
    read_fd-write_fd opened 3 second_byte (5 ∷ 6 ∷ 4 ∷ []) (0 ∷ 0 ∷ 0 ∷ []) refl refl (omega arith)
      refl

read_slice-write_fd_example :
    ((i : ℕ)
      → get_elem? (or_empty (read_slice (write_fd opened 3 (5 ∷ [])).0 log_file)) i ≡ (
          if ltb i 1
          then (if ltb i (length (or_empty (read_slice opened log_file)))
              then get_elem? (or_empty (read_slice opened log_file)) i
              else some 0)
          else if ltb i 2
          then get_elem? (5 ∷ []) (i - 1)
          else get_elem? (or_empty (read_slice opened log_file)) i))
    × ((other : Name)
        → text_eq log_file other ≡ false
        → read_slice (write_fd opened 3 (5 ∷ [])).0 other ≡ read_slice opened other)
unfolding BTreeMap.get
read_slice-write_fd_example = read_slice-write_fd opened 3 second_byte (5 ∷ []) refl refl

-- A file is created by an open, and opened again.
abbrev history : List Call
history = Call.writes_file log_file (7 ∷ []) ∷ []

abbrev after_open : OverlayFileSystem
after_open = (open_file (run (new []) history) log_file writing).0

opens_as_three : open_file (run (new []) history) log_file writing ≡ (after_open, Result.ok 3)
unfolding open_file exists truncate_opened register run new write_file BTreeMap.contains_key step
    BTreeMap.insert
opens_as_three = refl

open_file_fresh_example : (3 ≤ 3) × (BTreeMap.get (run (new []) history).open_files 3 ≡ none)
open_file_fresh_example = open_file_fresh [] history log_file writing 3 after_open opens_as_three

archive_fuel_example :
    (Tar.read_from 9 (b'a' ∷ []) log_file 0 ≡ some (Tar.read_file (b'a' ∷ []) log_file))
    × (Tar.list_from 9 (b'a' ∷ []) 0 ≡ some (Tar.list_files (b'a' ∷ [])))
archive_fuel_example = archive_fuel 9 (b'a' ∷ []) log_file (omega arith)
