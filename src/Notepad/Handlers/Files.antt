-- ===== src/Notepad/Handlers/Files.antt =====
-- The files that kernel/src/gui/notepad.rs loads and saves leave the cursor in the text.
use kafka_os.Base.{
  ℕ, ◌≡◌, refl, Bool, true, false, Option, none, some, List, [], ◌∷◌, ◌++◌, ◌==◌, if◌then◌else◌,
  get_elem?, arith,
}
use kafka_os.Fs.Overlay.{OverlayFileSystem, read_file, write_file}
use kafka_os.Notepad.{Mode, NotepadState, Line}
use kafka_os.Notepad.FileIo.{save_file, open_file, new_file, lines_from, loaded, load, content_of}
use kafka_os.Notepad.Session.{IsReady}

-- The fields that the handlers change besides the text.
pub with_mode :
    (s : NotepadState) (mode : Mode) (buf : List ℕ)
    → IsReady s
    → IsReady (record s { mode = mode; prompt_buf = buf })
with_mode s mode buf r = record {
  valid = record { line = r.valid.line; here = r.valid.here; within = r.valid.within };
  clear = r.clear;
}

-- A text that was read, or a new one, with the cursor at its start.
pub first_line :
    (bytes : List ℕ) (line : Line) → (l : Line) × (get_elem? (lines_from bytes line) 0 ≡ some l)
unfolding lines_from
first_line [] line = (line, refl)
first_line (byte ∷ bytes) line =
    first_of (byte == b'\n') _ _ _ (first_line bytes (line ++ (byte ∷ [])))
  where
    first_of :
        (b : Bool) (l : Line) (ended longer : List Line)
        → (k : Line) × (get_elem? longer 0 ≡ some k)
        → (k : Line) × (get_elem? (if b then l ∷ ended else longer) 0 ≡ some k)
    first_of true l ended longer h = (l, refl)
    first_of false l ended longer h = h

pub loaded-IsReady : (s : NotepadState) (bytes : List ℕ) → IsReady (loaded s bytes)
unfolding loaded
loaded-IsReady s bytes =
    let (l, there) = first_line bytes [] in
    record { valid = record { line = l; here = there; within = omega arith }; clear = refl }

pub load-IsReady : (s : NotepadState) (o : Option (List ℕ)) → IsReady s → IsReady (load s o)
load-IsReady s none r = r
load-IsReady s (some bytes) r = loaded-IsReady s bytes

pub with_name :
    (s : NotepadState) (name : Option (List ℕ)) (modified : Bool)
    → IsReady s
    → IsReady (record s { filename = name; modified = modified })
with_name s name modified r = record {
  valid = record { line = r.valid.line; here = r.valid.here; within = r.valid.within };
  clear = r.clear;
}

pub new_file-IsReady : (s : NotepadState) → IsReady (new_file s)
unfolding new_file
new_file-IsReady s = record {
  valid = record { line = []; here = refl; within = omega arith };
  clear = refl;
}

pub save_file-IsReady :
    (s : NotepadState) (fs : OverlayFileSystem) → IsReady s → IsReady (save_file s fs).0
unfolding save_file
save_file-IsReady s fs r = by_name s.filename
  where
    by_name :
        (name : Option (List ℕ))
        → IsReady
            (elim name as (λ x. NotepadState × OverlayFileSystem) [
              | none ↦ (s, fs)
              | some n ↦ (record s { modified = false }, write_file fs n (content_of s.lines))
            ]).0
    by_name none = r
    by_name (some n) = with_name s s.filename false r

pub open_file-IsReady :
    (s : NotepadState) (fs : OverlayFileSystem) → IsReady s → IsReady (open_file s fs)
unfolding open_file
open_file-IsReady s fs r = by_name s.filename
  where
    by_name :
        (name : Option (List ℕ))
        → IsReady (elim name as (λ x. NotepadState) [ none ↦ s | some n ↦ load s (read_file fs n) ])
    by_name none = r
    by_name (some n) = load-IsReady s (read_file fs n) r
