-- ===== src/Fs/Overlay/Descriptors.antt =====
-- The descriptor calls of kernel/src/fs.rs: open, read, write, seek and close.
use kafka_os.Base.{
  ℕ, zero, suc, ◌+◌, ◌-◌, ◌<◌, ◌≤◌, ◌≡◌, ◌∙◌, refl, sym, ap, true, false, none, some, List, [], ◌∷◌,
  ◌++◌, if◌then◌else◌, arith, length, lt→ltb, take, drop, replicate, get_elem?, ltb, length-append,
  length-take, length-replicate, drop-append_length, take-append_length, drop_all, append-nil,
  get_elem?-append, get_elem?-take, get_elem?-drop, get_elem?-replicate,
}
use kafka_os.BTreeMap
use kafka_os.BTreeMap.{is_some, nat_key, text_eq, text_key, eqb_refl}
use kafka_os.Fs.Overlay.{
  OverlayFileSystem, Name, OpenFile, SeekFrom, Result, read_slice, or_empty, change_ram, set_offset,
  chunk, read_fd, splice, write_fd, i64_limit, target, seek,
}
use kafka_os.Fs.Overlay.Files.{read_slice-change_ram}

module _ (fs : OverlayFileSystem) (fd : ℕ) (of : OpenFile) where
  module _ (opened : BTreeMap.get fs.open_files fd ≡ some of) where
    pub write_fd_lem :
        (buf : List ℕ)
        → of.flags.write ≡ true
        → write_fd fs fd buf ≡ (
          set_offset
              (change_ram fs of.path (λ old. splice old of.offset buf))
              fd
              of
              (of.offset + length buf),
          Result.ok (length buf),
        )
    unfolding write_fd
    write_fd_lem buf w = rw (opened, write_fd) (rw w)

    pub seek_lem :
        (pos : SeekFrom) (n : ℕ)
        → target pos of.offset (length (or_empty (read_slice fs of.path))) ≡ some n
        → seek fs fd pos ≡ (set_offset fs fd of n, Result.ok n)
    unfolding seek
    seek_lem pos n e = rw (opened, seek) (rw e)

    pub read_fd_lem :
        (buf bytes : List ℕ)
        → read_slice fs of.path ≡ some bytes
        → let got = chunk bytes of.offset (length buf) in
          read_fd fs fd buf ≡ (
            set_offset fs fd of (of.offset + length got),
            Result.ok (length got, got ++ drop (length got) buf),
          )
    unfolding read_fd
    read_fd_lem buf bytes e = rw (opened, read_fd) (rw e)

  pub get-set_offset :
      (n : ℕ) → BTreeMap.get (set_offset fs fd of n).open_files fd ≡ some (record of { offset = n })
  get-set_offset n = BTreeMap.get-insert_self fs.open_files fd (record of { offset = n })

  pub read_slice-set_offset :
      (n : ℕ) (name : Name) → read_slice (set_offset fs fd of n) name ≡ read_slice fs name
  unfolding read_slice
  read_slice-set_offset n name = refl

length-padded : (old : List ℕ) (n : ℕ) → n ≤ length (old ++ replicate (n - length old) 0)
length-padded old n = omega (
  arith,
  length-append old (replicate (n - length old) 0),
  length-replicate {A = ℕ} (n - length old) 0,
)

-- The written bytes stand in the file at the offset.
chunk-splice :
    (old buf : List ℕ) (offset n : ℕ)
    → length buf ≡ n
    → chunk (splice old offset buf) offset n ≡ buf
chunk-splice old buf offset n e =
    let padded = old ++ replicate (offset + length buf - length old) 0 in
    let rest = drop (offset + length buf) padded in
    let front : length (take offset padded) ≡ offset =
      omega (arith, length-take offset padded, length-padded old (offset + length buf)) in
    rw (drop-append_length offset (take offset padded) (buf ++ rest) front)
      (take-append_length n buf rest e)

sub-add-sub : (i m n : ℕ) → m + n ≤ i → m + n + (i - m - n) ≡ i
sub-add-sub i m n h = omega arith

get_elem?-beyond : (xs : List ℕ) (i : ℕ) → length xs ≤ i → get_elem? xs i ≡ none
get_elem?-beyond [] i h = refl
get_elem?-beyond (x ∷ xs) zero h = absurd (omega arith)
get_elem?-beyond (x ∷ xs) (suc i) h = get_elem?-beyond xs i (omega arith)

get_elem?-padded :
    (old : List ℕ) (n i : ℕ)
    → get_elem? (old ++ replicate (n - length old) 0) i
      ≡ (if ltb i (length old) then get_elem? old i else if ltb i n then some 0 else none)
get_elem?-padded old n i = ground (
  arith,
  get_elem?-append old (replicate (n - length old) 0) i,
  get_elem?-replicate {A = ℕ} (n - length old) 0 (i - length old),
)

get_elem?-splice :
    (old buf : List ℕ) (offset i : ℕ)
    → get_elem? (splice old offset buf) i ≡ (
        if ltb i offset
        then (if ltb i (length old) then get_elem? old i else some 0)
        else if ltb i (offset + length buf)
        then get_elem? buf (i - offset)
        else get_elem? old i)
get_elem?-splice old buf offset i =
    let end = offset + length buf in
    let padded = old ++ replicate (end - length old) 0 in
    ground (
      arith,
      length-take offset padded,
      length-padded old end,
      get_elem?-append (take offset padded) (buf ++ drop end padded) i,
      get_elem?-append buf (drop end padded) (i - offset),
      get_elem?-take offset padded i,
      get_elem?-drop end padded (i - offset - length buf),
      get_elem?-padded old end i,
      λ (h : end ≤ i). ap (get_elem? padded) (sub-add-sub i offset (length buf) h),
      get_elem?-beyond old i,
    )

-- What is written at an open descriptor with the write flag is read back there after a seek to where the
-- write began, an offset below 2 ^ 63, by a buffer of the same length.
pub read_fd-write_fd :
    (fs : OverlayFileSystem) (fd : ℕ) (of : OpenFile) (buf room : List ℕ)
    → BTreeMap.get fs.open_files fd ≡ some of
    → of.flags.write ≡ true
    → of.offset < i64_limit
    → length room ≡ length buf
    → (read_fd (seek (write_fd fs fd buf).0 fd (SeekFrom.start of.offset)).0 fd room).1
      ≡ Result.ok (length buf, buf)
read_fd-write_fd fs fd of buf room opened w small e =
    let off = of.offset in
    let fs0 = change_ram fs of.path (λ old. splice old off buf) in
    let fs1 = set_offset fs0 fd of (off + length buf) in
    let of1 = record of { offset = off + length buf } in
    let fs2 = set_offset fs1 fd of1 off in
    let bytes = splice (or_empty (read_slice fs of.path)) off buf in
    let reachable : target (SeekFrom.start off) (off + length buf)
          (length (or_empty (read_slice fs1 of.path)))
        ≡ some off =
      rw (lt→ltb off i64_limit small) in
    let seen : read_slice fs2 of.path ≡ some bytes =
      read_slice-set_offset fs1 fd of1 off of.path
      ∙ read_slice-set_offset fs0 fd of (off + length buf) of.path
      ∙ read_slice-change_ram fs of.path of.path (λ old. splice old off buf)
      ∙ rw (eqb_refl of.path) in
    ap
      (λ (r : OverlayFileSystem × Result ℕ).
        (read_fd (seek r.0 fd (SeekFrom.start off)).0 fd room).1)
      (write_fd_lem fs fd of opened buf w)
    ∙ ap (λ (r : OverlayFileSystem × Result ℕ). (read_fd r.0 fd room).1)
        (seek_lem fs1 fd of1 (get-set_offset fs0 fd of _) (SeekFrom.start off) off reachable)
    ∙ ap (λ (r : OverlayFileSystem × Result (ℕ × List ℕ)). r.1)
        (read_fd_lem fs2 fd (record of1 { offset = off }) (get-set_offset fs1 fd of1 off) room bytes
          seen)
    ∙ rw (chunk-splice (or_empty (read_slice fs of.path)) buf off (length room) (sym e))
        (rw (drop_all (length buf) room (omega arith)) (rw (append-nil buf)))

-- A write at an open descriptor with the write flag, byte by byte: before the offset the old bytes, and zeros where there were
-- none; then the written bytes; then the old bytes. Every other file reads as before.
pub read_slice-write_fd :
    (fs : OverlayFileSystem) (fd : ℕ) (of : OpenFile) (buf : List ℕ)
    → BTreeMap.get fs.open_files fd ≡ some of
    → of.flags.write ≡ true
    → let old = or_empty (read_slice fs of.path) in
      let fs' = (write_fd fs fd buf).0 in
      ((i : ℕ)
        → get_elem? (or_empty (read_slice fs' of.path)) i ≡ (
            if ltb i of.offset
            then (if ltb i (length old) then get_elem? old i else some 0)
            else if ltb i (of.offset + length buf)
            then get_elem? buf (i - of.offset)
            else get_elem? old i))
      × ((other : Name)
          → text_eq of.path other ≡ false
          → read_slice fs' other ≡ read_slice fs other)
read_slice-write_fd fs fd of buf opened w =
    let fs0 = change_ram fs of.path (λ old. splice old of.offset buf) in
    let done = write_fd_lem fs fd of opened buf w in
    let seen : read_slice fs0 of.path
        ≡ some (splice (or_empty (read_slice fs of.path)) of.offset buf) =
      read_slice-change_ram fs of.path of.path (λ old. splice old of.offset buf)
      ∙ rw (eqb_refl of.path) in
    rw done (
      (λ i.
          rw (read_slice-set_offset fs0 fd of (of.offset + length buf) of.path)
            (rw seen (get_elem?-splice (or_empty (read_slice fs of.path)) buf of.offset i))),
      (λ other h.
          read_slice-set_offset fs0 fd of (of.offset + length buf) other
          ∙ read_slice-change_ram fs of.path other (λ old. splice old of.offset buf)
          ∙ rw h),
    )
