-- ===== src/Cli/Commands/Paths.antt =====
-- Directories and their parents in kernel/src/cli.rs.
use kafka_os.Base.{
  ℕ, ◌≡◌, ◌∙◌, refl, sym, ap, Bool, true, false, ◌&&◌, ◌||◌, none, some, List, [], ◌∷◌, ◌++◌, ◌==◌,
  if◌then◌else◌, length, take, append_assoc, arith,
}
use kafka_os.BTreeMap.{text_eq}
use kafka_os.Fs.Overlay.{list_files}
use kafka_os.Cli.Text.{
  Word, is_empty, ends_with_slash, starts_with_slash, trim_start_slashes, trim_end_slashes,
  rfind_slash,
}
use kafka_os.Cli.Commands.{Shell, with_slash, parent, parent_at, new_path, any_starts_with, cd}

-- A path without a slash at its end.
pub data IsDir : Word → Type 0 where
  root : IsDir []
  inside : (d : Word) (c : ℕ) → (c == b'/') ≡ false → IsDir (d ++ (c ∷ []))

-- A name without a slash, which is not the parent's.
abbrev pub AreSlashless : Word → Type 0
AreSlashless [] = Unit {0}
AreSlashless (c ∷ s) = ((c == b'/') ≡ false) × AreSlashless s

trim_end-dir :
    (d : Word) (c : ℕ)
    → (c == b'/') ≡ false
    → trim_end_slashes (d ++ (c ∷ b'/' ∷ [])) ≡ d ++ (c ∷ [])
trim_end-dir [] c h = rw h refl
trim_end-dir (x ∷ d) c h = rw (trim_end-dir d c h) (nonempty x d c)
  where
    nonempty :
        (x : ℕ) (d : Word) (c : ℕ)
        → (if (x == b'/') && is_empty (d ++ (c ∷ [])) then [] else x ∷ (d ++ (c ∷ [])))
          ≡ x ∷ (d ++ (c ∷ []))
    nonempty x [] c = ground arith
    nonempty x (y ∷ d) c = ground arith

rfind_slashless : (n : Word) → AreSlashless n → rfind_slash n ≡ none
rfind_slashless [] h = refl
rfind_slashless (c ∷ n) (hc, h) = rw (rfind_slashless n h, hc) refl

rfind_slash-append : (d n : Word) → AreSlashless n → rfind_slash (d ++ (b'/' ∷ n)) ≡ some (length d)
rfind_slash-append [] n h = rw (rfind_slashless n h) refl
rfind_slash-append (c ∷ d) n h = rw (rfind_slash-append d n h) refl

take_front : (d n : Word) → take (length d) (d ++ n) ≡ d
take_front [] n = refl
take_front (c ∷ d) n = ap (λ (t : Word). c ∷ t) (take_front d n)

ends_with_slash-append : (d : Word) (c : ℕ) → ends_with_slash (d ++ (c ∷ [])) ≡ (c == b'/')
ends_with_slash-append [] c = ground arith
ends_with_slash-append (x ∷ d) c = rw (ends_with_slash-append d c) (behind x d c)
  where
    behind :
        (x : ℕ) (d : Word) (c : ℕ)
        → ((is_empty (d ++ (c ∷ [])) && x == b'/') || c == b'/') ≡ (c == b'/')
    behind x [] c = ground arith
    behind x (y ∷ d) c = ground arith

parent_at-dir :
    (cwd dir n : Word)
    → IsDir dir
    → parent_at cwd (dir ++ (b'/' ∷ n)) (some (length dir)) ≡ dir ++ (b'/' ∷ [])
parent_at-dir cwd _ n root = refl
parent_at-dir cwd _ n (inside [] c h) = rw h refl
parent_at-dir cwd _ n (inside (x ∷ d) c h) =
    rw (take_front (d ++ (c ∷ [])) (b'/' ∷ n), ends_with_slash-append (x ∷ d) c, h) refl

-- The parent of a name under a directory is the directory.
parent-new_path :
    (dir n : Word) (c : ℕ)
    → IsDir dir
    → AreSlashless n
    → (c == b'/') ≡ false
    → parent (dir ++ (b'/' ∷ (n ++ (c ∷ b'/' ∷ [])))) ≡ dir ++ (b'/' ∷ [])
unfolding parent
parent-new_path dir n c p h hc =
    let cwd = dir ++ (b'/' ∷ (n ++ (c ∷ b'/' ∷ []))) in
    let trimmed : trim_end_slashes cwd ≡ dir ++ (b'/' ∷ (n ++ (c ∷ []))) =
      ap trim_end_slashes (sym (append_assoc dir (b'/' ∷ n) (c ∷ b'/' ∷ [])))
      ∙ trim_end-dir (dir ++ (b'/' ∷ n)) c hc
      ∙ append_assoc dir (b'/' ∷ n) (c ∷ []) in
    ap (λ (t : Word). parent_at cwd t (rfind_slash t)) trimmed
    ∙ ap (parent_at cwd (dir ++ (b'/' ∷ (n ++ (c ∷ [])))))
        (rfind_slash-append dir (n ++ (c ∷ [])) (append-AreSlashless n c h hc))
    ∙ parent_at-dir cwd dir (n ++ (c ∷ [])) p
  where
    append-AreSlashless :
        (n : Word) (c : ℕ) → AreSlashless n → (c == b'/') ≡ false → AreSlashless (n ++ (c ∷ []))
    append-AreSlashless [] c h hc = (hc, tt)
    append-AreSlashless (x ∷ n) c (hx, h) hc = (hx, append-AreSlashless n c h hc)

-- The new path of a name that is not the parent's.
new_path-dir :
    (dir n : Word) (c : ℕ)
    → starts_with_slash (n ++ (c ∷ [])) ≡ false
    → (c == b'/') ≡ false
    → new_path (dir ++ (b'/' ∷ [])) (n ++ (c ∷ [])) ≡ dir ++ (b'/' ∷ (n ++ (c ∷ b'/' ∷ [])))
unfolding new_path
new_path-dir dir n c first hc =
    let joined : (dir ++ (b'/' ∷ [])) ++ (n ++ (c ∷ [])) ≡ (dir ++ (b'/' ∷ n)) ++ (c ∷ []) =
      append_assoc dir (b'/' ∷ []) (n ++ (c ∷ [])) ∙ sym (append_assoc dir (b'/' ∷ n) (c ∷ [])) in
    ap
      (λ (b : Bool).
        with_slash (if b then n ++ (c ∷ []) else (dir ++ (b'/' ∷ [])) ++ (n ++ (c ∷ []))))
      first
    ∙ ap with_slash joined
    ∙ ap
        (λ (b : Bool).
          if b
          then (dir ++ (b'/' ∷ n)) ++ (c ∷ [])
          else ((dir ++ (b'/' ∷ n)) ++ (c ∷ [])) ++ (b'/' ∷ []))
        (ends_with_slash-append (dir ++ (b'/' ∷ n)) c ∙ hc)
    ∙ append_assoc (dir ++ (b'/' ∷ n)) (c ∷ []) (b'/' ∷ [])
    ∙ append_assoc dir (b'/' ∷ n) (c ∷ b'/' ∷ [])

cd-to :
    (sh : Shell) (name : Word) (args : List Word)
    → text_eq name (b'/' ∷ []) ≡ false
    → text_eq name (b'.' ∷ b'.' ∷ []) ≡ false
    → any_starts_with (list_files sh.editor.files) (trim_start_slashes (new_path sh.cwd name))
      ≡ true
    → cd (name ∷ args) sh ≡ record sh { cwd = new_path sh.cwd name }
unfolding cd
cd-to sh name args a b c = rw (a, b, c) refl

cd-dots :
    (sh : Shell) (args : List Word)
    → text_eq sh.cwd (b'/' ∷ []) ≡ false
    → cd ((b'.' ∷ b'.' ∷ []) ∷ args) sh ≡ record sh { cwd = parent sh.cwd }
unfolding cd
cd-dots sh args a = rw a refl

longer : (d : Word) (c : ℕ) (t : Word) → text_eq (d ++ (c ∷ t)) [] ≡ false
longer [] c t = refl
longer (x ∷ d) c t = refl

and_false : (a b : Bool) → b ≡ false → (a && b) ≡ false
and_false true b h = h
and_false false b h = refl

not_root : (d n : Word) (c : ℕ) → text_eq (d ++ (b'/' ∷ (n ++ (c ∷ b'/' ∷ [])))) (b'/' ∷ []) ≡ false
not_root [] n c = longer n c (b'/' ∷ [])
not_root (x ∷ d) n c = and_false (x == b'/') _ (longer d b'/' (n ++ (c ∷ b'/' ∷ [])))

slashless_start :
    (n : Word) (c : ℕ)
    → AreSlashless n
    → (c == b'/') ≡ false
    → starts_with_slash (n ++ (c ∷ [])) ≡ false
slashless_start [] c h hc = hc
slashless_start (x ∷ n) c (hx, h) hc = hx

no_slash_name : (s : Word) → starts_with_slash s ≡ false → text_eq s (b'/' ∷ []) ≡ false
no_slash_name [] h = refl
no_slash_name (x ∷ s) h = rw h refl

-- From a directory into one under it that has a file, and with `..` back, the shell is where it was, and
-- nothing else has changed. The name is not `..`, has no slash, and the directory ends with a single one.
pub cd-cd :
    (sh : Shell) (dir n : Word) (c : ℕ)
    → IsDir dir
    → AreSlashless n
    → (c == b'/') ≡ false
    → text_eq (n ++ (c ∷ [])) (b'.' ∷ b'.' ∷ []) ≡ false
    → any_starts_with
        (list_files sh.editor.files)
        (trim_start_slashes (dir ++ (b'/' ∷ (n ++ (c ∷ b'/' ∷ [])))))
      ≡ true
    → cd
        ((b'.' ∷ b'.' ∷ []) ∷ [])
        (cd ((n ++ (c ∷ [])) ∷ []) (record sh { cwd = dir ++ (b'/' ∷ []) }))
      ≡ record sh { cwd = dir ++ (b'/' ∷ []) }
cd-cd sh dir n c p h hc other found =
    let name = n ++ (c ∷ []) in
    let first = slashless_start n c h hc in
    let below = dir ++ (b'/' ∷ (n ++ (c ∷ b'/' ∷ []))) in
    let path = new_path-dir dir n c first hc in
    let exists =
      ap (λ (w : Word). any_starts_with (list_files sh.editor.files) (trim_start_slashes w)) path
      ∙ found in
    ap (cd ((b'.' ∷ b'.' ∷ []) ∷ [])) (
      cd-to (record sh { cwd = dir ++ (b'/' ∷ []) }) name [] (no_slash_name name first) other
        exists)
    ∙ ap (λ (w : Word). cd ((b'.' ∷ b'.' ∷ []) ∷ []) (record sh { cwd = w })) path
    ∙ cd-dots (record sh { cwd = below }) [] (not_root dir n c)
    ∙ ap (λ (w : Word). record sh { cwd = w }) (parent-new_path dir n c p h hc)
