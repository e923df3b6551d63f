-- ===== src/Cli/Commands/Files.antt =====
-- The commands of kernel/src/cli.rs that change and show a file.
use kafka_os.Base.{
  ℕ, ◌≡◌, ◌∙◌, refl, ap, Bool, true, Option, none, some, List, [], ◌∷◌, ltb, if◌then◌else◌,
}
use kafka_os.BTreeMap.{text_eq_refl}
use kafka_os.Fs.Text.{Utf8, idle, put, from_utf8, utf8_from, utf8_next, utf8_first}
use mathlib.Core.Option
use kafka_os.Fs.Overlay.{OverlayFileSystem, read_file, read_slice, write_file}
use kafka_os.Fs.Overlay.Files.{read_slice-write_file}
use kafka_os.Cli.Text.{Word, as_bytes}
use kafka_os.Cli.Line.Session.{AreAscii, as_bytes_ascii, append-AreAscii}
use kafka_os.Cli.Output.{Message}
use kafka_os.Cli.Commands.{Shell, say, full_path, cat, write, spaced, shown_file, shown_text}

utf8_next_ascii : (c : ℕ) → ltb c 128 ≡ true → utf8_next idle c ≡ some (idle, some c)
unfolding utf8_next utf8_first
utf8_next_ascii c h = rw h refl

from_utf8_ascii : (s : Word) → AreAscii s → from_utf8 s ≡ some s
unfolding from_utf8 utf8_from
from_utf8_ascii [] h = refl
from_utf8_ascii (c ∷ s) (hc, h) =
    ap (λ (o : Option (Utf8 × Option ℕ)). decoded o s) (utf8_next_ascii c hc)
    ∙ ap (Option.map (put (some c))) (from_utf8_ascii s h)
  where
    decoded : Option (Utf8 × Option ℕ) → Word → Option Word
    decoded o s = elim o as (λ _. Option Word) [
      | none ↦ none
      | some (v, d) ↦ Option.map (put d) (utf8_from v s)
    ]

abbrev pub AreAsciiWords : List Word → Type 0
AreAsciiWords [] = Unit {0}
AreAsciiWords (w ∷ ws) = AreAscii w × AreAsciiWords ws

spaced-AreAscii : (ws : List Word) → AreAsciiWords ws → AreAscii (spaced ws)
unfolding spaced
spaced-AreAscii [] h = tt
spaced-AreAscii (w ∷ ws) (hw, h) =
    append-AreAscii w (b' ' ∷ spaced ws) hw (refl, spaced-AreAscii ws h)

read_file-write :
    (fs : OverlayFileSystem) (name bytes : Word)
    → read_file (write_file fs name bytes) name ≡ some bytes
unfolding read_file
read_file-write fs name bytes =
    read_slice-write_file fs name name bytes
    ∙ ap (λ (b : Bool). if b then some bytes else read_slice fs name) (text_eq_refl name)

-- Of words of ASCII, `cat` shows what `write` put into the file: the words, each with a blank behind it.
pub cat-write :
    (sh : Shell) (filename : Word) (args more : List Word)
    → AreAsciiWords args
    → cat (filename ∷ more) (write (filename ∷ args) sh)
      ≡ say (write (filename ∷ args) sh) (Message.contents (spaced args))
unfolding cat write
cat-write sh filename args more h =
    let stored = as_bytes (spaced args) in
    let bytes : stored ≡ spaced args = as_bytes_ascii (spaced args) (spaced-AreAscii args h) in
    let name = full_path sh.cwd filename in
    let read : read_file (write_file sh.editor.files name stored) name ≡ some (spaced args) =
      read_file-write sh.editor.files name stored ∙ ap (λ (b : Word). some b) bytes in
    ap (λ (o : Option Word). say (write (filename ∷ args) sh) (shown_file filename o)) read
    ∙ ap (λ (o : Option Word). say (write (filename ∷ args) sh) (shown_text o))
        (from_utf8_ascii (spaced args) (spaced-AreAscii args h))
