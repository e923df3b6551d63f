-- ===== src/Cli/Commands.antt =====
-- The commands of kernel/src/cli.rs. The colours of the terminal are not modelled, nor the texts that a
-- command always prints the same. The file system is there before the shell runs.
pub mod Files
pub mod Paths
use kafka_os.Base.{
  ℕ, zero, suc, ◌+◌, ◌-◌, ◌%◌, ◌^◌, Bool, true, false, ◌&&◌, ◌||◌, not, Option, none, some, List,
  [], ◌∷◌, ◌++◌, map, ltb, leb, ◌==◌, if◌then◌else◌, take,
}
use kafka_os.Base.Int.{ℤ, pos, negsuc, sub_ℕ, ◌+ℤ◌, ◌-ℤ◌, ◌*ℤ◌, ◌/ℤ◌, pos_part, neg_part}
use kafka_os.BTreeMap.{text_eq}
use kafka_os.Fs.Text.{from_utf8, trim}
use kafka_os.Fs.Overlay.{
  OverlayFileSystem, Removal, read_file, write_file, remove_files, list_files,
}
use kafka_os.Notepad.Handlers.{Editor, open_notepad, open_notepad_with_file}
use kafka_os.Cli.Text.{
  Word, is_empty, split_whitespace, strip_prefix, starts_with, starts_with_slash, ends_with_slash,
  trim_start_slashes, trim_end_slashes, find_slash, rfind_slash, as_bytes, parse_i64,
}
use kafka_os.Cli.Output.{Message, Output}
use kafka_os.Cli.Calc.{calc}

pub record Shell : Type 0 where
  pub cwd : Word
  pub editor : Editor
  pub output : List Output

abbrev pub say : Shell → Message → Shell
say sh m = record sh { output = sh.output ++ (Output.line m ∷ []) }

abbrev pub with_slash : Word → Word
with_slash p = if ends_with_slash p then p else p ++ (b'/' ∷ [])

unfoldable pub full_path : Word → Word → Word
full_path cwd filename =
    if starts_with_slash filename
    then trim_start_slashes filename
    else trim_start_slashes cwd ++ filename

abbrev pub parent_at : Word → Word → Option ℕ → Word
parent_at cwd trimmed none = cwd
parent_at cwd trimmed (some zero) = b'/' ∷ []
parent_at cwd trimmed (some (suc i)) = with_slash (take (suc i) trimmed)

unfoldable pub parent : Word → Word
parent cwd = parent_at cwd (trim_end_slashes cwd) (rfind_slash (trim_end_slashes cwd))

unfoldable pub any_starts_with : List Word → Word → Bool
any_starts_with [] prefix = false
any_starts_with (f ∷ files) prefix = starts_with f prefix || any_starts_with files prefix

unfoldable pub new_path : Word → Word → Word
new_path cwd target = with_slash (if starts_with_slash target then target else cwd ++ target)

unfoldable pub cd : List Word → Shell → Shell
cd [] sh = record sh { cwd = b'/' ∷ [] }
cd (target ∷ args) sh =
    if text_eq target (b'/' ∷ [])
    then record sh { cwd = b'/' ∷ [] }
    else if text_eq target (b'.' ∷ b'.' ∷ [])
    then (if text_eq sh.cwd (b'/' ∷ []) then sh else record sh { cwd = parent sh.cwd })
    else if any_starts_with (list_files sh.editor.files)
        (trim_start_slashes (new_path sh.cwd target))
    then record sh { cwd = new_path sh.cwd target }
    else say sh (Message.no_such_directory target)

-- The entry of a file under a directory, a directory's with its slash.
abbrev first_part : Word → Option ℕ → Word
first_part relative none = relative
first_part relative (some i) = take i relative ++ (b'/' ∷ [])

abbrev pub entry_of : Word → Word
entry_of relative = first_part relative (find_slash relative)

unfoldable pub contains : List Word → Word → Bool
contains [] e = false
contains (x ∷ xs) e = text_eq x e || contains xs e

abbrev add_entry : List Word → Word → List Word
add_entry entries e =
    if not (is_empty e) && not (contains entries e) then entries ++ (e ∷ []) else entries

abbrev add_file : List Word → Option Word → List Word
add_file entries none = entries
add_file entries (some relative) = add_entry entries (entry_of relative)

unfoldable pub entries_from : Word → List Word → List Word → List Word
entries_from prefix entries [] = entries
entries_from prefix entries (f ∷ files) =
    entries_from prefix (add_file entries (strip_prefix f prefix)) files

unfoldable pub entries : Word → List Word → List Word
entries cwd files = entries_from (trim_start_slashes cwd) [] files

abbrev say_all : Shell → List Message → Shell
say_all sh ms = record sh { output = sh.output ++ map Output.line ms }

unfoldable pub ls : Shell → Shell
ls sh =
    let found = entries sh.cwd (list_files sh.editor.files) in
    elim found as (λ _. Shell) [
      | [] ↦ say sh Message.empty_directory
      | e ∷ es ↦ say_all sh (map Message.entry found)
    ]

abbrev pub shown_text : Option (List ℕ) → Message
shown_text none = Message.binary_file
shown_text (some text) = Message.contents text

abbrev pub shown_file : Word → Option (List ℕ) → Message
shown_file filename none = Message.file_not_found filename
shown_file filename (some bytes) = shown_text (from_utf8 bytes)

unfoldable pub cat : List Word → Shell → Shell
cat [] sh = say sh (Message.usage (b'c' ∷ b'a' ∷ b't' ∷ []))
cat (filename ∷ args) sh =
    say sh (shown_file filename (read_file sh.editor.files (full_path sh.cwd filename)))

abbrev pub with_files : Shell → OverlayFileSystem → Shell
with_files sh fs = record sh { editor = record sh.editor { files = fs } }

unfoldable pub touch : List Word → Shell → Shell
touch [] sh = say sh (Message.usage (b't' ∷ b'o' ∷ b'u' ∷ b'c' ∷ b'h' ∷ []))
touch (filename ∷ args) sh =
    say (with_files sh (write_file sh.editor.files (full_path sh.cwd filename) []))
      (Message.file_created filename)

unfoldable pub spaced : List Word → Word
spaced [] = []
spaced (arg ∷ args) = arg ++ (b' ' ∷ spaced args)

unfoldable pub write : List Word → Shell → Shell
write [] sh = say sh (Message.usage (b'w' ∷ b'r' ∷ b'i' ∷ b't' ∷ b'e' ∷ []))
write (filename ∷ args) sh =
    say
      (with_files sh
        (write_file sh.editor.files (full_path sh.cwd filename) (as_bytes (spaced args))))
      (Message.wrote_file filename)

abbrev pub removal : Word → Removal → Message
removal filename Removal.removed = Message.deleted filename
removal filename Removal.read_only = Message.read_only filename
removal filename Removal.missing = Message.no_file filename

unfoldable pub rm : List Word → Shell → Shell
rm [] sh = say sh (Message.usage (b'r' ∷ b'm' ∷ []))
rm (filename ∷ args) sh =
    let r = remove_files sh.editor.files (full_path sh.cwd filename) in
    say (with_files sh r.0) (removal filename r.1)

unfoldable pub notepad : List Word → Shell → Shell
notepad [] sh =
    let said = say sh Message.opening_notepad in record said { editor = open_notepad sh.editor }
notepad (filename ∷ args) sh =
    let said = say sh (Message.opening filename) in
    record said { editor = open_notepad_with_file filename sh.editor }

abbrev said : Shell → Option Message → Option Shell
said sh none = none
said sh (some m) = some (say sh m)

-- The words of the commands.
pub data Command : Type 0 where
  help version clear echo cd_command ls_command cat_command calc_command ps kafkafetch : Command
  shutdown touch_command write_command rm_command notepad_command unknown : Command

unfoldable pub command_of : Word → Command
command_of w =
    if text_eq w (b'h' ∷ b'e' ∷ b'l' ∷ b'p' ∷ [])
    then Command.help
    else if text_eq w (b'v' ∷ b'e' ∷ b'r' ∷ b's' ∷ b'i' ∷ b'o' ∷ b'n' ∷ [])
    then Command.version
    else if text_eq w (b'c' ∷ b'l' ∷ b'e' ∷ b'a' ∷ b'r' ∷ [])
    then Command.clear
    else if text_eq w (b'e' ∷ b'c' ∷ b'h' ∷ b'o' ∷ [])
    then Command.echo
    else if text_eq w (b'c' ∷ b'd' ∷ [])
    then Command.cd_command
    else if text_eq w (b'l' ∷ b's' ∷ [])
    then Command.ls_command
    else if text_eq w (b'c' ∷ b'a' ∷ b't' ∷ [])
    then Command.cat_command
    else if text_eq w (b'c' ∷ b'a' ∷ b'l' ∷ b'c' ∷ [])
    then Command.calc_command
    else if text_eq w (b'p' ∷ b's' ∷ [])
    then Command.ps
    else if text_eq w (b'k' ∷ b'a' ∷ b'f' ∷ b'k' ∷ b'a' ∷ b'f' ∷ b'e' ∷ b't' ∷ b'c' ∷ b'h' ∷ [])
    then Command.kafkafetch
    else if text_eq w (b's' ∷ b'h' ∷ b'u' ∷ b't' ∷ b'd' ∷ b'o' ∷ b'w' ∷ b'n' ∷ [])
    then Command.shutdown
    else if text_eq w (b't' ∷ b'o' ∷ b'u' ∷ b'c' ∷ b'h' ∷ [])
    then Command.touch_command
    else if text_eq w (b'w' ∷ b'r' ∷ b'i' ∷ b't' ∷ b'e' ∷ [])
    then Command.write_command
    else if text_eq w (b'r' ∷ b'm' ∷ [])
    then Command.rm_command
    else if text_eq w (b'n' ∷ b'o' ∷ b't' ∷ b'e' ∷ b'p' ∷ b'a' ∷ b'd' ∷ [])
    then Command.notepad_command
    else Command.unknown

unfoldable pub run_command : Command → Word → List Word → Shell → Option Shell
run_command Command.help w args sh = some (say sh Message.help_text)
run_command Command.version w args sh = some (say sh Message.version_text)
run_command Command.clear w args sh =
    some (record sh { output = sh.output ++ (Output.cleared ∷ []) })
run_command Command.echo w args sh = some (say sh (Message.echoed args))
run_command Command.cd_command w args sh = some (cd args sh)
run_command Command.ls_command w args sh = some (ls sh)
run_command Command.cat_command w args sh = some (cat args sh)
run_command Command.calc_command w args sh = said sh (calc args)
run_command Command.ps w args sh = some (say sh Message.process_report)
run_command Command.kafkafetch w args sh = some (say sh Message.fetch_text)
run_command Command.shutdown w args sh = some (say sh Message.shutting_down)
run_command Command.touch_command w args sh = some (touch args sh)
run_command Command.write_command w args sh = some (write args sh)
run_command Command.rm_command w args sh = some (rm args sh)
run_command Command.notepad_command w args sh = some (notepad args sh)
run_command Command.unknown w args sh = some (say sh (Message.unknown_command w))

unfoldable pub run_words : List Word → Shell → Option Shell
run_words [] sh = some sh
run_words (w ∷ args) sh = run_command (command_of w) w args sh

unfoldable pub execute_command : List ℕ → Shell → Option Shell
execute_command input sh = run_words (split_whitespace (trim input)) sh
