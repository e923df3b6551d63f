-- ===== src/Cli/Tests.antt =====
-- A shell of kernel/src/cli.rs over two files.
use kafka_os.Base.{◌≡◌, refl, false, none, List, [], ◌∷◌, arith}
use kafka_os.Fs.Overlay.{OverlayFileSystem, list_files}
use kafka_os.Notepad.{NotepadState, Mode}
use kafka_os.Notepad.Edit.Total.{Returns}
use kafka_os.Notepad.Handlers.{KeyCode, DecodedKey}
use kafka_os.Cli.Text.{Word}
use kafka_os.Cli.Output.{Message, Output}
use kafka_os.Cli.Commands.{Shell, say, cat, write, cd, spaced, any_starts_with}
use kafka_os.Cli.Commands.Files.{cat-write}
use kafka_os.Cli.Commands.Paths.{IsDir, cd-cd}
use kafka_os.Cli.Line.{Cli}
use kafka_os.Cli.Line.Session.{IsSession}
use kafka_os.Cli.Line.Keys.{on_keys, on_keys-IsSession}
use kafka_os.Cli.Line.Browse.{Arrow, keys_of, IsAt, on_keys-IsAt}

abbrev no_text : NotepadState
no_text = record {
  lines = [] ∷ [];
  cursor_row = 0;
  cursor_col = 0;
  scroll_row = 0;
  scroll_col = 0;
  selection = none;
  clipboard = [];
  mode = Mode.editing;
  prompt_buf = [];
  filename = none;
  modified = false;
  undo_stack = [];
  redo_stack = [];
}

-- d/a, in memory.
abbrev files : OverlayFileSystem
files = record {
  ram_files = (b'd' ∷ b'/' ∷ b'a' ∷ [], record { contents = []; mtime = 0 }) ∷ [];
  tar_fs = [];
  open_files = [];
  next_fd = 3;
}

abbrev shell : Shell
shell = record {
  cwd = b'/' ∷ [];
  editor = record { active = false; state = no_text; files = files };
  output = Output.prompt (b'/' ∷ []) ∷ Output.typed (b'x' ∷ []) ∷ [];
}

abbrev words : List Word
words = (b'h' ∷ b'i' ∷ []) ∷ (b'!' ∷ []) ∷ []

cat-write_example :
    cat ((b'f' ∷ []) ∷ []) (write ((b'f' ∷ []) ∷ words) shell)
    ≡ say
        (write ((b'f' ∷ []) ∷ words) shell)
        (Message.contents (b'h' ∷ b'i' ∷ b' ' ∷ b'!' ∷ b' ' ∷ []))
unfolding spaced
cat-write_example = cat-write shell (b'f' ∷ []) words [] ((refl, (refl, tt)), ((refl, tt), tt))

cd-cd_example : cd ((b'.' ∷ b'.' ∷ []) ∷ []) (cd ((b'd' ∷ []) ∷ []) shell) ≡ shell
unfolding any_starts_with list_files
cd-cd_example = cd-cd shell [] [] b'd' IsDir.root tt refl refl refl

-- A line of the history and one that is being typed.
abbrev session : Cli
session = record {
  shell = shell;
  input_buffer = b'x' ∷ [];
  history = (b'l' ∷ b's' ∷ []) ∷ [];
  history_index = 1;
}

session-IsSession : IsSession session.history session
session-IsSession = record { closed = refl; history_kept = refl; index_le = omega arith }

abbrev keys : List DecodedKey
keys =
    DecodedKey.unicode 8
    ∷ DecodedKey.unicode b'y'
    ∷ DecodedKey.raw_key KeyCode.arrow_up
    ∷ DecodedKey.raw_key KeyCode.arrow_up
    ∷ DecodedKey.unicode b'z'
    ∷ DecodedKey.raw_key KeyCode.arrow_down
    ∷ []

on_keys-IsSession_example : Returns (IsSession session.history) (on_keys keys session)
on_keys-IsSession_example =
    on_keys-IsSession keys session.history session
      (refl, (refl, (refl, (refl, (refl, (refl, tt)))))) session-IsSession

-- A prompt behind two lines of history.
abbrev fresh : Cli
fresh = record {
  shell = shell;
  input_buffer = [];
  history = (b'l' ∷ b's' ∷ []) ∷ (b'p' ∷ []) ∷ [];
  history_index = 2;
}

abbrev arrows : List Arrow
arrows = Arrow.later ∷ Arrow.earlier ∷ Arrow.earlier ∷ Arrow.earlier ∷ Arrow.later ∷ []

on_keys-IsAt_example : Returns (IsAt fresh.history 1) (on_keys (keys_of arrows) fresh)
on_keys-IsAt_example = on_keys-IsAt arrows fresh refl refl refl
