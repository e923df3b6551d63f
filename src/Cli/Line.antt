-- ===== src/Cli/Line.antt =====
-- The line that is typed into the shell of kernel/src/cli.rs, its history, and the keys that the editor takes.
-- A key is what the decoder of the `pc_keyboard` crate makes of a scan code.
pub mod Session
pub mod Keys
pub mod Browse
use kafka_os.Base.{
  ℕ, zero, suc, ◌+◌, ◌-◌, Bool, true, false, ◌&&◌, ◌||◌, not, Option, none, some, List, [], ◌∷◌,
  ◌++◌, ltb, ◌==◌, if◌then◌else◌, length, get_elem?, replicate, ◌>>=◌,
}
use kafka_os.Notepad.{Mode}
use kafka_os.Notepad.Handlers.{KeyCode, DecodedKey, Editor, handle_key, close_notepad}
use kafka_os.Cli.Text.{Word, is_empty, as_bytes, without_last}
use kafka_os.Cli.Output.{Output}
use kafka_os.Cli.Commands.{Shell, execute_command}

pub record Cli : Type 0 where
  pub shell : Shell
  pub input_buffer : Word
  pub history : List Word
  pub history_index : ℕ

abbrev pub emit : Shell → List Output → Shell
emit sh out = record sh { output = sh.output ++ out }

abbrev pub prompted : Shell → Shell
prompted sh = emit sh (Output.prompt sh.cwd ∷ [])

abbrev pub remembered : Word → List Word → List Word
remembered input history = if is_empty input then history else history ++ (input ∷ [])

unfoldable pub enter : Cli → Option Cli
enter c = execute_command c.input_buffer (emit c.shell (Output.new_line ∷ [])) >>= λ sh.
    some (record {
      shell = prompted sh;
      input_buffer = [];
      history = remembered c.input_buffer c.history;
      history_index = length (remembered c.input_buffer c.history);
    })

unfoldable pub erase_last : Cli → Cli
erase_last c = if is_empty c.input_buffer then c else record c {
  input_buffer = without_last c.input_buffer;
  shell = emit c.shell (Output.backspace ∷ []);
}

unfoldable pub type_char : ℕ → Cli → Cli
type_char ch c = record c {
  input_buffer = c.input_buffer ++ (ch ∷ []);
  shell = emit c.shell (Output.typed (ch ∷ []) ∷ []);
}

-- One for each byte of the line.
abbrev pub erased : Word → List Output
erased s = replicate (length (as_bytes s)) Output.backspace

abbrev recalled : Cli → ℕ → Option Word → Option Cli
recalled c index none = none
recalled c index (some l) = some (record c {
  shell = emit (emit c.shell (erased c.input_buffer)) (Output.typed l ∷ []);
  input_buffer = l;
  history_index = index;
})

-- The line of the history at an index. There is a panic where it has none.
unfoldable pub recall : Cli → ℕ → Option Cli
recall c index = recalled c index (get_elem? c.history index)

unfoldable pub arrow_up : Cli → Option Cli
unfolding recall
arrow_up c = if ltb 0 c.history_index then recall c (c.history_index - 1) else some c

unfoldable pub arrow_down : Cli → Option Cli
unfolding recall
arrow_down c =
    if ltb c.history_index (length c.history)
    then (if c.history_index + 1 == length c.history
        then some (record c {
          shell = emit c.shell (erased c.input_buffer);
          input_buffer = [];
          history_index = c.history_index + 1;
        })
        else recall c (c.history_index + 1))
    else some c

unfoldable pub press : DecodedKey → Cli → Option Cli
press (DecodedKey.unicode ch) c =
    if ch == b'\n' then enter c else if ch == 8 then some (erase_last c) else some (type_char ch c)
press (DecodedKey.raw_key KeyCode.arrow_up) c = arrow_up c
press (DecodedKey.raw_key KeyCode.arrow_down) c = arrow_down c
press (DecodedKey.raw_key code) c = some c

abbrev is_escape : DecodedKey → Bool
is_escape (DecodedKey.unicode ch) = ch == 27
is_escape (DecodedKey.raw_key KeyCode.escape) = true
is_escape (DecodedKey.raw_key code) = false

abbrev is_editing : Mode → Bool
is_editing Mode.editing = true
is_editing Mode.save_prompt = false
is_editing Mode.open_prompt = false

-- The editor takes the keys while it is open; an escape outside its prompts closes it.
abbrev to_editor : DecodedKey → Bool → Bool → Editor → Option Editor
to_editor key ctrl shift e =
    if is_escape key && is_editing e.state.mode
    then some (close_notepad e)
    else handle_key key ctrl shift e

abbrev with_editor : Cli → Option Editor → Option Cli
with_editor c none = none
with_editor c (some e) = some (record c { shell = record c.shell { editor = e } })

unfoldable pub on_key : DecodedKey → Bool → Bool → Cli → Option Cli
on_key key ctrl shift c =
    if c.shell.editor.active
    then with_editor c (to_editor key ctrl shift c.shell.editor)
    else press key c
