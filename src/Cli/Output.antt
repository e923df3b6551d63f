-- ===== src/Cli/Output.antt =====
-- What the shell of kernel/src/cli.rs prints.
use kafka_os.Base.{List}
use kafka_os.Base.Int.{ℤ}
use kafka_os.Cli.Text.{Word}

-- What is printed: a message of its own line, or a piece of the line that is typed.
pub data Message : Type 0 where
  help_text version_text fetch_text shutting_down process_report opening_notepad : Message
  empty_directory binary_file division_by_zero missing_operator : Message
  usage : Word → Message
  echoed : List Word → Message
  no_such_directory file_not_found not_a_number unknown_operator unknown_command : Word → Message
  file_created wrote_file deleted read_only no_file opening entry contents : Word → Message
  result : ℤ → Message

pub data Output : Type 0 where
  line : Message → Output
  typed : Word → Output
  backspace new_line cleared : Output
  prompt : Word → Output
