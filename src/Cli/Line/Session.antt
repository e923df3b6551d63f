-- ===== src/Cli/Line/Session.antt =====
-- Text of ASCII at the prompt of kernel/src/cli.rs, and what a prompt keeps while a line is typed.
use kafka_os.Base.{◌≤◌, ◌≡◌, refl, ap, true, false, List, [], ◌∷◌, ◌++◌, ltb, length}
use kafka_os.Cli.Text.{Word, as_bytes}
use kafka_os.Cli.Commands.{}
use kafka_os.Cli.Line.{Cli}

abbrev pub AreAscii : Word → Type 0
AreAscii [] = Unit {0}
AreAscii (c ∷ s) = (ltb c 128 ≡ true) × AreAscii s

pub as_bytes_ascii : (s : Word) → AreAscii s → as_bytes s ≡ s
as_bytes_ascii [] h = refl
as_bytes_ascii (c ∷ s) (hc, h) = rw hc (ap (λ (t : Word). c ∷ t) (as_bytes_ascii s h))

pub append-AreAscii : (s t : Word) → AreAscii s → AreAscii t → AreAscii (s ++ t)
append-AreAscii [] t h k = k
append-AreAscii (c ∷ s) t (hc, h) k = (hc, append-AreAscii s t h k)

-- The editor is closed, the lines of the history are some lines, and the index is one of them or their end.
pub record IsSession (lines : List Word) (c : Cli) : Type 0 where
  pub closed : c.shell.editor.active ≡ false
  pub history_kept : c.history ≡ lines
  pub index_le : c.history_index ≤ length c.history
