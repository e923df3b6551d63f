-- ===== src/Grid/Tests.antt =====
-- Texts on the grids of kernel/src/gui/terminal.rs and kernel/src/vga_buffer.rs.
use kafka_os.Base.{[], ◌∷◌}
use kafka_os.Grid.Terminal.{Writes, write_bytes, new_terminal, write_bytes-new_terminal}
use kafka_os.Grid.Vga.{Writer, clear_screen}

write_bytes-new_terminal_example : Writes (write_bytes (b'h' ∷ b'i' ∷ b'\n' ∷ 8 ∷ []) new_terminal)
write_bytes-new_terminal_example = write_bytes-new_terminal (b'h' ∷ b'i' ∷ b'\n' ∷ 8 ∷ [])

abbrev screen : Writer
screen = clear_screen (record { column_position = 7; color_code = 14; chars = [] })
