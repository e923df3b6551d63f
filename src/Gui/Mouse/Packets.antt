-- ===== src/Gui/Mouse/Packets.antt =====
-- The bytes of the mouse: `add_packet_from_interrupt` of kernel/src/task/mouse.rs. The static buffer, its
-- index and the queue, once it is there, are the state; the waker is not modelled.
pub mod Bytes
use kafka_os.Base.{
  ℕ, ◌+◌, ◌-◌, ◌/◌, ◌%◌, Bool, true, false, ◌&&◌, ◌||◌, not, List, [], ◌∷◌, ◌++◌, if◌then◌else◌,
  ◌==◌, ltb, length,
}
use kafka_os.Base.Int.{ℤ, sub_ℕ, pos_part, neg_part}
use kafka_os.Gui.Mouse.{MousePacket}

pub record Decoder : Type 0 where
  pub flags : ℕ
  pub x_byte : ℕ
  pub y_byte : ℕ
  pub index : ℕ
  pub queue : List MousePacket

-- The size of the queue: a packet that finds it full is lost.
abbrev pub queue_size : ℕ
queue_size = 100

abbrev pub bit : ℕ → ℕ → Bool
bit byte value = not (byte / value % 2 == 0)

-- A byte whose sign is a flag.
abbrev pub movement : ℕ → Bool → ℤ
movement byte negative = if negative then sub_ℕ byte 256 else sub_ℕ byte 0

abbrev pub negated : ℤ → ℤ
negated n = sub_ℕ (neg_part n) (pos_part n)

unfoldable pub packet_of : ℕ → ℕ → ℕ → MousePacket
packet_of flags x_byte y_byte = record {
  x = movement x_byte (bit flags 16);
  y = negated (movement y_byte (bit flags 32));
  left_btn = bit flags 1;
  right_btn = bit flags 2;
}

abbrev push_packet : List MousePacket → MousePacket → List MousePacket
push_packet queue packet = if ltb (length queue) queue_size then queue ++ (packet ∷ []) else queue

abbrev store_byte : Decoder → ℕ → Decoder
store_byte d byte =
    if d.index == 0
    then record d { flags = byte; index = 1 }
    else if d.index == 1
    then record d { x_byte = byte; index = 2 }
    else record d {
      y_byte = byte;
      index = 0;
      queue = push_packet d.queue (packet_of d.flags d.x_byte byte);
    }

-- A first byte that acknowledges a command, or without the bit that every first byte has, is skipped.
unfoldable pub add_packet_from_interrupt : Decoder → ℕ → Decoder
add_packet_from_interrupt d byte =
    if d.index == 0 && (byte == 250 || not (bit byte 8)) then d else store_byte d byte

unfoldable pub add_bytes : Decoder → List ℕ → Decoder
add_bytes d [] = d
add_bytes d (byte ∷ bytes) = add_bytes (add_packet_from_interrupt d byte) bytes
