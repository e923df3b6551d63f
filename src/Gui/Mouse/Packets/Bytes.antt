-- ===== src/Gui/Mouse/Packets/Bytes.antt =====
-- What a mouse sends for a movement, and that kernel/src/task/mouse.rs reads it.
use kafka_os.Base.{
  ℕ, ◌+◌, ◌-◌, ◌≤◌, ◌<◌, ◌≡◌, ◌∙◌, refl, sym, ap, Bool, true, false, List, [], ◌∷◌, ◌++◌,
  append_assoc, append-nil, if◌then◌else◌, ◌==◌, ltb, length, length-append, arith,
}
use kafka_os.Base.Int.{ℤ, pos, negsuc, pos_part, neg_part}
use kafka_os.Gui.Mouse.{MousePacket}
use kafka_os.Gui.Mouse.Packets.{
  Decoder, queue_size, bit, movement, negated, packet_of, add_packet_from_interrupt, add_bytes,
}

abbrev weight : Bool → ℕ → ℕ
weight b n = if b then n else 0

-- The low byte of a movement.
abbrev low_byte : ℤ → ℕ
low_byte (pos n) = n
low_byte (negsuc n) = 255 - n

abbrev is_negative : ℤ → Bool
is_negative (pos n) = false
is_negative (negsuc n) = true

-- The first byte: the buttons, the bit that is always set, and the signs. The mouse counts upwards, the
-- screen downwards.
unfoldable pub flag_byte : MousePacket → ℕ
flag_byte p =
    weight p.left_btn 1
    + weight p.right_btn 2
    + 8
    + weight (is_negative p.x) 16
    + weight (is_negative (negated p.y)) 32

-- The three bytes of each movement.
abbrev pub bytes_of : List MousePacket → List ℕ
bytes_of [] = []
bytes_of (p ∷ ps) = flag_byte p ∷ low_byte p.x ∷ low_byte (negated p.y) ∷ bytes_of ps

-- A movement of nine bits with its sign.
abbrev IsNine : ℤ → Type 0
IsNine n = (pos_part n < 256) × (neg_part n ≤ 256)

abbrev pub ArePackets : List MousePacket → Type 0
ArePackets [] = Unit {0}
ArePackets (p ∷ ps) = IsNine p.x × IsNine (negated p.y) × ArePackets ps

flag_bits :
    (l r sx sy : Bool)
    → let byte = weight l 1 + weight r 2 + 8 + weight sx 16 + weight sy 32 in
      (bit byte 1 ≡ l)
      × (bit byte 2 ≡ r)
      × (bit byte 8 ≡ true)
      × (bit byte 16 ≡ sx)
      × (bit byte 32 ≡ sy)
      × ((byte == 250) ≡ false)
flag_bits l r sx sy =
    (ground arith, ground arith, ground arith, ground arith, ground arith, ground arith)

movement-low_byte : (n : ℤ) → IsNine n → movement (low_byte n) (is_negative n) ≡ n
movement-low_byte (pos n) h = ground arith
movement-low_byte (negsuc n) h = ground arith

negated-negated : (n : ℤ) → negated (negated n) ≡ n
negated-negated (pos n) = ground arith
negated-negated (negsuc n) = ground arith

packet-bytes :
    (p : MousePacket)
    → IsNine p.x
    → IsNine (negated p.y)
    → packet_of (flag_byte p) (low_byte p.x) (low_byte (negated p.y)) ≡ p
unfolding packet_of flag_byte
packet-bytes p hx hy =
    let (left, right, always, x_sign, y_sign, known) =
      flag_bits p.left_btn p.right_btn (is_negative p.x) (is_negative (negated p.y)) in
    rw
      (
        left,
        right,
        x_sign,
        y_sign,
        movement-low_byte p.x hx,
        movement-low_byte (negated p.y) hy,
        negated-negated p.y,
      )
      refl

-- After the three bytes of a packet.
abbrev after_three : Decoder → MousePacket → Decoder
after_three d p = record {
  flags = flag_byte p;
  x_byte = low_byte p.x;
  y_byte = low_byte (negated p.y);
  index = 0;
  queue = d.queue ++ (p ∷ []);
}

first_byte :
    (d : Decoder) (p : MousePacket)
    → d.index ≡ 0
    → add_packet_from_interrupt d (flag_byte p) ≡ record d { flags = flag_byte p; index = 1 }
unfolding add_packet_from_interrupt flag_byte
first_byte d p hi =
    let (left, right, always, x_sign, y_sign, known) =
      flag_bits p.left_btn p.right_btn (is_negative p.x) (is_negative (negated p.y)) in
    let start : (d.index == 0) ≡ true = ground arith in rw (start, known, always) refl

add_three :
    (d : Decoder) (p : MousePacket)
    → d.index ≡ 0
    → length d.queue < 100
    → IsNine p.x
    → IsNine (negated p.y)
    → add_packet_from_interrupt
        (add_packet_from_interrupt (add_packet_from_interrupt d (flag_byte p)) (low_byte p.x))
        (low_byte (negated p.y))
      ≡ after_three d p
unfolding add_packet_from_interrupt
add_three d p hi hq hx hy =
    let room : ltb (length d.queue) 100 ≡ true = ground arith in
    rw (first_byte d p hi, packet-bytes p hx hy, room) refl

-- From an idle decoder whose queue has room for them, the three bytes of each of a list of movements bring
-- exactly these packets to the end of the queue, in order, and leave the decoder idle. The movements have
-- nine bits with the sign.
pub add_bytes-bytes_of :
    (d : Decoder) (ps : List MousePacket)
    → d.index ≡ 0
    → length d.queue + length ps ≤ queue_size
    → ArePackets ps
    → ((add_bytes d (bytes_of ps)).index ≡ 0) × ((add_bytes d (bytes_of ps)).queue ≡ d.queue ++ ps)
unfolding add_bytes
add_bytes-bytes_of d [] hi hq h = (hi, sym (append-nil d.queue))
add_bytes-bytes_of d (p ∷ ps) hi hq (hx, hy, h) =
    let grown = length-append d.queue (p ∷ []) in
    let (idle, queue_eq) = add_bytes-bytes_of (after_three d p) ps refl (omega arith) h in
    let step : add_bytes d (bytes_of (p ∷ ps)) ≡ add_bytes (after_three d p) (bytes_of ps) =
      ap (λ (e : Decoder). add_bytes e (bytes_of ps)) (add_three d p hi (omega arith) hx hy) in
    (
      ap (λ (e : Decoder). e.index) step ∙ idle,
      ap (λ (e : Decoder). e.queue) step ∙ queue_eq ∙ append_assoc d.queue (p ∷ []) ps,
    )
