-- ===== src/Packet/Timeout.antt =====
-- receive_packet of src/packet.c when recvfrom fails or times out, and deconstruct_string reads a
-- buffer that nothing was written to.
use csc361_a.Base.{ℕ, ◌+◌, ◌≡◌, refl, ap, ◌∙◌, none, some, [], arith, ok, ◌>>=◌}
use csc361_a.Base.Int.{pos}
use csc361_a.Base.Text.{c_string, zeros, zeros-suc}
use csc361_a.Packet.{Packet, PacketHdr, Heap, fresh_payload, store_payload}
use csc361_a.Packet.Create.{length-fresh_payload}
use csc361_a.Packet.Parse.{
  eq_bytes, read_int, read_fields, copy_magic, scan_fields, deconstruct_string, check_packet,
  fill_buffer, receive_packet,
}
use csc361_a.Packet.Payload.{payload_string-store_payload}
use csc361_a.Packet.Scan.{IsZeroed}
use csc361_a.Packet.Fields.{zero_fields, fresh_fields-zero}
use csc361_a.Base.Decimal.{atoi}

abbrev empty_header : PacketHdr
empty_header = record { magic = []; type = pos 0; seqno = pos 0; ackno = pos 0; winsize = pos 0 }

c_string-zeros : (n : ℕ) → c_string (zeros (n + 1)) ≡ some []
unfolding c_string
c_string-zeros n = rw (zeros-suc (n + 1) (omega arith)) refl

read_int-zeros : (n : ℕ) → read_int (zeros (n + 1)) ≡ ok (pos 0)
unfolding read_int atoi
read_int-zeros n = rw (c_string-zeros n) refl

read_fields-zeros :
    (h : Heap)
    → read_fields h zero_fields ≡ store_payload empty_header (fresh_payload h 0) [] (pos 0)
unfolding read_fields copy_magic zero_fields
read_fields-zeros h = rw (c_string-zeros 87, read_int-zeros 31, c_string-zeros 8191) refl

deconstruct_string_empty :
    (h : Heap)
    → IsZeroed h
    → (p : Packet) × (deconstruct_string h [] ≡ ok p) × (p.header ≡ empty_header)
unfolding deconstruct_string scan_fields
deconstruct_string_empty h z =
    let (p, stores, hd_eq, _, _) =
      payload_string-store_payload empty_header (fresh_payload h 0) [] (pos 0)
        (length-fresh_payload h 0 z) tt (omega arith, λ big. absurd (omega arith)) in
    (p, ap (read_fields h) (fresh_fields-zero h z) ∙ read_fields-zeros h ∙ stores, hd_eq)

check_packet_empty : (p : Packet) → p.header ≡ empty_header → check_packet p ≡ ok none
unfolding check_packet eq_bytes
check_packet_empty p e = rw (ap (λ hd. hd.magic) e) refl

-- Over zeroed memory a recvfrom that fails or times out makes receive_packet return NULL: the
-- buffer that was never written reads as the empty string, and the packet made of it lacks the
-- magic header.
pub receive_packet-timeout : (h : Heap) → IsZeroed h → receive_packet h none ≡ ok none
unfolding receive_packet fill_buffer
receive_packet-timeout h z =
    let (p, made, hd_eq) = deconstruct_string_empty h z in
    rw (z 32 12000, c_string-zeros 11999)
      (ap (λ r. r >>= check_packet) made ∙ check_packet_empty p hd_eq)
