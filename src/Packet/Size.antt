-- ===== src/Packet/Size.antt =====
-- How long the texts of packets are, against the buffers of src/packet.c.
use csc361_a.Base.{◌+◌, ◌≤◌, ◌≡◌, [], ◌∷◌, ◌++◌, arith, length, length-append, ok}
use csc361_a.Base.Text.{Bytes}
use csc361_a.Base.Decimal.{itoa, length-itoa}
use csc361_a.Packet.{Packet, PacketHdr, sep, packet_size, header_text, construct_string}
use csc361_a.Packet.Fields.{IsHeader}
use csc361_a.Packet.RoundTrip.{IsSendable, construct_string-text}

length_field : (s rest : Bytes) → length (s ++ sep ∷ rest) ≡ length s + length rest + 1
length_field s rest = omega (arith, length-append s (sep ∷ rest))

length-header_text :
    (hd : PacketHdr) (rest : Bytes) → IsHeader hd → length (header_text hd rest) ≤ 136 + length rest
length-header_text hd rest ok_hd =
    let f5 = itoa hd.winsize ++ sep ∷ rest in
    let f4 = itoa hd.ackno ++ sep ∷ f5 in
    let f3 = itoa hd.seqno ++ sep ∷ f4 in
    let f2 = itoa hd.type ++ sep ∷ f3 in
    omega (
      arith,
      ok_hd.magic_short,
      length_field hd.magic f2,
      length_field (itoa hd.type) f3,
      length_field (itoa hd.seqno) f4,
      length_field (itoa hd.ackno) f5,
      length_field (itoa hd.winsize) rest,
      length-itoa hd.type ok_hd.type_int,
      length-itoa hd.seqno ok_hd.seqno_int,
      length-itoa hd.ackno ok_hd.ackno_int,
      length-itoa hd.winsize ok_hd.winsize_int,
    )

-- The text of a sendable packet fits the PACKET_SIZE bytes that recvfrom takes.
pub length-construct_string :
    (p : Packet) (s : Bytes)
    → IsSendable p s
    → (text : Bytes) × (construct_string p ≡ ok text) × (length text ≤ packet_size)
length-construct_string p s sendable =
    let rest = itoa p.payload_length ++ sep ∷ [] in
    (
      header_text p.header (s ++ sep ∷ rest),
      construct_string-text p s sendable.payload_is,
      omega (
        arith,
        length-header_text p.header (s ++ sep ∷ rest) sendable.header_ok,
        sendable.payload_fits,
        length_field s rest,
        length_field (itoa p.payload_length) [],
        length-itoa p.payload_length sendable.length_int,
      ),
    )
