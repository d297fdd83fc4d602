-- ===== src/Packet/Control.antt =====
-- The texts of the packets that create_packet of src/packet.c makes without data.
use csc361_a.Base.{◌<◌, ◌≡◌, ◌≢◌, ap, ◌∙◌, true, some, [], ◌∷◌, ◌++◌, length, ok, inl, inr}
use csc361_a.Base.Int.{ℤ, pos, ◌+ℤ◌}
use csc361_a.Base.Text.{Bytes, Lacks}
use csc361_a.Base.Decimal.{itoa}
use csc361_a.Packet.{
  Packet, PacketHdr, Heap, sep, dat, is_control, header_text, create_packet, construct_string,
}
use csc361_a.Packet.Scan.{IsZeroed}
use csc361_a.Packet.Create.{Carries, header_of, create_control-cases}
use csc361_a.Packet.RoundTrip.{construct_string-text}

-- The text of a packet with this header, payload length and payload string.
abbrev pub text_with : PacketHdr → ℤ → Bytes → Bytes
text_with hd n s = header_text hd (s ++ sep ∷ (itoa n ++ sep ∷ []))

pub Carries-text :
    (hd : PacketHdr) (n : ℤ) (s : Bytes) (p : Packet)
    → Carries hd n s p
    → construct_string p ≡ ok (text_with hd n s)
Carries-text hd n s p c =
    construct_string-text p s c.payload_is
    ∙ ap (λ g. ok (text_with g p.payload_length s)) c.header_is
    ∙ ap (λ k. ok (text_with hd k s)) c.length_is

abbrev pub control_header : ℤ → ℤ → PacketHdr
control_header type seqno = header_of type seqno (seqno +ℤ pos 1)

-- The packet's payload is the string at the unset pointer.
abbrev pub control_text : Bytes → ℤ → ℤ → Bytes
control_text stray type seqno = text_with (control_header type seqno) (pos 0) stray

pub create_packet-text :
    (h : Heap) (stray : Bytes) (type seqno : ℤ)
    → IsZeroed h
    → h.stray ≡ some stray
    → Lacks 0 stray
    → length stray < 1024
    → type ≢ dat
    → is_control type ≡ true
    → (p : Packet) × (create_packet h [] 0 type seqno ≡ ok p)
      × Carries (control_header type seqno) (pos 0) stray p
      × (construct_string p ≡ ok (control_text stray type seqno))
create_packet-text h stray type seqno z is zs short ne known =
    elim (create_control-cases h [] stray 0 type seqno z is zs short ne) [
      | inl (_, p, made, c) ↦
          (p, made, c, Carries-text (control_header type seqno) (pos 0) stray p c)
      | inr (unknown, _) ↦ absurd (cc)
    ]
