-- ===== src/Network/Shipments.antt =====
-- The packets of src/rdps.c and src/rdpr.c that arrive as they were sent, from what they carry.
use csc361_a.Base.{ℕ, ◌+◌, ◌≤◌, ◌≡◌, ◌≢◌, refl, ap, ◌∙◌, subst, true, arith, length}
use csc361_a.Base.Int.{ℤ, pos, ◌+ℤ◌, eqb_ℤ}
use csc361_a.Base.Text.{Bytes, Lacks}
use csc361_a.Base.Decimal.{IsInt}
use csc361_a.Packet.{Packet, PacketHdr, sep, dat, ack, is_control, magic_hdr}
use csc361_a.Packet.Create.{Carries, header_of}
use csc361_a.Packet.Receive.{is_known}
use csc361_a.Packet.RoundTrip.{IsSendable}
use csc361_a.Packet.Control.{text_with, control_header, create_packet-text}
use csc361_a.Socket.{Env}
use csc361_a.Sender.State.{sender_machine}
use csc361_a.Sender.Sendable.{IsTidy, header_of-IsHeader, Carries-IsSendable}
use csc361_a.Sender.Exchange.Answered.{Acks}
use csc361_a.Receiver.{receiver_machine}
use csc361_a.Receiver.Delivery.{Shipment, Delivers, Delivers-shipment}

-- The shipment of a packet with this header, payload length and payload string.
abbrev shipment_with : PacketHdr → ℤ → Bytes → Shipment
shipment_with hd n s = record { datagram = text_with hd n s; header = hd; size = n; text = s }

-- The text of a packet that carries these delivers it.
Delivers-Carries :
    (hd : PacketHdr) (n : ℤ) (s : Bytes) (p : Packet)
    → Carries hd n s p
    → IsSendable p s
    → hd.magic ≡ magic_hdr
    → is_known hd.type ≡ true
    → Delivers (shipment_with hd n s)
Delivers-Carries hd n s p c sendable magic_ok known =
    let delivers =
      (Delivers-shipment p s sendable (ap (λ g. g.magic) c.header_is ∙ magic_ok)
        (ap (λ g. is_known g.type) c.header_is ∙ known)).1 in
    subst (λ k. Delivers (shipment_with hd k s)) c.length_is
      (subst (λ g. Delivers (shipment_with g p.payload_length s)) c.header_is delivers)

abbrev pub control_shipment : Bytes → ℤ → ℤ → Shipment
control_shipment stray type seqno = shipment_with (control_header type seqno) (pos 0) stray

pub Delivers-control :
    (env : Env) (stray : Bytes) (type seqno : ℤ)
    → IsTidy env stray
    → type ≢ dat
    → is_control type ≡ true
    → is_known type ≡ true
    → IsInt type
    → IsInt seqno
    → IsInt (seqno +ℤ pos 1)
    → Delivers (control_shipment stray type seqno)
Delivers-control env stray type seqno t ne control known ht hs ha =
    let (p, made, c, spelled) =
      create_packet-text (env.heap 0) stray type seqno (t.zeroed 0) (t.stray_is 0) t.stray_string
        t.stray_short ne control in
    let short = t.stray_short in
    Delivers-Carries (control_header type seqno) (pos 0) stray p c
      (Carries-IsSendable (control_header type seqno) (pos 0) p stray c
        (header_of-IsHeader type seqno (seqno +ℤ pos 1) ht hs ha) (omega arith) t.stray_plain
        (omega arith) (λ h. absurd (omega arith)))
      refl known

-- The header of the only data packet of a file of `n` bytes.
abbrev pub dat_header : ℕ → PacketHdr
dat_header n = header_of dat (pos n) (pos (n + n))

abbrev pub dat_shipment : Bytes → Shipment
dat_shipment file = shipment_with (dat_header (length file)) (pos (length file)) file

pub Delivers-dat :
    (file : Bytes) (p : Packet)
    → length file ≤ 1024
    → Lacks sep file
    → Carries (dat_header (length file)) (pos (length file)) file p
    → Delivers (dat_shipment file)
unfolding eqb_ℤ
Delivers-dat file p small text c =
    Delivers-Carries (dat_header (length file)) (pos (length file)) file p c
      (Carries-IsSendable (dat_header (length file)) (pos (length file)) p file c
        (header_of-IsHeader dat (pos (length file)) (pos (length file + length file)) (omega arith)
          (omega arith) (omega arith))
        (omega arith) text small (λ h. ap pos (omega arith)))
      refl refl

pub Acks-control :
    (env : Env) (stray : Bytes) (seqno n : ℤ)
    → IsTidy env stray
    → IsInt seqno
    → IsInt (seqno +ℤ pos 1)
    → seqno ≡ n
    → Acks n (control_shipment stray ack seqno)
unfolding eqb_ℤ
Acks-control env stray seqno n t hs ha e = record {
  delivers = Delivers-control env stray ack seqno t (λ k. cc) refl refl (omega arith) hs ha;
  type_lem = refl;
  seqno_lem = e;
}
