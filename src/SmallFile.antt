-- ===== src/SmallFile.antt =====
-- packetize of src/rdps.c and the loop of src/rdpr.c together, for a file that fits one packet.
use csc361_a.Base.{
  ℕ, ◌+◌, ◌≤◌, ◌≡◌, refl, sym, ap, ◌∙◌, subst, false, some, Option, List, [], ◌∷◌, arith, length,
}
use csc361_a.Base
use csc361_a.Base.Action.{ok}
use csc361_a.Base.Int.{pos, eqb_ℤ}
use csc361_a.Base.Text.{Bytes, Lacks}
use csc361_a.Packet.{Packet, Heap, sep, dat, fin, construct_string, payload_string}
use csc361_a.Packet.Scan.{IsZeroed}
use csc361_a.Packet.Create.{header_of}
use csc361_a.Packet.Receive.{is_known}
use csc361_a.Socket.{Env}
use csc361_a.Socket.Turn.{with_inbox}
use csc361_a.Sender.Packetize.{packetize, num_packets}
use csc361_a.Sender.Numbers.{packetize_one}
use csc361_a.Sender.Sendable.{header_of-IsHeader, Carries-IsSendable}
use csc361_a.Receiver.{Receiver, receiver_machine, receiver_main, payload_arrays}
use csc361_a.Receiver.Store.{replaced}
use csc361_a.Receiver.Reply.{IsBenign}
use csc361_a.Receiver.Delivery.{
  Shipment, shipment, Delivers, Delivers-shipment, AllCarry, CarriesShipment, storing,
  receiver_main-Written,
}

only :
    (x : Shipment) (qs : List Packet)
    → AllCarry (x ∷ []) qs
    → (q : Packet) × (storing [] qs ≡ q ∷ []) × CarriesShipment x q
unfolding storing replaced
only x [] c = absurd c
only x (q ∷ []) (c, _) = (q, refl, c)
only x (q ∷ q' ∷ qs) (_, c) = absurd c

-- A file of 1 to 1024 bytes without NUL and semicolon: over zeroed memory packetize makes one
-- packet of it, and a receiver that has stored nothing, and to which the text of that packet and
-- then a FIN arrive in an environment in which no call fails, writes the payload array of one
-- packet, whose payload string is the file.
pub packetize-receiver_main :
    (env : Env) (stray : Bytes) (heaps : ℕ → Heap) (file : Bytes) (y : Shipment) (r : Receiver)
    → IsBenign env stray
    → ((k : ℕ) → IsZeroed (heaps k))
    → 1 ≤ length file
    → length file ≤ 1024
    → Lacks 0 file
    → Lacks sep file
    → Delivers y
    → y.header.type ≡ fin
    → r.data_packets ≡ []
    → (p : Packet) × (q : Packet) × (text : Bytes) × (r' : Receiver) × (packetize heaps
          (num_packets (length file) 1024 + 1)
          1024
          file
        ≡ Base.ok (p ∷ []))
      × (construct_string p ≡ Base.ok text)
      × (receiver_main env 2 false (with_inbox (some text ∷ some y.datagram ∷ []) r)
          ≡ ok (payload_arrays (q ∷ [])) r')
      × (payload_string q ≡ Base.ok file)
      × (q.payload_length ≡ pos (length file))
unfolding eqb_ℤ
packetize-receiver_main env stray heaps file y r b z h small clean text dy is_fin empty =
    let (p, made, c) = packetize_one heaps file z h small clean in
    let (spelled, delivers) =
      Delivers-shipment p file
        (Carries-IsSendable (header_of dat (pos (length file)) (pos (length file + length file)))
          (pos (length file)) p file c
          (header_of-IsHeader dat (pos (length file)) (pos (length file + length file))
            (omega arith) (omega arith) (omega arith))
          (omega arith) text small (λ h. ap pos (omega arith)))
        (ap (λ hd. hd.magic) c.header_is) (ap (λ hd. is_known hd.type) c.header_is) in
    let x = shipment p file in
    let (r', qs, carried, ran, _, _) =
      receiver_main-Written env stray (x ∷ []) y
        (with_inbox (some x.datagram ∷ some y.datagram ∷ []) r) b
        (delivers, ap (λ hd. hd.type) c.header_is, tt) dy is_fin refl empty (omega arith) in
    let (q, one, carries) = only x qs carried in
    (
      p,
      q,
      x.datagram,
      r',
      made,
      spelled,
      ran ∙ ap (λ l. ok (payload_arrays l) r') one,
      carries.payload_is,
      carries.length_is ∙ c.length_is,
    )
