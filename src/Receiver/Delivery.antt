-- ===== src/Receiver/Delivery.antt =====
-- A whole transfer as src/rdpr.c sees it: data packets, then a FIN packet, then the file.
use csc361_a.Base.{
  ℕ, suc, ◌+◌, ◌-◌, ◌≤◌, ◌<◌, ◌≡◌, ◌≢◌, refl, sym, ap, ◌∙◌, Bool, true, false, Option, none, some,
  All, lt→ltb, List, [], ◌∷◌, ◌++◌, arith, Result, length, length-append, append_assoc, append-nil,
  map,
}
use csc361_a.Base
use csc361_a.Base.Action.{ok}
use csc361_a.Base.Int.{ℤ, pos, ◌+ℤ◌}
use csc361_a.Base.Text.{Bytes}
use csc361_a.Packet.Control.{control_text}
use csc361_a.Packet.{
  ack, magic_hdr, sep, header_text, construct_string, Packet, PacketHdr, Heap, dat, fin,
  max_packets,
}
use csc361_a.Packet.Parse.{receive_packet}
use csc361_a.Base.Decimal.{itoa, IsInt}
use csc361_a.Packet.RoundTrip.{IsSendable, construct_string-text}
use csc361_a.Packet.Receive.{is_known, receive_packet-construct_string}
use csc361_a.Packet.Scan.{IsZeroed}
use csc361_a.Packet.Create.{Carries}
use csc361_a.Socket.{Env, receive}
use csc361_a.Receiver.{
  Receiver, receiver_machine, round, run, receiver_main, payload_arrays, write_file,
}
use csc361_a.Receiver.Store.{replaced, replaced-IsNew, length-replaced, IsNew}
use csc361_a.Receiver.Reply.{IsBenign, after_fin, clocked, after_dat, on_packet-dat, on_packet-fin}

-- A datagram with the packet that it is the text of: its header, payload length and payload string.
pub record Shipment : Type 0 where
  pub datagram : Bytes
  pub header : PacketHdr
  pub size : ℤ
  pub text : Bytes

abbrev pub CarriesShipment : Shipment → Packet → Type 0
CarriesShipment x q = Carries x.header x.size x.text q

-- Over zeroed memory receive_packet makes that packet of it.
abbrev pub Delivers : Shipment → Type 0
Delivers x =
    (h : Heap)
    → IsZeroed h
    → (q : Packet) × (receive_packet h (some x.datagram) ≡ Base.ok (some q)) × CarriesShipment x q

-- The shipment of a packet's text.
abbrev pub shipment : Packet → Bytes → Shipment
shipment p s = record {
  datagram = header_text p.header (s ++ sep ∷ (itoa p.payload_length ++ sep ∷ []));
  header = p.header;
  size = p.payload_length;
  text = s;
}

-- What the sender writes for a sendable packet with the magic header and a known type delivers it.
pub Delivers-shipment :
    (p : Packet) (s : Bytes)
    → IsSendable p s
    → p.magic ≡ magic_hdr
    → is_known p.type ≡ true
    → (construct_string p ≡ Base.ok (shipment p s).datagram) × Delivers (shipment p s)
Delivers-shipment p s sendable magic_ok known =
    let spelled = construct_string-text p s sendable.payload_is in
    (
      spelled,
      λ h z.
          let (text, q, made, got, hd_eq, n_eq, string_eq) =
            receive_packet-construct_string h p s z sendable magic_ok known in
          (
            q,
            ap (λ t. receive_packet h (some t)) (Base.ok_inj (sym spelled ∙ made)) ∙ got,
            record { header_is = hd_eq; length_is = n_eq; payload_is = string_eq },
          ),
    )

abbrev pub AllDeliver : List Shipment → Type 0
AllDeliver [] = Unit
AllDeliver (x ∷ xs) = Delivers x × (x.header.type ≡ dat) × AllDeliver xs

abbrev pub AllCarry : List Shipment → List Packet → Type 0
AllCarry [] [] = Unit
AllCarry (x ∷ xs) (q ∷ qs) = CarriesShipment x q × AllCarry xs qs
AllCarry _ _ = ⊥

abbrev pub datagrams : List Shipment → List (Option Bytes) → List (Option Bytes)
datagrams [] rest = rest
datagrams (x ∷ xs) rest = some x.datagram ∷ datagrams xs rest

-- The ACK for a packet with this header.
abbrev pub ack_text : Bytes → Shipment → Bytes
ack_text stray x = control_text stray ack x.header.ackno

abbrev pub acks : Bytes → List Shipment → List Bytes
acks stray = map (ack_text stray)

-- The list after these packets were received, in this order.
unfoldable pub storing : List Packet → List Packet → List Packet
storing stored [] = stored
storing stored (q ∷ qs) = storing (replaced q stored ++ q ∷ []) qs

module _ (env : Env) (stray : Bytes) (b : IsBenign env stray) where
  abbrev pub received : List (Option Bytes) → Receiver → Receiver
  received rest r =
      let w = r.machine in record r { machine = record w { heaps = w.heaps + 1; inbox = rest } }

  pub receive_lem :
      (x : Shipment) (rest : List (Option Bytes)) (r : Receiver)
      → Delivers x
      → r.inbox ≡ some x.datagram ∷ rest
      → (q : Packet) × CarriesShipment x q × (receive env r ≡ ok (some q) (received rest r))
  unfolding receive
  receive_lem x rest r delivers e =
      let (q, got, c) = delivers (env.heap r.heaps) (b.zeroed r.heaps) in
      (q, c, ground (arith, got))

  -- The state after the loop.
  record Ends (xs : List Shipment) (y : Shipment) (r r' : Receiver) (qs : List Packet)
      : Type 0 where
    carried : AllCarry xs qs
    stored : r'.data_packets ≡ storing r.data_packets qs
    acknowledged : r'.sent ≡ r.sent ++ (acks stray xs ++ ack_text stray y ∷ [])

  pub ack_is :
      (x : Shipment) {hd : PacketHdr}
      → hd ≡ x.header
      → control_text stray ack hd.ackno ≡ ack_text stray x
  ack_is x e = ap (λ hd. control_text stray ack hd.ackno) e

  run-datagrams :
      (xs : List Shipment) (y : Shipment) (rest : List (Option Bytes)) (r : Receiver)
      → AllDeliver xs
      → Delivers y
      → y.header.type ≡ fin
      → r.inbox ≡ datagrams xs (some y.datagram ∷ rest)
      → length r.data_packets + length xs ≤ max_packets
      → (r' : Receiver) × (qs : List Packet) × (run env (suc (length xs)) r ≡ ok tt r')
        × Ends xs y r r' qs
  unfolding run round storing
  run-datagrams [] y rest r _ dy is_fin e room =
      let (q, c, got) = receive_lem y rest r dy e in
      let (text, is, ended) =
        on_packet-fin env stray b q (received rest r) (ap (λ hd. hd.type) c.header_is ∙ is_fin) in
      (
        after_fin text (received rest r),
        [],
        ground (arith, got, ended),
        record {
          carried = tt;
          stored = refl;
          acknowledged = ap (λ t. r.sent ++ t ∷ []) (is ∙ ack_is y c.header_is);
        },
      )
  run-datagrams (x ∷ xs) y rest r (dx, is_dat, dxs) dy is_fin e room =
      let (q, c, got) = receive_lem x (datagrams xs (some y.datagram ∷ rest)) r dx e in
      let r1 : Receiver = received (datagrams xs (some y.datagram ∷ rest)) r in
      let (text, is, stored) =
        on_packet-dat env stray b q r1 (ap (λ hd. hd.type) c.header_is ∙ is_dat) (omega arith) in
      let r2 : Receiver = clocked (after_dat q text r1) in
      let grown : length (replaced q r.data_packets ++ q ∷ []) ≡ length r.data_packets + 1 = omega (
        arith,
        length-append (replaced q r.data_packets) (q ∷ []),
        length-replaced q r.data_packets,
      ) in
      let (r', qs, ran, ends) = run-datagrams xs y rest r2 dxs dy is_fin refl (omega arith) in
      (
        r',
        q ∷ qs,
        ground (arith, got, stored, ran),
        record {
          carried = (c, ends.carried);
          stored = ends.stored;
          acknowledged =
              ends.acknowledged
              ∙ append_assoc r.sent (text ∷ []) (acks stray xs ++ ack_text stray y ∷ [])
              ∙ ap (λ t. r.sent ++ (t ∷ acks stray xs ++ ack_text stray y ∷ []))
                  (is ∙ ack_is x c.header_is);
        },
      )

length-storing : (stored qs : List Packet) → length (storing stored qs) ≡ length stored + length qs
unfolding storing
length-storing stored [] = omega arith
length-storing stored (q ∷ qs) = omega (
  arith,
  length-storing (replaced q stored ++ q ∷ []) qs,
  length-append (replaced q stored) (q ∷ []),
  length-replaced q stored,
)

length-AllCarry : (xs : List Shipment) (qs : List Packet) → AllCarry xs qs → length qs ≡ length xs
length-AllCarry [] [] c = refl
length-AllCarry [] (q ∷ qs) c = absurd c
length-AllCarry (x ∷ xs) [] c = absurd c
length-AllCarry (x ∷ xs) (q ∷ qs) (_, c) = ap suc (length-AllCarry xs qs c)

pub finish :
    (env : Env) (fuel : ℕ) (r r' : Receiver)
    → length r'.data_packets < max_packets
    → run env fuel r ≡ ok tt r'
    → receiver_main env fuel false r ≡ ok (payload_arrays r'.data_packets) r'
unfolding receiver_main write_file
finish env fuel r r' room ran =
    ground (arith, ran, lt→ltb (length r'.data_packets) max_packets room)

-- The numbers of the ACK for a packet with this header are ints.
abbrev pub HasAck : PacketHdr → Type 0
HasAck hd = IsInt hd.ackno × IsInt (hd.ackno +ℤ pos 1)

-- How a transfer of data packets and a FIN packet ends, where no call fails.
abbrev pub Written : Env → Bytes → List Shipment → Shipment → Receiver → Type 0
Written env stray xs y r =
    (r' : Receiver) × (qs : List Packet) × AllCarry xs qs
    × (receiver_main env (length xs + 1) false r ≡ ok (payload_arrays (storing [] qs)) r')
    × (length (storing [] qs) ≡ length xs)
    × (r'.sent ≡ r.sent ++ (acks stray xs ++ ack_text stray y ∷ []))

pub receiver_main-Written :
    (env : Env) (stray : Bytes) (xs : List Shipment) (y : Shipment) (r : Receiver)
    → IsBenign env stray
    → AllDeliver xs
    → Delivers y
    → y.header.type ≡ fin
    → r.inbox ≡ datagrams xs (some y.datagram ∷ [])
    → r.data_packets ≡ []
    → length xs < max_packets
    → Written env stray xs y r
unfolding receiver_main
receiver_main-Written env stray xs y r b dxs dy is_fin e empty room =
    let (r', qs, ran, ends) =
      run-datagrams env stray b xs y [] r dxs dy is_fin e (rw empty (omega arith)) in
    let stored : r'.data_packets ≡ storing [] qs = ends.stored ∙ ap (λ l. storing l qs) empty in
    let fuel : length xs + 1 ≡ suc (length xs) = omega arith in
    let count : length (storing [] qs) ≡ length xs =
      omega (arith, length-storing [] qs, length-AllCarry xs qs ends.carried) in
    (
      r',
      qs,
      ends.carried,
      rw fuel (
          finish env (suc (length xs)) r r' (rw (stored, count) room) ran
          ∙ ap (λ l. ok (payload_arrays l) r') stored),
      count,
      ends.acknowledged,
    )

-- A transfer of fewer data packets than the array has entries, of whatever sequence numbers, and a
-- FIN packet, where the numbers of all ACKs are ints, in an environment in which no call fails: the
-- program writes the payload arrays of the packets that it has stored, one packet for each
-- datagram, and what it has sent since are the texts of the ACKs for the datagrams, in their order,
-- and for the FIN.
pub receiver_main_lem :
    (env : Env) (stray : Bytes) (xs : List Shipment) (y : Shipment) (r : Receiver)
    → IsBenign env stray
    → AllDeliver xs
    → All (λ x. HasAck x.header) xs
    → Delivers y
    → y.header.type ≡ fin
    → HasAck y.header
    → r.inbox ≡ datagrams xs (some y.datagram ∷ [])
    → r.data_packets ≡ []
    → length xs < max_packets
    → (r' : Receiver) × (qs : List Packet) × AllCarry xs qs
      × (receiver_main env (length xs + 1) false r ≡ ok (payload_arrays (storing [] qs)) r')
      × (length (storing [] qs) ≡ length xs)
      × (r'.sent ≡ r.sent ++ (acks stray xs ++ ack_text stray y ∷ []))
receiver_main_lem env stray xs y r b dxs _ dy is_fin _ e empty room =
    receiver_main-Written env stray xs y r b dxs dy is_fin e empty room

-- With sequence numbers that all differ, nothing is overwritten: the file is the payload arrays in
-- the order of arrival.
abbrev pub AllNew : List Packet → List Packet → Type 0
AllNew stored [] = Unit
AllNew stored (q ∷ qs) = IsNew q stored × AllNew (stored ++ q ∷ []) qs

pub storing-AllNew : (stored qs : List Packet) → AllNew stored qs → storing stored qs ≡ stored ++ qs
unfolding storing
storing-AllNew stored [] h = sym (append-nil stored)
storing-AllNew stored (q ∷ qs) (new, news) =
    rw (replaced-IsNew q stored new)
      (storing-AllNew (stored ++ q ∷ []) qs news ∙ append_assoc stored (q ∷ []) qs)
