-- ===== src/Receiver/Finishing.antt =====
-- The loop of src/rdpr.c on timeouts, DAT and SYN packets, and then a FIN packet.
use csc361_a.Base.{
  suc, ◌+◌, ◌≤◌, ◌<◌, ◌≡◌, refl, ap, ◌∙◌, false, ◌⊎◌, inl, inr, Option, none, some, List, [], ◌∷◌,
  ◌++◌, sym, append-nil, append_assoc, arith, length, length-append,
}
use csc361_a.Base.Action.{ok}
use csc361_a.Base.Text.{Bytes}
use csc361_a.Packet.{dat, syn, fin, max_packets}
use csc361_a.Packet.Timeout.{receive_packet-timeout}
use csc361_a.Socket.{Env, receive}
use csc361_a.Receiver.{Receiver, receiver_machine, round, run, receiver_main, payload_arrays}
use csc361_a.Receiver.Store.{replaced, length-replaced}
use csc361_a.Receiver.Reply.{
  IsBenign, clocked, after_dat, after_syn, after_fin, on_packet-dat, on_packet-syn, on_packet-fin,
}
use csc361_a.Receiver.Delivery.{
  Shipment, Delivers, received, receive_lem, finish, ack_text, ack_is, HasAck,
}

-- What recvfrom gives before the FIN.
pub data Arrival : Type 0 where
  late : Arrival
  arrives : Shipment → Arrival

abbrev pub datagram_of : Arrival → Option Bytes
datagram_of late = none
datagram_of (arrives x) = some x.datagram

abbrev pub before : List Arrival → List (Option Bytes) → List (Option Bytes)
before [] rest = rest
before (a ∷ ds) rest = datagram_of a ∷ before ds rest

-- A timeout, or a datagram that delivers a DAT or a SYN packet.
abbrev pub IsExpected : Arrival → Type 0
IsExpected late = Unit
IsExpected (arrives x) = Delivers x × ((x.header.type ≡ dat) ⊎ (x.header.type ≡ syn))

abbrev pub AllExpected : List Arrival → Type 0
AllExpected [] = Unit
AllExpected (a ∷ ds) = IsExpected a × AllExpected ds

-- The numbers of the ACKs for the datagrams among them are ints.
abbrev pub HaveAcks : List Arrival → Type 0
HaveAcks [] = Unit
HaveAcks (late ∷ ds) = HaveAcks ds
HaveAcks (arrives x ∷ ds) = HasAck x.header × HaveAcks ds

-- The texts of the ACKs for the datagrams among them.
abbrev pub acks_for : Bytes → List Arrival → List Bytes
acks_for stray [] = []
acks_for stray (late ∷ ds) = acks_for stray ds
acks_for stray (arrives x ∷ ds) = ack_text stray x ∷ acks_for stray ds

acks_for-cons :
    (stray : Bytes) (a : Arrival) (ds : List Arrival)
    → acks_for stray (a ∷ ds) ≡ acks_for stray (a ∷ []) ++ acks_for stray ds
acks_for-cons stray late ds = refl
acks_for-cons stray (arrives x) ds = refl

module _ (env : Env) (stray : Bytes) (b : IsBenign env stray) where
  -- A round that does not end the loop.
  record Passes (a : Arrival) (rest : List (Option Bytes)) (r u : Receiver) : Type 0 where
    passed : round env r ≡ ok false u
    inbox_lem : u.inbox ≡ rest
    stored_le : length u.data_packets ≤ length r.data_packets + 1
    acks_lem : u.sent ≡ r.sent ++ acks_for stray (a ∷ [])

  receive-late :
      (rest : List (Option Bytes)) (r : Receiver)
      → r.inbox ≡ none ∷ rest
      → receive env r ≡ ok none (received env stray b rest r)
  unfolding receive
  receive-late rest r e =
      ground (arith, receive_packet-timeout (env.heap r.heaps) (b.zeroed r.heaps))

  round-Passes :
      (a : Arrival) (rest : List (Option Bytes)) (r : Receiver)
      → IsExpected a
      → r.inbox ≡ datagram_of a ∷ rest
      → length r.data_packets < max_packets
      → (u : Receiver) × Passes a rest r u
  unfolding round
  round-Passes late rest r x e room = (
    received env stray b rest r,
    record {
      passed = ground (arith, receive-late rest r e);
      inbox_lem = refl;
      stored_le = omega arith;
      acks_lem = sym (append-nil r.sent);
    },
  )
  round-Passes (arrives x) rest r (delivers, inl is_dat) e room =
      let (q, c, got) = receive_lem env stray b x rest r delivers e in
      let r1 = received env stray b rest r in
      let (text, is, stored) =
        on_packet-dat env stray b q r1 (ap (λ hd. hd.type) c.header_is ∙ is_dat) room in
      (
        clocked (after_dat q text r1),
        record {
          passed = ground (arith, got, stored);
          inbox_lem = refl;
          stored_le = omega (
            arith,
            length-append (replaced q r.data_packets) (q ∷ []),
            length-replaced q r.data_packets,
          );
          acks_lem = ap (λ t. r.sent ++ t ∷ []) (is ∙ ack_is env stray b x c.header_is);
        },
      )
  round-Passes (arrives x) rest r (delivers, inr is_syn) e room =
      let (q, c, got) = receive_lem env stray b x rest r delivers e in
      let r1 = received env stray b rest r in
      let (text, is, answered) =
        on_packet-syn env stray b q r1 (ap (λ hd. hd.type) c.header_is ∙ is_syn) in
      (
        clocked (after_syn text r1),
        record {
          passed = ground (arith, got, answered);
          inbox_lem = refl;
          stored_le = omega arith;
          acks_lem = ap (λ t. r.sent ++ t ∷ []) (is ∙ ack_is env stray b x c.header_is);
        },
      )

  run-Finishes :
      (ds : List Arrival) (y : Shipment) (rest : List (Option Bytes)) (r : Receiver)
      → AllExpected ds
      → Delivers y
      → y.header.type ≡ fin
      → r.inbox ≡ before ds (some y.datagram ∷ rest)
      → length r.data_packets + length ds ≤ max_packets
      → (u : Receiver) × (run env (suc (length ds)) r ≡ ok tt u)
        × (u.inbox ≡ rest)
        × (length u.data_packets ≤ length r.data_packets + length ds)
        × (u.sent ≡ r.sent ++ (acks_for stray ds ++ ack_text stray y ∷ []))
  unfolding run round
  run-Finishes [] y rest r _ dy is_fin e room =
      let (q, c, got) = receive_lem env stray b y rest r dy e in
      let (text, is, ended) =
        on_packet-fin env stray b q (received env stray b rest r)
          (ap (λ hd. hd.type) c.header_is ∙ is_fin) in
      (
        after_fin text (received env stray b rest r),
        ground (arith, got, ended),
        refl,
        omega arith,
        ap (λ t. r.sent ++ t ∷ []) (is ∙ ack_is env stray b y c.header_is),
      )
  run-Finishes (a ∷ ds) y rest r (h, hs) dy is_fin e room =
      let (t, p) = round-Passes a (before ds (some y.datagram ∷ rest)) r h e (omega arith) in
      let fewer = p.stored_le in
      let (u, ran, left, count, acks) =
        run-Finishes ds y rest t hs dy is_fin p.inbox_lem (omega arith) in
      let last = ack_text stray y ∷ [] in
      (
        u,
        ground (arith, p.passed, ran),
        left,
        omega arith,
        acks
            ∙ ap (λ l. l ++ (acks_for stray ds ++ last)) p.acks_lem
            ∙ append_assoc r.sent (acks_for stray (a ∷ [])) (acks_for stray ds ++ last)
            ∙ ap (λ l. r.sent ++ l)
                (sym (append_assoc (acks_for stray (a ∷ [])) (acks_for stray ds) last)
                  ∙ ap (λ l. l ++ last) (sym (acks_for-cons stray a ds))),
      )

-- In an environment in which no call fails, with timeouts and datagrams of DAT and SYN packets in
-- any order and then a FIN packet, where the numbers of all ACKs are ints, and with room in the
-- array for one packet more than these could add, the receiver comes to the end of its loop and
-- writes its file, and what it has sent since are the texts of the ACKs for the datagrams up to the
-- FIN, one for each, in their order.
pub receiver_main-Finishes :
    (env : Env) (stray : Bytes) (ds : List Arrival) (y : Shipment) (rest : List (Option Bytes))
    (r : Receiver)
    → IsBenign env stray
    → AllExpected ds
    → HaveAcks ds
    → Delivers y
    → y.header.type ≡ fin
    → HasAck y.header
    → r.inbox ≡ before ds (some y.datagram ∷ rest)
    → length r.data_packets + length ds < max_packets
    → (u : Receiver) × (receiver_main env (suc (length ds)) false r
        ≡ ok (payload_arrays u.data_packets) u)
      × (u.inbox ≡ rest)
      × (u.sent ≡ r.sent ++ (acks_for stray ds ++ ack_text stray y ∷ []))
receiver_main-Finishes env stray ds y rest r b all _ dy is_fin _ e room =
    let (u, ran, left, count, sent) =
      run-Finishes env stray b ds y rest r all dy is_fin e (omega arith) in
    (u, finish env (suc (length ds)) r u (omega arith) ran, left, sent)
