-- ===== src/Receiver/Answers.antt =====
-- A round of src/rdpr.c that answers the datagram that has come.
use csc361_a.Base.{
  ℕ, zero, suc, ◌≡◌, refl, ap, ◌∙◌, Bool, true, false, Option, some, List, [], ◌∷◌, ◌++◌, arith,
}
use csc361_a.Base.Action.{ok, blocked}
use csc361_a.Base.Text.{Bytes}
use csc361_a.Packet.{Packet, dat, syn, fin, ack}
use csc361_a.Packet.Control.{control_text}
use csc361_a.Socket.{Env, receive, next_datagram}
use csc361_a.Receiver.{Receiver, receiver_machine, round, run}
use csc361_a.Receiver.Store.{replaced}
use csc361_a.Receiver.Reply.{
  IsBenign, clocked, after_dat, after_syn, after_fin, on_packet-dat, on_packet-syn, on_packet-fin,
}
use csc361_a.Receiver.Delivery.{Shipment, Delivers, CarriesShipment, received, receive_lem}

module _ (env : Env) (stray : Bytes) (b : IsBenign env stray) where
  -- A round that acknowledges one datagram and stores these packets.
  pub record Answers (x : Shipment) (rest : List (Option Bytes)) (ps : List Packet) (over : Bool)
      (r u : Receiver) : Type 0 where
    pub round_lem : round env r ≡ ok over u
    pub inbox_lem : u.inbox ≡ rest
    pub sent_lem : u.sent ≡ r.sent ++ control_text stray ack x.header.ackno ∷ []
    pub stored_lem : u.data_packets ≡ ps

  pub answer-syn :
      (x : Shipment) (rest : List (Option Bytes)) (r : Receiver)
      → Delivers x
      → x.header.type ≡ syn
      → r.inbox ≡ some x.datagram ∷ rest
      → (u : Receiver) × Answers x rest r.data_packets false r u
  unfolding round
  answer-syn x rest r delivers is_syn e =
      let (q, c, got) = receive_lem env stray b x rest r delivers e in
      let r1 = received env stray b rest r in
      let (text, is, answered) =
        on_packet-syn env stray b q r1 (ap (λ hd. hd.type) c.header_is ∙ is_syn) in
      (
        clocked (after_syn text r1),
        record {
          round_lem = ground (arith, got, answered);
          inbox_lem = refl;
          sent_lem =
              ap (λ t. r.sent ++ t ∷ [])
                (is ∙ ap (λ hd. control_text stray ack hd.ackno) c.header_is);
          stored_lem = refl;
        },
      )

  pub answer-dat :
      (x : Shipment) (rest : List (Option Bytes)) (r : Receiver)
      → Delivers x
      → x.header.type ≡ dat
      → r.inbox ≡ some x.datagram ∷ rest
      → r.data_packets ≡ []
      → (q : Packet) × (u : Receiver) × CarriesShipment x q × Answers x rest (q ∷ []) false r u
  unfolding round replaced
  answer-dat x rest r delivers is_dat e empty =
      let (q, c, got) = receive_lem env stray b x rest r delivers e in
      let r1 = received env stray b rest r in
      let (text, is, answered) =
        on_packet-dat env stray b q r1 (ap (λ hd. hd.type) c.header_is ∙ is_dat)
          (rw empty (omega arith)) in
      (
        q,
        clocked (after_dat q text r1),
        c,
        record {
          round_lem = ground (arith, got, answered);
          inbox_lem = refl;
          sent_lem =
              ap (λ t. r.sent ++ t ∷ [])
                (is ∙ ap (λ hd. control_text stray ack hd.ackno) c.header_is);
          stored_lem = ap (λ l. replaced q l ++ q ∷ []) empty;
        },
      )

  pub answer-fin :
      (x : Shipment) (rest : List (Option Bytes)) (r : Receiver)
      → Delivers x
      → x.header.type ≡ fin
      → r.inbox ≡ some x.datagram ∷ rest
      → (u : Receiver) × Answers x rest r.data_packets true r u
  unfolding round
  answer-fin x rest r delivers is_fin e =
      let (q, c, got) = receive_lem env stray b x rest r delivers e in
      let r1 = received env stray b rest r in
      let (text, is, answered) =
        on_packet-fin env stray b q r1 (ap (λ hd. hd.type) c.header_is ∙ is_fin) in
      (
        after_fin text r1,
        record {
          round_lem = ground (arith, got, answered);
          inbox_lem = refl;
          sent_lem =
              ap (λ t. r.sent ++ t ∷ [])
                (is ∙ ap (λ hd. control_text stray ack hd.ackno) c.header_is);
          stored_lem = refl;
        },
      )

  pub run-pass :
      {x : Shipment} {rest : List (Option Bytes)} {ps : List Packet} (fuel : ℕ) (r u : Receiver)
      → Answers x rest ps false r u
      → run env (suc fuel) r ≡ run env fuel u
  unfolding run
  run-pass fuel r u a = ground (arith, a.round_lem)

  pub run-over :
      {x : Shipment} {rest : List (Option Bytes)} {ps : List Packet} (fuel : ℕ) (r u : Receiver)
      → Answers x rest ps true r u
      → run env (suc fuel) r ≡ ok tt u
  unfolding run
  run-over fuel r u a = ground (arith, a.round_lem)

  pub run-waits : (fuel : ℕ) (r : Receiver) → r.inbox ≡ [] → run env fuel r ≡ blocked r
  unfolding run round receive next_datagram
  run-waits zero r e = refl
  run-waits (suc fuel) r e = ground (arith, e)
