-- ===== src/Receiver/Exchange.antt =====
-- The program of src/rdpr.c with one data packet, as its sender sees it: what it sends for the SYN,
-- for the data packet and for the FIN.
use csc361_a.Base.{ℕ, suc, ◌≡◌, refl, ap, ◌∙◌, false, Option, some, List, [], ◌∷◌, ◌++◌, arith}
use csc361_a.Base.Action.{ok, blocked}
use csc361_a.Base.Text.{Bytes}
use csc361_a.Packet.{Packet, dat, syn, fin}
use csc361_a.Socket.{Env}
use csc361_a.Socket.Turn.{with_inbox, WaitsWith, ReturnsWith}
use csc361_a.Receiver.{Receiver, receiver_machine, run, receiver_main, payload_arrays}
use csc361_a.Receiver.Reply.{IsBenign}
use csc361_a.Receiver.Delivery.{Shipment, Delivers, CarriesShipment, ack_text, finish}
use csc361_a.Receiver.Answers.{answer-syn, answer-dat, answer-fin, run-pass, run-over, run-waits}

main-waits :
    (env : Env) (fuel : ℕ) (r u : Receiver)
    → run env fuel r ≡ blocked u
    → receiver_main env fuel false r ≡ blocked u
unfolding receiver_main
main-waits env fuel r u ran = ground (arith, ran)

-- The receiver after the rounds that `more` counts, which go on.
record Goes (env : Env) (more : ℕ → ℕ) (rest : List (Option Bytes)) (sent : List Bytes)
    (ps : List Packet) (r u : Receiver) : Type 0 where
  run_lem : (fuel : ℕ) → run env (more fuel) r ≡ run env fuel u
  inbox_lem : u.inbox ≡ rest
  sent_lem : u.sent ≡ sent
  stored_lem : u.data_packets ≡ ps

module _ (env : Env) (stray : Bytes) (b : IsBenign env stray) (r : Receiver)
    (none_sent : r.sent ≡ []) (empty : r.data_packets ≡ []) (x : Shipment) (dx : Delivers x)
    (is_syn : x.header.type ≡ syn) where
  had_syn :
      (rest : List (Option Bytes))
      → (u : Receiver) × Goes env suc rest
          (ack_text stray x ∷ [])
          []
          (with_inbox (some x.datagram ∷ rest) r)
          u
  had_syn rest =
      let start : Receiver = with_inbox (some x.datagram ∷ rest) r in
      let (u, a) = answer-syn env stray b x rest start dx is_syn refl in
      (
        u,
        record {
          run_lem = λ fuel. run-pass env stray b fuel start u a;
          inbox_lem = a.inbox_lem;
          sent_lem = a.sent_lem ∙ ap (λ l. l ++ ack_text stray x ∷ []) none_sent;
          stored_lem = a.stored_lem ∙ empty;
        },
      )

  had_dat :
      (y : Shipment)
      → Delivers y
      → y.header.type ≡ dat
      → (rest : List (Option Bytes))
      → (q : Packet) × (u : Receiver) × CarriesShipment y q
        × Goes env
            (λ n. suc (suc n))
            rest
            (ack_text stray x ∷ ack_text stray y ∷ [])
            (q ∷ [])
            (with_inbox (some x.datagram ∷ some y.datagram ∷ rest) r)
            u
  had_dat y dy is_dat rest =
      let (u, g) = had_syn (some y.datagram ∷ rest) in
      let (q, v, c, a) = answer-dat env stray b y rest u dy is_dat g.inbox_lem g.stored_lem in
      (
        q,
        v,
        c,
        record {
          run_lem = λ fuel. g.run_lem (suc fuel) ∙ run-pass env stray b fuel u v a;
          inbox_lem = a.inbox_lem;
          sent_lem = a.sent_lem ∙ ap (λ l. l ++ ack_text stray y ∷ []) g.sent_lem;
          stored_lem = a.stored_lem;
        },
      )

-- In an environment in which no call fails, a receiver that has stored and sent nothing: it
-- acknowledges the SYN and waits, acknowledges the data packet and waits, and acknowledges the FIN
-- and writes the data packet's payload array to the file. Each ACK is sent once.
pub receiver_main-exchange :
    (env : Env) (stray : Bytes) (fuel : ℕ) (r : Receiver) (x y z : Shipment)
    → IsBenign env stray
    → r.data_packets ≡ []
    → r.sent ≡ []
    → Delivers x
    → x.header.type ≡ syn
    → Delivers y
    → y.header.type ≡ dat
    → Delivers z
    → z.header.type ≡ fin
    → WaitsWith
        (ack_text stray x ∷ [])
        (receiver_main env (suc fuel) false (with_inbox (some x.datagram ∷ []) r))
      × WaitsWith (ack_text stray x ∷ ack_text stray y ∷ []) (
          receiver_main env
            (suc (suc fuel))
            false
            (with_inbox (some x.datagram ∷ some y.datagram ∷ []) r))
      × (q : Packet) × CarriesShipment y q
      × ReturnsWith
          (payload_arrays (q ∷ []))
          (ack_text stray x ∷ ack_text stray y ∷ ack_text stray z ∷ [])
          (receiver_main env
            (suc (suc (suc fuel)))
            false
            (with_inbox (some x.datagram ∷ some y.datagram ∷ some z.datagram ∷ []) r))
receiver_main-exchange env stray fuel r x y z b empty none_sent dx is_syn dy is_dat dz is_fin =
    let (u1, a1) = had_syn env stray b r none_sent empty x dx is_syn [] in
    let (q2, u2, c2, a2) = had_dat env stray b r none_sent empty x dx is_syn y dy is_dat [] in
    let (q, u3, c, a3) =
      had_dat env stray b r none_sent empty x dx is_syn y dy is_dat (some z.datagram ∷ []) in
    let (u, fin_lem) = answer-fin env stray b z [] u3 dz is_fin a3.inbox_lem in
    (
      (
        u1,
        main-waits env (suc fuel) _ u1
            (a1.run_lem fuel ∙ run-waits env stray b fuel u1 a1.inbox_lem),
        a1.sent_lem,
      ),
      (
        u2,
        main-waits env (suc (suc fuel)) _ u2
            (a2.run_lem fuel ∙ run-waits env stray b fuel u2 a2.inbox_lem),
        a2.sent_lem,
      ),
      q,
      c,
      (
        u,
        finish env (suc (suc (suc fuel))) _ u
              (rw (fin_lem.stored_lem ∙ a3.stored_lem) (omega arith))
              (a3.run_lem (suc fuel) ∙ run-over env stray b fuel u3 u fin_lem)
            ∙ ap (λ l. ok (payload_arrays l) u) (fin_lem.stored_lem ∙ a3.stored_lem),
        fin_lem.sent_lem ∙ ap (λ l. l ++ ack_text stray z ∷ []) a3.sent_lem,
      ),
    )
