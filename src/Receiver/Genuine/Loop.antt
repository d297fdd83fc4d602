-- ===== src/Receiver/Genuine/Loop.antt =====
-- The loop and the rest of main of src/rdpr.c for a condition on the packets stored.
use csc361_a.Base.{
  Every, Member, Member-snoc, ℕ, zero, suc, ◌+◌, ◌-◌, ◌≡◌, refl, sym, ap, ◌∙◌, subst, Bool, true,
  false, ◌⊎◌, inl, inr, Option, none, some, List, [], ◌∷◌, ◌++◌, ◌==◌, ltb, Result, returned,
  ok_inj, if◌then◌else◌, failure, length, Bool-cases,
}
use csc361_a.Base
use csc361_a.Base.Action
use csc361_a.Base.Action.{
  Action, Outcome, ◌>>=◌, ◌>>◌, call, gets, modify, pure, exit_with, blocked,
}
use csc361_a.Base.Triple.{
  Everywhere, Holds, Triple, Triple-bind, Triple-pure, Triple-gets, Triple-exit,
}
use csc361_a.Base.Int.{eqb_ℤ, eqb_ℤ→eq}
use csc361_a.Base.Text.{Bytes}
use csc361_a.Packet.{Packet, dat, syn, rst, fin, max_packets}
use csc361_a.Packet.Parse.{receive_packet}
use csc361_a.Socket.{Env, next_heap, next_datagram, receive, check_time}
use csc361_a.Receiver.{
  Receiver, receiver_machine, on_syn, on_fin, on_rst, on_packet, round, run, receiver_main,
  payload_arrays, write_file,
}
use csc361_a.Receiver.Genuine.{
  Arrives, IsGenuine, unmoved, Keeps, Keeps-check_time, Keeps-modify, Keeps-send_ack, Keeps-on_dat,
}

module _ (env : Env) (D : Packet → Type 0) where
  -- A packet of type DAT has `D`.
  abbrev IsFit : Option Packet → Type 0
  IsFit o = (q : Packet) → o ≡ some q → q.type ≡ dat → D q

  Holds-next_datagram :
      (r : Receiver) (l : List (Option Bytes))
      → r.inbox ≡ l
      → (IsGenuine env D) r
      → Holds
          (IsGenuine env D)
          (λ d t. (IsGenuine env D) t × Arrives env D d)
          (let w = r.machine in
            elim l as (λ _. Outcome Receiver (Option Bytes)) [
              | [] ↦ blocked r
              | d ∷ rest ↦ Action.ok d (record r { machine = record w { inbox = rest } })
            ])
  Holds-next_datagram r [] e g = g
  Holds-next_datagram r (d ∷ rest) e g =
      let arriving = subst (Every (Arrives env D)) e g.arriving in
      (record { stored = g.stored; arriving = λ x m. arriving x (inr m) }, arriving d (inl refl))

  Triple-next_datagram :
      Triple
        (IsGenuine env D)
        (IsGenuine env D)
        (next_datagram env)
        (λ d r. (IsGenuine env D) r × Arrives env D d)
  unfolding next_datagram
  Triple-next_datagram = record { at = λ r g. Holds-next_datagram r r.inbox refl g }

  -- A datagram that arrives, and what receive_packet makes of it.
  Triple-receive :
      Triple
        (IsGenuine env D)
        (IsGenuine env D)
        (receive env)
        (λ o r. (IsGenuine env D) r × IsFit o)
  unfolding receive next_heap
  Triple-receive = Triple-bind Triple-next_datagram (λ d. record {
    at = λ r (g, a).
        let w = r.machine in
        (read (receive_packet (env.heap r.heaps) d) (λ q. a r.heaps q)).at
          (record r { machine = record w { heaps = w.heaps + 1 } })
          ((unmoved env D) r (record r { machine = record w { heaps = w.heaps + 1 } }) g refl refl);
  })
    where
      read :
          (o : Result (Option Packet))
          → ((q : Packet) → o ≡ Base.ok (some q) → q.type ≡ dat → D q)
          → Triple
              (IsGenuine env D)
              (IsGenuine env D)
              (call o)
              (λ o r. (IsGenuine env D) r × IsFit o)
      read (Base.ok o) h = Triple-pure (λ r g. (g, λ q e. h q (ap Base.ok e)))
      read Base.exit h = record { at = λ r g. g }
      read Base.crash h = record { at = λ r g. tt }

  Keeps-on_syn : (p : Packet) → (Keeps env D) (on_syn env p)
  unfolding on_syn
  Keeps-on_syn p = Triple-bind ((Keeps-send_ack env D) p) (λ _.
      (Keeps-modify env D) (λ r. record r { syn_packets_received = r.syn_packets_received + 1 })
        (λ r. refl) (λ r. refl))

  Keeps-on_fin : (p : Packet) → (Keeps env D) (on_fin env p)
  unfolding on_fin
  Keeps-on_fin p = Triple-bind ((Keeps-send_ack env D) p) (λ _.
      (Keeps-modify env D) (λ r. record r { fin_packets_received = r.fin_packets_received + 1 })
        (λ r. refl) (λ r. refl))

  Keeps-on_rst : (Keeps env D) (on_rst env)
  unfolding on_rst
  Keeps-on_rst =
      Triple-bind
        ((Keeps-modify env D) (λ r. record r { rst_packets_received = r.rst_packets_received + 1 })
          (λ r. refl) (λ r. refl))
        (λ _. Triple-exit {c = failure} (λ r g. g))

  then_check :
      {m : Action Receiver (Unit {0})}
      → (Keeps env D) m
      → (Keeps env D) (m >> check_time env >> pure false)
  then_check h =
      Triple-bind (Triple-bind h (λ _. (Keeps-check_time env D))) (λ _. Triple-pure (λ r g. g))

  Keeps-if :
      {A : Type 0} (b : Bool) {m k : Action Receiver A}
      → (b ≡ true → (Keeps env D) m)
      → (Keeps env D) k
      → (Keeps env D) (if b then m else k)
  Keeps-if true h h' = h refl
  Keeps-if false h h' = h'

  Keeps-on_packet : (p : Packet) → (p.type ≡ dat → D p) → (Keeps env D) (on_packet env p)
  unfolding on_packet
  Keeps-on_packet p d =
      Keeps-if (eqb_ℤ p.type dat)
        (λ e. then_check ((Keeps-on_dat env D) p (d (eqb_ℤ→eq p.type dat e))))
        (Keeps-if (eqb_ℤ p.type syn) (λ _. then_check (Keeps-on_syn p))
          (Keeps-if (eqb_ℤ p.type rst) (λ _. then_check Keeps-on_rst)
            (Keeps-if (eqb_ℤ p.type fin)
              (λ _. Triple-bind (Keeps-on_fin p) (λ _. Triple-pure (λ r g. g)))
              (Triple-bind (Keeps-check_time env D) (λ _. Triple-pure (λ r g. g))))))

  Keeps-round : (Keeps env D) (round env)
  unfolding round
  Keeps-round =
      Triple-bind Triple-receive (λ o. record { at = λ r (g, fit). (handled o fit).at r g })
    where
      handled :
          (o : Option Packet)
          → IsFit o
          → (Keeps env D) (elim o as (λ _. Action Receiver Bool) [
            | none ↦ pure false
            | some p ↦ on_packet env p
          ])
      handled none fit = Triple-pure (λ r g. g)
      handled (some p) fit = Keeps-on_packet p (fit p refl)

  Keeps-run : (fuel : ℕ) → (Keeps env D) (run env fuel)
  unfolding run
  Keeps-run zero = record { at = λ r g. g }
  Keeps-run (suc fuel) = record {
    at = (Triple-bind Keeps-round (λ done. continued done (Keeps-run fuel))).at;
  }
    where
      continued :
          (done : Bool)
          → (Keeps env D) (run env fuel)
          → (Keeps env D) (elim done as (λ _. Action Receiver (Unit {0})) [
            | true ↦ pure tt
            | false ↦ run env fuel
          ])
      continued true h = Triple-pure (λ r g. g)
      continued false h = h

  -- If every DAT packet that receive_packet can make of a datagram to come has a property, then
  -- from an empty list of packets every packet stored has it, wherever the loop waits or ends
  -- short of undefined behaviour, whatever else arrives, and for any fuel.
  pub run-IsGenuine :
      (fuel : ℕ) (r : Receiver)
      → r.data_packets ≡ []
      → Every (Arrives env D) r.inbox
      → Everywhere (IsGenuine env D) (run env fuel r)
  run-IsGenuine fuel r empty h =
      (Keeps-run fuel).at r
        (record { stored = subst (Every D) (sym empty) (λ q m. absurd m); arriving = h })

  -- What is written to the file are the payload arrays of the packets stored.
  pub Triple-receiver_main :
      (fuel : ℕ) (fopen_fails : Bool)
      → Triple
          (IsGenuine env D)
          (IsGenuine env D)
          (receiver_main env fuel fopen_fails)
          (λ out r. (IsGenuine env D) r × (out ≡ payload_arrays r.data_packets))
  unfolding receiver_main write_file
  Triple-receiver_main fuel fopen_fails = Triple-bind (Keeps-run fuel) (λ _.
      Triple-bind
        (Triple-gets {Q = λ ps r. (IsGenuine env D) r × (ps ≡ r.data_packets)}
          {g = λ r. r.data_packets} (λ r g. (g, refl)))
        (λ ps. written ps fopen_fails))
    where
      written :
          (ps : List Packet) (b : Bool)
          → Triple
              (IsGenuine env D)
              (λ r. (IsGenuine env D) r × (ps ≡ r.data_packets))
              (if b then exit_with {S = Receiver} failure else call (write_file ps))
              (λ out r. (IsGenuine env D) r × (out ≡ payload_arrays r.data_packets))
      written ps true = Triple-exit (λ r x. x.0)
      written ps false = elim (Bool-cases (ltb (length ps) max_packets)) [
        | inl fits ↦ rw fits (Triple-pure (λ r (g, e). (g, ap payload_arrays e)))
        | inr full ↦ rw full (record { at = λ r x. tt })
      ]
