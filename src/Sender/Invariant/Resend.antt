-- ===== src/Sender/Invariant/Resend.antt =====
-- Resending and handle_packet of src/rdps.c, under a condition that stands the steps.
use csc361_a.Base.{
  Member, ℕ, zero, suc, ◌+◌, ◌≡◌, refl, subst, true, false, ◌&&◌, Bool, Option, none, some, List,
  [], ◌∷◌, if◌then◌else◌, length, get_elem?, inl, inr,
}
use csc361_a.Base.Action.{Action, ◌>>◌, modify, pure, when, crash}
use csc361_a.Base.Triple.{
  Ensures, Triple-bind, Triple-pure, Triple-gets, Triple-modify, Ensures-when,
}
use csc361_a.Base.Int.{ℤ, eqb_ℤ}
use csc361_a.Packet.{Packet, ack, rst}
use csc361_a.Socket.{Env, send_packet}
use csc361_a.Timer.{PacketTimer}
use csc361_a.Sender.State.{Sender, sender_machine}
use csc361_a.Sender.Timers.{start, stop_locked}
use csc361_a.Sender.Transfer.{count_ack}
use csc361_a.Sender.Window.{
  count_again, resend_at, resend_matching, resend_from, resend_timedout_packets, handle_packet,
}
use csc361_a.Sender.Invariant.{count_rst, IsCalm, IsSending, IsWindowed}
use csc361_a.Sender.Invariant.Timers.{Ensures-lock, Ensures-start, Ensures-stop_locked}
use csc361_a.Sender.Invariant.Window.{Triple-send_packet, with_packets}

module _ (env : Env) (last_ackno : ℤ) (ps : List Packet) {I : Sender → Type 0} (c : IsCalm I)
    (sending : IsSending env last_ackno ps I) (windowed : IsWindowed ps I) where
  Member-get_elem : (qs : List Packet) (i : ℕ) (p : Packet) → get_elem? qs i ≡ some p → Member p qs
  Member-get_elem [] i p e = absurd (cc)
  Member-get_elem (q ∷ qs) zero p e = inl (cc)
  Member-get_elem (q ∷ qs) (suc i) p e = inr (Member-get_elem qs i p e)

  Ensures-resend :
      (p : Packet)
      → Member p ps
      → Ensures I (send_packet env p >> modify (count_again p) >> start env p.ackno)
  Ensures-resend p member =
      Triple-bind
        (Triple-bind (Triple-send_packet env p (λ s i. i)) (λ _.
          Triple-modify {Q = λ _. I} {g = count_again p} (λ s x.
            subst (λ t. I (count_again p t)) x.is_posted
              (sending.again_lem x.before p x.text x.holds member x.spelled))))
        (λ _. Ensures-start c env p.ackno)

  Ensures-resend_at : (i : ℕ) → Ensures I (resend_at env i)
  unfolding resend_at
  Ensures-resend_at i =
      (with_packets env last_ackno ps c sending windowed) _
        (λ qs all. found (get_elem? qs i) (λ p e. all p (Member-get_elem qs i p e)))
    where
      found :
          (o : Option Packet)
          → ((p : Packet) → o ≡ some p → Member p ps)
          → Ensures I (elim o as (λ _. Action Sender (Unit {0})) [
            | none ↦ (λ _. crash)
            | some p ↦ send_packet env p >> modify (count_again p) >> start env p.ackno
          ])
      found none h = record { at = λ s i. tt }
      found (some p) h = Ensures-resend p (h p refl)

  Ensures-resend_matching :
      (i : ℕ) (t : PacketTimer) (qs : List Packet) → Ensures I (resend_matching env i t qs)
  unfolding resend_matching
  Ensures-resend_matching i t [] = Triple-pure (λ s i. i)
  Ensures-resend_matching i t (p ∷ qs) =
      Triple-bind (Ensures-when (eqb_ℤ p.ackno t.pckt_ackno) (Ensures-resend_at i))
        (λ _. Ensures-resend_matching i t qs)

  Ensures-resend_from : (n i : ℕ) → Ensures I (resend_from env n i)
  unfolding resend_from
  Ensures-resend_from zero i = Triple-pure (λ s i. i)
  Ensures-resend_from (suc n) i =
      Triple-bind (Triple-gets {Q = λ _. I} {g = λ s. s} (λ s i. i))
        (λ s. Triple-bind (found s (get_elem? s.timer_list i)) (λ _. Ensures-resend_from n (i + 1)))
    where
      found :
          (s : Sender) (o : Option PacketTimer)
          → Ensures I (elim o as (λ _. Action Sender (Unit {0})) [
            | none ↦ pure tt
            | some t ↦ when (t.timedout && t.running) (resend_matching env i t s.data_packets)
          ])
      found s none = Triple-pure (λ s i. i)
      found s (some t) =
          Ensures-when (t.timedout && t.running) (Ensures-resend_matching i t s.data_packets)

  pub Ensures-resend_timedout_packets : Ensures I (resend_timedout_packets env)
  unfolding resend_timedout_packets
  Ensures-resend_timedout_packets = Triple-bind (Ensures-lock c env) (λ _.
      Triple-bind (Triple-gets {Q = λ _. I} {g = λ s. s.timer_list} (λ s i. i))
        (λ ts. Ensures-resend_from (length ts) 0))

  pub Ensures-handle_packet : (p : Packet) → Ensures I (handle_packet env p)
  unfolding handle_packet
  Ensures-handle_packet p = acked (eqb_ℤ p.type ack) (eqb_ℤ p.type rst)
    where
      acked :
          (a b : Bool)
          → Ensures I (
              if a
              then modify count_ack >> stop_locked env p.seqno
              else if b
              then modify count_rst
              else pure {S = Sender} tt)
      acked true b =
          Triple-bind (Triple-modify {Q = λ _. I} {g = count_ack} (λ s i. c.ack_lem s i))
            (λ _. Ensures-stop_locked c env p.seqno)
      acked false true = Triple-modify (λ s i. c.rst_lem s i)
      acked false false = Triple-pure (λ s i. i)
