-- ===== src/Sender/Settled/Fin.antt =====
-- The exchange of the FIN of src/rdps.c, and the packets that count as acknowledged before it.
use csc361_a.Base.{
  ℕ, zero, suc, ◌≡◌, ◌≢◌, refl, ap, sym, ◌∙◌, subst, Bool, true, false, Option, none, some, List,
  [], ◌∷◌, ◌++◌, ◌+◌, ◌⊎◌, All, Result, success, arith, inl, inr, Option-cases, Bool-cases, ltb,
  length, if◌then◌else◌, failure,
}
use csc361_a.Base
use csc361_a.Base.Action.{Action, call, ok, exit, ◌>>=◌, exit_with, pure}
use csc361_a.Base.Int.{ℤ, pos, negsuc, ne→eqb_ℤ, ◌+ℤ◌, eqb_ℤ, eqb_ℤ-cases}
use csc361_a.Packet.{
  Packet, Heap, ack, rst, fin, create_packet, finish_packet, store_payload, create_dat,
  create_control,
}
use csc361_a.Sender.Window.{handle_packet}
use csc361_a.Sender.Transfer.{count_fin, count_first, finish_if, send_fin}
use csc361_a.Sender.Acknowledged.{IsAckd, AllAckd, is_ackd-true}
use csc361_a.Socket.{Env}
use csc361_a.Socket.Frame.{
  Frame, IsFrame, Framed, Frame-bind, Frame-gets, Frame-pure, Frame-failure, Frame-modify, Frame-if,
  Frame-when, Frame-next_heap, Frame-send_packet, Frame-receive,
}
use csc361_a.Timer.{PacketTimer, find_timer}
use csc361_a.Sender.State.{Sender, sender_machine}
use csc361_a.Sender.Marks.{mark, marks, is_acked, find_timer-marks}
use csc361_a.Sender.Timers.{is_ackd, packet_ackd, all_acknowledged, all_packets_acknowledged}
use csc361_a.Sender.Settled.{
  IsSettled, find_mark-marks, Stays, Stays-IsFrame, Stays-lock, Stays-start_new, Stays-stop_locked,
}

-- The FIN that create_packet makes.
create_packet-ackno :
    (h : Heap) (n : ℤ) {p : Packet} → create_packet h [] 0 fin n ≡ Base.ok p → p.ackno ≡ n +ℤ pos 1
unfolding create_packet finish_packet store_payload create_dat create_control eqb_ℤ
create_packet-ackno h n e = ground arith

-- A call of a function without state, whose result is known to what follows.
Frame-call-known :
    {A B : Type 0} {R : Sender → Sender → Type 0} ⦃f : IsFrame R⦄ {E : Sender → Type 0}
    (r : Result A) {k : A → Action Sender B}
    → ((x : A) → r ≡ Base.ok x → Frame R E (k x))
    → Frame R E (call r >>= k)
Frame-call-known (Base.ok x) g = record { at = λ s. (g x refl).at s }
Frame-call-known ⦃f⦄ Base.exit g = record { at = λ s. f.here s }
Frame-call-known Base.crash g = record { at = λ s. tt }

module _ (a : ℤ) where
  instance abbrev stays : IsFrame (Stays a)
  stays = Stays-IsFrame a

  module _ (env : Env) {E : Sender → Type 0} where
    Stays-packet_ackd : (p : Packet) → Frame (Stays a) E (packet_ackd env p)
    unfolding packet_ackd
    Stays-packet_ackd p =
        Frame-bind (Stays-lock a env)
          (λ _. Frame-bind (Frame-gets (λ s. s.timer_list)) (λ ts. found (find_timer ts p.ackno)))
      where
        found :
            (o : Option PacketTimer)
            → Frame (Stays a) E (elim o as (λ _. Action Sender Bool) [
              | none ↦ exit_with failure
              | some t ↦ pure (is_ackd t)
            ])
        found none = Frame-failure
        found (some t) = Frame-pure _

    Stays-all_acknowledged : (ps : List Packet) → Frame (Stays a) E (all_acknowledged env ps)
    unfolding all_acknowledged
    Stays-all_acknowledged [] = Frame-pure true
    Stays-all_acknowledged (p ∷ ps) =
        Frame-bind (Stays-packet_ackd p) (λ b. next b (Stays-all_acknowledged ps))
      where
        next :
            (b : Bool)
            → Frame (Stays a) E (all_acknowledged env ps)
            → Frame (Stays a) E (elim b as (λ _. Action Sender Bool) [
              | true ↦ all_acknowledged env ps
              | false ↦ pure false
            ])
        next true k = k
        next false k = Frame-pure false

    Stays-all_packets_acknowledged : Frame (Stays a) E (all_packets_acknowledged env)
    unfolding all_packets_acknowledged
    Stays-all_packets_acknowledged =
        Frame-bind (Frame-gets (λ s. s.data_packets)) Stays-all_acknowledged

    Stays-handle_packet : (p : Packet) → Frame (Stays a) E (handle_packet env p)
    unfolding handle_packet
    Stays-handle_packet p =
        Frame-if (eqb_ℤ p.type ack)
          (Frame-bind
            (Frame-modify {g = λ s. record s { ack_packets_received = s.ack_packets_received + 1 }}
              (λ s i. i))
            (λ _. Stays-stop_locked a env p.seqno))
          (Frame-if (eqb_ℤ p.type rst)
            (Frame-modify {g = λ s. record s { rst_packets_received = s.rst_packets_received + 1 }}
              (λ s i. i))
            (Frame-pure tt))

  module _ (env : Env) where
    Stays-finish_if :
        (f : Packet) (o : Option Packet) → Frame (Stays a) (λ _. Unit) (finish_if env f o)
    unfolding finish_if
    Stays-finish_if f none = Frame-pure tt
    Stays-finish_if f (some p) =
        Frame-bind (Stays-handle_packet env p)
          (λ _. Frame-when (eqb_ℤ p.seqno f.ackno) (record { at = λ s. (λ i. i, tt) }))

    -- The exchange of the FIN, for a packet that has not the FIN's number.
    Stays-send_fin : (n : ℤ) → n +ℤ pos 1 ≢ a → Frame (Stays a) (λ _. Unit) (send_fin env n)
    unfolding send_fin
    Stays-send_fin n ne = Frame-bind (Frame-next_heap env) (λ h.
        Frame-call-known (create_packet h [] 0 fin n) (λ p made.
          Frame-bind (Frame-send_packet env p) (λ _.
            Frame-bind (Frame-modify {g = count_fin p} (λ s i. i)) (λ _.
              Frame-bind (Frame-modify {g = count_first p} (λ s i. i)) (λ _.
                Frame-bind
                  (Stays-start_new a env p.ackno (λ e. ne (sym (create_packet-ackno h n made) ∙ e)))
                  (λ _. Frame-bind (Frame-receive env) (λ o. Stays-finish_if p o)))))))

IsAckd-IsSettled : (ts : List PacketTimer) (p : Packet) → IsAckd ts p → IsSettled (marks ts) p.ackno
IsAckd-IsSettled ts p i = record {
  found_mark = mark i.timer;
  found_lem = find_mark-marks ts p.ackno i.found;
  acked_lem = rw (i.stopped, ne→eqb_ℤ i.timer.time_sent (negsuc 0) i.was_started) refl;
}

IsSettled-IsAckd : (ts : List PacketTimer) (p : Packet) → IsSettled (marks ts) p.ackno → IsAckd ts p
IsSettled-IsAckd ts p i =
    let (t, found, same) = find_timer-marks ts p.ackno i.found_lem in
    let facts = is_ackd-true t (ap is_acked same ∙ i.acked_lem) in
    record { timer = t; found = found; stopped = facts.0; was_started = facts.1 }

-- Each packet's timer has been started and is stopped, unless the packet has this number.
abbrev pub AllSettled : ℤ → List PacketTimer → List Packet → Type 0
AllSettled n ts = All (λ p. (p.ackno ≡ n) ⊎ IsAckd ts p)

pub send_fin-AllSettled :
    (env : Env) (n : ℤ) (s0 s t : Sender) (ps : List Packet)
    → all_packets_acknowledged env s0 ≡ ok true s
    → send_fin env n s ≡ exit success t
    → AllAckd s0.timer_list ps
    → AllSettled (n +ℤ pos 1) t.timer_list ps
send_fin-AllSettled env n s0 s t [] said ends i = tt
send_fin-AllSettled env n s0 s t (p ∷ ps) said ends (i, is) = (
  elim (eqb_ℤ-cases p.ackno (n +ℤ pos 1)) [
    | inl (_, same) ↦ inl same
    | inr (_, ne) ↦
        let asked : Stays p.ackno s0 s =
          subst (λ o. Framed (Stays p.ackno s0) (λ _. Unit) o) said
            ((Stays-all_packets_acknowledged p.ackno env).at s0) in
        let over : Stays p.ackno s t × Unit =
          subst (λ o. Framed (Stays p.ackno s) (λ _. Unit) o) ends
            ((Stays-send_fin p.ackno env n (λ e. ne (sym e))).at s) in
        inr (IsSettled-IsAckd t.timer_list p (over.0 (asked (IsAckd-IsSettled s0.timer_list p i))))
  ],
  send_fin-AllSettled env n s0 s t ps said ends is,
)
