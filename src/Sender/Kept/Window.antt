-- ===== src/Sender/Kept/Window.antt =====
-- What the functions of src/rdps.c that send data packets and move the window keep.
use csc361_a.Base.{
  ℕ, zero, suc, ◌+◌, refl, Bool, true, false, not, ◌&&◌, Option, none, some, List, [], ◌∷◌, length,
  get_elem?,
}
use csc361_a.Base.Action.{Action, crash, ◌>>◌, modify, pure, when}
use csc361_a.Base.Int.{ltb_ℤ, eqb_ℤ}
use csc361_a.Packet.{Packet, ack, rst}
use csc361_a.Socket.{Env, send_packet}
use csc361_a.Socket.Frame.{
  Frame-bind, Frame-pure, Frame-gets, Frame-modify, Frame-when, Frame-if, Frame-send_packet,
}
use csc361_a.Timer.{PacketTimer}
use csc361_a.Sender.State.{Sender, sender_machine}
use csc361_a.Sender.Timers.{start}
use csc361_a.Sender.Window.{
  count_fresh, occupy, slide_to, count_again, in_window, send_fresh, visit, fill_from, fill_window,
  slide, update_from, update_window_base, resend_at, resend_matching, resend_from,
  resend_timedout_packets, handle_packet,
}
use csc361_a.Sender.Kept.{
  Kept-IsFrame, Keeps, alike, Keeps-lock, Keeps-start, Keeps-start_locked, Keeps-stop_locked,
  Keeps-packet_ackd,
}

module _ (env : Env) {E : Sender → Type 0} where
  Keeps-send_fresh : (p : Packet) → Keeps E (send_fresh env p)
  unfolding send_fresh
  Keeps-send_fresh p = Frame-bind (Frame-send_packet env p) (λ _.
      Frame-bind (Frame-modify {g = count_fresh p} (λ s. alike refl refl refl)) (λ _.
        Frame-bind (Keeps-start_locked env p.ackno)
          (λ _. Frame-modify {g = occupy p} (λ s. alike refl refl refl))))

  Keeps-visit : (p : Packet) → Keeps E (visit env p)
  unfolding visit
  Keeps-visit p = Frame-bind (Frame-gets (λ s. s.window)) (λ w.
      Frame-when (in_window w p)
        (Frame-bind (Keeps-packet_ackd env p) (λ ackd. Frame-when (not ackd) (Keeps-send_fresh p))))

  Keeps-fill_from : (ps : List Packet) → Keeps E (fill_from env ps)
  unfolding fill_from
  Keeps-fill_from [] = Frame-pure tt
  Keeps-fill_from (p ∷ ps) =
      Frame-bind (Frame-gets (λ s. s.window))
        (λ w. full (ltb_ℤ w.occupied w.size) (Frame-bind (Keeps-visit p) (λ _. Keeps-fill_from ps)))
    where
      full :
          (b : Bool)
          → Keeps E (visit env p >> fill_from env ps)
          → Keeps E (elim b as (λ _. Action Sender (Unit {0})) [
            | true ↦ visit env p >> fill_from env ps
            | false ↦ pure tt
          ])
      full true k = k
      full false k = Frame-pure tt

  pub Keeps-fill_window : Keeps E (fill_window env)
  unfolding fill_window
  Keeps-fill_window = Frame-bind (Frame-gets (λ s. s.data_packets)) Keeps-fill_from

  Keeps-slide : (ps : List Packet) → Keeps E (slide env ps)
  unfolding slide
  Keeps-slide [] = Frame-pure tt
  Keeps-slide (q ∷ qs) = Frame-modify {g = slide_to q} (λ s. alike refl refl refl)

  Keeps-update_from : (ps : List Packet) → Keeps E (update_from env ps)
  unfolding update_from
  Keeps-update_from [] = Frame-pure tt
  Keeps-update_from (p ∷ ps) = Frame-bind (Frame-gets (λ s. s.window)) (λ w.
      Frame-bind
        (Frame-when (eqb_ℤ p.seqno w.base_seqno)
          (Frame-bind (Keeps-packet_ackd env p) (λ ackd. Frame-when ackd (Keeps-slide ps))))
        (λ _. Keeps-update_from ps))

  pub Keeps-update_window_base : Keeps E (update_window_base env)
  unfolding update_window_base
  Keeps-update_window_base = Frame-bind (Frame-gets (λ s. s.data_packets)) Keeps-update_from

  Keeps-resend_at : (i : ℕ) → Keeps E (resend_at env i)
  unfolding resend_at
  Keeps-resend_at i = Frame-bind (Frame-gets (λ s. s.data_packets)) (λ ps. at (get_elem? ps i))
    where
      at :
          (o : Option Packet)
          → Keeps E (elim o as (λ _. Action Sender (Unit {0})) [
            | none ↦ (λ _. crash)
            | some p ↦ send_packet env p >> modify (count_again p) >> start env p.ackno
          ])
      at none = record { at = λ s. tt }
      at (some p) =
          Frame-bind
            (Frame-bind (Frame-send_packet env p)
              (λ _. Frame-modify {g = count_again p} (λ s. alike refl refl refl)))
            (λ _. Keeps-start env p.ackno)

  Keeps-resend_matching :
      (i : ℕ) (t : PacketTimer) (ps : List Packet) → Keeps E (resend_matching env i t ps)
  unfolding resend_matching
  Keeps-resend_matching i t [] = Frame-pure tt
  Keeps-resend_matching i t (p ∷ ps) =
      Frame-bind (Frame-when (eqb_ℤ p.ackno t.pckt_ackno) (Keeps-resend_at i))
        (λ _. Keeps-resend_matching i t ps)

  Keeps-resend_from : (n i : ℕ) → Keeps E (resend_from env n i)
  unfolding resend_from
  Keeps-resend_from zero i = Frame-pure tt
  Keeps-resend_from (suc n) i =
      Frame-bind (Frame-gets (λ s. s))
        (λ s. Frame-bind (at s (get_elem? s.timer_list i)) (λ _. Keeps-resend_from n (i + 1)))
    where
      at :
          (s : Sender) (o : Option PacketTimer)
          → Keeps E (elim o as (λ _. Action Sender (Unit {0})) [
            | none ↦ pure tt
            | some t ↦ when (t.timedout && t.running) (resend_matching env i t s.data_packets)
          ])
      at s none = Frame-pure tt
      at s (some t) =
          Frame-when (t.timedout && t.running) (Keeps-resend_matching i t s.data_packets)

  pub Keeps-resend_timedout_packets : Keeps E (resend_timedout_packets env)
  unfolding resend_timedout_packets
  Keeps-resend_timedout_packets =
      Frame-bind (Keeps-lock env)
        (λ _. Frame-bind (Frame-gets (λ s. s.timer_list)) (λ ts. Keeps-resend_from (length ts) 0))

  pub Keeps-handle_packet : (p : Packet) → Keeps E (handle_packet env p)
  unfolding handle_packet
  Keeps-handle_packet p =
      Frame-if (eqb_ℤ p.type ack)
        (Frame-bind
          (Frame-modify {g = λ s. record s { ack_packets_received = s.ack_packets_received + 1 }}
            (λ s. alike refl refl refl))
          (λ _. Keeps-stop_locked env p.seqno))
        (Frame-if (eqb_ℤ p.type rst)
          (Frame-modify {g = λ s. record s { rst_packets_received = s.rst_packets_received + 1 }}
            (λ s. alike refl refl refl))
          (Frame-pure tt))
