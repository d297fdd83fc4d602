-- ===== src/Sender/Kept.antt =====
-- What the operations of src/rdps.c keep, each of them: the packets cut from the file.
pub mod Window
pub mod Transfer
use csc361_a.Base.{
  ℕ, zero, suc, ◌+◌, ◌≤◌, ◌≡◌, refl, ◌∙◌, ap, sym, Bool, true, false, not, ◌&&◌, Option, none, some,
  List, [], ◌∷◌, ◌++◌, ExitCode, success, failure, Result, if◌then◌else◌, arith, length,
  append_assoc, append-nil, get_elem?,
}
use csc361_a.Base.Action.{
  Action, Outcome, ok, exit, blocked, crash, ◌>>=◌, ◌>>◌, call, gets, modify, pure, when, exit_with,
}
use csc361_a.Base.Int.{ℤ, pos, negsuc, ltb_ℤ, eqb_ℤ}
use csc361_a.Base.Text.{Bytes}
use csc361_a.Packet.{Packet, create_packet, ack, rst, syn}
use csc361_a.Socket.{Env, Machine, next_heap, read_clock, receive, send_packet, check_time}
use csc361_a.Socket.Frame.{
  Frame, IsFrame, Frame-bind, Frame-pure, Frame-gets, Frame-failure, Frame-modify, Frame-when,
  Frame-call, Frame-if, Frame-next_heap, Frame-read_clock, Frame-send_packet, Frame-check_time,
  Frame-receive,
}
use csc361_a.Timer.{PacketTimer, create_timer, add_timer, find_timer, stop_timer, start_timer}
use csc361_a.Sender.State.{Sender, sender_machine}
use csc361_a.Sender.Timers.{
  tick, count_lock, sweep, sweeps, clocks_of, lock, set_timers, start, start_locked, start_new,
  stop_locked, packet_ackd, is_ackd, all_acknowledged, all_packets_acknowledged, add_dat_timers,
}
use csc361_a.Sender.Window.{
  count_fresh, occupy, slide_to, count_again, in_window, send_fresh, visit, fill_from, fill_window,
  slide, update_from, update_window_base, resend_at, resend_matching, resend_from,
  resend_timedout_packets, handle_packet,
}

pub record Kept (s t : Sender) : Type 0 where
  pub same_packets : t.data_packets ≡ s.data_packets
  pub inbox_shrinks : length t.inbox ≤ length s.inbox
  pub more : List Bytes
  pub sent_grows : t.sent ≡ s.sent ++ more

instance abbrev pub Kept-IsFrame : IsFrame Kept
Kept-IsFrame = record {
  here = λ s. record {
    same_packets = refl;
    inbox_shrinks = omega arith;
    more = [];
    sent_grows = sym (append-nil s.sent);
  };
  through = λ s t u r q. record {
    same_packets = q.same_packets ∙ r.same_packets;
    inbox_shrinks = omega (arith, r.inbox_shrinks, q.inbox_shrinks);
    more = r.more ++ q.more;
    sent_grows =
        q.sent_grows ∙ ap (λ l. l ++ q.more) r.sent_grows ∙ append_assoc s.sent r.more q.more;
  };
  machine =
      λ s w t i o. record { same_packets = refl; inbox_shrinks = i; more = t; sent_grows = o };
}

-- A change of the globals that leaves these alone.
pub alike :
    {s t : Sender}
    → t.data_packets ≡ s.data_packets
    → t.inbox ≡ s.inbox
    → t.sent ≡ s.sent
    → Kept s t
alike {s} e i o = record {
  same_packets = e;
  inbox_shrinks = rw i (omega arith);
  more = [];
  sent_grows = o ∙ sym (append-nil s.sent);
}

abbrev pub Keeps : {A : Type 0} → (Sender → Type 0) → Action Sender A → Type 0
Keeps E m = Frame Kept E m

module _ (env : Env) {E : Sender → Type 0} where
  pub Keeps-set_timers : (ts : List PacketTimer) → Keeps E (set_timers ts)
  unfolding set_timers
  Keeps-set_timers ts =
      Frame-modify {g = λ s. record s { timer_list = ts }} (λ s. alike refl refl refl)

  Keeps-sweeps : (n : ℕ) → Keeps E (sweeps env n)
  unfolding sweeps
  Keeps-sweeps zero = Frame-pure tt
  Keeps-sweeps (suc n) = Frame-bind (Frame-gets (λ s. s)) (λ s.
      Frame-bind (Frame-call (sweep env.clock s.clocks [] s.timer_list)) (λ ts.
        Frame-bind (Keeps-set_timers ts) (λ _.
          Frame-bind (Frame-modify {g = tick (clocks_of s.timer_list)} (λ s. alike refl refl refl))
            (λ _. Keeps-sweeps n))))

  pub Keeps-lock : Keeps E (lock env)
  unfolding lock
  Keeps-lock = Frame-bind (Frame-gets (λ s. env.polls s.locks)) (λ n.
      Frame-bind (Frame-modify {g = count_lock} (λ s. alike refl refl refl)) (λ _. Keeps-sweeps n))

  pub Keeps-start : (a : ℤ) → Keeps E (start env a)
  unfolding start
  Keeps-start a = Frame-bind (Frame-gets (λ s. s.timer_list)) (λ ts. found (find_timer ts a) ts)
    where
      found :
          (o : Option PacketTimer) (ts : List PacketTimer)
          → Keeps E (elim o as (λ _. Action Sender (Unit {0})) [
            | none ↦ exit_with failure
            | some _ ↦ do t ← read_clock env; ts' ← call (start_timer a ts (pos t)); set_timers ts'
          ])
      found none ts = Frame-failure
      found (some _) ts =
          Frame-bind (Frame-read_clock env)
            (λ t. Frame-bind (Frame-call (start_timer a ts (pos t))) Keeps-set_timers)

  pub Keeps-start_locked : (a : ℤ) → Keeps E (start_locked env a)
  unfolding start_locked
  Keeps-start_locked a = Frame-bind Keeps-lock (λ _. Keeps-start a)

  pub Keeps-start_new : (a : ℤ) → Keeps E (start_new env a)
  unfolding start_new
  Keeps-start_new a = Frame-bind Keeps-lock (λ _. Frame-bind (Frame-read_clock env) (λ t.
      Frame-bind (Frame-gets (λ s. s.timer_list)) (λ ts.
        Frame-bind (Frame-call (add_timer ts (create_timer a (pos t))))
          (λ ts'. Frame-bind (Keeps-set_timers ts') (λ _. Keeps-start a)))))

  pub Keeps-stop_locked : (a : ℤ) → Keeps E (stop_locked env a)
  unfolding stop_locked
  Keeps-stop_locked a = Frame-bind Keeps-lock (λ _.
      Frame-bind (Frame-gets (λ s. s.timer_list))
        (λ ts. Frame-bind (Frame-call (stop_timer ts a)) Keeps-set_timers))

  pub Keeps-packet_ackd : (p : Packet) → Keeps E (packet_ackd env p)
  unfolding packet_ackd
  Keeps-packet_ackd p =
      Frame-bind Keeps-lock
        (λ _. Frame-bind (Frame-gets (λ s. s.timer_list)) (λ ts. found (find_timer ts p.ackno)))
    where
      found :
          (o : Option PacketTimer)
          → Keeps E (elim o as (λ _. Action Sender Bool) [
            | none ↦ exit_with failure
            | some t ↦ pure (is_ackd t)
          ])
      found none = Frame-failure
      found (some t) = Frame-pure _

  pub Keeps-add_dat_timers : (ps : List Packet) → Keeps E (add_dat_timers env ps)
  unfolding add_dat_timers
  Keeps-add_dat_timers [] = Frame-pure tt
  Keeps-add_dat_timers (p ∷ ps) = Frame-bind (Frame-gets (λ s. s.timer_list)) (λ ts.
      Frame-bind (Frame-call (add_timer ts (create_timer p.ackno (negsuc 0))))
        (λ ts'. Frame-bind (Keeps-set_timers ts') (λ _. Keeps-add_dat_timers ps)))
