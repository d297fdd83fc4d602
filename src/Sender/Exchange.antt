-- ===== src/Sender/Exchange.antt =====
-- The sender of src/rdps.c with a single data packet, operation by operation. What is not known of
-- its globals is the times and flags of the timers, which the clock and the polling thread decide.
pub mod Messages
pub mod Opening
pub mod Filling
pub mod Acked
pub mod Fin
pub mod Ending
pub mod Answered
pub mod Whole
pub mod Retries
use csc361_a.Base.{
  ℕ, zero, suc, ◌+◌, ◌<◌, ◌≡◌, refl, ap, sym, ◌∙◌, Bool, true, false, not, Option, none, some, List,
  [], ◌∷◌, ◌++◌, arith, length, subst, failure, if◌then◌else◌,
}
use csc361_a.Base
use csc361_a.Base.Action.{Action, ok, blocked, pure, exit_with, ◌>>=◌}
use csc361_a.Base.Int.{ℤ, pos, negsuc, eqb_ℤ}
use csc361_a.Base.Text.{Bytes}
use csc361_a.Base.Total.{
  Total, Meets, Never, NeverEnds, Total-bind, Total-gets, Total-modify, Total-pure,
}
use csc361_a.Packet.{Packet, construct_string}
use csc361_a.Packet.Parse.{receive_packet}
use csc361_a.Packet.Scan.{IsZeroed}
use csc361_a.Packet.Timeout.{receive_packet-timeout}
use csc361_a.Socket.{Env, send_packet, receive, read_clock, next_heap, next_datagram, post}
use csc361_a.Receiver.Delivery.{Shipment, Delivers, CarriesShipment}
use csc361_a.Timer.{
  PacketTimer, create_timer, add_timer, find_timer, start_timer, stop_timer, max_timers,
}
use csc361_a.Sender.State.{Sender, Window, sender_machine}
use csc361_a.Sender.Marks.{
  Mark, mark, marks, find_mark, with_mark, mark_started, mark_stopped, is_acked, find_timer-marks,
  start_timer-marks, stop_timer-marks, add_timer-marks, with_mark-snoc, find_mark-snoc, sweep-marks,
}
use csc361_a.Sender.Timers.{
  sweeps, lock, start, start_locked, start_new, stop_locked, packet_ackd, is_ackd, set_timers, tick,
  clocks_of, count_lock,
}

-- The globals: the only data packet, the window, the datagrams to come and sent, and the marks.
pub record At (p : Packet) (w : Window) (xs : List (Option Bytes)) (sent : List Bytes)
    (ms : List Mark) (s : Sender) : Type 0 where
  pub data_lem : s.data_packets ≡ p ∷ []
  pub window_lem : s.window ≡ w
  pub inbox_lem : s.inbox ≡ xs
  pub sent_lem : s.sent ≡ sent
  pub marks_lem : marks s.timer_list ≡ ms

-- A change of the counters and the timers alone.
pub moved :
    {p : Packet} {w : Window} {xs : List (Option Bytes)} {sent : List Bytes} {ms ns : List Mark}
    {s u : Sender}
    → At p w xs sent ms s
    → u.data_packets ≡ s.data_packets
    → u.window ≡ s.window
    → u.inbox ≡ s.inbox
    → u.sent ≡ s.sent
    → marks u.timer_list ≡ ns
    → At p w xs sent ns u
moved a d v i t m = record {
  data_lem = d ∙ a.data_lem;
  window_lem = v ∙ a.window_lem;
  inbox_lem = i ∙ a.inbox_lem;
  sent_lem = t ∙ a.sent_lem;
  marks_lem = m;
}

abbrev set_list : List PacketTimer → Sender → Sender
set_list ts s = record s { timer_list = ts }

module _ (env : Env) (p : Packet) (w : Window) (xs : List (Option Bytes)) (sent : List Bytes)
    (ms : List Mark) where
  sweeps-At :
      (n : ℕ) → Total NeverEnds Never (At p w xs sent ms) (sweeps env n) (λ _. At p w xs sent ms)
  unfolding sweeps set_timers
  sweeps-At zero = Total-pure (λ s a. a)
  sweeps-At (suc n) = record {
    at = λ s a.
        let (us, swept, same) = sweep-marks env.clock s.clocks [] s.timer_list in
        let t : Sender = tick (clocks_of s.timer_list) (record s { timer_list = us }) in
        rw swept ((sweeps-At n).at t (moved a refl refl refl refl (same ∙ a.marks_lem)));
  }

  -- Whatever the polling thread does before the mutex is taken.
  pub lock-At : Total NeverEnds Never (At p w xs sent ms) (lock env) (λ _. At p w xs sent ms)
  unfolding lock
  lock-At = record {
    at = λ s a.
        (sweeps-At (env.polls s.locks)).at (count_lock s) (moved a refl refl refl refl a.marks_lem);
  }

  pub start-At :
      (a : ℤ) {m : Mark}
      → find_mark ms a ≡ some m
      → Total NeverEnds Never
          (At p w xs sent ms)
          (start env a)
          (λ _. At p w xs sent (with_mark a mark_started ms))
  unfolding start set_timers read_clock
  start-At a e = record {
    at = λ s i.
        let found = ap (λ l. find_mark l a) i.marks_lem ∙ e in
        let (t, is, _) = find_timer-marks s.timer_list a found in
        let (us, changed, same) = start_timer-marks s.timer_list a (env.clock s.clocks) found in
        let ran : start env a s ≡ ok tt (set_list us (tick 1 s)) = ground (arith, is, changed) in
        rw ran (moved i refl refl refl refl (same ∙ ap (with_mark a mark_started) i.marks_lem));
  }

  pub stop_locked-At :
      (a : ℤ) {m : Mark}
      → find_mark ms a ≡ some m
      → Total NeverEnds Never
          (At p w xs sent ms)
          (stop_locked env a)
          (λ _. At p w xs sent (with_mark a mark_stopped ms))
  unfolding stop_locked set_timers
  stop_locked-At a e = Total-bind lock-At (λ _. record {
    at = λ s i.
        let found = ap (λ l. find_mark l a) i.marks_lem ∙ e in
        let (us, changed, same) = stop_timer-marks s.timer_list a found in
        rw changed (moved i refl refl refl refl (same ∙ ap (with_mark a mark_stopped) i.marks_lem));
  })

  pub start_locked-At :
      (a : ℤ) {m : Mark}
      → find_mark ms a ≡ some m
      → Total NeverEnds Never
          (At p w xs sent ms)
          (start_locked env a)
          (λ _. At p w xs sent (with_mark a mark_started ms))
  unfolding start_locked
  start_locked-At a e = Total-bind lock-At (λ _. start-At a e)

  pub packet_ackd-At :
      (q : Packet) {m : Mark}
      → find_mark ms q.ackno ≡ some m
      → Total NeverEnds Never
          (At p w xs sent ms)
          (packet_ackd env q)
          (λ b s. (b ≡ is_acked m) × At p w xs sent ms s)
  unfolding packet_ackd
  packet_ackd-At q {m} e = Total-bind lock-At (λ _. record {
    at = λ s i.
        let found = ap (λ l. find_mark l q.ackno) i.marks_lem ∙ e in
        let (t, is, same) = find_timer-marks s.timer_list q.ackno found in
        subst
          (λ o.
            Meets NeverEnds Never (λ b u. (b ≡ is_acked m) × At p w xs sent ms u)
              ((elim o as (λ _. Action Sender Bool) [
                | none ↦ exit_with failure
                | some t ↦ pure (is_ackd t)
              ])
                s))
          (sym is) (ap is_acked same, i);
  })

-- create_timer, add_timer and start_timer: the timer is the last.
pub start_new-At :
    (env : Env) (p : Packet) (w : Window) (xs : List (Option Bytes)) (sent : List Bytes)
    (ms : List Mark) (a : ℤ)
    → find_mark ms a ≡ none
    → length ms < max_timers
    → Total NeverEnds Never
        (At p w xs sent ms)
        (start_new env a)
        (λ _. At p w xs sent (ms ++ record { number = a; unsent = false; running = true } ∷ []))
unfolding start_new read_clock set_timers create_timer eqb_ℤ
start_new-At env p w xs sent ms a fresh room =
    let new : Mark = record { number = a; unsent = false; running = false } in
    Total-bind (lock-At env p w xs sent ms) (λ _. record {
      at = λ s i.
          let t = create_timer a (pos (env.clock s.clocks)) in
          let (added, same) = add_timer-marks s.timer_list t (rw i.marks_lem room) in
          let ms' = ms ++ new ∷ [] in
          let u = set_list (s.timer_list ++ t ∷ []) (tick 1 s) in
          rw (added) (
            subst (λ l. Meets NeverEnds Never (λ _. At p w xs sent l) (start env a u))
              (with_mark-snoc ms a mark_started new fresh refl)
              ((start-At env p w xs sent ms' a (find_mark-snoc ms a new fresh refl)).at u
                (moved i refl refl refl refl (same ∙ ap (λ l. l ++ new ∷ []) i.marks_lem))));
    })
