-- ===== src/Sender/Handling.antt =====
-- What handle_packet of src/rdps.c does with an ACK.
use csc361_a.Base.{◌+◌, ◌≡◌, refl, ap, sym, subst, false, some, List, arith}
use csc361_a.Base.Action.{ok, gets, call, ◌>>=◌, bind-ok, call-ok}
use csc361_a.Base.Int.{ℤ, eqb_ℤ_refl}
use csc361_a.Packet.{Packet, ack}
use csc361_a.Socket.{Env}
use csc361_a.Timer.{PacketTimer, find_timer, stop_timer, stopped}
use csc361_a.Timer.Lookup.{Writes-ok, stop_timer-Writes}
use csc361_a.Sender.State.{Sender}
use csc361_a.Sender.Timers.{lock, stop_locked, set_timers}
use csc361_a.Sender.Flags.{ok_state, find_timer-Flagged, lock-Flagged}
use csc361_a.Sender.Window.{handle_packet}

-- The timer for `a` before and after: it is stopped, and its time is kept.
pub record Stops (a : ℤ) (before after : List PacketTimer) : Type 0 where
  pub old : PacketTimer
  pub new : PacketTimer
  pub was_found : find_timer before a ≡ some old
  pub found : find_timer after a ≡ some new
  pub same_time : new.time_sent ≡ old.time_sent
  pub not_running : new.running ≡ false

stop_locked-Stops :
    (env : Env) (a : ℤ) (s u : Sender)
    → stop_locked env a s ≡ ok tt u
    → Stops a s.timer_list u.timer_list
unfolding stop_locked set_timers
stop_locked-Stops env a s u e =
    let (_, t, locked, rest) =
      bind-ok (lock env)
        (λ _. gets (λ s. s.timer_list) >>= λ ts. call (stop_timer ts a) >>= set_timers) s e in
    let (ts, v, got, set) = bind-ok (call (stop_timer t.timer_list a)) set_timers t rest in
    let (is, _) = call-ok (stop_timer t.timer_list a) got in
    let (x, before, after) =
      Writes-ok a stopped t.timer_list ts (stop_timer t.timer_list a)
        (stop_timer-Writes t.timer_list a) is in
    let (y, was, time, _) =
      find_timer-Flagged s.timer_list t.timer_list a x (lock-Flagged env s locked) before in
    let same : ts ≡ u.timer_list = ap (λ w. w.timer_list) (ok_state set) in
    record {
      old = y;
      new = stopped x;
      was_found = was;
      found = subst (λ l. find_timer l a ≡ some (stopped x)) same after;
      same_time = sym time;
      not_running = refl;
    }

-- If handling an ACK returns, the timer with the ACK's sequence number was in the list; it is
-- stopped and keeps its time, whatever the polling thread did before.
pub handle_packet-Stops :
    (env : Env) (p : Packet) (s u : Sender)
    → p.type ≡ ack
    → handle_packet env p s ≡ ok tt u
    → Stops p.seqno s.timer_list u.timer_list
unfolding handle_packet
handle_packet-Stops env p s u e h =
    stop_locked-Stops env p.seqno (record s { ack_packets_received = s.ack_packets_received + 1 }) u
      (ground (arith, e, eqb_ℤ_refl ack))
