-- ===== src/Sender/Invariant/Timers.antt =====
-- The environment, the clock and the timers of src/rdps.c under a condition that they leave alone.
use csc361_a.Base.{
  ℕ, zero, suc, ◌+◌, ◌≡◌, true, false, refl, Bool, Option, none, some, List, [], ◌∷◌, failure,
  Result, if◌then◌else◌,
}
use csc361_a.Base.Action
use csc361_a.Base.Action.{Action, Outcome, ◌>>=◌, call, gets, modify, pure, exit_with, blocked}
use csc361_a.Base.Triple.{
  Holds, Triple, Ensures, Triple-bind, Triple-pure, Triple-gets, Triple-modify, Triple-exit,
  Ensures-call,
}
use csc361_a.Base.Int.{ℤ, pos, negsuc}
use csc361_a.Base.Text.{Bytes}
use csc361_a.Packet.{Packet, Heap}
use csc361_a.Packet.Parse.{receive_packet}
use csc361_a.Socket.{Env, read_clock, next_heap, next_datagram, receive, check_time, is_too_late}
use csc361_a.Timer.{PacketTimer, create_timer, add_timer, find_timer, stop_timer, start_timer}
use csc361_a.Sender.State.{Sender, sender_machine}
use csc361_a.Sender.Timers.{
  tick, count_lock, sweep, sweeps, clocks_of, lock, set_timers, start, start_locked, start_new,
  stop_locked, packet_ackd, is_ackd, all_acknowledged, all_packets_acknowledged, add_dat_timers,
}
use csc361_a.Sender.Invariant.{IsCalm}

module _ {I : Sender → Type 0} (c : IsCalm I) (env : Env) where
  pub Ensures-read_clock : Ensures I (read_clock env)
  unfolding read_clock
  Ensures-read_clock = record {
    at = λ s i. let w = s.machine in c.machine_lem s (record w { clocks = w.clocks + 1 }) i refl;
  }

  pub Triple-next_heap : Triple I I (next_heap env) (λ h s. I s × (k : ℕ) × (env.heap k ≡ h))
  unfolding next_heap
  Triple-next_heap = record {
    at = λ s i.
        let w = s.machine in
        (c.machine_lem s (record w { heaps = w.heaps + 1 }) i refl, w.heaps, refl);
  }

  pub Ensures-check_time : Ensures I (check_time env)
  unfolding check_time
  Ensures-check_time = Triple-bind Ensures-read_clock (λ t. late (is_too_late t))
    where
      late : (b : Bool) → Ensures I (if b then exit_with {S = Sender} failure else pure tt)
      late true = Triple-exit (λ s i. i)
      late false = Triple-pure (λ s i. i)

  Holds-next_datagram :
      (s : Sender) (l : List (Option Bytes))
      → I s
      → Holds I
          (λ _. I)
          (let w = s.machine in
            elim l as (λ _. Outcome Sender (Option Bytes)) [
              | [] ↦ blocked s
              | d ∷ rest ↦ Action.ok d (record s { machine = record w { inbox = rest } })
            ])
  Holds-next_datagram s [] i = i
  Holds-next_datagram s (d ∷ rest) i =
      let w = s.machine in c.machine_lem s (record w { inbox = rest }) i refl

  pub Ensures-receive : Ensures I (receive env)
  unfolding receive next_datagram
  Ensures-receive =
      Triple-bind (record { at = λ s i. Holds-next_datagram s s.inbox i })
        (λ d. Triple-bind Triple-next_heap (λ h. received h d))
    where
      received :
          (h : Heap) (d : Option Bytes)
          → Triple I (λ s. I s × (k : ℕ) × (env.heap k ≡ h)) (call (receive_packet h d)) (λ _. I)
      received h d = record {
        at = λ s (i, _, _). (Ensures-call {I = I} (receive_packet h d)).at s i;
      }

  pub Ensures-set_timers : (ts : List PacketTimer) → Ensures I (set_timers ts)
  unfolding set_timers
  Ensures-set_timers ts = Triple-modify (λ s i. c.timers_lem s ts i)

  Ensures-sweeps : (n : ℕ) → Ensures I (sweeps env n)
  unfolding sweeps
  Ensures-sweeps zero = Triple-pure (λ s i. i)
  Ensures-sweeps (suc n) = Triple-bind (Triple-gets {Q = λ _. I} {g = λ s. s} (λ s i. i)) (λ s.
      Triple-bind (Ensures-call (sweep env.clock s.clocks [] s.timer_list)) (λ ts.
        Triple-bind (Ensures-set_timers ts) (λ _.
          Triple-bind
            (Triple-modify {Q = λ _. I} {g = tick (clocks_of s.timer_list)} (λ t i.
              let w = t.machine in
              c.machine_lem t (record w { clocks = w.clocks + clocks_of s.timer_list }) i refl))
            (λ _. Ensures-sweeps n))))

  pub Ensures-lock : Ensures I (lock env)
  unfolding lock
  Ensures-lock =
      Triple-bind (Triple-gets {Q = λ _. I} {g = λ s. env.polls s.locks} (λ s i. i)) (λ n.
        Triple-bind
          (Triple-modify {Q = λ _. I} {g = count_lock}
            (λ t i. let w = t.machine in c.machine_lem t (record w { locks = w.locks + 1 }) i refl))
          (λ _. Ensures-sweeps n))

  -- A read of the timers.
  Ensures-timers : Ensures I (gets (λ s. s.timer_list))
  Ensures-timers = Triple-gets (λ s i. i)

  -- A call that computes the new list.
  Ensures-update : (r : Result (List PacketTimer)) → Ensures I (call r >>= set_timers)
  Ensures-update r = Triple-bind (Ensures-call r) Ensures-set_timers

  pub Ensures-start : (a : ℤ) → Ensures I (start env a)
  unfolding start
  Ensures-start a = Triple-bind Ensures-timers (λ ts. found (find_timer ts a) ts)
    where
      found :
          (o : Option PacketTimer) (ts : List PacketTimer)
          → Ensures I (elim o as (λ _. Action Sender (Unit {0})) [
            | none ↦ exit_with failure
            | some _ ↦ do t ← read_clock env; ts' ← call (start_timer a ts (pos t)); set_timers ts'
          ])
      found none ts = Triple-exit (λ s i. i)
      found (some _) ts =
          Triple-bind Ensures-read_clock (λ t. Ensures-update (start_timer a ts (pos t)))

  pub Ensures-start_locked : (a : ℤ) → Ensures I (start_locked env a)
  unfolding start_locked
  Ensures-start_locked a = Triple-bind Ensures-lock (λ _. Ensures-start a)

  pub Ensures-start_new : (a : ℤ) → Ensures I (start_new env a)
  unfolding start_new
  Ensures-start_new a = Triple-bind Ensures-lock (λ _. Triple-bind Ensures-read_clock (λ t.
      Triple-bind Ensures-timers (λ ts.
        Triple-bind (Ensures-call (add_timer ts (create_timer a (pos t))))
          (λ ts'. Triple-bind (Ensures-set_timers ts') (λ _. Ensures-start a)))))

  pub Ensures-stop_locked : (a : ℤ) → Ensures I (stop_locked env a)
  unfolding stop_locked
  Ensures-stop_locked a =
      Triple-bind Ensures-lock
        (λ _. Triple-bind Ensures-timers (λ ts. Ensures-update (stop_timer ts a)))

  pub Ensures-packet_ackd : (p : Packet) → Ensures I (packet_ackd env p)
  unfolding packet_ackd
  Ensures-packet_ackd p =
      Triple-bind Ensures-lock
        (λ _. Triple-bind Ensures-timers (λ ts. found (find_timer ts p.ackno)))
    where
      found :
          (o : Option PacketTimer)
          → Ensures I (elim o as (λ _. Action Sender Bool) [
            | none ↦ exit_with failure
            | some t ↦ pure (is_ackd t)
          ])
      found none = Triple-exit (λ s i. i)
      found (some t) = Triple-pure (λ s i. i)

  pub Ensures-add_dat_timers : (ps : List Packet) → Ensures I (add_dat_timers env ps)
  unfolding add_dat_timers
  Ensures-add_dat_timers [] = Triple-pure (λ s i. i)
  Ensures-add_dat_timers (p ∷ ps) = Triple-bind Ensures-timers (λ ts.
      Triple-bind (Ensures-call (add_timer ts (create_timer p.ackno (negsuc 0))))
        (λ ts'. Triple-bind (Ensures-set_timers ts') (λ _. Ensures-add_dat_timers ps)))

  pub Ensures-all_acknowledged : (ps : List Packet) → Ensures I (all_acknowledged env ps)
  unfolding all_acknowledged
  Ensures-all_acknowledged [] = Triple-pure (λ s i. i)
  Ensures-all_acknowledged (p ∷ ps) =
      Triple-bind (Ensures-packet_ackd p) (λ b. next b (Ensures-all_acknowledged ps))
    where
      next :
          (b : Bool)
          → Ensures I (all_acknowledged env ps)
          → Ensures I (elim b as (λ _. Action Sender Bool) [
            | true ↦ all_acknowledged env ps
            | false ↦ pure false
          ])
      next true k = k
      next false k = Triple-pure (λ s i. i)

  pub Ensures-all_packets_acknowledged : Ensures I (all_packets_acknowledged env)
  unfolding all_packets_acknowledged
  Ensures-all_packets_acknowledged =
      Triple-bind (Triple-gets {Q = λ _. I} {g = λ s. s.data_packets} (λ s i. i))
        Ensures-all_acknowledged
