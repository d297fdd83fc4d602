-- ===== src/Sender/Timers.antt =====
-- The timers of src/rdps.c: the polling thread, and what the main thread does under timers_mutex.
use csc361_a.Base.{
  ℕ, zero, suc, ◌+◌, Bool, true, false, not, ◌&&◌, Option, none, some, List, [], ◌∷◌, ◌++◌,
  if◌then◌else◌, Result, failure,
}
use csc361_a.Base
use csc361_a.Base.Action.{Action, ◌>>=◌, ◌>>◌, call, gets, modify, pure, exit_with}
use csc361_a.Base.Int.{ℤ, pos, negsuc, eqb_ℤ}
use csc361_a.Packet.{Packet}
use csc361_a.Socket.{Env, read_clock}
use csc361_a.Timer.{
  PacketTimer, create_timer, add_timer, find_timer, stop_timer, start_timer, timed_out,
}
use csc361_a.Sender.State.{Sender, sender_machine}

-- The loop of poll_timers over the list: `past` has been passed, and `k` counts the calls of
-- clock(). A sweep holds the mutex.
unfoldable pub sweep : (ℕ → ℕ) → ℕ → List PacketTimer → List PacketTimer → Result (List PacketTimer)
sweep clock k past [] = Base.ok past
sweep clock k past (t ∷ rest) =
    Base.◌>>=◌ (timed_out t.pckt_ackno (past ++ t ∷ rest) (pos (clock k))) (λ late.
      sweep clock (k + 1) (past ++ (if late then record t { timedout = true } else t) ∷ []) rest)

-- clock() is also called by the other thread.
unfoldable pub clocks_of : List PacketTimer → ℕ
clocks_of [] = 0
clocks_of (t ∷ ts) = clocks_of ts + 1

abbrev pub tick : ℕ → Sender → Sender
tick n s = let w = s.machine in record s { machine = record w { clocks = w.clocks + n } }

abbrev pub count_lock : Sender → Sender
count_lock s = let w = s.machine in record s { machine = record w { locks = w.locks + 1 } }

unfoldable pub set_timers : List PacketTimer → Action Sender (Unit {0})
set_timers ts = modify (λ s. record s { timer_list = ts })

-- The time -1 stands for a packet that was never sent.
abbrev pub is_ackd : PacketTimer → Bool
is_ackd t = not t.running && not (eqb_ℤ t.time_sent (negsuc 0))

module _ (env : Env) where
  unfoldable pub sweeps : ℕ → Action Sender (Unit {0})
  unfolding sweep clocks_of set_timers
  sweeps zero = pure tt
  sweeps (suc n) = do
    s ← gets (λ s. s)
    ts ← call (sweep env.clock s.clocks [] s.timer_list)
    set_timers ts
    modify (tick (clocks_of s.timer_list))
    sweeps n

  -- pthread_mutex_lock(&timers_mutex): the other thread may have been at work.
  unfoldable pub lock : Action Sender (Unit {0})
  unfolding sweeps
  lock = do n ← gets (λ s. env.polls s.locks); modify count_lock; sweeps n

  -- start_timer(ackno, timer_list); clock() is called only for a timer that is found.
  unfoldable pub start : ℤ → Action Sender (Unit {0})
  unfolding set_timers
  start ackno = do
    ts ← gets (λ s. s.timer_list)
    elim (find_timer ts ackno) [
      | none ↦ exit_with failure
      | some _ ↦ do t ← read_clock env; ts' ← call (start_timer ackno ts (pos t)); set_timers ts'
    ]

  -- lock, start_timer, unlock
  unfoldable pub start_locked : ℤ → Action Sender (Unit {0})
  unfolding lock start
  start_locked ackno = do lock; start ackno

  -- create_timer(ackno, clock()), add_timer and start_timer under the mutex
  unfoldable pub start_new : ℤ → Action Sender (Unit {0})
  unfolding lock start set_timers
  start_new ackno = do
    lock
    t ← read_clock env
    ts ← gets (λ s. s.timer_list)
    ts' ← call (add_timer ts (create_timer ackno (pos t)))
    set_timers ts'
    start ackno

  unfoldable pub stop_locked : ℤ → Action Sender (Unit {0})
  unfolding lock set_timers
  stop_locked ackno = do
    lock
    ts ← gets (λ s. s.timer_list)
    ts' ← call (stop_timer ts ackno)
    set_timers ts'

  unfoldable pub packet_ackd : Packet → Action Sender Bool
  unfolding lock
  packet_ackd pckt = do
    lock
    ts ← gets (λ s. s.timer_list)
    elim (find_timer ts pckt.ackno) [ none ↦ exit_with failure | some t ↦ pure (is_ackd t) ]

  unfoldable pub all_acknowledged : List Packet → Action Sender Bool
  unfolding packet_ackd
  all_acknowledged [] = pure true
  all_acknowledged (p ∷ ps) = do
    b ← packet_ackd p
    elim b [ true ↦ all_acknowledged ps | false ↦ pure false ]

  unfoldable pub all_packets_acknowledged : Action Sender Bool
  unfolding all_acknowledged
  all_packets_acknowledged = do ps ← gets (λ s. s.data_packets); all_acknowledged ps

  -- The loop that makes a timer for each data packet, under one lock.
  unfoldable pub add_dat_timers : List Packet → Action Sender (Unit {0})
  unfolding set_timers
  add_dat_timers [] = pure tt
  add_dat_timers (p ∷ ps) = do
    ts ← gets (λ s. s.timer_list)
    ts' ← call (add_timer ts (create_timer p.ackno (negsuc 0)))
    set_timers ts'
    add_dat_timers ps
