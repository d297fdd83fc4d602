-- ===== src/Timer.antt =====
-- src/timer.c and src/timer.h: the list of packet timers. A timer list is the entries of the array
-- before its first null pointer. A pointer into it, as find_timer returns one, is the first entry
-- with the acknowledgement number asked for, and a write through it is `at_timer`.
pub mod Lookup
use mathlib.Core.Option
use csc361_a.Base.{
  ℕ, ◌/◌, ◌+◌, Bool, true, false, ◌&&◌, Option, none, some, List, [], ◌∷◌, ◌++◌, ltb, if◌then◌else◌,
  length, Result, ok, crash, or_exit,
}
use csc361_a.Base.Int.{ℤ, pos, ◌-ℤ◌, ltb_ℤ, eqb_ℤ}

abbrev pub timeout_us : ℕ
timeout_us = 100000

abbrev pub max_timers : ℕ
max_timers = 50000

pub record PacketTimer : Type 0 where
  pub pckt_ackno : ℤ
  pub time_sent : ℤ
  pub running : Bool
  pub timedout : Bool

unfoldable pub create_timer : ℤ → ℤ → PacketTimer
create_timer pckt_ackno time = record {
  pckt_ackno = pckt_ackno;
  time_sent = time;
  running = false;
  timedout = false;
}

-- A write past the end of the array is undefined.
unfoldable pub add_timer : List PacketTimer → PacketTimer → Result (List PacketTimer)
add_timer timer_list timer =
    if ltb (length timer_list) max_timers then ok (timer_list ++ timer ∷ []) else crash

unfoldable pub find_timer : List PacketTimer → ℤ → Option PacketTimer
find_timer [] ackno = none
find_timer (t ∷ ts) ackno = if eqb_ℤ ackno t.pckt_ackno then some t else find_timer ts ackno

-- A write through the pointer that `find_timer` returns; `none` if that is NULL.
unfoldable pub at_timer :
    ℤ → (PacketTimer → PacketTimer) → List PacketTimer → Option (List PacketTimer)
at_timer ackno f [] = none
at_timer ackno f (t ∷ ts) =
    if eqb_ℤ ackno t.pckt_ackno
    then some (f t ∷ ts)
    else Option.map (λ r. t ∷ r) (at_timer ackno f ts)

abbrev pub stopped : PacketTimer → PacketTimer
stopped t = record t { running = false }

abbrev pub started : ℤ → PacketTimer → PacketTimer
started now t = record t { time_sent = now; running = true; timedout = false }

unfoldable pub stop_timer : List PacketTimer → ℤ → Result (List PacketTimer)
stop_timer timer_list ackno = or_exit (at_timer ackno stopped timer_list)

-- `now` is what clock() returns.
unfoldable pub start_timer : ℤ → List PacketTimer → ℤ → Result (List PacketTimer)
start_timer ackno timer_list now = or_exit (at_timer ackno (started now) timer_list)

-- More than TIMEOUT_US/100 ticks since the timer was started, and still running.
abbrev pub is_overdue : ℤ → PacketTimer → Bool
is_overdue now t = ltb_ℤ (pos (timeout_us / 100)) (now -ℤ t.time_sent) && t.running

-- With no such timer, the message that is printed reads through the null pointer.
unfoldable pub timed_out : ℤ → List PacketTimer → ℤ → Result Bool
unfolding find_timer
timed_out ackno timer_list current_time = elim (find_timer timer_list ackno) [
  | none ↦ crash
  | some timer ↦ ok (is_overdue current_time timer)
]
