-- ===== src/Tests/Timers.antt =====
-- The theorems on src/timer.c.
use csc361_a.Base.{◌≡◌, refl, List, [], ◌∷◌, ◌++◌, ok}
use csc361_a.Base.Int.{pos, ◌-ℤ◌, ltb_ℤ, eqb_ℤ}
use csc361_a.Timer.{
  PacketTimer, create_timer, at_timer, stop_timer, start_timer, stopped, started, timed_out,
}
use csc361_a.Timer.Lookup.{WritesFirst, stop_timer-WritesFirst, timed_out-start_timer}

abbrev timers : List PacketTimer
timers = create_timer (pos 1) (pos 0) ∷ create_timer (pos 4) (pos 0) ∷ []

abbrev with_started : List PacketTimer
with_started = create_timer (pos 1) (pos 0) ∷ started (pos 50) (create_timer (pos 4) (pos 0)) ∷ []

-- Two timers have the number 4.
abbrev doubled : List PacketTimer
doubled = create_timer (pos 1) (pos 0) ∷ with_started ++ timers

stop_timer-WritesFirst_example : WritesFirst (pos 4) stopped doubled (stop_timer doubled (pos 4))
stop_timer-WritesFirst_example = stop_timer-WritesFirst doubled (pos 4)

timed_out-start_timer_example :
    timed_out (pos 4) with_started (pos 2000) ≡ ok (ltb_ℤ (pos 1000) (pos 2000 -ℤ pos 50))
unfolding start_timer at_timer eqb_ℤ create_timer
timed_out-start_timer_example =
    timed_out-start_timer (pos 4) (pos 50) (pos 2000) timers {ts' = with_started} refl

abbrev more : List PacketTimer
more =
    create_timer (pos 1) (pos 0) ∷ create_timer (pos 4) (pos 0) ∷ create_timer (pos 9) (pos 0) ∷ []
