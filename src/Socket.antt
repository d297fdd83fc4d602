-- ===== src/Socket.antt =====
-- What both programs do with the socket, the clock and the memory allocator. What these give is
-- the environment's: a parameter, read in the order of the calls.
pub mod Frame
pub mod Turn
use csc361_a.Base.{
  ℕ, zero, suc, success, ◌+◌, ◌/◌, Bool, Option, List, [], ◌∷◌, ◌++◌, ◌≡◌, leb, if◌then◌else◌,
  length, failure,
}
use csc361_a.Base.Action.{Action, ok, exit, blocked, ◌>>=◌, call, pure, exit_with}
use csc361_a.Base.Int.{ℤ, pos, negsuc}
use csc361_a.Base.Text.{Bytes}
use csc361_a.Packet.{Packet, Heap, construct_string}
use csc361_a.Packet.Parse.{receive_packet}

-- `clock`: what the calls of clock() return. `heap`: what malloc gives in the calls that allocate.
-- `polls`: how many sweeps of the timer thread come between two critical sections of the main
-- thread. `send_fails`: whether a sendto fails.
pub record Env : Type 0 where
  pub clock : ℕ → ℕ
  pub heap : ℕ → Heap
  pub polls : ℕ → ℕ
  pub send_fails : ℕ → Bool

-- How far the environment has been read, what recvfrom will give (`none` is a timeout), and the
-- datagrams sent.
pub record Machine : Type 0 where
  pub clocks : ℕ
  pub heaps : ℕ
  pub locks : ℕ
  pub inbox : List (Option Bytes)
  pub sent : List Bytes

-- A program whose globals hold a machine.
pub record HasMachine (S : Type 0) : Type 0 where
  pub get_machine : S → Machine
  pub set_machine : Machine → S → S
  pub get-set : (w : Machine) (s : S) → get_machine (set_machine w s) ≡ w

-- CLOCKS_PER_SEC, fixed by POSIX
abbrev pub clocks_per_sec : ℕ
clocks_per_sec = 1000000

-- SENDER_TIMEOUT_S and RECEIVER_TIMEOUT_S
abbrev pub timeout_s : ℕ
timeout_s = 300

abbrev pub is_too_late : ℕ → Bool
is_too_late t = leb timeout_s (t / clocks_per_sec)

-- The same in both programs: -1 is for an RST and -2 for a transfer that took too long.
abbrev pub terminate : {S A : Type 0} → ℤ → Action S A
terminate (negsuc zero) = exit_with failure
terminate (negsuc (suc zero)) = exit_with failure
terminate (negsuc (suc (suc code))) = exit_with success
terminate (pos code) = exit_with success

module _ {S : Type 0} ⦃m : HasMachine S⦄ (env : Env) where
  -- clock()
  unfoldable pub read_clock : Action S ℕ
  read_clock s =
      let w = m.get_machine s in
      ok (env.clock w.clocks) (m.set_machine (record w { clocks = w.clocks + 1 }) s)

  -- The memory that the next call gets from malloc.
  unfoldable pub next_heap : Action S Heap
  next_heap s =
      let w = m.get_machine s in
      ok (env.heap w.heaps) (m.set_machine (record w { heaps = w.heaps + 1 }) s)

  unfoldable pub post : Bytes → Action S (Unit {0})
  post text s =
      let w = m.get_machine s in
      if env.send_fails (length w.sent)
      then exit failure s
      else ok tt (m.set_machine (record w { sent = w.sent ++ text ∷ [] }) s)

  unfoldable pub send_packet : Packet → Action S (Unit {0})
  unfolding post
  send_packet pckt = do text ← call (construct_string pckt); post text

  unfoldable pub next_datagram : Action S (Option Bytes)
  next_datagram s =
      let w = m.get_machine s in
      elim w.inbox [
        | [] ↦ blocked s
        | d ∷ rest ↦ ok d (m.set_machine (record w { inbox = rest }) s)
      ]

  unfoldable pub receive : Action S (Option Packet)
  unfolding next_datagram next_heap
  receive = do d ← next_datagram; h ← next_heap; call (receive_packet h d)

-- Whether the clock has passed the limit.
unfoldable pub check_time : {S : Type 0} ⦃m : HasMachine S⦄ → Env → Action S (Unit {0})
unfolding read_clock
check_time env = do t ← read_clock env; if is_too_late t then terminate (negsuc 1) else pure tt
