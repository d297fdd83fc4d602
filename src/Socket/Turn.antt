-- ===== src/Socket/Turn.antt =====
-- A program that is given some datagrams, and what it has sent when it waits for the next.
use csc361_a.Base.{◌≡◌, Option, List, success}
use csc361_a.Base.Action.{Outcome, ok, exit, blocked}
use csc361_a.Base.Text.{Bytes}
use csc361_a.Socket.{HasMachine}

module _ {S : Type 0} ⦃m : HasMachine S⦄ where
  abbrev pub with_inbox : List (Option Bytes) → S → S
  with_inbox xs s = let w = m.get_machine s in m.set_machine (record w { inbox = xs }) s

  -- The call waits for a datagram, and these have been sent.
  abbrev pub WaitsWith : {A : Type 0} → List Bytes → Outcome S A → Type 0
  WaitsWith sent o = (t : S) × (o ≡ blocked t) × ((m.get_machine t).sent ≡ sent)

  -- The process has ended with exit(0), and these have been sent.
  abbrev pub EndsWith : {A : Type 0} → List Bytes → Outcome S A → Type 0
  EndsWith sent o = (t : S) × (o ≡ exit success t) × ((m.get_machine t).sent ≡ sent)

  -- The call has returned this, and these have been sent.
  abbrev pub ReturnsWith : {A : Type 0} → A → List Bytes → Outcome S A → Type 0
  ReturnsWith a sent o = (t : S) × (o ≡ ok a t) × ((m.get_machine t).sent ≡ sent)
