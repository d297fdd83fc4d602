-- ===== src/Startup/Receiving.antt =====
-- main of src/rdpr.c.
pub mod Cases
use csc361_a.Base.{
  ℕ, ◌≡◌, refl, Bool, Option, none, some, List, [], ◌∷◌, Result, or_crash, or_exit, success,
}
use csc361_a.Base
use csc361_a.Base.Action.{Action, ◌>>=◌, ◌>>◌, call, modify, exit_with}
use csc361_a.Base.Int.{ℤ, pos}
use csc361_a.Base.Text.{Bytes, codes}
use csc361_a.Base.Decimal.{atoi}
use csc361_a.Socket.{Env}
use csc361_a.Receiver.{Receiver, receiver_machine, receiver_main}
use csc361_a.Startup.{Host, Address, Connection, setup_receiver}

-- The arguments behind the program's name.
pub record Arguments : Type 0 where
  pub receiver_ip : Bytes
  pub receiver_port : Bytes
  pub filename : Bytes

-- argc != 4
abbrev pub arguments : List Bytes → Option Arguments
arguments (_ ∷ receiver_ip ∷ receiver_port ∷ filename ∷ []) =
    some (record { receiver_ip = receiver_ip; receiver_port = receiver_port; filename = filename })
arguments _ = none

module _ (host : Host) where
  -- main with its arguments: the result is what the output file holds.
  unfoldable pub receive_file : Env → ℕ → Arguments → Action Receiver Bytes
  unfolding setup_receiver
  receive_file env fuel a = do
    receiver_port ← call (or_crash (atoi a.receiver_port))
    call (setup_receiver host a.receiver_ip receiver_port)
    modify (λ r. record r { data_packets = [] })
    receiver_main env fuel (host.output_fails a.filename)

  unfoldable pub main : Env → ℕ → List Bytes → Action Receiver Bytes
  unfolding receive_file
  main env fuel argv = elim (arguments argv) [
    | none ↦ exit_with success
    | some a ↦ receive_file env fuel a
  ]
