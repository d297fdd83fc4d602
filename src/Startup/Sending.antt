-- ===== src/Startup/Sending.antt =====
-- main of src/rdps.c.
pub mod Cases
use csc361_a.Base.{
  ℕ, ◌+◌, ◌-◌, ◌==◌, ◌≡◌, ◌≢◌, refl, ap, ◌∙◌, not, Bool, true, false, Option, none, some, List, [],
  ◌∷◌, length, Result, or_crash, or_exit, success, failure, arith, ◌⊎◌, inl, inr,
}
use csc361_a.Base
use csc361_a.Base.Action.{Action, ok, exit, ◌>>=◌, ◌>>◌, call, modify, exit_with}
use csc361_a.Base.Int.{ℤ, pos, ◌+ℤ◌, ◌-ℤ◌}
use csc361_a.Base.Text.{Bytes}
use csc361_a.Base.Decimal.{atoi}
use csc361_a.Packet.{Packet, Heap, max_payload_size}
use csc361_a.Socket.{Env}
use csc361_a.Sender.State.{Sender, sender_machine}
use csc361_a.Sender.Packetize.{packetize, num_packets}
use csc361_a.Sender.Transfer.{initiate_transfer}
use csc361_a.Startup.{Host, Address, Connection, read_file, scan_array, setup_sender}

-- The arguments behind the program's name.
pub record Arguments : Type 0 where
  pub sender_ip : Bytes
  pub sender_port : Bytes
  pub receiver_ip : Bytes
  pub receiver_port : Bytes
  pub filename : Bytes

-- argc != 6
abbrev pub arguments : List Bytes → Option Arguments
arguments (_ ∷ sender_ip ∷ sender_port ∷ receiver_ip ∷ receiver_port ∷ filename ∷ []) =
    some (record {
      sender_ip = sender_ip;
      sender_port = sender_port;
      receiver_ip = receiver_ip;
      receiver_port = receiver_port;
      filename = filename;
    })
arguments _ = none

-- main after the setup; `heaps` is the memory that packetize gets.
unfoldable pub transfer_file : Env → (ℕ → Heap) → ℕ → Bytes → Action Sender (Unit {0})
transfer_file env heaps fuel bytes = do
  ps ←
      call
        (packetize heaps (num_packets (length bytes) max_payload_size + 1) max_payload_size bytes)
  modify (λ s. record s { data_packets = ps })
  initiate_transfer env fuel (pos (length bytes) +ℤ pos max_payload_size -ℤ pos 1)

module _ (host : Host) where
  -- main with its arguments
  unfoldable pub send_file : Env → (ℕ → Heap) → ℕ → Arguments → Action Sender (Unit {0})
  unfolding read_file scan_array setup_sender transfer_file
  send_file env heaps fuel a = do
    sender_port ← call (or_crash (atoi a.sender_port))
    receiver_port ← call (or_crash (atoi a.receiver_port))
    bytes ← call (read_file host a.filename)
    call (scan_array host (num_packets (length bytes) max_payload_size + 1))
    call (setup_sender host a.sender_ip sender_port a.receiver_ip receiver_port)
    transfer_file env heaps fuel bytes

  unfoldable pub main : Env → (ℕ → Heap) → ℕ → List Bytes → Action Sender (Unit {0})
  unfolding send_file
  main env heaps fuel argv = elim (arguments argv) [
    | none ↦ exit_with success
    | some a ↦ send_file env heaps fuel a
  ]
