-- ===== src/Network/Mains.antt =====
-- main of src/rdps.c and main of src/rdpr.c turn by turn, for a file that fits one packet.
use mathlib.Core.Path.{fun_ext}
use csc361_a.Base.{
  ℕ, suc, ◌≤◌, ◌<◌, ◌≡◌, refl, sym, ap, ◌∙◌, subst, false, true, some, List, [], length, inl, inr,
}
use csc361_a.Base.Int.{ℤ}
use csc361_a.Base.Text.{Bytes, Lacks}
use csc361_a.Base.Decimal.{atoi}
use csc361_a.Packet.{Heap, sep}
use csc361_a.Packet.Scan.{IsZeroed}
use csc361_a.Socket.{Env}
use csc361_a.Socket.Turn.{with_inbox}
use csc361_a.Sender.State.{Sender, sender_machine}
use csc361_a.Sender.Sendable.{IsTidy}
use csc361_a.Receiver.{Receiver, receiver_machine, receiver_main}
use csc361_a.Receiver.Reply.{IsBenign}
use csc361_a.Startup.{Host}
use csc361_a.Startup.Sending
use csc361_a.Startup.Sending.{send_file, transfer_file}
use csc361_a.Startup.Sending.Cases.{HasPorts}
use csc361_a.Startup.Sending.Cases as SendingCases
use csc361_a.Startup.Receiving
use csc361_a.Startup.Receiving.{receive_file}
use csc361_a.Startup.Receiving.Cases as ReceivingCases
use csc361_a.Startup.Receiving.Cases.{emptied, receive_file-cases}
use csc361_a.Network.Programs.{send_file-ready}
use csc361_a.Network.Dialogue.{Exchange, IsIdle, transfer_file-TakeTurns}

-- The sender's main, given a file that it can read and a socket that it can set up.
pub record CanSend (host : Host) (argv : List Bytes) (file : Bytes) : Type 0 where
  pub arguments : Sending.Arguments
  pub arguments_lem : Sending.arguments argv ≡ some arguments
  pub ports : HasPorts arguments
  pub ready : SendingCases.IsReady host arguments ports file
  pub scanned : (n : ℕ) → host.meets_word n ≡ true

-- The receiver's main, given a socket that it can set up and a file that it can write.
pub record CanReceive (host : Host) (argv : List Bytes) : Type 0 where
  pub arguments : Receiving.Arguments
  pub arguments_lem : Receiving.arguments argv ≡ some arguments
  pub port : ℤ
  pub port_lem : atoi arguments.receiver_port ≡ some port
  pub ready : ReceivingCases.IsReady host arguments port
  pub writes : host.output_fails arguments.filename ≡ false

main-transfer_file :
    (host : Host) (env : Env) (heaps : ℕ → Heap) (fuel : ℕ) (argv : List Bytes) (file : Bytes)
    (s : Sender)
    → CanSend host argv file
    → Sending.main host env heaps fuel argv s ≡ transfer_file env heaps fuel file s
unfolding Sending.main
main-transfer_file host env heaps fuel argv file s c =
    rw (Sending.main, c.arguments_lem)
      (send_file-ready host env heaps fuel c.arguments s c.ports file c.scanned c.ready)

main-receiver_main :
    (host : Host) (env : Env) (fuel : ℕ) (argv : List Bytes) (r : Receiver)
    → CanReceive host argv
    → Receiving.main host env fuel argv r ≡ receiver_main env fuel false (emptied r)
unfolding Receiving.main
main-receiver_main host env fuel argv r c =
    rw (Receiving.main, c.arguments_lem)
      (elim (receive_file-cases host env fuel c.arguments c.port r c.port_lem) [
        | inl (_, unready) ↦ absurd (unready c.ready)
        | inr (_, same) ↦ same ∙ ap (λ b. receiver_main env fuel b (emptied r)) c.writes
      ])

-- Both programs from main on, for a file of 1 to 1023 bytes without NUL and semicolon: on zeroed
-- memory with a short string without semicolon at both unset pointers, where no sendto fails and
-- the receiver's clock is within its limit, whatever the sender's clock and its polling thread do,
-- the two programs take turns. Given what the other has sent, each sends its next datagram, once,
-- and waits, until the receiver has written its file and the sender ends with exit(0). The sender's
-- datagrams are the texts of the SYN, of the data packet and of the FIN, and the receiver's are
-- their ACKs; the file written is one payload array, whose string is the file sent.
pub main-TakeTurns :
    (host host_r : Host) (env env_r : Env) (stray stray_r : Bytes) (heaps : ℕ → Heap)
    (fuel fuel_r : ℕ) (argv argv_r : List Bytes) (file : Bytes) (s : Sender) (r : Receiver)
    → IsTidy env stray
    → IsTidy env_r stray_r
    → IsBenign env_r stray_r
    → ((k : ℕ) → IsZeroed (heaps k))
    → ((k : ℕ) → env.send_fails k ≡ false)
    → CanSend host argv file
    → CanReceive host_r argv_r
    → 1 ≤ length file
    → length file < 1024
    → Lacks 0 file
    → Lacks sep file
    → IsIdle s
    → r.sent ≡ []
    → Exchange stray stray_r file
        (λ xs. Sending.main host env heaps (suc fuel) argv (with_inbox xs s))
        (λ xs. Receiving.main host_r env_r (suc (suc (suc fuel_r))) argv_r (with_inbox xs r))
main-TakeTurns host host_r env env_r stray stray_r heaps fuel fuel_r argv argv_r file s r tidy
      tidy_r benign z sends can_send can_receive h small clean text idle none_sent =
    let sender =
      fun_ext
        λ xs. main-transfer_file host env heaps (suc fuel) argv file (with_inbox xs s) can_send in
    let receiver = fun_ext λ xs.
      main-receiver_main host_r env_r (suc (suc (suc fuel_r))) argv_r (with_inbox xs r)
        can_receive in
    subst
      (λ sends.
        Exchange stray stray_r file sends
          (λ xs. Receiving.main host_r env_r (suc (suc (suc fuel_r))) argv_r (with_inbox xs r)))
      (sym sender)
      (subst
        (Exchange stray stray_r file
          (λ xs. transfer_file env heaps (suc fuel) file (with_inbox xs s)))
        (sym receiver)
        (transfer_file-TakeTurns env env_r stray stray_r heaps fuel fuel_r file s (emptied r) tidy
          tidy_r benign z sends h small clean text idle refl none_sent))
