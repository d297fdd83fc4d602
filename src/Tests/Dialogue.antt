-- ===== src/Tests/Dialogue.antt =====
-- The theorems on the two programs turn by turn.
use csc361_a.Base.{refl, none, some, [], ◌∷◌, arith}
use csc361_a.Base.Int.{pos, ◌+ℤ◌}
use csc361_a.Base.Text.{c_string}
use csc361_a.Base.Decimal.{itoa, atoi}
use csc361_a.Packet.{syn, fin, ack, construct_string, payload_string}
use csc361_a.Packet.Control.{control_text}
use csc361_a.Socket.Turn.{with_inbox, WaitsWith, EndsWith}
use csc361_a.Sender.State.{sender_machine}
use csc361_a.Sender.Sendable.{IsTidy}
use csc361_a.Sender.Transfer.{initiate_transfer}
use csc361_a.Sender.Exchange.Answered.{Acks}
use csc361_a.Sender.Exchange.Whole.{IsReady, initiate_transfer-exchange}
use csc361_a.Sender.Exchange.Retries.{initiate_transfer-retries}
use csc361_a.Receiver.{receiver_machine}
use csc361_a.Receiver.Delivery.{Shipment}
use csc361_a.Startup.Sending
use csc361_a.Startup.Receiving
use csc361_a.Network.Shipments.{control_shipment, dat_shipment, Acks-control}
use csc361_a.Network.Dialogue.{Exchange}
use csc361_a.Network.Mains.{CanSend, CanReceive, main-TakeTurns}
use csc361_a.Tests.{zero_heap-IsZeroed, hi, hi_packet, quiet_env}
use csc361_a.Tests.Receiving.{receiver_of, calm_env, calm-IsBenign}
use csc361_a.Tests.Network.{at_start, quiet_env-IsTidy}
use csc361_a.Tests.Programs.{
  host, sender_arguments, sender_arguments-HasPorts, host-IsReady, sender_argv, receiver_argv,
  zero_heaps,
}

calm_env-IsTidy : IsTidy calm_env []
calm_env-IsTidy = record {
  zeroed = λ k. zero_heap-IsZeroed;
  stray_is = λ k. refl;
  stray_string = tt;
  stray_plain = tt;
  stray_short = omega arith;
}

host-CanSend : CanSend host sender_argv hi
host-CanSend = record {
  arguments = sender_arguments;
  arguments_lem = refl;
  ports = sender_arguments-HasPorts;
  ready = host-IsReady;
  scanned = λ n. refl;
}

host-CanReceive : CanReceive host receiver_argv
unfolding atoi
host-CanReceive = record {
  arguments = _;
  arguments_lem = refl;
  port = pos 81;
  port_lem = refl;
  ready = record {
    connection = record {
      adr_sender = record { ip = 13; port = 2699 };
      adr_receiver = record { ip = 8; port = 81 };
    };
    connected_lem = record {
      socket_lem = refl;
      setsockopt_lem = refl;
      sender_lem = refl;
      receiver_lem = refl;
      sender_port_lem = refl;
      receiver_port_lem = refl;
      bind_lem = refl;
    };
  };
  writes = refl;
}

main-TakeTurns_example :
    Exchange [] [] hi
      (λ xs. Sending.main host quiet_env zero_heaps 3 sender_argv (with_inbox xs at_start))
      (λ xs. Receiving.main host calm_env 5 receiver_argv (with_inbox xs (receiver_of [])))
main-TakeTurns_example =
    main-TakeTurns host host quiet_env calm_env [] [] zero_heaps 2 2 sender_argv receiver_argv hi
      at_start (receiver_of []) quiet_env-IsTidy calm_env-IsTidy calm-IsBenign
      (λ k. zero_heap-IsZeroed) (λ k. refl) host-CanSend host-CanReceive (omega arith) (omega arith)
      (ground arith) (ground arith) (record { nothing_sent = refl }) refl

at_start-IsReady : IsReady hi_packet (dat_shipment hi).datagram (pos 2) at_start
unfolding construct_string payload_string c_string itoa ◌+ℤ◌
at_start-IsReady = record {
  only = refl;
  nothing_sent = refl;
  spells = refl;
  not_syn = λ e. cc;
  not_dat = λ e. cc;
  not_both = λ e. cc;
}

-- The receiver's ACKs for the SYN, the data packet and the FIN.
abbrev syn_ack : Shipment
syn_ack = control_shipment [] ack (pos 1)

abbrev dat_ack : Shipment
dat_ack = control_shipment [] ack (pos 4)

abbrev fin_ack : Shipment
fin_ack = control_shipment [] ack (pos 3)

syn_ack-Acks : Acks (pos 1) syn_ack
unfolding ◌+ℤ◌
syn_ack-Acks =
    Acks-control calm_env [] (pos 1) (pos 1) calm_env-IsTidy (omega arith) (omega arith) refl

dat_ack-Acks : Acks (pos 4) dat_ack
unfolding ◌+ℤ◌
dat_ack-Acks =
    Acks-control calm_env [] (pos 4) (pos 4) calm_env-IsTidy (omega arith) (omega arith) refl

fin_ack-Acks : Acks (pos 2 +ℤ pos 1) fin_ack
unfolding ◌+ℤ◌
fin_ack-Acks =
    Acks-control calm_env [] (pos 3) (pos 3) calm_env-IsTidy (omega arith) (omega arith) refl

initiate_transfer-exchange_example :
    WaitsWith
      (control_text [] syn (pos 0) ∷ [])
      (initiate_transfer quiet_env 3 (pos 2) (with_inbox [] at_start))
    × WaitsWith
        (control_text [] syn (pos 0) ∷ (dat_shipment hi).datagram ∷ [])
        (initiate_transfer quiet_env 3 (pos 2) (with_inbox (some syn_ack.datagram ∷ []) at_start))
    × WaitsWith
        (control_text [] syn (pos 0)
          ∷ (dat_shipment hi).datagram
          ∷ control_text [] fin (pos 2)
          ∷ [])
        (initiate_transfer quiet_env 3
          (pos 2)
          (with_inbox (some syn_ack.datagram ∷ some dat_ack.datagram ∷ []) at_start))
    × EndsWith
        (control_text [] syn (pos 0)
          ∷ (dat_shipment hi).datagram
          ∷ control_text [] fin (pos 2)
          ∷ [])
        (initiate_transfer quiet_env 3 (pos 2) (
          with_inbox
            (some syn_ack.datagram ∷ some dat_ack.datagram ∷ some fin_ack.datagram ∷ [])
            at_start))
initiate_transfer-exchange_example =
    initiate_transfer-exchange quiet_env [] 2 hi_packet (dat_shipment hi).datagram (pos 2) at_start
      syn_ack dat_ack fin_ack quiet_env-IsTidy (λ k. refl) at_start-IsReady syn_ack-Acks
      dat_ack-Acks fin_ack-Acks

-- Two timeouts before the SYN's ACK.
initiate_transfer-retries_example :
    WaitsWith
      (control_text [] syn (pos 0) ∷ control_text [] syn (pos 0) ∷ control_text [] syn (pos 0) ∷ [])
      (initiate_transfer calm_env 4 (pos 2) (with_inbox (none ∷ none ∷ []) at_start))
    × WaitsWith
        (control_text [] syn (pos 0)
          ∷ control_text [] syn (pos 0)
          ∷ control_text [] syn (pos 0)
          ∷ (dat_shipment hi).datagram
          ∷ [])
        (initiate_transfer calm_env 4
          (pos 2)
          (with_inbox (none ∷ none ∷ some syn_ack.datagram ∷ []) at_start))
initiate_transfer-retries_example =
    initiate_transfer-retries calm_env [] 2 1 hi_packet (dat_shipment hi).datagram (pos 2) at_start
      syn_ack calm_env-IsTidy (λ k. refl) (λ k. refl) at_start-IsReady syn_ack-Acks
