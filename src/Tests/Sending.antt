-- ===== src/Tests/Sending.antt =====
-- The theorems on src/rdps.c.
use csc361_a.Base.{replicate}
use csc361_a.Base.{All, Every}
use csc361_a.Base.{
  ℕ, ◌≡◌, ◌≢◌, refl, true, false, some, none, List, [], ◌∷◌, ◌++◌, ◌+◌, arith, length, Option,
}
use csc361_a.Base
use csc361_a.Base.Text.{codes}
use csc361_a.Base.Int.{pos, eqb_ℤ, ◌-ℤ◌}
use csc361_a.Packet.{Packet, payload_string}
use csc361_a.Timer.{PacketTimer, find_timer, timed_out}
use csc361_a.Socket.{Machine}
use csc361_a.Sender.State.{Sender}
use csc361_a.Sender.Packetize.{packetize, num_packets}
use csc361_a.Sender.Plan.{plan}
use csc361_a.Sender.Cutting.{ArePacketsFor, packetize-plan}
use csc361_a.Sender.Numbers.{DistinctAcks, packetize_numbers, packetize_small, packetize_rest_empty}
use csc361_a.Sender.Timers.{
  sweep, all_packets_acknowledged, all_acknowledged, packet_ackd, lock, sweeps, clocks_of,
  set_timers,
}
use csc361_a.Packet.{magic_hdr, ack}
use csc361_a.Timer.{stop_timer, at_timer}
use csc361_a.Sender.Timers.{stop_locked}
use csc361_a.Sender.Window.{handle_packet}
use csc361_a.Sender.Handling.{Stops, handle_packet-Stops}
use csc361_a.Sender.Transfer.{initiate_transfer}
use csc361_a.Sender.Flags.{Flagged, sweep-Flagged}
use csc361_a.Sender.Acknowledged.{AllAckd, all_packets_acknowledged_lem}
use csc361_a.Sender.Ending.{Ends, initiate_transfer-Ends}
use csc361_a.Tests.{zero_heap, zero_heap-IsZeroed, hi, hi_packet, quiet_env, machine_of}

packetize_numbers_example :
    (ps : List Packet) × (packetize (λ k. zero_heap) (num_packets 2 1024 + 1) 1024 hi ≡ Base.ok ps)
    × ArePacketsFor (plan 0 [] hi) ps
    × (length ps ≡ num_packets 2 1024)
    × DistinctAcks (pos 1) ps
packetize_numbers_example =
    packetize_numbers (λ k. zero_heap) hi (λ k. zero_heap-IsZeroed) (omega arith) (omega arith)

packetize-plan_example :
    (ps : List Packet) × (packetize (λ k. zero_heap) 3 1024 hi ≡ Base.ok ps)
    × ArePacketsFor (plan 0 [] hi) ps
unfolding plan
packetize-plan_example =
    packetize-plan (λ k. zero_heap) 3 hi (λ k. zero_heap-IsZeroed) (omega arith) (omega arith)

packetize_small_example :
    (p : Packet) × (packetize (λ k. zero_heap) (num_packets 2 1024 + 1) 1024 hi ≡ Base.ok (p ∷ []))
    × (payload_string p ≡ Base.ok hi)
    × (p.payload_length ≡ pos 2)
    × (p.seqno ≡ pos 2)
packetize_small_example =
    packetize_small (λ k. zero_heap) hi (λ k. zero_heap-IsZeroed) (omega arith) (omega arith)
      (ground arith)

-- A file that is cut into three packets.
abbrev long_file : List ℕ
long_file = replicate 2500 65

packetize_rest_empty_example :
    (p : Packet) × (ps : List Packet) × (packetize
        (λ k. zero_heap)
        (num_packets 2500 1024 + 1)
        1024
        long_file
      ≡ Base.ok (p ∷ ps))
    × (length (p ∷ ps) ≡ 3)
    × All (λ q. payload_string q ≡ Base.ok []) ps
unfolding num_packets
packetize_rest_empty_example =
    packetize_rest_empty (λ k. zero_heap) long_file (λ k. zero_heap-IsZeroed) (omega arith)
      (omega arith)

-- The SYN's timer, running for too long, and that of the packet, stopped.
abbrev acked_timers : List PacketTimer
acked_timers =
    record { pckt_ackno = pos 1; time_sent = pos 0; running = true; timedout = false }
    ∷ record { pckt_ackno = pos 4; time_sent = pos 9; running = false; timedout = false }
    ∷ []

abbrev flagged_timers : List PacketTimer
flagged_timers =
    record { pckt_ackno = pos 1; time_sent = pos 0; running = true; timedout = true }
    ∷ record { pckt_ackno = pos 4; time_sent = pos 9; running = false; timedout = false }
    ∷ []

sweep-Flagged_example : Flagged acked_timers flagged_timers
unfolding sweep timed_out eqb_ℤ ◌-ℤ◌
sweep-Flagged_example = sweep-Flagged (λ k. k + 5000) 0 [] acked_timers {ts = flagged_timers} refl

abbrev pub sender_with : Machine → List PacketTimer → Sender
sender_with w timers = record {
  machine = w;
  data_packets = hi_packet ∷ [];
  timer_list = timers;
  window = record { size = pos 10240; occupied = pos 0; base_seqno = pos 2 };
  bytes_sent = pos 0;
  unique_bytes_sent = pos 0;
  unique_dat_packets_sent = 0;
  dat_packets_sent = 0;
  syn_packets_sent = 0;
  fin_packets_sent = 0;
  ack_packets_received = 0;
  rst_packets_received = 0;
}

abbrev after_check : Machine
after_check = record { clocks = 2; heaps = 0; locks = 1; inbox = []; sent = [] }

all_packets_acknowledged_lem_example : AllAckd acked_timers (hi_packet ∷ [])
unfolding all_packets_acknowledged all_acknowledged packet_ackd lock sweeps sweep timed_out
    clocks_of set_timers find_timer eqb_ℤ ◌-ℤ◌
all_packets_acknowledged_lem_example =
    all_packets_acknowledged_lem quiet_env (sender_with (machine_of []) acked_timers)
      (sender_with after_check acked_timers) refl

-- The ACKs for the SYN, the data packet and the FIN.
abbrev acked_sender : Sender
acked_sender =
    sender_with
      (machine_of (
        some (codes "UVicCSc361;1;1;2;10240;;0;")
        ∷ some (codes "UVicCSc361;1;4;5;10240;;0;")
        ∷ some (codes "UVicCSc361;1;3;4;10240;;0;")
        ∷ []))
      []

initiate_transfer-Ends_example :
    Ends (pos 2) acked_sender (initiate_transfer quiet_env 4 (pos 2) acked_sender)
initiate_transfer-Ends_example =
    initiate_transfer-Ends quiet_env 4 (pos 2) acked_sender (omega arith)

-- An ACK with the number of the packet's timer, which is running.
abbrev ack_packet : Packet
ack_packet = record {
  header = record {
    magic = magic_hdr;
    type = ack;
    seqno = pos 4;
    ackno = pos 5;
    winsize = pos 10240;
  };
  payload = 0 ∷ [];
  payload_length = pos 0;
}

abbrev running_timers : List PacketTimer
running_timers =
    record { pckt_ackno = pos 4; time_sent = pos 9; running = true; timedout = false } ∷ []

abbrev stopped_timers : List PacketTimer
stopped_timers =
    record { pckt_ackno = pos 4; time_sent = pos 9; running = false; timedout = false } ∷ []

abbrev after_ack : Sender
after_ack =
    record (sender_with (record { clocks = 1; heaps = 0; locks = 1; inbox = []; sent = [] })
      stopped_timers) { ack_packets_received = 1 }

handle_packet-Stops_example : Stops (pos 4) running_timers stopped_timers
unfolding handle_packet stop_locked lock sweeps sweep timed_out clocks_of set_timers find_timer
    eqb_ℤ ◌-ℤ◌ stop_timer at_timer
handle_packet-Stops_example =
    handle_packet-Stops quiet_env ack_packet (sender_with (machine_of []) running_timers) after_ack
      refl refl
