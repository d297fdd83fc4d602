-- ===== src/Sender/State.antt =====
-- The globals of src/rdps.c, and the window, which initiate_transfer passes to its callees.
use csc361_a.Base.{ℕ, List, refl}
use csc361_a.Base.Int.{ℤ}
use csc361_a.Packet.{Packet}
use csc361_a.Socket.{Machine, HasMachine}
use csc361_a.Timer.{PacketTimer}

-- struct window
pub record Window : Type 0 where
  pub size : ℤ
  pub occupied : ℤ
  pub base_seqno : ℤ

pub record Sender : Type 0 where
  pub machine : Machine
  pub open machine use *
  pub data_packets : List Packet
  pub timer_list : List PacketTimer
  pub window : Window
  pub bytes_sent : ℤ
  pub unique_bytes_sent : ℤ
  pub unique_dat_packets_sent : ℕ
  pub dat_packets_sent : ℕ
  pub syn_packets_sent : ℕ
  pub fin_packets_sent : ℕ
  pub ack_packets_received : ℕ
  pub rst_packets_received : ℕ

instance abbrev pub sender_machine : HasMachine Sender
sender_machine = record {
  get_machine = λ s. s.machine;
  set_machine = λ w s. record s { machine = w };
  get-set = λ w s. refl;
}
