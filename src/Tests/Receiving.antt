-- ===== src/Tests/Receiving.antt =====
-- The theorems on src/rdpr.c.
use csc361_a.Base.{
  ℕ, ◌≡◌, refl, true, false, some, none, List, [], ◌∷◌, ◌++◌, ◌+◌, ◌*◌, arith, length, Option,
}
use csc361_a.Base
use csc361_a.Base.Action.{ok}
use csc361_a.Base.Int.{pos, eqb_ℤ, ◌+ℤ◌}
use csc361_a.Base.Text.{Bytes, c_string}
use csc361_a.Packet.{Packet, PacketHdr, magic_hdr, fin, ack, construct_string, payload_string}
use csc361_a.Packet.RoundTrip.{IsSendable}
use csc361_a.Packet.Control.{control_text}
use csc361_a.Socket.{Env}
use csc361_a.Sender.Packetize.{packetize, num_packets}
use csc361_a.SmallFile.{packetize-receiver_main}
use csc361_a.Receiver.{Receiver, on_dat, run, receiver_main, store_data_packet, payload_arrays}
use csc361_a.Receiver.Store.{replaced, store_data_packet-snoc}
use csc361_a.Receiver.Reply.{IsBenign, IsAckFor, after_dat, on_dat_lem}
use csc361_a.Receiver.Delivery.{AllCarry, shipment, Delivers-shipment, storing, receiver_main_lem}
use csc361_a.Base.{inl}
use csc361_a.Receiver.Finishing.{Arrival, late, arrives, before, receiver_main-Finishes}
use csc361_a.Receiver.Halting.{Halts, run-Halts}
use csc361_a.Tests.{zero_heap, zero_heap-IsZeroed, hi, hi_packet, quiet_env, machine_of}
use csc361_a.Tests.Packets.{hi_header-IsHeader, hi_packet-IsSendable}

abbrev pub calm_env : Env
calm_env = record { clock = λ k. 7; heap = λ k. zero_heap; polls = λ k. 1; send_fails = λ k. false }

abbrev fin_header : PacketHdr
fin_header = record {
  magic = magic_hdr;
  type = fin;
  seqno = pos 4;
  ackno = pos 5;
  winsize = pos 10240;
}

abbrev fin_packet : Packet
fin_packet = record { header = fin_header; payload = 0 ∷ []; payload_length = pos 0 }

fin_packet-IsSendable : IsSendable fin_packet []
unfolding payload_string c_string
fin_packet-IsSendable = record {
  header_ok = record {
    magic_text = hi_header-IsHeader.magic_text;
    magic_string = hi_header-IsHeader.magic_string;
    magic_short = omega arith;
    type_int = omega arith;
    seqno_int = omega arith;
    ackno_int = omega arith;
    winsize_int = omega arith;
  };
  payload_is = refl;
  payload_text = tt;
  payload_fits = omega arith;
  full_payload = λ h. absurd (omega arith);
  length_int = omega arith;
}

abbrev pub receiver_of : List (Option Bytes) → Receiver
receiver_of inbox = record {
  machine = machine_of inbox;
  data_packets = [];
  dat_bytes_received = pos 0;
  unique_dat_bytes_received = pos 0;
  dat_packets_received = 0;
  unique_dat_packets_received = 0;
  syn_packets_received = 0;
  fin_packets_received = 0;
  rst_packets_received = 0;
  ack_packets_sent = 0;
}

pub calm-IsBenign : IsBenign calm_env []
calm-IsBenign = record {
  zeroed = λ k. zero_heap-IsZeroed;
  stray_is = λ k. refl;
  stray_string = tt;
  stray_short = omega arith;
  sends = λ k. refl;
  in_time = λ k. refl;
}

abbrev two_datagrams : List (Option Bytes)
two_datagrams = some (shipment hi_packet hi).datagram ∷ some (shipment fin_packet []).datagram ∷ []

receiver_main_lem_example :
    (r' : Receiver) × (qs : List Packet) × AllCarry (shipment hi_packet hi ∷ []) qs
    × (receiver_main calm_env 2 false (receiver_of two_datagrams)
        ≡ ok (payload_arrays (storing [] qs)) r')
    × (length (storing [] qs) ≡ 1)
    × (r'.sent ≡ control_text [] ack (pos 4) ∷ control_text [] ack (pos 5) ∷ [])
unfolding eqb_ℤ ◌+ℤ◌
receiver_main_lem_example =
    receiver_main_lem calm_env [] (shipment hi_packet hi ∷ []) (shipment fin_packet [])
      (receiver_of two_datagrams) calm-IsBenign
      ((Delivers-shipment hi_packet hi hi_packet-IsSendable refl refl).1, refl, tt)
      ((omega arith, omega arith), tt)
      (Delivers-shipment fin_packet [] fin_packet-IsSendable refl refl).1 refl
      (omega arith, omega arith) refl refl (omega arith)

on_dat_lem_example :
    (a : Packet) × (text : Bytes) × IsAckFor [] hi_packet a
    × (construct_string a ≡ Base.ok text)
    × (text ≡ control_text [] ack (pos 4))
    × (on_dat calm_env hi_packet (receiver_of [])
        ≡ ok tt (after_dat hi_packet text (receiver_of [])))
unfolding ◌+ℤ◌
on_dat_lem_example =
    on_dat_lem calm_env [] calm-IsBenign hi_packet (receiver_of []) refl (omega arith) (omega arith)
      (omega arith) (omega arith) (omega arith)

run-Halts_example : Halts (receiver_of two_datagrams) (run quiet_env 3 (receiver_of two_datagrams))
run-Halts_example = run-Halts quiet_env 3 (receiver_of two_datagrams) (omega arith)

store_data_packet-snoc_example :
    store_data_packet 10 hi_packet (hi_packet ∷ hi_packet ∷ [])
    ≡ Base.ok (replaced hi_packet (hi_packet ∷ []) ++ hi_packet ∷ [])
store_data_packet-snoc_example = store_data_packet-snoc 10 hi_packet (hi_packet ∷ [])

packetize-receiver_main_example :
    (p : Packet) × (q : Packet) × (text : Bytes) × (r' : Receiver) × (packetize
        (λ k. zero_heap)
        (num_packets 2 1024 + 1)
        1024
        hi
      ≡ Base.ok (p ∷ []))
    × (construct_string p ≡ Base.ok text)
    × (receiver_main calm_env 2 false
          (receiver_of (some text ∷ some (shipment fin_packet []).datagram ∷ []))
        ≡ ok (payload_arrays (q ∷ [])) r')
    × (payload_string q ≡ Base.ok hi)
    × (q.payload_length ≡ pos 2)
unfolding eqb_ℤ
packetize-receiver_main_example =
    packetize-receiver_main calm_env [] (λ k. zero_heap) hi (shipment fin_packet [])
      (receiver_of []) calm-IsBenign (λ k. zero_heap-IsZeroed) (omega arith) (omega arith)
      (ground arith) (ground arith)
      (Delivers-shipment fin_packet [] fin_packet-IsSendable refl refl).1 refl refl

-- A timeout, then the data packet twice.
abbrev arrivals : List Arrival
arrivals = late ∷ arrives (shipment hi_packet hi) ∷ late ∷ arrives (shipment hi_packet hi) ∷ []

abbrev late_inbox : List (Option Bytes)
late_inbox = before arrivals (some (shipment fin_packet []).datagram ∷ [])

receiver_main-Finishes_example :
    (u : Receiver) × (receiver_main calm_env 5 false (receiver_of late_inbox)
      ≡ ok (payload_arrays u.data_packets) u)
    × (u.inbox ≡ [])
    × (u.sent
        ≡ control_text [] ack (pos 4)
          ∷ control_text [] ack (pos 4)
          ∷ control_text [] ack (pos 5)
          ∷ [])
unfolding eqb_ℤ ◌+ℤ◌
receiver_main-Finishes_example =
    let delivers = (Delivers-shipment hi_packet hi hi_packet-IsSendable refl refl).1 in
    receiver_main-Finishes calm_env [] arrivals (shipment fin_packet []) [] (receiver_of late_inbox)
      calm-IsBenign (tt, ((delivers, inl refl), (tt, ((delivers, inl refl), tt))))
      ((omega arith, omega arith), ((omega arith, omega arith), tt))
      (Delivers-shipment fin_packet [] fin_packet-IsSendable refl refl).1 refl
      (omega arith, omega arith) refl (omega arith)
