-- ===== src/Tests.antt =====
-- Small inputs on which the theorems are applied.
pub mod Packets
pub mod Timers
pub mod Receiving
pub mod Sending
pub mod Network
pub mod Programs
pub mod Dialogue
pub mod Printing
use csc361_a.Base.{ℕ, Bool, false, true, some, none, [], ◌∷◌, List, Option, refl}
use csc361_a.Base.Int.{ℤ, pos}
use csc361_a.Base.Text.{Bytes, zeros}
use csc361_a.Packet.{Heap, Packet, PacketHdr, magic_hdr, dat}
use csc361_a.Packet.Scan.{IsZeroed}
use csc361_a.Socket.{Env, Machine}

abbrev pub zero_heap : Heap
zero_heap = record { block = λ i n. zeros n; stray = some [] }

pub zero_heap-IsZeroed : IsZeroed zero_heap
zero_heap-IsZeroed i n = refl

-- The packet of a file "hi".
abbrev pub hi : Bytes
hi = 104 ∷ 105 ∷ []

abbrev pub hi_header : PacketHdr
hi_header = record {
  magic = magic_hdr;
  type = dat;
  seqno = pos 2;
  ackno = pos 4;
  winsize = pos 10240;
}

abbrev pub hi_packet : Packet
hi_packet = record { header = hi_header; payload = 104 ∷ 105 ∷ 0 ∷ []; payload_length = pos 2 }

abbrev pub quiet_env : Env
quiet_env = record {
  clock = λ k. k;
  heap = λ k. zero_heap;
  polls = λ k. 1;
  send_fails = λ k. false;
}

abbrev pub machine_of : List (Option Bytes) → Machine
machine_of inbox = record { clocks = 0; heaps = 0; locks = 0; inbox = inbox; sent = [] }
