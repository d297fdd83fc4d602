-- ===== src/Sender/Packetize.antt =====
-- packetize of src/rdps.c.

use csc361_a.Base.{
  ℕ, ◌+◌, ◌-◌, ◌*◌, ◌/◌, List, [], ◌∷◌, ltb, ◌==◌, if◌then◌else◌, Result, ok, crash, ◌>>=◌, length,
  set,
}
use csc361_a.Base.Int.{ℤ, pos, ◌+ℤ◌, ◌-ℤ◌}
use csc361_a.Base.Text.{Bytes}
use csc361_a.Packet.{Packet, Heap, dat, create_packet, add_packet}

-- pckt_data[i] = b
unfoldable pub store_byte : Bytes → ℕ → ℕ → Result Bytes
store_byte m i b = if ltb i (length m) then ok (set m i b) else crash

-- The variables of the loop. `read` is bytes_read.
pub record Filling : Type 0 where
  pub read : ℕ
  pub pckt_data : Bytes
  pub packets : List Packet

-- `heaps k` is the memory of the calls made while there are `k` packets, and `size` the number of
-- entries of data_packets.
module _ (heaps : ℕ → Heap) (size payload_size : ℕ) where
  -- malloc(sizeof(pckt_data)*payload_size)
  unfoldable pub new_pckt_data : List Packet → Bytes
  new_pckt_data packets = (heaps (length packets)).block 5 (8 * payload_size)

  -- create_packet and add_packet
  unfoldable pub emit : Filling → ℤ → Result (List Packet)
  emit v seqno = do
    pckt ← create_packet (heaps (length v.packets)) v.pckt_data v.read dat seqno
    add_packet size pckt v.packets

  unfoldable pub flush : Filling → ℕ → Result Filling
  unfolding emit new_pckt_data
  flush v current_byte = do
    packets ← emit v (pos current_byte -ℤ pos v.read +ℤ pos 1)
    ok (record { read = 0; pckt_data = new_pckt_data packets; packets = packets })

  -- One byte of the file.
  unfoldable pub take_byte : ℕ → Filling → ℕ → Result Filling
  unfolding flush store_byte
  take_byte b v current_byte = do
    m ← store_byte v.pckt_data v.read b
    let v1 = record v { pckt_data = m }
    v2 ← (if v.read == payload_size then flush v1 current_byte else ok v1)
    ok (record v2 { read = v2.read + 1 })

  unfoldable pub fill : Bytes → Filling → ℕ → Result Filling
  unfolding take_byte
  fill [] v current_byte = ok v
  fill (b ∷ bs) v current_byte = do v' ← take_byte b v current_byte; fill bs v' (current_byte + 1)

  -- The count of the packets at the end runs off an array that has no null pointer.
  unfoldable pub packetize : Bytes → Result (List Packet)
  unfolding fill emit new_pckt_data
  packetize file = do
    v ← fill file (record { read = 0; pckt_data = new_pckt_data []; packets = [] }) 0
    packets ← emit v (pos (length file))
    if ltb (length packets) size then ok packets else crash

-- ceil(file_length / payload_size), exact for files below 2^24 bytes, whose length a float holds
unfoldable pub num_packets : ℕ → ℕ → ℕ
num_packets file_length payload_size = (file_length + payload_size - 1) / payload_size
