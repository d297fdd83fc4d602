-- ===== src/Sender/Invariant.antt =====
-- What a condition on the globals of src/rdps.c has to stand for it to hold throughout the
-- transfer: one record for each group of steps. `ps` is the list of data packets.
pub mod Timers
pub mod Window
pub mod Resend
pub mod Transfer
use csc361_a.Base.{Member, ℕ, ◌+◌, ◌≡◌, true, ◌⊎◌, List, [], ◌∷◌, ◌++◌, Result, ok}
use csc361_a.Base.Int.{ℤ, pos, ltb_ℤ}
use csc361_a.Base.Text.{Bytes}
use csc361_a.Packet.{Packet, window_size, syn, fin, construct_string, create_packet}
use csc361_a.Socket.{Env, Machine}
use csc361_a.Timer.{PacketTimer}
use csc361_a.Sender.State.{Sender}
use csc361_a.Sender.Window.{count_fresh, count_again, occupy, slide_to}
use csc361_a.Sender.Transfer.{count_syn, count_first, count_fin, count_ack}

abbrev pub posted : Bytes → Sender → Sender
posted text s = let w = s.machine in record s { machine = record w { sent = w.sent ++ text ∷ [] } }

abbrev pub count_rst : Sender → Sender
count_rst s = record s { rst_packets_received = s.rst_packets_received + 1 }

-- Reading from the environment, the timers, and the packets received.
pub record IsCalm (I : Sender → Type 0) : Type 0 where
  pub machine_lem :
      (s : Sender) (w : Machine) → I s → w.sent ≡ s.sent → I (record s { machine = w })
  pub timers_lem : (s : Sender) (ts : List PacketTimer) → I s → I (record s { timer_list = ts })
  pub ack_lem : (s : Sender) → I s → I (count_ack s)
  pub rst_lem : (s : Sender) → I s → I (count_rst s)

-- `p` was made by create_packet, for this type and sequence number.
pub record IsMade (env : Env) (type seqno : ℤ) (p : Packet) : Type 0 where
  pub call : ℕ
  pub made : create_packet (env.heap call) [] 0 type seqno ≡ ok p

-- A datagram that goes out, with the counters that go with it.
pub record IsSending (env : Env) (last_ackno : ℤ) (ps : List Packet) (I : Sender → Type 0)
    : Type 0 where
  pub packets_lem : (s : Sender) → I s → s.data_packets ≡ ps
  pub fresh_lem :
      (s : Sender) (p : Packet) (text : Bytes)
      → I s
      → Member p ps
      → construct_string p ≡ ok text
      → I (count_fresh p (posted text s))
  pub again_lem :
      (s : Sender) (p : Packet) (text : Bytes)
      → I s
      → Member p ps
      → construct_string p ≡ ok text
      → I (count_again p (posted text s))
  pub syn_lem :
      (s : Sender) (p : Packet) (text : Bytes)
      → I s
      → IsMade env syn (pos 0) p
      → construct_string p ≡ ok text
      → I (count_first p (count_syn p (posted text s)))
  pub syn_again_lem :
      (s : Sender) (p : Packet) (text : Bytes)
      → I s
      → IsMade env syn (pos 0) p
      → construct_string p ≡ ok text
      → I (count_syn p (posted text s))
  pub fin_lem :
      (s : Sender) (p : Packet) (text : Bytes)
      → I s
      → IsMade env fin last_ackno p
      → construct_string p ≡ ok text
      → I (count_first p (count_fin p (posted text s)))

-- The window: opened at a packet, filled where there is room, and moved on.
pub record IsWindowed (ps : List Packet) (I : Sender → Type 0) : Type 0 where
  pub open_lem :
      (s : Sender) (p : Packet)
      → I s
      → Member p ps
      → I (record s {
        window = record { size = pos window_size; occupied = pos 0; base_seqno = p.seqno };
      })
  pub occupy_lem :
      (s : Sender) (p : Packet)
      → I s
      → Member p ps
      → ltb_ℤ s.window.occupied s.window.size ≡ true
      → I (occupy p s)
  pub slide_lem : (s : Sender) (p : Packet) → I s → Member p ps → I (slide_to p s)
