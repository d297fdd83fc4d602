-- ===== src/Receiver.antt =====
-- src/rdpr.c: the receiving program. A packet array is its entries before the first null pointer.
pub mod Store
pub mod Reply
pub mod Delivery
pub mod Halting
pub mod Members
pub mod Genuine
pub mod Finishing
pub mod Answers
pub mod Exchange
use csc361_a.Base.{
  ℕ, zero, suc, ◌+◌, ◌-◌, Bool, true, false, ◌||◌, Option, none, some, List, [], ◌∷◌, ◌++◌, ltb,
  ◌==◌, refl, if◌then◌else◌, Result, ExitCode, success, failure, length,
}
use csc361_a.Base
use csc361_a.Base.Action.{
  Action, ok, exit, blocked, crash, ◌>>=◌, ◌>>◌, call, gets, modify, pure, exit_with,
}
use csc361_a.Base.Int.{ℤ, pos, negsuc, ◌+ℤ◌, eqb_ℤ}
use csc361_a.Base.Text.{Bytes}
use csc361_a.Packet.{Packet, dat, ack, syn, fin, rst, max_packets, create_packet, add_packet}
use csc361_a.Socket.{
  Env, Machine, HasMachine, next_heap, send_packet, receive, check_time, terminate,
}

-- The globals. The counters of bytes add up lengths that come from the network.
pub record Receiver : Type 0 where
  pub machine : Machine
  pub open machine use *
  pub data_packets : List Packet
  pub dat_bytes_received : ℤ
  pub unique_dat_bytes_received : ℤ
  pub dat_packets_received : ℕ
  pub unique_dat_packets_received : ℕ
  pub syn_packets_received : ℕ
  pub fin_packets_received : ℕ
  pub rst_packets_received : ℕ
  pub ack_packets_sent : ℕ

instance abbrev pub receiver_machine : HasMachine Receiver
receiver_machine = record {
  get_machine = λ r. r.machine;
  set_machine = λ w r. record r { machine = w };
  get-set = λ w r. refl;
}

-- `room` is the number of entries of the array from here on.
unfoldable pub store_data_packet : ℕ → Packet → List Packet → Result (List Packet)
store_data_packet room pckt [] = if room == 0 then Base.crash else Base.ok (pckt ∷ [])
store_data_packet room pckt (q ∷ qs) =
    if eqb_ℤ q.seqno pckt.seqno
    then Base.ok (pckt ∷ qs)
    else Base.◌>>=◌ (store_data_packet (room - 1) pckt qs) (λ r. Base.ok (q ∷ r))

unfoldable pub dat_is_unique : Packet → List Packet → Bool
dat_is_unique pckt [] = false
dat_is_unique pckt (q ∷ qs) = eqb_ℤ q.seqno pckt.seqno || dat_is_unique pckt qs

-- What fwrite puts into the file: of every packet the whole payload array.
unfoldable pub payload_arrays : List Packet → Bytes
payload_arrays [] = []
payload_arrays (p ∷ ps) = p.payload ++ payload_arrays ps

-- The loop ends at the first null pointer, so it runs off an array that is full.
unfoldable pub write_file : List Packet → Result Bytes
unfolding payload_arrays
write_file ps = if ltb (length ps) max_packets then Base.ok (payload_arrays ps) else Base.crash

module _ (env : Env) where
  -- create_packet(NULL, 0, ACK, ...), send_packet and the counter
  unfoldable pub send_ack : Packet → Action Receiver (Unit {0})
  send_ack rec_pckt = do
    h ← next_heap env
    ack_pckt ← call (create_packet h [] 0 ack rec_pckt.ackno)
    send_packet env ack_pckt
    modify (λ r. record r { ack_packets_sent = r.ack_packets_sent + 1 })

  abbrev pub count_dat : Packet → Receiver → Receiver
  count_dat p r = record r {
    dat_bytes_received = r.dat_bytes_received +ℤ p.payload_length;
    dat_packets_received = r.dat_packets_received + 1;
  }

  abbrev pub count_unique : Packet → Receiver → Receiver
  count_unique p r =
      if dat_is_unique p r.data_packets
      then record r {
        unique_dat_bytes_received = r.unique_dat_bytes_received +ℤ p.payload_length;
        unique_dat_packets_received = r.unique_dat_packets_received + 1;
      }
      else r

  unfoldable pub on_dat : Packet → Action Receiver (Unit {0})
  unfolding send_ack
  on_dat rec_pckt = do
    old ← gets (λ r. r.data_packets)
    added ← call (add_packet max_packets rec_pckt old)
    modify (λ r. record r { data_packets = added })
    send_ack rec_pckt
    modify (count_dat rec_pckt)
    modify (count_unique rec_pckt)
    stored ← call (store_data_packet max_packets rec_pckt added)
    modify (λ r. record r { data_packets = stored })

  unfoldable pub on_syn : Packet → Action Receiver (Unit {0})
  unfolding send_ack
  on_syn rec_pckt = do
    send_ack rec_pckt
    modify (λ r. record r { syn_packets_received = r.syn_packets_received + 1 })

  unfoldable pub on_fin : Packet → Action Receiver (Unit {0})
  unfolding send_ack
  on_fin rec_pckt = do
    send_ack rec_pckt
    modify (λ r. record r { fin_packets_received = r.fin_packets_received + 1 })

  unfoldable pub on_rst : Action Receiver (Unit {0})
  on_rst = do
    modify (λ r. record r { rst_packets_received = r.rst_packets_received + 1 })
    terminate (negsuc 0)

  -- The body of the loop for a packet; the result says whether it breaks off.
  unfoldable pub on_packet : Packet → Action Receiver Bool
  unfolding on_dat on_syn on_fin on_rst
  on_packet p =
      if eqb_ℤ p.type dat
      then on_dat p >> check_time env >> pure false
      else if eqb_ℤ p.type syn
      then on_syn p >> check_time env >> pure false
      else if eqb_ℤ p.type rst
      then on_rst >> check_time env >> pure false
      else if eqb_ℤ p.type fin
      then on_fin p >> pure true
      else check_time env >> pure false

  unfoldable pub round : Action Receiver Bool
  unfolding on_packet
  round = do rec_pckt ← receive env; elim rec_pckt [ none ↦ pure false | some p ↦ on_packet p ]

  -- while(1); each round takes a datagram, so one more round than datagrams is never reached.
  unfoldable pub run : ℕ → Action Receiver (Unit {0})
  unfolding round
  run zero r = blocked r
  run (suc fuel) r = (do done ← round; elim done [ true ↦ pure tt | false ↦ run fuel ]) r

  -- main after the setup: the loop, then the bytes of the output file, which fopen may refuse.
  unfoldable pub receiver_main : ℕ → Bool → Action Receiver Bytes
  unfolding run write_file
  receiver_main fuel fopen_fails = do
    run fuel
    stored ← gets (λ r. r.data_packets)
    if fopen_fails then exit_with failure else call (write_file stored)
