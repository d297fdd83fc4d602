-- ===== src/Sender/Transfer.antt =====
-- initiate_transfer of src/rdps.c.
use csc361_a.Base.{ℕ, zero, suc, ◌+◌, Bool, true, false, Option, none, some, [], ◌∷◌}
use csc361_a.Base.Action.{Action, blocked, crash, ◌>>=◌, ◌>>◌, call, gets, modify, pure, when}
use csc361_a.Base.Int.{ℤ, pos, ◌+ℤ◌, eqb_ℤ}
use csc361_a.Packet.{Packet, ack, syn, fin, window_size, create_packet}
use csc361_a.Socket.{Env, next_heap, send_packet, receive, check_time, terminate}
use csc361_a.Sender.State.{Sender, sender_machine}
use csc361_a.Sender.Timers.{
  set_timers, lock, start_new, stop_locked, all_packets_acknowledged, add_dat_timers,
}
use csc361_a.Sender.Window.{fill_window, update_window_base, resend_timedout_packets, handle_packet}

abbrev pub count_syn : Packet → Sender → Sender
count_syn p s = record s {
  bytes_sent = s.bytes_sent +ℤ p.payload_length;
  syn_packets_sent = s.syn_packets_sent + 1;
}

abbrev pub count_first : Packet → Sender → Sender
count_first p s = record s { unique_bytes_sent = s.unique_bytes_sent +ℤ p.payload_length }

abbrev pub count_fin : Packet → Sender → Sender
count_fin p s = record s {
  bytes_sent = s.bytes_sent +ℤ p.payload_length;
  fin_packets_sent = s.fin_packets_sent + 1;
}

abbrev pub is_ack : Option Packet → Bool
is_ack none = false
is_ack (some p) = eqb_ℤ p.type ack

abbrev pub count_ack : Sender → Sender
count_ack s = record s { ack_packets_received = s.ack_packets_received + 1 }

module _ (env : Env) where
  -- From the creation of the SYN packet to the start of its timer.
  unfoldable pub send_syn : ℤ → Action Sender Packet
  send_syn first_seqno = do
    h ← next_heap env
    p ← call (create_packet h [] 0 syn first_seqno)
    send_packet env p
    modify (count_syn p)
    modify (count_first p)
    start_new env p.ackno
    pure p

  unfoldable pub resend_syn : Packet → Action Sender (Unit {0})
  resend_syn p = do send_packet env p; modify (count_syn p); check_time env

  -- The loop that waits for the SYN's ACK.
  unfoldable pub await_syn_ack : ℕ → Packet → Action Sender (Unit {0})
  unfolding resend_syn
  await_syn_ack zero p s = blocked s
  await_syn_ack (suc fuel) p s =
      (do
        rec_pckt ← receive env
        elim (is_ack rec_pckt) [
          | true ↦ modify count_ack >> stop_locked env p.ackno
          | false ↦ resend_syn p >> await_syn_ack fuel p
        ])
        s

  -- The window opens at the first data packet; without one the null pointer is dereferenced.
  unfoldable pub init_window : Action Sender (Unit {0})
  init_window = do
    ps ← gets (λ s. s.data_packets)
    elim ps [
      | [] ↦ (λ _. crash)
      | p ∷ _ ↦ modify (λ s. record s {
        window = record { size = pos window_size; occupied = pos 0; base_seqno = p.seqno };
      })
    ]

  unfoldable pub handle_received : Option Packet → Action Sender (Unit {0})
  handle_received none = pure tt
  handle_received (some p) = handle_packet env p

  -- The answer to the FIN ends the process if it is the FIN's ACK.
  unfoldable pub finish_if : Packet → Option Packet → Action Sender (Unit {0})
  finish_if fin_pckt none = pure tt
  finish_if fin_pckt (some p) =
      handle_packet env p >> when (eqb_ℤ p.seqno fin_pckt.ackno) (terminate (pos 0))

  unfoldable pub send_fin : ℤ → Action Sender (Unit {0})
  unfolding finish_if
  send_fin last_ackno = do
    h ← next_heap env
    p ← call (create_packet h [] 0 fin last_ackno)
    send_packet env p
    modify (count_fin p)
    modify (count_first p)
    start_new env p.ackno
    rec_pckt ← receive env
    finish_if p rec_pckt

  -- The body of the second loop.
  unfoldable pub transfer_round : ℤ → Action Sender (Unit {0})
  unfolding handle_received send_fin
  transfer_round last_ackno = do
    rec_pckt ← receive env
    handle_received rec_pckt
    update_window_base env
    fill_window env
    resend_timedout_packets env
    done ← all_packets_acknowledged env
    when done (send_fin last_ackno)
    check_time env

  unfoldable pub transfer_loop : ℕ → ℤ → Action Sender (Unit {0})
  unfolding transfer_round
  transfer_loop zero last_ackno s = blocked s
  transfer_loop (suc fuel) last_ackno s =
      (transfer_round last_ackno >> transfer_loop fuel last_ackno) s

  -- `fuel` bounds the rounds of each of the two loops; first_seqno is 0. The array of timers is a
  -- fresh one.
  unfoldable pub initiate_transfer : ℕ → ℤ → Action Sender (Unit {0})
  unfolding send_syn await_syn_ack init_window transfer_loop
  initiate_transfer fuel last_ackno = do
    set_timers []
    lock env
    ps ← gets (λ s. s.data_packets)
    add_dat_timers env ps
    syn_pckt ← send_syn (pos 0)
    await_syn_ack fuel syn_pckt
    init_window
    fill_window env
    transfer_loop fuel last_ackno
