-- ===== src/Sender/Window.antt =====
-- The functions of src/rdps.c that send data packets and move the window.
use csc361_a.Base.{
  ℕ, zero, suc, ◌+◌, Bool, true, false, not, ◌&&◌, none, some, List, [], ◌∷◌, if◌then◌else◌,
  get_elem?, length,
}
use csc361_a.Base.Action.{Action, crash, ◌>>=◌, ◌>>◌, gets, modify, pure, when}
use csc361_a.Base.Int.{ℤ, ◌+ℤ◌, ◌-ℤ◌, ltb_ℤ, eqb_ℤ}
use csc361_a.Packet.{Packet, ack, rst}
use csc361_a.Socket.{Env, send_packet}
use csc361_a.Timer.{PacketTimer}
use csc361_a.Sender.State.{Sender, Window, sender_machine}
use csc361_a.Sender.Timers.{lock, start, start_locked, stop_locked, packet_ackd}

-- a <= b
abbrev pub leb_ℤ : ℤ → ℤ → Bool
leb_ℤ a b = not (ltb_ℤ b a)

abbrev pub in_window : Window → Packet → Bool
in_window w p = leb_ℤ w.base_seqno p.seqno && leb_ℤ p.seqno (w.base_seqno +ℤ w.size)

abbrev pub count_fresh : Packet → Sender → Sender
count_fresh p s = record s {
  bytes_sent = s.bytes_sent +ℤ p.payload_length;
  unique_bytes_sent = s.unique_bytes_sent +ℤ p.payload_length;
  unique_dat_packets_sent = s.unique_dat_packets_sent + 1;
  dat_packets_sent = s.dat_packets_sent + 1;
}

abbrev pub occupy : Packet → Sender → Sender
occupy p s =
    let w = s.window in record s { window = record w { occupied = w.occupied +ℤ p.payload_length } }

abbrev pub slide_to : Packet → Sender → Sender
slide_to q s =
    let w = s.window in
    record s {
      window = record w { base_seqno = q.seqno; occupied = w.occupied -ℤ q.payload_length };
    }

abbrev pub count_again : Packet → Sender → Sender
count_again p s = record s {
  bytes_sent = s.bytes_sent +ℤ p.payload_length;
  dat_packets_sent = s.dat_packets_sent + 1;
}

module _ (env : Env) where
  -- The sending of one packet in fill_window.
  unfoldable pub send_fresh : Packet → Action Sender (Unit {0})
  send_fresh p = do
    send_packet env p
    modify (count_fresh p)
    start_locked env p.ackno
    modify (occupy p)

  -- One round of the loop of fill_window, where the window is not full.
  unfoldable pub visit : Packet → Action Sender (Unit {0})
  unfolding send_fresh
  visit p = do
    w ← gets (λ s. s.window)
    when (in_window w p) (packet_ackd env p >>= λ ackd. when (not ackd) (send_fresh p))

  unfoldable pub fill_from : List Packet → Action Sender (Unit {0})
  unfolding visit
  fill_from [] = pure tt
  fill_from (p ∷ ps) = do
    w ← gets (λ s. s.window)
    elim (ltb_ℤ w.occupied w.size) [ true ↦ visit p >> fill_from ps | false ↦ pure tt ]

  unfoldable pub fill_window : Action Sender (Unit {0})
  unfolding fill_from
  fill_window = do ps ← gets (λ s. s.data_packets); fill_from ps

  -- `data_packets[i+1]` is the head of what follows.
  unfoldable pub slide : List Packet → Action Sender (Unit {0})
  slide [] = pure tt
  slide (q ∷ _) = modify (slide_to q)

  unfoldable pub update_from : List Packet → Action Sender (Unit {0})
  unfolding slide
  update_from [] = pure tt
  update_from (p ∷ ps) = do
    w ← gets (λ s. s.window)
    when (eqb_ℤ p.seqno w.base_seqno) (packet_ackd env p >>= λ ackd. when ackd (slide ps))
    update_from ps

  unfoldable pub update_window_base : Action Sender (Unit {0})
  unfolding update_from
  update_window_base = do ps ← gets (λ s. s.data_packets); update_from ps

  -- The resending of data_packets[i]; a null pointer there is dereferenced.
  unfoldable pub resend_at : ℕ → Action Sender (Unit {0})
  resend_at i = do
    ps ← gets (λ s. s.data_packets)
    elim (get_elem? ps i) [
      | none ↦ (λ _. crash)
      | some p ↦ send_packet env p >> modify (count_again p) >> start env p.ackno
    ]

  -- The inner loop, over j.
  unfoldable pub resend_matching : ℕ → PacketTimer → List Packet → Action Sender (Unit {0})
  unfolding resend_at
  resend_matching i t [] = pure tt
  resend_matching i t (p ∷ ps) = do
    when (eqb_ℤ p.ackno t.pckt_ackno) (resend_at i)
    resend_matching i t ps

  -- The outer loop: timer `i` is read from the list as it is then; `n` timers are left.
  unfoldable pub resend_from : ℕ → ℕ → Action Sender (Unit {0})
  unfolding resend_matching
  resend_from zero i = pure tt
  resend_from (suc n) i = do
    s ← gets (λ s. s)
    elim (get_elem? s.timer_list i) [
      | none ↦ pure tt
      | some t ↦ when (t.timedout && t.running) (resend_matching i t s.data_packets)
    ]
    resend_from n (i + 1)

  unfoldable pub resend_timedout_packets : Action Sender (Unit {0})
  unfolding resend_from
  resend_timedout_packets = do lock env; ts ← gets (λ s. s.timer_list); resend_from (length ts) 0

  unfoldable pub handle_packet : Packet → Action Sender (Unit {0})
  handle_packet p =
      if eqb_ℤ p.type ack
      then modify (λ s. record s { ack_packets_received = s.ack_packets_received + 1 })
        >> stop_locked env p.seqno
      else if eqb_ℤ p.type rst
      then modify (λ s. record s { rst_packets_received = s.rst_packets_received + 1 })
      else pure tt
