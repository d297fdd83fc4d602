-- ===== src/Tests/Network.antt =====
-- The theorems on a whole transfer.
use csc361_a.Base.{Every, refl, some, none, List, [], ◌∷◌, Option, inl, inr, arith, subst, sym}
use csc361_a.Base.Action.{Outcome, ok, exit, blocked, crash}
use csc361_a.Base.Triple.{Everywhere}
use csc361_a.Base.Int.{pos, ◌≤ℤ◌, ◌+ℤ◌, ◌-ℤ◌, eqb_ℤ}
use csc361_a.Base.Text.{Bytes, codes, c_string, overlay, strcpy, zeros}
use csc361_a.Base.Decimal.{itoa, atoi}
use csc361_a.Packet.{
  Packet, dat, store_payload, payload_string, finish_packet, create_dat, create_control,
  create_packet, add_packet, type_itos, construct_string, char_append,
}
use csc361_a.Packet.Parse.{
  fresh_fields, set_field, cur_block, scan_fields, read_int, read_fields, copy_magic,
  deconstruct_string, eq_bytes, check_packet, fill_buffer, receive_packet,
}
use csc361_a.Socket.{read_clock, next_heap, post, send_packet, next_datagram, receive, check_time}
use csc361_a.Timer.{
  create_timer, add_timer, find_timer, at_timer, stop_timer, start_timer, timed_out,
}
use csc361_a.Sender.Timers.{
  start, sweep, clocks_of, set_timers, sweeps, lock, start_locked, start_new, stop_locked,
  packet_ackd, all_acknowledged, all_packets_acknowledged, add_dat_timers,
}
use csc361_a.Sender.Window.{
  send_fresh, visit, fill_from, fill_window, slide, update_from, update_window_base, resend_at,
  resend_matching, resend_from, resend_timedout_packets, handle_packet,
}
use csc361_a.Sender.Transfer.{
  send_syn, resend_syn, await_syn_ack, init_window, handle_received, finish_if, send_fin,
  transfer_round, transfer_loop, initiate_transfer,
}
use csc361_a.Sender.State.{Sender}
use csc361_a.Sender.Sendable.{IsShippable, IsTidy}
use csc361_a.Sender.Accounting.Transfer.{IsFresh}
use csc361_a.Sender.Occupied.{IsBounded, initiate_transfer-IsBounded}
use csc361_a.Receiver.{run}
use csc361_a.Log.Statistics.{HasIntTotals}
use csc361_a.Network.{CopyOf, Reaches, IsCarried, run-initiate_transfer}
use csc361_a.Tests.{zero_heap-IsZeroed, hi, hi_packet, quiet_env, machine_of}
use csc361_a.Tests.Packets.{hi_packet-IsSendable}
use csc361_a.Tests.Receiving.{receiver_of}
use csc361_a.Tests.Sending.{sender_with}

-- The text of the receiver's ACK for the SYN.
abbrev ack_text : Bytes
ack_text = codes "UVicCSc361;1;1;2;10240;;0;"

abbrev pub at_start : Sender
at_start = sender_with (machine_of (some ack_text ∷ [])) []

abbrev pub globals_of : {A : Type 0} → Sender → Outcome Sender A → Sender
globals_of s (ok a t) = t
globals_of s (exit c t) = t
globals_of s (blocked t) = t
globals_of s crash = s

-- The sender after the SYN, its ACK and the data packet.
abbrev pub at_end : Sender
at_end = globals_of at_start (initiate_transfer quiet_env 3 (pos 2) at_start)

pub at_start-IsFresh : IsFresh at_start
at_start-IsFresh = record {
  sent_lem = refl;
  dat_lem = refl;
  unique_lem = refl;
  syn_lem = refl;
  fin_lem = refl;
  bytes_lem = refl;
}

hi_packet-IsShippable : IsShippable dat hi_packet
hi_packet-IsShippable = record {
  text = hi;
  sendable = hi_packet-IsSendable;
  magic_lem = refl;
  type_lem = refl;
  nonnegative = omega arith;
  length_le = omega arith;
}

pub only_hi : (P : Packet → Type 0) → P hi_packet → Every P (hi_packet ∷ [])
only_hi P h q (inl e) = subst P (sym e) h
only_hi P h q (inr m) = absurd m

pub quiet_env-IsTidy : IsTidy quiet_env []
quiet_env-IsTidy = record {
  zeroed = λ k. zero_heap-IsZeroed;
  stray_is = λ k. refl;
  stray_string = tt;
  stray_plain = tt;
  stray_short = omega arith;
}

initiate_transfer-IsBounded_example :
    Everywhere (IsBounded (hi_packet ∷ [])) (initiate_transfer quiet_env 3 (pos 2) at_start)
unfolding ◌+ℤ◌
initiate_transfer-IsBounded_example =
    initiate_transfer-IsBounded quiet_env 3 (pos 2) at_start
      (only_hi (λ p. (pos 0 ≤ℤ p.payload_length) × (p.payload_length ≤ℤ pos 1024))
        (omega arith, omega arith))
      (omega arith)

-- The datagrams that were sent, the data packet first and twice.
abbrev pub crossed : List (Option Bytes)
crossed =
    some (codes "UVicCSc361;0;2;4;10240;hi;2;")
    ∷ none
    ∷ some (codes "UVicCSc361;0;2;4;10240;hi;2;")
    ∷ some (codes "UVicCSc361;2;0;1;10240;;0;")
    ∷ []

pub at_end-reached : Reaches (initiate_transfer quiet_env 3 (pos 2) at_start) at_end
unfolding ◌+ℤ◌ ◌-ℤ◌ eqb_ℤ c_string overlay strcpy zeros itoa atoi store_payload payload_string
    finish_packet create_dat create_control create_packet add_packet type_itos construct_string
    char_append fresh_fields set_field cur_block scan_fields read_int copy_magic read_fields
    deconstruct_string eq_bytes check_packet fill_buffer receive_packet read_clock next_heap post
    send_packet next_datagram receive check_time create_timer add_timer find_timer at_timer
    stop_timer start_timer timed_out sweep clocks_of set_timers sweeps lock start start_locked
    start_new stop_locked packet_ackd all_acknowledged all_packets_acknowledged add_dat_timers
    send_fresh visit fill_from fill_window slide update_from update_window_base resend_at
    resend_matching resend_from resend_timedout_packets handle_packet send_syn resend_syn
    await_syn_ack init_window handle_received finish_if send_fin transfer_round transfer_loop
    initiate_transfer
at_end-reached = refl

pub at_end-HasIntTotals : HasIntTotals at_end
unfolding ◌+ℤ◌ ◌-ℤ◌ eqb_ℤ c_string overlay strcpy zeros itoa atoi store_payload payload_string
    finish_packet create_dat create_control create_packet add_packet type_itos construct_string
    char_append fresh_fields set_field cur_block scan_fields read_int copy_magic read_fields
    deconstruct_string eq_bytes check_packet fill_buffer receive_packet read_clock next_heap post
    send_packet next_datagram receive check_time create_timer add_timer find_timer at_timer
    stop_timer start_timer timed_out sweep clocks_of set_timers sweeps lock start start_locked
    start_new stop_locked packet_ackd all_acknowledged all_packets_acknowledged add_dat_timers
    send_fresh visit fill_from fill_window slide update_from update_window_base resend_at
    resend_matching resend_from resend_timedout_packets handle_packet send_syn resend_syn
    await_syn_ack init_window handle_received finish_if send_fin transfer_round transfer_loop
    initiate_transfer
at_end-HasIntTotals = record {
  bytes_int = omega arith;
  unique_bytes_int = omega arith;
  dat_int = omega arith;
  unique_int = omega arith;
  syn_int = omega arith;
  fin_int = omega arith;
  ack_int = omega arith;
  rst_int = omega arith;
}

crossed-IsCarried : Every (IsCarried at_end.sent) crossed
unfolding ◌+ℤ◌ ◌-ℤ◌ eqb_ℤ c_string overlay strcpy zeros itoa atoi store_payload payload_string
    finish_packet create_dat create_control create_packet add_packet type_itos construct_string
    char_append fresh_fields set_field cur_block scan_fields read_int copy_magic read_fields
    deconstruct_string eq_bytes check_packet fill_buffer receive_packet read_clock next_heap post
    send_packet next_datagram receive check_time create_timer add_timer find_timer at_timer
    stop_timer start_timer timed_out sweep clocks_of set_timers sweeps lock start start_locked
    start_new stop_locked packet_ackd all_acknowledged all_packets_acknowledged add_dat_timers
    send_fresh visit fill_from fill_window slide update_from update_window_base resend_at
    resend_matching resend_from resend_timedout_packets handle_packet send_syn resend_syn
    await_syn_ack init_window handle_received finish_if send_fin transfer_round transfer_loop
    initiate_transfer
crossed-IsCarried d (inl e) = subst (IsCarried at_end.sent) (sym e) (inr (inl refl))
crossed-IsCarried d (inr (inl e)) = subst (IsCarried at_end.sent) (sym e) tt
crossed-IsCarried d (inr (inr (inl e))) = subst (IsCarried at_end.sent) (sym e) (inr (inl refl))
crossed-IsCarried d (inr (inr (inr (inl e)))) = subst (IsCarried at_end.sent) (sym e) (inl refl)
crossed-IsCarried d (inr (inr (inr (inr m)))) = absurd m

run-initiate_transfer_example :
    Everywhere
      (λ u. Every (CopyOf (hi_packet ∷ [])) u.data_packets)
      (run quiet_env 5 (receiver_of crossed))
unfolding ◌+ℤ◌
run-initiate_transfer_example =
    run-initiate_transfer quiet_env quiet_env [] 3 5 (pos 2) at_start at_end (receiver_of crossed)
      quiet_env-IsTidy (λ k. zero_heap-IsZeroed) (omega arith) (omega arith) at_start-IsFresh
      (only_hi (IsShippable dat) hi_packet-IsShippable) at_end-reached refl crossed-IsCarried
