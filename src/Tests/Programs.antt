-- ===== src/Tests/Programs.antt =====
-- The theorems on main of both programs.
use csc361_a.Base.{
  Every, ℕ, ◌≡◌, ◌≢◌, ◌⊎◌, refl, some, List, [], ◌∷◌, inl, inr, arith, subst, sym, false, true,
  length, success, failure,
}
use csc361_a.Base.Action.{exit}
use csc361_a.Base.Triple.{Holds}
use csc361_a.Base.Int.{pos, ℤ, ◌+ℤ◌, ◌-ℤ◌, eqb_ℤ}
use csc361_a.Base.Text.{Bytes, codes, c_string, overlay, strcpy, zeros}
use csc361_a.Base.Decimal.{itoa, atoi}
use csc361_a.Packet.{
  Heap, store_payload, payload_string, finish_packet, create_dat, create_control, create_packet,
  add_packet, type_itos, construct_string, char_append,
}
use csc361_a.Packet.Parse.{
  fresh_fields, set_field, cur_block, scan_fields, read_int, read_fields, copy_magic,
  deconstruct_string, eq_bytes, check_packet, fill_buffer, receive_packet,
}
use csc361_a.Socket.{read_clock, next_heap, post, send_packet, next_datagram, receive, check_time}
use csc361_a.Timer.{
  create_timer, add_timer, find_timer, at_timer, stop_timer, start_timer, timed_out,
}
use csc361_a.Sender.Timers.{
  start, sweep, clocks_of, set_timers, sweeps, lock, start_locked, start_new, stop_locked,
  packet_ackd, all_acknowledged, all_packets_acknowledged, add_dat_timers,
}
use csc361_a.Sender.Window.{
  send_fresh, visit, fill_from, fill_window, slide, update_from, update_window_base, resend_at,
  resend_matching, resend_from, resend_timedout_packets, handle_packet,
}
use csc361_a.Sender.Transfer.{
  send_syn, resend_syn, await_syn_ack, init_window, handle_received, finish_if, send_fin,
  transfer_round, transfer_loop, initiate_transfer,
}
use csc361_a.Sender.State.{Sender}
use csc361_a.Sender.Packetize.{
  store_byte, new_pckt_data, emit, flush, take_byte, fill, packetize, num_packets,
}
use csc361_a.Receiver.{receiver_main, payload_arrays}
use csc361_a.Startup.{Host, read_file, scan_array, setup_sender}
use csc361_a.Startup.Sending.{transfer_file, send_file}
use csc361_a.Startup.Sending
use csc361_a.Startup.Sending.Cases.{HasPorts, IsReady, main-cases}
use csc361_a.Startup.Receiving
use csc361_a.Startup.Receiving.Cases
use csc361_a.Startup.Receiving.Cases.{emptied, receive-cases}
use csc361_a.Network.{Reaches, IsCarried}
use csc361_a.Network.Programs.{IsPlanned, main-IsPlanned}
use csc361_a.Network.Content.{CarriesFirstOrNone, main-CarriesFirstOrNone}
use csc361_a.Tests.{zero_heap, zero_heap-IsZeroed, hi, quiet_env}
use csc361_a.Tests.Receiving.{receiver_of}
use csc361_a.Tests.Network.{at_start, globals_of, at_start-IsFresh, quiet_env-IsTidy, crossed}

abbrev pub host : Host
host = record {
  contents = λ name. some hi;
  fread = λ name. 2;
  meets_word = λ n. true;
  socket_fails = false;
  setsockopt_fails = false;
  inet_addr = λ text. some (length text);
  bind_fails = λ address. false;
  output_fails = λ name. false;
}

abbrev pub sender_arguments : Sending.Arguments
sender_arguments = record {
  sender_ip = codes "10.0.0.1";
  sender_port = codes "80";
  receiver_ip = codes "10.0.0.2";
  receiver_port = codes "81";
  filename = codes "f";
}

pub sender_arguments-HasPorts : HasPorts sender_arguments
unfolding atoi
sender_arguments-HasPorts = record {
  sender_port = pos 80;
  receiver_port = pos 81;
  sender_lem = refl;
  receiver_lem = refl;
}

pub host-IsReady : IsReady host sender_arguments sender_arguments-HasPorts hi
unfolding sender_arguments-HasPorts
host-IsReady = record {
  connection = record {
    adr_sender = record { ip = 8; port = 80 };
    adr_receiver = record { ip = 8; port = 81 };
  };
  read_lem = record { contents_lem = refl; fread_lem = refl };
  connected_lem = record {
    socket_lem = refl;
    setsockopt_lem = refl;
    sender_lem = refl;
    receiver_lem = refl;
    sender_port_lem = refl;
    receiver_port_lem = refl;
    bind_lem = refl;
  };
}

abbrev sent : Sender
sent = globals_of at_start (send_file host quiet_env (λ k. zero_heap) 3 sender_arguments at_start)

sent-reached : Reaches (send_file host quiet_env (λ k. zero_heap) 3 sender_arguments at_start) sent
unfolding ◌+ℤ◌ ◌-ℤ◌ eqb_ℤ c_string overlay strcpy zeros itoa atoi store_payload payload_string
    finish_packet create_dat create_control create_packet add_packet type_itos construct_string
    char_append fresh_fields set_field cur_block scan_fields read_int copy_magic read_fields
    deconstruct_string eq_bytes check_packet fill_buffer receive_packet read_clock next_heap post
    send_packet next_datagram receive check_time create_timer add_timer find_timer at_timer
    stop_timer start_timer timed_out sweep clocks_of set_timers sweeps lock start start_locked
    start_new stop_locked packet_ackd all_acknowledged all_packets_acknowledged add_dat_timers
    send_fresh visit fill_from fill_window slide update_from update_window_base resend_at
    resend_matching resend_from resend_timedout_packets handle_packet send_syn resend_syn
    await_syn_ack init_window handle_received finish_if send_fin transfer_round transfer_loop
    initiate_transfer store_byte new_pckt_data emit flush take_byte fill packetize num_packets
    read_file scan_array setup_sender transfer_file send_file
sent-reached = refl

crossed_over : Every (IsCarried sent.sent) crossed
unfolding ◌+ℤ◌ ◌-ℤ◌ eqb_ℤ c_string overlay strcpy zeros itoa atoi store_payload payload_string
    finish_packet create_dat create_control create_packet add_packet type_itos construct_string
    char_append fresh_fields set_field cur_block scan_fields read_int copy_magic read_fields
    deconstruct_string eq_bytes check_packet fill_buffer receive_packet read_clock next_heap post
    send_packet next_datagram receive check_time create_timer add_timer find_timer at_timer
    stop_timer start_timer timed_out sweep clocks_of set_timers sweeps lock start start_locked
    start_new stop_locked packet_ackd all_acknowledged all_packets_acknowledged add_dat_timers
    send_fresh visit fill_from fill_window slide update_from update_window_base resend_at
    resend_matching resend_from resend_timedout_packets handle_packet send_syn resend_syn
    await_syn_ack init_window handle_received finish_if send_fin transfer_round transfer_loop
    initiate_transfer store_byte new_pckt_data emit flush take_byte fill packetize num_packets
    read_file scan_array setup_sender transfer_file send_file
crossed_over d (inl e) = subst (IsCarried sent.sent) (sym e) (inr (inl refl))
crossed_over d (inr (inl e)) = subst (IsCarried sent.sent) (sym e) tt
crossed_over d (inr (inr (inl e))) = subst (IsCarried sent.sent) (sym e) (inr (inl refl))
crossed_over d (inr (inr (inr (inl e)))) = subst (IsCarried sent.sent) (sym e) (inl refl)
crossed_over d (inr (inr (inr (inr m)))) = absurd m

abbrev pub receiver_argv : List Bytes
receiver_argv = codes "rdpr" ∷ codes "10.0.0.2" ∷ codes "81" ∷ codes "g" ∷ []

main-IsPlanned_example :
    Holds
      (λ u. Every (IsPlanned hi) u.data_packets)
      (λ out u. Every (IsPlanned hi) u.data_packets × (out ≡ payload_arrays u.data_packets))
      (Receiving.main host quiet_env 5 receiver_argv (receiver_of crossed))
main-IsPlanned_example =
    main-IsPlanned host host quiet_env quiet_env [] (λ k. zero_heap) 3 5 receiver_argv
      sender_arguments sender_arguments-HasPorts hi at_start sent (receiver_of crossed)
      quiet_env-IsTidy (λ k. zero_heap-IsZeroed) (λ k. zero_heap-IsZeroed) (λ n. refl) host-IsReady
      (omega arith) (omega arith) (ground arith) at_start-IsFresh sent-reached refl crossed_over

main-CarriesFirstOrNone_example :
    Holds
      (λ u. Every (CarriesFirstOrNone hi) u.data_packets)
      (λ out u.
        Every (CarriesFirstOrNone hi) u.data_packets × (out ≡ payload_arrays u.data_packets))
      (Receiving.main host quiet_env 5 receiver_argv (receiver_of crossed))
main-CarriesFirstOrNone_example =
    main-CarriesFirstOrNone host host quiet_env quiet_env [] (λ k. zero_heap) 3 5 receiver_argv
      sender_arguments sender_arguments-HasPorts hi at_start sent (receiver_of crossed)
      quiet_env-IsTidy (λ k. zero_heap-IsZeroed) (λ k. zero_heap-IsZeroed) (λ n. refl) host-IsReady
      (omega arith) (omega arith) (ground arith) at_start-IsFresh sent-reached refl crossed_over

abbrev pub sender_argv : List Bytes
sender_argv =
    codes "rdps" ∷ codes "10.0.0.1" ∷ codes "80" ∷ codes "10.0.0.2" ∷ codes "81" ∷ codes "f" ∷ []

sender_argv-HasPorts : (a : Sending.Arguments) → Sending.arguments sender_argv ≡ some a → HasPorts a
sender_argv-HasPorts a e =
    let one : sender_arguments ≡ a = cc in subst HasPorts one sender_arguments-HasPorts

abbrev pub zero_heaps : ℕ → Heap
zero_heaps k = zero_heap

main-cases_example :
    ((length sender_argv ≢ 6)
      × (Sending.main host quiet_env zero_heaps 3 sender_argv at_start ≡ exit success at_start))
    ⊎ ((length sender_argv ≡ 6)
        × (a : Sending.Arguments) × (p : HasPorts a) × (Sending.arguments sender_argv ≡ some a)
        × (((Sending.main host quiet_env zero_heaps 3 sender_argv at_start ≡ exit failure at_start)
              × ((bytes : Bytes) → ¬ IsReady host a p bytes))
            ⊎ ((bytes : Bytes) × IsReady host a p bytes
                × (Sending.main host quiet_env zero_heaps 3 sender_argv at_start
                    ≡ transfer_file quiet_env zero_heaps 3 bytes at_start))))
main-cases_example =
    main-cases host quiet_env zero_heaps 3 sender_argv at_start sender_argv-HasPorts (λ n. refl)

receiver_argv-HasPort :
    (a : Receiving.Arguments)
    → Receiving.arguments receiver_argv ≡ some a
    → (port : ℤ) × (atoi a.receiver_port ≡ some port)
unfolding atoi
receiver_argv-HasPort a e =
    let one : codes "81" ≡ a.receiver_port = cc in
    (pos 81, subst (λ t. atoi t ≡ some (pos 81)) one refl)

receive-cases_example :
    ((length receiver_argv ≢ 4)
      × (Receiving.main host quiet_env 5 receiver_argv (receiver_of [])
          ≡ exit success (receiver_of [])))
    ⊎ ((length receiver_argv ≡ 4)
        × (a : Receiving.Arguments) × (port : ℤ) × (Receiving.arguments receiver_argv ≡ some a)
        × (((Receiving.main host quiet_env 5 receiver_argv (receiver_of [])
                ≡ exit failure (receiver_of []))
              × ¬ Cases.IsReady host a port)
            ⊎ (Cases.IsReady host a port
                × (Receiving.main host quiet_env 5 receiver_argv (receiver_of [])
                    ≡ receiver_main quiet_env 5
                        (host.output_fails a.filename)
                        (emptied (receiver_of []))))))
receive-cases_example =
    receive-cases host quiet_env 5 receiver_argv (receiver_of []) receiver_argv-HasPort
