-- ===== src/Receiver/Reply.antt =====
-- What the main loop of src/rdpr.c does with a DAT, a SYN or a FIN packet when nothing fails.
use csc361_a.Base.{
  ℕ, ◌+◌, ◌-◌, ◌≤◌, ◌<◌, ◌≡◌, ◌≢◌, refl, sym, ap, ◌∙◌, Bool, true, false, some, List, [], ◌∷◌, ◌++◌,
  arith, Result, length, ltb, lt→ltb, if◌then◌else◌, inl, inr,
}
use csc361_a.Base
use csc361_a.Base.Action.{ok}
use csc361_a.Base.Int.{ℤ, pos, ◌+ℤ◌, eqb_ℤ, eqb_ℤ_refl}
use csc361_a.Base.Text.{Bytes, Lacks}
use csc361_a.Packet.{
  syn, Packet, Heap, dat, ack, fin, max_packets, create_packet, add_packet, construct_string,
}
use csc361_a.Base.Decimal.{IsInt}
use csc361_a.Packet.Scan.{IsZeroed}
use csc361_a.Packet.Create.{Carries, header_of}
use csc361_a.Packet.Control.{control_text, create_packet-text}
use csc361_a.Socket.{Env, is_too_late, next_heap, send_packet, check_time}
use csc361_a.Receiver.{Receiver, send_ack, on_dat, on_fin, on_syn, on_packet}
use csc361_a.Receiver.Store.{replaced, dat_is_unique-snoc, store_data_packet-snoc}

-- An environment in which no call fails: zeroed memory, a readable string at the unset pointer of
-- a control packet, a socket that sends, and a clock within the time limit.
pub record IsBenign (env : Env) (stray : Bytes) : Type 0 where
  pub zeroed : (k : ℕ) → IsZeroed (env.heap k)
  pub stray_is : (k : ℕ) → (env.heap k).stray ≡ some stray
  pub stray_string : Lacks 0 stray
  pub stray_short : length stray < 1024
  pub sends : (k : ℕ) → env.send_fails k ≡ false
  pub in_time : (k : ℕ) → is_too_late (env.clock k) ≡ false

-- `a` is the ACK packet for `p`: its sequence number is the acknowledgement number of `p`.
abbrev pub IsAckFor : Bytes → Packet → Packet → Type 0
IsAckFor stray p a = Carries (header_of ack p.ackno (p.ackno +ℤ pos 1)) (pos 0) stray a

abbrev pub replied : Bytes → Receiver → Receiver
replied text r =
    let w = r.machine in
    record r {
      machine = record w { heaps = w.heaps + 1; sent = w.sent ++ text ∷ [] };
      ack_packets_sent = r.ack_packets_sent + 1;
    }

-- An ACK packet can be made, and it has a text.
make_ack :
    (h : Heap) (stray : Bytes) (n : ℤ)
    → IsZeroed h
    → h.stray ≡ some stray
    → Lacks 0 stray
    → length stray < 1024
    → (a : Packet) × (text : Bytes) × (create_packet h [] 0 ack n ≡ Base.ok a)
      × Carries (header_of ack n (n +ℤ pos 1)) (pos 0) stray a
      × (construct_string a ≡ Base.ok text)
      × (text ≡ control_text stray ack n)
unfolding eqb_ℤ
make_ack h stray n z is zs short =
    let (a, made, c, spelled) = create_packet-text h stray ack n z is zs short (λ e. cc) refl in
    (a, control_text stray ack n, made, c, spelled, refl)

abbrev pub after_dat : Packet → Bytes → Receiver → Receiver
after_dat p text r = record (replied text r) {
  data_packets = replaced p r.data_packets ++ p ∷ [];
  dat_bytes_received = r.dat_bytes_received +ℤ p.payload_length;
  dat_packets_received = r.dat_packets_received + 1;
  unique_dat_bytes_received = r.unique_dat_bytes_received +ℤ p.payload_length;
  unique_dat_packets_received = r.unique_dat_packets_received + 1;
}

abbrev pub clocked : Receiver → Receiver
clocked r = let w = r.machine in record r { machine = record w { clocks = w.clocks + 1 } }

abbrev pub after_fin : Bytes → Receiver → Receiver
after_fin text r = record (replied text r) { fin_packets_received = r.fin_packets_received + 1 }

abbrev pub after_syn : Bytes → Receiver → Receiver
after_syn text r = record (replied text r) { syn_packets_received = r.syn_packets_received + 1 }

add_packet-dat :
    (size : ℕ) (p : Packet) (ps : List Packet)
    → p.type ≡ dat
    → length ps < size
    → add_packet size p ps ≡ Base.ok (ps ++ p ∷ [])
unfolding add_packet
add_packet-dat size p ps e room = rw (e, eqb_ℤ_refl dat, lt→ltb (length ps) size room) refl

module _ (env : Env) (stray : Bytes) (b : IsBenign env stray) where
  send_ack_lem :
      (p : Packet) (r : Receiver)
      → (a : Packet) × (text : Bytes) × IsAckFor stray p a
        × (construct_string a ≡ Base.ok text)
        × (text ≡ control_text stray ack p.ackno)
        × (send_ack env p r ≡ ok tt (replied text r))
  unfolding send_ack next_heap send_packet
  send_ack_lem p r =
      let (a, text, made, c, spelled, is) =
        make_ack (env.heap r.heaps) stray p.ackno (b.zeroed r.heaps) (b.stray_is r.heaps)
          b.stray_string b.stray_short in
      (a, text, c, spelled, is, ground (arith, made, spelled, b.sends (length r.sent)))

  on_dat_run :
      (p : Packet) (r : Receiver)
      → p.type ≡ dat
      → length r.data_packets < max_packets
      → (a : Packet) × (text : Bytes) × IsAckFor stray p a
        × (construct_string a ≡ Base.ok text)
        × (text ≡ control_text stray ack p.ackno)
        × (on_dat env p r ≡ ok tt (after_dat p text r))
  unfolding on_dat
  on_dat_run p r e room =
      let added = r.data_packets ++ p ∷ [] in
      let (a, text, c, spelled, is, sent) = send_ack_lem p (record r { data_packets = added }) in
      (
        a,
        text,
        c,
        spelled,
        is,
        ground (
          arith,
          add_packet-dat max_packets p r.data_packets e room,
          sent,
          dat_is_unique-snoc p r.data_packets,
          store_data_packet-snoc max_packets p r.data_packets,
        ),
      )

  -- In an environment in which no call fails, with room in the array, and where the numbers of the
  -- ACK and the totals of bytes are ints, a DAT packet is acknowledged by its own number, with the
  -- text of an ACK packet, and put at the end of the list; an earlier packet with its sequence
  -- number is overwritten as well, and it counts as unique in any case.
  pub on_dat_lem :
      (p : Packet) (r : Receiver)
      → p.type ≡ dat
      → IsInt p.ackno
      → IsInt (p.ackno +ℤ pos 1)
      → IsInt (r.dat_bytes_received +ℤ p.payload_length)
      → IsInt (r.unique_dat_bytes_received +ℤ p.payload_length)
      → length r.data_packets < max_packets
      → (a : Packet) × (text : Bytes) × IsAckFor stray p a
        × (construct_string a ≡ Base.ok text)
        × (text ≡ control_text stray ack p.ackno)
        × (on_dat env p r ≡ ok tt (after_dat p text r))
  on_dat_lem p r e _ _ _ _ room = on_dat_run p r e room

  pub on_packet-dat :
      (p : Packet) (r : Receiver)
      → p.type ≡ dat
      → length r.data_packets < max_packets
      → (text : Bytes) × (text ≡ control_text stray ack p.ackno)
        × (on_packet env p r ≡ ok false (clocked (after_dat p text r)))
  unfolding on_packet check_time
  on_packet-dat p r e room =
      let (a, text, c, spelled, is, stored) = on_dat_run p r e room in
      (text, is, ground (arith, eqb_ℤ_refl dat, stored, b.in_time r.clocks))

  -- In an environment in which no call fails, a FIN packet is acknowledged and ends the loop, with
  -- no look at the clock.
  pub on_packet-fin :
      (p : Packet) (r : Receiver)
      → p.type ≡ fin
      → (text : Bytes) × (text ≡ control_text stray ack p.ackno)
        × (on_packet env p r ≡ ok true (after_fin text r))
  unfolding on_packet on_fin eqb_ℤ
  on_packet-fin p r e =
      let (a, text, c, spelled, is, sent) = send_ack_lem p r in (text, is, ground (arith, sent))

  pub on_packet-syn :
      (p : Packet) (r : Receiver)
      → p.type ≡ syn
      → (text : Bytes) × (text ≡ control_text stray ack p.ackno)
        × (on_packet env p r ≡ ok false (clocked (after_syn text r)))
  unfolding on_packet on_syn eqb_ℤ check_time
  on_packet-syn p r e =
      let (a, text, c, spelled, is, sent) = send_ack_lem p r in
      (text, is, ground (arith, sent, b.in_time r.clocks))
