-- ===== src/Network/Dialogue.antt =====
-- src/rdps.c and src/rdpr.c turn by turn, for a file that fits one packet.
use csc361_a.Base.{
  ℕ, suc, ◌+◌, ◌^◌, ◌≤◌, ◌<◌, ◌≡◌, ◌≢◌, refl, sym, ap, ◌∙◌, subst, false, true, Option, none, some,
  List, [], ◌∷◌, ◌++◌, arith, length, ok_inj,
}
use csc361_a.Base
use csc361_a.Base.Action.{Outcome}
use csc361_a.Base.Int.{pos, ◌+ℤ◌, eqb_ℤ}
use csc361_a.Base.Text.{Bytes, Lacks}
use csc361_a.Packet.{Packet, Heap, sep, ack, syn, fin, payload_string}
use csc361_a.Packet.Scan.{IsZeroed}
use csc361_a.Packet.Create.{Carries}
use csc361_a.Packet.Control.{Carries-text, control_text}
use csc361_a.Socket.{Env}
use csc361_a.Socket.Turn.{with_inbox, WaitsWith, EndsWith, ReturnsWith}
use csc361_a.Sender.State.{Sender, sender_machine}
use csc361_a.Sender.Numbers.{packetize_one}
use csc361_a.Sender.Sendable.{IsTidy}
use csc361_a.Sender.Exchange.Answered.{Acks}
use csc361_a.Sender.Exchange.Whole.{IsReady, initiate_transfer-exchange}
use csc361_a.Sender.Transfer.{initiate_transfer}
use csc361_a.Receiver.{Receiver, receiver_machine, receiver_main, payload_arrays}
use csc361_a.Receiver.Reply.{IsBenign}
use csc361_a.Receiver.Delivery.{Shipment, Delivers}
use csc361_a.Receiver.Exchange.{receiver_main-exchange}
use csc361_a.Receiver.Delivery.{ack_text}
use csc361_a.Network.Shipments.{
  control_shipment, dat_header, dat_shipment, Delivers-control, Delivers-dat, Acks-control,
}
use csc361_a.Network.Programs.{last_ackno_is, next_ackno_is}
use csc361_a.Startup.Sending.{transfer_file}

-- Two programs that take turns, given what each is given by the other: the sender's datagrams are
-- `syn`, `dat` and `fin`, the receiver's `a1`, `a2` and `a3`. Both wait after each of their
-- datagrams, but at the end the receiver has written one payload array, whose string is the file,
-- and the sender ends with exit(0).
pub record TakeTurns (sends : List (Option Bytes) → Outcome Sender (Unit {0}))
    (receives : List (Option Bytes) → Outcome Receiver Bytes) (x1 x2 x3 y1 y2 y3 file : Bytes)
    : Type 0 where
  pub syn_sent : WaitsWith (x1 ∷ []) (sends [])
  pub syn_answered : WaitsWith (y1 ∷ []) (receives (some x1 ∷ []))
  pub dat_sent : WaitsWith (x1 ∷ x2 ∷ []) (sends (some y1 ∷ []))
  pub dat_answered : WaitsWith (y1 ∷ y2 ∷ []) (receives (some x1 ∷ some x2 ∷ []))
  pub fin_sent : WaitsWith (x1 ∷ x2 ∷ x3 ∷ []) (sends (some y1 ∷ some y2 ∷ []))
  pub written : Packet
  pub written_lem : payload_string written ≡ Base.ok file
  pub fin_answered :
      ReturnsWith
        (payload_arrays (written ∷ []))
        (y1 ∷ y2 ∷ y3 ∷ [])
        (receives (some x1 ∷ some x2 ∷ some x3 ∷ []))
  pub over : EndsWith (x1 ∷ x2 ∷ x3 ∷ []) (sends (some y1 ∷ some y2 ∷ some y3 ∷ []))

-- The texts for a file: of the SYN, of the data packet and of the FIN, and of the ACKs for them.
abbrev pub Exchange :
    Bytes
    → Bytes
    → Bytes
    → (List (Option Bytes) → Outcome Sender (Unit {0}))
    → (List (Option Bytes) → Outcome Receiver Bytes)
    → Type 0
Exchange stray stray_r file sends receives =
    TakeTurns sends receives (control_text stray syn (pos 0)) (dat_shipment file).datagram
      (control_text stray fin (pos (length file + 1023))) (control_text stray_r ack (pos 1))
      (control_text stray_r ack (pos (length file + length file)))
      (control_text stray_r ack (pos (length file + 1024))) file

-- The sender, before anything was sent.
pub record IsIdle (s : Sender) : Type 0 where
  pub nothing_sent : s.sent ≡ []

pos_inj : (a b : ℕ) → pos a ≡ pos b → a ≡ b
pos_inj a b e = cc

pos_next : (n : ℕ) → pos n +ℤ pos 1 ≡ pos (n + 1)
unfolding ◌+ℤ◌
pos_next n = ground arith

module _ (env env_r : Env) (stray stray_r : Bytes) (tidy : IsTidy env stray)
    (tidy_r : IsTidy env_r stray_r) (file : Bytes) (h : 1 ≤ length file)
    (small : length file < 1024) (clean : Lacks 0 file) (text : Lacks sep file) where
  abbrev syn_shipment : Shipment
  syn_shipment = control_shipment stray syn (pos 0)

  abbrev fin_shipment : Shipment
  fin_shipment = control_shipment stray fin (pos (length file + 1023))

  Delivers-syn_shipment : Delivers syn_shipment
  unfolding eqb_ℤ ◌+ℤ◌
  Delivers-syn_shipment =
      Delivers-control env stray syn (pos 0) tidy (λ k. cc) refl refl (omega arith) (omega arith)
        (omega arith)

  Delivers-fin_shipment : Delivers fin_shipment
  unfolding eqb_ℤ
  Delivers-fin_shipment =
      Delivers-control env stray fin (pos (length file + 1023)) tidy (λ k. cc) refl refl
        (omega arith) (omega arith) (rw (pos_next (length file + 1023)) (omega arith))

  -- The receiver's ACKs, as shipments.
  abbrev ack_shipment : Shipment → Shipment
  ack_shipment x = control_shipment stray_r ack x.header.ackno

  Acks-syn_shipment : Acks (pos 1) (ack_shipment syn_shipment)
  unfolding ◌+ℤ◌
  Acks-syn_shipment =
      Acks-control env_r stray_r (pos 1) (pos 1) tidy_r (omega arith) (omega arith) refl

  Acks-dat_shipment : Acks (pos (length file + length file)) (ack_shipment (dat_shipment file))
  Acks-dat_shipment =
      Acks-control env_r stray_r (pos (length file + length file)) (pos (length file + length file))
        tidy_r (omega arith) (rw (pos_next (length file + length file)) (omega arith)) refl

  Acks-fin_shipment : Acks (pos (length file + 1023) +ℤ pos 1) (ack_shipment fin_shipment)
  Acks-fin_shipment =
      Acks-control env_r stray_r (pos (length file + 1023) +ℤ pos 1)
        (pos (length file + 1023) +ℤ pos 1) tidy_r
        (rw (pos_next (length file + 1023)) (omega arith))
        (rw (pos_next (length file + 1023), pos_next (length file + 1023 + 1)) (omega arith)) refl

  sender_turns :
      (heaps : ℕ → Heap) (fuel : ℕ) (s : Sender)
      → ((k : ℕ) → IsZeroed (heaps k))
      → ((k : ℕ) → env.send_fails k ≡ false)
      → IsIdle s
      → (s' : Sender) × ((xs : List (Option Bytes))
          → transfer_file env heaps (suc fuel) file (with_inbox xs s)
            ≡ initiate_transfer env (suc fuel) (pos (length file + 1023)) (with_inbox xs s'))
        × (p : Packet) × IsReady p (dat_shipment file).datagram (pos (length file + 1023)) s'
        × Carries (dat_header (length file)) (pos (length file)) file p
  unfolding transfer_file
  sender_turns heaps fuel s z sends idle =
      let (p, made, c) = packetize_one heaps file z h (omega arith) clean in
      let number : p.ackno ≡ pos (length file + length file) = ap (λ hd. hd.ackno) c.header_is in
      (
        record s { data_packets = p ∷ [] },
        λ xs. rw (made, last_ackno_is (length file)) refl,
        p,
        record {
          only = refl;
          nothing_sent = idle.nothing_sent;
          spells = Carries-text (dat_header (length file)) (pos (length file)) file p c;
          not_syn =
              λ e. let same = pos_inj (length file + length file) 1 (sym number ∙ e) in omega arith;
          not_dat = λ e.
              let same =
                pos_inj (length file + 1023 + 1) (length file + length file)
                  (sym (pos_next (length file + 1023)) ∙ e ∙ number) in
              omega arith;
          not_both = λ e.
              let same =
                pos_inj (length file + 1023 + 1) 1 (sym (pos_next (length file + 1023)) ∙ e) in
              omega arith;
        },
        c,
      )

  taking_turns :
      (heaps : ℕ → Heap) (fuel fuel_r : ℕ) (s : Sender) (r : Receiver)
      → IsBenign env_r stray_r
      → ((k : ℕ) → IsZeroed (heaps k))
      → ((k : ℕ) → env.send_fails k ≡ false)
      → IsIdle s
      → r.data_packets ≡ []
      → r.sent ≡ []
      → TakeTurns
          (λ xs. transfer_file env heaps (suc fuel) file (with_inbox xs s))
          (λ xs. receiver_main env_r (suc (suc (suc fuel_r))) false (with_inbox xs r))
          syn_shipment.datagram
          (dat_shipment file).datagram
          fin_shipment.datagram
          (ack_text stray_r syn_shipment)
          (ack_text stray_r (dat_shipment file))
          (ack_text stray_r fin_shipment)
          file
  unfolding ◌+ℤ◌ eqb_ℤ
  taking_turns heaps fuel fuel_r s r benign z sends idle empty none_sent =
      let (s', same, p, ready, c) = sender_turns heaps fuel s z sends idle in
      let number : p.ackno ≡ pos (length file + length file) = ap (λ hd. hd.ackno) c.header_is in
      let (t0, t1, t2, t3) =
        initiate_transfer-exchange env stray fuel p (dat_shipment file).datagram
          (pos (length file + 1023)) s' (ack_shipment syn_shipment)
          (ack_shipment (dat_shipment file)) (ack_shipment fin_shipment) tidy sends ready
          Acks-syn_shipment (rw number Acks-dat_shipment) Acks-fin_shipment in
      let answers = λ (n : ℕ).
        receiver_main-exchange env_r stray_r n r syn_shipment (dat_shipment file) fin_shipment
          benign empty none_sent Delivers-syn_shipment refl
          (Delivers-dat file p (omega arith) text c) refl Delivers-fin_shipment refl in
      let (_, _, q, carried, ended) = answers fuel_r in
      record {
        syn_sent = rw (same []) t0;
        syn_answered = (answers (suc (suc fuel_r))).0;
        dat_sent = rw same t1;
        dat_answered = (answers (suc fuel_r)).1;
        fin_sent = rw same t2;
        written = q;
        written_lem = carried.payload_is;
        fin_answered = ended;
        over = rw same t3;
      }

-- For a file of 1 to 1023 bytes without NUL and semicolon, on zeroed memory with a short string
-- without semicolon at both unset pointers, where no sendto fails and the receiver's clock is
-- within its limit, whatever the sender's clock and its polling thread do, the two programs take
-- turns: given what the other has sent, each sends its next datagram, once, and waits, until the
-- receiver has written its file and the sender ends with exit(0). The sender's datagrams are the
-- texts of the SYN, of the data packet and of the FIN, and the receiver's are their ACKs; the file
-- written is one payload array, whose string is the file sent.
pub transfer_file-TakeTurns :
    (env env_r : Env) (stray stray_r : Bytes) (heaps : ℕ → Heap) (fuel fuel_r : ℕ) (file : Bytes)
    (s : Sender) (r : Receiver)
    → IsTidy env stray
    → IsTidy env_r stray_r
    → IsBenign env_r stray_r
    → ((k : ℕ) → IsZeroed (heaps k))
    → ((k : ℕ) → env.send_fails k ≡ false)
    → 1 ≤ length file
    → length file < 1024
    → Lacks 0 file
    → Lacks sep file
    → IsIdle s
    → r.data_packets ≡ []
    → r.sent ≡ []
    → Exchange stray stray_r file
        (λ xs. transfer_file env heaps (suc fuel) file (with_inbox xs s))
        (λ xs. receiver_main env_r (suc (suc (suc fuel_r))) false (with_inbox xs r))
unfolding ◌+ℤ◌
transfer_file-TakeTurns env env_r stray stray_r heaps fuel fuel_r file s r tidy tidy_r benign z
      sends h small clean text idle empty none_sent =
    subst
      (λ n.
        TakeTurns (λ xs. transfer_file env heaps (suc fuel) file (with_inbox xs s))
          (λ xs. receiver_main env_r (suc (suc (suc fuel_r))) false (with_inbox xs r))
          (control_text stray syn (pos 0)) (dat_shipment file).datagram
          (control_text stray fin (pos (length file + 1023))) (control_text stray_r ack (pos 1))
          (control_text stray_r ack (pos (length file + length file))) (control_text stray_r ack n)
          file)
      (next_ackno_is (length file))
      (taking_turns env env_r stray stray_r tidy tidy_r file h small clean text heaps fuel fuel_r s
        r benign z sends idle empty none_sent)
