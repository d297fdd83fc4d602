-- ===== src/Sender/Exchange/Fin.antt =====
-- The FIN of initiate_transfer of src/rdps.c with a single data packet.
use csc361_a.Base.{
  ℕ, ◌+◌, ◌≡◌, ◌≢◌, refl, ap, ◌∙◌, true, false, Option, none, some, List, [], ◌∷◌, ◌++◌, arith,
  ExitCode, success,
}
use csc361_a.Base.Action.{◌>>=◌}
use csc361_a.Base.Int.{ℤ, pos, eqb_ℤ, eqb_ℤ_refl, ne→eqb_ℤ, ◌+ℤ◌}
use csc361_a.Base.Text.{Bytes}
use csc361_a.Base.Total.{
  Total, Never, NeverEnds, Total-bind, Total-modify, Total-returns, Total-exit,
}
use csc361_a.Packet.{Packet, ack, fin}
use csc361_a.Packet.Control.{control_text}
use csc361_a.Socket.{Env, receive}
use csc361_a.Receiver.Delivery.{Shipment, Delivers}
use csc361_a.Sender.State.{Sender, Window, sender_machine}
use csc361_a.Sender.Sendable.{IsTidy}
use csc361_a.Sender.Marks.{Mark, find_mark, with_mark, mark_stopped}
use csc361_a.Sender.Window.{handle_packet}
use csc361_a.Sender.Transfer.{finish_if, send_fin, count_fin}
use csc361_a.Sender.Exchange.{At, moved, stop_locked-At}
use csc361_a.Sender.Exchange.Messages.{receive-At, receive-waits}
use csc361_a.Sender.Exchange.Opening.{arrived, under_way, announce-At}

-- The marks while the data packet's ACK is awaited, and when it has come.
abbrev pub dat_marks : Packet → List Mark
dat_marks p = under_way p.ackno ∷ arrived (pos 1) ∷ []

abbrev pub done_marks : Packet → List Mark
done_marks p = arrived p.ackno ∷ arrived (pos 1) ∷ []

-- The marks while the FIN's ACK is awaited.
abbrev pub fin_marks : Packet → ℤ → List Mark
fin_marks p last_ackno = arrived p.ackno ∷ arrived (pos 1) ∷ under_way (last_ackno +ℤ pos 1) ∷ []

-- exit(0), with these datagrams sent.
abbrev pub IsOver :
    Packet → Window → ℤ → List Bytes → List (Option Bytes) → ExitCode → Sender → Type 0
IsOver p w last_ackno sent rest c s =
    (c ≡ success)
    × At p w rest sent (with_mark (last_ackno +ℤ pos 1) mark_stopped (fin_marks p last_ackno)) s

-- An ACK stops the timer with its sequence number.
pub handle_packet-At :
    (env : Env) (p : Packet) (w : Window) (xs : List (Option Bytes)) (sent : List Bytes)
    (ms : List Mark) (q : Packet) {m : Mark}
    → q.type ≡ ack
    → find_mark ms q.seqno ≡ some m
    → Total NeverEnds Never
        (At p w xs sent ms)
        (handle_packet env q)
        (λ _. At p w xs sent (with_mark q.seqno mark_stopped ms))
unfolding handle_packet
handle_packet-At env p w xs sent ms q type_lem found =
    rw (type_lem, eqb_ℤ_refl ack)
      (Total-bind {P = At p w xs sent ms} {Q = λ _. At p w xs sent ms}
        (Total-modify {g = λ s. record s { ack_packets_received = s.ack_packets_received + 1 }}
          (λ u a. moved a refl refl refl refl a.marks_lem))
        (λ _. stop_locked-At env p w xs sent ms q.seqno found))

module _ (env : Env) (stray : Bytes) (tidy : IsTidy env stray)
    (sends : (k : ℕ) → env.send_fails k ≡ false) (p : Packet) (w : Window) (last_ackno : ℤ)
    (sent : List Bytes) (ne_syn : p.ackno ≢ pos 1) (ne_dat : last_ackno +ℤ pos 1 ≢ p.ackno)
    (ne_both : last_ackno +ℤ pos 1 ≢ pos 1) where
  find_mark-fresh : find_mark (done_marks p) (last_ackno +ℤ pos 1) ≡ none
  find_mark-fresh =
      rw
        (
          ne→eqb_ℤ (last_ackno +ℤ pos 1) p.ackno ne_dat,
          ne→eqb_ℤ (last_ackno +ℤ pos 1) (pos 1) ne_both,
        )
        refl

  find_mark-fin :
      find_mark (fin_marks p last_ackno) (last_ackno +ℤ pos 1)
      ≡ some (under_way (last_ackno +ℤ pos 1))
  find_mark-fin =
      rw
        (
          ne→eqb_ℤ (last_ackno +ℤ pos 1) p.ackno ne_dat,
          ne→eqb_ℤ (last_ackno +ℤ pos 1) (pos 1) ne_both,
          eqb_ℤ_refl (last_ackno +ℤ pos 1),
        )
        refl

  finish_if-At :
      (rest : List (Option Bytes)) (q r : Packet)
      → q.ackno ≡ (last_ackno +ℤ pos 1)
      → r.type ≡ ack
      → r.seqno ≡ (last_ackno +ℤ pos 1)
      → Total
          (IsOver p w last_ackno (sent ++ control_text stray fin last_ackno ∷ []) rest)
          Never
          (At p w rest (sent ++ (control_text stray fin last_ackno) ∷ []) (fin_marks p last_ackno))
          (finish_if env q (some r))
          (λ _. Never)
  unfolding finish_if
  finish_if-At rest q r q_lem type_lem seqno_lem =
      let found : find_mark (fin_marks p last_ackno) r.seqno
          ≡ some (under_way (last_ackno +ℤ pos 1)) =
        ap (find_mark (fin_marks p last_ackno)) seqno_lem ∙ find_mark-fin in
      let ends : eqb_ℤ r.seqno q.ackno ≡ true =
        rw (seqno_lem, q_lem) (eqb_ℤ_refl (last_ackno +ℤ pos 1)) in
      Total-bind
        (Total-returns (
          handle_packet-At env p w rest (sent ++ (control_text stray fin last_ackno) ∷ [])
            (fin_marks p last_ackno) r type_lem found))
        (λ _. rw (ends, seqno_lem) (Total-exit (λ s i. (refl, i))))

  -- The FIN's exchange.
  pub send_fin-waits :
      Total NeverEnds
        (At p w [] (sent ++ (control_text stray fin last_ackno) ∷ []) (fin_marks p last_ackno))
        (At p w [] sent (done_marks p))
        (send_fin env last_ackno)
        (λ _. Never)
  unfolding send_fin eqb_ℤ
  send_fin-waits =
      announce-At env stray tidy sends p w [] sent fin last_ackno (done_marks p) count_fin
        (λ q. receive env >>= finish_if env q) (λ e. cc) refl find_mark-fresh (omega arith)
        (λ q t s i. moved i refl refl refl refl i.marks_lem)
        (λ q c.
          Total-bind
            (receive-waits env p w [] (sent ++ (control_text stray fin last_ackno) ∷ [])
              (fin_marks p last_ackno) refl)
            (λ o. record { at = λ s n. absurd n }))

  pub send_fin-ends :
      (x : Shipment) (rest : List (Option Bytes))
      → Delivers x
      → x.header.type ≡ ack
      → x.header.seqno ≡ (last_ackno +ℤ pos 1)
      → Total
          (IsOver p w last_ackno (sent ++ control_text stray fin last_ackno ∷ []) rest)
          Never
          (At p w (some x.datagram ∷ rest) sent (done_marks p))
          (send_fin env last_ackno)
          (λ _. Never)
  unfolding send_fin eqb_ℤ
  send_fin-ends x rest delivers type_lem seqno_lem =
      announce-At env stray tidy sends p w (some x.datagram ∷ rest) sent fin last_ackno
        (done_marks p) count_fin (λ q. receive env >>= finish_if env q) (λ e. cc) refl
        find_mark-fresh (omega arith) (λ q t s i. moved i refl refl refl refl i.marks_lem)
        (λ q c.
          Total-bind
            (Total-returns (
              receive-At env p w (some x.datagram ∷ rest)
                (sent ++ (control_text stray fin last_ackno) ∷ []) (fin_marks p last_ackno) x rest
                tidy.zeroed delivers refl))
            (λ o. record {
              at = λ s (r, is, d, i). rw is (
                  (finish_if-At rest q r (ap (λ hd. hd.ackno) c.header_is)
                      (ap (λ hd. hd.type) d.header_is ∙ type_lem)
                      (ap (λ hd. hd.seqno) d.header_is ∙ seqno_lem)).at
                    s i);
            }))
