-- ===== src/Sender/Exchange/Ending.antt =====
-- The second loop of initiate_transfer of src/rdps.c with a single data packet, up to the end of
-- the process.
use csc361_a.Base.{
  ℕ, zero, suc, ◌≡◌, ◌≢◌, refl, ap, ◌∙◌, false, Option, some, List, [], ◌∷◌, ExitCode,
}
use csc361_a.Base.Action.{when, ◌>>=◌, ◌>>◌}
use csc361_a.Base.Int.{ℤ, pos, eqb_ℤ_refl, ◌+ℤ◌}
use csc361_a.Base.Text.{Bytes}
use csc361_a.Base.Total.{Total, Never, NeverEnds, Total-bind, Total-returns}
use csc361_a.Packet.{Packet, ack}
use csc361_a.Socket.{Env, check_time}
use csc361_a.Receiver.Delivery.{Shipment, Delivers}
use csc361_a.Sender.State.{Sender, Window, sender_machine}
use csc361_a.Sender.Sendable.{IsTidy}
use csc361_a.Sender.Marks.{find_mark, with_mark, mark_stopped}
use csc361_a.Sender.Timers.{all_packets_acknowledged}
use csc361_a.Sender.Window.{update_window_base, fill_window, resend_timedout_packets}
use csc361_a.Sender.Transfer.{handle_received, send_fin, transfer_round, transfer_loop}
use csc361_a.Sender.Exchange.{At}
use csc361_a.Sender.Exchange.Messages.{receive-At, receive-waits}
use csc361_a.Sender.Exchange.Fin.{dat_marks, done_marks, handle_packet-At}
use csc361_a.Sender.Exchange.Opening.{arrived, under_way}
use csc361_a.Sender.Exchange.Filling.{fill_window-acked}
use csc361_a.Sender.Exchange.Acked.{
  update_window_base-acked, resend_timedout_packets-At, all_packets_acknowledged-acked,
}

module _ (env : Env) (stray : Bytes) (tidy : IsTidy env stray)
    (sends : (k : ℕ) → env.send_fails k ≡ false) (p : Packet) (w : Window) (last_ackno : ℤ)
    (sent : List Bytes) (ne_syn : p.ackno ≢ pos 1) (ne_dat : last_ackno +ℤ pos 1 ≢ p.ackno)
    (ne_both : last_ackno +ℤ pos 1 ≢ pos 1) where
  find_mark-done : find_mark (done_marks p) p.ackno ≡ some (arrived p.ackno)
  find_mark-done = rw (eqb_ℤ_refl p.ackno) refl

  -- What follows the data packet's ACK in its round.
  closing-At :
      {E : ExitCode → Sender → Type 0} {W : Sender → Type 0} (xs : List (Option Bytes))
      → Total E W (At p w xs sent (done_marks p)) (send_fin env last_ackno) (λ _. Never)
      → Total E W
          (At p w xs sent (done_marks p))
          (do
            update_window_base env
            fill_window env
            resend_timedout_packets env
            done ← all_packets_acknowledged env
            when done (send_fin env last_ackno)
            check_time env)
          (λ _. Never)
  closing-At xs ends =
      Total-bind
        (Total-returns (update_window_base-acked env p xs sent (done_marks p) w find_mark-done))
        (λ _.
          Total-bind
            (Total-returns (fill_window-acked env p xs sent (done_marks p) w find_mark-done refl))
            (λ _.
              Total-bind
                (Total-returns
                  (resend_timedout_packets-At env p xs sent (done_marks p) w (refl, (refl, tt))))
                (λ _.
                  Total-bind
                    (Total-returns (
                      all_packets_acknowledged-acked env p xs sent (done_marks p) w find_mark-done
                        refl))
                    (λ b. record {
                      at = λ s (is, i).
                          rw is ((Total-bind ends (λ _. record { at = λ s n. absurd n })).at s i);
                    }))))

  with_mark-dat : with_mark p.ackno mark_stopped (dat_marks p) ≡ (done_marks p)
  with_mark-dat = rw (eqb_ℤ_refl p.ackno) refl

  -- The loop when the data packet's ACK comes.
  pub transfer_loop-At :
      {E : ExitCode → Sender → Type 0} {W : Sender → Type 0} (fuel : ℕ) (x : Shipment)
      (rest : List (Option Bytes))
      → Delivers x
      → x.header.type ≡ ack
      → x.header.seqno ≡ p.ackno
      → Total E W (At p w rest sent (done_marks p)) (send_fin env last_ackno) (λ _. Never)
      → Total E W
          (At p w (some x.datagram ∷ rest) sent (dat_marks p))
          (transfer_loop env (suc fuel) last_ackno)
          (λ _. Never)
  unfolding transfer_loop transfer_round handle_received
  transfer_loop-At fuel x rest delivers type_lem seqno_lem ends =
      Total-bind {Q = λ _. Never}
        (Total-bind
          (Total-returns (
            receive-At env p w (some x.datagram ∷ rest) sent (dat_marks p) x rest tidy.zeroed
              delivers refl))
          (λ o. record {
            at = λ s (r, is, d, i).
                let seqno : r.seqno ≡ p.ackno = ap (λ hd. hd.seqno) d.header_is ∙ seqno_lem in
                let found : find_mark (dat_marks p) r.seqno ≡ some (under_way p.ackno) =
                  rw (seqno, eqb_ℤ_refl p.ackno) refl in
                let after : with_mark r.seqno mark_stopped (dat_marks p) ≡ (done_marks p) =
                  ap (λ a. with_mark a mark_stopped (dat_marks p)) seqno ∙ with_mark-dat in
                rw is (
                  (Total-bind
                      (Total-returns (
                        handle_packet-At env p w rest sent (dat_marks p) r
                          (ap (λ hd. hd.type) d.header_is ∙ type_lem) found))
                      (λ _. rw after (closing-At rest ends))).at
                    s i);
          }))
        (λ _. record { at = λ s n. absurd n })

  pub transfer_loop-waits :
      (fuel : ℕ)
      → Total NeverEnds
          (At p w [] sent (dat_marks p))
          (At p w [] sent (dat_marks p))
          (transfer_loop env fuel last_ackno)
          (λ _. Never)
  unfolding transfer_loop transfer_round
  transfer_loop-waits zero = record { at = λ s i. i }
  transfer_loop-waits (suc fuel) =
      Total-bind {Q = λ _. Never}
        (Total-bind (receive-waits env p w [] sent (dat_marks p) refl)
          (λ o. record { at = λ s n. absurd n }))
        (λ _. record { at = λ s n. absurd n })
