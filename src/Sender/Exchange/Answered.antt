-- ===== src/Sender/Exchange/Answered.antt =====
-- initiate_transfer of src/rdps.c with a single data packet, up to its second loop.
use csc361_a.Base.{
  ℕ, zero, suc, ◌+◌, ◌≡◌, ◌≢◌, refl, ap, sym, ◌∙◌, Option, none, some, List, [], ◌∷◌, ◌++◌, arith,
  ExitCode, success, append_assoc, true, false, subst,
}
use csc361_a.Base
use csc361_a.Base.Action.{Action, ◌>>=◌, ◌>>◌}
use csc361_a.Base.Int.{ℤ, pos, eqb_ℤ_refl, ne→eqb_ℤ, ◌+ℤ◌}
use csc361_a.Base.Text.{Bytes}
use csc361_a.Base.Total.{
  Total, Never, NeverEnds, Total-bind, Total-modify, Total-returns, Total-known,
}
use csc361_a.Packet.{Packet, ack, syn, construct_string}
use csc361_a.Packet.Control.{control_text, control_header, Carries-text}
use csc361_a.Socket.{Env}
use csc361_a.Receiver.Delivery.{Shipment, Delivers}
use csc361_a.Sender.State.{Sender, Window, sender_machine}
use csc361_a.Sender.Sendable.{IsTidy}
use csc361_a.Sender.Marks.{Mark, find_mark, with_mark, mark_stopped, mark_started}
use csc361_a.Sender.Timers.{add_dat_timers, set_timers}
use csc361_a.Sender.Window.{fill_window}
use csc361_a.Sender.Transfer.{
  send_syn, await_syn_ack, init_window, transfer_loop, initiate_transfer,
}
use csc361_a.Sender.Exchange.{At, moved, lock-At}
use csc361_a.Sender.Exchange.Opening.{
  waiting, under_way, arrived, add_dat_timers-At, send_syn-At, await_syn_ack-At,
}
use csc361_a.Sender.Exchange.Filling.{filled, init_window-At, fill_window-fresh}

-- An ACK with this sequence number arrives.
pub record Acks (seqno : ℤ) (x : Shipment) : Type 0 where
  pub delivers : Delivers x
  pub type_lem : x.header.type ≡ ack
  pub seqno_lem : x.header.seqno ≡ seqno

-- The marks while the SYN's ACK is awaited, and once it has come.
abbrev pub syn_marks : Packet → List Mark
syn_marks p = waiting p.ackno ∷ under_way (pos 1) ∷ []

abbrev pub open_marks : Packet → List Mark
open_marks p = waiting p.ackno ∷ arrived (pos 1) ∷ []

module _ (env : Env) (stray : Bytes) (tidy : IsTidy env stray)
    (sends : (k : ℕ) → env.send_fails k ≡ false) (p : Packet) (text : Bytes)
    (spelled : construct_string p ≡ Base.ok text) (last_ackno : ℤ) (fuel : ℕ)
    (ne_syn : p.ackno ≢ pos 1) where
  abbrev syn_text : Bytes
  syn_text = control_text stray syn (pos 0)

  -- What follows the sending of the SYN, and its ACK.
  abbrev pub rest_of_transfer : Packet → Action Sender (Unit {0})
  rest_of_transfer q = do
    await_syn_ack env fuel q
    init_window env
    fill_window env
    transfer_loop env fuel last_ackno

  abbrev pub after_ack : Action Sender (Unit {0})
  after_ack = do init_window env; fill_window env; transfer_loop env fuel last_ackno

  pub opening-At :
      {E : ExitCode → Sender → Type 0} {W : Sender → Type 0} {ms : List Mark} (w : Window)
      (xs : List (Option Bytes))
      → ((q : Packet)
          → q.ackno ≡ pos 1
          → construct_string q ≡ Base.ok syn_text
          → Total E W (At p w xs (syn_text ∷ []) (syn_marks p)) (rest_of_transfer q) (λ _. Never))
      → Total E W (At p w xs [] ms) (initiate_transfer env fuel last_ackno) (λ _. Never)
  unfolding initiate_transfer set_timers ◌+ℤ◌
  opening-At w xs next =
      Total-bind {Q = λ _. At p w xs [] []}
        (Total-modify {g = λ s. record s { timer_list = [] }}
          (λ s i. moved i refl refl refl refl refl))
        (λ _. Total-bind (Total-returns (lock-At env p w xs [] [])) (λ _.
          Total-known (p ∷ [])
            (λ ps. do add_dat_timers env ps; q ← send_syn env (pos 0); rest_of_transfer q)
            (λ s i. i.data_lem)
            (Total-bind (Total-returns (add_dat_timers-At env stray tidy sends p w xs [])) (λ _.
              Total-bind
                (Total-returns (
                  send_syn-At env stray tidy sends p w xs [] (waiting p.ackno ∷ [])
                    (rw (ne→eqb_ℤ (pos 1) p.ackno (λ e. ne_syn (sym e))) refl) (omega arith)))
                (λ q. record {
                  at = λ s (c, i).
                      (next q (ap (λ hd. hd.ackno) c.header_is)
                          (Carries-text (control_header syn (pos 0)) (pos 0) stray q c)).at
                        s i;
                })))))

  -- The SYN's ACK comes, and opens the window.
  pub ack_syn-At :
      (w : Window) (sent : List Bytes) (x : Shipment) (rest : List (Option Bytes)) (k : ℕ)
      (q : Packet)
      → q.ackno ≡ pos 1
      → Acks (pos 1) x
      → Total NeverEnds Never
          (At p w (some x.datagram ∷ rest) sent (syn_marks p))
          (await_syn_ack env (suc k) q)
          (λ _. At p w rest sent (open_marks p))
  ack_syn-At w sent x rest k q number acks =
      let ne = ne→eqb_ℤ (pos 1) p.ackno (λ e. ne_syn (sym e)) in
      let found : find_mark (syn_marks p) q.ackno ≡ some (under_way (pos 1)) =
        rw (number, ne, eqb_ℤ_refl (pos 1)) refl in
      let opens : with_mark q.ackno mark_stopped (syn_marks p) ≡ open_marks p =
        rw (number, ne, eqb_ℤ_refl (pos 1)) refl in
      subst
        (λ ms.
          Total NeverEnds Never (At p w (some x.datagram ∷ rest) sent (syn_marks p))
            (await_syn_ack env (suc k) q) (λ _. At p w rest sent ms))
        opens
        (await_syn_ack-At env p w rest sent (syn_marks p) k q x tidy.zeroed acks.delivers
          acks.type_lem found)

  -- Then the data packet is sent.
  pub after_ack-At :
      {E : ExitCode → Sender → Type 0} {W : Sender → Type 0} (w : Window) (sent : List Bytes)
      (rest : List (Option Bytes))
      → Total E W
          (At p (filled p) rest (sent ++ text ∷ []) (under_way p.ackno ∷ arrived (pos 1) ∷ []))
          (transfer_loop env fuel last_ackno)
          (λ _. Never)
      → Total E W (At p w rest sent (open_marks p)) after_ack (λ _. Never)
  after_ack-At w sent rest next =
      let ms = open_marks p in
      let known : find_mark ms p.ackno ≡ some (waiting p.ackno) = rw (eqb_ℤ_refl p.ackno) refl in
      let sets : with_mark p.ackno mark_started ms ≡ under_way p.ackno ∷ arrived (pos 1) ∷ [] =
        rw (eqb_ℤ_refl p.ackno) refl in
      Total-bind (Total-returns (init_window-At env p rest sent ms w)) (λ _.
        Total-bind
          (Total-returns (fill_window-fresh env p rest sent ms text sends spelled known refl))
          (λ _. rw sets next))
