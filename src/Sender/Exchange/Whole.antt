-- ===== src/Sender/Exchange/Whole.antt =====
-- initiate_transfer of src/rdps.c with a single data packet, as its receiver sees it: what it sends
-- after each of the ACKs.
use csc361_a.Base.{
  ℕ, zero, suc, ◌+◌, ◌≡◌, ◌≢◌, refl, ap, sym, ◌∙◌, Option, none, some, List, [], ◌∷◌, ◌++◌, arith,
  ExitCode, success, append_assoc, true, false,
}
use csc361_a.Base
use csc361_a.Base.Action.{Action, exit}
use csc361_a.Base.Int.{ℤ, pos, ◌+ℤ◌}
use csc361_a.Base.Text.{Bytes}
use csc361_a.Base.Total.{
  Total, Never, NeverEnds, Meets-blocked, Meets-exit, Total-bind, Total-returns,
}
use csc361_a.Packet.{Packet, fin, syn, construct_string}
use csc361_a.Packet.Control.{control_text}
use csc361_a.Socket.{Env}
use csc361_a.Socket.Turn.{with_inbox, WaitsWith, EndsWith}
use csc361_a.Receiver.Delivery.{Shipment}
use csc361_a.Sender.State.{Sender, Window, sender_machine}
use csc361_a.Sender.Sendable.{IsTidy}
use csc361_a.Sender.Marks.{Mark, marks}
use csc361_a.Sender.Transfer.{send_fin, transfer_loop, initiate_transfer}
use csc361_a.Sender.Exchange.{At}
use csc361_a.Sender.Exchange.Opening.{await_syn_ack-waits}
use csc361_a.Sender.Exchange.Filling.{filled}
use csc361_a.Sender.Exchange.Fin.{IsOver, dat_marks, done_marks, send_fin-waits, send_fin-ends}
use csc361_a.Sender.Exchange.Ending.{transfer_loop-At, transfer_loop-waits}
use csc361_a.Sender.Exchange.Answered.{Acks, syn_marks, opening-At, ack_syn-At, after_ack-At}

pub At-waits :
    {A : Type 0} {p : Packet} {w v : Window} {xs : List (Option Bytes)} {sent : List Bytes}
    {ms ns : List Mark} {m : Action Sender A} (s : Sender)
    → Total NeverEnds (At p w [] sent ns) (At p v xs [] ms) m (λ _. Never)
    → At p v xs [] ms s
    → WaitsWith sent (m s)
At-waits {m = m} s h i = let (t, e, j) = Meets-blocked (m s) (h.at s i) in (t, e, j.sent_lem)

At-ends :
    {A : Type 0} {p : Packet} {w v : Window} {xs ys : List (Option Bytes)} {sent : List Bytes}
    {ms : List Mark} {m : Action Sender A} (n : ℤ) (s : Sender)
    → Total (IsOver p w n sent xs) Never (At p v ys [] ms) m (λ _. Never)
    → At p v ys [] ms s
    → EndsWith sent (m s)
At-ends {m = m} n s h i =
    let (c, t, e, (zero_code, j)) = Meets-exit (m s) (h.at s i) in
    (t, e ∙ ap (λ c. exit c t) zero_code, j.sent_lem)

-- A sender with a single data packet, before anything was sent.
pub record IsReady (p : Packet) (text : Bytes) (last_ackno : ℤ) (s : Sender) : Type 0 where
  pub only : s.data_packets ≡ p ∷ []
  pub nothing_sent : s.sent ≡ []
  pub spells : construct_string p ≡ Base.ok text
  pub not_syn : p.ackno ≢ pos 1
  pub not_dat : last_ackno +ℤ pos 1 ≢ p.ackno
  pub not_both : last_ackno +ℤ pos 1 ≢ pos 1

module _ (env : Env) (stray : Bytes) (fuel : ℕ) (p : Packet) (text : Bytes) (last_ackno : ℤ)
    (s : Sender) (tidy : IsTidy env stray) (sends : (k : ℕ) → env.send_fails k ≡ false)
    (r : IsReady p text last_ackno s) where
  pub at_start :
      (xs : List (Option Bytes)) → At p s.window xs [] (marks s.timer_list) (with_inbox xs s)
  at_start xs = record {
    data_lem = r.only;
    window_lem = refl;
    inbox_lem = refl;
    sent_lem = r.nothing_sent;
    marks_lem = refl;
  }

  -- From the start to the second loop.
  synced-At :
      {E : ExitCode → Sender → Type 0} {W : Sender → Type 0} (x : Shipment)
      (rest : List (Option Bytes))
      → Acks (pos 1) x
      → Total E W
          (At p (filled p) rest (control_text stray syn (pos 0) ∷ text ∷ []) (dat_marks p))
          (transfer_loop env (suc fuel) last_ackno)
          (λ _. Never)
      → Total E W
          (At p s.window (some x.datagram ∷ rest) [] (marks s.timer_list))
          (initiate_transfer env (suc fuel) last_ackno)
          (λ _. Never)
  synced-At x rest acks next =
      opening-At env stray tidy sends p text r.spells last_ackno (suc fuel) r.not_syn s.window
        (some x.datagram ∷ rest)
        (λ q number _.
          Total-bind
            (Total-returns (
              ack_syn-At env stray tidy sends p text r.spells last_ackno (suc fuel) r.not_syn
                s.window (control_text stray syn (pos 0) ∷ []) x rest fuel q number acks))
            (λ _.
              after_ack-At env stray tidy sends p text r.spells last_ackno (suc fuel) r.not_syn
                s.window (control_text stray syn (pos 0) ∷ []) rest next))

  -- From there to the sending of the FIN.
  acked-At :
      {E : ExitCode → Sender → Type 0} {W : Sender → Type 0} (x y : Shipment)
      (rest : List (Option Bytes))
      → Acks (pos 1) x
      → Acks p.ackno y
      → Total E W
          (At p (filled p) rest (control_text stray syn (pos 0) ∷ text ∷ []) (done_marks p))
          (send_fin env last_ackno)
          (λ _. Never)
      → Total E W
          (At p s.window (some x.datagram ∷ some y.datagram ∷ rest) [] (marks s.timer_list))
          (initiate_transfer env (suc fuel) last_ackno)
          (λ _. Never)
  acked-At x y rest ax ay next = synced-At x (some y.datagram ∷ rest) ax (
      transfer_loop-At env stray tidy sends p (filled p) last_ackno
        (control_text stray syn (pos 0) ∷ text ∷ []) r.not_syn r.not_dat r.not_both fuel y rest
        ay.delivers ay.type_lem ay.seqno_lem next)

  transfer_waits_first :
      WaitsWith
        (control_text stray syn (pos 0) ∷ [])
        (initiate_transfer env (suc fuel) last_ackno (with_inbox [] s))
  transfer_waits_first =
      At-waits (with_inbox [] s)
        (opening-At env stray tidy sends p text r.spells last_ackno (suc fuel) r.not_syn s.window []
          (λ q number _.
            Total-bind
              (await_syn_ack-waits env p s.window (control_text stray syn (pos 0) ∷ [])
                (syn_marks p) (suc fuel) q)
              (λ _. record { at = λ u n. absurd n })))
        (at_start [])

  transfer_waits_second :
      (x : Shipment)
      → Acks (pos 1) x
      → WaitsWith
          (control_text stray syn (pos 0) ∷ text ∷ [])
          (initiate_transfer env (suc fuel) last_ackno (with_inbox (some x.datagram ∷ []) s))
  transfer_waits_second x ax =
      At-waits (with_inbox (some x.datagram ∷ []) s)
        (synced-At x [] ax (
          transfer_loop-waits env stray tidy sends p (filled p) last_ackno
            (control_text stray syn (pos 0) ∷ text ∷ []) r.not_syn r.not_dat r.not_both (suc fuel)))
        (at_start (some x.datagram ∷ []))

  transfer_waits_third :
      (x y : Shipment)
      → Acks (pos 1) x
      → Acks p.ackno y
      → WaitsWith (control_text stray syn (pos 0) ∷ text ∷ control_text stray fin last_ackno ∷ []) (
          initiate_transfer env
            (suc fuel)
            last_ackno
            (with_inbox (some x.datagram ∷ some y.datagram ∷ []) s))
  transfer_waits_third x y ax ay =
      At-waits (with_inbox (some x.datagram ∷ some y.datagram ∷ []) s)
        (acked-At x y [] ax ay (
          send_fin-waits env stray tidy sends p (filled p) last_ackno
            (control_text stray syn (pos 0) ∷ text ∷ []) r.not_syn r.not_dat r.not_both))
        (at_start (some x.datagram ∷ some y.datagram ∷ []))

  transfer_ends :
      (x y z : Shipment)
      → Acks (pos 1) x
      → Acks p.ackno y
      → Acks (last_ackno +ℤ pos 1) z
      → EndsWith (control_text stray syn (pos 0) ∷ text ∷ control_text stray fin last_ackno ∷ []) (
          initiate_transfer env
            (suc fuel)
            last_ackno
            (with_inbox (some x.datagram ∷ some y.datagram ∷ some z.datagram ∷ []) s))
  transfer_ends x y z ax ay az =
      At-ends last_ackno (with_inbox (some x.datagram ∷ some y.datagram ∷ some z.datagram ∷ []) s)
        (acked-At x y (some z.datagram ∷ []) ax ay (
          send_fin-ends env stray tidy sends p (filled p) last_ackno
            (control_text stray syn (pos 0) ∷ text ∷ []) r.not_syn r.not_dat r.not_both z []
            az.delivers az.type_lem az.seqno_lem))
        (at_start (some x.datagram ∷ some y.datagram ∷ some z.datagram ∷ []))

-- A sender with a single data packet whose numbers differ from those of its SYN and FIN, over
-- zeroed memory with a short string without semicolon at the unset pointer, where no sendto fails,
-- whatever the clock and the polling thread do. It sends the SYN and waits; given an ACK for it, it
-- sends the data packet and waits; given an ACK for that, it sends the FIN and waits; and given an
-- ACK for that, it ends with exit(0). Each is sent once.
pub initiate_transfer-exchange :
    (env : Env) (stray : Bytes) (fuel : ℕ) (p : Packet) (text : Bytes) (last_ackno : ℤ) (s : Sender)
    (x y z : Shipment)
    → IsTidy env stray
    → ((k : ℕ) → env.send_fails k ≡ false)
    → IsReady p text last_ackno s
    → Acks (pos 1) x
    → Acks p.ackno y
    → Acks (last_ackno +ℤ pos 1) z
    → WaitsWith
        (control_text stray syn (pos 0) ∷ [])
        (initiate_transfer env (suc fuel) last_ackno (with_inbox [] s))
      × WaitsWith
          (control_text stray syn (pos 0) ∷ text ∷ [])
          (initiate_transfer env (suc fuel) last_ackno (with_inbox (some x.datagram ∷ []) s))
      × WaitsWith (control_text stray syn (pos 0) ∷ text ∷ control_text stray fin last_ackno ∷ []) (
          initiate_transfer env
            (suc fuel)
            last_ackno
            (with_inbox (some x.datagram ∷ some y.datagram ∷ []) s))
      × EndsWith (control_text stray syn (pos 0) ∷ text ∷ control_text stray fin last_ackno ∷ []) (
          initiate_transfer env
            (suc fuel)
            last_ackno
            (with_inbox (some x.datagram ∷ some y.datagram ∷ some z.datagram ∷ []) s))
initiate_transfer-exchange env stray fuel p text last_ackno s x y z tidy sends r ax ay az = (
  transfer_waits_first env stray fuel p text last_ackno s tidy sends r,
  transfer_waits_second env stray fuel p text last_ackno s tidy sends r x ax,
  transfer_waits_third env stray fuel p text last_ackno s tidy sends r x y ax ay,
  transfer_ends env stray fuel p text last_ackno s tidy sends r x y z ax ay az,
)
