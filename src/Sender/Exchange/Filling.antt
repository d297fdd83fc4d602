-- ===== src/Sender/Exchange/Filling.antt =====
-- The window of src/rdps.c with a single data packet.
use csc361_a.Base.{
  ℕ, zero, suc, ◌+◌, ◌<◌, ◌≡◌, ◌≢◌, refl, ap, sym, ◌∙◌, subst, Bool, true, false, not, ◌&&◌, Option,
  none, some, List, [], ◌∷◌, ◌++◌, arith, length, ltb, All, get_elem?,
}
use csc361_a.Base
use csc361_a.Base.Action.{pure, when, ◌>>◌}
use csc361_a.Base.Int.{ℤ, pos, ◌+ℤ◌, ltb_ℤ}
use csc361_a.Base.Text.{Bytes}
use csc361_a.Base.Total.{
  Total, Never, NeverEnds, Total-bind, Total-gets, Total-modify, Total-pure, Total-when, Total-elim,
  Total-known,
}
use csc361_a.Packet.{Packet, construct_string, window_size}
use csc361_a.Socket.{Env}
use csc361_a.Sender.State.{Window}
use csc361_a.Sender.Marks.{Mark, find_mark, with_mark, mark_started, is_acked}
use csc361_a.Sender.Window.{
  in_window, count_fresh, occupy, send_fresh, visit, fill_from, fill_window,
}
use csc361_a.Sender.Transfer.{init_window}
use csc361_a.Sender.Exchange.{At, moved, start_locked-At, packet_ackd-At}
use csc361_a.Sender.Exchange.Messages.{send-At}

abbrev pub opened : Packet → Window
opened p = record { size = pos window_size; occupied = pos 0; base_seqno = p.seqno }

abbrev pub filled : Packet → Window
filled p = record {
  size = pos window_size;
  occupied = pos 0 +ℤ p.payload_length;
  base_seqno = p.seqno;
}

-- Its first packet is always in the window.
at_base :
    (p : Packet) (n : ℤ)
    → in_window (record { size = pos window_size; occupied = n; base_seqno = p.seqno }) p ≡ true
unfolding ◌+ℤ◌
at_base p n = ground arith

module _ (env : Env) (p : Packet) (xs : List (Option Bytes)) (sent : List Bytes)
    (ms : List Mark) where
  pub init_window-At :
      (w : Window)
      → Total NeverEnds Never
          (At p w xs sent ms)
          (init_window env)
          (λ _. At p (opened p) xs sent ms)
  unfolding init_window
  init_window-At w = record {
    at = λ s i. rw i.data_lem (record {
      data_lem = refl;
      window_lem = refl;
      inbox_lem = i.inbox_lem;
      sent_lem = i.sent_lem;
      marks_lem = i.marks_lem;
    });
  }

  -- The packet is sent, and its timer is started.
  send_fresh-At :
      (text : Bytes) {m : Mark}
      → ((k : ℕ) → env.send_fails k ≡ false)
      → construct_string p ≡ Base.ok text
      → find_mark ms p.ackno ≡ some m
      → Total NeverEnds Never
          (At p (opened p) xs sent ms)
          (send_fresh env p)
          (λ _. At p (filled p) xs (sent ++ text ∷ []) (with_mark p.ackno mark_started ms))
  unfolding send_fresh
  send_fresh-At text sends spelled found =
      let after = sent ++ text ∷ [] in
      let ns = with_mark p.ackno mark_started ms in
      Total-bind (send-At env p (opened p) xs sent ms p text sends spelled) (λ _.
        Total-bind {P = At p (opened p) xs after ms} {Q = λ _. At p (opened p) xs after ms}
          (Total-modify {g = count_fresh p} (λ u a. moved a refl refl refl refl a.marks_lem))
          (λ _. Total-bind (start_locked-At env p (opened p) xs after ms p.ackno found) (λ _.
            Total-modify {P = At p (opened p) xs after ns} {g = occupy p} (λ u a. record {
              data_lem = a.data_lem;
              window_lem =
                  ap {A = Window} (λ v. record v { occupied = v.occupied +ℤ p.payload_length })
                    a.window_lem;
              inbox_lem = a.inbox_lem;
              sent_lem = a.sent_lem;
              marks_lem = a.marks_lem;
            }))))

  -- A fresh packet is sent.
  visit-fresh :
      (text : Bytes) {m : Mark}
      → ((k : ℕ) → env.send_fails k ≡ false)
      → construct_string p ≡ Base.ok text
      → find_mark ms p.ackno ≡ some m
      → is_acked m ≡ false
      → Total NeverEnds Never
          (At p (opened p) xs sent ms)
          (visit env p)
          (λ _. At p (filled p) xs (sent ++ text ∷ []) (with_mark p.ackno mark_started ms))
  unfolding visit
  visit-fresh text sends spelled found fresh = record {
    at = λ s i.
        let inside = ap (λ v. in_window v p) i.window_lem ∙ at_base p (pos 0) in
        rw inside (
          (Total-bind {P = At p (opened p) xs sent ms}
              (packet_ackd-At env p (opened p) xs sent ms p found)
              (λ b. record {
                at = λ u (is, a). rw (is, fresh) ((send_fresh-At text sends spelled found).at u a);
              })).at
            s i);
  }

  -- One that is acknowledged is not.
  visit-acked :
      (w : Window) {m : Mark}
      → find_mark ms p.ackno ≡ some m
      → is_acked m ≡ true
      → Total NeverEnds Never (At p w xs sent ms) (visit env p) (λ _. At p w xs sent ms)
  unfolding visit
  visit-acked w found acked =
      Total-bind {Q = λ _. At p w xs sent ms} (Total-gets {g = λ s. s.window} (λ s i. i)) (λ v.
        Total-when (in_window v p) (λ s i. i)
          (Total-bind {k = λ b. when (not b) (send_fresh env p)}
            (packet_ackd-At env p w xs sent ms p found)
            (λ b. record { at = λ u (is, a). rw (is, acked) a })))

  pub fill_window-fresh :
      (text : Bytes) {m : Mark}
      → ((k : ℕ) → env.send_fails k ≡ false)
      → construct_string p ≡ Base.ok text
      → find_mark ms p.ackno ≡ some m
      → is_acked m ≡ false
      → Total NeverEnds Never
          (At p (opened p) xs sent ms)
          (fill_window env)
          (λ _. At p (filled p) xs (sent ++ text ∷ []) (with_mark p.ackno mark_started ms))
  unfolding fill_window fill_from
  fill_window-fresh text sends spelled found fresh =
      Total-known (p ∷ []) (fill_from env) (λ s i. i.data_lem)
        (Total-known (opened p)
          (λ v. elim (ltb_ℤ v.occupied v.size) [
            | true ↦ visit env p >> fill_from env []
            | false ↦ pure tt
          ])
          (λ s i. i.window_lem)
          (Total-bind (visit-fresh text sends spelled found fresh) (λ _. Total-pure (λ s i. i))))

  -- With the packet acknowledged, the window stays as it is.
  pub fill_window-acked :
      (w : Window) {m : Mark}
      → find_mark ms p.ackno ≡ some m
      → is_acked m ≡ true
      → Total NeverEnds Never (At p w xs sent ms) (fill_window env) (λ _. At p w xs sent ms)
  unfolding fill_window fill_from
  fill_window-acked w found acked =
      Total-known (p ∷ []) (fill_from env) (λ s i. i.data_lem)
        (Total-known w
          (λ v. elim (ltb_ℤ v.occupied v.size) [
            | true ↦ visit env p >> fill_from env []
            | false ↦ pure tt
          ])
          (λ s i. i.window_lem)
          (Total-elim (ltb_ℤ w.occupied w.size)
            (Total-bind (visit-acked w found acked) (λ _. Total-pure (λ s i. i)))
            (Total-pure (λ s i. i))))
