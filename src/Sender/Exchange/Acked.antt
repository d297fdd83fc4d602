-- ===== src/Sender/Exchange/Acked.antt =====
-- What src/rdps.c does in a round once its only data packet is acknowledged.
use csc361_a.Base.{
  ℕ, zero, suc, ◌+◌, ◌≡◌, refl, true, false, ◌&&◌, Option, none, some, List, [], ◌∷◌, arith, length,
  All, get_elem?,
}
use mathlib.Core.Bool.{and-false}
use csc361_a.Timer.{PacketTimer}
use csc361_a.Base.Action.{Action, pure, when}
use csc361_a.Base.Int.{eqb_ℤ}
use csc361_a.Base.Text.{Bytes}
use csc361_a.Base.Total.{
  Total, Never, NeverEnds, Total-bind, Total-gets, Total-pure, Total-when, Total-known,
}
use csc361_a.Packet.{Packet}
use csc361_a.Socket.{Env}
use csc361_a.Sender.State.{Sender, Window}
use csc361_a.Sender.Marks.{Mark, marks, find_mark, is_acked}
use csc361_a.Sender.Timers.{all_packets_acknowledged, all_acknowledged}
use csc361_a.Sender.Window.{
  slide, update_from, update_window_base, resend_from, resend_matching, resend_timedout_packets,
}
use csc361_a.Sender.Exchange.{At, lock-At, packet_ackd-At}

stopped_at :
    (ts : List PacketTimer) (i : ℕ)
    → All (λ (m : Mark). m.running ≡ false) (marks ts)
    → (t : PacketTimer) → get_elem? ts i ≡ some t
    → t.running ≡ false
stopped_at [] i h t e = absurd (cc)
stopped_at (u ∷ ts) zero (h, _) t e = ground (arith, e)
stopped_at (u ∷ ts) (suc i) (_, hs) t e = stopped_at ts i hs t e

module _ (env : Env) (p : Packet) (xs : List (Option Bytes)) (sent : List Bytes)
    (ms : List Mark) where
  pub update_window_base-acked :
      (w : Window) {m : Mark}
      → find_mark ms p.ackno ≡ some m
      → Total NeverEnds Never (At p w xs sent ms) (update_window_base env) (λ _. At p w xs sent ms)
  unfolding update_window_base update_from slide
  update_window_base-acked w found =
      Total-known (p ∷ []) (update_from env) (λ s i. i.data_lem)
        (Total-bind {Q = λ _. At p w xs sent ms} (Total-gets {g = λ s. s.window} (λ s i. i)) (λ v.
          Total-bind {Q = λ _. At p w xs sent ms}
            (Total-when (eqb_ℤ p.seqno v.base_seqno) (λ s i. i)
              (Total-bind (packet_ackd-At env p w xs sent ms p found)
                (λ b. Total-when b (λ s (_, i). i) (Total-pure (λ s (_, i). i)))))
            (λ _. Total-pure (λ s i. i))))

  resend_one :
      (w : Window) (i : ℕ) (ps : List Packet) (o : Option PacketTimer)
      → ((t : PacketTimer) → o ≡ some t → t.running ≡ false)
      → Total NeverEnds Never
          (At p w xs sent ms)
          (elim o as (λ _. Action Sender (Unit {0})) [
            | none ↦ pure tt
            | some t ↦ when (t.timedout && t.running) (resend_matching env i t ps)
          ])
          (λ _. At p w xs sent ms)
  resend_one w i ps none h = Total-pure (λ s a. a)
  resend_one w i ps (some t) h = rw (h t refl, and-false t.timedout) (Total-pure (λ s a. a))

  -- With no timer running, nothing is sent again.
  pub resend_from-At :
      (w : Window) (n i : ℕ)
      → All (λ (m : Mark). m.running ≡ false) ms
      → Total NeverEnds Never (At p w xs sent ms) (resend_from env n i) (λ _. At p w xs sent ms)
  unfolding resend_from
  resend_from-At w zero i stopped = Total-pure (λ s a. a)
  resend_from-At w (suc n) i stopped =
      Total-bind {Q = λ v s. (v ≡ s) × At p w xs sent ms s}
        (Total-gets {g = λ s. s} (λ s a. (refl, a)))
        (λ v. record {
          at = λ s (e, a).
              let still = stopped_at v.timer_list i (rw (e, a.marks_lem) stopped) in
              (Total-bind {P = At p w xs sent ms}
                  (resend_one w i v.data_packets (get_elem? v.timer_list i) still)
                  (λ _. resend_from-At w n (i + 1) stopped)).at
                s a;
        })

  pub resend_timedout_packets-At :
      (w : Window)
      → All (λ (m : Mark). m.running ≡ false) ms
      → Total NeverEnds Never
          (At p w xs sent ms)
          (resend_timedout_packets env)
          (λ _. At p w xs sent ms)
  unfolding resend_timedout_packets
  resend_timedout_packets-At w stopped = Total-bind (lock-At env p w xs sent ms) (λ _.
      Total-bind {Q = λ _. At p w xs sent ms} (Total-gets {g = λ s. s.timer_list} (λ s i. i))
        (λ ts. resend_from-At w (length ts) 0 stopped))

  pub all_packets_acknowledged-acked :
      (w : Window) {m : Mark}
      → find_mark ms p.ackno ≡ some m
      → is_acked m ≡ true
      → Total NeverEnds Never
          (At p w xs sent ms)
          (all_packets_acknowledged env)
          (λ b s. (b ≡ true) × At p w xs sent ms s)
  unfolding all_packets_acknowledged all_acknowledged
  all_packets_acknowledged-acked w found acked =
      Total-known (p ∷ []) (all_acknowledged env) (λ s i. i.data_lem)
        (Total-bind (packet_ackd-At env p w xs sent ms p found)
          (λ b. record { at = λ s (is, i). rw (is, acked) (refl, i) }))
