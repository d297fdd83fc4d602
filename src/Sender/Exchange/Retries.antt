-- ===== src/Sender/Exchange/Retries.antt =====
-- The SYN of src/rdps.c that is not answered in time.
use csc361_a.Base.{
  ℕ, zero, suc, ◌+◌, ◌≤◌, ◌≡◌, refl, ap, sym, ◌∙◌, subst, Option, none, some, List, [], ◌∷◌, ◌++◌,
  arith, replicate, append_assoc, append-nil, false, true, ExitCode,
}
use csc361_a.Base
use csc361_a.Base.Int.{ℤ, pos}
use csc361_a.Base.Text.{Bytes}
use csc361_a.Base.Total.{Total, Never, NeverEnds, Total-bind, Total-returns, Total-modify}
use csc361_a.Packet.{Packet, syn, construct_string}
use csc361_a.Packet.Scan.{IsZeroed}
use csc361_a.Packet.Control.{control_text}
use csc361_a.Socket.{Env, is_too_late, check_time, read_clock}
use csc361_a.Socket.Turn.{with_inbox, WaitsWith}
use csc361_a.Receiver.Delivery.{Shipment}
use csc361_a.Sender.State.{Sender, Window, sender_machine}
use csc361_a.Sender.Sendable.{IsTidy}
use csc361_a.Sender.Marks.{Mark, marks}
use csc361_a.Sender.Transfer.{await_syn_ack, resend_syn, count_syn, initiate_transfer}
use csc361_a.Sender.Exchange.{At, moved}
use csc361_a.Sender.Exchange.Messages.{send-At, receive-late}
use csc361_a.Sender.Exchange.Opening.{await_syn_ack-waits}
use csc361_a.Sender.Exchange.Filling.{filled}
use csc361_a.Sender.Exchange.Ending.{transfer_loop-waits}
use csc361_a.Sender.Exchange.Answered.{
  Acks, syn_marks, after_ack, opening-At, ack_syn-At, after_ack-At,
}
use csc361_a.Sender.Exchange.Whole.{IsReady, At-waits, at_start}

-- `n` timeouts, and then the rest.
abbrev pub after_timeouts : ℕ → List (Option Bytes) → List (Option Bytes)
after_timeouts zero xs = xs
after_timeouts (suc n) xs = none ∷ after_timeouts n xs

module _ (env : Env) (zeroed : (k : ℕ) → IsZeroed (env.heap k))
    (sends : (k : ℕ) → env.send_fails k ≡ false)
    (in_time : (k : ℕ) → is_too_late (env.clock k) ≡ false) (p : Packet) (w : Window)
    (ms : List Mark) (q : Packet) (text : Bytes) (spelled : construct_string q ≡ Base.ok text) where
  check_time-At :
      (xs : List (Option Bytes)) (sent : List Bytes)
      → Total NeverEnds Never (At p w xs sent ms) (check_time env) (λ _. At p w xs sent ms)
  unfolding check_time read_clock
  check_time-At xs sent = record {
    at = λ s i. rw (in_time s.clocks) (moved i refl refl refl refl i.marks_lem);
  }

  resend_syn-At :
      (xs : List (Option Bytes)) (sent : List Bytes)
      → Total NeverEnds Never
          (At p w xs sent ms)
          (resend_syn env q)
          (λ _. At p w xs (sent ++ text ∷ []) ms)
  unfolding resend_syn
  resend_syn-At xs sent =
      Total-bind {Q = λ _. At p w xs (sent ++ text ∷ []) ms}
        (send-At env p w xs sent ms q text sends spelled)
        (λ _.
          Total-bind {Q = λ _. At p w xs (sent ++ text ∷ []) ms}
            (Total-modify {g = count_syn q} (λ s i. moved i refl refl refl refl i.marks_lem))
            (λ _. check_time-At xs (sent ++ text ∷ [])))

  -- Each timeout makes the loop send the SYN again.
  pub await_syn_ack-late :
      {E : ExitCode → Sender → Type 0} {W : Sender → Type 0} {R : Unit {0} → Sender → Type 0}
      (n fuel k : ℕ) (xs : List (Option Bytes)) (sent : List Bytes)
      → k ≡ n + fuel
      → Total E W (At p w xs (sent ++ replicate n text) ms) (await_syn_ack env fuel q) R
      → Total E W (At p w (after_timeouts n xs) sent ms) (await_syn_ack env k q) R
  unfolding await_syn_ack
  await_syn_ack-late {E} {W} {R} zero fuel k xs sent e h =
      let same : k ≡ fuel = omega arith in
      rw same
        (subst (λ l. Total E W (At p w xs l ms) (await_syn_ack env fuel q) R) (append-nil sent) h)
  await_syn_ack-late (suc n) fuel zero xs sent e h = absurd (omega arith)
  await_syn_ack-late {E} {W} {R} (suc n) fuel (suc k) xs sent e h =
      Total-bind (Total-returns (receive-late env p w (after_timeouts n xs) sent ms zeroed)) (λ o.
        record {
          at = λ s (is, i). rw is (
              (Total-bind (Total-returns (resend_syn-At (after_timeouts n xs) sent)) (λ _.
                  await_syn_ack-late n fuel k xs (sent ++ text ∷ []) (omega arith) (
                    subst (λ l. Total E W (At p w xs l ms) (await_syn_ack env fuel q) R)
                      (sym (append_assoc sent (text ∷ []) (replicate n text))) h))).at
                s i);
        })

module _ (env : Env) (stray : Bytes) (n fuel : ℕ) (p : Packet) (text : Bytes) (last_ackno : ℤ)
    (s : Sender) (tidy : IsTidy env stray) (sends : (k : ℕ) → env.send_fails k ≡ false)
    (in_time : (k : ℕ) → is_too_late (env.clock k) ≡ false) (r : IsReady p text last_ackno s) where
  abbrev syns : List Bytes
  syns = control_text stray syn (pos 0) ∷ replicate n (control_text stray syn (pos 0))

  -- The SYN is sent again after each timeout, and then the loop goes on.
  retried-At :
      {W : Sender → Type 0} {R : Unit {0} → Sender → Type 0} (xs : List (Option Bytes))
      → ((q : Packet)
          → q.ackno ≡ pos 1
          → Total NeverEnds W
              (At p s.window xs syns (syn_marks p))
              (await_syn_ack env (suc fuel) q)
              R)
      → ((v : Unit {0})
          → Total NeverEnds W
              (R v)
              (after_ack env stray tidy sends p text r.spells last_ackno (suc (n + fuel)) r.not_syn)
              (λ _. Never))
      → Total NeverEnds W
          (At p s.window (after_timeouts n xs) [] (marks s.timer_list))
          (initiate_transfer env (suc (n + fuel)) last_ackno)
          (λ _. Never)
  retried-At xs waits next =
      opening-At env stray tidy sends p text r.spells last_ackno (suc (n + fuel)) r.not_syn s.window
        (after_timeouts n xs)
        (λ q number spelled.
          Total-bind
            (await_syn_ack-late env tidy.zeroed sends in_time p s.window (syn_marks p) q
              (control_text stray syn (pos 0)) spelled n (suc fuel) (suc (n + fuel)) xs
              (control_text stray syn (pos 0) ∷ []) (omega arith) (waits q number))
            next)

  retries_wait :
      WaitsWith syns
        (initiate_transfer env (suc (n + fuel)) last_ackno (with_inbox (after_timeouts n []) s))
  retries_wait =
      At-waits (with_inbox (after_timeouts n []) s)
        (retried-At []
          (λ q number. await_syn_ack-waits env p s.window syns (syn_marks p) (suc fuel) q)
          (λ _. record { at = λ u n. absurd n }))
        (at_start env stray fuel p text last_ackno s tidy sends r (after_timeouts n []))

  retries_answered :
      (x : Shipment)
      → Acks (pos 1) x
      → WaitsWith (syns ++ text ∷ []) (
          initiate_transfer env
            (suc (n + fuel))
            last_ackno
            (with_inbox (after_timeouts n (some x.datagram ∷ [])) s))
  retries_answered x acks =
      At-waits (with_inbox (after_timeouts n (some x.datagram ∷ [])) s)
        (retried-At (some x.datagram ∷ [])
          (λ q number. Total-returns (
            ack_syn-At env stray tidy sends p text r.spells last_ackno (suc (n + fuel)) r.not_syn
              s.window syns x [] fuel q number acks))
          (λ _.
            after_ack-At env stray tidy sends p text r.spells last_ackno (suc (n + fuel)) r.not_syn
              s.window syns []
              (transfer_loop-waits env stray tidy sends p (filled p) last_ackno (syns ++ text ∷ [])
                r.not_syn r.not_dat r.not_both (suc (n + fuel)))))
        (at_start env stray fuel p text last_ackno s tidy sends r
          (after_timeouts n (some x.datagram ∷ [])))

-- A sender with a single data packet whose numbers differ from those of its SYN and FIN, over
-- zeroed memory with a short string without semicolon at the unset pointer, where no sendto fails
-- and every reading of the clock is before the time limit, whatever the polling thread does. When
-- its receive times out n times and then finds nothing, it has sent its SYN n + 1 times and waits;
-- when an ACK for the SYN comes after the n timeouts, it has sent the SYN n + 1 times and then the
-- data packet once, and waits. This holds for every n for which the fuel is at least n + 1.
pub initiate_transfer-retries :
    (env : Env) (stray : Bytes) (n fuel : ℕ) (p : Packet) (text : Bytes) (last_ackno : ℤ)
    (s : Sender) (x : Shipment)
    → IsTidy env stray
    → ((k : ℕ) → env.send_fails k ≡ false)
    → ((k : ℕ) → is_too_late (env.clock k) ≡ false)
    → IsReady p text last_ackno s
    → Acks (pos 1) x
    → WaitsWith
        (replicate (suc n) (control_text stray syn (pos 0)))
        (initiate_transfer env (suc (n + fuel)) last_ackno (with_inbox (after_timeouts n []) s))
      × WaitsWith (replicate (suc n) (control_text stray syn (pos 0)) ++ text ∷ []) (
          initiate_transfer env
            (suc (n + fuel))
            last_ackno
            (with_inbox (after_timeouts n (some x.datagram ∷ [])) s))
initiate_transfer-retries env stray n fuel p text last_ackno s x tidy sends in_time r acks = (
  retries_wait env stray n fuel p text last_ackno s tidy sends in_time r,
  retries_answered env stray n fuel p text last_ackno s tidy sends in_time r x acks,
)
