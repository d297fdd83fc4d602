-- ===== src/Sender/Exchange/Opening.antt =====
-- initiate_transfer of src/rdps.c with a single data packet, up to the end of the SYN's exchange.
use csc361_a.Base.{
  ℕ, zero, suc, ◌<◌, ◌≡◌, ◌≢◌, refl, ap, sym, ◌∙◌, subst, true, false, Option, none, some, List, [],
  ◌∷◌, ◌++◌, arith, length, ExitCode,
}
use csc361_a.Base.Action.{Action, call, modify, pure, ◌>>=◌, ◌>>◌}
use csc361_a.Base.Int.{ℤ, pos, negsuc, eqb_ℤ, ◌+ℤ◌}
use csc361_a.Base.Text.{Bytes}
use csc361_a.Base.Total.{
  Total, Meets, Never, NeverEnds, Total-bind, Total-modify, Total-pure, Total-returns,
}
use csc361_a.Packet.{Packet, create_packet, syn, ack, dat, is_control}
use csc361_a.Packet.Create.{Carries}
use csc361_a.Packet.Scan.{IsZeroed}
use csc361_a.Packet.Control.{control_header, control_text, Carries-text, create_packet-text}
use csc361_a.Socket.{Env, send_packet, next_heap}
use csc361_a.Receiver.Delivery.{Shipment, Delivers}
use csc361_a.Timer.{create_timer, max_timers}
use csc361_a.Sender.State.{Sender, Window, sender_machine}
use csc361_a.Sender.Sendable.{IsTidy}
use csc361_a.Sender.Marks.{Mark, mark, find_mark, with_mark, mark_stopped, add_timer-marks}
use csc361_a.Sender.Timers.{stop_locked, add_dat_timers, start_new, set_timers}
use csc361_a.Sender.Transfer.{
  send_syn, resend_syn, await_syn_ack, count_syn, count_first, count_ack, is_ack,
}
use csc361_a.Sender.Exchange.{At, moved, start_new-At, stop_locked-At}
use csc361_a.Sender.Exchange.Messages.{send-At, receive-At, receive-waits}

-- The marks of a packet that was not sent, whose timer runs, and that is acknowledged.
abbrev pub waiting : ℤ → Mark
waiting a = record { number = a; unsent = true; running = false }

abbrev pub under_way : ℤ → Mark
under_way a = record { number = a; unsent = false; running = true }

abbrev pub arrived : ℤ → Mark
arrived a = record { number = a; unsent = false; running = false }

-- A packet without data, and what it carries.
abbrev pub IsControl : Bytes → ℤ → ℤ → Packet → Type 0
IsControl stray type seqno q = Carries (control_header type seqno) (pos 0) stray q

module _ (env : Env) (stray : Bytes) (tidy : IsTidy env stray)
    (sends : (k : ℕ) → env.send_fails k ≡ false) (p : Packet) (w : Window)
    (xs : List (Option Bytes)) (sent : List Bytes) where
  pub add_dat_timers-At :
      Total NeverEnds Never
        (At p w xs sent [])
        (add_dat_timers env (p ∷ []))
        (λ _. At p w xs sent (waiting p.ackno ∷ []))
  unfolding add_dat_timers set_timers create_timer eqb_ℤ
  add_dat_timers-At = record {
    at = λ s i.
        let t = create_timer p.ackno (negsuc 0) in
        let (added, same) = add_timer-marks s.timer_list t (rw i.marks_lem (omega arith)) in
        rw added (moved i refl refl refl refl (same ∙ ap (λ l. l ++ mark t ∷ []) i.marks_lem));
  }

  -- A packet without data is made.
  create_packet-At :
      (type seqno : ℤ) (ms : List Mark)
      → type ≢ dat
      → is_control type ≡ true
      → Total NeverEnds Never
          (At p w xs sent ms)
          (next_heap env >>= λ h. call (create_packet h [] 0 type seqno))
          (λ q s. IsControl stray type seqno q × At p w xs sent ms s)
  unfolding next_heap
  create_packet-At type seqno ms ne known = record {
    at = λ s i.
        let (q, made, c, _) =
          create_packet-text (env.heap s.heaps) stray type seqno (tidy.zeroed s.heaps)
            (tidy.stray_is s.heaps) tidy.stray_string tidy.stray_short ne known in
        rw made (c, moved i refl refl refl refl i.marks_lem);
  }

  -- A packet without data is made and sent, and its timer is added and started.
  pub announce-At :
      {A : Type 0} {E : ExitCode → Sender → Type 0} {W : Sender → Type 0} {R : A → Sender → Type 0}
      (type seqno : ℤ) (ms : List Mark) (f : Packet → Sender → Sender)
      (k : Packet → Action Sender A)
      → type ≢ dat
      → is_control type ≡ true
      → find_mark ms (seqno +ℤ pos 1) ≡ none
      → length ms < max_timers
      → ((q : Packet) (t : List Bytes) (s : Sender) → At p w xs t ms s → At p w xs t ms (f q s))
      → ((q : Packet)
          → IsControl stray type seqno q
          → Total E W
              (At p w xs
                (sent ++ control_text stray type seqno ∷ [])
                (ms ++ under_way (seqno +ℤ pos 1) ∷ []))
              (k q)
              R)
      → Total E W
          (At p w xs sent ms)
          (do
            h ← next_heap env
            q ← call (create_packet h [] 0 type seqno)
            send_packet env q
            modify (f q)
            modify (count_first q)
            start_new env q.ackno
            k q)
          R
  unfolding next_heap
  announce-At type seqno ms f k ne known fresh room keeps next =
      Total-bind (Total-returns (create_packet-At type seqno ms ne known)) (λ q. record {
        at = λ s (c, i).
            let number : q.ackno ≡ seqno +ℤ pos 1 = ap (λ hd. hd.ackno) c.header_is in
            let spelled = Carries-text (control_header type seqno) (pos 0) stray q c in
            let after = sent ++ control_text stray type seqno ∷ [] in
            let starts : Total NeverEnds Never (At p w xs after ms) (start_new env q.ackno)
                (λ _. At p w xs after (ms ++ under_way (seqno +ℤ pos 1) ∷ [])) =
              rw number (start_new-At env p w xs after ms (seqno +ℤ pos 1) fresh room) in
            (Total-bind {Q = λ _. At p w xs after ms}
                (Total-returns
                  (send-At env p w xs sent ms q (control_text stray type seqno) sends spelled))
                (λ _. Total-bind {Q = λ _. At p w xs after ms} (Total-modify (keeps q after)) (λ _.
                  Total-bind {Q = λ _. At p w xs after ms}
                    (Total-modify {g = count_first q}
                      (λ u a. moved a refl refl refl refl a.marks_lem))
                    (λ _. Total-bind (Total-returns starts) (λ _. next q c))))).at
              s i;
      })

  pub send_syn-At :
      (ms : List Mark)
      → find_mark ms (pos 1) ≡ none
      → length ms < max_timers
      → Total NeverEnds Never (At p w xs sent ms) (send_syn env (pos 0)) (λ q s.
        IsControl stray syn (pos 0) q
        × At p w xs (sent ++ control_text stray syn (pos 0) ∷ []) (ms ++ under_way (pos 1) ∷ []) s)
  unfolding send_syn ◌+ℤ◌ eqb_ℤ
  send_syn-At ms fresh room =
      announce-At syn (pos 0) ms count_syn pure (λ e. cc) refl fresh room
        (λ q t s i. moved i refl refl refl refl i.marks_lem) (λ q c. Total-pure (λ s i. (c, i)))

-- The loop that waits for the SYN's ACK, where nothing comes.
pub await_syn_ack-waits :
    (env : Env) (p : Packet) (w : Window) (sent : List Bytes) (ms : List Mark) (fuel : ℕ)
    (q : Packet)
    → Total NeverEnds
        (At p w [] sent ms)
        (At p w [] sent ms)
        (await_syn_ack env fuel q)
        (λ _. Never)
unfolding await_syn_ack
await_syn_ack-waits env p w sent ms zero q = record { at = λ s i. i }
await_syn_ack-waits env p w sent ms (suc fuel) q =
    Total-bind (receive-waits env p w [] sent ms refl) (λ o. record { at = λ s n. absurd n })

-- An ACK comes.
pub await_syn_ack-At :
    (env : Env) (p : Packet) (w : Window) (rest : List (Option Bytes)) (sent : List Bytes)
    (ms : List Mark) {m : Mark} (fuel : ℕ) (q : Packet) (x : Shipment)
    → ((k : ℕ) → IsZeroed (env.heap k))
    → Delivers x
    → x.header.type ≡ ack
    → find_mark ms q.ackno ≡ some m
    → Total NeverEnds Never
        (At p w (some x.datagram ∷ rest) sent ms)
        (await_syn_ack env (suc fuel) q)
        (λ _. At p w rest sent (with_mark q.ackno mark_stopped ms))
unfolding await_syn_ack eqb_ℤ
await_syn_ack-At env p w rest sent ms fuel q x z delivers type_lem found =
    Total-bind (receive-At env p w (some x.datagram ∷ rest) sent ms x rest z delivers refl) (λ o.
      record {
        at = λ s (r, is, c, i).
            let acks : is_ack o ≡ true =
              ap is_ack is ∙ ap (λ t. eqb_ℤ t ack) (ap (λ hd. hd.type) c.header_is ∙ type_lem) in
            subst
              (λ b.
                Meets NeverEnds Never (λ _. At p w rest sent (with_mark q.ackno mark_stopped ms))
                  ((elim b as (λ _. Action Sender (Unit {0})) [
                    | true ↦ modify count_ack >> stop_locked env q.ackno
                    | false ↦ resend_syn env q >> await_syn_ack env fuel q
                  ])
                    s))
              (sym acks)
              ((Total-bind {P = At p w rest sent ms} {Q = λ _. At p w rest sent ms}
                  (Total-modify {g = count_ack} (λ u a. moved a refl refl refl refl a.marks_lem))
                  (λ _. stop_locked-At env p w rest sent ms q.ackno found)).at
                s i);
      })
