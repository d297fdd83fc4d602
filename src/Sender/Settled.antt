-- ===== src/Sender/Settled.antt =====
-- A packet that counts as acknowledged in src/rdps.c stays so during the exchange of the FIN.
pub mod Fin
use csc361_a.Base.{
  ℕ, zero, suc, ◌≡◌, ◌≢◌, refl, ap, sym, ◌∙◌, subst, Bool, true, false, Option, none, some, List,
  [], ◌∷◌, ◌++◌, ◌+◌, ◌⊎◌, All, Result, success, arith, inl, inr, Option-cases, Bool-cases, ltb,
  length, if◌then◌else◌, failure,
}
use csc361_a.Base
use mathlib.Core.Option
use csc361_a.Timer.Lookup.{at_timer-eq}
use csc361_a.Base.Action.{Action, call, ok, exit, gets, ◌>>=◌, ◌>>◌, exit_with, pure}
use csc361_a.Base.Int.{ℤ, pos, negsuc, ne→eqb_ℤ, ◌+ℤ◌, eqb_ℤ, eqb_ℤ-cases}
use csc361_a.Packet.{
  Packet, Heap, ack, rst, fin, create_packet, finish_packet, store_payload, create_dat,
  create_control,
}
use csc361_a.Sender.Window.{handle_packet}
use csc361_a.Sender.Transfer.{count_fin, count_first, finish_if, send_fin}
use csc361_a.Sender.Acknowledged.{IsAckd, AllAckd, is_ackd-true}
use csc361_a.Socket.{Env, read_clock}
use csc361_a.Socket.Frame.{
  Frame, IsFrame, Framed, Framed-through, Frame-bind, Frame-gets, Frame-pure, Frame-failure,
  Frame-modify, Frame-if, Frame-when, Frame-next_heap, Frame-send_packet, Frame-receive,
}
use csc361_a.Timer.{
  PacketTimer, find_timer, add_timer, create_timer, stop_timer, max_timers, stopped,
}
use csc361_a.Sender.State.{Sender, sender_machine}
use csc361_a.Sender.Marks.{
  Mark, mark, marks, find_mark, with_mark, mark_started, mark_stopped, is_acked, sweep-marks,
  find_timer-marks, start_timer-marks, stop_timer-marks, marks-append,
}
use csc361_a.Sender.Timers.{
  tick, clocks_of, count_lock, sweeps, lock, start, start_new, stop_locked, set_timers, is_ackd,
  packet_ackd, all_acknowledged, all_packets_acknowledged,
}

-- A lookup finds a mark of a packet that counts as acknowledged.
pub record IsSettled (ms : List Mark) (a : ℤ) : Type 0 where
  pub found_mark : Mark
  pub found_lem : find_mark ms a ≡ some found_mark
  pub acked_lem : is_acked found_mark ≡ true

find_mark-with_mark :
    (a b : ℤ) (g : Mark → Mark) (ms : List Mark)
    → ((m : Mark) → (g m).number ≡ m.number)
    → find_mark (with_mark b g ms) a
      ≡ (if eqb_ℤ b a then Option.map g (find_mark ms a) else find_mark ms a)
find_mark-with_mark a b g [] k = ground arith
find_mark-with_mark a b g (m ∷ ms) k = ground (
  arith,
  k m,
  eqb_ℤ-cases b a,
  eqb_ℤ-cases b m.number,
  eqb_ℤ-cases a m.number,
  find_mark-with_mark a b g ms k,
)

find_mark-append :
    (a : ℤ) (ms ns : List Mark) {m : Mark}
    → find_mark ms a ≡ some m
    → find_mark (ms ++ ns) a ≡ some m
find_mark-append a [] ns e = absurd (cc)
find_mark-append a (k ∷ ms) ns e = elim (eqb_ℤ-cases a k.number) [
  | inl (b, _) ↦ rw b (rw b at e)
  | inr (b, _) ↦ rw b (find_mark-append a ms ns (rw b at e))
]

pub find_mark-marks :
    (ts : List PacketTimer) (a : ℤ) {t : PacketTimer}
    → find_timer ts a ≡ some t
    → find_mark (marks ts) a ≡ some (mark t)
unfolding find_timer
find_mark-marks [] a e = absurd (cc)
find_mark-marks (u ∷ ts) a {t} e = elim (eqb_ℤ-cases a u.pckt_ackno) [
  | inl (b, _) ↦ let one : some u ≡ some t = rw b at e in rw b (cc)
  | inr (b, _) ↦ rw b (find_mark-marks ts a (rw b at e))
]

IsSettled-stopped :
    (ms : List Mark) (a b : ℤ) → IsSettled ms a → IsSettled (with_mark b mark_stopped ms) a
IsSettled-stopped ms a b i = elim (eqb_ℤ-cases b a) [
  | inl (e, _) ↦ record {
    found_mark = mark_stopped i.found_mark;
    found_lem = find_mark-with_mark a b mark_stopped ms (λ m. refl) ∙ rw (e, i.found_lem) refl;
    acked_lem = ground (arith, i.acked_lem);
  }
  | inr (e, _) ↦ record {
    found_mark = i.found_mark;
    found_lem = find_mark-with_mark a b mark_stopped ms (λ m. refl) ∙ rw e i.found_lem;
    acked_lem = i.acked_lem;
  }
]

IsSettled-started :
    (ms : List Mark) (a b : ℤ) → b ≢ a → IsSettled ms a → IsSettled (with_mark b mark_started ms) a
IsSettled-started ms a b ne i = elim (eqb_ℤ-cases b a) [
  | inl (_, same) ↦ absurd (ne same)
  | inr (e, _) ↦ record {
    found_mark = i.found_mark;
    found_lem = find_mark-with_mark a b mark_started ms (λ m. refl) ∙ rw e i.found_lem;
    acked_lem = i.acked_lem;
  }
]

-- The packet with this number stays acknowledged.
abbrev pub Stays : ℤ → Sender → Sender → Type 0
Stays a s t = IsSettled (marks s.timer_list) a → IsSettled (marks t.timer_list) a

module _ (a : ℤ) where
  instance abbrev pub Stays-IsFrame : IsFrame (Stays a)
  Stays-IsFrame = record {
    here = λ s i. i;
    through = λ s t u f g i. g (f i);
    machine = λ s w t le e i. i;
  }

  module _ (env : Env) {E : Sender → Type 0} where
    Stays-sweeps : (n : ℕ) → Frame (Stays a) E (sweeps env n)
    unfolding sweeps set_timers
    Stays-sweeps zero = Frame-pure tt
    Stays-sweeps (suc n) = record {
      at = λ s.
          let (us, swept, same) = sweep-marks env.clock s.clocks [] s.timer_list in
          let t : Sender = tick (clocks_of s.timer_list) (record s { timer_list = us }) in
          rw swept (
            Framed-through Stays-IsFrame E s t (sweeps env n t)
              (λ i. subst (λ l. IsSettled l a) (sym same) i) ((Stays-sweeps n).at t));
    }

    pub Stays-lock : Frame (Stays a) E (lock env)
    unfolding lock
    Stays-lock =
        Frame-bind (Frame-gets (λ s. env.polls s.locks))
          (λ n. Frame-bind (Frame-modify {g = count_lock} (λ s i. i)) (λ _. Stays-sweeps n))

    Stays-start : (b : ℤ) → b ≢ a → Frame (Stays a) E (start env b)
    unfolding start set_timers read_clock
    Stays-start b ne = record {
      at = λ s. elim (Option-cases (find_timer s.timer_list b)) [
        | inl e ↦ let ran : start env b s ≡ exit failure s = ground (arith, e) in rw ran (λ i. i)
        | inr (t, e) ↦
            let (us, changed, same) =
              start_timer-marks s.timer_list b (env.clock s.clocks)
                (find_mark-marks s.timer_list b e) in
            let ran : start env b s ≡ ok tt (record (tick 1 s) { timer_list = us }) =
              ground (arith, e, changed) in
            rw ran (λ i.
              subst (λ l. IsSettled l a) (sym same)
                (IsSettled-started (marks s.timer_list) a b ne i))
      ];
    }

    pub Stays-start_new : (b : ℤ) → b ≢ a → Frame (Stays a) E (start_new env b)
    unfolding start_new set_timers read_clock add_timer
    Stays-start_new b ne = Frame-bind Stays-lock (λ _. record {
      at = λ s. elim (Bool-cases (ltb (length s.timer_list) max_timers)) [
        | inl room ↦
            let t = create_timer b (pos (env.clock s.clocks)) in
            let u : Sender = record (tick 1 s) { timer_list = s.timer_list ++ t ∷ [] } in
            rw room (
              Framed-through Stays-IsFrame E s u (start env b u)
                (λ i. record {
                  found_mark = i.found_mark;
                  found_lem =
                      ap (λ l. find_mark l a) (marks-append s.timer_list (t ∷ []))
                      ∙ find_mark-append a (marks s.timer_list) (mark t ∷ []) i.found_lem;
                  acked_lem = i.acked_lem;
                })
                ((Stays-start b ne).at u))
        | inr full ↦ rw full tt
      ];
    })

    pub Stays-stop_locked : (b : ℤ) → Frame (Stays a) E (stop_locked env b)
    unfolding stop_locked set_timers stop_timer
    Stays-stop_locked b = Frame-bind Stays-lock (λ _. record {
      at = λ s. elim (Option-cases (find_timer s.timer_list b)) [
        | inl e ↦
            let ends : stop_timer s.timer_list b ≡ Base.exit =
              rw (at_timer-eq b stopped s.timer_list, e) refl in
            rw ends (λ i. i)
        | inr (t, e) ↦
            let (us, changed, same) =
              stop_timer-marks s.timer_list b (find_mark-marks s.timer_list b e) in
            rw changed (λ i.
              subst (λ l. IsSettled l a) (sym same) (IsSettled-stopped (marks s.timer_list) a b i))
      ];
    })
