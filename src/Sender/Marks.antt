-- ===== src/Sender/Marks.antt =====
-- The timer list of src/rdps.c without its times and flags: what decides whether a packet counts as
-- acknowledged. A sweep of the polling thread leaves it as it is.

use csc361_a.Base.{
  ℕ, zero, suc, ◌+◌, ◌<◌, ◌≡◌, refl, ap, sym, ◌∙◌, Bool, true, false, not, ◌&&◌, Option, none, some,
  List, [], ◌∷◌, ◌++◌, arith, append_assoc, append-nil, length, lt→ltb, if◌then◌else◌, inl, inr,
}
use csc361_a.Base.Int.{ℤ, pos, negsuc, eqb_ℤ, eqb_ℤ-cases, eqb_ℤ_refl}
use csc361_a.Base
use csc361_a.Timer.{
  PacketTimer, add_timer, find_timer, started, stopped, stop_timer, start_timer, timed_out,
  max_timers, is_overdue,
}
use csc361_a.Timer.Lookup.{with_timer, at_timer-eq}
use csc361_a.Sender.Timers.{sweep}

pub record Mark : Type 0 where
  pub number : ℤ
  pub unsent : Bool
  pub running : Bool

abbrev pub mark : PacketTimer → Mark
mark t = record {
  number = t.pckt_ackno;
  unsent = eqb_ℤ t.time_sent (negsuc 0);
  running = t.running;
}

abbrev pub marks : List PacketTimer → List Mark
marks [] = []
marks (t ∷ ts) = mark t ∷ marks ts

abbrev pub find_mark : List Mark → ℤ → Option Mark
find_mark [] a = none
find_mark (m ∷ ms) a = if eqb_ℤ a m.number then some m else find_mark ms a

abbrev pub with_mark : ℤ → (Mark → Mark) → List Mark → List Mark
with_mark a g [] = []
with_mark a g (m ∷ ms) = if eqb_ℤ a m.number then g m ∷ ms else m ∷ with_mark a g ms

abbrev pub mark_started : Mark → Mark
mark_started m = record m { unsent = false; running = true }

abbrev pub mark_stopped : Mark → Mark
mark_stopped m = record m { running = false }

abbrev pub is_acked : Mark → Bool
is_acked m = not m.running && not m.unsent

pub length-marks : (ts : List PacketTimer) → length (marks ts) ≡ length ts
length-marks [] = refl
length-marks (t ∷ ts) = ap suc (length-marks ts)

pub marks-append : (ts us : List PacketTimer) → marks (ts ++ us) ≡ marks ts ++ marks us
marks-append [] us = refl
marks-append (t ∷ ts) us = ap (λ l. mark t ∷ l) (marks-append ts us)

-- A lookup finds a timer with the mark that a lookup in the marks finds.
pub find_timer-marks :
    (ts : List PacketTimer) (a : ℤ) {m : Mark}
    → find_mark (marks ts) a ≡ some m
    → (t : PacketTimer) × (find_timer ts a ≡ some t) × (mark t ≡ m)
unfolding find_timer
find_timer-marks [] a e = absurd (cc)
find_timer-marks (t ∷ ts) a {m} e = elim (eqb_ℤ-cases a t.pckt_ackno) [
  | inl (b, _) ↦ let one : some (mark t) ≡ some m = rw b at e in (t, rw b refl, cc)
  | inr (b, _) ↦ let (u, found, is) = find_timer-marks ts a (rw b at e) in (u, rw b found, is)
]

marks-with_timer :
    (a : ℤ) (f : PacketTimer → PacketTimer) (g : Mark → Mark) (ts : List PacketTimer)
    → ((t : PacketTimer) → mark (f t) ≡ g (mark t))
    → marks (with_timer a f ts) ≡ with_mark a g (marks ts)
unfolding with_timer
marks-with_timer a f g [] h = refl
marks-with_timer a f g (t ∷ ts) h = elim (eqb_ℤ-cases a t.pckt_ackno) [
  | inl (b, _) ↦ rw b (ap (λ m. m ∷ marks ts) (h t))
  | inr (b, _) ↦ rw b (ap (λ l. mark t ∷ l) (marks-with_timer a f g ts h))
]

-- The writes through the pointer that find_timer returns.
pub start_timer-marks :
    (ts : List PacketTimer) (a : ℤ) (now : ℕ) {m : Mark}
    → find_mark (marks ts) a ≡ some m
    → (us : List PacketTimer) × (start_timer a ts (pos now) ≡ Base.ok us)
      × (marks us ≡ with_mark a mark_started (marks ts))
unfolding start_timer eqb_ℤ
start_timer-marks ts a now e =
    let (t, found, _) = find_timer-marks ts a e in
    (
      with_timer a (started (pos now)) ts,
      rw (at_timer-eq a (started (pos now)) ts, found) refl,
      marks-with_timer a (started (pos now)) mark_started ts (λ t. refl),
    )

pub stop_timer-marks :
    (ts : List PacketTimer) (a : ℤ) {m : Mark}
    → find_mark (marks ts) a ≡ some m
    → (us : List PacketTimer) × (stop_timer ts a ≡ Base.ok us)
      × (marks us ≡ with_mark a mark_stopped (marks ts))
unfolding stop_timer
stop_timer-marks ts a e =
    let (t, found, _) = find_timer-marks ts a e in
    (
      with_timer a stopped ts,
      rw (at_timer-eq a stopped ts, found) refl,
      marks-with_timer a stopped mark_stopped ts (λ t. refl),
    )

pub add_timer-marks :
    (ts : List PacketTimer) (t : PacketTimer)
    → length (marks ts) < max_timers
    → (add_timer ts t ≡ Base.ok (ts ++ t ∷ [])) × (marks (ts ++ t ∷ []) ≡ marks ts ++ mark t ∷ [])
unfolding add_timer
add_timer-marks ts t room = (
  rw (lt→ltb (length ts) max_timers (omega (arith, length-marks ts))) refl,
  marks-append ts (t ∷ []),
)

-- A timer is found by its own number.
find_timer-own :
    (past : List PacketTimer) (t : PacketTimer) (rest : List PacketTimer)
    → (u : PacketTimer) × (find_timer (past ++ t ∷ rest) t.pckt_ackno ≡ some u)
unfolding find_timer
find_timer-own [] t rest = (t, rw (eqb_ℤ_refl t.pckt_ackno) refl)
find_timer-own (v ∷ past) t rest = elim (eqb_ℤ-cases t.pckt_ackno v.pckt_ackno) [
  | inl (b, _) ↦ (v, rw b refl)
  | inr (b, _) ↦ let (u, found) = find_timer-own past t rest in (u, rw b found)
]

timed_out-own :
    (past : List PacketTimer) (t : PacketTimer) (rest : List PacketTimer) (now : ℤ)
    → (late : Bool) × (timed_out t.pckt_ackno (past ++ t ∷ rest) now ≡ Base.ok late)
unfolding timed_out
timed_out-own past t rest now =
    let (u, found) = find_timer-own past t rest in (is_overdue now u, rw (timed_out, found) refl)

abbrev flagged : Bool → PacketTimer → PacketTimer
flagged late t = if late then record t { timedout = true } else t

mark-flagged : (late : Bool) (t : PacketTimer) → mark (flagged late t) ≡ mark t
mark-flagged true t = refl
mark-flagged false t = refl

-- A sweep of the polling thread over the whole list returns, and leaves the marks.
pub sweep-marks :
    (clock : ℕ → ℕ) (k : ℕ) (past rest : List PacketTimer)
    → (us : List PacketTimer) × (sweep clock k past rest ≡ Base.ok us)
      × (marks us ≡ marks (past ++ rest))
unfolding sweep
sweep-marks clock k past [] = (past, refl, ap marks (sym (append-nil past)))
sweep-marks clock k past (t ∷ rest) =
    let (late, checked) = timed_out-own past t rest (pos (clock k)) in
    let (us, swept, same) = sweep-marks clock (k + 1) (past ++ flagged late t ∷ []) rest in
    (
      us,
      rw (sweep, checked) swept,
      same
          ∙ ap marks (append_assoc past (flagged late t ∷ []) rest)
          ∙ marks-append past (flagged late t ∷ rest)
          ∙ ap (λ m. marks past ++ m ∷ marks rest) (mark-flagged late t)
          ∙ sym (marks-append past (t ∷ rest)),
    )

-- A new number is found at the end of the list, where it was added.
pub find_mark-snoc :
    (ms : List Mark) (a : ℤ) (m : Mark)
    → find_mark ms a ≡ none
    → m.number ≡ a
    → find_mark (ms ++ m ∷ []) a ≡ some m
find_mark-snoc [] a m e n = rw (n, eqb_ℤ_refl a) refl
find_mark-snoc (k ∷ ms) a m e n = elim (eqb_ℤ-cases a k.number) [
  | inl (b, _) ↦ let clash : some k ≡ none = rw b at e in absurd (cc)
  | inr (b, _) ↦ rw b (find_mark-snoc ms a m (rw b at e) n)
]

pub with_mark-snoc :
    (ms : List Mark) (a : ℤ) (g : Mark → Mark) (m : Mark)
    → find_mark ms a ≡ none
    → m.number ≡ a
    → with_mark a g (ms ++ m ∷ []) ≡ ms ++ g m ∷ []
with_mark-snoc [] a g m e n = rw (n, eqb_ℤ_refl a) refl
with_mark-snoc (k ∷ ms) a g m e n = elim (eqb_ℤ-cases a k.number) [
  | inl (b, _) ↦ let clash : some k ≡ none = rw b at e in absurd (cc)
  | inr (b, _) ↦ rw b (ap (λ l. k ∷ l) (with_mark-snoc ms a g m (rw b at e) n))
]
