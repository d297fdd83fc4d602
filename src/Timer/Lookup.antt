-- ===== src/Timer/Lookup.antt =====
-- What the calls of timer.c do to later lookups.
use mathlib.Core.Bool.{and-true, and-false}
use mathlib.Core.Option
use csc361_a.Base.{
  ◌≡◌, ◌≢◌, refl, sym, ap, All, Option, ok_inj, false, none, some, List, [], ◌∷◌, ◌++◌, arith,
  if◌then◌else◌, Result, ok, exit, or_exit, Option-cases, ◌⊎◌, inl, inr,
}
use csc361_a.Base.Int.{ℤ, pos, ◌-ℤ◌, ltb_ℤ, eqb_ℤ, eqb_ℤ-cases, eqb_ℤ_refl}
use csc361_a.Timer.{
  PacketTimer, add_timer, find_timer, at_timer, stopped, started, stop_timer, start_timer,
  timed_out,
}

-- A change of the entry for `a` that keeps its number.
abbrev KeepsNumber : (PacketTimer → PacketTimer) → Type 0
KeepsNumber f = (t : PacketTimer) → (f t).pckt_ackno ≡ t.pckt_ackno

-- The list after a write through the pointer to the entry for `a`, unchanged where that is NULL.
unfoldable pub with_timer : ℤ → (PacketTimer → PacketTimer) → List PacketTimer → List PacketTimer
with_timer a f [] = []
with_timer a f (t ∷ ts) = if eqb_ℤ a t.pckt_ackno then f t ∷ ts else t ∷ with_timer a f ts

pub at_timer-eq :
    (a : ℤ) (f : PacketTimer → PacketTimer) (ts : List PacketTimer)
    → at_timer a f ts ≡ Option.map (λ _. with_timer a f ts) (find_timer ts a)
unfolding find_timer at_timer with_timer
at_timer-eq a f [] = refl
at_timer-eq a f (t ∷ ts) = elim (eqb_ℤ-cases a t.pckt_ackno) [
  | inl (e, _) ↦ rw (e) refl
  | inr (e, _) ↦ rw (e, at_timer-eq a f ts) (ground arith)
]

pub find_timer-with_timer :
    (a b : ℤ) (f : PacketTimer → PacketTimer) (ts : List PacketTimer)
    → KeepsNumber f
    → find_timer (with_timer a f ts) b
      ≡ (if eqb_ℤ a b then Option.map f (find_timer ts b) else find_timer ts b)
unfolding find_timer with_timer
find_timer-with_timer a b f [] k = ground arith
find_timer-with_timer a b f (t ∷ ts) k = ground (
  arith,
  k t,
  eqb_ℤ-cases a b,
  eqb_ℤ-cases a t.pckt_ackno,
  eqb_ℤ-cases b t.pckt_ackno,
  find_timer-with_timer a b f ts k,
)

-- What a lookup gives after the entry for `a` was written through its pointer.
abbrev pub Updates : ℤ → (PacketTimer → PacketTimer) → List PacketTimer → List PacketTimer → Type 0
Updates a f ts ts' =
    (b : ℤ)
    → find_timer ts' b ≡ (if eqb_ℤ a b then Option.map f (find_timer ts b) else find_timer ts b)

-- How a call ends that writes to the entry for `a`: exit(-1) where there is none, and otherwise
-- that entry alone is changed.
abbrev pub Writes :
    ℤ → (PacketTimer → PacketTimer) → List PacketTimer → Result (List PacketTimer) → Type 0
Writes a f ts r =
    ((find_timer ts a ≡ none) × (r ≡ exit))
    ⊎ ((t : PacketTimer) × (ts' : List PacketTimer) × (find_timer ts a ≡ some t)
        × (r ≡ ok ts')
        × Updates a f ts ts')

at_timer-Writes :
    (a : ℤ) (f : PacketTimer → PacketTimer) (ts : List PacketTimer)
    → KeepsNumber f
    → Writes a f ts (or_exit (at_timer a f ts))
at_timer-Writes a f ts k = elim (Option-cases (find_timer ts a)) [
  | inl e ↦ inl (e, rw (at_timer-eq a f ts, e))
  | inr (t, e) ↦ inr (
    t,
    with_timer a f ts,
    e,
    rw (at_timer-eq a f ts, e) refl,
    λ b. find_timer-with_timer a b f ts k,
  )
]

-- stop_timer ends the process where there is no timer for the number, and otherwise the lookup of
-- that number alone changes: its timer is stopped.
pub stop_timer-Writes : (ts : List PacketTimer) (a : ℤ) → Writes a stopped ts (stop_timer ts a)
unfolding stop_timer
stop_timer-Writes ts a = at_timer-Writes a stopped ts (λ t. refl)

-- start_timer ends the process where there is no timer for the number, and otherwise the lookup of
-- that number alone changes: its timer runs from the given time, without a timeout.
pub start_timer-Writes :
    (ts : List PacketTimer) (a now : ℤ) → Writes a (started now) ts (start_timer a ts now)
unfolding start_timer
start_timer-Writes ts a now = at_timer-Writes a (started now) ts (λ t. refl)

pub Writes-ok :
    (a : ℤ) (f : PacketTimer → PacketTimer) (ts ts' : List PacketTimer)
    (r : Result (List PacketTimer))
    → Writes a f ts r
    → r ≡ ok ts'
    → (t : PacketTimer) × (find_timer ts a ≡ some t) × (find_timer ts' a ≡ some (f t))
Writes-ok a f ts ts' r (inl (e, q)) h = absurd (cc)
Writes-ok a f ts ts' r (inr (t, us, e, q, u)) h =
    let same : us ≡ ts' = ground arith in (t, e, rw (← same) (rw (u a, eqb_ℤ_refl, e) refl))

-- After a start at `now` that returned, the timer is overdue exactly when more than TIMEOUT_US/100
-- ticks passed.
pub timed_out-start_timer :
    (a now later : ℤ) (ts : List PacketTimer) {ts' : List PacketTimer}
    → start_timer a ts now ≡ ok ts'
    → timed_out a ts' later ≡ ok (ltb_ℤ (pos 1000) (later -ℤ now))
unfolding timed_out
timed_out-start_timer a now later ts {ts'} h =
    let (t, e, q) =
      Writes-ok a (started now) ts ts' (start_timer a ts now) (start_timer-Writes ts a now) h in
    rw (q, timed_out) (ap ok (and-true _))

-- After a stop that returned, the timer never times out.
pub timed_out-stop_timer :
    (a later : ℤ) (ts : List PacketTimer) {ts' : List PacketTimer}
    → stop_timer ts a ≡ ok ts'
    → timed_out a ts' later ≡ ok false
unfolding timed_out
timed_out-stop_timer a later ts {ts'} h =
    let (t, e, q) = Writes-ok a stopped ts ts' (stop_timer ts a) (stop_timer-Writes ts a) h in
    rw (q, timed_out) (ap ok (and-false _))

find_timer-snoc :
    (ts : List PacketTimer) (t : PacketTimer) (b : ℤ)
    → find_timer (ts ++ t ∷ []) b ≡ elim (find_timer ts b) [
      | some old ↦ some old
      | none ↦ if eqb_ℤ b t.pckt_ackno then some t else none
    ]
unfolding find_timer
find_timer-snoc [] t b = refl
find_timer-snoc (u ∷ ts) t b = ground (arith, find_timer-snoc ts t b)

-- After an addition that returned, the new timer is found unless an older one has its number.
pub find_timer-add_timer :
    (ts : List PacketTimer) (t : PacketTimer) {ts' : List PacketTimer} (b : ℤ)
    → add_timer ts t ≡ ok ts'
    → find_timer ts' b ≡ elim (find_timer ts b) [
      | some old ↦ some old
      | none ↦ if eqb_ℤ b t.pckt_ackno then some t else none
    ]
unfolding add_timer
find_timer-add_timer ts t b h = ground (arith, find_timer-snoc ts t b)

-- How a call ends that writes to the first entry for `a`: exit(-1) where there is none, and
-- otherwise the entries before it, which have other numbers, and those behind it stay as they are.
abbrev pub WritesFirst :
    ℤ → (PacketTimer → PacketTimer) → List PacketTimer → Result (List PacketTimer) → Type 0
WritesFirst a f ts r =
    (All (λ u. u.pckt_ackno ≢ a) ts × (r ≡ exit))
    ⊎ ((us : List PacketTimer) × (t : PacketTimer) × (vs : List PacketTimer) × (ts ≡ us ++ t ∷ vs)
        × All (λ u. u.pckt_ackno ≢ a) us
        × (t.pckt_ackno ≡ a)
        × (r ≡ ok (us ++ f t ∷ vs)))

behind_another :
    (a : ℤ) (f : PacketTimer → PacketTimer) (t : PacketTimer) (ts : List PacketTimer)
    (o : Option (List PacketTimer))
    → t.pckt_ackno ≢ a
    → WritesFirst a f ts (or_exit o)
    → WritesFirst a f (t ∷ ts) (or_exit (Option.map (λ r. t ∷ r) o))
behind_another a f t ts none other (inl (others, _)) = inl ((other, others), refl)
behind_another a f t ts none other (inr (us, u, vs, is, others, has, r)) = absurd (cc)
behind_another a f t ts (some l) other (inl (_, r)) = absurd (cc)
behind_another a f t ts (some l) other (inr (us, u, vs, is, others, has, r)) =
    inr (t ∷ us, u, vs, ap (λ m. t ∷ m) is, (other, others), has, ap (λ m. ok (t ∷ m)) (ok_inj r))

at_timer-WritesFirst :
    (a : ℤ) (f : PacketTimer → PacketTimer) (ts : List PacketTimer)
    → WritesFirst a f ts (or_exit (at_timer a f ts))
unfolding at_timer
at_timer-WritesFirst a f [] = inl (tt, refl)
at_timer-WritesFirst a f (t ∷ ts) = elim (eqb_ℤ-cases a t.pckt_ackno) [
  | inl (e, same) ↦ inr ([], t, ts, refl, tt, sym same, rw e refl)
  | inr (e, other) ↦ rw e (
      behind_another a f t ts (at_timer a f ts) (λ same. other (sym same))
        (at_timer-WritesFirst a f ts))
]

-- stop_timer ends the process where no timer has the number. Otherwise it stops the first timer
-- that has it, and leaves all others of the list as they are, also later ones with that number.
pub stop_timer-WritesFirst :
    (ts : List PacketTimer) (a : ℤ) → WritesFirst a stopped ts (stop_timer ts a)
unfolding stop_timer
stop_timer-WritesFirst ts a = at_timer-WritesFirst a stopped ts
