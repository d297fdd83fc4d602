-- ===== src/Sender/Flags.antt =====
-- The polling thread of src/rdps.c: it sets the flags of timers and nothing else.
use csc361_a.Base.{
  ℕ, zero, suc, ◌+◌, ◌≡◌, refl, ◌∙◌, ap, sym, subst, inl, inr, Bool, true, false, Option, none,
  some, List, [], ◌∷◌, ◌++◌, Result, if◌then◌else◌, arith, append_assoc, append-nil, returned,
  ok_inj,
}
use csc361_a.Base
use csc361_a.Base.Action.{Outcome, ok, call, bind-ok, call-ok}
use csc361_a.Base.Int.{ℤ, pos, eqb_ℤ-cases}
use csc361_a.Timer.{PacketTimer, find_timer, timed_out}
use csc361_a.Sender.State.{Sender}
use csc361_a.Sender.Timers.{sweep, sweeps, clocks_of, lock, set_timers, tick, count_lock}
use csc361_a.Socket.{Env}

-- The second list is the first with some flags set.
abbrev pub Flagged : List PacketTimer → List PacketTimer → Type 0
Flagged [] [] = Unit
Flagged (t ∷ ts) (u ∷ us) =
    (t.pckt_ackno ≡ u.pckt_ackno)
    × (t.time_sent ≡ u.time_sent)
    × (t.running ≡ u.running)
    × (t.timedout ≡ true → u.timedout ≡ true)
    × Flagged ts us
Flagged _ _ = ⊥

pub Flagged-refl : (ts : List PacketTimer) → Flagged ts ts
Flagged-refl [] = tt
Flagged-refl (t ∷ ts) = (refl, refl, refl, λ e. e, Flagged-refl ts)

pub Flagged-trans : (ts us vs : List PacketTimer) → Flagged ts us → Flagged us vs → Flagged ts vs
Flagged-trans [] [] [] _ _ = tt
Flagged-trans (t ∷ ts) (u ∷ us) (v ∷ vs) (a, b, c, d, f) (a', b', c', d', g) =
    (a ∙ a', b ∙ b', c ∙ c', λ e. d' (d e), Flagged-trans ts us vs f g)
Flagged-trans [] [] (_ ∷ _) _ g = absurd g
Flagged-trans [] (_ ∷ _) _ f _ = absurd f
Flagged-trans (_ ∷ _) [] _ f _ = absurd f
Flagged-trans (_ ∷ _) (_ ∷ _) [] _ g = absurd g

Flagged-append : (past ts us : List PacketTimer) → Flagged ts us → Flagged (past ++ ts) (past ++ us)
Flagged-append [] ts us f = f
Flagged-append (t ∷ past) ts us f = (refl, refl, refl, λ e. e, Flagged-append past ts us f)

abbrev flag : Bool → PacketTimer → PacketTimer
flag late t = if late then record t { timedout = true } else t

Flagged-flag :
    (late : Bool) (t : PacketTimer) (rest : List PacketTimer)
    → Flagged (t ∷ rest) (flag late t ∷ rest)
Flagged-flag true t rest = (refl, refl, refl, λ _. refl, Flagged-refl rest)
Flagged-flag false t rest = Flagged-refl (t ∷ rest)

pub sweep-Flagged :
    (clock : ℕ → ℕ) (k : ℕ) (past rest : List PacketTimer) {ts : List PacketTimer}
    → sweep clock k past rest ≡ Base.ok ts
    → Flagged (past ++ rest) ts
unfolding sweep
sweep-Flagged clock k past [] {ts} e =
    subst (λ l. Flagged (past ++ []) l) (append-nil past ∙ ok_inj e) (Flagged-refl (past ++ []))
sweep-Flagged clock k past (t ∷ rest) {ts} e =
    let (late, _, more) =
      returned (timed_out t.pckt_ackno (past ++ t ∷ rest) (pos (clock k))) _ e in
    let step = sweep-Flagged clock (k + 1) (past ++ flag late t ∷ []) rest more in
    Flagged-trans (past ++ t ∷ rest) (past ++ flag late t ∷ rest) ts
      (Flagged-append past (t ∷ rest) (flag late t ∷ rest) (Flagged-flag late t rest))
      (subst (λ l. Flagged l ts) (append_assoc past (flag late t ∷ []) rest) step)

-- The lookup is by the number, which a sweep leaves.
pub find_timer-Flagged :
    (ts us : List PacketTimer) (a : ℤ) (u : PacketTimer)
    → Flagged ts us
    → find_timer us a ≡ some u
    → (t : PacketTimer) × (find_timer ts a ≡ some t)
      × (t.time_sent ≡ u.time_sent)
      × (t.running ≡ u.running)
unfolding find_timer
find_timer-Flagged [] [] a u f e = absurd (cc)
find_timer-Flagged [] (_ ∷ _) a u f e = absurd f
find_timer-Flagged (_ ∷ _) [] a u f e = absurd f
find_timer-Flagged (t ∷ ts) (v ∷ us) a u (x, y, z, _, f) e = elim (eqb_ℤ-cases a v.pckt_ackno) [
  | inl (b, _) ↦
      let same : v ≡ u = ground (arith, b) in
      (t, ground (arith, b), y ∙ ap (λ v. v.time_sent) same, z ∙ ap (λ v. v.running) same)
  | inr (b, _) ↦
      let (w, found, p, q) = find_timer-Flagged ts us a u f (ground (arith, b)) in
      (w, ground (arith, b, found), p, q)
]

pub ok_state : {A : Type 0} {a b : A} {s t : Sender} → Outcome.ok a s ≡ ok b t → s ≡ t
ok_state e = cc

sweeps-Flagged :
    (env : Env) (n : ℕ) (s : Sender) {u : Sender}
    → sweeps env n s ≡ ok tt u
    → Flagged s.timer_list u.timer_list
unfolding sweeps set_timers
sweeps-Flagged env zero s e =
    subst (λ x. Flagged s.timer_list x.timer_list) (ok_state e) (Flagged-refl s.timer_list)
sweeps-Flagged env (suc n) s {u} e =
    let (ts, t, got, rest) = bind-ok (call (sweep env.clock s.clocks [] s.timer_list)) _ s e in
    let (swept, same) = call-ok (sweep env.clock s.clocks [] s.timer_list) got in
    Flagged-trans s.timer_list ts u.timer_list
      (sweep-Flagged env.clock s.clocks [] s.timer_list swept)
      (sweeps-Flagged env n (tick (clocks_of s.timer_list) (record t { timer_list = ts })) rest)

pub lock-Flagged :
    (env : Env) (s : Sender) {u : Sender} → lock env s ≡ ok tt u → Flagged s.timer_list u.timer_list
unfolding lock
lock-Flagged env s e = sweeps-Flagged env (env.polls s.locks) (count_lock s) e
