-- ===== src/Base/Total.antt =====
-- Triples for total correctness: from globals with `P` a call returns `a` with globals with `Q a`,
-- or it ends the process with a code and globals with `E`, or it waits with globals with `W`. It
-- never runs into undefined behaviour.
use csc361_a.Base.{Bool, true, false, ◌≡◌, refl, sym, subst, ExitCode}
use csc361_a.Base.Action.{
  Action, Outcome, ok, exit, blocked, crash, ◌>>=◌, gets, modify, pure, when, exit_with,
}

-- What never happens.
abbrev pub Never : {S : Type 0} → S → Type 0
Never s = ⊥

abbrev pub NeverEnds : {S : Type 0} → ExitCode → S → Type 0
NeverEnds c s = ⊥

abbrev pub Meets :
    {S A : Type 0}
    → (ExitCode → S → Type 0)
    → (S → Type 0)
    → (A → S → Type 0)
    → Outcome S A
    → Type 0
Meets E W Q (ok a s) = Q a s
Meets E W Q (exit c s) = E c s
Meets E W Q (blocked s) = W s
Meets E W Q crash = ⊥

pub record Total {S A : Type 0} (E : ExitCode → S → Type 0) (W P : S → Type 0) (m : Action S A)
    (Q : A → S → Type 0) : Type 0 where
  pub at : (s : S) → P s → Meets E W Q (m s)

module _ {S : Type 0} (E : ExitCode → S → Type 0) (W : S → Type 0) where
  pub Meets-bind :
      {A B : Type 0} (Q : A → S → Type 0) (R : B → S → Type 0) (o : Outcome S A)
      (k : A → Action S B)
      → Meets E W Q o
      → ((a : A) (t : S) → Q a t → Meets E W R (k a t))
      → Meets E W R (elim o as (λ _. Outcome S B) [
        | ok a s' ↦ k a s'
        | exit c s' ↦ exit c s'
        | blocked s' ↦ blocked s'
        | crash ↦ crash
      ])
  Meets-bind Q R (ok a t) k h next = next a t h
  Meets-bind Q R (exit c t) k h next = h
  Meets-bind Q R (blocked t) k h next = h
  Meets-bind Q R crash k h next = absurd h

  -- A call that returns, among others that may wait or end.
  pub Meets-returns :
      {A : Type 0} (Q : A → S → Type 0) (o : Outcome S A)
      → Meets NeverEnds Never Q o
      → Meets E W Q o
  Meets-returns Q (ok a s) h = h
  Meets-returns Q (exit c s) h = absurd h
  Meets-returns Q (blocked s) h = absurd h
  Meets-returns Q crash h = absurd h

module _ {S : Type 0} {E : ExitCode → S → Type 0} {W P : S → Type 0} where
  pub Total-bind :
      {A B : Type 0} {Q : A → S → Type 0} {R : B → S → Type 0} {m : Action S A} {k : A → Action S B}
      → Total E W P m Q
      → ((a : A) → Total E W (Q a) (k a) R)
      → Total E W P (m >>= k) R
  Total-bind {Q = Q} {R = R} {m = m} {k = k} g gs = record {
    at = λ s p. Meets-bind E W Q R (m s) k (g.at s p) (λ a t q. (gs a).at t q);
  }

  pub Total-pure :
      {A : Type 0} {Q : A → S → Type 0} {a : A} → ((s : S) → P s → Q a s) → Total E W P (pure a) Q
  Total-pure h = record { at = h }

  pub Total-gets :
      {A : Type 0} {Q : A → S → Type 0} {g : S → A}
      → ((s : S) → P s → Q (g s) s)
      → Total E W P (gets g) Q
  Total-gets h = record { at = h }

  pub Total-modify :
      {Q : Unit {0} → S → Type 0} {g : S → S}
      → ((s : S) → P s → Q tt (g s))
      → Total E W P (modify g) Q
  Total-modify h = record { at = h }

  pub Total-exit :
      {A : Type 0} {Q : A → S → Type 0} {c : ExitCode}
      → ((s : S) → P s → E c s)
      → Total E W P (exit_with c) Q
  Total-exit h = record { at = h }

  pub Total-returns :
      {A : Type 0} {Q : A → S → Type 0} {m : Action S A}
      → Total NeverEnds Never P m Q
      → Total E W P m Q
  Total-returns {Q = Q} {m = m} h = record { at = λ s p. Meets-returns E W Q (m s) (h.at s p) }

module _ {S A : Type 0} where
  -- A call that neither returns nor ends the process waits.
  pub Meets-blocked :
      {W : S → Type 0} (o : Outcome S A)
      → Meets NeverEnds W (λ _. Never) o
      → (s : S) × (o ≡ blocked s) × W s
  Meets-blocked (ok a s) h = absurd h
  Meets-blocked (exit c s) h = absurd h
  Meets-blocked (blocked s) h = (s, refl, h)
  Meets-blocked crash h = absurd h

  -- A call that neither returns nor waits ends the process.
  pub Meets-exit :
      {E : ExitCode → S → Type 0} (o : Outcome S A)
      → Meets E Never (λ _. Never) o
      → (c : ExitCode) × (s : S) × (o ≡ exit c s) × E c s
  Meets-exit (ok a s) h = absurd h
  Meets-exit (exit c s) h = (c, s, refl, h)
  Meets-exit (blocked s) h = absurd h
  Meets-exit crash h = absurd h

pub Total-when :
    {S : Type 0} {E : ExitCode → S → Type 0} {W P : S → Type 0} {Q : Unit {0} → S → Type 0}
    (b : Bool) {m : Action S (Unit {0})}
    → ((s : S) → P s → Q tt s)
    → Total E W P m Q
    → Total E W P (when b m) Q
Total-when true f h = h
Total-when false f h = Total-pure f

pub Total-elim :
    {S A : Type 0} {E : ExitCode → S → Type 0} {W P : S → Type 0} {Q : A → S → Type 0} (b : Bool)
    {m n : Action S A}
    → Total E W P m Q
    → Total E W P n Q
    → Total E W P (elim b as (λ _. Action S A) [ true ↦ m | false ↦ n ]) Q
Total-elim true h k = h
Total-elim false h k = k

-- What `gets` gives may be replaced by what it is known to be.
pub Total-known :
    {S A B : Type 0} {E : ExitCode → S → Type 0} {W P : S → Type 0} {R : B → S → Type 0} {g : S → A}
    (a : A) (k : A → Action S B)
    → ((s : S) → P s → g s ≡ a)
    → Total E W P (k a) R
    → Total E W P (gets g >>= k) R
Total-known {E = E} {W = W} {R = R} a k known h = record {
  at = λ s p. subst (λ b. Meets E W R (k b s)) (sym (known s p)) (h.at s p);
}
