-- ===== src/Base/Triple.antt =====
-- Triples for C functions on globals: from globals with `P` a call returns `a` with globals with
-- `Q a`, and wherever it ends the process or waits, the globals have `I`.
use csc361_a.Base.{Bool, true, false, ◌≡◌, refl, ExitCode, Result}
use csc361_a.Base.Action.{
  Action, Outcome, ok, exit, blocked, crash, ◌>>=◌, call, gets, modify, pure, when, exit_with,
}

module _ {S : Type 0} where
  abbrev pub Holds : {A : Type 0} → (S → Type 0) → (A → S → Type 0) → Outcome S A → Type 0
  Holds I Q (ok a s) = Q a s
  Holds I Q (exit c s) = I s
  Holds I Q (blocked s) = I s
  Holds I Q crash = Unit

  -- Wherever the call waits or ends, if it does not run into undefined behaviour.
  abbrev pub Everywhere : {A : Type 0} → (S → Type 0) → Outcome S A → Type 0
  Everywhere I o = Holds I (λ _. I) o

  pub record Triple {A : Type 0} (I P : S → Type 0) (m : Action S A) (Q : A → S → Type 0)
      : Type 0 where
    pub at : (s : S) → P s → Holds I Q (m s)

  abbrev pub Ensures : {A : Type 0} → (S → Type 0) → Action S A → Type 0
  Ensures I m = Triple I I m (λ _. I)

module _ {S : Type 0} (I : S → Type 0) where
  pub Holds-bind :
      {A B : Type 0} (Q : A → S → Type 0) (R : B → S → Type 0) (o : Outcome S A)
      (k : A → Action S B)
      → Holds I Q o
      → ((a : A) (t : S) → Q a t → Holds I R (k a t))
      → Holds I R (elim o as (λ _. Outcome S B) [
        | ok a s' ↦ k a s'
        | exit c s' ↦ exit c s'
        | blocked s' ↦ blocked s'
        | crash ↦ crash
      ])
  Holds-bind Q R (ok a t) k h next = next a t h
  Holds-bind Q R (exit c t) k h next = h
  Holds-bind Q R (blocked t) k h next = h
  Holds-bind Q R crash k h next = tt

  pub Holds-weaken :
      {A : Type 0} (J : S → Type 0) (Q R : A → S → Type 0) (o : Outcome S A)
      → ((s : S) → J s → I s)
      → ((a : A) (s : S) → Q a s → R a s)
      → Holds J Q o
      → Holds I R o
  Holds-weaken J Q R (ok a s) f g h = g a s h
  Holds-weaken J Q R (exit c s) f g h = f s h
  Holds-weaken J Q R (blocked s) f g h = f s h
  Holds-weaken J Q R crash f g h = tt

module _ {S : Type 0} {I P : S → Type 0} where
  pub Triple-bind :
      {A B : Type 0} {Q : A → S → Type 0} {R : B → S → Type 0} {m : Action S A} {k : A → Action S B}
      → Triple I P m Q
      → ((a : A) → Triple I (Q a) (k a) R)
      → Triple I P (m >>= k) R
  Triple-bind {Q = Q} {R = R} {m = m} {k = k} g gs = record {
    at = λ s p. Holds-bind I Q R (m s) k (g.at s p) (λ a t q. (gs a).at t q);
  }

  pub Triple-pure :
      {A : Type 0} {Q : A → S → Type 0} {a : A} → ((s : S) → P s → Q a s) → Triple I P (pure a) Q
  Triple-pure h = record { at = h }

  pub Triple-gets :
      {A : Type 0} {Q : A → S → Type 0} {g : S → A}
      → ((s : S) → P s → Q (g s) s)
      → Triple I P (gets g) Q
  Triple-gets h = record { at = h }

  pub Triple-modify :
      {Q : Unit {0} → S → Type 0} {g : S → S}
      → ((s : S) → P s → Q tt (g s))
      → Triple I P (modify g) Q
  Triple-modify h = record { at = h }

  pub Triple-exit :
      {A : Type 0} {Q : A → S → Type 0} {c : ExitCode}
      → ((s : S) → P s → I s)
      → Triple I P (exit_with c) Q
  Triple-exit h = record { at = h }

  -- A pure condition of the globals that hold before may be used for the rest.
  pub Triple-weaken :
      {A : Type 0} {J P' : S → Type 0} {Q R : A → S → Type 0} {m : Action S A}
      → ((s : S) → J s → I s)
      → ((s : S) → P s → P' s)
      → ((a : A) (s : S) → Q a s → R a s)
      → Triple J P' m Q
      → Triple I P m R
  Triple-weaken {J = J} {Q = Q} {R = R} {m = m} f p g h = record {
    at = λ s x. Holds-weaken I J Q R (m s) f g (h.at s (p s x));
  }

module _ {S : Type 0} {I : S → Type 0} where
  pub Ensures-when : (b : Bool) {m : Action S (Unit {0})} → Ensures I m → Ensures I (when b m)
  Ensures-when true h = h
  Ensures-when false h = Triple-pure (λ s i. i)

  -- A call of a function without globals, and what it returned.
  pub Triple-call :
      {A : Type 0} (r : Result A) → Triple I I (call {S = S} r) (λ a s. I s × (r ≡ Result.ok a))
  Triple-call (Result.ok a) = record { at = λ s i. (i, refl) }
  Triple-call Result.exit = record { at = λ s i. i }
  Triple-call Result.crash = record { at = λ s i. tt }

  pub Ensures-call : {A : Type 0} (r : Result A) → Ensures I (call {S = S} r)
  Ensures-call (Result.ok a) = record { at = λ s i. i }
  Ensures-call Result.exit = record { at = λ s i. i }
  Ensures-call Result.crash = record { at = λ s i. tt }

module _ {S : Type 0} {I P : S → Type 0} {Q : Unit {0} → S → Type 0} where
  pub Triple-when :
      (b : Bool) {m : Action S (Unit {0})}
      → ((s : S) → P s → Q tt s)
      → Triple I P m Q
      → Triple I P (when b m) Q
  Triple-when true f h = h
  Triple-when false f h = Triple-pure f

pub Everywhere-weaken :
    {S A : Type 0} {I J : S → Type 0}
    → ((s : S) → I s → J s)
    → (o : Outcome S A) → Everywhere I o
    → Everywhere J o
Everywhere-weaken {I = I} {J = J} f o h = Holds-weaken J I (λ _. I) (λ _. J) o f (λ a. f) h
