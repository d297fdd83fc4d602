-- ===== src/Base/Action.antt =====
-- A C function that works on the globals of its program, as a state monad over them. The globals
-- come back also where the process ends; `blocked` is a wait for a datagram that never comes.
use csc361_a.Base.{Bool, true, false, ExitCode, failure, Result, ◌≡◌, refl}

pub data Outcome (S A : Type 0) : Type 0 where
  ok : A → S → Outcome S A
  exit : ExitCode → S → Outcome S A
  blocked : S → Outcome S A
  crash : Outcome S A

abbrev pub Action : Type 0 → Type 0 → Type 0
Action S A = S → Outcome S A

module _ {S A B : Type 0} where
  infixl 5 ◌>>=◌ ◌>>◌
  abbrev pub ◌>>=◌ : Action S A → (A → Action S B) → Action S B
  ◌>>=◌ m f s = elim (m s) [
    | ok a s' ↦ f a s'
    | exit c s' ↦ exit c s'
    | blocked s' ↦ blocked s'
    | crash ↦ crash
  ]

  abbrev pub ◌>>◌ : Action S A → Action S B → Action S B
  m >> k = m >>= λ _. k

module _ {S A : Type 0} where
  abbrev pub pure : A → Action S A
  pure a s = ok a s

  abbrev pub gets : (S → A) → Action S A
  gets f s = ok (f s) s

  abbrev pub exit_with : ExitCode → Action S A
  exit_with c s = exit c s

  -- A call of a function that keeps no state.
  abbrev pub call : Result A → Action S A
  call (Result.ok a) s = ok a s
  call Result.exit s = exit failure s
  call Result.crash s = crash

abbrev pub modify : {S : Type 0} → (S → S) → Action S (Unit {0})
modify f s = ok tt (f s)

abbrev pub when : {S : Type 0} → Bool → Action S (Unit {0}) → Action S (Unit {0})
when true m = m
when false m = pure tt

bound :
    {S A B : Type 0} (o : Outcome S A) (f : A → Action S B) {b : B} {u : S}
    → elim o as (λ _. Outcome S B) [
      | ok a s' ↦ f a s'
      | exit c s' ↦ exit c s'
      | blocked s' ↦ blocked s'
      | crash ↦ crash
    ]
      ≡ ok b u
    → (a : A) × (t : S) × (o ≡ ok a t) × (f a t ≡ ok b u)
bound (ok a t) f e = (a, t, refl, e)
bound (exit c t) f e = absurd (cc)
bound (blocked t) f e = absurd (cc)
bound crash f e = absurd (cc)

-- The parts of a chain that returned.
pub bind-ok :
    {S A B : Type 0} (m : Action S A) (f : A → Action S B) (s : S) {b : B} {u : S}
    → (m >>= f) s ≡ ok b u
    → (a : A) × (t : S) × (m s ≡ ok a t) × (f a t ≡ ok b u)
bind-ok m f s e = bound (m s) f e

pub call-ok :
    {S A : Type 0} (r : Result A) {s : S} {a : A} {t : S}
    → call r s ≡ ok a t
    → (r ≡ Result.ok a) × (s ≡ t)
call-ok (Result.ok b) e = (cc, cc)
call-ok Result.exit e = absurd (cc)
call-ok Result.crash e = absurd (cc)
