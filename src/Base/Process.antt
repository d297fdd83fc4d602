-- ===== src/Base/Process.antt =====
-- What a C function that keeps no global state can do: return, end the process by exit(-1), or run
-- into undefined behaviour (an access outside a block, a null or uninitialised pointer).
use mathlib.Core.Option.{Option, none, some}
use mathlib.Core.Path.{◌≡◌, refl, ap}

-- `success` is exit(0), `failure` is exit(-1).
pub data ExitCode : Type 0 where
  success failure : ExitCode

-- The three ends of a call.
pub data Result {ℓ} (A : Type ℓ) : Type ℓ where
  crash : Result A
  exit : Result A
  ok : A → Result A

module _ {ℓ κ} {A : Type ℓ} {B : Type κ} where
  infixl 5 ◌>>=◌
  abbrev pub ◌>>=◌ : Result A → (A → Result B) → Result B
  crash >>= k = crash
  exit >>= k = exit
  ok a >>= k = k a

  -- The parts of a chain that returned.
  pub returned :
      {b : B} (r : Result A) (k : A → Result B)
      → (r >>= k) ≡ ok b
      → (a : A) × (r ≡ ok a) × (k a ≡ ok b)
  returned crash k e = absurd (cc)
  returned exit k e = absurd (cc)
  returned (ok a) k e = (a, refl, e)

abbrev pub or_crash {ℓ} : {A : Type ℓ} → Option A → Result A
or_crash none = crash
or_crash (some a) = ok a

abbrev pub or_exit {ℓ} : {A : Type ℓ} → Option A → Result A
or_exit none = exit
or_exit (some a) = ok a

-- More work after a chain of calls that is known to succeed.
pub >>=-after {ℓ κ μ} :
    {A : Type ℓ} {B : Type κ} {C : Type μ} (m : Result A) (f : A → Result B) (g : B → Result C)
    {b : B}
    → (m >>= f) ≡ ok b
    → (m >>= λ a. f a >>= g) ≡ g b
>>=-after (ok a) f g h = ap (λ r. r >>= g) h
>>=-after exit f g h = absurd (cc)
>>=-after crash f g h = absurd (cc)

pub ok_inj {ℓ} : {A : Type ℓ} {a b : A} → ok a ≡ ok b → a ≡ b
ok_inj h = cc
