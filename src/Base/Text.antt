-- ===== src/Base/Text.antt =====
-- Bytes in memory and the C strings in them.
use Prim.Native.Char.{code}
use Prim.Native.String.{String}
use mathlib.Core.Option
use csc361_a.Base.{
  ℕ, zero, suc, ◌-◌, ◌≤◌, ◌<◌, ◌≡◌, ◌≢◌, refl, sym, ap, Option, none, some, List, [], ◌∷◌, ◌++◌,
  arith, ◌==◌, if◌then◌else◌, length, take, drop, length-append, append_assoc, ◌∙◌,
}

abbrev pub Bytes : Type 0
Bytes = List ℕ

-- The code points of a literal: its bytes, if it is ASCII.
abbrev pub codes : String → Bytes
codes String.[] = []
codes (String.◌∷◌ c s) = code c ∷ codes s

-- The C string at the head of a memory block; `none` if no NUL ends it within the block.
unfoldable pub c_string : Bytes → Option Bytes
c_string [] = none
c_string (c ∷ m) = if c == 0 then some [] else Option.map (λ s. c ∷ s) (c_string m)

-- The block `m` after a write of `s` at its start; `none` if `s` does not fit.
unfoldable pub overlay : Bytes → Bytes → Option Bytes
overlay [] m = some m
overlay (c ∷ s) [] = none
overlay (c ∷ s) (_ ∷ m) = Option.map (λ r. c ∷ r) (overlay s m)

-- strcpy: the string and its NUL are written at the start of the block.
unfoldable pub strcpy : Bytes → Bytes → Option Bytes
unfolding overlay
strcpy m s = overlay (s ++ 0 ∷ []) m

-- `s` holds no byte `b`.
abbrev pub Lacks : ℕ → Bytes → Type 0
Lacks b [] = Unit
Lacks b (c ∷ s) = (c ≢ b) × Lacks b s

pub Lacks-append : (b : ℕ) (s t : Bytes) → Lacks b s → Lacks b t → Lacks b (s ++ t)
Lacks-append b [] t hs ht = ht
Lacks-append b (c ∷ s) t (hc, hs) ht = (hc, Lacks-append b s t hs ht)

pub Lacks-left : (c : ℕ) (s t : Bytes) → Lacks c (s ++ t) → Lacks c s
Lacks-left c [] t h = tt
Lacks-left c (d ∷ s) t (hd, hs) = (hd, Lacks-left c s t hs)

pub Lacks-right : (c : ℕ) (s t : Bytes) → Lacks c (s ++ t) → Lacks c t
Lacks-right c [] t h = h
Lacks-right c (d ∷ s) t (hd, hs) = Lacks-right c s t hs

-- A string that is read back from where it was put, whatever stands behind its NUL.
pub c_string-append : (s rest : Bytes) → Lacks 0 s → c_string (s ++ 0 ∷ rest) ≡ some s
unfolding c_string
c_string-append [] rest _ = refl
c_string-append (c ∷ s) rest (hc, hs) = ground (arith, c_string-append s rest hs)

pub c_string-Lacks : (m s : Bytes) → c_string m ≡ some s → Lacks 0 s
unfolding c_string
c_string-Lacks [] s h = ground arith
c_string-Lacks (c ∷ m) [] h = tt
c_string-Lacks (c ∷ m) (d ∷ s) h = ground (arith, c_string-Lacks m s)

pub overlay-append :
    (s m : Bytes) → length s ≤ length m → overlay s m ≡ some (s ++ drop (length s) m)
unfolding overlay
overlay-append [] m h = refl
overlay-append (c ∷ s) [] h = absurd (omega arith)
overlay-append (c ∷ s) (_ ∷ m) h = ground (arith, overlay-append s m)

pub overlay-none : (s m : Bytes) → length m < length s → overlay s m ≡ none
unfolding overlay
overlay-none [] m h = absurd (omega arith)
overlay-none (c ∷ s) [] h = refl
overlay-none (c ∷ s) (_ ∷ m) h = ground (arith, overlay-none s m)

-- Memory that is all zero. (Shut, so that no proof walks through a block of some thousand bytes.)
unfoldable pub zeros : ℕ → Bytes
zeros zero = []
zeros (suc n) = 0 ∷ zeros n

pub zeros-suc : (n : ℕ) → 0 < n → zeros n ≡ 0 ∷ zeros (n - 1)
unfolding zeros
zeros-suc zero h = elim h [ ]
zeros-suc (suc n) h = ground arith

pub length-zeros : (n : ℕ) → length (zeros n) ≡ n
unfolding zeros
length-zeros zero = refl
length-zeros (suc n) = omega (arith, length-zeros n)

pub Lacks-take : (b n : ℕ) (s : Bytes) → Lacks b s → Lacks b (take n s)
Lacks-take b zero s h = tt
Lacks-take b (suc n) [] h = tt
Lacks-take b (suc n) (c ∷ s) (hc, hs) = (hc, Lacks-take b n s hs)

-- The block `m` with the string `s` in it.
abbrev pub put : Bytes → Bytes → Bytes
put m s = s ++ 0 ∷ drop (suc (length s)) m

drop-suc : (s m : Bytes) → length (s ++ 0 ∷ []) ≡ suc (length s)
drop-suc s m = omega (arith, length-append s (0 ∷ []))

pub strcpy-put : (m s : Bytes) → length s < length m → strcpy m s ≡ some (put m s)
unfolding strcpy
strcpy-put m s h =
    rw (overlay-append (s ++ 0 ∷ []) m (omega (arith, drop-suc s m)), drop-suc s m)
      (ap some (append_assoc s (0 ∷ []) (drop (suc (length s)) m)))

pub strcpy-none : (m s : Bytes) → length m ≤ length s → strcpy m s ≡ none
unfolding strcpy
strcpy-none m s h = overlay-none (s ++ 0 ∷ []) m (omega (arith, drop-suc s m))

pub take-put_long : (k : ℕ) (s r : Bytes) → k ≤ length s → take k (s ++ r) ≡ take k s
take-put_long zero s r h = refl
take-put_long (suc k) [] r h = absurd (omega arith)
take-put_long (suc k) (c ∷ s) r h = ap (λ t. c ∷ t) (take-put_long k s r (omega arith))

pub take-put_short :
    (k : ℕ) (s r : Bytes) → length s < k → (r' : Bytes) × (take k (s ++ 0 ∷ r) ≡ s ++ 0 ∷ r')
take-put_short zero s r h = elim h [ ]
take-put_short (suc k) [] r h = (take k r, refl)
take-put_short (suc k) (c ∷ s) r h =
    let (r', e) = take-put_short k s r (omega arith) in (r', ap (λ t. c ∷ t) e)

pub take-all : (k : ℕ) (s : Bytes) → length s ≤ k → take k s ≡ s
take-all zero [] h = refl
take-all zero (c ∷ s) h = absurd (omega arith)
take-all (suc k) [] h = refl
take-all (suc k) (c ∷ s) h = ap (λ t. c ∷ t) (take-all k s (omega arith))

zeros-none : (n : ℕ) → n ≡ 0 → zeros n ≡ []
unfolding zeros
zeros-none n e = ap zeros e

pub drop-zeros : (k n : ℕ) → drop k (zeros n) ≡ zeros (n - k)
unfolding zeros
drop-zeros zero n = ap zeros (omega arith)
drop-zeros (suc k) zero = sym (zeros-none (0 - suc k) (omega arith))
drop-zeros (suc k) (suc n) = drop-zeros k n ∙ ap zeros (omega arith)
