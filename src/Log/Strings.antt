-- ===== src/Log/Strings.antt =====
-- Strings in memory of a known size, which sprintf, strcpy and strcat write.
use csc361_a.Base.{
  ℕ, suc, ◌≤◌, ◌<◌, ◌≡◌, refl, sym, ◌∙◌, subst, some, List, [], ◌∷◌, ◌++◌, append_assoc, append-nil,
  arith, length, length-append, length-drop, drop, ok, or_crash, crash,
}
use csc361_a.Base.Text.{
  Bytes, Lacks, Lacks-append, c_string, c_string-append, c_string-Lacks, strcpy, put, strcpy-put,
  strcpy-none,
}
use csc361_a.Log.{strcat, strcats}

-- A block of `n` bytes that holds the string `s`.
pub record HasString (n : ℕ) (s m : Bytes) : Type 0 where
  pub size_lem : length m ≡ n
  pub string_lem : c_string m ≡ some s

length-put : (m s : Bytes) → length s < length m → length (put m s) ≡ length m
length-put m s h =
    omega (arith, length-append s (0 ∷ drop (suc (length s)) m), length-drop (suc (length s)) m)

pub strcpy-HasString :
    (n : ℕ) (m s : Bytes)
    → length m ≡ n
    → length s < n
    → Lacks 0 s
    → (m' : Bytes) × (strcpy m s ≡ some m') × HasString n s m'
strcpy-HasString n m s size fits zs = (
  put m s,
  strcpy-put m s (omega arith),
  record {
    size_lem = length-put m s (omega arith) ∙ size;
    string_lem = c_string-append s (drop (suc (length s)) m) zs;
  },
)

pub strcat-HasString :
    (n : ℕ) (m s t : Bytes)
    → HasString n s m
    → length (s ++ t) < n
    → Lacks 0 t
    → (m' : Bytes) × (strcat m t ≡ some m') × HasString n (s ++ t) m'
unfolding strcat
strcat-HasString n m s t h fits zt =
    let zs = c_string-Lacks m s h.string_lem in
    let (m', e, h') = strcpy-HasString n m (s ++ t) h.size_lem fits (Lacks-append 0 s t zs zt) in
    (m', rw (strcat, h.string_lem) e, h')

-- The strings after each other.
abbrev pub joined : List Bytes → Bytes
joined [] = []
joined (s ∷ ss) = s ++ joined ss

abbrev pub AllLack : List Bytes → Type 0
AllLack [] = Unit
AllLack (s ∷ ss) = Lacks 0 s × AllLack ss

pub strcats-HasString :
    (n : ℕ) (m s : Bytes) (ts : List Bytes)
    → HasString n s m
    → length (s ++ joined ts) < n
    → AllLack ts
    → (m' : Bytes) × (strcats m ts ≡ ok m') × HasString n (s ++ joined ts) m'
unfolding strcats
strcats-HasString n m s [] h fits zs =
    (m, refl, subst (λ t. HasString n t m) (sym (append-nil s)) h)
strcats-HasString n m s (t ∷ ts) h fits (zt, zts) =
    let same = append_assoc s t (joined ts) in
    let total = length-append s (t ++ joined ts) in
    let part = length-append s t in
    let rest = length-append t (joined ts) in
    let (m1, e1, h1) = strcat-HasString n m s t h (omega arith) zt in
    let (m2, e2, h2) = strcats-HasString n m1 (s ++ t) ts h1 (rw same fits) zts in
    (m2, rw e1 e2, subst (λ u. HasString n u m2) same h2)

-- A string that does not fit.
pub strcat-overrun :
    (n : ℕ) (m s t : Bytes) → HasString n s m → n ≤ length (s ++ t) → or_crash (strcat m t) ≡ crash
unfolding strcat
strcat-overrun n m s t h long =
    rw (strcat, h.string_lem, strcpy-none m (s ++ t) (let e = h.size_lem in omega arith)) refl
