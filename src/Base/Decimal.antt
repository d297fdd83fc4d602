-- ===== src/Base/Decimal.antt =====
-- sprintf with "%d" and atoi, on the values of an int.
use mathlib.Core.List.{concat-ne-nil}
use csc361_a.Base.{
  ℕ, zero, suc, ◌+◌, ◌-◌, ◌*◌, ◌/◌, ◌%◌, ◌^◌, ◌≤◌, ◌<◌, ◌≡◌, ◌≢◌, refl, sym, Bool, true, false,
  ◌&&◌, ◌||◌, Option, none, some, [], ◌∷◌, ◌++◌, arith, ◌==◌, ltb, leb, if◌then◌else◌, length,
  length-append,
}
use csc361_a.Base.Int.{ℤ, pos, negsuc}
use csc361_a.Base.Text.{Bytes, Lacks}

-- The values of a 32-bit int.
abbrev pub IsInt : ℤ → Type 0
IsInt (pos n) = n < 2 ^ 31
IsInt (negsuc n) = n < 2 ^ 31

-- The digits of `n`, the last one first off; `n + 1` rounds are enough.
digits : ℕ → ℕ → Bytes
digits zero n = []
digits (suc f) n =
    let front = digits f (n / 10) in
    if ltb n 10 then (b'0' + n) ∷ [] else front ++ (b'0' + n % 10) ∷ []

-- sprintf(s, "%d", z)
unfoldable pub itoa : ℤ → Bytes
unfolding digits
itoa (pos n) = digits (suc n) n
itoa (negsuc n) = b'-' ∷ digits (suc (suc n)) (suc n)

abbrev is_digit : ℕ → Bool
is_digit c = leb b'0' c && leb c b'9'

-- isspace: a blank, or one of \t \n \v \f \r
abbrev is_space : ℕ → Bool
is_space c = c == 32 || leb 9 c && leb c 13

scan_digits : ℕ → Bytes → ℕ
scan_digits acc [] = acc
scan_digits acc (c ∷ s) =
    let more = scan_digits (acc * 10 + (c - b'0')) s in if is_digit c then more else acc

-- The C standard leaves a result that is no int undefined: `none`.
int_of : Bool → ℕ → Option ℤ
int_of true n =
    if n == 0 then some (pos 0) else if leb n (2 ^ 31) then some (negsuc (n - 1)) else none
int_of false n = if ltb n (2 ^ 31) then some (pos n) else none

skip_spaces : Bytes → Bytes
skip_spaces [] = []
skip_spaces (c ∷ s) = if is_space c then skip_spaces s else c ∷ s

read_sign : Bytes → Option ℤ
unfolding scan_digits int_of
read_sign [] = some (pos 0)
read_sign (c ∷ s) =
    if c == b'-'
    then int_of true (scan_digits 0 s)
    else if c == b'+'
    then int_of false (scan_digits 0 s)
    else int_of false (scan_digits 0 (c ∷ s))

unfoldable pub atoi : Bytes → Option ℤ
unfolding skip_spaces read_sign
atoi s = read_sign (skip_spaces s)

abbrev IsDigit : ℕ → Type 0
IsDigit c = (b'0' ≤ c) × (c ≤ b'9')

abbrev Digits : Bytes → Type 0
Digits [] = Unit
Digits (c ∷ s) = IsDigit c × Digits s

Digits-snoc : (s : Bytes) (c : ℕ) → Digits s → IsDigit c → Digits (s ++ c ∷ [])
Digits-snoc [] c _ hc = (hc, tt)
Digits-snoc (d ∷ s) c (hd, hs) hc = (hd, Digits-snoc s c hs hc)

digits-Digits : (f n : ℕ) → Digits (digits f n)
unfolding digits
digits-Digits zero n = tt
digits-Digits (suc f) n =
    ground (arith, Digits-snoc (digits f (n / 10)) (b'0' + n % 10) (digits-Digits f (n / 10)))

scan_digits-snoc :
    (acc : ℕ) (s : Bytes) (c : ℕ)
    → Digits s
    → IsDigit c
    → scan_digits acc (s ++ c ∷ []) ≡ scan_digits acc s * 10 + (c - b'0')
unfolding scan_digits
scan_digits-snoc acc [] c _ hc = ground arith
scan_digits-snoc acc (d ∷ s) c (hd, hs) hc =
    ground (arith, scan_digits-snoc (acc * 10 + (d - b'0')) s c hs hc)

scan_digits-digits : (f n : ℕ) → n < f → scan_digits 0 (digits f n) ≡ n
unfolding digits scan_digits
scan_digits-digits zero n h = elim h [ ]
scan_digits-digits (suc f) n h = ground (
  arith,
  scan_digits-digits f (n / 10),
  scan_digits-snoc 0 (digits f (n / 10)) (b'0' + n % 10) (digits-Digits f (n / 10)),
)

read_sign-Digits :
    (s : Bytes) (n : ℕ)
    → Digits s
    → scan_digits 0 s ≡ n
    → s ≢ []
    → read_sign (skip_spaces s) ≡ int_of false n
unfolding read_sign skip_spaces
read_sign-Digits [] n d e h = absurd (h refl)
read_sign-Digits (c ∷ s) n d e h = ground arith

digits-ne-nil : (f n : ℕ) → digits (suc f) n ≢ []
unfolding digits
digits-ne-nil f n = ground (arith, concat-ne-nil (b'0' + n % 10) (digits f (n / 10)))

-- Every int is read back from its decimal print.
pub atoi-itoa : (z : ℤ) → IsInt z → atoi (itoa z) ≡ some z
unfolding atoi itoa
atoi-itoa (pos n) h =
    rw
      (read_sign-Digits (digits (suc n) n) n (digits-Digits (suc n) n)
        (scan_digits-digits (suc n) n (omega arith)) (digits-ne-nil n n))
      (unfold int_of in ground arith)
atoi-itoa (negsuc n) h =
    unfold read_sign skip_spaces int_of in ground (arith, scan_digits-digits (suc (suc n)) (suc n))

abbrev pow10 : ℕ → ℕ
pow10 zero = 1
pow10 (suc k) = 10 * pow10 k

length-digits : (f k n : ℕ) → n < pow10 (suc k) → length (digits f n) ≤ suc k
unfolding digits
length-digits zero k n h = omega arith
length-digits (suc f) zero n h = ground arith
length-digits (suc f) (suc k) n h =
    ground
      (arith, length-digits f k (n / 10), length-append (digits f (n / 10)) ((b'0' + n % 10) ∷ []))

-- The print of an int has at most eleven characters.
pub length-itoa : (z : ℤ) → IsInt z → length (itoa z) ≤ 11
unfolding itoa
length-itoa (pos n) h = omega (arith, length-digits (suc n) 9 n (omega arith))
length-itoa (negsuc n) h = omega (arith, length-digits (suc (suc n)) 9 (suc n) (omega arith))

Digits-Lacks : (b : ℕ) (s : Bytes) → Digits s → ¬ IsDigit b → Lacks b s
Digits-Lacks b [] d h = tt
Digits-Lacks b (c ∷ s) (hc, d) h = ((λ e. h (rw (← e) hc)), Digits-Lacks b s d h)

-- A byte that is neither a digit nor a minus sign stands in no print: `;` and NUL do not.
pub itoa-Lacks : (b : ℕ) (z : ℤ) → ¬ IsDigit b → b ≢ b'-' → Lacks b (itoa z)
unfolding itoa
itoa-Lacks b (pos n) h e = Digits-Lacks b (digits (suc n) n) (digits-Digits (suc n) n) h
itoa-Lacks b (negsuc n) h e = (
  (λ q. e (sym q)),
  Digits-Lacks b (digits (suc (suc n)) (suc n)) (digits-Digits (suc (suc n)) (suc n)) h,
)
