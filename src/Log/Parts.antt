-- ===== src/Log/Parts.antt =====
-- The parts of the line that print_log of src/rdps.c and src/rdpr.c prints: short strings.
use csc361_a.Base.{
  ℕ, ◌*◌, ◌≤◌, ◌≡◌, Bool, true, false, some, List, [], ◌∷◌, ◌++◌, arith, length, length-append, ok,
  if◌then◌else◌,
}
use csc361_a.Base.Int.{ℤ, pos}
use csc361_a.Base.Text.{Bytes, Lacks, codes, strcpy}
use csc361_a.Base.Decimal.{itoa, IsInt, length-itoa, itoa-Lacks}
use csc361_a.Packet.{type_itos}
use csc361_a.Startup.{Address}
use csc361_a.Log.{Screen, green, cyan, normal, event_letter}
use csc361_a.Log.Strings.{HasString, strcpy-HasString, joined, AllLack}

-- "ip:port"
abbrev pub address_text : Screen → Address → Bytes
address_text screen a = screen.inet_ntoa a.ip ++ (codes ":" ++ itoa (pos a.port))

pub itoa-no_nul : (z : ℤ) → Lacks 0 (itoa z)
itoa-no_nul z = itoa-Lacks 0 z (λ d. omega arith) (omega arith)

-- A number in a block of 80 bytes.
pub number-HasString :
    (m : Bytes) (z : ℤ)
    → length m ≡ 80
    → IsInt z
    → (m' : Bytes) × (strcpy m (itoa z) ≡ some m') × HasString 80 (itoa z) m'
number-HasString m z size z_int =
    strcpy-HasString 80 m (itoa z) size (omega (arith, length-itoa z z_int)) (itoa-no_nul z)

-- The color, the letter and the end of the color.
abbrev pub event_text : Bool → Bool → Bytes
event_text sent unique =
    (if sent then green else cyan) ++ joined (event_letter sent unique ∷ normal ∷ [])

-- A string that is short and has no NUL.
abbrev pub IsShort : ℕ → Bytes → Type 0
IsShort k s = Lacks 0 s × (length s ≤ k)

pub color-IsShort : (b : Bool) → IsShort 5 (if b then green else cyan)
color-IsShort true = (ground arith, omega arith)
color-IsShort false = (ground arith, omega arith)

pub letter-IsShort : (a b : Bool) → IsShort 1 (event_letter a b)
letter-IsShort true true = (ground arith, omega arith)
letter-IsShort true false = (ground arith, omega arith)
letter-IsShort false true = (ground arith, omega arith)
letter-IsShort false false = (ground arith, omega arith)

pub type_itos-IsShort : (t : ℤ) (s : Bytes) → type_itos t ≡ ok s → IsShort 3 s
unfolding type_itos
type_itos-IsShort t s e = ground arith

-- All are short.
abbrev pub AllShort : List Bytes → Type 0
AllShort [] = Unit
AllShort (s ∷ ss) = IsShort 100 s × AllShort ss

pub weaken : (k : ℕ) (s : Bytes) → IsShort k s → k ≤ 100 → IsShort 100 s
weaken k s (z, short) le = (z, omega arith)

pub number-IsShort : (z : ℤ) → IsInt z → IsShort 100 (itoa z)
number-IsShort z z_int = (itoa-no_nul z, omega (arith, length-itoa z z_int))

pub AllShort-joined :
    (ss : List Bytes) → AllShort ss → AllLack ss × (length (joined ss) ≤ 100 * length ss)
AllShort-joined [] h = (tt, omega arith)
AllShort-joined (s ∷ ss) ((z, short), h) =
    let (zs, total) = AllShort-joined ss h in ((z, zs), omega (arith, length-append s (joined ss)))

-- The parts of the line, with `r` for both addresses.
abbrev pub line_parts : Bytes → Bytes → Bytes → Bytes → Bytes → List Bytes
line_parts event r type no_text length_text =
    codes " "
    ∷ event
    ∷ codes " "
    ∷ r
    ∷ codes " "
    ∷ r
    ∷ codes " "
    ∷ type
    ∷ codes " "
    ∷ no_text
    ∷ codes " "
    ∷ length_text
    ∷ []

pub line_parts-AllShort :
    (event r type no_text length_text : Bytes)
    → IsShort 100 event
    → IsShort 100 r
    → IsShort 100 type
    → IsShort 100 no_text
    → IsShort 100 length_text
    → AllShort (line_parts event r type no_text length_text)
line_parts-AllShort event r type no_text length_text e h t n l =
    let blank : IsShort 100 (codes " ") = ((omega arith, tt), omega arith) in
    (blank, (e, (blank, (h, (blank, (h, (blank, (t, (blank, (n, (blank, (l, tt))))))))))))
