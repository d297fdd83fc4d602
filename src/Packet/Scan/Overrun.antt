-- ===== src/Packet/Scan/Overrun.antt =====
-- The loop of deconstruct_string where a field fills its block of 8192 bytes, and where it ends.

use native.Mathlib.Decide.{dec_lt}
use csc361_a.Base.{
  ℕ, ◌-◌, ◌≤◌, ◌<◌, ◌≡◌, refl, ap, sym, ◌∙◌, ne→==, lt→leb, le→leb, none, [], ◌∷◌, ◌++◌, arith, leb,
  length, append-nil, ok, crash,
}
use csc361_a.Base.Text.{Bytes, Lacks, Lacks-append, zeros, c_string}
use csc361_a.Packet.{Heap, sep, char_append}
use csc361_a.Packet.Parse.{Fields, scan_fields}
use csc361_a.Packet.Scan.{scan_fields-append, char_append-zeros}
use csc361_a.Packet.Split.{guarded}

c_string-none : (t : Bytes) → Lacks 0 t → c_string t ≡ none
unfolding c_string
c_string-none [] _ = refl
c_string-none (c ∷ t) (hc, ht) = ground (arith, c_string-none t ht)

zeros-none : (t : Bytes) (k : ℕ) → k ≡ 0 → t ++ zeros k ≡ t
unfolding zeros
zeros-none t k e = rw e (append-nil t)

-- A field that is too long for its block of 8192 bytes.
scan_fields-over :
    (h : Heap) (s rest t : Bytes) (k n : ℕ) (f : Fields)
    → Lacks sep s
    → Lacks 0 s
    → Lacks 0 t
    → k < length s
    → scan_fields h (s ++ rest) n (t ++ zeros k) f ≡ crash
unfolding scan_fields char_append
scan_fields-over h [] rest t k n f _ _ _ lt = elim lt [ ]
scan_fields-over h (c ∷ s) rest t k n f (hc, hs) (zc, zs) ht lt = elim (dec_lt 0 k) [
  | yes pos ↦
      rw (scan_fields, ne→== c sep hc, char_append-zeros t k c ht pos)
        (scan_fields-over h s rest (t ++ c ∷ []) (k - 1) n f hs zs
          (Lacks-append 0 t (c ∷ []) ht (zc, tt)) (omega arith))
  | no none_left ↦
      rw
        (scan_fields, ne→== c sep hc, zeros-none t k (omega arith), char_append, c_string-none t ht)
        refl
]

-- The block is full when the semicolon comes.
scan_fields-full :
    (h : Heap) (s rest : Bytes) (n : ℕ) (f : Fields)
    → Lacks 0 s
    → n < 7
    → scan_fields h (sep ∷ rest) n s f ≡ crash
unfolding scan_fields
scan_fields-full h s rest n f zs lt = rw (scan_fields, lt→leb n 7 lt, c_string-none s zs) refl

-- A text whose characters are gathered, before one at which the loop ends.
scan_fields-last :
    (h : Heap) (s rest : Bytes) (n : ℕ) (f : Fields)
    → Lacks sep s
    → Lacks 0 s
    → ((t : Bytes) → scan_fields h rest n t f ≡ ok f)
    → scan_fields h (s ++ rest) n (zeros 8192) f ≡ guarded (leb (length s) 8192) f
scan_fields-last h s rest n f hs zs ends = elim (dec_lt 8192 (length s)) [
  | yes long ↦
      scan_fields-over h s rest [] 8192 n f hs zs tt long
      ∙ sym (ap (λ b. guarded b f) (lt→leb 8192 (length s) long))
  | no fits ↦
      scan_fields-append h s rest [] 8192 n f hs zs tt (omega arith)
      ∙ ends (s ++ zeros (8192 - length s))
      ∙ sym (ap (λ b. guarded b f) (le→leb (length s) 8192 (omega arith)))
]

-- A last text that no semicolon ends.
pub scan_fields-whole :
    (h : Heap) (s : Bytes) (n : ℕ) (f : Fields)
    → Lacks sep s
    → Lacks 0 s
    → scan_fields h s n (zeros 8192) f ≡ guarded (leb (length s) 8192) f
unfolding scan_fields
scan_fields-whole h s n f hs zs =
    ap (λ u. scan_fields h u n (zeros 8192) f) (sym (append-nil s))
    ∙ scan_fields-last h s [] n f hs zs (λ t. refl)

-- The eighth field, that a semicolon ends.
pub scan_fields-eighth :
    (h : Heap) (s r : Bytes) (f : Fields)
    → Lacks sep s
    → Lacks 0 s
    → scan_fields h (s ++ sep ∷ r) 7 (zeros 8192) f ≡ guarded (leb (length s) 8192) f
unfolding scan_fields
scan_fields-eighth h s r f hs zs = scan_fields-last h s (sep ∷ r) 7 f hs zs (λ t. refl)

-- A field too long for the block that it is gathered in.
pub scan_fields-long :
    (h : Heap) (s r : Bytes) (n : ℕ) (f : Fields)
    → Lacks sep s
    → Lacks 0 s
    → n < 7
    → 8192 ≤ length s
    → scan_fields h (s ++ sep ∷ r) n (zeros 8192) f ≡ crash
scan_fields-long h s r n f hs zs lt long = elim (dec_lt 8192 (length s)) [
  | yes over ↦ scan_fields-over h s (sep ∷ r) [] 8192 n f hs zs tt over
  | no full ↦
      scan_fields-append h s (sep ∷ r) [] 8192 n f hs zs tt (omega arith)
      ∙ ap (λ t. scan_fields h (sep ∷ r) n t f) (zeros-none s (8192 - length s) (omega arith))
      ∙ scan_fields-full h s r n f zs lt
]
