-- ===== src/Packet/Split/Cut.antt =====
-- How a text falls into its fields.

use native.Mathlib.Decide.{ℕ_discrete}
use csc361_a.Base.{
  ℕ, zero, suc, ◌≤◌, ◌≡◌, refl, ap, ◌≢◌, none, some, List, [], ◌∷◌, ◌++◌, arith, length,
  length-append,
}
use csc361_a.Base.Text.{Bytes, Lacks, Lacks-left, Lacks-right}
use csc361_a.Packet.{sep}
use csc361_a.Packet.Split.{cut, fields, upto_sep, behind, nth_field}

-- The two ways that a text is cut.
pub data Cut (s : Bytes) : Type 0 where
  whole : cut s ≡ none → upto_sep s ≡ s → Lacks sep s → Cut s
  parted :
      (a r : Bytes) → cut s ≡ some (a, r) → upto_sep s ≡ a → s ≡ a ++ sep ∷ r → Lacks sep a → Cut s

pub fields-none :
    (k : ℕ) (s : Bytes) → cut s ≡ none → (fields (suc k) s ≡ []) × (behind (suc k) s ≡ s)
unfolding fields behind
fields-none k s e = (rw (fields, e) refl, rw (behind, e) refl)

pub fields-some :
    (k : ℕ) (s a r : Bytes)
    → cut s ≡ some (a, r)
    → (fields (suc k) s ≡ a ∷ fields k r) × (behind (suc k) s ≡ behind k r)
unfolding fields behind
fields-some k s a r e = (rw (fields, e) refl, rw (behind, e) refl)

cut-sep : (c : ℕ) (s : Bytes) → c ≡ sep → Cut (c ∷ s)
unfolding cut upto_sep
cut-sep c s e = parted [] s (ground arith) (ground arith) (ap (λ d. d ∷ s) e) tt

cut-cons : (c : ℕ) (s : Bytes) → c ≢ sep → Cut s → Cut (c ∷ s)
unfolding cut upto_sep
cut-cons c s hc (whole e u hs) = whole (ground arith) (ground arith) (hc, hs)
cut-cons c s hc (parted a r e u w hs) =
    parted (c ∷ a) r (ground arith) (ground arith) (ap (λ t. c ∷ t) w) (hc, hs)

pub cut-Cut : (s : Bytes) → Cut s
unfolding cut upto_sep
cut-Cut [] = whole refl refl tt
cut-Cut (c ∷ s) = elim (ℕ_discrete c sep) [
  | yes e ↦ cut-sep c s e
  | no ne ↦ cut-cons c s ne (cut-Cut s)
]

nth_field-Lacks :
    (a : Bytes) (fs : List Bytes) (i : ℕ)
    → Lacks 0 a
    → ((j : ℕ) → Lacks 0 (nth_field j fs))
    → Lacks 0 (nth_field i (a ∷ fs))
unfolding nth_field
nth_field-Lacks a fs zero ha hs = ha
nth_field-Lacks a fs (suc i) ha hs = hs i

-- A field of a text without NUL has none either.
pub fields-Lacks : (k i : ℕ) (s : Bytes) → Lacks 0 s → Lacks 0 (nth_field i (fields k s))
unfolding fields nth_field
fields-Lacks zero i s zs = tt
fields-Lacks (suc k) i s zs = elim (cut-Cut s) [
  | whole c _ hs ↦ rw (fields-none k s c).0 tt
  | parted a r c _ w ha ↦ rw (fields-some k s a r c).0 (
      nth_field-Lacks a (fields k r) i (Lacks-left 0 a (sep ∷ r) (rw w at zs))
        (λ j. fields-Lacks k j r (Lacks-right 0 a (sep ∷ r) (rw w at zs)).1))
]

length-upto_sep : (s : Bytes) → length (upto_sep s) ≤ length s
unfolding upto_sep
length-upto_sep [] = omega arith
length-upto_sep (c ∷ s) = ground (arith, length-upto_sep s)

pub length-behind : (k : ℕ) (s : Bytes) → length (behind k s) ≤ length s
unfolding behind
length-behind zero s = length-upto_sep s
length-behind (suc k) s = elim (cut-Cut s) [
  | whole c _ hs ↦ omega (arith, ap length (fields-none k s c).1)
  | parted a r c _ w ha ↦ omega (
    arith,
    ap length (fields-some k s a r c).1,
    length-behind k r,
    ap length w,
    length-append a (sep ∷ r),
  )
]
