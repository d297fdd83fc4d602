-- ===== src/Packet/Scan.antt =====
-- The loop of deconstruct_string, one field at a time, over memory that malloc hands out zeroed.
pub mod Overrun
use mathlib.Core.Path.{ap₂}
use csc361_a.Base.{
  ℕ, suc, ◌+◌, ◌-◌, ◌≤◌, ◌<◌, ◌≡◌, refl, ap, ne→==, lt→leb, sym, ◌∙◌, some, [], ◌∷◌, ◌++◌, arith,
  length, append_assoc, append-nil, set, ok, ◌>>=◌, or_crash,
}
use csc361_a.Base.Text.{Bytes, Lacks, zeros, zeros-suc, c_string-append, Lacks-append}
use csc361_a.Packet.{Heap, sep, char_append}
use csc361_a.Packet.Parse.{Fields, set_field, cur_block, scan_fields}

-- malloc gives zeroed blocks of the size asked for.
abbrev pub IsZeroed : Heap → Type 0
IsZeroed h = (i n : ℕ) → h.block i n ≡ zeros n

set-length : (t r : Bytes) (b c : ℕ) → set (t ++ b ∷ r) (length t) c ≡ t ++ c ∷ r
set-length [] r b c = refl
set-length (d ∷ t) r b c = ap (λ u. d ∷ u) (set-length t r b c)

pub char_append-zeros :
    (t : Bytes) (k c : ℕ)
    → Lacks 0 t
    → 0 < k
    → char_append (t ++ zeros k) c ≡ some ((t ++ c ∷ []) ++ zeros (k - 1))
unfolding char_append
char_append-zeros t k c ht hk =
    rw (zeros-suc k hk, c_string-append t (zeros (k - 1)) ht, append_assoc)
      (ap some (set-length t (zeros (k - 1)) 0 c))

-- The characters of a field are gathered in cur_field.
pub scan_fields-append :
    (h : Heap) (s rest t : Bytes) (k n : ℕ) (f : Fields)
    → Lacks sep s
    → Lacks 0 s
    → Lacks 0 t
    → length s ≤ k
    → scan_fields h (s ++ rest) n (t ++ zeros k) f
      ≡ scan_fields h rest n ((t ++ s) ++ zeros (k - length s)) f
unfolding scan_fields
scan_fields-append h [] rest t k n f _ _ _ lt =
    rw append-nil (ap (λ m. scan_fields h rest n (t ++ zeros m) f) (omega arith))
scan_fields-append h (c ∷ s) rest t k n f (hc, hs) (zc, zs) ht lt =
    rw (scan_fields, ne→== c sep hc, char_append-zeros t k c ht (omega arith))
      (scan_fields-append h s rest (t ++ c ∷ []) (k - 1) n f hs zs
          (Lacks-append 0 t (c ∷ []) ht (zc, tt)) (omega arith)
        ∙ ap₂ (λ u m. scan_fields h rest n (u ++ zeros m) f) (append_assoc t (c ∷ []) s)
            (omega arith))

pub cur_block-zeros : (h : Heap) (n : ℕ) → IsZeroed h → cur_block h n ≡ zeros 8192
unfolding cur_block
cur_block-zeros h n z = z (8 + n) 8192

-- At a semicolon before the eighth the field is copied to its block, and a new block begins.
scan_fields-sep :
    (h : Heap) (s rest : Bytes) (n k : ℕ) (f : Fields)
    → Lacks 0 s
    → length s < k
    → n < 7
    → scan_fields h (sep ∷ rest) n (s ++ zeros (k - length s)) f ≡ (
        or_crash (set_field (suc n) s f) >>= λ f'.
        scan_fields h rest (suc n) (cur_block h (suc n)) f')
unfolding scan_fields
scan_fields-sep h s rest n k f zs fits lt =
    rw
      (
        scan_fields,
        lt→leb n 7 lt,
        zeros-suc (k - length s) (omega arith),
        c_string-append s (zeros (k - length s - 1)) zs,
      )
      refl

-- A field and the semicolon behind it.
pub scan_fields-field :
    (h : Heap) (s rest : Bytes) (n : ℕ) (f : Fields)
    → IsZeroed h
    → Lacks sep s
    → Lacks 0 s
    → length s < 8192
    → n < 7
    → scan_fields h (s ++ sep ∷ rest) n (cur_block h n) f ≡ (
        or_crash (set_field (suc n) s f) >>= λ f'.
        scan_fields h rest (suc n) (cur_block h (suc n)) f')
scan_fields-field h s rest n f z hs zs fits lt = rw (cur_block-zeros h n z) (
    scan_fields-append h s (sep ∷ rest) [] 8192 n f hs zs tt (omega arith)
    ∙ scan_fields-sep h s rest n 8192 f zs fits lt)

-- Behind the seventh semicolon one more field is passed over, and the loop ends.
pub scan_fields-end :
    (h : Heap) (s rest : Bytes) (f : Fields)
    → IsZeroed h
    → Lacks sep s
    → Lacks 0 s
    → length s < 8192
    → (scan_fields h s 7 (cur_block h 7) f ≡ ok f)
      × (scan_fields h (s ++ sep ∷ rest) 7 (cur_block h 7) f ≡ ok f)
unfolding scan_fields
scan_fields-end h s rest f z hs zs fits = (
  rw (cur_block-zeros h 7 z) (
      ap (λ u. scan_fields h u 7 (zeros 8192) f) (sym (append-nil s))
      ∙ scan_fields-append h s [] [] 8192 7 f hs zs tt (omega arith)),
  rw (cur_block-zeros h 7 z)
      (scan_fields-append h s (sep ∷ rest) [] 8192 7 f hs zs tt (omega arith)),
)
