-- ===== src/Packet/Reading.antt =====
-- deconstruct_string on any text: it splits the text at its semicolons.
use mathlib.Core.Option
use native.Mathlib.Decide.{dec_lt}
use csc361_a.Base.{
  ℕ, zero, suc, ◌+◌, ◌≤◌, ◌<◌, ◌≡◌, refl, ap, sym, ◌∙◌, lt→ltb, ge→ltb, Bool, true, false, ◌&&◌,
  some, List, [], ◌∷◌, ◌++◌, arith, ltb, leb, length, length-append, drop, append_assoc, append-nil,
  Result, ◌>>=◌, or_crash,
}
use csc361_a.Base.Text.{
  Bytes, Lacks, Lacks-left, Lacks-right, zeros, zeros-suc, length-zeros, put, strcpy, strcpy-put,
  strcpy-none, c_string, c_string-append,
}
use csc361_a.Packet.{Heap, sep}
use csc361_a.Packet.Parse.{
  Fields, set_field, cur_block, scan_fields, fresh_fields, read_int, read_fields, copy_magic,
  deconstruct_string,
}
use csc361_a.Packet.Scan.{IsZeroed, cur_block-zeros, scan_fields-field}
use csc361_a.Packet.Split.{
  fields, upto_sep, behind, capacity, all_fit, nth_field, make_packet, guarded, parse,
}
use csc361_a.Packet.Split.Cut.{Cut, whole, parted, fields-none, fields-some, cut-Cut, fields-Lacks}
use csc361_a.Packet.Scan.Overrun.{scan_fields-whole, scan_fields-eighth, scan_fields-long}

-- The blocks when these fields have been copied to them.
unfoldable blocks : List Bytes → Fields
blocks fs = record {
  magic = put (zeros 88) (nth_field 0 fs);
  type = put (zeros 32) (nth_field 1 fs);
  seqno = put (zeros 32) (nth_field 2 fs);
  ackno = put (zeros 32) (nth_field 3 fs);
  winsize = put (zeros 32) (nth_field 4 fs);
  payload = put (zeros 8192) (nth_field 5 fs);
  payload_length = put (zeros 32) (nth_field 6 fs);
}

put-nil : (n : ℕ) → 0 < n → put (zeros n) [] ≡ zeros n
put-nil n pos = rw (zeros-suc n pos) refl

-- A copy to a block that is still zero.
copy-fits :
    (n : ℕ) (s : Bytes) (g : Bytes → Fields)
    → 0 < n
    → or_crash (Option.map g (strcpy (put (zeros n) []) s))
      ≡ guarded (ltb (length s) n) (g (put (zeros n) s))
copy-fits n s g pos = elim (dec_lt (length s) n) [
  | yes lt ↦
      rw (put-nil n pos, strcpy-put (zeros n) s (rw length-zeros lt), lt→ltb (length s) n lt) refl
  | no ge ↦
      rw
        (
          put-nil n pos,
          strcpy-none (zeros n) s (omega (arith, length-zeros n)),
          ge→ltb (length s) n (omega arith),
        )
        refl
]

set_field-blocks :
    (fs : List Bytes) (s : Bytes)
    → length fs < 7
    → or_crash (set_field (suc (length fs)) s (blocks fs))
      ≡ guarded (ltb (length s) (capacity (length fs))) (blocks (fs ++ s ∷ []))
unfolding set_field blocks capacity nth_field
set_field-blocks [] s lt = copy-fits 88 s (λ m. record (blocks []) { magic = m }) (omega arith)
set_field-blocks (a ∷ []) s lt =
    copy-fits 32 s (λ m. record (blocks (a ∷ [])) { type = m }) (omega arith)
set_field-blocks (a ∷ b ∷ []) s lt =
    copy-fits 32 s (λ m. record (blocks (a ∷ b ∷ [])) { seqno = m }) (omega arith)
set_field-blocks (a ∷ b ∷ c ∷ []) s lt =
    copy-fits 32 s (λ m. record (blocks (a ∷ b ∷ c ∷ [])) { ackno = m }) (omega arith)
set_field-blocks (a ∷ b ∷ c ∷ d ∷ []) s lt =
    copy-fits 32 s (λ m. record (blocks (a ∷ b ∷ c ∷ d ∷ [])) { winsize = m }) (omega arith)
set_field-blocks (a ∷ b ∷ c ∷ d ∷ e ∷ []) s lt =
    copy-fits 8192 s (λ m. record (blocks (a ∷ b ∷ c ∷ d ∷ e ∷ [])) { payload = m }) (omega arith)
set_field-blocks (a ∷ b ∷ c ∷ d ∷ e ∷ f ∷ []) s lt =
    copy-fits 32 s (λ m. record (blocks (a ∷ b ∷ c ∷ d ∷ e ∷ f ∷ [])) { payload_length = m })
      (omega arith)
set_field-blocks (a ∷ b ∷ c ∷ d ∷ e ∷ f ∷ g ∷ fs) s lt = absurd (omega arith)

capacity-le : (n : ℕ) → capacity n ≤ 8192
unfolding capacity
capacity-le zero = omega arith
capacity-le (suc n) = ground arith

module _ (h : Heap) (z : IsZeroed h) where
  -- A field that a semicolon ends, before the eighth.
  scan_fields-next :
      (done : List Bytes) (a r : Bytes) (n : ℕ)
      → length done ≡ n
      → n < 7
      → Lacks sep a
      → Lacks 0 a
      → scan_fields h (a ++ sep ∷ r) n (cur_block h n) (blocks done) ≡ (
          guarded (ltb (length a) (capacity n)) (blocks (done ++ a ∷ [])) >>= λ f.
          scan_fields h r (suc n) (cur_block h (suc n)) f)
  scan_fields-next done a r n e lt ha za = elim (dec_lt (length a) 8192) [
    | yes fits ↦
        scan_fields-field h a r n (blocks done) z ha za fits lt
        ∙ ap (λ o. o >>= λ f. scan_fields h r (suc n) (cur_block h (suc n)) f)
            (rw (sym e) (set_field-blocks done a (omega arith)))
    | no long ↦
        rw (ge→ltb (length a) (capacity n) (omega (arith, capacity-le n)), cur_block-zeros h n z)
          (scan_fields-long h a r n (blocks done) ha za lt (omega arith))
  ]

  -- Behind the seventh semicolon.
  scan_fields-rest :
      (done : List Bytes) (s : Bytes)
      → Lacks 0 s
      → Cut s
      → scan_fields h s 7 (cur_block h 7) (blocks done)
        ≡ guarded (leb (length (upto_sep s)) 8192) (blocks done)
  scan_fields-rest done s zs (whole _ u hs) =
      rw (u, cur_block-zeros h 7 z) (scan_fields-whole h s 7 (blocks done) hs zs)
  scan_fields-rest done s zs (parted a r _ u w ha) =
      rw (u, cur_block-zeros h 7 z)
        (ap (λ t. scan_fields h t 7 (zeros 8192) (blocks done)) w
          ∙ scan_fields-eighth h a r (blocks done) ha (Lacks-left 0 a (sep ∷ r) (rw w at zs)))

  -- The loop splits the text at its semicolons.
  scan_fields-split :
      (k n : ℕ) (done : List Bytes) (s : Bytes)
      → length done ≡ n
      → n + k ≡ 7
      → Lacks 0 s
      → scan_fields h s n (cur_block h n) (blocks done)
        ≡ guarded
            (all_fit n (fields k s) && leb (length (behind k s)) 8192)
            (blocks (done ++ fields k s))
  unfolding fields behind all_fit
  scan_fields-split zero n done s e seven zs =
      let full : n ≡ 7 = omega arith in
      rw (append-nil done, full) (scan_fields-rest done s zs (cut-Cut s))
  scan_fields-split (suc k) n done s e seven zs = elim (cut-Cut s) [
    | whole c _ hs ↦
        rw ((fields-none k s c).0, (fields-none k s c).1, append-nil done, cur_block-zeros h n z)
          (scan_fields-whole h s n (blocks done) hs zs)
    | parted a r c _ w ha ↦
        let next =
          ap (λ t. scan_fields h t n (cur_block h n) (blocks done)) w
          ∙ scan_fields-next done a r n e (omega arith) ha
              (Lacks-left 0 a (sep ∷ r) (rw w at zs)) in
        rw (next, (fields-some k s a r c).0, (fields-some k s a r c).1)
          (elim (dec_lt (length a) (capacity n)) [
            | yes fits ↦ rw (lt→ltb (length a) (capacity n) fits) (
                scan_fields-split k (suc n) (done ++ a ∷ []) r
                  (omega (arith, length-append done (a ∷ []))) (omega arith)
                  (Lacks-right 0 a (sep ∷ r) (rw w at zs)).1
                ∙ ap
                    (λ fs.
                      guarded (all_fit (suc n) (fields k r) && leb (length (behind k r)) 8192)
                        (blocks fs))
                    (append_assoc done (a ∷ []) (fields k r)))
            | no long ↦ rw (ge→ltb (length a) (capacity n) (omega arith)) refl
          ])
  ]

fresh_fields-blocks : (h : Heap) → IsZeroed h → fresh_fields h ≡ blocks []
unfolding fresh_fields blocks nth_field
fresh_fields-blocks h z =
    let empty : (i n : ℕ) → 0 < n → h.block i n ≡ put (zeros n) [] =
      λ i n pos. z i n ∙ sym (put-nil n pos) in
    λ i. record {
      magic = empty 1 88 (omega arith) i;
      type = empty 2 32 (omega arith) i;
      seqno = empty 3 32 (omega arith) i;
      ackno = empty 4 32 (omega arith) i;
      winsize = empty 5 32 (omega arith) i;
      payload = empty 6 8192 (omega arith) i;
      payload_length = empty 7 32 (omega arith) i;
    }

guarded-bind :
    {A B C : Type 0} (b : Bool) {a : A} {a' : B} (f : A → Result C) (g : B → Result C)
    → f a ≡ g a'
    → (guarded b a >>= f) ≡ (guarded b a' >>= g)
guarded-bind true f g e = e
guarded-bind false f g e = refl

read_fields-blocks :
    (h : Heap) (fs : List Bytes)
    → ((i : ℕ) → Lacks 0 (nth_field i fs))
    → read_fields h (blocks fs) ≡ make_packet h fs
unfolding read_fields copy_magic read_int blocks make_packet
read_fields-blocks h fs zs =
    let reads : (i n : ℕ) → c_string (put (zeros n) (nth_field i fs)) ≡ some (nth_field i fs) =
      λ i n.
        c_string-append (nth_field i fs) (drop (suc (length (nth_field i fs))) (zeros n)) (zs i) in
    rw (reads 0 88, reads 1 32, reads 2 32, reads 3 32, reads 4 32, reads 5 8192, reads 6 32) refl

-- Over zeroed memory deconstruct_string reads any string without NUL the way `parse` does: it
-- splits it at its first seven semicolons, takes missing fields for empty, reads the numbers, and
-- is undefined exactly where `parse` is.
pub deconstruct_string-parse :
    (h : Heap) (s : Bytes) → IsZeroed h → Lacks 0 s → deconstruct_string h s ≡ parse h s
unfolding deconstruct_string parse
deconstruct_string-parse h s z zs =
    rw (fresh_fields-blocks h z, scan_fields-split h z 7 0 [] s refl refl zs)
      (guarded-bind _ (read_fields h) (make_packet h)
        (read_fields-blocks h (fields 7 s) (λ i. fields-Lacks 7 i s zs)))
