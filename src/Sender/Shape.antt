-- ===== src/Sender/Shape.antt =====
-- The shape of a plan of src/rdps.c's packets: one chunk for a small file, and what all but the
-- first chunk hold.
use native.Mathlib.Decide.{ℕ_discrete}
use csc361_a.Base.{
  All, All-weaken, zero, ne→==, ==_iff, ap, subst, ◌⊎◌, inl, inr, ℕ, suc, ◌+◌, ◌≤◌, ◌≡◌, refl, sym,
  ◌∙◌, List, [], ◌∷◌, ◌++◌, arith, length, take, length-append, append_assoc, append-nil,
}
use csc361_a.Base.Text.{Bytes, Lacks}
use csc361_a.Sender.Plan.{Chunk, before_nul, plan, plan_full, plan_more, full_chunk}

-- The plan that is one chunk.
unfoldable pub whole : Bytes → ℕ → ℕ → List Chunk
whole s n seqno = record { text = take 1024 (before_nul s); size = n; seqno = seqno } ∷ []

pub plan_one :
    (cur : ℕ) (u bs : Bytes)
    → length u + length bs ≤ 1024
    → plan cur u bs ≡ whole (u ++ bs) (length u + length bs) (cur + length bs)
unfolding plan whole
plan_one cur u [] h = λ i. whole (sym (append-nil u) i) (sizes i) (ends i)
  where
    sizes : length u ≡ length u + 0
    sizes = omega arith

    ends : cur ≡ cur + 0
    ends = omega arith
plan_one cur u (b ∷ bs) h =
    let grown = length-append u (b ∷ []) in
    plan_more cur u b bs (omega arith) ∙ plan_one (cur + 1) (u ++ b ∷ []) bs (omega arith) ∙ λ i.
    whole (append_assoc u (b ∷ []) bs i) (sizes grown i) (ends i)
  where
    sizes :
        length (u ++ b ∷ []) ≡ length u + 1
        → length (u ++ b ∷ []) + length bs ≡ length u + suc (length bs)
    sizes e = omega arith

    ends : cur + 1 + length bs ≡ cur + suc (length bs)
    ends = omega arith

pub before_nul-Lacks : (s : Bytes) → Lacks 0 s → before_nul s ≡ s
unfolding before_nul
before_nul-Lacks [] h = refl
before_nul-Lacks (c ∷ s) (hc, hs) = ground (arith, before_nul-Lacks s hs)

abbrev pub IsEmpty : Chunk → Type 0
IsEmpty c = c.text ≡ []

pub plan-IsEmpty : (cur : ℕ) (u bs : Bytes) → length u ≤ 1023 → All IsEmpty (plan cur (0 ∷ u) bs)
unfolding plan before_nul full_chunk
plan-IsEmpty cur u [] h = (refl, tt)
plan-IsEmpty cur u (b ∷ bs) h = elim (ℕ_discrete (length (0 ∷ u)) 1024) [
  | yes e ↦ rw (plan_full cur (0 ∷ u) b bs e) (refl, plan-IsEmpty (cur + 1) [] bs (omega arith))
  | no e ↦
      rw (plan_more cur (0 ∷ u) b bs e)
        (plan-IsEmpty (cur + 1) (u ++ b ∷ []) bs (omega (arith, length-append u (b ∷ []))))
]

pub plan-tail :
    (cur : ℕ) (u bs : Bytes)
    → length u ≤ 1024
    → (c : Chunk) × (cs : List Chunk) × (plan cur u bs ≡ c ∷ cs) × All IsEmpty cs
unfolding plan
plan-tail cur u [] h =
    (record { text = take 1024 (before_nul u); size = length u; seqno = cur }, [], refl, tt)
plan-tail cur u (b ∷ bs) h = elim (ℕ_discrete (length u) 1024) [
  | yes e ↦ (
    full_chunk cur u b,
    plan (cur + 1) (0 ∷ []) bs,
    plan_full cur u b bs e,
    plan-IsEmpty (cur + 1) [] bs (omega arith),
  )
  | no e ↦
      let (c, cs, is, empty) =
        plan-tail (cur + 1) (u ++ b ∷ []) bs (omega (arith, length-append u (b ∷ []))) in
      (c, cs, plan_more cur u b bs e ∙ is, empty)
]

-- A buffer of 1024 bytes already has all that a packet takes.
take-before_nul_full :
    (n : ℕ) (u xs ys : Bytes)
    → length u ≡ n
    → take n (before_nul (u ++ xs)) ≡ take n (before_nul (u ++ ys))
unfolding before_nul
take-before_nul_full zero [] xs ys e = refl
take-before_nul_full zero (c ∷ u) xs ys e = absurd (omega arith)
take-before_nul_full (suc n) [] xs ys e = absurd (omega arith)
take-before_nul_full (suc n) (c ∷ u) xs ys e = elim (ℕ_discrete c 0) [
  | yes z ↦ rw ((==_iff c 0).1 z) refl
  | no ne ↦ rw (ne→== c 0 ne) (ap (λ t. c ∷ t) (take-before_nul_full n u xs ys (omega arith)))
]

-- The bytes before the file's first NUL, as far as they fit a packet, or nothing.
abbrev pub IsFirstOrEmpty : Bytes → Bytes → Type 0
IsFirstOrEmpty file text = (text ≡ take 1024 (before_nul file)) ⊎ (text ≡ [])

pub plan-IsFirstOrEmpty :
    (cur : ℕ) (u bs : Bytes)
    → length u ≤ 1024
    → All (λ c. IsFirstOrEmpty (u ++ bs) c.text) (plan cur u bs)
unfolding plan full_chunk
plan-IsFirstOrEmpty cur u [] h = (inl (ap (λ l. take 1024 (before_nul l)) (sym (append-nil u))), tt)
plan-IsFirstOrEmpty cur u (b ∷ bs) h = elim (ℕ_discrete (length u) 1024) [
  | yes e ↦ rw (plan_full cur u b bs e) (
    inl (take-before_nul_full 1024 u (b ∷ []) (b ∷ bs) e),
    All-weaken (λ c is. inr is) (plan (cur + 1) (0 ∷ []) bs)
        (plan-IsEmpty (cur + 1) [] bs (omega arith)),
  )
  | no e ↦ rw (plan_more cur u b bs e) (
      subst (λ l. All (λ c. IsFirstOrEmpty l c.text) (plan (cur + 1) (u ++ b ∷ []) bs))
        (append_assoc u (b ∷ []) bs)
        (plan-IsFirstOrEmpty (cur + 1) (u ++ b ∷ []) bs (omega (arith, length-append u (b ∷ [])))))
]
