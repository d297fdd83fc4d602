-- ===== src/Sender/Plan.antt =====
-- What packetize of src/rdps.c cuts a file into, byte by byte and without the memory it works in.
use native.Mathlib.Decide.{ℕ_discrete}
use csc361_a.Base.{
  ℕ, ◌+◌, ◌-◌, ◌/◌, ◌≤◌, ◌<◌, ◌≡◌, refl, ◌≢◌, ne→==, true, false, List, [], ◌∷◌, ◌++◌, arith, ◌==◌,
  if◌then◌else◌, length, take, length-append, ==_iff,
}
use csc361_a.Base.Text.{Bytes}

-- The payload string, the payload length, and the sequence number of a data packet.
pub record Chunk : Type 0 where
  pub text : Bytes
  pub size : ℕ
  pub seqno : ℕ

abbrev pub ackno : Chunk → ℕ
ackno c = c.seqno + c.size

-- The bytes before the first NUL.
unfoldable pub before_nul : Bytes → Bytes
before_nul [] = []
before_nul (c ∷ s) = let rest = before_nul s in if c == 0 then [] else c ∷ rest

-- `u` is what pckt_data holds and `cur` the index of the next byte. A full buffer takes one byte
-- more, which is cut off; the buffer after it begins with a byte that is not from the file.
unfoldable pub plan : ℕ → Bytes → Bytes → List Chunk
unfolding before_nul
plan cur u [] = record { text = take 1024 (before_nul u); size = length u; seqno = cur } ∷ []
plan cur u (b ∷ bs) = elim (length u == 1024) [
  | true ↦
      record { text = take 1024 (before_nul (u ++ b ∷ [])); size = 1024; seqno = cur - 1024 + 1 }
      ∷ plan (cur + 1) (0 ∷ []) bs
  | false ↦ plan (cur + 1) (u ++ b ∷ []) bs
]

-- The acknowledgement numbers go up from more than `k`.
abbrev pub Ascending : ℕ → List Chunk → Type 0
Ascending k [] = Unit
Ascending k (c ∷ cs) = (k < ackno c) × Ascending (ackno c) cs

Ascending-weaken : (j k : ℕ) (cs : List Chunk) → j ≤ k → Ascending k cs → Ascending j cs
Ascending-weaken j k [] le h = tt
Ascending-weaken j k (c ∷ cs) le (h, hs) = (omega arith, hs)

unfoldable pub full_chunk : ℕ → Bytes → ℕ → Chunk
full_chunk cur u b = record {
  text = take 1024 (before_nul (u ++ b ∷ []));
  size = 1024;
  seqno = cur - 1024 + 1;
}

pub plan_full :
    (cur : ℕ) (u : Bytes) (b : ℕ) (bs : Bytes)
    → length u ≡ 1024
    → plan cur u (b ∷ bs) ≡ full_chunk cur u b ∷ plan (cur + 1) (0 ∷ []) bs
unfolding plan full_chunk
plan_full cur u b bs e = rw (plan, (==_iff (length u) 1024).1 e) refl

pub plan_more :
    (cur : ℕ) (u : Bytes) (b : ℕ) (bs : Bytes)
    → length u ≢ 1024
    → plan cur u (b ∷ bs) ≡ plan (cur + 1) (u ++ b ∷ []) bs
unfolding plan
plan_more cur u b bs e = rw (plan, ne→== (length u) 1024 e) refl

-- The part of a plan that is still to come acknowledges more than all bytes before it.
pub plan-Ascending :
    (cur : ℕ) (u bs : Bytes)
    → 1 ≤ length u
    → length u ≤ 1024
    → length u ≤ cur
    → Ascending cur (plan cur u bs)
unfolding plan full_chunk
plan-Ascending cur u [] h full le = (omega arith, tt)
plan-Ascending cur u (b ∷ bs) h full le = elim (ℕ_discrete (length u) 1024) [
  | yes e ↦
      let a : cur - 1024 + 1 + 1024 ≡ cur + 1 = omega arith in
      rw (plan_full cur u b bs e) (
        rw a (
          omega arith,
          plan-Ascending (cur + 1) (0 ∷ []) bs (omega arith) (omega arith) (omega arith),
        ))
  | no e ↦
      let n = length-append u (b ∷ []) in
      rw (plan_more cur u b bs e) (
        Ascending-weaken cur (cur + 1) (plan (cur + 1) (u ++ b ∷ []) bs) (omega arith)
          (plan-Ascending (cur + 1) (u ++ b ∷ []) bs (omega arith) (omega arith) (omega arith)))
]

-- A plan has a chunk for each 1024 bytes that were begun.
pub length-plan :
    (cur : ℕ) (u bs : Bytes)
    → 1 ≤ length u + length bs
    → length u ≤ 1024
    → length (plan cur u bs) ≡ (length u + length bs + 1023) / 1024
unfolding plan
length-plan cur u [] h full = omega arith
length-plan cur u (b ∷ bs) h full = ground (
  arith,
  length-plan (cur + 1) (0 ∷ []) bs,
  length-plan (cur + 1) (u ++ b ∷ []) bs,
  length-append u (b ∷ []),
)
