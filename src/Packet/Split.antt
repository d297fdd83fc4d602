-- ===== src/Packet/Split.antt =====
-- The text form of a packet of src/packet.c as it is meant: the string is split at its first seven
-- semicolons, without blocks or counters. Only the sizes of the blocks and arrays that
-- deconstruct_string copies to are left, as bounds on the lengths.
pub mod Cut
use mathlib.Core.Option
use csc361_a.Base.{
  ℕ, zero, suc, Bool, true, ◌&&◌, Option, none, some, List, [], ◌∷◌, ◌==◌, ltb, leb, if◌then◌else◌,
  length, Result, ok, crash, or_crash, ◌>>=◌,
}
use csc361_a.Base.Text.{Bytes}
use csc361_a.Base.Decimal.{atoi}
use csc361_a.Packet.{Packet, Heap, sep, store_payload, fresh_payload}

-- The text before the first semicolon, and what stands behind it.
unfoldable pub cut : Bytes → Option (Bytes × Bytes)
cut [] = none
cut (c ∷ s) = if c == sep then some ([], s) else Option.map (λ (a, r). (c ∷ a, r)) (cut s)

-- At most the first `k` fields that a semicolon ends.
unfoldable pub fields : ℕ → Bytes → List Bytes
fields zero s = []
fields (suc k) s = elim (cut s) [ none ↦ [] | some (a, r) ↦ a ∷ fields k r ]

-- The text up to a semicolon or the end.
unfoldable pub upto_sep : Bytes → Bytes
upto_sep [] = []
upto_sep (c ∷ s) = if c == sep then [] else c ∷ upto_sep s

-- The text behind these fields, up to a semicolon or the end.
unfoldable pub behind : ℕ → Bytes → Bytes
unfolding upto_sep
behind zero s = upto_sep s
behind (suc k) s = elim (cut s) [ none ↦ s | some (_, r) ↦ behind k r ]

-- The bytes that field `n` has in memory.
unfoldable pub capacity : ℕ → ℕ
capacity zero = 88
capacity n = if n == 5 then 8192 else 32

-- Each field leaves room for its NUL.
unfoldable pub all_fit : ℕ → List Bytes → Bool
all_fit n [] = true
all_fit n (a ∷ fs) = ltb (length a) (capacity n) && all_fit (suc n) fs

-- The field with this number, or the empty string.
unfoldable pub nth_field : ℕ → List Bytes → Bytes
nth_field n [] = []
nth_field zero (a ∷ fs) = a
nth_field (suc n) (a ∷ fs) = nth_field n fs

abbrev pub guarded {ℓ} : {A : Type ℓ} → Bool → A → Result A
guarded b a = if b then ok a else crash

-- A packet has room for 10 bytes of magic and a NUL.
unfoldable pub make_packet : Heap → List Bytes → Result Packet
unfolding nth_field
make_packet h fs = do
  magic ← guarded (ltb (length (nth_field 0 fs)) 11) (nth_field 0 fs)
  type ← or_crash (atoi (nth_field 1 fs))
  seqno ← or_crash (atoi (nth_field 2 fs))
  ackno ← or_crash (atoi (nth_field 3 fs))
  winsize ← or_crash (atoi (nth_field 4 fs))
  n ← or_crash (atoi (nth_field 6 fs))
  store_payload
      (record { magic = magic; type = type; seqno = seqno; ackno = ackno; winsize = winsize })
      (fresh_payload h 0) (nth_field 5 fs) n

-- The packet that a text stands for; undefined where a field is too long.
unfoldable pub parse : Heap → Bytes → Result Packet
unfolding fields behind all_fit make_packet
parse h s = do
  fs ← guarded (all_fit 0 (fields 7 s) && leb (length (behind 7 s)) 8192) (fields 7 s)
  make_packet h fs
