-- ===== src/Packet/Payload.antt =====
-- The payload of a packet as a C string, through the overlap of the array with payload_length.
use native.Mathlib.Decide.{dec_lt}
use csc361_a.Base.{append_assoc}
use csc361_a.Base.{
  ℕ, suc, ◌≤◌, ◌≡◌, refl, ap, some, [], ◌∷◌, ◌++◌, arith, length, take, drop, ok, or_crash,
}
use csc361_a.Base.Int.{ℤ, pos}
use csc361_a.Base.Text.{
  Bytes, Lacks, c_string, put, strcpy-put, c_string-append, take-put_long, take-put_short, take-all,
  Lacks-take,
}
use csc361_a.Packet.{Packet, PacketHdr, le_bytes, store_payload, payload_string}

-- A string that the struct holds: it ends within the array, or it runs into a payload_length of
-- 1024, whose lowest byte is zero.
abbrev pub FitsStruct : Bytes → ℤ → Type 0
FitsStruct s n = (length s ≤ 1027) × (1024 ≤ length s → n ≡ pos 1024)

stored : PacketHdr → Bytes → Bytes → ℤ → Packet
stored hd mem s n = record { header = hd; payload = take 1024 (put mem s); payload_length = n }

c_string-stored :
    (k : ℕ) (mem s : Bytes) (n : ℤ)
    → Lacks 0 s
    → (k ≤ length s → n ≡ pos 1024)
    → c_string (take k (put mem s) ++ le_bytes n) ≡ some (take k s)
c_string-stored k mem s n hs full = elim (dec_lt (length s) k) [
  | yes short ↦
      let (r, e) = take-put_short k s (drop (suc (length s)) mem) short in
      rw (e, take-all k s (omega arith), append_assoc) (c_string-append s (r ++ le_bytes n) hs)
  | no long ↦
      rw (take-put_long k s (0 ∷ drop (suc (length s)) mem) (omega arith), full (omega arith))
        (c_string-append (take k s) (4 ∷ 0 ∷ 0 ∷ []) (Lacks-take 0 k s hs))
]

-- A copy into a struct packet is read back cut to 1024 bytes.
pub payload_string-store_payload :
    (hd : PacketHdr) (mem s : Bytes) (n : ℤ)
    → length mem ≡ 1028
    → Lacks 0 s
    → FitsStruct s n
    → (q : Packet) × (store_payload hd mem s n ≡ ok q)
      × (q.header ≡ hd)
      × (q.payload_length ≡ n)
      × (payload_string q ≡ ok (take 1024 s))
unfolding store_payload payload_string stored
payload_string-store_payload hd mem s n size hs (fits, full) = (
  stored hd mem s n,
  rw (strcpy-put mem s (omega arith)) refl,
  refl,
  refl,
  ap or_crash (c_string-stored 1024 mem s n hs full),
)
