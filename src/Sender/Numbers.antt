-- ===== src/Sender/Numbers.antt =====
-- The packets that main of src/rdps.c gets from packetize: how many, with which numbers, and what
-- is in them.
use csc361_a.Base.{
  All, ℕ, ◌+◌, ◌-◌, ◌/◌, ◌≤◌, ◌<◌, ◌^◌, ◌≡◌, ◌≢◌, refl, ap, sym, ◌∙◌, List, [], ◌∷◌, arith, length,
  take, ok,
}
use csc361_a.Base.Int.{ℤ, pos}
use csc361_a.Base.Text.{Bytes, Lacks, take-all}
use csc361_a.Packet.{Packet, Heap, payload_string}
use csc361_a.Packet.{dat}
use csc361_a.Packet.Create.{Carries, header_of}
use csc361_a.Packet.Scan.{IsZeroed}
use csc361_a.Sender.Packetize.{packetize, num_packets}
use csc361_a.Sender.Plan.{Chunk, ackno, plan, plan_more, length-plan, Ascending, plan-Ascending}
use csc361_a.Sender.Cutting.{ArePacketsFor, packetize-plan, length-ArePacketsFor}
use csc361_a.Sender.Shape.{whole, plan_one, before_nul-Lacks, IsEmpty, plan-tail}

-- No two packets have one acknowledgement number, and none has the number `k`.
abbrev pub DistinctAcks : ℤ → List Packet → Type 0
DistinctAcks k [] = Unit
DistinctAcks k (p ∷ ps) = (p.ackno ≢ k) × All (λ q. q.ackno ≢ p.ackno) ps × DistinctAcks k ps

pos_inj : (a b : ℕ) → pos a ≡ pos b → a ≡ b
pos_inj a b h = ground arith

Ascending-ne :
    (k j : ℕ) (cs : List Chunk) (ps : List Packet)
    → k ≤ j
    → Ascending j cs
    → ArePacketsFor cs ps
    → All (λ q. q.ackno ≢ pos k) ps
Ascending-ne k j [] [] le asc are = tt
Ascending-ne k j [] (p ∷ ps) le asc are = absurd are
Ascending-ne k j (c ∷ cs) [] le asc are = absurd are
Ascending-ne k j (c ∷ cs) (p ∷ ps) le (lt, asc) (here, are) = (
  (λ e. absurd (omega (arith, pos_inj (ackno c) k (sym (ap (λ hd. hd.ackno) here.header_is) ∙ e)))),
  Ascending-ne k (ackno c) cs ps (omega arith) asc are,
)

Ascending-DistinctAcks :
    (k j : ℕ) (cs : List Chunk) (ps : List Packet)
    → k ≤ j
    → Ascending j cs
    → ArePacketsFor cs ps
    → DistinctAcks (pos k) ps
Ascending-DistinctAcks k j [] [] le asc are = tt
Ascending-DistinctAcks k j [] (p ∷ ps) le asc are = absurd are
Ascending-DistinctAcks k j (c ∷ cs) [] le asc are = absurd are
Ascending-DistinctAcks k j (c ∷ cs) (p ∷ ps) le (lt, asc) (here, are) = (
  (Ascending-ne k j (c ∷ cs) (p ∷ ps) le (lt, asc) (here, are)).0,
  rw (ap (λ hd. hd.ackno) here.header_is)
      (Ascending-ne (ackno c) (ackno c) cs ps (omega arith) asc are),
  Ascending-DistinctAcks k (ackno c) cs ps (omega arith) asc are,
)

-- The plan of a whole file, after its first byte.
plan_start : (file : Bytes) → 1 ≤ length file → (b : ℕ) × (bs : Bytes) × (file ≡ b ∷ bs)
plan_start [] h = elim h [ ]
plan_start (b ∷ bs) h = (b, bs, refl)

plan-Ascending_start : (file : Bytes) → 1 ≤ length file → Ascending 1 (plan 0 [] file)
plan-Ascending_start [] h = elim h [ ]
plan-Ascending_start (b ∷ bs) h =
    rw (plan_more 0 [] b bs (omega arith))
      (plan-Ascending 1 (b ∷ []) bs (omega arith) (omega arith) (omega arith))

pub packetize-ArePacketsFor :
    (heaps : ℕ → Heap) (file : Bytes)
    → ((k : ℕ) → IsZeroed (heaps k))
    → 1 ≤ length file
    → (ps : List Packet) × (packetize heaps (num_packets (length file) 1024 + 1) 1024 file ≡ ok ps)
      × ArePacketsFor (plan 0 [] file) ps
      × (length ps ≡ num_packets (length file) 1024)
      × DistinctAcks (pos 1) ps
unfolding num_packets
packetize-ArePacketsFor heaps file z h =
    let count = length-plan 0 [] file (omega arith) (omega arith) in
    let (ps, made, are) =
      packetize-plan heaps ((length file + 1024 - 1) / 1024 + 1) file z h (omega arith) in
    (
      ps,
      made,
      are,
      omega (arith, length-ArePacketsFor (plan 0 [] file) ps are),
      Ascending-DistinctAcks 1 1 (plan 0 [] file) ps (omega arith) (plan-Ascending_start file h)
          are,
    )

-- Over zeroed memory and in main's array of num_packets + 1 entries, a file of 1 to 2^24 - 1 bytes
-- is cut into num_packets packets, the packets of its plan, whose acknowledgement numbers differ
-- from each other and from the SYN's, which is 1.
pub packetize_numbers :
    (heaps : ℕ → Heap) (file : Bytes)
    → ((k : ℕ) → IsZeroed (heaps k))
    → 1 ≤ length file
    → length file < 2 ^ 24
    → (ps : List Packet) × (packetize heaps (num_packets (length file) 1024 + 1) 1024 file ≡ ok ps)
      × ArePacketsFor (plan 0 [] file) ps
      × (length ps ≡ num_packets (length file) 1024)
      × DistinctAcks (pos 1) ps
packetize_numbers heaps file z h _ = packetize-ArePacketsFor heaps file z h

-- The one packet of a small file.
pub packetize_one :
    (heaps : ℕ → Heap) (file : Bytes)
    → ((k : ℕ) → IsZeroed (heaps k))
    → 1 ≤ length file
    → length file ≤ 1024
    → Lacks 0 file
    → (p : Packet) × (packetize heaps (num_packets (length file) 1024 + 1) 1024 file ≡ ok (p ∷ []))
      × Carries
          (header_of dat (pos (length file)) (pos (length file + length file)))
          (pos (length file))
          file
          p
unfolding whole
packetize_one heaps file z h small clean =
    let (ps, made, are, _, _) = packetize-ArePacketsFor heaps file z h in
    let one : plan 0 [] file ≡ whole file (0 + length file) (0 + length file) =
      plan_one 0 [] file (omega arith) in
    only ps made (rw one at are)
  where
    same : 0 + length file ≡ length file
    same = omega arith

    only :
        (ps : List Packet)
        → packetize heaps (num_packets (length file) 1024 + 1) 1024 file ≡ ok ps
        → ArePacketsFor (whole file (0 + length file) (0 + length file)) ps
        → (p : Packet) × (packetize heaps (num_packets (length file) 1024 + 1) 1024 file
            ≡ ok (p ∷ []))
          × Carries
              (header_of dat (pos (length file)) (pos (length file + length file)))
              (pos (length file))
              file
              p
    only [] made are = absurd are
    only (p ∷ []) made (c, _) = (
      p,
      made,
      record {
        header_is = c.header_is ∙ ap (λ n. header_of dat (pos n) (pos (n + n))) same;
        length_is = c.length_is ∙ ap pos same;
        payload_is =
            c.payload_is
            ∙ ap ok (ap (take 1024) (before_nul-Lacks file clean) ∙ take-all 1024 file small);
      },
    )
    only (p ∷ q ∷ ps) made (_, are) = absurd are

-- Over zeroed memory a file of 1 to 1024 bytes, none of them NUL, becomes one packet that carries
-- exactly the file. Its sequence number is the file's length, not the offset of its first byte.
pub packetize_small :
    (heaps : ℕ → Heap) (file : Bytes)
    → ((k : ℕ) → IsZeroed (heaps k))
    → 1 ≤ length file
    → length file ≤ 1024
    → Lacks 0 file
    → (p : Packet) × (packetize heaps (num_packets (length file) 1024 + 1) 1024 file ≡ ok (p ∷ []))
      × (payload_string p ≡ ok file)
      × (p.payload_length ≡ pos (length file))
      × (p.seqno ≡ pos (length file))
packetize_small heaps file z h small clean =
    let (p, made, c) = packetize_one heaps file z h small clean in
    (p, made, c.payload_is, c.length_is, ap (λ hd. hd.seqno) c.header_is)

-- Over zeroed memory a file of 1 to 2^24 - 1 bytes is cut into num_packets packets, and all of them
-- but the first carry an empty payload string: the byte that ends a full buffer is cut off, and the
-- next buffer's first byte is never set.
pub packetize_rest_empty :
    (heaps : ℕ → Heap) (file : Bytes)
    → ((k : ℕ) → IsZeroed (heaps k))
    → 1 ≤ length file
    → length file < 2 ^ 24
    → (p : Packet) × (ps : List Packet) × (packetize heaps
          (num_packets (length file) 1024 + 1)
          1024
          file
        ≡ ok (p ∷ ps))
      × (length (p ∷ ps) ≡ num_packets (length file) 1024)
      × All (λ q. payload_string q ≡ ok []) ps
packetize_rest_empty heaps file z h _ =
    let (ps, made, are, count, _) = packetize-ArePacketsFor heaps file z h in
    let (c, cs, is, empty) = plan-tail 0 [] file (omega arith) in
    split ps c cs empty made count (rw is at are)
  where
    empties :
        (cs : List Chunk) (ps : List Packet)
        → All IsEmpty cs
        → ArePacketsFor cs ps
        → All (λ q. payload_string q ≡ ok []) ps
    empties [] [] e are = tt
    empties [] (q ∷ qs) e are = absurd are
    empties (c ∷ cs) [] e are = absurd are
    empties (c ∷ cs) (q ∷ qs) (e, es) (here, are) =
        (here.payload_is ∙ ap ok e, empties cs qs es are)

    split :
        (ps : List Packet) (c : Chunk) (cs : List Chunk)
        → All IsEmpty cs
        → packetize heaps (num_packets (length file) 1024 + 1) 1024 file ≡ ok ps
        → length ps ≡ num_packets (length file) 1024
        → ArePacketsFor (c ∷ cs) ps
        → (p : Packet) × (ps : List Packet) × (packetize heaps
              (num_packets (length file) 1024 + 1)
              1024
              file
            ≡ ok (p ∷ ps))
          × (length (p ∷ ps) ≡ num_packets (length file) 1024)
          × All (λ q. payload_string q ≡ ok []) ps
    split [] c cs empty made count are = absurd are
    split (p ∷ ps) c cs empty made count (here, are) = (p, ps, made, count, empties cs ps empty are)
