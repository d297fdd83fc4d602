-- ===== src/Sender/Cutting.antt =====
-- packetize of src/rdps.c makes exactly the packets of its plan, over memory that malloc hands out
-- zeroed, and its array is large enough.
use csc361_a.Base.{
  ℕ, suc, ◌+◌, ◌-◌, ◌≤◌, ◌<◌, ◌≡◌, refl, ap, ◌∙◌, some, List, [], ◌∷◌, ◌++◌, arith, if◌then◌else◌,
  ltb, lt→ltb, length, set, take, length-append, append_assoc, ne→==, ok, crash, ◌>>=◌, >>=-after,
}
use native.Mathlib.Decide.{ℕ_discrete}
use csc361_a.Base.Int.{pos, ◌+ℤ◌, ◌-ℤ◌, eqb_ℤ_refl}
use csc361_a.Base.Text.{Bytes, c_string, zeros, zeros-suc, length-zeros}
use csc361_a.Packet.{Packet, Heap, dat, add_packet}
use csc361_a.Packet.Scan.{IsZeroed}
use csc361_a.Packet.Create.{Carries, header_of, create_dat-Carries}
use csc361_a.Sender.Packetize.{
  Filling, store_byte, new_pckt_data, emit, flush, take_byte, fill, packetize,
}
use csc361_a.Sender.Plan.{Chunk, ackno, before_nul, plan, plan_full, plan_more, full_chunk}

-- `p` is the data packet for the chunk.
abbrev pub IsPacketFor : Chunk → Packet → Type 0
IsPacketFor c p = Carries (header_of dat (pos c.seqno) (pos (ackno c))) (pos c.size) c.text p

abbrev pub ArePacketsFor : List Chunk → List Packet → Type 0
ArePacketsFor [] [] = Unit
ArePacketsFor (c ∷ cs) (p ∷ ps) = IsPacketFor c p × ArePacketsFor cs ps
ArePacketsFor _ _ = ⊥

-- The buffer that holds `u` at its start.
buffer : Bytes → Bytes
buffer u = u ++ zeros (8192 - length u)

c_string-buffer : (k : ℕ) (u : Bytes) → 0 < k → c_string (u ++ zeros k) ≡ some (before_nul u)
unfolding c_string before_nul
c_string-buffer k [] h = rw (zeros-suc k h) refl
c_string-buffer k (c ∷ u) h = ground (arith, c_string-buffer k u h)

length-before_nul : (u : Bytes) → length (before_nul u) ≤ length u
unfolding before_nul
length-before_nul [] = omega arith
length-before_nul (c ∷ u) = ground (arith, length-before_nul u)

set-append :
    (u : Bytes) (k b : ℕ) → 0 < k → set (u ++ zeros k) (length u) b ≡ (u ++ b ∷ []) ++ zeros (k - 1)
set-append [] k b h = rw (zeros-suc k h) refl
set-append (c ∷ u) k b h = ap (λ t. c ∷ t) (set-append u k b h)

store_byte-buffer :
    (u : Bytes) (b : ℕ)
    → length u < 8192
    → store_byte (buffer u) (length u) b ≡ ok (buffer (u ++ b ∷ []))
unfolding store_byte buffer
store_byte-buffer u b h =
    let n = length-append u (b ∷ []) in
    let room = length-append u (zeros (8192 - length u)) in
    let size = length-zeros (8192 - length u) in
    rw
      (
        lt→ltb (length u) (length (u ++ zeros (8192 - length u))) (omega arith),
        set-append u (8192 - length u) b (omega arith),
      )
      (ap (λ k. ok ((u ++ b ∷ []) ++ zeros k)) (omega arith))

same_plan :
    {cs cs' : List Chunk} (ps : List Packet) → cs' ≡ cs → ArePacketsFor cs ps → ArePacketsFor cs' ps
same_plan ps e h = rw e h

pos-+ℤ : (a b : ℕ) → pos a +ℤ pos b ≡ pos (a + b)
unfolding ◌+ℤ◌
pos-+ℤ a b = ground arith

module _ (heaps : ℕ → Heap) (size : ℕ) (z : (k : ℕ) → IsZeroed (heaps k)) where
  -- The packet that is made of a buffer.
  emit-buffer :
      (u : Bytes) (n : ℕ) (seqno : ℕ) (ps : List Packet)
      → 1 ≤ n
      → length u ≤ n + 1
      → n ≤ 1024
      → (length u ≡ n + 1 → n ≡ 1024)
      → length ps < size
      → (p : Packet) × (emit heaps size 1024
            (record { read = n; pckt_data = buffer u; packets = ps })
            (pos seqno)
          ≡ ok (ps ++ p ∷ []))
        × IsPacketFor (record { text = take 1024 (before_nul u); size = n; seqno = seqno }) p
  unfolding emit add_packet buffer
  emit-buffer u n seqno ps h1 h2 h3 h4 h5 =
      let short = length-before_nul u in
      let (p, made, c) =
        create_dat-Carries (heaps (length ps)) (buffer u) (before_nul u) n (pos seqno)
          (z (length ps)) (c_string-buffer (8192 - length u) u (omega arith)) (omega arith)
          (omega arith, λ big. ap pos (full_length short big)) in
      (
        p,
        rw (made, ap (λ hd. hd.type) c.header_is, eqb_ℤ_refl dat, lt→ltb (length ps) size h5) refl,
        rw (← pos-+ℤ seqno n) c,
      )
    where
      full_length : length (before_nul u) ≤ length u → 1024 ≤ length (before_nul u) → n ≡ 1024
      full_length short big = elim (ℕ_discrete (length u) (n + 1)) [
        | yes e ↦ h4 e
        | no e ↦ omega arith
      ]

  -- The variables of the loop when `u` is in the buffer.
  holding : Bytes → List Packet → Filling
  holding u ps = record { read = length u; pckt_data = buffer u; packets = ps }

  take_byte_more :
      (u : Bytes) (b cur : ℕ) (ps : List Packet)
      → length u < 1024
      → take_byte heaps size 1024 b (holding u ps) cur ≡ ok (holding (u ++ b ∷ []) ps)
  unfolding take_byte holding
  take_byte_more u b cur ps lt =
      rw (store_byte-buffer u b (omega arith), ne→== (length u) 1024 (omega arith))
        (ap (λ n. ok (record { read = n; pckt_data = buffer (u ++ b ∷ []); packets = ps }))
          (omega (arith, length-append u (b ∷ []))))

  fresh_buffer : (ps : List Packet) → new_pckt_data heaps size 1024 ps ≡ buffer (0 ∷ [])
  unfolding new_pckt_data buffer
  fresh_buffer ps = z (length ps) 5 8192 ∙ zeros-suc 8192 (omega arith)

  flush_seqno : (cur : ℕ) → 1024 ≤ cur → pos cur -ℤ pos 1024 +ℤ pos 1 ≡ pos (cur - 1024 + 1)
  unfolding ◌+ℤ◌ ◌-ℤ◌
  flush_seqno cur le = ground arith

  take_byte_full :
      (u : Bytes) (b cur : ℕ) (ps : List Packet)
      → length u ≡ 1024
      → 1024 ≤ cur
      → length ps < size
      → (p : Packet) × (take_byte heaps size 1024 b (holding u ps) cur
          ≡ ok (holding (0 ∷ []) (ps ++ p ∷ [])))
        × IsPacketFor (full_chunk cur u b) p
  unfolding take_byte flush holding full_chunk
  take_byte_full u b cur ps e le room =
      let (p, emitted, c) =
        emit-buffer (u ++ b ∷ []) 1024 (cur - 1024 + 1) ps (omega arith)
          (omega (arith, length-append u (b ∷ []))) (omega arith) (λ _. refl) room in
      (
        p,
        rw
            (
              store_byte-buffer u b (omega arith),
              e,
              flush_seqno cur le,
              emitted,
              fresh_buffer (ps ++ p ∷ []),
            )
            refl,
        c,
      )

  -- From any point of the loop on, the packets of the rest of the plan are added.
  fill-plan :
      (cur : ℕ) (u bs : Bytes) (ps : List Packet) (last : ℕ)
      → cur + length bs ≡ last
      → 1 ≤ length u + length bs
      → length u ≤ 1024
      → length u ≤ cur
      → length ps + length (plan cur u bs) ≤ size
      → (new : List Packet) × ((fill heaps size 1024 bs (holding u ps) cur >>= λ v.
            emit heaps size 1024 v (pos last))
          ≡ ok (ps ++ new))
        × ArePacketsFor (plan cur u bs) new
  unfolding fill plan holding
  fill-plan cur u [] ps last e h full le room =
      let (p, emitted, c) =
        emit-buffer u (length u) cur ps (omega arith) (omega arith) full (λ q. absurd (omega arith))
          (omega arith) in
      let same : last ≡ cur = omega arith in
      (p ∷ [], ap (λ n. emit heaps size 1024 (holding u ps) (pos n)) same ∙ emitted, (c, tt))
  fill-plan cur u (b ∷ bs) ps last e h full le room = elim (ℕ_discrete (length u) 1024) [
    | yes is_full ↦
        let room' : length ps + suc (length (plan (cur + 1) (0 ∷ []) bs)) ≤ size =
          rw (plan_full cur u b bs is_full) at room in
        let (p, taken, c) = take_byte_full u b cur ps is_full (omega arith) (omega arith) in
        let (new, filled, cs) =
          fill-plan (cur + 1) (0 ∷ []) bs (ps ++ p ∷ []) last (omega arith) (omega arith)
            (omega arith) (omega arith) (omega (arith, length-append ps (p ∷ []))) in
        (
          p ∷ new,
          ap
                (λ r. (r >>= λ v. fill heaps size 1024 bs v (cur + 1)) >>= λ v.
                  emit heaps size 1024 v (pos last))
                taken
              ∙ filled
              ∙ ap ok (append_assoc ps (p ∷ []) new),
          same_plan (p ∷ new) (plan_full cur u b bs is_full) (c, cs),
        )
    | no not_full ↦
        let grown = length-append u (b ∷ []) in
        let (new, filled, cs) =
          fill-plan (cur + 1) (u ++ b ∷ []) bs ps last (omega arith) (omega arith) (omega arith)
            (omega arith) (rw (plan_more cur u b bs not_full) at room) in
        (
          new,
          ap
                (λ r. (r >>= λ v. fill heaps size 1024 bs v (cur + 1)) >>= λ v.
                  emit heaps size 1024 v (pos last))
                (take_byte_more u b cur ps (omega arith))
              ∙ filled,
          same_plan new (plan_more cur u b bs not_full) cs,
        )
  ]

start :
    (heaps : ℕ → Heap) (size : ℕ)
    → ((k : ℕ) → IsZeroed (heaps k))
    → new_pckt_data heaps size 1024 [] ≡ buffer []
unfolding new_pckt_data buffer
start heaps size z = z 0 5 8192

pub length-ArePacketsFor :
    (cs : List Chunk) (ps : List Packet) → ArePacketsFor cs ps → length ps ≡ length cs
length-ArePacketsFor [] [] h = refl
length-ArePacketsFor [] (p ∷ ps) h = absurd h
length-ArePacketsFor (c ∷ cs) [] h = absurd h
length-ArePacketsFor (c ∷ cs) (p ∷ ps) h = ap suc (length-ArePacketsFor cs ps h.1)

-- Over zeroed memory a file that is not empty is cut into the packets of its plan, in an array of
-- as many entries as the plan has chunks and one more.
pub packetize-plan :
    (heaps : ℕ → Heap) (size : ℕ) (file : Bytes)
    → ((k : ℕ) → IsZeroed (heaps k))
    → 1 ≤ length file
    → length (plan 0 [] file) < size
    → (ps : List Packet) × (packetize heaps size 1024 file ≡ ok ps)
      × ArePacketsFor (plan 0 [] file) ps
unfolding packetize holding
packetize-plan heaps size file z h room =
    let (ps, filled, are) =
      fill-plan heaps size z 0 [] file [] (length file) (omega arith) (omega arith) (omega arith)
        (omega arith) (omega arith) in
    (
      ps,
      rw (start heaps size z) (
          >>=-after (fill heaps size 1024 file (holding heaps size z [] []) 0)
            (λ v. emit heaps size 1024 v (pos (length file)))
            (λ packets. if ltb (length packets) size then ok packets else crash) filled
          ∙ rw
              (lt→ltb (length ps) size
                (omega (arith, length-ArePacketsFor (plan 0 [] file) ps are)))
              refl),
      are,
    )
