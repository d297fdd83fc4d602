-- ===== src/Sender/Sendable.antt =====
-- Which packets of src/rdps.c arrive as they were sent: those of packetize, the SYN and the FIN.
use native.Mathlib.Decide.{ℕ_discrete}
use csc361_a.Base.{
  All, Every, ℕ, zero, suc, ◌+◌, ◌^◌, ◌≤◌, ◌<◌, ◌≡◌, ◌≢◌, refl, sym, ap, ◌∙◌, subst, inl, inr, some,
  List, [], ◌∷◌, ◌++◌, arith, length, take, length-append, ok, ok_inj, true,
}
use csc361_a.Base.Int.{ℤ, pos, ◌+ℤ◌, ◌≤ℤ◌}
use csc361_a.Base.Text.{Bytes, Lacks, Lacks-append, Lacks-take}
use csc361_a.Base.Decimal.{IsInt}
use csc361_a.Packet.{Packet, PacketHdr, Heap, dat, sep, magic_hdr, is_control}
use csc361_a.Packet.Scan.{IsZeroed}
use csc361_a.Packet.Fields.{IsHeader}
use csc361_a.Packet.Create.{Carries, header_of, create_control-cases}
use csc361_a.Packet.RoundTrip.{IsSendable}
use csc361_a.Socket.{Env}
use csc361_a.Sender.Packetize.{packetize, num_packets}
use csc361_a.Sender.Plan.{Chunk, ackno, before_nul, plan, plan_full, plan_more, full_chunk}
use csc361_a.Sender.Cutting.{IsPacketFor, ArePacketsFor}
use csc361_a.Sender.Numbers.{packetize-ArePacketsFor}
use csc361_a.Sender.Invariant.{IsMade}

-- A chunk whose text has no separator and whose numbers stay below `limit`.
record IsPlain (limit : ℕ) (c : Chunk) : Type 0 where
  plain : Lacks sep c.text
  short : length c.text ≤ 1024
  full : 1024 ≤ length c.text → c.size ≡ 1024
  size_le : c.size ≤ 1024
  ackno_le : ackno c ≤ limit

Lacks-before_nul : (b : ℕ) (s : Bytes) → Lacks b s → Lacks b (before_nul s)
unfolding before_nul
Lacks-before_nul b [] h = tt
Lacks-before_nul b (c ∷ s) (hc, hs) = ground (arith, Lacks-before_nul b s hs)

length-before_nul : (s : Bytes) → length (before_nul s) ≤ length s
unfolding before_nul
length-before_nul [] = omega arith
length-before_nul (c ∷ s) = ground (arith, length-before_nul s)

length-take_le : (n : ℕ) (s : Bytes) → (length (take n s) ≤ n) × (length (take n s) ≤ length s)
length-take_le zero s = (omega arith, omega arith)
length-take_le (suc n) [] = (omega arith, omega arith)
length-take_le (suc n) (c ∷ s) = let (a, b) = length-take_le n s in (omega arith, omega arith)

plan-AllPlain :
    (limit cur : ℕ) (u bs : Bytes)
    → length u ≤ 1024
    → Lacks sep u
    → Lacks sep bs
    → cur + length bs + 1025 ≤ limit
    → All (IsPlain limit) (plan cur u bs)
unfolding plan full_chunk
plan-AllPlain limit cur u [] fits hu hb le =
    let (a, b) = length-take_le 1024 (before_nul u) in
    let c = length-before_nul u in
    (
      record {
        plain = Lacks-take sep 1024 (before_nul u) (Lacks-before_nul sep u hu);
        short = a;
        full = λ h. omega arith;
        size_le = fits;
        ackno_le = omega arith;
      },
      tt,
    )
plan-AllPlain limit cur u (b ∷ bs) fits hu (hb, hbs) le = elim (ℕ_discrete (length u) 1024) [
  | yes e ↦ rw (plan_full cur u b bs e) (
    record {
      plain =
          Lacks-take sep 1024 (before_nul (u ++ b ∷ []))
            (Lacks-before_nul sep (u ++ b ∷ []) (Lacks-append sep u (b ∷ []) hu (hb, tt)));
      short = (length-take_le 1024 (before_nul (u ++ b ∷ []))).0;
      full = λ h. refl;
      size_le = omega arith;
      ackno_le = omega arith;
    },
    plan-AllPlain limit (cur + 1) (0 ∷ []) bs (omega arith) (omega arith, tt) hbs (omega arith),
  )
  | no e ↦ rw (plan_more cur u b bs e) (
      plan-AllPlain limit (cur + 1) (u ++ b ∷ []) bs (omega (arith, length-append u (b ∷ [])))
        (Lacks-append sep u (b ∷ []) hu (hb, tt)) hbs (omega arith))
]

-- A header of this program with ints for numbers.
pub header_of-IsHeader :
    (type seqno ackno : ℤ)
    → IsInt type
    → IsInt seqno
    → IsInt ackno
    → IsHeader (header_of type seqno ackno)
header_of-IsHeader type seqno ackno ht hs ha = record {
  magic_text = ground arith;
  magic_string = ground arith;
  magic_short = omega arith;
  type_int = ht;
  seqno_int = hs;
  ackno_int = ha;
  winsize_int = omega arith;
}

pub Carries-IsSendable :
    (hd : PacketHdr) (n : ℤ) (p : Packet) (s : Bytes)
    → Carries hd n s p
    → IsHeader hd
    → IsInt n
    → Lacks sep s
    → length s ≤ 1024
    → (1024 ≤ length s → n ≡ pos 1024)
    → IsSendable p s
Carries-IsSendable hd n p s c header_ok n_int text fits full = record {
  header_ok = subst IsHeader (sym c.header_is) header_ok;
  payload_is = c.payload_is;
  payload_text = text;
  payload_fits = fits;
  full_payload = λ h. c.length_is ∙ full h;
  length_int = subst IsInt (sym c.length_is) n_int;
}

-- A packet that arrives as it was sent: sendable, with this type and the magic header.
pub record IsShippable (type : ℤ) (p : Packet) : Type 0 where
  pub text : Bytes
  pub sendable : IsSendable p text
  pub magic_lem : p.magic ≡ magic_hdr
  pub type_lem : p.type ≡ type
  pub nonnegative : pos 0 ≤ℤ p.payload_length
  pub length_le : p.payload_length ≤ℤ pos 1024

IsPacketFor-IsShippable :
    (limit : ℕ) (c : Chunk) (p : Packet)
    → limit < 2 ^ 31
    → IsPlain limit c
    → IsPacketFor c p
    → IsShippable dat p
IsPacketFor-IsShippable limit c p small i is =
    let size_le = i.size_le in
    let ackno_le = i.ackno_le in
    let number = is.length_is in
    record {
      text = c.text;
      sendable =
          Carries-IsSendable (header_of dat (pos c.seqno) (pos (ackno c))) (pos c.size) p c.text is
            (header_of-IsHeader dat (pos c.seqno) (pos (ackno c)) (omega arith) (omega arith)
              (omega arith))
            (omega arith) i.plain i.short (λ h. ap pos (i.full h));
      magic_lem = ap (λ hd. hd.magic) is.header_is;
      type_lem = ap (λ hd. hd.type) is.header_is;
      nonnegative = rw number (omega arith);
      length_le = rw number (omega arith);
    }

ArePacketsFor-Every :
    (limit : ℕ) (cs : List Chunk) (ps : List Packet)
    → limit < 2 ^ 31
    → All (IsPlain limit) cs
    → ArePacketsFor cs ps
    → Every (IsShippable dat) ps
ArePacketsFor-Every limit [] [] small i are q m = absurd m
ArePacketsFor-Every limit [] (p ∷ ps) small i are q m = absurd are
ArePacketsFor-Every limit (c ∷ cs) [] small i are q m = absurd are
ArePacketsFor-Every limit (c ∷ cs) (p ∷ ps) small (i, is) (a, are) q (inl e) =
    subst (IsShippable dat) (sym e) (IsPacketFor-IsShippable limit c p small i a)
ArePacketsFor-Every limit (c ∷ cs) (p ∷ ps) small (i, is) (a, are) q (inr m) =
    ArePacketsFor-Every limit cs ps small is are q m

-- Over zeroed memory a file that is not empty, below 2^31 - 1025 bytes, and without a semicolon is
-- cut into packets of its plan that all arrive as they were sent.
pub packetize-IsShippable :
    (heaps : ℕ → Heap) (file : Bytes)
    → ((k : ℕ) → IsZeroed (heaps k))
    → 1 ≤ length file
    → length file + 1025 < 2 ^ 31
    → Lacks sep file
    → (ps : List Packet) × (packetize heaps (num_packets (length file) 1024 + 1) 1024 file ≡ ok ps)
      × ArePacketsFor (plan 0 [] file) ps
      × Every (IsShippable dat) ps
packetize-IsShippable heaps file z h small plain =
    let (ps, made, are, _, _) = packetize-ArePacketsFor heaps file z h in
    (
      ps,
      made,
      are,
      ArePacketsFor-Every (length file + 1025) (plan 0 [] file) ps small
          (plan-AllPlain (length file + 1025) 0 [] file (omega arith) tt plain (omega arith)) are,
    )

-- Memory in which the SYN and the FIN packet can be sent: zeroed, and with a short string without
-- separator at the unset pointer.
pub record IsTidy (env : Env) (stray : Bytes) : Type 0 where
  pub zeroed : (k : ℕ) → IsZeroed (env.heap k)
  pub stray_is : (k : ℕ) → (env.heap k).stray ≡ some stray
  pub stray_string : Lacks 0 stray
  pub stray_plain : Lacks sep stray
  pub stray_short : length stray < 1024

pub IsMade-IsShippable :
    (env : Env) (stray : Bytes) (type seqno : ℤ) (p : Packet)
    → IsTidy env stray
    → type ≢ dat
    → is_control type ≡ true
    → IsInt type
    → IsInt seqno
    → IsInt (seqno +ℤ pos 1)
    → IsMade env type seqno p
    → IsShippable type p
IsMade-IsShippable env stray type seqno p t ne control ht hs ha m =
    elim (create_control-cases (env.heap m.call) [] stray 0 type seqno (t.zeroed m.call)
      (t.stray_is m.call) t.stray_string t.stray_short ne) [
        | inl (_, q, made, c) ↦ subst (IsShippable type) (ok_inj (sym made ∙ m.made)) (
            let number = c.length_is in
            record {
              text = stray;
              sendable =
                  Carries-IsSendable (header_of type seqno (seqno +ℤ pos 1)) (pos 0) q stray c
                    (header_of-IsHeader type seqno (seqno +ℤ pos 1) ht hs ha) (omega arith)
                    t.stray_plain (let short = t.stray_short in omega arith)
                    (λ h. let short = t.stray_short in absurd (omega arith));
              magic_lem = ap (λ hd. hd.magic) c.header_is;
              type_lem = ap (λ hd. hd.type) c.header_is;
              nonnegative = rw number (omega arith);
              length_le = rw number (omega arith);
            })
        | inr (unknown, _) ↦ absurd (cc)
      ]
