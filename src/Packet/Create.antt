-- ===== src/Packet/Create.antt =====
-- create_packet of src/packet.c on each of its branches, over memory that malloc hands out zeroed.
use csc361_a.Base.{
  ℕ, ◌*◌, ◌<◌, ◌≡◌, ◌≢◌, refl, ap, ◌∙◌, some, arith, length, take, length-drop, ok, exit, or_crash,
  ◌>>=◌, true, false, ◌⊎◌, inl, inr, Bool-cases,
}
use csc361_a.Base.Int.{ℤ, pos, ◌+ℤ◌, ne→eqb_ℤ, eqb_ℤ_refl}
use csc361_a.Base.Decimal.{IsInt}
use csc361_a.Base.Text.{Bytes, Lacks, c_string, strcpy-put, c_string-Lacks, take-all, length-zeros}
use csc361_a.Packet.{
  Packet, PacketHdr, Heap, magic_hdr, window_size, dat, is_control, finish_packet, create_packet,
  payload_string, fresh_payload,
}
use csc361_a.Packet.Payload.{FitsStruct, payload_string-store_payload}
use csc361_a.Packet.Scan.{IsZeroed}

-- The header that create_packet writes.
abbrev pub header_of : ℤ → ℤ → ℤ → PacketHdr
header_of type seqno ackno = record {
  magic = magic_hdr;
  type = type;
  seqno = seqno;
  ackno = ackno;
  winsize = pos window_size;
}

-- `p` has this header and length, and its payload reads as `s`.
pub record Carries (hd : PacketHdr) (n : ℤ) (s : Bytes) (p : Packet) : Type 0 where
  pub header_is : p.header ≡ hd
  pub length_is : p.payload_length ≡ n
  pub payload_is : payload_string p ≡ ok s

pub length-fresh_payload : (h : Heap) (i : ℕ) → IsZeroed h → length (fresh_payload h i) ≡ 1028
length-fresh_payload h i z = rw (length-drop 28 (h.block i 1056), z i 1056, length-zeros 1056) refl

finish_packet-Carries :
    (h : Heap) (s : Bytes) (n : ℕ) (type seqno ackno : ℤ)
    → IsZeroed h
    → Lacks 0 s
    → FitsStruct s (pos n)
    → (p : Packet) × (finish_packet h s n type seqno ackno ≡ ok p)
      × Carries (header_of type seqno ackno) (pos n) (take 1024 s) p
unfolding finish_packet
finish_packet-Carries h s n type seqno ackno z zs fits =
    let (q, stores, hd_eq, n_eq, reads) =
      payload_string-store_payload (header_of type seqno ackno) (fresh_payload h 2) s (pos n)
        (length-fresh_payload h 2 z) zs fits in
    (q, stores, record { header_is = hd_eq; length_is = n_eq; payload_is = reads })

create_packet-finish :
    (h : Heap) (src s : Bytes) (n : ℕ) (seqno : ℤ)
    → IsZeroed h
    → c_string src ≡ some s
    → length s < 8 * n
    → create_packet h src n dat seqno ≡ finish_packet h s n dat seqno (seqno +ℤ pos n)
unfolding create_packet
create_packet-finish h src s n seqno z reads short =
    rw
      (
        eqb_ℤ_refl dat,
        reads,
        strcpy-put (h.block 0 (8 * n)) s (rw (z 0 (8 * n), length-zeros (8 * n)) short),
      )
      refl

create_packet-known :
    (h : Heap) (src s : Bytes) (n : ℕ) (type seqno : ℤ)
    → h.stray ≡ some s
    → type ≢ dat
    → is_control type ≡ true
    → create_packet h src n type seqno ≡ finish_packet h s n type seqno (seqno +ℤ pos 1)
unfolding create_packet
create_packet-known h src s n type seqno stray ne known =
    rw (ne→eqb_ℤ type dat ne, known)
      (ap (λ o. or_crash o >>= λ t. finish_packet h t n type seqno (seqno +ℤ pos 1)) stray)

pub create_dat-Carries :
    (h : Heap) (src s : Bytes) (n : ℕ) (seqno : ℤ)
    → IsZeroed h
    → c_string src ≡ some s
    → length s < 8 * n
    → FitsStruct s (pos n)
    → (p : Packet) × (create_packet h src n dat seqno ≡ ok p)
      × Carries (header_of dat seqno (seqno +ℤ pos n)) (pos n) (take 1024 s) p
unfolding create_packet
create_dat-Carries h src s n seqno z reads short fits =
    let (p, e, c) =
      finish_packet-Carries h s n dat seqno (seqno +ℤ pos n) z (c_string-Lacks src s reads) fits in
    (p, create_packet-finish h src s n seqno z reads short ∙ e, c)

pub create_control-cases :
    (h : Heap) (src s : Bytes) (n : ℕ) (type seqno : ℤ)
    → IsZeroed h
    → h.stray ≡ some s
    → Lacks 0 s
    → length s < 1024
    → type ≢ dat
    → ((is_control type ≡ true)
        × (p : Packet) × (create_packet h src n type seqno ≡ ok p)
        × Carries (header_of type seqno (seqno +ℤ pos 1)) (pos n) s p)
      ⊎ ((is_control type ≡ false) × (create_packet h src n type seqno ≡ exit))
unfolding create_packet
create_control-cases h src s n type seqno z stray zs short ne =
    elim (Bool-cases (is_control type)) [
      | inl known ↦
          let (p, e, c) =
            finish_packet-Carries h s n type seqno (seqno +ℤ pos 1) z zs
              (omega arith, λ big. absurd (omega arith)) in
          inl (
            known,
            p,
            create_packet-known h src s n type seqno stray ne known ∙ e,
            rw (take-all 1024 s (omega arith)) at c,
          )
      | inr other ↦ inr (other, rw (ne→eqb_ℤ type dat ne, other) refl)
    ]

-- Over zeroed memory, with a C string at the data pointer that is shorter than the block of eight
-- bytes for each of its stated length, that has at most 1027 bytes, with 1024 for the stated length
-- where it has 1024 or more, and with numbers that are ints, a DAT packet carries the string, cut to
-- 1024 bytes, and acknowledges the sequence number plus the length.
pub create_packet-dat :
    (h : Heap) (src s : Bytes) (n : ℕ) (seqno : ℤ)
    → IsZeroed h
    → c_string src ≡ some s
    → length s < 8 * n
    → FitsStruct s (pos n)
    → IsInt (pos n)
    → IsInt seqno
    → IsInt (seqno +ℤ pos n)
    → (p : Packet) × (create_packet h src n dat seqno ≡ ok p)
      × Carries (header_of dat seqno (seqno +ℤ pos n)) (pos n) (take 1024 s) p
create_packet-dat h src s n seqno z reads short fits _ _ _ =
    create_dat-Carries h src s n seqno z reads short fits

-- Over zeroed memory, with a string of less than 1024 bytes at the unset pointer, and with numbers
-- that are ints, any packet type but DAT carries that string, and acknowledges the next sequence
-- number; a number that is no packet type ends the process.
pub create_packet-control :
    (h : Heap) (src s : Bytes) (n : ℕ) (type seqno : ℤ)
    → IsZeroed h
    → h.stray ≡ some s
    → Lacks 0 s
    → length s < 1024
    → type ≢ dat
    → IsInt (pos n)
    → IsInt seqno
    → IsInt (seqno +ℤ pos 1)
    → ((is_control type ≡ true)
        × (p : Packet) × (create_packet h src n type seqno ≡ ok p)
        × Carries (header_of type seqno (seqno +ℤ pos 1)) (pos n) s p)
      ⊎ ((is_control type ≡ false) × (create_packet h src n type seqno ≡ exit))
create_packet-control h src s n type seqno z stray zs short ne _ _ _ =
    create_control-cases h src s n type seqno z stray zs short ne
