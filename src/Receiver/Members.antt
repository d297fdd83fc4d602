-- ===== src/Receiver/Members.antt =====
-- What the list of src/rdpr.c's data packets holds after add_packet and store_dataPacket.
use csc361_a.Base.{
  Every, Member, Member-snoc, ℕ, zero, suc, ◌+◌, ◌-◌, ◌≡◌, refl, sym, ap, ◌∙◌, subst, Bool, true,
  false, ◌⊎◌, inl, inr, Option, none, some, List, [], ◌∷◌, ◌++◌, ◌==◌, ltb, Result, returned,
  ok_inj, if◌then◌else◌, failure, length, Bool-cases,
}
use csc361_a.Base
use csc361_a.Base.Int.{eqb_ℤ}
use csc361_a.Packet.{Packet, dat, add_packet}
use csc361_a.Receiver.{receiver_machine, store_data_packet}

-- The list with the packet added and stored holds the packet and what was there.
pub add_packet-Member :
    (room : ℕ) (p q : Packet) (ps ps' : List Packet)
    → add_packet room p ps ≡ Base.ok ps'
    → Member q ps'
    → Member q ps ⊎ (q ≡ p)
unfolding add_packet
add_packet-Member room p q ps ps' e m = added (eqb_ℤ p.type dat) (ltb (length ps) room) e
  where
    added :
        (a b : Bool)
        → (if a then if b then Base.ok (ps ++ p ∷ []) else Base.crash else Base.exit) ≡ Base.ok ps'
        → Member q ps ⊎ (q ≡ p)
    added true true k = Member-snoc ps p q (subst (Member q) (sym (ok_inj k)) m)
    added true false k = absurd (cc)
    added false b k = absurd (cc)

pub store_data_packet-Member :
    (room : ℕ) (p q : Packet) (ps ps' : List Packet)
    → store_data_packet room p ps ≡ Base.ok ps'
    → Member q ps'
    → Member q ps ⊎ (q ≡ p)
unfolding store_data_packet
store_data_packet-Member room p q [] ps' e m = put (room == 0) e
  where
    put :
        (b : Bool)
        → (if b then Base.crash else Base.ok (p ∷ [])) ≡ Base.ok ps'
        → Member q [] ⊎ (q ≡ p)
    put true k = absurd (cc)
    put false k = Member-snoc [] p q (subst (Member q) (sym (ok_inj k)) m)
store_data_packet-Member room p q (t ∷ ts) ps' e m =
    put (eqb_ℤ t.seqno p.seqno) e (λ r. store_data_packet-Member (room - 1) p q ts r)
  where
    put :
        (b : Bool)
        → (if b
            then Base.ok (p ∷ ts)
            else Base.◌>>=◌ (store_data_packet (room - 1) p ts) (λ r. Base.ok (t ∷ r)))
          ≡ Base.ok ps'
        → ((r : List Packet)
            → store_data_packet (room - 1) p ts ≡ Base.ok r
            → Member q r
            → Member q ts ⊎ (q ≡ p))
        → Member q (t ∷ ts) ⊎ (q ≡ p)
    put true k _ = elim (subst (Member q) (sym (ok_inj k)) m) [
      | inl same ↦ inr same
      | inr n ↦ inl (inr n)
    ]
    put false k next =
        let (r, stored, l) =
          returned (store_data_packet (room - 1) p ts) (λ r. Base.ok (t ∷ r)) k in
        elim (subst (Member q) (sym (ok_inj l)) m) [
          | inl same ↦ inl (inl same)
          | inr n ↦ elim (next r stored n) [ inl o ↦ inl (inr o) | inr same ↦ inr same ]
        ]
