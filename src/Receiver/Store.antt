-- ===== src/Receiver/Store.antt =====
-- What store_dataPacket and DATisUnique of src/rdpr.c find after add_packet has been called.
use csc361_a.Base.{
  ℕ, ◌-◌, ◌≡◌, ◌≢◌, refl, ap, true, List, [], ◌∷◌, ◌++◌, arith, ok, length, if◌then◌else◌,
}
use csc361_a.Base.Int.{eqb_ℤ, eqb_ℤ_refl, ne→eqb_ℤ}
use csc361_a.Packet.{Packet}
use csc361_a.Receiver.{store_data_packet, dat_is_unique}

-- The stored packets with the first one of the same sequence number replaced.
unfoldable pub replaced : Packet → List Packet → List Packet
replaced p [] = []
replaced p (q ∷ qs) = if eqb_ℤ q.seqno p.seqno then p ∷ qs else q ∷ replaced p qs

-- With the packet itself at the end of the list, as add_packet leaves it, it counts as unique.
pub dat_is_unique-snoc : (p : Packet) (ps : List Packet) → dat_is_unique p (ps ++ p ∷ []) ≡ true
unfolding dat_is_unique
dat_is_unique-snoc p [] = rw (eqb_ℤ_refl p.seqno) refl
dat_is_unique-snoc p (q ∷ ps) = ground (arith, dat_is_unique-snoc p ps)

-- With the packet itself at the end of the list, as add_packet leaves it, storing it overwrites the
-- first earlier packet of its sequence number, if there is one, and returns.
pub store_data_packet-snoc :
    (room : ℕ) (p : Packet) (ps : List Packet)
    → store_data_packet room p (ps ++ p ∷ []) ≡ ok (replaced p ps ++ p ∷ [])
unfolding store_data_packet replaced
store_data_packet-snoc room p [] = rw (eqb_ℤ_refl p.seqno) refl
store_data_packet-snoc room p (q ∷ ps) = ground (arith, store_data_packet-snoc (room - 1) p ps)

-- `p` has the sequence number of none of them.
abbrev pub IsNew : Packet → List Packet → Type 0
IsNew p [] = Unit
IsNew p (q ∷ qs) = (q.seqno ≢ p.seqno) × IsNew p qs

pub replaced-IsNew : (p : Packet) (ps : List Packet) → IsNew p ps → replaced p ps ≡ ps
unfolding replaced
replaced-IsNew p [] h = refl
replaced-IsNew p (q ∷ qs) (ne, h) =
    rw (ne→eqb_ℤ q.seqno p.seqno ne) (ap (λ r. q ∷ r) (replaced-IsNew p qs h))

pub length-replaced : (p : Packet) (ps : List Packet) → length (replaced p ps) ≡ length ps
unfolding replaced
length-replaced p [] = refl
length-replaced p (q ∷ qs) = ground (arith, length-replaced p qs)
