-- ===== src/Sender/Accounting.antt =====
-- The counters of src/rdps.c, which print_statistics prints, against the datagrams that were sent.
pub mod Transfer
use csc361_a.Base.{
  Member, Member-snoc, ℕ, ◌+◌, ◌≤◌, ◌≡◌, refl, sym, ap, ◌∙◌, subst, ◌⊎◌, inl, inr, List, [], ◌∷◌,
  ◌++◌, arith, ok, or_crash, if◌then◌else◌, returned, ok_inj, take,
}
use csc361_a.Base.Triple.{Everywhere}
use csc361_a.Base.Int.{ℤ, pos, ◌+ℤ◌, eqb_ℤ}
use csc361_a.Base.Text.{Bytes, strcpy}
use csc361_a.Packet.{
  Packet, PacketHdr, Heap, dat, syn, fin, construct_string, create_packet, store_payload,
  finish_packet, create_control, fresh_payload, max_payload_size,
}
use csc361_a.Socket.{Env}
use csc361_a.Sender.State.{Sender}
use csc361_a.Sender.Transfer.{initiate_transfer, count_syn, count_first, count_fin, count_ack}
use csc361_a.Sender.Window.{count_fresh, count_again, occupy, slide_to}
use csc361_a.Sender.Invariant.{IsMade, IsCalm, IsSending, IsWindowed, posted, count_rst}
use csc361_a.Sender.Invariant.Transfer.{Ensures-initiate_transfer}

-- `ts` are the texts that construct_string prints for `qs`.
abbrev pub Spells : List Packet → List Bytes → Type 0
Spells [] [] = Unit
Spells [] (t ∷ ts) = ⊥
Spells (q ∷ qs) [] = ⊥
Spells (q ∷ qs) (t ∷ ts) = (construct_string q ≡ ok t) × Spells qs ts

-- One more of a packet of type `t`, in a count of those of type `type`.
abbrev bump : ℤ → ℤ → ℕ → ℕ
bump t type n = if eqb_ℤ t type then n + 1 else n

-- How many packets have this type.
abbrev pub number_of : ℤ → List Packet → ℕ
number_of type [] = 0
number_of type (q ∷ qs) = bump q.type type (number_of type qs)

-- `z` and the payload lengths.
abbrev pub total_length : ℤ → List Packet → ℤ
total_length z [] = z
total_length z (q ∷ qs) = total_length (z +ℤ q.payload_length) qs

-- A packet that the sender may send.
abbrev pub Genuine : Env → ℤ → List Packet → Packet → Type 0
Genuine env last_ackno ps p = Member p ps ⊎ (IsMade env syn (pos 0) p ⊎ IsMade env fin last_ackno p)

-- The datagrams sent are the texts of `log`, and the counters count it.
pub record Accounts (s : Sender) (log : List Packet) : Type 0 where
  pub spelled : Spells log s.sent
  pub dat_lem : number_of dat log ≡ s.dat_packets_sent
  pub syn_lem : number_of syn log ≡ s.syn_packets_sent
  pub fin_lem : number_of fin log ≡ s.fin_packets_sent
  pub bytes_lem : total_length (pos 0) log ≡ s.bytes_sent

pub record IsAccounted (env : Env) (last_ackno : ℤ) (ps : List Packet) (s : Sender) : Type 0 where
  pub packets_lem : s.data_packets ≡ ps
  pub log : List Packet
  pub genuine : (q : Packet) → Member q log → Genuine env last_ackno ps q
  pub accounts : Accounts s log
  pub unique_le : s.unique_dat_packets_sent ≤ s.dat_packets_sent

Spells-snoc :
    (qs : List Packet) (ts : List Bytes) (q : Packet) (t : Bytes)
    → Spells qs ts
    → construct_string q ≡ ok t
    → Spells (qs ++ q ∷ []) (ts ++ t ∷ [])
Spells-snoc [] [] q t h e = (e, tt)
Spells-snoc [] (t' ∷ ts) q t h e = absurd h
Spells-snoc (q' ∷ qs) [] q t h e = absurd h
Spells-snoc (q' ∷ qs) (t' ∷ ts) q t h e = (h.0, Spells-snoc qs ts q t h.1 e)

bump_comm : (t u type : ℤ) (n : ℕ) → bump t type (bump u type n) ≡ bump u type (bump t type n)
bump_comm t u type n = ground arith

number_of-snoc :
    (type : ℤ) (qs : List Packet) (q : Packet)
    → number_of type (qs ++ q ∷ []) ≡ bump q.type type (number_of type qs)
number_of-snoc type [] q = refl
number_of-snoc type (q' ∷ qs) q =
    ap (bump q'.type type) (number_of-snoc type qs q)
    ∙ bump_comm q'.type q.type type (number_of type qs)

total_length-snoc :
    (z : ℤ) (qs : List Packet) (q : Packet)
    → total_length z (qs ++ q ∷ []) ≡ total_length z qs +ℤ q.payload_length
total_length-snoc z [] q = refl
total_length-snoc z (q' ∷ qs) q = total_length-snoc (z +ℤ q'.payload_length) qs q

store_payload-type :
    (hd : PacketHdr) (mem s : Bytes) (n : ℤ) (p : Packet)
    → store_payload hd mem s n ≡ ok p
    → p.type ≡ hd.type
unfolding store_payload
store_payload-type hd mem s n p e =
    let (m, _, k) =
      returned (or_crash (strcpy mem s))
        (λ m. ok (record { header = hd; payload = take max_payload_size m; payload_length = n }))
        e in
    ap (λ q. q.type) (sym (ok_inj k))

create_control-type :
    (h : Heap) (n : ℕ) (type seqno : ℤ) (p : Packet)
    → create_control h n type seqno ≡ ok p
    → p.type ≡ type
unfolding create_control finish_packet
create_control-type h n type seqno p e =
    let (s, _, k) =
      returned (or_crash h.stray) (λ s. finish_packet h s n type seqno (seqno +ℤ pos 1)) e in
    store_payload-type _ (fresh_payload h 2) s (pos n) p k

pub IsMade-syn : {env : Env} (p : Packet) → IsMade env syn (pos 0) p → p.type ≡ syn
unfolding create_packet eqb_ℤ
IsMade-syn {env = env} p m = create_control-type (env.heap m.call) 0 syn (pos 0) p m.made

pub IsMade-fin :
    {env : Env} {last_ackno : ℤ} (p : Packet) → IsMade env fin last_ackno p → p.type ≡ fin
unfolding create_packet eqb_ℤ
IsMade-fin {env = env} {last_ackno = z} p m = create_control-type (env.heap m.call) 0 fin z p m.made

-- The data packets are of type DAT.
abbrev pub AreDat : List Packet → Type 0
AreDat qs = (q : Packet) → Member q qs → q.type ≡ dat

module _ (env : Env) (last_ackno : ℤ) (ps : List Packet) where
  -- A datagram more, and the counters that go with it.
  pub sends :
      (s : Sender) (p : Packet) (text : Bytes) (t : Sender)
      → (i : IsAccounted env last_ackno ps s) → Genuine env last_ackno ps p
      → construct_string p ≡ ok text
      → t.data_packets ≡ s.data_packets
      → t.sent ≡ s.sent ++ text ∷ []
      → t.dat_packets_sent ≡ bump p.type dat s.dat_packets_sent
      → t.syn_packets_sent ≡ bump p.type syn s.syn_packets_sent
      → t.fin_packets_sent ≡ bump p.type fin s.fin_packets_sent
      → t.bytes_sent ≡ s.bytes_sent +ℤ p.payload_length
      → t.unique_dat_packets_sent ≤ t.dat_packets_sent
      → IsAccounted env last_ackno ps t
  sends s p text t i g e same sent dats syns fins bytes le =
      let a = i.accounts in
      record {
        packets_lem = same ∙ i.packets_lem;
        log = i.log ++ p ∷ [];
        genuine = λ q m. elim (Member-snoc i.log p q m) [
          | inl k ↦ i.genuine q k
          | inr e' ↦ subst (Genuine env last_ackno ps) (sym e') g
        ];
        accounts = record {
          spelled =
              subst (Spells (i.log ++ p ∷ [])) (sym sent)
                (Spells-snoc i.log s.sent p text a.spelled e);
          dat_lem = number_of-snoc dat i.log p ∙ ap (bump p.type dat) a.dat_lem ∙ sym dats;
          syn_lem = number_of-snoc syn i.log p ∙ ap (bump p.type syn) a.syn_lem ∙ sym syns;
          fin_lem = number_of-snoc fin i.log p ∙ ap (bump p.type fin) a.fin_lem ∙ sym fins;
          bytes_lem =
              total_length-snoc (pos 0) i.log p
              ∙ ap (λ z. z +ℤ p.payload_length) a.bytes_lem
              ∙ sym bytes;
        };
        unique_le = le;
      }

  -- A step that sends nothing and counts nothing.
  pub keeps :
      (s t : Sender)
      → IsAccounted env last_ackno ps s
      → t.data_packets ≡ s.data_packets
      → t.sent ≡ s.sent
      → t.dat_packets_sent ≡ s.dat_packets_sent
      → t.syn_packets_sent ≡ s.syn_packets_sent
      → t.fin_packets_sent ≡ s.fin_packets_sent
      → t.bytes_sent ≡ s.bytes_sent
      → t.unique_dat_packets_sent ≡ s.unique_dat_packets_sent
      → IsAccounted env last_ackno ps t
  keeps s t i same sent dats syns fins bytes uniques =
      let a = i.accounts in
      record {
        packets_lem = same ∙ i.packets_lem;
        log = i.log;
        genuine = i.genuine;
        accounts = record {
          spelled = subst (Spells i.log) (sym sent) a.spelled;
          dat_lem = a.dat_lem ∙ sym dats;
          syn_lem = a.syn_lem ∙ sym syns;
          fin_lem = a.fin_lem ∙ sym fins;
          bytes_lem = a.bytes_lem ∙ sym bytes;
        };
        unique_le = let le = i.unique_le in omega arith;
      }
