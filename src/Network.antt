-- ===== src/Network.antt =====
-- src/rdps.c and src/rdpr.c over a network that loses, repeats, delays and reorders datagrams.
pub mod Programs
pub mod Content
pub mod Shipments
pub mod Dialogue
pub mod Mains
use csc361_a.Base.{
  Every, Member, ℕ, ◌+◌, ◌^◌, ◌≤◌, ◌<◌, ◌≡◌, ◌≢◌, refl, sym, ap, ◌∙◌, subst, ◌⊎◌, inl, inr, Option,
  none, some, List, [], ◌∷◌, ok_inj, true, arith, length,
}
use csc361_a.Base
use csc361_a.Base.Action.{Outcome, ok, exit, blocked, crash}
use csc361_a.Base.Triple.{Everywhere, Everywhere-weaken}
use csc361_a.Base.Int.{ℤ, pos, ◌+ℤ◌, eqb_ℤ}
use csc361_a.Base.Text.{Bytes, Lacks}
use csc361_a.Base.Decimal.{IsInt}
use csc361_a.Packet.{
  Packet, Heap, dat, syn, fin, sep, is_control, magic_hdr, construct_string, payload_string,
}
use csc361_a.Packet.Parse.{receive_packet}
use csc361_a.Packet.Scan.{IsZeroed}
use csc361_a.Packet.Receive.{is_known, receive_packet-construct_string}
use csc361_a.Packet.Timeout.{receive_packet-timeout}
use csc361_a.Socket.{Env}
use csc361_a.Sender.State.{Sender}
use csc361_a.Sender.Invariant.{IsMade}
use csc361_a.Sender.Sendable.{IsShippable, IsTidy, IsMade-IsShippable}
use csc361_a.Sender.Accounting.{Spells, Genuine, IsAccounted}
use csc361_a.Sender.Accounting.Transfer.{IsFresh, initiate_transfer-IsAccounted}
use csc361_a.Sender.Transfer.{initiate_transfer}
use csc361_a.Receiver.{Receiver, run}
use csc361_a.Receiver.Genuine.{Arrives, IsGenuine}
use csc361_a.Receiver.Genuine.Loop.{run-IsGenuine}

-- `q` has the header, the payload length and the payload string of `p`.
pub record IsCopy (p q : Packet) : Type 0 where
  pub header_lem : q.header ≡ p.header
  pub length_lem : q.payload_length ≡ p.payload_length
  pub payload_lem : payload_string q ≡ payload_string p

abbrev pub CopyOf : List Packet → Packet → Type 0
CopyOf ps q = (p : Packet) × Member p ps × IsCopy p q

-- The globals where a call waits, ends the process, or returns.
abbrev pub Reaches : {S A : Type 0} → Outcome S A → S → Type 0
Reaches (ok a s) t = s ≡ t
Reaches (exit c s) t = s ≡ t
Reaches (blocked s) t = s ≡ t
Reaches crash t = ⊥

-- Each is a datagram that was sent, or a timeout.
abbrev pub IsCarried : List Bytes → Option Bytes → Type 0
IsCarried sent none = Unit
IsCarried sent (some text) = Member text sent

pub Everywhere-Reaches :
    {S A : Type 0} (I : S → Type 0) (o : Outcome S A) (t : S) → Everywhere I o → Reaches o t → I t
Everywhere-Reaches I (ok a s) t h e = subst I e h
Everywhere-Reaches I (exit c s) t h e = subst I e h
Everywhere-Reaches I (blocked s) t h e = subst I e h
Everywhere-Reaches I crash t h e = absurd e

-- What receive_packet makes of the text of a packet that arrives as it was sent.
read_back :
    (h : Heap) (type : ℤ) (p q : Packet) (text : Bytes)
    → IsZeroed h
    → is_known type ≡ true
    → IsShippable type p
    → construct_string p ≡ Base.ok text
    → receive_packet h (some text) ≡ Base.ok (some q)
    → IsCopy p q
read_back h type p q text z known i spelled got =
    let (text', q', made, got', header_lem, length_lem, payload_lem) =
      receive_packet-construct_string h p i.text z i.sendable i.magic_lem
        (ap is_known i.type_lem ∙ known) in
    let same : text' ≡ text = ok_inj (sym made ∙ spelled) in
    let again : Base.ok (some q') ≡ Base.ok (some q) =
      sym got' ∙ ap (λ t. receive_packet h (some t)) same ∙ got in
    let one : q' ≡ q = cc in
    subst (IsCopy p) one (record {
      header_lem = header_lem;
      length_lem = length_lem;
      payload_lem = payload_lem ∙ sym i.sendable.payload_is;
    })

Spells-Member :
    (qs : List Packet) (ts : List Bytes) (t : Bytes)
    → Spells qs ts
    → Member t ts
    → (q : Packet) × Member q qs × (construct_string q ≡ Base.ok t)
Spells-Member [] [] t h m = absurd m
Spells-Member [] (t' ∷ ts) t h m = absurd h
Spells-Member (q ∷ qs) [] t h m = absurd m
Spells-Member (q ∷ qs) (t' ∷ ts) t (e, h) (inl same) = (q, inl refl, e ∙ ap Base.ok (sym same))
Spells-Member (q ∷ qs) (t' ∷ ts) t (e, h) (inr m) =
    let (p, n, e') = Spells-Member qs ts t h m in (p, inr n, e')

module _ (env : Env) (stray : Bytes) (last_ackno : ℤ) (ps : List Packet) (tidy : IsTidy env stray)
    (dats : Every (IsShippable dat) ps) (last_int : IsInt last_ackno)
    (next_int : IsInt (last_ackno +ℤ pos 1)) where
  -- A DAT packet that is read from the text of a packet of the sender is a copy of a data packet.
  Genuine-CopyOf :
      (h : Heap) (p q : Packet) (text : Bytes)
      → IsZeroed h
      → Genuine env last_ackno ps p
      → construct_string p ≡ Base.ok text
      → receive_packet h (some text) ≡ Base.ok (some q)
      → q.type ≡ dat
      → CopyOf ps q
  unfolding eqb_ℤ ◌+ℤ◌
  Genuine-CopyOf h p q text z (inl m) e got d =
      (p, m, read_back h dat p q text z refl (dats p m) e got)
  Genuine-CopyOf h p q text z (inr (inl m)) e got d =
      let i =
        IsMade-IsShippable env stray syn (pos 0) p tidy (λ k. cc) refl (omega arith) (omega arith)
          (omega arith) m in
      let c = read_back h syn p q text z refl i e got in
      let clash : dat ≡ syn = sym d ∙ ap (λ hd. hd.type) c.header_lem ∙ i.type_lem in absurd (cc)
  Genuine-CopyOf h p q text z (inr (inr m)) e got d =
      let i =
        IsMade-IsShippable env stray fin last_ackno p tidy (λ k. cc) refl (omega arith) last_int
          next_int m in
      let c = read_back h fin p q text z refl i e got in
      let clash : dat ≡ fin = sym d ∙ ap (λ hd. hd.type) c.header_lem ∙ i.type_lem in absurd (cc)

  pub IsCarried-Arrives :
      (env_r : Env) (t : Sender)
      → ((k : ℕ) → IsZeroed (env_r.heap k))
      → IsAccounted env last_ackno ps t
      → (d : Option Bytes) → IsCarried t.sent d
      → Arrives env_r (CopyOf ps) d
  IsCarried-Arrives env_r t z a none m k q got d =
      let late = receive_packet-timeout (env_r.heap k) (z k) in absurd (cc)
  IsCarried-Arrives env_r t z a (some text) m k q got d =
      let (p, n, spelled) = Spells-Member a.log t.sent text a.accounts.spelled m in
      Genuine-CopyOf (env_r.heap k) p q text (z k) (a.genuine p n) spelled got d

-- A sender and a receiver with zeroed memory, the sender with a short string without semicolon at
-- the unset pointer, with data packets that can be sent and ints for the FIN's numbers. The sender
-- has run, against whatever datagrams came to it, up to any point where it waits or has ended. The
-- receiver has stored nothing yet, and what comes to it are datagrams that the sender has sent by
-- then, each any number of times, in any order and with timeouts between them. Then, wherever the
-- receiver's loop waits or ends, short of undefined behaviour, every packet that it has stored has
-- the header, the payload length and the payload string of one of the sender's data packets.
pub run-initiate_transfer :
    (env env_r : Env) (stray : Bytes) (fuel fuel_r : ℕ) (last_ackno : ℤ) (s t : Sender)
    (r : Receiver)
    → IsTidy env stray
    → ((k : ℕ) → IsZeroed (env_r.heap k))
    → IsInt last_ackno
    → IsInt (last_ackno +ℤ pos 1)
    → IsFresh s
    → Every (IsShippable dat) s.data_packets
    → Reaches (initiate_transfer env fuel last_ackno s) t
    → r.data_packets ≡ []
    → Every (IsCarried t.sent) r.inbox
    → Everywhere (λ u. Every (CopyOf s.data_packets) u.data_packets) (run env_r fuel_r r)
run-initiate_transfer env env_r stray fuel fuel_r last_ackno s t r tidy z last_int next_int fresh
      dats reached empty carried =
    let ps = s.data_packets in
    let a : IsAccounted env last_ackno ps t =
      Everywhere-Reaches (IsAccounted env last_ackno ps) (initiate_transfer env fuel last_ackno s) t
        (initiate_transfer-IsAccounted env fuel last_ackno s fresh (λ p m. (dats p m).type_lem))
        reached in
    Everywhere-weaken (λ u g. g.stored) (run env_r fuel_r r)
      (run-IsGenuine env_r (CopyOf ps) fuel_r r empty (λ d m.
        IsCarried-Arrives env stray last_ackno ps tidy dats last_int next_int env_r t z a d
          (carried d m)))
