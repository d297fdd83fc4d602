-- ===== src/Packet/Receive.antt =====
-- receive_packet of src/packet.c on what the other end sends, and on anything else.
use csc361_a.Base.{
  ◌-◌, ◌≤◌, ◌≡◌, refl, ap, sym, ◌∙◌, Option, some, [], ◌∷◌, ◌++◌, arith, length, true, ◌||◌, Bool,
  ok, or_crash, ◌>>=◌, returned, >>=-after, ok_inj,
}
use csc361_a.Base.Int.{ℤ, eqb_ℤ}
use csc361_a.Base.Text.{
  Bytes, Lacks, Lacks-append, c_string, c_string-append, overlay-append, zeros, zeros-suc,
  length-zeros, drop-zeros, take-all,
}
use csc361_a.Base.Decimal.{itoa, itoa-Lacks}
use csc361_a.Packet.{
  Packet, PacketHdr, Heap, sep, packet_size, magic_hdr, dat, is_control, header_text,
  construct_string, payload_string,
}
use csc361_a.Packet.Parse.{eq_bytes, check_packet, fill_buffer, deconstruct_string, receive_packet}
use csc361_a.Packet.Scan.{IsZeroed}
use csc361_a.Packet.Fields.{IsHeader}
use csc361_a.Packet.RoundTrip.{
  IsSendable, payload_string-Lacks, construct_string-text, deconstruct_string-construct_string,
}
use csc361_a.Packet.Size.{length-construct_string}

-- The type is one of enum packet_types.
abbrev pub is_known : ℤ → Bool
is_known t = eqb_ℤ t dat || is_control t

eq_bytes→eq : (s t : Bytes) → eq_bytes s t ≡ true → s ≡ t
unfolding eq_bytes
eq_bytes→eq [] [] h = refl
eq_bytes→eq [] (b ∷ t) h = absurd (cc)
eq_bytes→eq (a ∷ s) [] h = absurd (cc)
eq_bytes→eq (a ∷ s) (b ∷ t) h = ground (arith, eq_bytes→eq s t)

check_packet-some :
    (p q : Packet)
    → check_packet p ≡ ok (some q)
    → (q ≡ p) × (p.magic ≡ magic_hdr) × (is_known p.type ≡ true)
unfolding check_packet
check_packet-some p q h = ground (arith, eq_bytes→eq p.magic magic_hdr)

check_packet-ok :
    (p : Packet) → p.magic ≡ magic_hdr → is_known p.type ≡ true → check_packet p ≡ ok (some p)
unfolding check_packet eq_bytes
check_packet-ok p magic_ok known = rw (magic_ok, known) refl

-- Every packet that receive_packet returns has the magic header and one of the five types, whatever
-- was received and whatever the memory held.
pub receive_packet-some :
    (h : Heap) (d : Option Bytes) {q : Packet}
    → receive_packet h d ≡ ok (some q)
    → (q.magic ≡ magic_hdr) × (is_known q.type ≡ true)
unfolding receive_packet
receive_packet-some h d {q} e =
    let (m, _, e1) = returned (fill_buffer h d) _ e in
    let (s, _, e2) = returned (or_crash (c_string m)) _ e1 in
    let (p, _, e3) = returned (deconstruct_string h s) check_packet e2 in
    let (same, magic_ok, known) = check_packet-some p q e3 in
    (
      ap (λ (r : Packet). r.magic) same ∙ magic_ok,
      ap (λ (r : Packet). is_known r.type) same ∙ known,
    )

field : (s rest : Bytes) → Lacks 0 s → Lacks 0 rest → Lacks 0 (s ++ sep ∷ rest)
field s rest zs zr = Lacks-append 0 s (sep ∷ rest) zs (omega arith, zr)

digits : (v : ℤ) (rest : Bytes) → Lacks 0 rest → Lacks 0 (itoa v ++ sep ∷ rest)
digits v rest = field (itoa v) rest (itoa-Lacks 0 v (λ d. omega arith) (omega arith))

Lacks-header_text :
    (hd : PacketHdr) (rest : Bytes) → IsHeader hd → Lacks 0 rest → Lacks 0 (header_text hd rest)
Lacks-header_text hd rest ok_hd zs =
    field hd.magic _ ok_hd.magic_string
      (digits hd.type _ (digits hd.seqno _ (digits hd.ackno _ (digits hd.winsize rest zs))))

buffer_string :
    (h : Heap) (text : Bytes)
    → IsZeroed h
    → Lacks 0 text
    → length text ≤ packet_size
    → (fill_buffer h (some text) >>= λ m. or_crash (c_string m)) ≡ ok text
unfolding fill_buffer
buffer_string h text z zs fits =
    rw
      (
        take-all packet_size text fits,
        z 32 12000,
        overlay-append text (zeros 12000) (omega (arith, length-zeros 12000)),
        drop-zeros (length text) 12000,
        zeros-suc (12000 - length text) (omega arith),
        c_string-append text (zeros (12000 - length text - 1)) zs,
      )
      refl

-- Over zeroed memory, a sendable packet with the magic header and a known type arrives: recvfrom's
-- datagram of its text becomes a packet with the same header, payload length and payload string.
pub receive_packet-construct_string :
    (h : Heap) (p : Packet) (s : Bytes)
    → IsZeroed h
    → IsSendable p s
    → p.magic ≡ magic_hdr
    → is_known p.type ≡ true
    → (text : Bytes) × (q : Packet) × (construct_string p ≡ ok text)
      × (receive_packet h (some text) ≡ ok (some q))
      × (q.header ≡ p.header)
      × (q.payload_length ≡ p.payload_length)
      × (payload_string q ≡ ok s)
unfolding receive_packet
receive_packet-construct_string h p s z sendable magic_ok known =
    let rest = itoa p.payload_length ++ sep ∷ [] in
    let zs = payload_string-Lacks p s sendable.payload_is in
    let (text, q, made, read, hd_eq, n_eq, string_eq) =
      deconstruct_string-construct_string h p s z sendable in
    let (text', made', fits) = length-construct_string p s sendable in
    let same : text' ≡ text = ok_inj (sym made' ∙ made) in
    let spelled : text ≡ header_text p.header (s ++ sep ∷ rest) =
      ok_inj (sym made ∙ construct_string-text p s sendable.payload_is) in
    let clean : Lacks 0 text = rw spelled (
      Lacks-header_text p.header (s ++ sep ∷ rest) sendable.header_ok
        (field s rest zs (digits p.payload_length [] tt))) in
    (
      text,
      q,
      made,
      >>=-after (fill_buffer h (some text)) (λ m. or_crash (c_string m))
            (λ b. deconstruct_string h b >>= check_packet)
            (buffer_string h text z clean (rw same at fits))
          ∙ ap (λ r. r >>= check_packet) read
          ∙ check_packet-ok q (ap (λ hd. hd.magic) hd_eq ∙ magic_ok)
              (ap (λ hd. is_known hd.type) hd_eq ∙ known),
      hd_eq,
      n_eq,
      string_eq,
    )
