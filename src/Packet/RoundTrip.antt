-- ===== src/Packet/RoundTrip.antt =====
-- What deconstruct_string makes of the text of construct_string.
use mathlib.Core.Option
use mathlib.Core.Option.{Option}
use csc361_a.Base.{◌≤◌, ◌<◌, ◌≡◌, refl, ap, ◌∙◌, some, [], ◌∷◌, ◌++◌, arith, length, ok, or_crash}
use csc361_a.Base.Int.{ℤ, pos}
use csc361_a.Base.Text.{Bytes, Lacks, zeros, put, c_string-Lacks, take-all}
use csc361_a.Base.Decimal.{itoa, IsInt, atoi-itoa, itoa-Lacks}
use csc361_a.Packet.{
  Packet, PacketHdr, Heap, sep, header_text, fresh_payload, construct_string, payload_string,
  store_payload,
}
use csc361_a.Packet.Parse.{Fields, set_field, deconstruct_string}
use csc361_a.Packet.Payload.{payload_string-store_payload}
use csc361_a.Packet.Scan.{IsZeroed, scan_fields-end}
use csc361_a.Packet.Create.{length-fresh_payload}
use csc361_a.Packet.Fields.{
  IsHeader, header_fields, strcpy-zeros, strcpy-itoa, scan_fields-put, scan_fields-itoa,
  scan_fields-header_text, read_fields-header_fields,
}

-- A packet that survives its text: besides an `IsHeader` header, its payload string `s` holds no
-- semicolon and is no longer than the array, and with a full array payload_length is 1024.
pub record IsSendable (p : Packet) (s : Bytes) : Type 0 where
  pub header_ok : IsHeader p.header
  pub payload_is : payload_string p ≡ ok s
  pub payload_text : Lacks sep s
  pub payload_fits : length s ≤ 1024
  pub full_payload : 1024 ≤ length s → p.payload_length ≡ pos 1024
  pub length_int : IsInt p.payload_length

pub or_crash-ok {ℓ} : {A : Type ℓ} (o : Option A) {a : A} → or_crash o ≡ ok a → o ≡ some a
or_crash-ok o h = ground arith

pub payload_string-Lacks : (p : Packet) (s : Bytes) → payload_string p ≡ ok s → Lacks 0 s
unfolding payload_string
payload_string-Lacks p s h = c_string-Lacks _ s (or_crash-ok _ h)

pub construct_string-text :
    (p : Packet) (s : Bytes)
    → payload_string p ≡ ok s
    → construct_string p
      ≡ ok (header_text p.header (s ++ sep ∷ (itoa p.payload_length ++ sep ∷ [])))
unfolding construct_string
construct_string-text p s e = rw e refl

-- After the header, a payload field `a` and a length field that is the print of `n`.
deconstruct_string-fields :
    (h : Heap) (hd : PacketHdr) (a : Bytes) (n : ℤ)
    → IsZeroed h
    → IsHeader hd
    → Lacks sep a
    → Lacks 0 a
    → length a < 8192
    → IsInt n
    → deconstruct_string h (header_text hd (a ++ sep ∷ (itoa n ++ sep ∷ [])))
      ≡ store_payload hd (fresh_payload h 0) a n
unfolding deconstruct_string set_field header_fields
deconstruct_string-fields h hd a n z ok_hd ha za fits n_int =
    let f6 : Fields = record (header_fields h hd) { payload = put (zeros 8192) a } in
    let f7 : Fields = record f6 { payload_length = put (zeros 32) (itoa n) } in
    rw
      (scan_fields-header_text h hd (a ++ sep ∷ (itoa n ++ sep ∷ [])) z ok_hd
        ∙ scan_fields-put h a (itoa n ++ sep ∷ []) 5 (header_fields h hd) f6 z ha za fits
            (omega arith)
            (ap (Option.map (λ m. record (header_fields h hd) { payload = m }))
              (strcpy-zeros 8192 a fits))
        ∙ scan_fields-itoa h n [] 6 f6 f7 z n_int (omega arith)
            (ap (Option.map (λ m. record f6 { payload_length = m })) (strcpy-itoa n n_int))
        ∙ (scan_fields-end h [] [] f7 z tt tt (omega arith)).0)
      (read_fields-header_fields h hd a (itoa n) n f7 ok_hd za
        (itoa-Lacks 0 n (λ d. omega arith) (omega arith)) (atoi-itoa n n_int) refl)

-- Over zeroed memory a sendable packet is rebuilt from its text with the same header, payload
-- string and payload length.
pub deconstruct_string-construct_string :
    (h : Heap) (p : Packet) (s : Bytes)
    → IsZeroed h
    → IsSendable p s
    → (text : Bytes) × (q : Packet) × (construct_string p ≡ ok text)
      × (deconstruct_string h text ≡ ok q)
      × (q.header ≡ p.header)
      × (q.payload_length ≡ p.payload_length)
      × (payload_string q ≡ ok s)
deconstruct_string-construct_string h p s z sendable =
    let zs = payload_string-Lacks p s sendable.payload_is in
    let (q, stores, hd_eq, n_eq, reads) =
      payload_string-store_payload p.header (fresh_payload h 0) s p.payload_length
        (length-fresh_payload h 0 z) zs (omega arith, sendable.full_payload) in
    (
      header_text p.header (s ++ sep ∷ (itoa p.payload_length ++ sep ∷ [])),
      q,
      construct_string-text p s sendable.payload_is,
      deconstruct_string-fields h p.header s p.payload_length z sendable.header_ok
            sendable.payload_text zs (omega arith) sendable.length_int
          ∙ stores,
      hd_eq,
      n_eq,
      reads ∙ ap ok (take-all 1024 s sendable.payload_fits),
    )
