-- ===== src/Packet/Semicolon.antt =====
-- What deconstruct_string makes of a packet whose payload holds the separator.
use mathlib.Core.Option
use csc361_a.Base.{
  ◌≤◌, ◌<◌, ◌≡◌, refl, ap, ◌∙◌, some, [], ◌∷◌, ◌++◌, arith, length, append_assoc, ok, crash,
  or_crash, ◌>>=◌,
}
use csc361_a.Base.Int.{ℤ}
use csc361_a.Base.Text.{
  Bytes, Lacks, Lacks-left, Lacks-right, zeros, length-zeros, put, strcpy-none, take-all,
}
use csc361_a.Base.Decimal.{itoa, atoi, IsInt, itoa-Lacks, length-itoa}
use csc361_a.Packet.{
  Packet, Heap, sep, header_text, fresh_payload, construct_string, payload_string,
}
use csc361_a.Packet.Parse.{
  Fields, set_field, cur_block, scan_fields, fresh_fields, deconstruct_string,
}
use csc361_a.Packet.Payload.{payload_string-store_payload}
use csc361_a.Packet.Scan.{IsZeroed, scan_fields-field, scan_fields-end}
use csc361_a.Packet.Create.{length-fresh_payload}
use csc361_a.Packet.Fields.{
  IsHeader, header_fields, strcpy-zeros, scan_fields-put, scan_fields-header_text,
  read_fields-header_fields,
}
use csc361_a.Packet.RoundTrip.{payload_string-Lacks, construct_string-text}

-- A payload in two parts around its only semicolon.
pub record IsSplit (p : Packet) (a b : Bytes) : Type 0 where
  pub header_ok : IsHeader p.header
  pub length_int : IsInt p.payload_length
  pub payload_is : payload_string p ≡ ok (a ++ sep ∷ b)
  pub first_text : Lacks sep a
  pub second_text : Lacks sep b
  pub first_fits : length a < 1024
  pub second_fits : length b < 8192

module _ (h : Heap) (p : Packet) (a b : Bytes) (z : IsZeroed h) (split : IsSplit p a b) where
  abbrev split_text : Bytes
  split_text = header_text p.header (a ++ sep ∷ (b ++ sep ∷ (itoa p.payload_length ++ sep ∷ [])))

  split_text-is : construct_string p ≡ ok split_text
  split_text-is =
      construct_string-text p (a ++ sep ∷ b) split.payload_is
      ∙ ap (λ s. ok (header_text p.header s))
          (append_assoc a (sep ∷ b) (sep ∷ (itoa p.payload_length ++ sep ∷ [])))

  zero_free : Lacks 0 (a ++ sep ∷ b)
  zero_free = payload_string-Lacks p (a ++ sep ∷ b) split.payload_is

  first_string : Lacks 0 a
  first_string = Lacks-left 0 a (sep ∷ b) zero_free

  second_string : Lacks 0 b
  second_string = (Lacks-right 0 a (sep ∷ b) zero_free).1

  six_fields : Fields
  six_fields = record (header_fields h p.header) { payload = put (zeros 8192) a }

  -- The part before the semicolon is taken for the payload, and the part behind it for the length.
  scan_fields-split : scan_fields h split_text 0 (cur_block h 0) (fresh_fields h) ≡ (
      or_crash (set_field 7 b six_fields) >>= λ f.
      scan_fields h (itoa p.payload_length ++ sep ∷ []) 7 (cur_block h 7) f)
  unfolding set_field header_fields six_fields
  scan_fields-split =
      let rest = itoa p.payload_length ++ sep ∷ [] in
      scan_fields-header_text h p.header (a ++ sep ∷ (b ++ sep ∷ rest)) z split.header_ok
      ∙ scan_fields-put h a (b ++ sep ∷ rest) 5 (header_fields h p.header) six_fields z
          split.first_text first_string (omega (arith, split.first_fits)) (omega arith)
          (ap (Option.map (λ m. record (header_fields h p.header) { payload = m }))
            (strcpy-zeros 8192 a (omega (arith, split.first_fits))))
      ∙ scan_fields-field h b rest 6 six_fields z split.second_text second_string split.second_fits
          (omega arith)

  -- Over zeroed memory: with 32 bytes or more behind the semicolon, their copy overruns the block
  -- of payload_length.
  pub deconstruct_string_overrun :
      32 ≤ length b
      → (text : Bytes) × (construct_string p ≡ ok text) × (deconstruct_string h text ≡ crash)
  unfolding deconstruct_string set_field header_fields six_fields
  deconstruct_string_overrun long = (
    split_text,
    split_text-is,
    rw
        (scan_fields-split
          ∙ ap
              (λ o. or_crash (Option.map (λ m. record six_fields { payload_length = m }) o) >>= λ f.
                scan_fields h (itoa p.payload_length ++ sep ∷ []) 7 (cur_block h 7) f)
              (strcpy-none (zeros 32) b (omega (arith, length-zeros 32))))
        refl,
  )

  -- Over zeroed memory: with fewer, which atoi reads as a number, the packet that arrives has lost
  -- what stood behind the semicolon, and its length is the number that those bytes spell.
  pub deconstruct_string_cut :
      (v : ℤ)
      → length b < 32
      → atoi b ≡ some v
      → (text : Bytes) × (q : Packet) × (construct_string p ≡ ok text)
        × (deconstruct_string h text ≡ ok q)
        × (q.header ≡ p.header)
        × (q.payload_length ≡ v)
        × (payload_string q ≡ ok a)
  unfolding deconstruct_string set_field header_fields six_fields
  deconstruct_string_cut v short reads =
      let (q, stores, hd_eq, n_eq, string_eq) =
        payload_string-store_payload p.header (fresh_payload h 0) a v (length-fresh_payload h 0 z)
          first_string
          (omega (arith, split.first_fits), λ big. absurd (omega (arith, split.first_fits))) in
      let f7 : Fields = record six_fields { payload_length = put (zeros 32) b } in
      (
        split_text,
        q,
        split_text-is,
        rw
            (scan_fields-split
              ∙ ap
                  (λ o.
                    or_crash (Option.map (λ m. record six_fields { payload_length = m }) o) >>= λ f.
                    scan_fields h (itoa p.payload_length ++ sep ∷ []) 7 (cur_block h 7) f)
                  (strcpy-zeros 32 b short)
              ∙ (scan_fields-end h (itoa p.payload_length) [] f7 z
                  (itoa-Lacks sep p.payload_length (λ d. omega arith) (omega arith))
                  (itoa-Lacks 0 p.payload_length (λ d. omega arith) (omega arith))
                  (omega (arith, length-itoa p.payload_length split.length_int))).1)
            (read_fields-header_fields h p.header a b v f7 split.header_ok first_string
                second_string reads refl
              ∙ stores),
        hd_eq,
        n_eq,
        string_eq ∙ ap ok (take-all 1024 a (omega (arith, split.first_fits))),
      )
