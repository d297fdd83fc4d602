-- ===== src/Packet/Fields.antt =====
-- deconstruct_string on the header of a packet's text, field by field.
use mathlib.Core.Option
use mathlib.Core.Option.{Option}
use csc361_a.Base.{
  lt→ltb, ℕ, suc, ◌<◌, ◌≡◌, refl, ap, ◌∙◌, some, ◌∷◌, ◌++◌, arith, length, drop, ok, or_crash,
  ◌>>=◌,
}
use csc361_a.Base.Int.{ℤ}
use csc361_a.Base.Text.{Bytes, Lacks, strcpy, zeros, length-zeros, put, strcpy-put, c_string-append}
use csc361_a.Base.Decimal.{itoa, atoi, IsInt, atoi-itoa, itoa-Lacks, length-itoa}
use csc361_a.Packet.{PacketHdr, Heap, sep, header_text, fresh_payload, store_payload}
use csc361_a.Packet.Parse.{
  Fields, set_field, cur_block, scan_fields, fresh_fields, read_int, read_fields, copy_magic,
}
use csc361_a.Packet.Scan.{IsZeroed, scan_fields-field}

-- A header that is spelled without loss: its numbers are ints, and its magic string is short and
-- holds neither a NUL nor a semicolon.
pub record IsHeader (hd : PacketHdr) : Type 0 where
  pub magic_text : Lacks sep hd.magic
  pub magic_string : Lacks 0 hd.magic
  pub magic_short : length hd.magic < 11
  pub type_int : IsInt hd.type
  pub seqno_int : IsInt hd.seqno
  pub ackno_int : IsInt hd.ackno
  pub winsize_int : IsInt hd.winsize

-- The blocks after the first five fields.
unfoldable pub header_fields : Heap → PacketHdr → Fields
header_fields h hd = record {
  magic = put (zeros 88) hd.magic;
  type = put (zeros 32) (itoa hd.type);
  seqno = put (zeros 32) (itoa hd.seqno);
  ackno = put (zeros 32) (itoa hd.ackno);
  winsize = put (zeros 32) (itoa hd.winsize);
  payload = zeros 8192;
  payload_length = zeros 32;
}

unfoldable pub zero_fields : Fields
zero_fields = record {
  magic = zeros 88;
  type = zeros 32;
  seqno = zeros 32;
  ackno = zeros 32;
  winsize = zeros 32;
  payload = zeros 8192;
  payload_length = zeros 32;
}

pub fresh_fields-zero : (h : Heap) → IsZeroed h → fresh_fields h ≡ zero_fields
unfolding fresh_fields zero_fields
fresh_fields-zero h z = λ i. record {
  magic = z 1 88 i;
  type = z 2 32 i;
  seqno = z 3 32 i;
  ackno = z 4 32 i;
  winsize = z 5 32 i;
  payload = z 6 8192 i;
  payload_length = z 7 32 i;
}

pub strcpy-zeros : (n : ℕ) (s : Bytes) → length s < n → strcpy (zeros n) s ≡ some (put (zeros n) s)
strcpy-zeros n s h = strcpy-put (zeros n) s (rw length-zeros h)

-- A number fits the 32 bytes of its field, and its digits are no separators.
pub scan_fields-put :
    (h : Heap) (s rest : Bytes) (n : ℕ) (f f' : Fields)
    → IsZeroed h
    → Lacks sep s
    → Lacks 0 s
    → length s < 8192
    → n < 7
    → set_field (suc n) s f ≡ some f'
    → scan_fields h (s ++ sep ∷ rest) n (cur_block h n) f
      ≡ scan_fields h rest (suc n) (cur_block h (suc n)) f'
scan_fields-put h s rest n f f' z hs zs fits lt e =
    scan_fields-field h s rest n f z hs zs fits lt
    ∙ ap (λ o. or_crash o >>= λ g. scan_fields h rest (suc n) (cur_block h (suc n)) g) e

pub scan_fields-itoa :
    (h : Heap) (v : ℤ) (rest : Bytes) (n : ℕ) (f f' : Fields)
    → IsZeroed h
    → IsInt v
    → n < 7
    → set_field (suc n) (itoa v) f ≡ some f'
    → scan_fields h (itoa v ++ sep ∷ rest) n (cur_block h n) f
      ≡ scan_fields h rest (suc n) (cur_block h (suc n)) f'
scan_fields-itoa h v rest n f f' z v_int lt e =
    scan_fields-put h (itoa v) rest n f f' z (itoa-Lacks sep v (λ d. omega arith) (omega arith))
      (itoa-Lacks 0 v (λ d. omega arith) (omega arith)) (omega (arith, length-itoa v v_int)) lt e

pub strcpy-itoa : (v : ℤ) → IsInt v → strcpy (zeros 32) (itoa v) ≡ some (put (zeros 32) (itoa v))
strcpy-itoa v v_int = strcpy-zeros 32 (itoa v) (omega (arith, length-itoa v v_int))

-- The five fields of the header are read into their blocks, whatever follows them.
pub scan_fields-header_text :
    (h : Heap) (hd : PacketHdr) (rest : Bytes)
    → IsZeroed h
    → IsHeader hd
    → scan_fields h (header_text hd rest) 0 (cur_block h 0) (fresh_fields h)
      ≡ scan_fields h rest 5 (cur_block h 5) (header_fields h hd)
unfolding zero_fields header_fields set_field
scan_fields-header_text h hd rest z ok_hd =
    let f1 : Fields = record zero_fields { magic = put (zeros 88) hd.magic } in
    let f2 : Fields = record f1 { type = put (zeros 32) (itoa hd.type) } in
    let f3 : Fields = record f2 { seqno = put (zeros 32) (itoa hd.seqno) } in
    let f4 : Fields = record f3 { ackno = put (zeros 32) (itoa hd.ackno) } in
    let f5 : Fields = record f4 { winsize = put (zeros 32) (itoa hd.winsize) } in
    rw (fresh_fields-zero h z) (
      scan_fields-put h hd.magic _ 0 zero_fields f1 z ok_hd.magic_text ok_hd.magic_string
        (omega arith) (omega arith)
        (ap (Option.map (λ m. record zero_fields { magic = m }))
          (strcpy-zeros 88 hd.magic (omega (arith, ok_hd.magic_short))))
      ∙ scan_fields-itoa h hd.type _ 1 f1 f2 z ok_hd.type_int (omega arith)
          (ap (Option.map (λ m. record f1 { type = m })) (strcpy-itoa hd.type ok_hd.type_int))
      ∙ scan_fields-itoa h hd.seqno _ 2 f2 f3 z ok_hd.seqno_int (omega arith)
          (ap (Option.map (λ m. record f2 { seqno = m })) (strcpy-itoa hd.seqno ok_hd.seqno_int))
      ∙ scan_fields-itoa h hd.ackno _ 3 f3 f4 z ok_hd.ackno_int (omega arith)
          (ap (Option.map (λ m. record f3 { ackno = m })) (strcpy-itoa hd.ackno ok_hd.ackno_int))
      ∙ scan_fields-itoa h hd.winsize _ 4 f4 f5 z ok_hd.winsize_int (omega arith) (
          ap (Option.map (λ m. record f4 { winsize = m }))
            (strcpy-itoa hd.winsize ok_hd.winsize_int)))

read_int-itoa : (v : ℤ) → IsInt v → read_int (put (zeros 32) (itoa v)) ≡ ok v
unfolding read_int
read_int-itoa v v_int =
    rw
      (
        c_string-append (itoa v) (drop (suc (length (itoa v))) (zeros 32))
            (itoa-Lacks 0 v (λ d. omega arith) (omega arith)),
        atoi-itoa v v_int,
      )
      refl

-- With the header's five fields read, the packet is made from the strings in the last two blocks.
pub read_fields-header_fields :
    (h : Heap) (hd : PacketHdr) (payload digits : Bytes) (n : ℤ) (f : Fields)
    → IsHeader hd
    → Lacks 0 payload
    → Lacks 0 digits
    → atoi digits ≡ some n
    → f ≡ record (header_fields h hd) {
      payload = put (zeros 8192) payload;
      payload_length = put (zeros 32) digits;
    }
    → read_fields h f ≡ store_payload hd (fresh_payload h 0) payload n
unfolding read_fields copy_magic header_fields read_int
read_fields-header_fields h hd payload digits n f ok_hd zs zd reads e =
    rw
      (
        e,
        c_string-append hd.magic (drop (suc (length hd.magic)) (zeros 88)) ok_hd.magic_string,
        lt→ltb (length hd.magic) 11 ok_hd.magic_short,
        read_int-itoa hd.type ok_hd.type_int,
        read_int-itoa hd.seqno ok_hd.seqno_int,
        read_int-itoa hd.ackno ok_hd.ackno_int,
        read_int-itoa hd.winsize ok_hd.winsize_int,
        c_string-append payload (drop (suc (length payload)) (zeros 8192)) zs,
        c_string-append digits (drop (suc (length digits)) (zeros 32)) zd,
        reads,
      )
      refl
