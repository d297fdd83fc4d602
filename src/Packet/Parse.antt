-- ===== src/Packet/Parse.antt =====
-- deconstruct_string and receive_packet of src/packet.c.
use mathlib.Core.Option
use csc361_a.Base.{
  ℕ, suc, ◌+◌, Bool, true, false, ◌&&◌, ◌||◌, Option, none, some, [], ◌∷◌, ◌==◌, leb, if◌then◌else◌,
  take, ltb, length, crash, Result, ok, exit, ◌>>=◌, or_crash,
}
use csc361_a.Base.Int.{ℤ, eqb_ℤ}
use csc361_a.Base.Text.{Bytes, c_string, strcpy, overlay}
use csc361_a.Base.Decimal.{atoi}
use csc361_a.Packet.{
  Packet, Heap, sep, dat, is_control, magic_hdr, packet_size, store_payload, fresh_payload,
  char_append,
}

-- The blocks that the fields are copied to, as raw memory.
pub record Fields : Type 0 where
  pub magic : Bytes
  pub type : Bytes
  pub seqno : Bytes
  pub ackno : Bytes
  pub winsize : Bytes
  pub payload : Bytes
  pub payload_length : Bytes

unfoldable pub fresh_fields : Heap → Fields
fresh_fields h = record {
  magic = h.block 1 88;
  type = h.block 2 32;
  seqno = h.block 3 32;
  ackno = h.block 4 32;
  winsize = h.block 5 32;
  payload = h.block 6 8192;
  payload_length = h.block 7 32;
}

-- The switch on the number of semicolons read, one of 1 to 7.
unfoldable pub set_field : ℕ → Bytes → Fields → Option Fields
set_field n s f =
    if n == 1
    then Option.map (λ m. record f { magic = m }) (strcpy f.magic s)
    else if n == 2
    then Option.map (λ m. record f { type = m }) (strcpy f.type s)
    else if n == 3
    then Option.map (λ m. record f { seqno = m }) (strcpy f.seqno s)
    else if n == 4
    then Option.map (λ m. record f { ackno = m }) (strcpy f.ackno s)
    else if n == 5
    then Option.map (λ m. record f { winsize = m }) (strcpy f.winsize s)
    else if n == 6
    then Option.map (λ m. record f { payload = m }) (strcpy f.payload s)
    else Option.map (λ m. record f { payload_length = m }) (strcpy f.payload_length s)

-- The block for the field that follows `n` semicolons.
unfoldable pub cur_block : Heap → ℕ → Bytes
cur_block h n = h.block (8 + n) 8192

-- The loop over the characters of the string, with num_semicolons and cur_field.
unfoldable pub scan_fields : Heap → Bytes → ℕ → Bytes → Fields → Result Fields
scan_fields h [] n cur f = ok f
scan_fields h (c ∷ s) n cur f = elim (c == sep) [
  | true ↦ elim (leb 7 n) [
    | true ↦ ok f
    | false ↦ do
      t ← or_crash (c_string cur)
      f' ← or_crash (set_field (suc n) t f)
      scan_fields h s (suc n) (cur_block h (suc n)) f'
  ]
  | false ↦ do cur' ← or_crash (char_append cur c); scan_fields h s n cur' f
]

unfoldable pub read_int : Bytes → Result ℤ
read_int m = do s ← or_crash (c_string m); or_crash (atoi s)

-- strcpy to header.magic, an array of 11 bytes.
unfoldable pub copy_magic : Bytes → Result Bytes
copy_magic s = if ltb (length s) 11 then ok s else crash

-- What follows the loop.
unfoldable pub read_fields : Heap → Fields → Result Packet
unfolding copy_magic read_int store_payload
read_fields h f = do
  magic_field ← or_crash (c_string f.magic)
  magic ← copy_magic magic_field
  type ← read_int f.type
  seqno ← read_int f.seqno
  ackno ← read_int f.ackno
  winsize ← read_int f.winsize
  payload ← or_crash (c_string f.payload)
  n ← read_int f.payload_length
  store_payload
      (record { magic = magic; type = type; seqno = seqno; ackno = ackno; winsize = winsize })
      (fresh_payload h 0) payload n

-- `buffer` is the string in the buffer.
unfoldable pub deconstruct_string : Heap → Bytes → Result Packet
unfolding fresh_fields scan_fields set_field cur_block read_fields
deconstruct_string h buffer = do
  f ← scan_fields h buffer 0 (cur_block h 0) (fresh_fields h)
  read_fields h f

-- strcmp(a, b) == 0
unfoldable pub eq_bytes : Bytes → Bytes → Bool
eq_bytes [] [] = true
eq_bytes (a ∷ s) (b ∷ t) = a == b && eq_bytes s t
eq_bytes _ _ = false

unfoldable pub check_packet : Packet → Result (Option Packet)
unfolding eq_bytes
check_packet p =
    if eq_bytes p.magic magic_hdr
    then if eqb_ℤ p.type dat || is_control p.type then ok (some p) else exit
    else ok none

-- The buffer after recvfrom: `none` is its failure or timeout, which changes nothing, and of a
-- datagram at most PACKET_SIZE bytes are taken.
unfoldable pub fill_buffer : Heap → Option Bytes → Result Bytes
fill_buffer h none = ok (h.block 32 12000)
fill_buffer h (some datagram) = or_crash (overlay (take packet_size datagram) (h.block 32 12000))

unfoldable pub receive_packet : Heap → Option Bytes → Result (Option Packet)
unfolding fill_buffer deconstruct_string check_packet
receive_packet h datagram = do
  buffer ← fill_buffer h datagram
  s ← or_crash (c_string buffer)
  p ← deconstruct_string h s
  check_packet p
