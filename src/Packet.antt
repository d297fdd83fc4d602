-- ===== src/Packet.antt =====
-- src/packet.h and src/packet.c: the packets and their text form. The layout is that of the
-- x86-64 ABI: pointers have 8 bytes, ints have 4 bytes, the lowest first, and in struct packet the
-- 28 bytes of the header are followed by the payload array and then by payload_length.
pub mod Parse
pub mod Payload
pub mod Scan
pub mod Create
pub mod Fields
pub mod RoundTrip
pub mod Semicolon
pub mod Split
pub mod Reading
pub mod Datagram
pub mod Size
pub mod Receive
pub mod Timeout
pub mod Control
use mathlib.Core.Option
use csc361_a.Base.{
  ℕ, suc, ◌+◌, ◌-◌, ◌*◌, ◌/◌, ◌%◌, ◌^◌, Bool, true, false, ◌&&◌, ◌||◌, Option, none, some, List, [],
  ◌∷◌, ◌++◌, ◌==◌, ltb, leb, if◌then◌else◌, length, take, drop, Result, ok, exit, crash, failure,
  ◌>>=◌, or_crash, set,
}
use csc361_a.Base.Int.{ℤ, pos, negsuc, ◌+ℤ◌, eqb_ℤ}
use csc361_a.Base.Text.{Bytes, codes, c_string, strcpy, overlay}
use csc361_a.Base.Decimal.{itoa, atoi}

-- (WINDOW_SIZE is 1024*10)
abbrev pub window_size : ℕ
window_size = 10240

abbrev pub packet_size : ℕ
packet_size = 1500

abbrev pub max_payload_size : ℕ
max_payload_size = 1024

abbrev pub max_packets : ℕ
max_packets = 50000

-- MAGIC_HDR
abbrev pub magic_hdr : Bytes
magic_hdr = codes "UVicCSc361"

-- enum packet_types, as the ints that a header holds
abbrev pub dat : ℤ
dat = pos 0

abbrev pub ack : ℤ
ack = pos 1

abbrev pub syn : ℤ
syn = pos 2

abbrev pub fin : ℤ
fin = pos 3

abbrev pub rst : ℤ
rst = pos 4

-- `magic` is the C string in the array. One that is too long for it runs on into the ints behind
-- it, which are then assigned.
pub record PacketHdr : Type 0 where
  pub magic : Bytes
  pub type : ℤ
  pub seqno : ℤ
  pub ackno : ℤ
  pub winsize : ℤ

-- `payload` is the whole array of 1024 bytes, also what stands behind a NUL in it.
pub record Packet : Type 0 where
  pub header : PacketHdr
  pub open header use *
  pub payload : Bytes
  pub payload_length : ℤ

-- What the C library gives that the program does not determine: the bytes that malloc's blocks
-- hold, by the allocation's number in the call and its size, and the string at a pointer that was
-- never set (`none` if it cannot be read).
pub record Heap : Type 0 where
  pub block : ℕ → ℕ → Bytes
  pub stray : Option Bytes

-- The four bytes of an int, the lowest first.
abbrev pub le_bytes : ℤ → Bytes
le_bytes (pos n) = n % 256 ∷ n / 256 % 256 ∷ n / 65536 % 256 ∷ n / 16777216 % 256 ∷ []
le_bytes (negsuc n) =
    (255 - n % 256)
    ∷ (255 - n / 256 % 256)
    ∷ (255 - n / 65536 % 256)
    ∷ (255 - n / 16777216 % 256)
    ∷ []

-- strcpy(pckt->payload, s); pckt->payload_length = n; on a struct whose payload array and length
-- hold `mem`. A string of 1024 to 1027 bytes runs into payload_length, which is assigned after it.
unfoldable pub store_payload : PacketHdr → Bytes → Bytes → ℤ → Result Packet
store_payload header mem s n = do
  m ← or_crash (strcpy mem s)
  ok (record { header = header; payload = take max_payload_size m; payload_length = n })

-- The string that a read of pckt->payload finds: it goes on into payload_length.
unfoldable pub payload_string : Packet → Result Bytes
payload_string p = or_crash (c_string (p.payload ++ le_bytes p.payload_length))

-- The memory of a fresh struct packet, from the payload on.
abbrev pub fresh_payload : Heap → ℕ → Bytes
fresh_payload h i = drop 28 (h.block i 1056)

abbrev pub is_control : ℤ → Bool
is_control t = eqb_ℤ t syn || eqb_ℤ t ack || eqb_ℤ t fin || eqb_ℤ t rst

-- The part after the switch; `pckt_data` is the string that it points to.
unfoldable pub finish_packet : Heap → Bytes → ℕ → ℤ → ℤ → ℤ → Result Packet
unfolding store_payload
finish_packet h pckt_data data_length pckt_type seqno ackno =
    store_payload
      (record {
        magic = magic_hdr;
        type = pckt_type;
        seqno = seqno;
        ackno = ackno;
        winsize = pos window_size;
      })
      (fresh_payload h 2) pckt_data (pos data_length)

-- The case DAT: the string at `src` is copied into a block of its own first.
unfoldable pub create_dat : Heap → Bytes → ℕ → ℤ → Result Packet
unfolding finish_packet
create_dat h src data_length seqno = do
  s ← or_crash (c_string src)
  _ ← or_crash (strcpy (h.block 0 (8 * data_length)) s)
  finish_packet h s data_length dat seqno (seqno +ℤ pos data_length)

-- The other cases leave pckt_data unset.
unfoldable pub create_control : Heap → ℕ → ℤ → ℤ → Result Packet
unfolding finish_packet
create_control h data_length pckt_type seqno = do
  s ← or_crash h.stray
  finish_packet h s data_length pckt_type seqno (seqno +ℤ pos 1)

-- `src` is the memory from the pointer `data` on.
unfoldable pub create_packet : Heap → Bytes → ℕ → ℤ → ℤ → Result Packet
unfolding create_dat create_control
create_packet h src data_length pckt_type seqno =
    if eqb_ℤ pckt_type dat
    then create_dat h src data_length seqno
    else if is_control pckt_type
    then create_control h data_length pckt_type seqno
    else exit

-- `data_packets` is the entries before the first null pointer of an array of `size` entries.
unfoldable pub add_packet : ℕ → Packet → List Packet → Result (List Packet)
add_packet size pckt data_packets =
    if eqb_ℤ pckt.type dat
    then if ltb (length data_packets) size then ok (data_packets ++ pckt ∷ []) else crash
    else exit

abbrev pub sep : ℕ
sep = b';'

unfoldable pub type_itos : ℤ → Result Bytes
type_itos t =
    if eqb_ℤ t syn
    then ok (codes "SYN")
    else if eqb_ℤ t dat
    then ok (codes "DAT")
    else if eqb_ℤ t ack
    then ok (codes "ACK")
    else if eqb_ℤ t fin
    then ok (codes "FIN")
    else if eqb_ℤ t rst
    then ok (codes "RST")
    else exit

-- The fields before the payload, each with its separator, and then `rest`.
abbrev pub header_text : PacketHdr → Bytes → Bytes
header_text hd rest =
    hd.magic
    ++ sep
      ∷ (itoa hd.type
          ++ sep
            ∷ (itoa hd.seqno ++ sep ∷ (itoa hd.ackno ++ sep ∷ (itoa hd.winsize ++ sep ∷ rest))))

-- (The arrays that sprintf prints to are taken to be large enough.)
unfoldable pub construct_string : Packet → Result Bytes
unfolding payload_string
construct_string p = do
  payload ← payload_string p
  ok (header_text p.header (payload ++ sep ∷ (itoa p.payload_length ++ sep ∷ [])))

-- charAppend: the byte is written over the NUL that ends the string in the block.
unfoldable pub char_append : Bytes → ℕ → Option Bytes
char_append s c = Option.map (λ t. set s (length t) c) (c_string s)
