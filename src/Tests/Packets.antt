-- ===== src/Tests/Packets.antt =====
-- The theorems on src/packet.c.
use csc361_a.Base.{
  none, ◌≡◌, refl, true, false, some, [], ◌∷◌, ◌++◌, arith, ok, crash, ◌>>=◌, ◌⊎◌, exit,
}
use csc361_a.Base.Int.{pos, ◌+ℤ◌, eqb_ℤ}
use csc361_a.Base.Text.{Bytes, codes, c_string}
use csc361_a.Base.Decimal.{atoi}
use csc361_a.Packet.{
  Packet, magic_hdr, dat, fin, is_control, construct_string, payload_string, create_packet,
}
use csc361_a.Packet.Parse.{deconstruct_string, receive_packet, check_packet}
use csc361_a.Packet.Split.{fields, all_fit, guarded, make_packet, parse}
use csc361_a.Packet.Reading.{deconstruct_string-parse}
use csc361_a.Packet.Datagram.{text_of, receive_packet-fields}
use csc361_a.Packet.Fields.{IsHeader}
use csc361_a.Packet.RoundTrip.{IsSendable, deconstruct_string-construct_string}
use csc361_a.Packet.Receive.{is_known, receive_packet-construct_string, receive_packet-some}
use csc361_a.Packet.Semicolon.{IsSplit, deconstruct_string_overrun, deconstruct_string_cut}
use csc361_a.Packet.Create.{Carries, header_of, create_packet-dat, create_packet-control}
use csc361_a.Packet.Timeout.{receive_packet-timeout}
use csc361_a.Tests.{zero_heap, zero_heap-IsZeroed, hi, hi_header, hi_packet}

pub hi_header-IsHeader : IsHeader hi_header
hi_header-IsHeader = record {
  magic_text = ground arith;
  magic_string = ground arith;
  magic_short = omega arith;
  type_int = omega arith;
  seqno_int = omega arith;
  ackno_int = omega arith;
  winsize_int = omega arith;
}

pub hi_packet-IsSendable : IsSendable hi_packet hi
unfolding payload_string c_string
hi_packet-IsSendable = record {
  header_ok = hi_header-IsHeader;
  payload_is = refl;
  payload_text = ground arith;
  payload_fits = omega arith;
  full_payload = λ h. absurd (omega arith);
  length_int = omega arith;
}

deconstruct_string-construct_string_example :
    (text : Bytes) × (q : Packet) × (construct_string hi_packet ≡ ok text)
    × (deconstruct_string zero_heap text ≡ ok q)
    × (q.header ≡ hi_header)
    × (q.payload_length ≡ pos 2)
    × (payload_string q ≡ ok hi)
deconstruct_string-construct_string_example =
    deconstruct_string-construct_string zero_heap hi_packet hi zero_heap-IsZeroed
      hi_packet-IsSendable

receive_packet-construct_string_example :
    (text : Bytes) × (q : Packet) × (construct_string hi_packet ≡ ok text)
    × (receive_packet zero_heap (some text) ≡ ok (some q))
    × (q.header ≡ hi_header)
    × (q.payload_length ≡ pos 2)
    × (payload_string q ≡ ok hi)
unfolding eqb_ℤ
receive_packet-construct_string_example =
    receive_packet-construct_string zero_heap hi_packet hi zero_heap-IsZeroed hi_packet-IsSendable
      refl refl

-- A packet that arrives.
arrival :
    (text : Bytes) × (q : Packet) × (construct_string hi_packet ≡ ok text)
    × (receive_packet zero_heap (some text) ≡ ok (some q))
    × (q.header ≡ hi_header)
    × (q.payload_length ≡ pos 2)
    × (payload_string q ≡ ok hi)
unfolding eqb_ℤ
arrival =
    receive_packet-construct_string zero_heap hi_packet hi zero_heap-IsZeroed hi_packet-IsSendable
      refl refl

receive_packet-some_example : (arrival.1.magic ≡ magic_hdr) × (is_known arrival.1.type ≡ true)
receive_packet-some_example = receive_packet-some zero_heap (some arrival.0) arrival.3

-- Payloads with a semicolon: "h;7", and "h;" with 32 letters behind it.
abbrev cut_packet : Packet
cut_packet = record { header = hi_header; payload = 104 ∷ 59 ∷ 55 ∷ 0 ∷ []; payload_length = pos 3 }

abbrev letters : Bytes
letters =
    97 ∷ 97 ∷ 97 ∷ 97 ∷ 97 ∷ 97 ∷ 97 ∷ 97 ∷ 97 ∷ 97 ∷ 97 ∷ 97 ∷ 97 ∷ 97 ∷ 97 ∷ 97 ∷ 97 ∷ 97 ∷ 97
    ∷ 97 ∷ 97 ∷ 97 ∷ 97 ∷ 97 ∷ 97 ∷ 97 ∷ 97 ∷ 97 ∷ 97 ∷ 97 ∷ 97 ∷ 97 ∷ []

abbrev overrun_packet : Packet
overrun_packet = record {
  header = hi_header;
  payload = 104 ∷ 59 ∷ (letters ++ 0 ∷ []);
  payload_length = pos 34;
}

cut_packet-IsSplit : IsSplit cut_packet (104 ∷ []) (55 ∷ [])
unfolding payload_string c_string
cut_packet-IsSplit = record {
  header_ok = hi_header-IsHeader;
  length_int = omega arith;
  payload_is = refl;
  first_text = ground arith;
  second_text = ground arith;
  first_fits = omega arith;
  second_fits = omega arith;
}

overrun_packet-IsSplit : IsSplit overrun_packet (104 ∷ []) letters
unfolding payload_string c_string
overrun_packet-IsSplit = record {
  header_ok = hi_header-IsHeader;
  length_int = omega arith;
  payload_is = refl;
  first_text = ground arith;
  second_text = ground arith;
  first_fits = omega arith;
  second_fits = omega arith;
}

deconstruct_string_overrun_example :
    (text : Bytes) × (construct_string overrun_packet ≡ ok text)
    × (deconstruct_string zero_heap text ≡ crash)
deconstruct_string_overrun_example =
    deconstruct_string_overrun zero_heap overrun_packet (104 ∷ []) letters zero_heap-IsZeroed
      overrun_packet-IsSplit (omega arith)

deconstruct_string_cut_example :
    (text : Bytes) × (q : Packet) × (construct_string cut_packet ≡ ok text)
    × (deconstruct_string zero_heap text ≡ ok q)
    × (q.header ≡ hi_header)
    × (q.payload_length ≡ pos 7)
    × (payload_string q ≡ ok (104 ∷ []))
unfolding atoi
deconstruct_string_cut_example =
    deconstruct_string_cut zero_heap cut_packet (104 ∷ []) (55 ∷ []) zero_heap-IsZeroed
      cut_packet-IsSplit (pos 7) (omega arith) refl

create_packet-dat_example :
    (p : Packet) × (create_packet zero_heap (104 ∷ 105 ∷ 0 ∷ []) 2 dat (pos 2) ≡ ok p)
    × Carries (header_of dat (pos 2) (pos 2 +ℤ pos 2)) (pos 2) hi p
unfolding c_string ◌+ℤ◌
create_packet-dat_example =
    create_packet-dat zero_heap (104 ∷ 105 ∷ 0 ∷ []) hi 2 (pos 2) zero_heap-IsZeroed refl
      (omega arith) (omega arith, λ h. absurd (omega arith)) (omega arith) (omega arith)
      (omega arith)

create_packet-control_example :
    ((is_control fin ≡ true)
      × (p : Packet) × (create_packet zero_heap [] 0 fin (pos 9) ≡ ok p)
      × Carries (header_of fin (pos 9) (pos 9 +ℤ pos 1)) (pos 0) [] p)
    ⊎ ((is_control fin ≡ false) × (create_packet zero_heap [] 0 fin (pos 9) ≡ exit))
unfolding ◌+ℤ◌
create_packet-control_example =
    create_packet-control zero_heap [] [] 0 fin (pos 9) zero_heap-IsZeroed refl tt (omega arith)
      (λ e. cc) (omega arith) (omega arith) (omega arith)

receive_packet-timeout_example : receive_packet zero_heap none ≡ ok none
receive_packet-timeout_example = receive_packet-timeout zero_heap zero_heap-IsZeroed

-- A text with a field too many and one that is no field.
abbrev odd_text : Bytes
odd_text = codes "UVicCSc361;1;2;;4;;7;8;9"

deconstruct_string-parse_example : deconstruct_string zero_heap odd_text ≡ parse zero_heap odd_text
deconstruct_string-parse_example =
    deconstruct_string-parse zero_heap odd_text zero_heap-IsZeroed (ground arith)

receive_packet-fields_example : receive_packet zero_heap (some odd_text) ≡ (
    guarded (all_fit 0 (fields 7 (text_of odd_text))) (fields 7 (text_of odd_text)) >>= λ fs.
    make_packet zero_heap fs >>= check_packet)
receive_packet-fields_example = receive_packet-fields zero_heap odd_text zero_heap-IsZeroed
