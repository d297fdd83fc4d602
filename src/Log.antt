-- ===== src/Log.antt =====
-- What src/rdps.c and src/rdpr.c print, and the memory that it is put together in. The two programs
-- have the same print_log and get_adrString.
pub mod Strings
pub mod Parts
pub mod Line
pub mod Report
pub mod Statistics
use csc361_a.Base.{
  ℕ, ◌==◌, ◌*◌, Bool, true, false, List, [], ◌∷◌, ◌++◌, Result, ok, ◌>>=◌, or_crash, if◌then◌else◌,
  Option, none, some,
}
use csc361_a.Base.Int.{ℤ, pos}
use csc361_a.Base.Text.{Bytes, codes, c_string, strcpy}
use csc361_a.Base.Decimal.{itoa}
use csc361_a.Packet.{Heap, type_itos}
use csc361_a.Startup.{Address, Connection}

-- `inet_ntoa`: what it writes for an address. `static_buffer`: the memory that it writes it to, the
-- same in every call. `asctime`: the memory with the time, which ends in a newline and a NUL.
pub record Screen : Type 0 where
  pub inet_ntoa : ℕ → Bytes
  pub static_buffer : Bytes
  pub asctime : Bytes
  pub heap : Heap

-- strcat: the string is written over the NUL of the one in the block; `none` if it does not fit.
unfoldable pub strcat : Bytes → Bytes → Option Bytes
strcat m s = elim (c_string m) [ none ↦ none | some t ↦ strcpy m (t ++ s) ]

-- One strcat after another.
unfoldable pub strcats : Bytes → List Bytes → Result Bytes
unfolding strcat
strcats m [] = ok m
strcats m (s ∷ ss) = do m' ← or_crash (strcat m s); strcats m' ss

-- The escape sequences KGRN, KCYN and KNRM
abbrev pub green : Bytes
green = 27 ∷ codes "[32m"

abbrev pub cyan : Bytes
cyan = 27 ∷ codes "[36m"

abbrev pub normal : Bytes
normal = 27 ∷ codes "[0m"

-- Every newline is overwritten with a NUL.
unfoldable pub strip_newlines : Bytes → Bytes
strip_newlines [] = []
strip_newlines (c ∷ m) =
    let rest = strip_newlines m in if c == 0 then c ∷ m else if c == 10 then 0 ∷ rest else c ∷ rest

-- The letter for a packet sent or received.
abbrev pub event_letter : Bool → Bool → Bytes
event_letter true true = codes "s"
event_letter true false = codes "S"
event_letter false true = codes "r"
event_letter false false = codes "R"

module _ (screen : Screen) where
  -- `buffer` is the static buffer before, and the result the one after: the pointer that is
  -- returned points there.
  unfoldable pub get_adr_string : Address → Bytes → Result Bytes
  unfolding strcats
  get_adr_string address buffer = do
    ip ← or_crash (strcpy buffer (screen.inet_ntoa address.ip))
    strport ← or_crash (strcpy (screen.heap.block 5 80) (itoa (pos address.port)))
    pt ← or_crash (c_string strport)
    strcats ip (codes ":" ∷ pt ∷ [])

  -- Both addresses are read from the static buffer after the second call, in either branch.
  unfoldable pub print_log : Connection → Bool → Bool → ℤ → ℤ → ℤ → Result Bytes
  unfolding get_adr_string strip_newlines
  print_log c sent unique typeno number length = do
    type ← type_itos typeno
    no_block ← or_crash (strcpy (screen.heap.block 2 80) (itoa number))
    length_block ← or_crash (strcpy (screen.heap.block 3 80) (itoa length))
    color ← or_crash (strcpy (screen.heap.block 1 80) (if sent then green else cyan))
    event_block ← strcats color (event_letter sent unique ∷ normal ∷ [])
    first ← get_adr_string c.adr_sender screen.static_buffer
    second ← get_adr_string c.adr_receiver first
    current_time ← or_crash (c_string (strip_newlines screen.asctime))
    event_type ← or_crash (c_string event_block)
    source_adr ← or_crash (c_string second)
    dest_adr ← or_crash (c_string second)
    seqackno ← or_crash (c_string no_block)
    payloadwindow ← or_crash (c_string length_block)
    let space = codes " "
    start ← or_crash (strcpy (screen.heap.block 4 1600) current_time)
    full_log ← strcats start (
        space ∷ event_type ∷ space ∷ source_adr ∷ space ∷ dest_adr ∷ space ∷ type ∷ space ∷ seqackno
        ∷ space ∷ payloadwindow ∷ [])
    line ← or_crash (c_string full_log)
    ok (line ++ codes "\n")
