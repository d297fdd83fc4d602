-- ===== src/Log/Line.antt =====
-- The line that print_log of src/rdps.c and src/rdpr.c prints.
use csc361_a.Base.{
  List, ℕ, ◌+◌, ◌^◌, ◌≤◌, ◌<◌, ◌≡◌, refl, ap, Bool, some, [], ◌∷◌, ◌++◌, arith, length,
  length-append, ok, crash, if◌then◌else◌, append-nil, append_assoc,
}
use csc361_a.Base.Int.{ℤ, pos}
use csc361_a.Base.Text.{
  Bytes, Lacks, Lacks-append, codes, c_string-append, c_string-Lacks, strcpy, length-zeros,
}
use csc361_a.Base.Decimal.{itoa, IsInt, length-itoa}
use csc361_a.Packet.{type_itos}
use csc361_a.Packet.Scan.{IsZeroed}
use csc361_a.Startup.{Address, Connection}
use csc361_a.Log.{
  Screen, strcats, green, cyan, normal, strip_newlines, event_letter, get_adr_string, print_log,
}
use csc361_a.Log.Strings.{
  HasString, strcpy-HasString, strcat-HasString, strcats-HasString, strcat-overrun, joined,
}
use csc361_a.Log.Parts.{
  address_text, itoa-no_nul, number-HasString, event_text, IsShort, color-IsShort, letter-IsShort,
  type_itos-IsShort, AllShort, weaken, number-IsShort, AllShort-joined, line_parts,
  line_parts-AllShort,
}

-- The screen works: its strings are strings, and its blocks have the size asked for.
pub record IsOrderly (screen : Screen) (n : ℕ) (time : Bytes) : Type 0 where
  pub zeroed : IsZeroed screen.heap
  pub static_size : length screen.static_buffer ≡ n
  pub ntoa_string : (ip : ℕ) → Lacks 0 (screen.inet_ntoa ip)
  pub ntoa_short : (ip : ℕ) → length (screen.inet_ntoa ip) ≤ 15
  pub time_is : screen.asctime ≡ time ++ 10 ∷ 0 ∷ []
  pub time_string : Lacks 0 time
  pub time_line : Lacks 10 time
  pub time_short : length time ≤ 100

module _ (screen : Screen) (n : ℕ) (time : Bytes) (o : IsOrderly screen n time) where
  block-size : (i k : ℕ) → length (screen.heap.block i k) ≡ k
  block-size i k = rw (o.zeroed i k) (length-zeros k)

  get_adr_string-HasString :
      (a : Address) (buffer : Bytes)
      → length buffer ≡ n
      → IsInt (pos a.port)
      → length (address_text screen a) < n
      → (m : Bytes) × (get_adr_string screen a buffer ≡ ok m)
        × HasString n (address_text screen a) m
  unfolding get_adr_string
  get_adr_string-HasString a buffer size port fits =
      let ip = screen.inet_ntoa a.ip in
      let pt = itoa (pos a.port) in
      let total = length-append ip (codes ":" ++ pt) in
      let whole : length (ip ++ (codes ":" ++ pt)) < n = fits in
      let (m1, e1, h1) = strcpy-HasString n buffer ip size (omega arith) (o.ntoa_string a.ip) in
      let (m2, e2, h2) =
        number-HasString (screen.heap.block 5 80) (pos a.port) (block-size 5 80) port in
      let same : codes ":" ++ (pt ++ []) ≡ codes ":" ++ pt =
        ap (λ t. codes ":" ++ t) (append-nil pt) in
      let (m3, e3, h3) =
        strcats-HasString n m1 ip (codes ":" ∷ pt ∷ []) h1 (rw same fits)
          ((omega arith, tt), (itoa-no_nul (pos a.port), tt)) in
      (m3, rw (e1, e2, h2.string_lem) e3, rw same at h3)

  strip_newlines-time :
      (t : Bytes) → Lacks 0 t → Lacks 10 t → strip_newlines (t ++ 10 ∷ 0 ∷ []) ≡ t ++ 0 ∷ 0 ∷ []
  unfolding strip_newlines
  strip_newlines-time [] _ _ = refl
  strip_newlines-time (c ∷ t) (h0, t0) (h10, t10) = ground (arith, strip_newlines-time t t0 t10)

  -- An address that does not fit the static buffer is written over its end.
  pub get_adr_string_overrun :
      (a : Address) (buffer : Bytes)
      → length buffer ≡ n
      → IsInt (pos a.port)
      → length (screen.inet_ntoa a.ip) + 1 < n
      → n ≤ length (address_text screen a)
      → get_adr_string screen a buffer ≡ crash
  unfolding get_adr_string strcats
  get_adr_string_overrun a buffer size port fits long =
      let ip = screen.inet_ntoa a.ip in
      let pt = itoa (pos a.port) in
      let (m1, e1, h1) = strcpy-HasString n buffer ip size (omega arith) (o.ntoa_string a.ip) in
      let (m2, e2, h2) =
        number-HasString (screen.heap.block 5 80) (pos a.port) (block-size 5 80) port in
      let whole : n ≤ length (ip ++ (codes ":" ++ pt)) = long in
      let part = length-append ip (codes ":") in
      let (m3, e3, h3) = strcat-HasString n m1 ip (codes ":") h1 (omega arith) (omega arith, tt) in
      rw
        (
          e1,
          e2,
          h2.string_lem,
          e3,
          strcat-overrun n m3 (ip ++ codes ":") pt h3 (rw append_assoc whole),
        )
        refl

  event-HasString :
      (sent unique : Bool)
      → (m : Bytes) × (m' : Bytes) × (strcpy (screen.heap.block 1 80) (if sent then green else cyan)
          ≡ some m)
        × (strcats m (event_letter sent unique ∷ normal ∷ []) ≡ ok m')
        × HasString 80 (event_text sent unique) m'
        × IsShort 10 (event_text sent unique)
  event-HasString sent unique =
      let color : Bytes = if sent then green else cyan in
      let (zc, nc) = color-IsShort sent in
      let (zl, nl) = letter-IsShort sent unique in
      let zn : Lacks 0 (joined (event_letter sent unique ∷ normal ∷ [])) =
        Lacks-append 0 (event_letter sent unique) normal zl (ground arith) in
      let total = length-append color (joined (event_letter sent unique ∷ normal ∷ [])) in
      let part = length-append (event_letter sent unique) normal in
      let (m1, e1, h1) =
        strcpy-HasString 80 (screen.heap.block 1 80) color (block-size 1 80) (omega arith) zc in
      let (m2, e2, h2) =
        strcats-HasString 80 m1 color (event_letter sent unique ∷ normal ∷ []) h1 (omega arith)
          (zl, (ground arith, tt)) in
      (m1, m2, e1, e2, h2, (Lacks-append 0 color _ zc zn, omega arith))

  address-IsShort :
      (a : Address) (m : Bytes)
      → HasString n (address_text screen a) m
      → IsInt (pos a.port)
      → IsShort 100 (address_text screen a)
  address-IsShort a m h port =
      let short_ip = o.ntoa_short a.ip in
      (
        c_string-Lacks m (address_text screen a) h.string_lem,
        omega (
          arith,
          length-append (screen.inet_ntoa a.ip) (codes ":" ++ itoa (pos a.port)),
          length-itoa (pos a.port) port,
        ),
      )

  -- The block full_log, with the time and the rest of the line.
  full_log-HasString :
      (parts : List Bytes)
      → AllShort parts
      → length parts ≤ 12
      → (m : Bytes) × (m' : Bytes) × (strcpy (screen.heap.block 4 1600) time ≡ some m)
        × (strcats m parts ≡ ok m')
        × HasString 1600 (time ++ joined parts) m'
  full_log-HasString parts short few =
      let k = o.time_short in
      let (lacks, total) = AllShort-joined parts short in
      let (m, e, h) =
        strcpy-HasString 1600 (screen.heap.block 4 1600) time (block-size 4 1600) (omega arith)
          o.time_string in
      let (m', e', h') =
        strcats-HasString 1600 m time parts h (omega (arith, length-append time (joined parts)))
          lacks in
      (m, m', e, e', h')

  -- On an orderly screen, with numbers that are ints and address strings that fit the static
  -- buffer, print_log prints the time, the event, then the receiver's address twice, and then the
  -- type and the two numbers, each behind a blank.
  pub print_log_lem :
      (c : Connection) (sent unique : Bool) (typeno number size : ℤ) (type : Bytes)
      → type_itos typeno ≡ ok type
      → IsInt number
      → IsInt size
      → c.adr_sender.port < 2 ^ 16
      → c.adr_receiver.port < 2 ^ 16
      → length (address_text screen c.adr_sender) < n
      → length (address_text screen c.adr_receiver) < n
      → print_log screen c sent unique typeno number size
        ≡ ok (
            joined (
              time
              ∷ line_parts
                  (event_text sent unique)
                  (address_text screen c.adr_receiver)
                  type
                  (itoa number)
                  (itoa size))
            ++ codes "\n")
  unfolding print_log
  print_log_lem c sent unique typeno number size type known number_int size_int ps pr fits_s
        fits_r =
      let r = address_text screen c.adr_receiver in
      let event = event_text sent unique in
      let (m1, e1, h1) =
        number-HasString (screen.heap.block 2 80) number (block-size 2 80) number_int in
      let (m2, e2, h2) =
        number-HasString (screen.heap.block 3 80) size (block-size 3 80) size_int in
      let (m3, m4, e3, e4, h4, short_event) = event-HasString sent unique in
      let (m5, e5, h5) =
        get_adr_string-HasString c.adr_sender screen.static_buffer o.static_size (omega arith)
          fits_s in
      let (m6, e6, h6) =
        get_adr_string-HasString c.adr_receiver m5 h5.size_lem (omega arith) fits_r in
      let (m7, m8, e7, e8, h8) =
        full_log-HasString (line_parts event r type (itoa number) (itoa size))
          (line_parts-AllShort event r type (itoa number) (itoa size)
            (weaken 10 event short_event (omega arith))
            (address-IsShort c.adr_receiver m6 h6 (omega arith))
            (weaken 3 type (type_itos-IsShort typeno type known) (omega arith))
            (number-IsShort number number_int) (number-IsShort size size_int))
          (omega arith) in
      rw
        (
          known,
          e1,
          e2,
          e3,
          e4,
          e5,
          e6,
          o.time_is,
          strip_newlines-time time o.time_string o.time_line,
          c_string-append time (0 ∷ []) o.time_string,
          h4.string_lem,
          h6.string_lem,
          h1.string_lem,
          h2.string_lem,
          e7,
          e8,
          h8.string_lem,
        )
        refl
