-- ===== src/Startup/Sending/Cases.antt =====
-- When main of src/rdps.c ends before the transfer, and when it comes to it.
use csc361_a.Base.{
  ℕ, ◌+◌, ◌≡◌, ◌≢◌, refl, true, none, some, List, [], ◌∷◌, length, success, failure, arith, ◌⊎◌,
  inl, inr,
}
use csc361_a.Base.Action.{exit}
use csc361_a.Base.Int.{ℤ}
use csc361_a.Base.Text.{Bytes}
use csc361_a.Base.Decimal.{atoi}
use csc361_a.Packet.{Heap, max_payload_size}
use csc361_a.Socket.{Env}
use csc361_a.Sender.State.{Sender}
use csc361_a.Sender.Packetize.{num_packets}
use csc361_a.Startup.{Host, Address, Connection, to_port, scan_array, setup_sender}
use csc361_a.Startup.Refusal.{
  IsRead, IsConnected, read_file-cases, read_file-ok, connect-cases, connect-ok,
}
use csc361_a.Startup.Sending.{Arguments, arguments, send_file, transfer_file, main}

pub record HasPorts (a : Arguments) : Type 0 where
  pub sender_port : ℤ
  pub receiver_port : ℤ
  pub sender_lem : atoi a.sender_port ≡ some sender_port
  pub receiver_lem : atoi a.receiver_port ≡ some receiver_port

-- The file is read, and the socket is set up at the addresses named.
pub record IsReady (host : Host) (a : Arguments) (p : HasPorts a) (bytes : Bytes) : Type 0 where
  pub connection : Connection
  pub read_lem : IsRead host a.filename bytes
  pub connected_lem :
      IsConnected host
        (λ c. c.adr_sender)
        a.sender_ip
        (to_port p.sender_port)
        a.receiver_ip
        (to_port p.receiver_port)
        connection

arguments-cases :
    (argv : List Bytes)
    → ((length argv ≢ 6) × (arguments argv ≡ none))
      ⊎ ((length argv ≡ 6) × (a : Arguments) × (arguments argv ≡ some a))
arguments-cases [] = inl (omega arith, refl)
arguments-cases (_ ∷ []) = inl (omega arith, refl)
arguments-cases (_ ∷ _ ∷ []) = inl (omega arith, refl)
arguments-cases (_ ∷ _ ∷ _ ∷ []) = inl (omega arith, refl)
arguments-cases (_ ∷ _ ∷ _ ∷ _ ∷ []) = inl (omega arith, refl)
arguments-cases (_ ∷ _ ∷ _ ∷ _ ∷ _ ∷ []) = inl (omega arith, refl)
arguments-cases (_ ∷ b ∷ c ∷ d ∷ e ∷ f ∷ []) = inr (omega arith, _, refl)
arguments-cases (_ ∷ _ ∷ _ ∷ _ ∷ _ ∷ _ ∷ _ ∷ _) = inl (omega arith, refl)

module _ (host : Host) (env : Env) (heaps : ℕ → Heap) (fuel : ℕ) where
  pub send_file-cases :
      (a : Arguments) (s : Sender)
      → (p : HasPorts a) → ((n : ℕ) → host.meets_word n ≡ true)
      → ((send_file host env heaps fuel a s ≡ exit failure s)
          × ((bytes : Bytes) → ¬ IsReady host a p bytes))
        ⊎ ((bytes : Bytes) × IsReady host a p bytes
            × (send_file host env heaps fuel a s ≡ transfer_file env heaps fuel bytes s))
  unfolding send_file setup_sender scan_array
  send_file-cases a s p scan =
      let own : Connection → Address = λ c. c.adr_sender in
      let sp = to_port p.sender_port in
      let rp = to_port p.receiver_port in
      elim (read_file-cases host a.filename) [
        | inl e ↦ inl (
          rw (p.sender_lem, p.receiver_lem, e) refl,
          λ bytes i. let ok_read = read_file-ok host a.filename bytes i.read_lem in cc,
        )
        | inr (bytes, r, e) ↦ elim (connect-cases host own a.sender_ip sp a.receiver_ip rp) [
          | inl e' ↦ inl (
            rw
                (
                  p.sender_lem,
                  p.receiver_lem,
                  e,
                  scan (num_packets (length bytes) max_payload_size + 1),
                  e',
                )
                refl,
            λ bytes' i.
                let ok_connect =
                  connect-ok host own a.sender_ip sp a.receiver_ip rp i.connection
                    i.connected_lem in
                cc,
          )
          | inr (c, i, e') ↦ inr (
            bytes,
            record { connection = c; read_lem = r; connected_lem = i },
            rw
                (
                  p.sender_lem,
                  p.receiver_lem,
                  e,
                  scan (num_packets (length bytes) max_payload_size + 1),
                  e',
                )
                refl,
          )
        ]
      ]

  -- With numbers for the two ports, and if the loop over the empty array meets a word behind it:
  -- main ends with exit(0) for any number of arguments but five; with five, it ends with exit(-1)
  -- if the file cannot be opened or read to its end, or the socket cannot be set up, and
  -- otherwise it goes on to cut and send the bytes of the file. Nothing is sent before.
  pub main-cases :
      (argv : List Bytes) (s : Sender)
      → ((a : Arguments) → arguments argv ≡ some a → HasPorts a)
      → ((n : ℕ) → host.meets_word n ≡ true)
      → ((length argv ≢ 6) × (main host env heaps fuel argv s ≡ exit success s))
        ⊎ ((length argv ≡ 6)
            × (a : Arguments) × (p : HasPorts a) × (arguments argv ≡ some a)
            × (((main host env heaps fuel argv s ≡ exit failure s)
                  × ((bytes : Bytes) → ¬ IsReady host a p bytes))
                ⊎ ((bytes : Bytes) × IsReady host a p bytes
                    × (main host env heaps fuel argv s ≡ transfer_file env heaps fuel bytes s))))
  unfolding main
  main-cases argv s ports scan = elim (arguments-cases argv) [
    | inl (n, e) ↦ inl (n, rw (main, e) refl)
    | inr (n, a, e) ↦
        let p = ports a e in
        inr (
          n,
          a,
          p,
          e,
          elim (send_file-cases a s p scan) [
            | inl (ended, unready) ↦ inl (rw (main, e) ended, unready)
            | inr (bytes, ready, same) ↦ inr (bytes, ready, rw (main, e) same)
          ],
        )
  ]
