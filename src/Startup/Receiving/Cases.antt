-- ===== src/Startup/Receiving/Cases.antt =====
-- When main of src/rdpr.c ends before its loop, and when it comes to it.
use csc361_a.Base.{
  ℕ, ◌≡◌, ◌≢◌, refl, none, some, List, [], ◌∷◌, length, success, failure, arith, ◌⊎◌, inl, inr,
}
use csc361_a.Base.Action.{exit}
use csc361_a.Base.Int.{ℤ}
use csc361_a.Base.Text.{Bytes, codes}
use csc361_a.Base.Decimal.{atoi}
use csc361_a.Socket.{Env}
use csc361_a.Receiver.{Receiver, receiver_main}
use csc361_a.Startup.{Host, Address, Connection, to_port, setup_receiver}
use csc361_a.Startup.Refusal.{IsConnected, connect-cases, connect-ok}
use csc361_a.Startup.Receiving.{Arguments, arguments, receive_file, main}

-- The socket is set up at the address named, for a sender at 192.168.1.100:2699.
pub record IsReady (host : Host) (a : Arguments) (port : ℤ) : Type 0 where
  pub connection : Connection
  pub connected_lem :
      IsConnected host
        (λ c. c.adr_receiver)
        (codes "192.168.1.100")
        2699
        a.receiver_ip
        (to_port port)
        connection

-- The receiver with an empty array.
abbrev pub emptied : Receiver → Receiver
emptied r = record r { data_packets = [] }

arguments-cases :
    (argv : List Bytes)
    → ((length argv ≢ 4) × (arguments argv ≡ none))
      ⊎ ((length argv ≡ 4) × (a : Arguments) × (arguments argv ≡ some a))
arguments-cases [] = inl (omega arith, refl)
arguments-cases (_ ∷ []) = inl (omega arith, refl)
arguments-cases (_ ∷ _ ∷ []) = inl (omega arith, refl)
arguments-cases (_ ∷ _ ∷ _ ∷ []) = inl (omega arith, refl)
arguments-cases (_ ∷ b ∷ c ∷ d ∷ []) = inr (omega arith, _, refl)
arguments-cases (_ ∷ _ ∷ _ ∷ _ ∷ _ ∷ _) = inl (omega arith, refl)

module _ (host : Host) (env : Env) (fuel : ℕ) where
  pub receive_file-cases :
      (a : Arguments) (port : ℤ) (r : Receiver)
      → atoi a.receiver_port ≡ some port
      → ((receive_file host env fuel a r ≡ exit failure r) × ¬ IsReady host a port)
        ⊎ (IsReady host a port
            × (receive_file host env fuel a r
                ≡ receiver_main env fuel (host.output_fails a.filename) (emptied r)))
  unfolding receive_file setup_receiver
  receive_file-cases a port r p =
      let own : Connection → Address = λ c. c.adr_receiver in
      let ip = codes "192.168.1.100" in
      elim (connect-cases host own ip 2699 a.receiver_ip (to_port port)) [
        | inl e ↦ inl (
          rw (p, e) refl,
          λ i.
              let connected =
                connect-ok host own ip 2699 a.receiver_ip (to_port port) i.connection
                  i.connected_lem in
              cc,
        )
        | inr (c, i, e) ↦ inr (record { connection = c; connected_lem = i }, rw (p, e) refl)
      ]

  -- With a number for the port, main ends with exit(0) for any number of arguments but three; with
  -- three, it ends with exit(-1) if the socket cannot be set up, and otherwise it goes on to its
  -- loop with an empty array. Nothing is received or sent before.
  pub receive-cases :
      (argv : List Bytes) (r : Receiver)
      → ((a : Arguments)
          → arguments argv ≡ some a
          → (port : ℤ) × (atoi a.receiver_port ≡ some port))
      → ((length argv ≢ 4) × (main host env fuel argv r ≡ exit success r))
        ⊎ ((length argv ≡ 4)
            × (a : Arguments) × (port : ℤ) × (arguments argv ≡ some a)
            × (((main host env fuel argv r ≡ exit failure r) × ¬ IsReady host a port)
                ⊎ (IsReady host a port
                    × (main host env fuel argv r
                        ≡ receiver_main env fuel (host.output_fails a.filename) (emptied r)))))
  unfolding main
  receive-cases argv r ports = elim (arguments-cases argv) [
    | inl (n, e) ↦ inl (n, rw (main, e) refl)
    | inr (n, a, e) ↦
        let (port, p) = ports a e in
        inr (
          n,
          a,
          port,
          e,
          elim (receive_file-cases a port r p) [
            | inl (ended, unready) ↦ inl (rw (main, e) ended, unready)
            | inr (ready, same) ↦ inr (ready, rw (main, e) same)
          ],
        )
  ]
