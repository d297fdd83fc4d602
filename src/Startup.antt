-- ===== src/Startup.antt =====
-- main of src/rdps.c and src/rdpr.c up to the transfer, with setup_connection. What the files and
-- the kernel answer is the host's: a parameter.
pub mod Sending
pub mod Receiving
pub mod Refusal
use csc361_a.Base.{
  ℕ, ◌+◌, ◌-◌, ◌%◌, ◌^◌, ◌==◌, not, Bool, true, false, Option, none, some, List, [], ◌∷◌, length,
  Result, ok, exit, crash, ◌>>=◌, or_crash, or_exit, if◌then◌else◌,
}
use csc361_a.Base.Int.{ℤ, pos, negsuc}
use csc361_a.Base.Text.{Bytes, codes}

-- struct sockaddr_in of family AF_INET
pub record Address : Type 0 where
  pub ip : ℕ
  pub port : ℕ

-- `contents`: what a file holds, `none` if fopen fails. `fread`: how many bytes of it fread reads.
-- `meets_word`: whether a word that is not null stands behind calloc's array, where it can be read.
-- `inet_addr`: `none` is INADDR_NONE. The others say whether a call fails.
pub record Host : Type 0 where
  pub contents : Bytes → Option Bytes
  pub fread : Bytes → ℕ
  pub meets_word : ℕ → Bool
  pub socket_fails : Bool
  pub setsockopt_fails : Bool
  pub inet_addr : Bytes → Option ℕ
  pub bind_fails : Address → Bool
  pub output_fails : Bytes → Bool

-- The globals adr_sender and adr_receiver.
pub record Connection : Type 0 where
  pub adr_sender : Address
  pub adr_receiver : Address

-- htons takes a uint16_t
abbrev pub to_port : ℤ → ℕ
to_port (pos n) = n % 2 ^ 16
to_port (negsuc n) = 2 ^ 16 - 1 - n % 2 ^ 16

-- perror(...); exit(-1);
abbrev pub exit_if : Bool → Result (Unit {0})
exit_if true = exit
exit_if false = ok tt

module _ (host : Host) where
  -- fopen, fseek, ftell and fread
  unfoldable pub read_file : Bytes → Result Bytes
  read_file filename = do
    bytes ← or_exit (host.contents filename)
    _ ← exit_if (not (host.fread filename == length bytes))
    ok bytes

  -- The loop over the null pointers of data_packets, which has no bound.
  unfoldable pub scan_array : ℕ → Result (Unit {0})
  scan_array size = if host.meets_word size then ok tt else crash

  -- What both setup_connections do; `own` is the one of the two addresses that is bound.
  abbrev pub connect : (Connection → Address) → Bytes → ℕ → Bytes → ℕ → Result Connection
  connect own sender_ip sender_port receiver_ip receiver_port = do
    _ ← exit_if host.socket_fails
    _ ← exit_if host.setsockopt_fails
    s ← or_exit (host.inet_addr sender_ip)
    r ← or_exit (host.inet_addr receiver_ip)
    let c : Connection = record {
      adr_sender = record { ip = s; port = sender_port };
      adr_receiver = record { ip = r; port = receiver_port };
    }
    _ ← exit_if (host.bind_fails (own c))
    ok c

  -- setup_connection of src/rdps.c
  unfoldable pub setup_sender : Bytes → ℤ → Bytes → ℤ → Result Connection
  setup_sender sender_ip sender_port receiver_ip receiver_port =
      connect (λ c. c.adr_sender) sender_ip (to_port sender_port) receiver_ip
        (to_port receiver_port)

  -- setup_connection of src/rdpr.c
  unfoldable pub setup_receiver : Bytes → ℤ → Result Connection
  setup_receiver receiver_ip receiver_port =
      connect (λ c. c.adr_receiver) (codes "192.168.1.100") 2699 receiver_ip (to_port receiver_port)
