-- ===== src/Startup/Refusal.antt =====
-- When the files and the socket that main of src/rdps.c and src/rdpr.c need can be had.
use csc361_a.Base.{
  ℕ, ◌==◌, ==_iff, ◌≡◌, refl, false, Bool-cases, some, Option-cases, length, ok, exit, ◌⊎◌, inl,
  inr,
}
use csc361_a.Base.Text.{Bytes}
use csc361_a.Startup.{Host, Address, Connection, read_file, connect}

-- The file is read to its end.
pub record IsRead (host : Host) (filename bytes : Bytes) : Type 0 where
  pub contents_lem : host.contents filename ≡ some bytes
  pub fread_lem : host.fread filename ≡ length bytes

-- The socket is set up, with these addresses, of which `own` is bound.
pub record IsConnected (host : Host) (own : Connection → Address) (sender_ip : Bytes)
    (sender_port : ℕ) (receiver_ip : Bytes) (receiver_port : ℕ) (c : Connection) : Type 0 where
  pub socket_lem : host.socket_fails ≡ false
  pub setsockopt_lem : host.setsockopt_fails ≡ false
  pub sender_lem : host.inet_addr sender_ip ≡ some c.adr_sender.ip
  pub receiver_lem : host.inet_addr receiver_ip ≡ some c.adr_receiver.ip
  pub sender_port_lem : sender_port ≡ c.adr_sender.port
  pub receiver_port_lem : receiver_port ≡ c.adr_receiver.port
  pub bind_lem : host.bind_fails (own c) ≡ false

module _ (host : Host) where
  pub read_file-cases :
      (filename : Bytes)
      → (read_file host filename ≡ exit)
        ⊎ ((bytes : Bytes) × IsRead host filename bytes × (read_file host filename ≡ ok bytes))
  unfolding read_file
  read_file-cases filename = elim (Option-cases (host.contents filename)) [
    | inl e ↦ inl (rw e refl)
    | inr (bytes, e) ↦ elim (Bool-cases (host.fread filename == length bytes)) [
      | inl all ↦ inr (
        bytes,
        record {
          contents_lem = e;
          fread_lem = (==_iff (host.fread filename) (length bytes)).0 all;
        },
        rw (e, all) refl,
      )
      | inr short ↦ inl (rw (e, short) refl)
    ]
  ]

  pub connect-cases :
      (own : Connection → Address) (sender_ip : Bytes) (sender_port : ℕ) (receiver_ip : Bytes)
      (receiver_port : ℕ)
      → (connect host own sender_ip sender_port receiver_ip receiver_port ≡ exit)
        ⊎ ((c : Connection) × IsConnected host own sender_ip sender_port receiver_ip receiver_port c
            × (connect host own sender_ip sender_port receiver_ip receiver_port ≡ ok c))
  connect-cases own si sp ri rp = elim (Bool-cases host.socket_fails) [
    | inl e ↦ inl (rw e refl)
    | inr e1 ↦ elim (Bool-cases host.setsockopt_fails) [
      | inl e ↦ inl (rw (e1, e) refl)
      | inr e2 ↦ elim (Option-cases (host.inet_addr si)) [
        | inl e ↦ inl (rw (e1, e2, e) refl)
        | inr (s, e3) ↦ elim (Option-cases (host.inet_addr ri)) [
          | inl e ↦ inl (rw (e1, e2, e3, e) refl)
          | inr (r, e4) ↦
              let c : Connection = record {
                adr_sender = record { ip = s; port = sp };
                adr_receiver = record { ip = r; port = rp };
              } in
              elim (Bool-cases (host.bind_fails (own c))) [
                | inl e ↦ inl (rw (e1, e2, e3, e4, e) refl)
                | inr e5 ↦ inr (
                  c,
                  record {
                    socket_lem = e1;
                    setsockopt_lem = e2;
                    sender_lem = e3;
                    receiver_lem = e4;
                    sender_port_lem = refl;
                    receiver_port_lem = refl;
                    bind_lem = e5;
                  },
                  rw (e1, e2, e3, e4, e5) refl,
                )
              ]
        ]
      ]
    ]
  ]

module _ (host : Host) where
  pub read_file-ok :
      (filename bytes : Bytes) → IsRead host filename bytes → read_file host filename ≡ ok bytes
  unfolding read_file
  read_file-ok filename bytes r =
      rw (r.contents_lem, (==_iff (host.fread filename) (length bytes)).1 r.fread_lem) refl

  pub connect-ok :
      (own : Connection → Address) (sender_ip : Bytes) (sender_port : ℕ) (receiver_ip : Bytes)
      (receiver_port : ℕ) (c : Connection)
      → IsConnected host own sender_ip sender_port receiver_ip receiver_port c
      → connect host own sender_ip sender_port receiver_ip receiver_port ≡ ok c
  connect-ok own si sp ri rp c i =
      rw
        (
          i.socket_lem, i.setsockopt_lem, i.sender_lem, i.receiver_lem, i.sender_port_lem,
          i.receiver_port_lem, i.bind_lem,
        )
        refl
