-- ===== src/Network/Programs.antt =====
-- main of src/rdps.c and main of src/rdpr.c together: from the file that is read to the file that
-- is written.
use csc361_a.Base.{
  Every, Member, ℕ, ◌+◌, ◌^◌, ◌≤◌, ◌<◌, ◌≡◌, refl, sym, ◌∙◌, subst, true, inl, inr, Option, none,
  some, List, [], ◌∷◌, arith, length, success, or_crash,
}
use csc361_a.Base.Action.{Action, exit_with}
use csc361_a.Base.Triple.{
  Everywhere, Holds, Triple, Triple-bind, Triple-modify, Triple-exit, Ensures-call, Holds-weaken,
}
use csc361_a.Base.Int.{ℤ, pos, ◌+ℤ◌, ◌-ℤ◌}
use csc361_a.Base.Text.{Bytes, Lacks}
use csc361_a.Base.Decimal.{atoi}
use csc361_a.Packet.{Packet, Heap, dat, sep}
use csc361_a.Packet.Scan.{IsZeroed}
use csc361_a.Socket.{Env}
use csc361_a.Sender.State.{Sender}
use csc361_a.Sender.Plan.{Chunk, plan}
use csc361_a.Sender.Cutting.{IsPacketFor, ArePacketsFor}
use csc361_a.Sender.Sendable.{IsShippable, IsTidy, packetize-IsShippable}
use csc361_a.Sender.Accounting.{IsAccounted}
use csc361_a.Sender.Accounting.Transfer.{IsFresh, initiate_transfer-IsAccounted}
use csc361_a.Sender.Transfer.{initiate_transfer}
use csc361_a.Receiver.{Receiver, payload_arrays}
use csc361_a.Receiver.Genuine.{IsGenuine}
use csc361_a.Receiver.Genuine.Loop.{Triple-receiver_main}
use csc361_a.Startup.{Host, setup_receiver}
use csc361_a.Startup.Sending.{send_file, transfer_file}
use csc361_a.Startup.Sending
use csc361_a.Startup.Sending.Cases.{HasPorts, IsReady, send_file-cases}
use csc361_a.Startup.Receiving.{receive_file, arguments}
use csc361_a.Startup.Receiving
use csc361_a.Network.{CopyOf, Reaches, IsCarried, Everywhere-Reaches, IsCarried-Arrives}

-- `q` is the data packet for a chunk of the file's plan.
abbrev pub IsPlanned : Bytes → Packet → Type 0
IsPlanned file q = (c : Chunk) × Member c (plan 0 [] file) × IsPacketFor c q

ArePacketsFor-Member :
    (cs : List Chunk) (ps : List Packet) (p : Packet)
    → ArePacketsFor cs ps
    → Member p ps
    → (c : Chunk) × Member c cs × IsPacketFor c p
ArePacketsFor-Member [] [] p a m = absurd m
ArePacketsFor-Member [] (q ∷ ps) p a m = absurd a
ArePacketsFor-Member (c ∷ cs) [] p a m = absurd a
ArePacketsFor-Member (c ∷ cs) (q ∷ ps) p (is, a) (inl e) =
    (c, inl refl, subst (IsPacketFor c) (sym e) is)
ArePacketsFor-Member (c ∷ cs) (q ∷ ps) p (is, a) (inr m) =
    let (c', n, is') = ArePacketsFor-Member cs ps p a m in (c', inr n, is')

CopyOf-IsPlanned :
    (file : Bytes) (ps : List Packet) (q : Packet)
    → ArePacketsFor (plan 0 [] file) ps
    → CopyOf ps q
    → IsPlanned file q
CopyOf-IsPlanned file ps q a (p, m, copy) =
    let (c, n, is) = ArePacketsFor-Member (plan 0 [] file) ps p a m in
    (
      c,
      n,
      record {
        header_is = copy.header_lem ∙ is.header_is;
        length_is = copy.length_lem ∙ is.length_is;
        payload_is = copy.payload_lem ∙ is.payload_is;
      },
    )

-- main of the receiver, where every DAT packet that can arrive has a property.
module _ (host : Host) (env : Env) (D : Packet → Type 0) (fuel : ℕ) where
  abbrev Written : Bytes → Receiver → Type 0
  Written out r = IsGenuine env D r × (out ≡ payload_arrays r.data_packets)

  abbrev Receives : Action Receiver Bytes → Type 0
  Receives m = Triple (IsGenuine env D) (IsGenuine env D) m Written

  Triple-receive_file : (a : Receiving.Arguments) → Receives (receive_file host env fuel a)
  unfolding receive_file
  Triple-receive_file a = Triple-bind (Ensures-call (or_crash (atoi a.receiver_port))) (λ port.
      Triple-bind (Ensures-call (setup_receiver host a.receiver_ip port)) (λ _.
        Triple-bind
          (Triple-modify {Q = λ _. IsGenuine env D} {g = λ r. record r { data_packets = [] }}
            (λ r g. record { stored = λ q m. absurd m; arriving = g.arriving }))
          (λ _. Triple-receiver_main env D fuel (host.output_fails a.filename))))

  Triple-main : (argv : List Bytes) → Receives (Receiving.main host env fuel argv)
  unfolding Receiving.main
  Triple-main argv = started (arguments argv)
    where
      started :
          (o : Option Receiving.Arguments)
          → Receives (elim o as (λ _. Action Receiver Bytes) [
            | none ↦ exit_with success
            | some a ↦ receive_file host env fuel a
          ])
      started none = Triple-exit (λ r g. g)
      started (some a) = Triple-receive_file a

pub last_ackno_is : (n : ℕ) → pos n +ℤ pos 1024 -ℤ pos 1 ≡ pos (n + 1023)
unfolding ◌+ℤ◌ ◌-ℤ◌
last_ackno_is n = ground arith

pub next_ackno_is : (n : ℕ) → pos (n + 1023) +ℤ pos 1 ≡ pos (n + 1024)
unfolding ◌+ℤ◌
next_ackno_is n = ground arith

-- The sender's globals, wherever it is, when the file goes out from fresh globals.
abbrev IsSent : Env → Bytes → List Packet → Sender → Type 0
IsSent env file ps = IsAccounted env (pos (length file + 1023)) ps

transfer_file-IsSent :
    (env : Env) (heaps : ℕ → Heap) (fuel : ℕ) (file : Bytes) (s : Sender)
    → ((k : ℕ) → IsZeroed (heaps k))
    → IsFresh s
    → 1 ≤ length file
    → length file < 2 ^ 24
    → Lacks sep file
    → (ps : List Packet) × ArePacketsFor (plan 0 [] file) ps
      × Every (IsShippable dat) ps
      × Everywhere (IsSent env file ps) (transfer_file env heaps fuel file s)
unfolding transfer_file
transfer_file-IsSent env heaps fuel file s z fresh h small plain =
    let (ps, made, are, ships) = packetize-IsShippable heaps file z h (omega arith) plain in
    let after : Sender = record s { data_packets = ps } in
    let last : ℤ = pos (length file) +ℤ pos 1024 -ℤ pos 1 in
    (
      ps,
      are,
      ships,
      rw made (
          subst (λ n. Everywhere (IsAccounted env n ps) (initiate_transfer env fuel last after))
            (last_ackno_is (length file))
            (initiate_transfer-IsAccounted env fuel last after
              (record {
                sent_lem = fresh.sent_lem;
                dat_lem = fresh.dat_lem;
                unique_lem = fresh.unique_lem;
                syn_lem = fresh.syn_lem;
                fin_lem = fresh.fin_lem;
                bytes_lem = fresh.bytes_lem;
              })
              (λ p m. (ships p m).type_lem))),
    )

-- The file that the sender's main reads is the one it was ready to send.
pub send_file-ready :
    (host : Host) (env : Env) (heaps : ℕ → Heap) (fuel : ℕ) (a : Sending.Arguments) (s : Sender)
    (p : HasPorts a) (file : Bytes)
    → ((n : ℕ) → host.meets_word n ≡ true)
    → IsReady host a p file
    → send_file host env heaps fuel a s ≡ transfer_file env heaps fuel file s
send_file-ready host env heaps fuel a s p file scan ready =
    elim (send_file-cases host env heaps fuel a s p scan) [
      | inl (_, unready) ↦ absurd (unready file ready)
      | inr (bytes, ready', same) ↦
          let here = ready'.read_lem.contents_lem in
          let there = ready.read_lem.contents_lem in
          let one : bytes ≡ file = cc in
          subst (λ b. send_file host env heaps fuel a s ≡ transfer_file env heaps fuel b s) one same
    ]

-- Both programs, on zeroed memory, the sender with a short string without semicolon at the unset
-- pointer and a word behind its empty array. The sender has its arguments, a file of 1 to 2^24 - 1
-- bytes without semicolons, and a socket, and has run from fresh globals, against whatever
-- datagrams came to it, up to any point where it waits or has ended. What comes to the receiver are
-- datagrams that the sender has sent by then, each any number of times, in any order and with
-- timeouts between them. Then, whatever the receiver's arguments, its files and its socket, every
-- packet that it has stored, wherever it waits or ends short of undefined behaviour, is the data
-- packet for a chunk of the file's plan; and if it writes its file, then the file is the payload
-- arrays of the packets stored.
pub main-IsPlanned :
    (host host_r : Host) (env env_r : Env) (stray : Bytes) (heaps : ℕ → Heap) (fuel fuel_r : ℕ)
    (argv_r : List Bytes) (a : Sending.Arguments) (p : HasPorts a) (file : Bytes) (s t : Sender)
    (r : Receiver)
    → IsTidy env stray
    → ((k : ℕ) → IsZeroed (heaps k))
    → ((k : ℕ) → IsZeroed (env_r.heap k))
    → ((n : ℕ) → host.meets_word n ≡ true)
    → IsReady host a p file
    → 1 ≤ length file
    → length file < 2 ^ 24
    → Lacks sep file
    → IsFresh s
    → Reaches (send_file host env heaps fuel a s) t
    → r.data_packets ≡ []
    → Every (IsCarried t.sent) r.inbox
    → Holds
        (λ u. Every (IsPlanned file) u.data_packets)
        (λ out u. Every (IsPlanned file) u.data_packets × (out ≡ payload_arrays u.data_packets))
        (Receiving.main host_r env_r fuel_r argv_r r)
main-IsPlanned host host_r env env_r stray heaps fuel fuel_r argv_r a p file s t r tidy z z_r scan
      ready h small plain fresh reached empty carried =
    let (ps, are, ships, sent) = transfer_file-IsSent env heaps fuel file s z fresh h small plain in
    let last : ℤ = pos (length file + 1023) in
    let goes : Everywhere (IsSent env file ps) (send_file host env heaps fuel a s) =
      subst (Everywhere (IsSent env file ps))
        (sym (send_file-ready host env heaps fuel a s p file scan ready)) sent in
    let at_t : IsSent env file ps t =
      Everywhere-Reaches (IsSent env file ps) (send_file host env heaps fuel a s) t goes reached in
    let planned : (u : Receiver)
        → IsGenuine env_r (CopyOf ps) u
        → Every (IsPlanned file) u.data_packets =
      λ u g q m. CopyOf-IsPlanned file ps q are (g.stored q m) in
    Holds-weaken (λ u. Every (IsPlanned file) u.data_packets) (IsGenuine env_r (CopyOf ps))
      (Written host_r env_r (CopyOf ps) fuel_r)
      (λ out u. Every (IsPlanned file) u.data_packets × (out ≡ payload_arrays u.data_packets))
      (Receiving.main host_r env_r fuel_r argv_r r) planned (λ out u (g, e). (planned u g, e))
      ((Triple-main host_r env_r (CopyOf ps) fuel_r argv_r).at r (record {
        stored = subst (Every (CopyOf ps)) (sym empty) (λ q m. absurd m);
        arriving = λ d m.
            IsCarried-Arrives env stray last ps tidy ships (omega arith)
              (rw (next_ackno_is (length file)) (omega arith)) env_r t z_r at_t d (carried d m);
      }))
