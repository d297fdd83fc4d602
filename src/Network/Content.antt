-- ===== src/Network/Content.antt =====
-- What of the file that src/rdps.c reads can come to src/rdpr.c.
use csc361_a.Base.{
  Every, All-Every, ℕ, ◌^◌, ◌≤◌, ◌<◌, ◌≡◌, ap, ◌∙◌, true, ◌⊎◌, inl, inr, List, [], arith, length,
  take, ok,
}
use csc361_a.Base.Triple.{Holds, Holds-weaken}
use csc361_a.Base.Text.{Bytes, Lacks}
use csc361_a.Packet.{Packet, Heap, sep, payload_string}
use csc361_a.Packet.Scan.{IsZeroed}
use csc361_a.Socket.{Env}
use csc361_a.Sender.State.{Sender}
use csc361_a.Sender.Plan.{plan, before_nul}
use csc361_a.Sender.Shape.{IsFirstOrEmpty, plan-IsFirstOrEmpty}
use csc361_a.Sender.Sendable.{IsTidy}
use csc361_a.Sender.Accounting.Transfer.{IsFresh}
use csc361_a.Receiver.{Receiver, payload_arrays}
use csc361_a.Startup.{Host}
use csc361_a.Startup.Sending.{send_file}
use csc361_a.Startup.Sending
use csc361_a.Startup.Sending.Cases.{HasPorts, IsReady}
use csc361_a.Startup.Receiving
use csc361_a.Network.{Reaches, IsCarried}
use csc361_a.Network.Programs.{IsPlanned, main-IsPlanned}

-- The packet's payload string is what the file has before its first NUL, cut at 1024 bytes, or it
-- is empty.
abbrev pub CarriesFirstOrNone : Bytes → Packet → Type 0
CarriesFirstOrNone file q =
    (payload_string q ≡ ok (take 1024 (before_nul file))) ⊎ (payload_string q ≡ ok [])

IsPlanned-CarriesFirstOrNone :
    (file : Bytes) (q : Packet) → IsPlanned file q → CarriesFirstOrNone file q
IsPlanned-CarriesFirstOrNone file q (c, m, is) =
    let texts =
      All-Every (λ c. IsFirstOrEmpty file c.text) (plan 0 [] file)
        (plan-IsFirstOrEmpty 0 [] file (omega arith)) in
    elim (texts c m) [
      | inl e ↦ inl (is.payload_is ∙ ap ok e)
      | inr e ↦ inr (is.payload_is ∙ ap ok e)
    ]

-- Both programs, on zeroed memory, the sender with a short string without semicolon at the unset
-- pointer and a word behind its empty array. The sender has its arguments, a file of 1 to 2^24 - 1
-- bytes without semicolons, and a socket, and has run from fresh globals, against whatever
-- datagrams came to it, up to any point where it waits or has ended. What comes to the receiver are
-- datagrams that the sender has sent by then, each any number of times, in any order and with
-- timeouts between them. Then, whatever the receiver's arguments, its files and its socket, the
-- payload string of every packet that it has stored, wherever it waits or ends short of undefined
-- behaviour, is what the file has before its first NUL, cut at 1024 bytes, or is empty: no later
-- byte of the file is in any of these strings. If it writes its file, then the file is the payload
-- arrays of the packets stored.
pub main-CarriesFirstOrNone :
    (host host_r : Host) (env env_r : Env) (stray : Bytes) (heaps : ℕ → Heap) (fuel fuel_r : ℕ)
    (argv_r : List Bytes) (a : Sending.Arguments) (p : HasPorts a) (file : Bytes) (s t : Sender)
    (r : Receiver)
    → IsTidy env stray
    → ((k : ℕ) → IsZeroed (heaps k))
    → ((k : ℕ) → IsZeroed (env_r.heap k))
    → ((n : ℕ) → host.meets_word n ≡ true)
    → IsReady host a p file
    → 1 ≤ length file
    → length file < 2 ^ 24
    → Lacks sep file
    → IsFresh s
    → Reaches (send_file host env heaps fuel a s) t
    → r.data_packets ≡ []
    → Every (IsCarried t.sent) r.inbox
    → Holds
        (λ u. Every (CarriesFirstOrNone file) u.data_packets)
        (λ out u.
          Every (CarriesFirstOrNone file) u.data_packets × (out ≡ payload_arrays u.data_packets))
        (Receiving.main host_r env_r fuel_r argv_r r)
main-CarriesFirstOrNone host host_r env env_r stray heaps fuel fuel_r argv_r a p file s t r tidy z
      z_r scan ready h small plain fresh reached empty carried =
    let carries : (u : Receiver)
        → Every (IsPlanned file) u.data_packets
        → Every (CarriesFirstOrNone file) u.data_packets =
      λ u g q m. IsPlanned-CarriesFirstOrNone file q (g q m) in
    Holds-weaken (λ u. Every (CarriesFirstOrNone file) u.data_packets)
      (λ u. Every (IsPlanned file) u.data_packets)
      (λ out u. Every (IsPlanned file) u.data_packets × (out ≡ payload_arrays u.data_packets))
      (λ out u.
        Every (CarriesFirstOrNone file) u.data_packets × (out ≡ payload_arrays u.data_packets))
      (Receiving.main host_r env_r fuel_r argv_r r) carries (λ out u (g, e). (carries u g, e))
      (main-IsPlanned host host_r env env_r stray heaps fuel fuel_r argv_r a p file s t r tidy z z_r
        scan ready h small plain fresh reached empty carried)
