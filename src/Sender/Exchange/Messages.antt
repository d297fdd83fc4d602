-- ===== src/Sender/Exchange/Messages.antt =====
-- receive_packet and send_packet of src/packet.c as the sender of src/rdps.c calls them.
use csc361_a.Base.{
  ℕ, zero, suc, ◌+◌, ◌<◌, ◌≡◌, refl, ap, sym, ◌∙◌, Bool, true, false, not, Option, none, some, List,
  [], ◌∷◌, ◌++◌, arith, length, subst, failure, if◌then◌else◌,
}
use csc361_a.Base
use csc361_a.Base.Action.{ok, blocked}
use csc361_a.Base.Text.{Bytes}
use csc361_a.Base.Total.{Total, Never, NeverEnds}
use csc361_a.Packet.{Packet, construct_string}
use csc361_a.Packet.Scan.{IsZeroed}
use csc361_a.Packet.Timeout.{receive_packet-timeout}
use csc361_a.Socket.{Env, send_packet, receive, next_heap, next_datagram, post}
use csc361_a.Receiver.Delivery.{Shipment, Delivers, CarriesShipment}
use csc361_a.Sender.State.{Sender, Window, sender_machine}
use csc361_a.Sender.Marks.{Mark}
use csc361_a.Sender.Exchange.{At}

abbrev taken : List (Option Bytes) → Sender → Sender
taken rest s =
    let w = s.machine in record s { machine = record w { heaps = w.heaps + 1; inbox = rest } }

taken-At :
    {p : Packet} {w : Window} {xs rest : List (Option Bytes)} {sent : List Bytes} {ms : List Mark}
    {s : Sender}
    → At p w xs sent ms s
    → At p w rest sent ms (taken rest s)
taken-At i = record {
  data_lem = i.data_lem;
  window_lem = i.window_lem;
  inbox_lem = refl;
  sent_lem = i.sent_lem;
  marks_lem = i.marks_lem;
}

abbrev posted : Bytes → Sender → Sender
posted text s = let w = s.machine in record s { machine = record w { sent = w.sent ++ text ∷ [] } }

module _ (env : Env) (p : Packet) (w : Window) (xs : List (Option Bytes)) (sent : List Bytes)
    (ms : List Mark) where
  -- A datagram that delivers a packet, and what is left.
  pub receive-At :
      (x : Shipment) (rest : List (Option Bytes))
      → ((k : ℕ) → IsZeroed (env.heap k))
      → Delivers x
      → xs ≡ some x.datagram ∷ rest
      → Total NeverEnds Never
          (At p w xs sent ms)
          (receive env)
          (λ o s. (q : Packet) × (o ≡ some q) × CarriesShipment x q × At p w rest sent ms s)
  unfolding receive next_datagram next_heap
  receive-At x rest z delivers e = record {
    at = λ s i.
        let (q, got, c) = delivers (env.heap s.heaps) (z s.heaps) in
        let arrives = i.inbox_lem ∙ e in
        let ran : receive env s ≡ ok (some q) (taken rest s) = ground (arith, arrives, got) in
        rw ran (q, refl, c, taken-At i);
  }

  pub receive-waits :
      xs ≡ [] → Total NeverEnds (At p w xs sent ms) (At p w xs sent ms) (receive env) (λ _. Never)
  unfolding receive next_datagram
  receive-waits e = record {
    at = λ s i.
        let empty = i.inbox_lem ∙ e in
        let ran : receive env s ≡ blocked s = ground (arith, empty) in rw ran i;
  }

  pub send-At :
      (q : Packet) (text : Bytes)
      → ((k : ℕ) → env.send_fails k ≡ false)
      → construct_string q ≡ Base.ok text
      → Total NeverEnds Never
          (At p w xs sent ms)
          (send_packet env q)
          (λ _. At p w xs (sent ++ text ∷ []) ms)
  unfolding send_packet post
  send-At q text sends spelled = record {
    at = λ s i.
        let ran : send_packet env q s ≡ ok tt (posted text s) =
          ground (arith, spelled, sends (length s.sent)) in
        rw ran (record {
          data_lem = i.data_lem;
          window_lem = i.window_lem;
          inbox_lem = i.inbox_lem;
          sent_lem = ap (λ l. l ++ text ∷ []) i.sent_lem;
          marks_lem = i.marks_lem;
        });
  }

-- A timeout.
pub receive-late :
    (env : Env) (p : Packet) (w : Window) (rest : List (Option Bytes)) (sent : List Bytes)
    (ms : List Mark)
    → ((k : ℕ) → IsZeroed (env.heap k))
    → Total NeverEnds Never
        (At p w (none ∷ rest) sent ms)
        (receive env)
        (λ o s. (o ≡ none) × At p w rest sent ms s)
unfolding receive next_datagram next_heap
receive-late env p w rest sent ms z = record {
  at = λ s i.
      let arrives = i.inbox_lem in
      let ran : receive env s ≡ ok none (taken rest s) =
        ground (arith, arrives, receive_packet-timeout (env.heap s.heaps) (z s.heaps)) in
      rw ran (refl, taken-At i);
}
