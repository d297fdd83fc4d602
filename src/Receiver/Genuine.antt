-- ===== src/Receiver/Genuine.antt =====
-- What the loop of src/rdpr.c stores, whatever the network delivers and in whatever order.
pub mod Loop
use csc361_a.Base.{
  Every, Member, Member-snoc, ℕ, zero, suc, ◌+◌, ◌-◌, ◌≡◌, refl, sym, ap, ◌∙◌, subst, Bool, true,
  false, ◌⊎◌, inl, inr, Option, none, some, List, [], ◌∷◌, ◌++◌, ◌==◌, ltb, Result, returned,
  ok_inj, if◌then◌else◌, failure, length, Bool-cases,
}
use csc361_a.Base
use csc361_a.Base.Action
use csc361_a.Base.Action.{
  Action, Outcome, ◌>>=◌, ◌>>◌, call, gets, modify, pure, exit_with, blocked,
}
use csc361_a.Base.Triple.{
  Everywhere, Holds, Triple, Ensures, Triple-bind, Triple-pure, Triple-gets, Triple-modify,
  Triple-exit, Triple-call, Ensures-call,
}
use csc361_a.Base.Int.{◌+ℤ◌, eqb_ℤ, eqb_ℤ→eq}
use csc361_a.Base.Text.{Bytes}
use csc361_a.Packet.{
  Packet, dat, syn, rst, fin, ack, max_packets, create_packet, add_packet, construct_string,
}
use csc361_a.Packet.Parse.{receive_packet}
use csc361_a.Socket.{
  Env, next_heap, send_packet, next_datagram, receive, check_time, is_too_late, read_clock, post,
}
use csc361_a.Receiver.{
  Receiver, receiver_machine, count_dat, count_unique, dat_is_unique, store_data_packet, send_ack,
  on_dat, on_syn, on_fin, on_rst, on_packet, round, run, receiver_main, payload_arrays,
}
use csc361_a.Receiver.Members.{add_packet-Member, store_data_packet-Member}

-- Every DAT packet that the datagram can be read as, whatever memory malloc gives, has `D`.
abbrev pub Arrives : Env → (Packet → Type 0) → Option Bytes → Type 0
Arrives env D d =
    (k : ℕ) (q : Packet) → receive_packet (env.heap k) d ≡ Base.ok (some q) → q.type ≡ dat → D q

module _ (env : Env) (D : Packet → Type 0) where
  pub record IsGenuine (r : Receiver) : Type 0 where
    pub stored : Every D r.data_packets
    pub arriving : Every (Arrives env D) r.inbox

  pub unmoved :
      (r t : Receiver)
      → IsGenuine r
      → t.data_packets ≡ r.data_packets
      → t.inbox ≡ r.inbox
      → IsGenuine t
  unmoved r t g e i = record {
    stored = subst (Every D) (sym e) g.stored;
    arriving = subst (Every (Arrives env D)) (sym i) g.arriving;
  }

  abbrev pub Keeps : {A : Type 0} → Action Receiver A → Type 0
  Keeps m = Ensures IsGenuine m

  Keeps-next_heap : Keeps (next_heap env)
  unfolding next_heap
  Keeps-next_heap = record {
    at = λ r g.
        let w = r.machine in
        unmoved r (record r { machine = record w { heaps = w.heaps + 1 } }) g refl refl;
  }

  Holds-post :
      (b : Bool) (text : Bytes) (r : Receiver)
      → IsGenuine r
      → Holds IsGenuine
          (λ _. IsGenuine)
          (let w = r.machine in
            if b
            then Action.exit failure r
            else Action.ok tt (record r { machine = record w { sent = w.sent ++ text ∷ [] } }))
  Holds-post true text r g = g
  Holds-post false text r g =
      let w = r.machine in
      unmoved r (record r { machine = record w { sent = w.sent ++ text ∷ [] } }) g refl refl

  Keeps-send_packet : (p : Packet) → Keeps (send_packet env p)
  unfolding send_packet post
  Keeps-send_packet p =
      Triple-bind (Ensures-call (construct_string p))
        (λ text. record { at = λ r g. Holds-post (env.send_fails (length r.sent)) text r g })

  Keeps-read_clock : Keeps (read_clock env)
  unfolding read_clock
  Keeps-read_clock = record {
    at = λ r g.
        let w = r.machine in
        unmoved r (record r { machine = record w { clocks = w.clocks + 1 } }) g refl refl;
  }

  pub Keeps-check_time : Keeps (check_time env)
  unfolding check_time
  Keeps-check_time = Triple-bind Keeps-read_clock (λ t. late (is_too_late t))
    where
      late : (b : Bool) → Keeps (if b then exit_with {S = Receiver} failure else pure tt)
      late true = Triple-exit (λ r g. g)
      late false = Triple-pure (λ r g. g)

  pub Keeps-modify :
      (g : Receiver → Receiver)
      → ((r : Receiver) → (g r).data_packets ≡ r.data_packets)
      → ((r : Receiver) → (g r).inbox ≡ r.inbox)
      → Keeps (modify g)
  Keeps-modify g e i = Triple-modify (λ r h. unmoved r (g r) h (e r) (i r))

  pub Keeps-send_ack : (p : Packet) → Keeps (send_ack env p)
  unfolding send_ack
  Keeps-send_ack p = Triple-bind Keeps-next_heap (λ h.
      Triple-bind (Ensures-call (create_packet h [] 0 ack p.ackno)) (λ a.
        Triple-bind (Keeps-send_packet a) (λ _.
          Keeps-modify (λ r. record r { ack_packets_sent = r.ack_packets_sent + 1 }) (λ r. refl)
            (λ r. refl))))

  Keeps-store :
      (ps : List Packet) → Every D ps → Keeps (modify (λ r. record r { data_packets = ps }))
  Keeps-store ps h = Triple-modify (λ r g. record { stored = h; arriving = g.arriving })

  Keeps-count_unique : (p : Packet) → Keeps (modify (count_unique env p))
  Keeps-count_unique p = Triple-modify (λ r g. counted r g (dat_is_unique p r.data_packets))
    where
      counted :
          (r : Receiver)
          → IsGenuine r
          → (b : Bool)
          → IsGenuine (
              if b
              then record r {
                unique_dat_bytes_received = r.unique_dat_bytes_received +ℤ p.payload_length;
                unique_dat_packets_received = r.unique_dat_packets_received + 1;
              }
              else r)
      counted r g true = unmoved r _ g refl refl
      counted r g false = g

  -- What a call returned may be used for the rest.
  called :
      {A B : Type 0} (r : Result A) (k : A → Action Receiver B)
      → ((a : A) → r ≡ Base.ok a → Keeps (k a))
      → Keeps (call r >>= k)
  called r k h = Triple-bind (Triple-call r) (λ a. record { at = λ s (g, e). (h a e).at s g })

  pub Keeps-on_dat : (p : Packet) → D p → Keeps (on_dat env p)
  unfolding on_dat
  Keeps-on_dat p d =
      Triple-bind
        (Triple-gets {Q = λ old r. IsGenuine r × Every D old} {g = λ r. r.data_packets}
          (λ r g. (g, g.stored)))
        (λ old. record {
          at = λ r (g, olds).
              (called (add_packet max_packets p old) _ (λ added e.
                  let all : Every D added = λ q m.
                    within old added olds (add_packet-Member max_packets p q old added e m) in
                  Triple-bind (Keeps-store added all) (λ _. Triple-bind (Keeps-send_ack p) (λ _.
                    Triple-bind (Keeps-modify (count_dat env p) (λ r. refl) (λ r. refl)) (λ _.
                      Triple-bind (Keeps-count_unique p) (λ _.
                        called (store_data_packet max_packets p added) _ (λ stored e'.
                          Keeps-store stored (λ q m.
                            within added stored all (
                              store_data_packet-Member max_packets p q added stored e' m))))))))).at
                r g;
        })
    where
      within : (old new : List Packet) → Every D old → {q : Packet} → Member q old ⊎ (q ≡ p) → D q
      within old new olds {q} (inl m) = olds q m
      within old new olds {q} (inr e) = subst D (sym e) d
