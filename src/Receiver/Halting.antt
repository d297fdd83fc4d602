-- ===== src/Receiver/Halting.antt =====
-- How the loop of src/rdpr.c can end.
use csc361_a.Base.{
  ℕ, zero, suc, ◌+◌, ◌≤◌, ◌<◌, ◌≡◌, refl, ◌∙◌, ap, sym, subst, Bool, true, false, Option, none,
  some, List, [], ◌++◌, length, success, failure, if◌then◌else◌, arith, append-nil, append_assoc,
}
use csc361_a.Base.Action.{Action, Outcome, ok, exit, blocked, crash, ◌>>◌, pure, bind-ok}
use csc361_a.Base.Int.{◌+ℤ◌, eqb_ℤ}
use csc361_a.Base.Text.{Bytes}
use csc361_a.Packet.{Packet, dat, syn, rst, fin, ack, max_packets, create_packet, add_packet}
use csc361_a.Socket.{Env, receive, check_time}
use csc361_a.Socket.Frame.{
  Frame, Framed, IsFrame, Framed-bind, Frame-bind, Frame-pure, Frame-gets, Frame-failure,
  Frame-modify, Frame-call, Frame-if, Frame-next_heap, Frame-send_packet, Frame-check_time,
  Frame-receive, receive-takes,
}
use csc361_a.Receiver.{
  Receiver, receiver_machine, count_dat, count_unique, dat_is_unique, store_data_packet, send_ack,
  on_dat, on_syn, on_fin, on_rst, on_packet, round, run,
}

pub record Advanced (r u : Receiver) : Type 0 where
  pub inbox_shrinks : length u.inbox ≤ length r.inbox
  pub more : List Bytes
  pub sent_grows : u.sent ≡ r.sent ++ more

instance abbrev Advanced-IsFrame : IsFrame Advanced
Advanced-IsFrame = record {
  here =
      λ r. record { inbox_shrinks = omega arith; more = []; sent_grows = sym (append-nil r.sent) };
  through = λ r t u a b. record {
    inbox_shrinks = omega (arith, a.inbox_shrinks, b.inbox_shrinks);
    more = a.more ++ b.more;
    sent_grows =
        b.sent_grows ∙ ap (λ l. l ++ b.more) a.sent_grows ∙ append_assoc r.sent a.more b.more;
  };
  machine = λ r w t i o. record { inbox_shrinks = i; more = t; sent_grows = o };
}

alike : {r u : Receiver} → u.inbox ≡ r.inbox → u.sent ≡ r.sent → Advanced r u
alike {r} i o = record {
  inbox_shrinks = rw i (omega arith);
  more = [];
  sent_grows = o ∙ sym (append-nil r.sent);
}

either : (b : Bool) (r u : Receiver) → Advanced r u → Advanced r (if b then u else r)
either true r u a = a
either false r u a = alike refl refl

-- No call of the receiver is exit(0).
abbrev Advances : {A : Type 0} → Action Receiver A → Type 0
Advances m = Frame Advanced (λ _. ⊥) m

module _ (env : Env) where
  Advances-send_ack : (p : Packet) → Advances (send_ack env p)
  unfolding send_ack
  Advances-send_ack p = Frame-bind (Frame-next_heap env) (λ h.
      Frame-bind (Frame-call (create_packet h [] 0 ack p.ackno)) (λ q.
        Frame-bind (Frame-send_packet env q) (λ _.
          Frame-modify {g = λ r. record r { ack_packets_sent = r.ack_packets_sent + 1 }}
            (λ r. alike refl refl))))

  unique_alike : (p : Packet) (r : Receiver) → Advanced r (count_unique env p r)
  unique_alike p r =
      either (dat_is_unique p r.data_packets) r
        (record r {
          unique_dat_bytes_received = r.unique_dat_bytes_received +ℤ p.payload_length;
          unique_dat_packets_received = r.unique_dat_packets_received + 1;
        })
        (alike refl refl)

  Advances-on_dat : (p : Packet) → Advances (on_dat env p)
  unfolding on_dat
  Advances-on_dat p = Frame-bind (Frame-gets (λ r. r.data_packets)) (λ old.
      Frame-bind (Frame-call (add_packet max_packets p old)) (λ added.
        Frame-bind
          (Frame-modify {g = λ r. record r { data_packets = added }} (λ r. alike refl refl))
          (λ _. Frame-bind (Advances-send_ack p) (λ _.
            Frame-bind (Frame-modify {g = count_dat env p} (λ r. alike refl refl)) (λ _.
              Frame-bind (Frame-modify {g = count_unique env p} (unique_alike p)) (λ _.
                Frame-bind (Frame-call (store_data_packet max_packets p added)) (λ stored.
                  Frame-modify {g = λ r. record r { data_packets = stored }}
                    (λ r. alike refl refl))))))))

  Advances-on_syn : (p : Packet) → Advances (on_syn env p)
  unfolding on_syn
  Advances-on_syn p = Frame-bind (Advances-send_ack p) (λ _.
      Frame-modify {g = λ r. record r { syn_packets_received = r.syn_packets_received + 1 }}
        (λ r. alike refl refl))

  Advances-on_fin : (p : Packet) → Advances (on_fin env p)
  unfolding on_fin
  Advances-on_fin p = Frame-bind (Advances-send_ack p) (λ _.
      Frame-modify {g = λ r. record r { fin_packets_received = r.fin_packets_received + 1 }}
        (λ r. alike refl refl))

  Advances-on_rst : Advances (on_rst env)
  unfolding on_rst
  Advances-on_rst =
      Frame-bind
        (Frame-modify {g = λ r. record r { rst_packets_received = r.rst_packets_received + 1 }}
          (λ r. alike refl refl))
        (λ _. Frame-failure)

  then_check :
      {m : Action Receiver (Unit {0})} → Advances m → Advances (m >> check_time env >> pure false)
  then_check g = Frame-bind (Frame-bind g (λ _. Frame-check_time env)) (λ _. Frame-pure false)

  Advances-on_packet : (p : Packet) → Advances (on_packet env p)
  unfolding on_packet
  Advances-on_packet p = Frame-if (eqb_ℤ p.type dat) (then_check (Advances-on_dat p)) (
      Frame-if (eqb_ℤ p.type syn) (then_check (Advances-on_syn p)) (
        Frame-if (eqb_ℤ p.type rst) (then_check Advances-on_rst) (
          Frame-if (eqb_ℤ p.type fin) (Frame-bind (Advances-on_fin p) (λ _. Frame-pure true))
            (Frame-bind (Frame-check_time env) (λ _. Frame-pure false)))))

  handle : Option Packet → Action Receiver Bool
  handle o = elim o [ none ↦ pure false | some p ↦ on_packet env p ]

  Advances-handle : (o : Option Packet) → Advances (handle o)
  unfolding handle
  Advances-handle none = Frame-pure false
  Advances-handle (some p) = Advances-on_packet p

  Advances-round : Advances (round env)
  unfolding round handle
  Advances-round = Frame-bind (Frame-receive env) Advances-handle

  round-takes :
      (r u : Receiver) (done : Bool) → round env r ≡ ok done u → length u.inbox < length r.inbox
  unfolding round handle
  round-takes r u done e =
      let (o, t, got, rest) = bind-ok (receive env) handle r e in
      let step : Advanced t u =
        subst (λ x. Framed (Advanced t) (λ _. ⊥) x) rest ((Advances-handle o).at t) in
      omega (arith, receive-takes env r t o got, step.inbox_shrinks)

  Framed-continued :
      (done : Bool) (k : Action Receiver (Unit {0})) (r : Receiver)
      → Framed (Advanced r) (λ _. ⊥) (k r)
      → Framed
          (Advanced r)
          (λ _. ⊥)
          (elim done as (λ _. Action Receiver (Unit {0})) [ true ↦ pure tt | false ↦ k ] r)
  Framed-continued true k r g = Advanced-IsFrame.here r
  Framed-continued false k r g = g

  Framed-run :
      (fuel : ℕ) (r : Receiver)
      → length r.inbox < fuel
      → Framed (Advanced r) (λ _. ⊥) (run env fuel r)
  unfolding run
  Framed-run zero r h = absurd (omega arith)
  Framed-run (suc fuel) r h =
      Framed-bind Advanced-IsFrame (λ _. ⊥) r (round env r) _ (Advances-round.at r)
        (λ done t e.
          Framed-continued done (run env fuel) t
            (Framed-run fuel t (omega (arith, round-takes r t done e))))

-- How the loop ended: never by exit(0).
abbrev pub Halts : Receiver → Outcome Receiver (Unit {0}) → Type 0
Halts r (ok _ u) = Advanced r u
Halts r (exit failure u) = Advanced r u
Halts r (exit success u) = ⊥
Halts r (blocked u) = Advanced r u × (u.inbox ≡ [])
Halts r crash = Unit

halted :
    (r : Receiver) (o : Outcome Receiver (Unit {0})) → Framed (Advanced r) (λ _. ⊥) o → Halts r o
halted r (ok a u) g = g
halted r (exit failure u) g = g
halted r (exit success u) (_, e) = e
halted r (blocked u) g = g
halted r crash g = g

-- With more fuel than datagrams that will ever arrive, the loop does not run out of fuel: it waits
-- only when every datagram has been taken. It never ends the process with exit(0). In every case
-- but undefined behaviour the datagrams sent are added to those sent before.
pub run-Halts :
    (env : Env) (fuel : ℕ) (r : Receiver) → length r.inbox < fuel → Halts r (run env fuel r)
run-Halts env fuel r h = halted r (run env fuel r) (Framed-run env fuel r h)
