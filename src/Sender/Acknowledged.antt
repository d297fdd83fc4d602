-- ===== src/Sender/Acknowledged.antt =====
-- allPacketsAcknowledged of src/rdps.c against the list of timers.
use csc361_a.Base.Int.{negsuc, eqb_ℤ_refl, ne→eqb_ℤ}
use csc361_a.Base.{
  arith, ◌≢◌, ◌∙◌, sym, ◌≡◌, refl, subst, Bool, true, false, Option, none, some, List, [], ◌∷◌,
  failure,
}
use csc361_a.Base.Action.{Action, ok, exit_with, pure, bind-ok}
use csc361_a.Timer.{PacketTimer, find_timer}
use csc361_a.Packet.{Packet}
use csc361_a.Socket.{Env}
use csc361_a.Sender.State.{Sender}
use csc361_a.Sender.Timers.{lock, is_ackd, packet_ackd, all_acknowledged, all_packets_acknowledged}
use csc361_a.Sender.Flags.{Flagged, find_timer-Flagged, lock-Flagged}

-- The first timer with the packet's number has been started and is stopped.
pub record IsAckd (ts : List PacketTimer) (p : Packet) : Type 0 where
  pub timer : PacketTimer
  pub found : find_timer ts p.ackno ≡ some timer
  pub stopped : timer.running ≡ false
  pub was_started : timer.time_sent ≢ negsuc 0

pub is_ackd-true :
    (t : PacketTimer) → is_ackd t ≡ true → (t.running ≡ false) × (t.time_sent ≢ negsuc 0)
is_ackd-true t h = ground (arith, eqb_ℤ_refl (negsuc 0), ne→eqb_ℤ t.time_sent (negsuc 0))

abbrev pub AllAckd : List PacketTimer → List Packet → Type 0
AllAckd ts [] = Unit
AllAckd ts (p ∷ ps) = IsAckd ts p × AllAckd ts ps

IsAckd-Flagged : (ts us : List PacketTimer) (p : Packet) → Flagged ts us → IsAckd us p → IsAckd ts p
IsAckd-Flagged ts us p f a =
    let (t, found, time, running) = find_timer-Flagged ts us p.ackno a.timer f a.found in
    record {
      timer = t;
      found = found;
      stopped = running ∙ a.stopped;
      was_started = λ e. a.was_started (sym time ∙ e);
    }

AllAckd-Flagged :
    (ts us : List PacketTimer) (ps : List Packet) → Flagged ts us → AllAckd us ps → AllAckd ts ps
AllAckd-Flagged ts us [] f a = tt
AllAckd-Flagged ts us (p ∷ ps) f (a, as') =
    (IsAckd-Flagged ts us p f a, AllAckd-Flagged ts us ps f as')

looked_up :
    (o : Option PacketTimer) {b : Bool} {t u : Sender}
    → elim o as (λ _. Action Sender Bool) [ none ↦ exit_with failure | some x ↦ pure (is_ackd x) ] t
      ≡ ok b u
    → (x : PacketTimer) × (o ≡ some x) × (is_ackd x ≡ b) × (t ≡ u)
looked_up none e = absurd (cc)
looked_up (some x) e = (x, refl, cc, cc)

-- What a lookup of one packet tells.
packet_ackd_lem :
    (env : Env) (p : Packet) (s : Sender) {u : Sender}
    → packet_ackd env p s ≡ ok true u
    → Flagged s.timer_list u.timer_list × IsAckd s.timer_list p
unfolding packet_ackd
packet_ackd_lem env p s {u} e =
    let (_, t, locked, rest) = bind-ok (lock env) _ s e in
    let (x, found, ackd, same) = looked_up (find_timer t.timer_list p.ackno) rest in
    let f = lock-Flagged env s locked in
    (
      subst (λ v. Flagged s.timer_list v.timer_list) same f,
      IsAckd-Flagged s.timer_list t.timer_list p f (record {
        timer = x;
        found = found;
        stopped = (is_ackd-true x ackd).0;
        was_started = (is_ackd-true x ackd).1;
      }),
    )

all_acknowledged_lem :
    (env : Env) (ps : List Packet) (s : Sender) {u : Sender}
    → all_acknowledged env ps s ≡ ok true u
    → AllAckd s.timer_list ps
unfolding all_acknowledged
all_acknowledged_lem env [] s e = tt
all_acknowledged_lem env (p ∷ ps) s {u} e =
    checked (λ t v e'. all_acknowledged_lem env ps t e') (bind-ok (packet_ackd env p) _ s e)
  where
    checked :
        ((t : Sender)
          → (v : Sender) → all_acknowledged env ps t ≡ ok true v
          → AllAckd t.timer_list ps)
        → (b : Bool) × (t : Sender) × (packet_ackd env p s ≡ ok b t)
          × (elim b as (λ _. Action Sender Bool) [
            | true ↦ all_acknowledged env ps
            | false ↦ pure false
          ]
                t
              ≡ ok true u)
        → AllAckd s.timer_list (p ∷ ps)
    checked later (false, t, got, rest) = absurd (cc)
    checked later (true, t, got, rest) =
        let (f, a) = packet_ackd_lem env p s got in
        (a, AllAckd-Flagged s.timer_list t.timer_list ps f (later t u rest))

-- If the answer is yes, then every data packet's timer had been started and was stopped when the
-- function was called, whatever the polling thread did during the call.
pub all_packets_acknowledged_lem :
    (env : Env) (s u : Sender)
    → all_packets_acknowledged env s ≡ ok true u
    → AllAckd s.timer_list s.data_packets
unfolding all_packets_acknowledged
all_packets_acknowledged_lem env s u e = all_acknowledged_lem env s.data_packets s e
