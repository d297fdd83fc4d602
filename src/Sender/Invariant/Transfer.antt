-- ===== src/Sender/Invariant/Transfer.antt =====
-- initiate_transfer of src/rdps.c, for a condition on the globals that stands its steps.
use csc361_a.Base.{
  Member, ℕ, zero, suc, ◌≡◌, refl, subst, true, false, Bool, Option, none, some, List, [], ◌∷◌,
  success, inl,
}
use csc361_a.Base.Action.{Action, ◌>>=◌, ◌>>◌, call, modify, crash}
use csc361_a.Base.Triple.{
  Holds, Triple, Ensures, Triple-bind, Triple-pure, Triple-gets, Triple-modify, Triple-exit,
  Triple-weaken, Ensures-when, Triple-call,
}
use csc361_a.Base.Int.{ℤ, pos, eqb_ℤ}
use csc361_a.Packet.{Packet, Heap, syn, fin, window_size, create_packet}
use csc361_a.Socket.{Env, next_heap}
use csc361_a.Sender.State.{Sender, sender_machine}
use csc361_a.Sender.Timers.{stop_locked}
use csc361_a.Sender.Window.{handle_packet}
use csc361_a.Sender.Transfer.{
  count_syn, count_first, count_fin, count_ack, is_ack, send_syn, resend_syn, await_syn_ack,
  init_window, handle_received, finish_if, send_fin, transfer_round, transfer_loop,
  initiate_transfer,
}
use csc361_a.Sender.Invariant.{IsCalm, IsMade, IsSending, IsWindowed}
use csc361_a.Sender.Invariant.Timers.{
  Triple-next_heap, Ensures-set_timers, Ensures-lock, Ensures-receive, Ensures-check_time,
  Ensures-start_new, Ensures-stop_locked, Ensures-add_dat_timers, Ensures-all_packets_acknowledged,
}
use csc361_a.Sender.Invariant.Window.{
  Triple-send_packet, Ensures-fill_window, Ensures-update_window_base, with_packets,
}
use csc361_a.Sender.Invariant.Resend.{Ensures-resend_timedout_packets, Ensures-handle_packet}

module _ (env : Env) (last_ackno : ℤ) (ps : List Packet) {I : Sender → Type 0} (c : IsCalm I)
    (sending : IsSending env last_ackno ps I) (windowed : IsWindowed ps I) where
  -- create_packet on the memory that malloc gives next.
  Triple-IsMade :
      (h : Heap) (type seqno : ℤ)
      → Triple I
          (λ s. I s × (k : ℕ) × (env.heap k ≡ h))
          (call (create_packet h [] 0 type seqno))
          (λ p s. I s × IsMade env type seqno p)
  Triple-IsMade h type seqno = record {
    at = λ s (i, k, e).
        subst
          (λ h.
            Holds I (λ p s. I s × IsMade env type seqno p)
              (call {S = Sender} (create_packet h [] 0 type seqno) s))
          e
          ((Triple-weaken (λ s i. i) (λ s i. i)
              (λ p s (i, made). (i, record { call = k; made = made }))
              (Triple-call {I = I} (create_packet (env.heap k) [] 0 type seqno))).at
            s i);
  }

  abbrev Made : ℤ → ℤ → Packet → Sender → Type 0
  Made type seqno p s = I s × IsMade env type seqno p

  -- What is done with a packet of create_packet may use that it was made.
  with_made :
      {A : Type 0} {Q : A → Sender → Type 0} (type seqno : ℤ) (f : Packet → Action Sender A)
      → ((p : Packet) → IsMade env type seqno p → Triple I I (f p) Q)
      → Triple I I (next_heap env >>= λ h. call (create_packet h [] 0 type seqno) >>= f) Q
  with_made type seqno f next = Triple-bind (Triple-next_heap c env) (λ h.
      Triple-bind (Triple-IsMade h type seqno)
        (λ p. record { at = λ s (i, made). (next p made).at s i }))

  Triple-send_syn : Triple I I (send_syn env (pos 0)) (λ p s. I s × IsMade env syn (pos 0) p)
  unfolding send_syn
  Triple-send_syn = with_made syn (pos 0) _ (λ p made.
      Triple-bind (Triple-send_packet env p (λ s i. i)) (λ _.
        Triple-bind {Q = λ _ s. I (count_first p s)}
          (Triple-modify {g = count_syn p} (λ s x.
            subst (λ t. I (count_first p (count_syn p t))) x.is_posted
              (sending.syn_lem x.before p x.text x.holds made x.spelled)))
          (λ _. Triple-bind (Triple-modify {Q = λ _. I} {g = count_first p} (λ s i. i)) (λ _.
            Triple-bind (Ensures-start_new c env p.ackno) (λ _. Triple-pure (λ s i. (i, made)))))))

  Ensures-resend_syn : (p : Packet) → IsMade env syn (pos 0) p → Ensures I (resend_syn env p)
  unfolding resend_syn
  Ensures-resend_syn p made = Triple-bind (Triple-send_packet env p (λ s i. i)) (λ _.
      Triple-bind
        (Triple-modify {Q = λ _. I} {g = count_syn p} (λ s x.
          subst (λ t. I (count_syn p t)) x.is_posted
            (sending.syn_again_lem x.before p x.text x.holds made x.spelled)))
        (λ _. Ensures-check_time c env))

  Ensures-await_syn_ack :
      (fuel : ℕ) (p : Packet) → IsMade env syn (pos 0) p → Ensures I (await_syn_ack env fuel p)
  unfolding await_syn_ack
  Ensures-await_syn_ack zero p made = record { at = λ s i. i }
  Ensures-await_syn_ack (suc fuel) p made = record {
    at =
        (Triple-bind (Ensures-receive c env)
          (λ o. answered (is_ack o) (Ensures-await_syn_ack fuel p made))).at;
  }
    where
      answered :
          (b : Bool)
          → Ensures I (await_syn_ack env fuel p)
          → Ensures I (elim b as (λ _. Action Sender (Unit {0})) [
            | true ↦ modify count_ack >> stop_locked env p.ackno
            | false ↦ resend_syn env p >> await_syn_ack env fuel p
          ])
      answered true again =
          Triple-bind (Triple-modify {Q = λ _. I} {g = count_ack} (λ s i. c.ack_lem s i))
            (λ _. Ensures-stop_locked c env p.ackno)
      answered false again = Triple-bind (Ensures-resend_syn p made) (λ _. again)

  Ensures-init_window : Ensures I (init_window env)
  unfolding init_window
  Ensures-init_window =
      with_packets env last_ackno ps c sending windowed _ (λ qs all. opened qs all)
    where
      opened :
          (qs : List Packet)
          → ((q : Packet) → Member q qs → Member q ps)
          → Ensures I (elim qs as (λ _. Action Sender (Unit {0})) [
            | [] ↦ (λ _. crash)
            | p ∷ _ ↦ modify (λ s. record s {
              window = record { size = pos window_size; occupied = pos 0; base_seqno = p.seqno };
            })
          ])
      opened [] all = record { at = λ s i. tt }
      opened (p ∷ qs) all = Triple-modify (λ s i. windowed.open_lem s p i (all p (inl refl)))

  handling : (p : Packet) → Ensures I (handle_packet env p)
  handling p = Ensures-handle_packet env last_ackno ps c sending windowed p

  Ensures-handle_received : (o : Option Packet) → Ensures I (handle_received env o)
  unfolding handle_received
  Ensures-handle_received none = Triple-pure (λ s i. i)
  Ensures-handle_received (some p) = handling p

  Ensures-finish_if : (p : Packet) (o : Option Packet) → Ensures I (finish_if env p o)
  unfolding finish_if
  Ensures-finish_if p none = Triple-pure (λ s i. i)
  Ensures-finish_if p (some q) =
      Triple-bind (handling q)
        (λ _. Ensures-when (eqb_ℤ q.seqno p.ackno) (Triple-exit {c = success} (λ s i. i)))

  Ensures-send_fin : Ensures I (send_fin env last_ackno)
  unfolding send_fin
  Ensures-send_fin = with_made fin last_ackno _ (λ p made.
      Triple-bind (Triple-send_packet env p (λ s i. i)) (λ _.
        Triple-bind {Q = λ _ s. I (count_first p s)}
          (Triple-modify {g = count_fin p} (λ s x.
            subst (λ t. I (count_first p (count_fin p t))) x.is_posted
              (sending.fin_lem x.before p x.text x.holds made x.spelled)))
          (λ _. Triple-bind (Triple-modify {Q = λ _. I} {g = count_first p} (λ s i. i)) (λ _.
            Triple-bind (Ensures-start_new c env p.ackno)
              (λ _. Triple-bind (Ensures-receive c env) (λ o. Ensures-finish_if p o))))))

  Ensures-transfer_round : Ensures I (transfer_round env last_ackno)
  unfolding transfer_round
  Ensures-transfer_round = Triple-bind (Ensures-receive c env) (λ o.
      Triple-bind (Ensures-handle_received o) (λ _.
        Triple-bind (Ensures-update_window_base env last_ackno ps c sending windowed) (λ _.
          Triple-bind (Ensures-fill_window env last_ackno ps c sending windowed) (λ _.
            Triple-bind (Ensures-resend_timedout_packets env last_ackno ps c sending windowed) (λ _.
              Triple-bind (Ensures-all_packets_acknowledged c env) (λ done.
                Triple-bind (Ensures-when done Ensures-send_fin)
                  (λ _. Ensures-check_time c env)))))))

  Ensures-transfer_loop : (fuel : ℕ) → Ensures I (transfer_loop env fuel last_ackno)
  unfolding transfer_loop
  Ensures-transfer_loop zero = record { at = λ s i. i }
  Ensures-transfer_loop (suc fuel) = record {
    at = (Triple-bind Ensures-transfer_round (λ _. Ensures-transfer_loop fuel)).at;
  }

  pub Ensures-initiate_transfer : (fuel : ℕ) → Ensures I (initiate_transfer env fuel last_ackno)
  unfolding initiate_transfer
  Ensures-initiate_transfer fuel = Triple-bind (Ensures-set_timers c env []) (λ _.
      Triple-bind (Ensures-lock c env) (λ _.
        Triple-bind (Triple-gets {Q = λ _. I} {g = λ s. s.data_packets} (λ s i. i)) (λ qs.
          Triple-bind (Ensures-add_dat_timers c env qs) (λ _. Triple-bind Triple-send_syn (λ p.
            record {
              at = λ s (i, made).
                  (Triple-bind (Ensures-await_syn_ack fuel p made) (λ _.
                      Triple-bind Ensures-init_window (λ _.
                        Triple-bind (Ensures-fill_window env last_ackno ps c sending windowed)
                          (λ _. Ensures-transfer_loop fuel)))).at
                    s i;
            })))))
