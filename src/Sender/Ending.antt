-- ===== src/Sender/Ending.antt =====
-- How initiate_transfer of src/rdps.c can end.
use csc361_a.Base.{
  ℕ, ◌∙◌, sym, zero, suc, ◌≤◌, ◌<◌, ◌≡◌, refl, subst, Bool, true, false, Option, [], length,
  success, failure, arith,
}
use csc361_a.Base.Action.{
  Action, Outcome, ok, exit, blocked, crash, ◌>>=◌, ◌>>◌, gets, modify, when, bind-ok,
}
use csc361_a.Base.Int.{ℤ, pos, ◌+ℤ◌}
use csc361_a.Packet.{Packet}
use csc361_a.Socket.{Env, receive, check_time}
use csc361_a.Socket.Frame.{
  Framed, Framed-bind, Frame-bind, Frame-pure, Frame-modify, Frame-check_time, Frame-receive,
  receive-takes,
}
use csc361_a.Sender.State.{Sender, sender_machine}
use csc361_a.Sender.Kept.{
  Kept, Kept-IsFrame, Keeps, alike, Keeps-set_timers, Keeps-lock, Keeps-stop_locked,
  Keeps-add_dat_timers,
}
use csc361_a.Sender.Kept.Window.{
  Keeps-fill_window, Keeps-update_window_base, Keeps-resend_timedout_packets,
}
use csc361_a.Sender.Timers.{set_timers, lock, stop_locked, all_packets_acknowledged, add_dat_timers}
use csc361_a.Sender.Window.{fill_window, update_window_base, resend_timedout_packets}
use csc361_a.Sender.Settled.Fin.{AllSettled, send_fin-AllSettled}
use csc361_a.Sender.Acknowledged.{all_packets_acknowledged_lem}
use csc361_a.Sender.Transfer.{
  count_ack, is_ack, send_syn, resend_syn, await_syn_ack, init_window, handle_received, send_fin,
  transfer_round, transfer_loop, initiate_transfer,
}
use csc361_a.Sender.Kept.Transfer.{
  Keeps-all_packets_acknowledged, Keeps-send_syn, Keeps-resend_syn, Keeps-init_window,
  Keeps-handle_received, Keeps-send_fin,
}

-- Every data packet's timer has been started and is stopped, unless the packet has the number of
-- the FIN.
abbrev pub AllDone : ℤ → Sender → Type 0
AllDone last_ackno t = AllSettled (last_ackno +ℤ pos 1) t.timer_list t.data_packets

module _ (env : Env) (last_ackno : ℤ) where
  finished : Bool → Action Sender (Unit {0})
  finished done = do when done (send_fin env last_ackno); check_time env

  abbrev Ended : Sender → Type 0
  Ended = AllDone last_ackno

  -- What is known of the answer goes with the exchange of the FIN.
  Framed-AllDone :
      (s0 s : Sender) (o : Outcome Sender (Unit {0}))
      → all_packets_acknowledged env s0 ≡ ok true s
      → send_fin env last_ackno s ≡ o
      → Framed (Kept s) (λ _. Unit) o
      → Framed (Kept s) (AllDone last_ackno) o
  Framed-AllDone s0 s (ok a t) said e g = g
  Framed-AllDone s0 s (exit failure t) said e g = g
  Framed-AllDone s0 s (exit success t) said e (g, _) =
      let asked : Kept s0 s =
        subst (λ o. Framed (Kept s0) Ended o) said ((Keeps-all_packets_acknowledged env).at s0) in
      let same = g.same_packets ∙ asked.same_packets in
      (
        g,
        subst (λ ps. AllSettled (last_ackno +ℤ pos 1) t.timer_list ps) (sym same)
            (send_fin-AllSettled env last_ackno s0 s t s0.data_packets said e
              (all_packets_acknowledged_lem env s0 s said)),
      )
  Framed-AllDone s0 s (blocked t) said e g = g
  Framed-AllDone s0 s crash said e g = tt

  Framed-finished :
      (s0 s : Sender) (done : Bool)
      → all_packets_acknowledged env s0 ≡ ok done s
      → Framed (Kept s) Ended (finished done s)
  unfolding finished
  Framed-finished s0 s false answer =
      (Frame-bind {R = Kept} {E = Ended} (Frame-pure tt) (λ _. Frame-check_time env)).at s
  Framed-finished s0 s true answer =
      Framed-bind Kept-IsFrame Ended s (send_fin env last_ackno s) (λ _. check_time env)
        (Framed-AllDone s0 s (send_fin env last_ackno s) answer refl
          ((Keeps-send_fin env last_ackno).at s))
        (λ _ t _. (Frame-check_time {R = Kept} {E = Ended} env).at t)

  round_end : Action Sender (Unit {0})
  unfolding finished
  round_end = do done ← all_packets_acknowledged env; finished done

  Keeps-round_end : Keeps Ended round_end
  unfolding round_end
  Keeps-round_end = record {
    at = λ s.
        Framed-bind Kept-IsFrame Ended s (all_packets_acknowledged env s) finished
          ((Keeps-all_packets_acknowledged env).at s) (λ done t e. Framed-finished s t done e);
  }

  after_receive : Option Packet → Action Sender (Unit {0})
  unfolding round_end
  after_receive o = do
    handle_received env o
    update_window_base env
    fill_window env
    resend_timedout_packets env
    round_end

  Keeps-after_receive : (o : Option Packet) → Keeps Ended (after_receive o)
  unfolding after_receive
  Keeps-after_receive o = Frame-bind (Keeps-handle_received env o) (λ _.
      Frame-bind (Keeps-update_window_base env) (λ _.
        Frame-bind (Keeps-fill_window env)
          (λ _. Frame-bind (Keeps-resend_timedout_packets env) (λ _. Keeps-round_end))))

  Keeps-transfer_round : Keeps Ended (transfer_round env last_ackno)
  unfolding transfer_round after_receive round_end finished
  Keeps-transfer_round = Frame-bind (Frame-receive env) Keeps-after_receive

  -- A round that returns has taken a datagram.
  transfer_round-takes :
      (s t : Sender) → transfer_round env last_ackno s ≡ ok tt t → length t.inbox < length s.inbox
  unfolding transfer_round after_receive round_end finished
  transfer_round-takes s t e =
      let (o, u, got, rest) = bind-ok (receive env) after_receive s e in
      let kept : Kept u t =
        subst (λ r. Framed (Kept u) Ended r) rest ((Keeps-after_receive o).at u) in
      omega (arith, receive-takes env s u o got, kept.inbox_shrinks)

  Framed-transfer_loop :
      (fuel : ℕ) (s : Sender)
      → length s.inbox < fuel
      → Framed (Kept s) Ended (transfer_loop env fuel last_ackno s)
  unfolding transfer_loop
  Framed-transfer_loop zero s h = absurd (omega arith)
  Framed-transfer_loop (suc fuel) s h =
      Framed-bind Kept-IsFrame Ended s (transfer_round env last_ackno s)
        (λ _. transfer_loop env fuel last_ackno) (Keeps-transfer_round.at s)
        (λ _ t e. Framed-transfer_loop fuel t (omega (arith, transfer_round-takes s t e)))

module _ (env : Env) (last_ackno : ℤ) where
  abbrev Over : Sender → Type 0
  Over = AllDone last_ackno

  -- One turn of the loop that waits for the SYN's ACK.
  Framed-turn :
      (p : Packet) (again : Action Sender (Unit {0})) (b : Bool) (t : Sender)
      → ((u : Sender) → length u.inbox ≤ length t.inbox → Framed (Kept u) Over (again u))
      → Framed (Kept t) Over (
          elim b as (λ _. Action Sender (Unit {0})) [
            | true ↦ modify count_ack >> stop_locked env p.ackno
            | false ↦ resend_syn env p >> again
          ]
            t)
  Framed-turn p again true t g =
      (Frame-bind {R = Kept} {E = Over} (Frame-modify {g = count_ack} (λ s. alike refl refl refl))
          (λ _. Keeps-stop_locked env p.ackno)).at
        t
  Framed-turn p again false t g =
      Framed-bind Kept-IsFrame Over t (resend_syn env p t) (λ _. again)
        ((Keeps-resend_syn env p).at t)
        (λ _ u e.
          let kept : Kept t u =
            subst (λ o. Framed (Kept t) Over o) e ((Keeps-resend_syn env p).at t) in
          g u kept.inbox_shrinks)

  Framed-await_syn_ack :
      (fuel : ℕ) (p : Packet) (s : Sender)
      → length s.inbox < fuel
      → Framed (Kept s) Over (await_syn_ack env fuel p s)
  unfolding await_syn_ack
  Framed-await_syn_ack zero p s h = absurd (omega arith)
  Framed-await_syn_ack (suc fuel) p s h =
      Framed-bind Kept-IsFrame Over s (receive env s) _
        ((Frame-receive {R = Kept} {E = Over} env).at s)
        (λ o t e.
          Framed-turn p (await_syn_ack env fuel p) (is_ack o) t
            (λ u le. Framed-await_syn_ack fuel p u (omega (arith, receive-takes env s t o e))))

  -- A call, and what follows it on the inbox that it leaves.
  Framed-next :
      {A B : Type 0} (m : Action Sender A) (k : A → Action Sender B) (s : Sender)
      → Framed (Kept s) Over (m s)
      → ((a : A) (t : Sender) → length t.inbox ≤ length s.inbox → Framed (Kept t) Over (k a t))
      → Framed (Kept s) Over ((m >>= k) s)
  Framed-next m k s g next = Framed-bind Kept-IsFrame Over s (m s) k g (λ a t e.
      let kept : Kept s t = subst (λ o. Framed (Kept s) Over o) e g in next a t kept.inbox_shrinks)

  Framed-initiate_transfer :
      (fuel : ℕ) (s : Sender)
      → length s.inbox < fuel
      → Framed (Kept s) Over (initiate_transfer env fuel last_ackno s)
  unfolding initiate_transfer
  Framed-initiate_transfer fuel s0 h =
      Framed-next (set_timers []) _ s0 ((Keeps-set_timers env []).at s0) (λ _ s l0.
        Framed-next (lock env) _ s ((Keeps-lock env).at s) (λ _ t l1.
          Framed-next (gets (λ s. s.data_packets)) _ t (Kept-IsFrame.here t) (λ ps u l2.
            Framed-next (add_dat_timers env ps) _ u ((Keeps-add_dat_timers env ps).at u) (λ _ v l3.
              Framed-next (send_syn env (pos 0)) _ v ((Keeps-send_syn env (pos 0)).at v) (λ p w l4.
                Framed-next (await_syn_ack env fuel p) _ w
                  (Framed-await_syn_ack fuel p w (omega arith))
                  (λ _ x l5.
                    Framed-next (init_window env) _ x ((Keeps-init_window env).at x) (λ _ y l6.
                      Framed-next (fill_window env) _ y ((Keeps-fill_window env).at y)
                        (λ _ z l7. Framed-transfer_loop env last_ackno fuel z (omega arith)))))))))

-- How the transfer ended: never by returning.
abbrev pub Ends : ℤ → Sender → Outcome Sender (Unit {0}) → Type 0
Ends last_ackno s (ok _ t) = ⊥
Ends last_ackno s (exit failure t) = Kept s t
Ends last_ackno s (exit success t) = Kept s t × AllDone last_ackno t
Ends last_ackno s (blocked t) = Kept s t × (t.inbox ≡ [])
Ends last_ackno s crash = Unit

record Never {A : Type 0} (m : Action Sender A) : Type 0 where
  at : (s : Sender) (a : A) (t : Sender) → m s ≡ ok a t → ⊥

Never-bind :
    {A B : Type 0} (m : Action Sender A) {k : A → Action Sender B}
    → ((a : A) → Never (k a))
    → Never (m >>= k)
Never-bind m {k = k} n = record {
  at = λ s b u e. let (a, t, _, rest) = bind-ok m k s e in (n a).at t b u rest;
}

Never-transfer_loop :
    (env : Env) (last_ackno : ℤ) (fuel : ℕ) → Never (transfer_loop env fuel last_ackno)
unfolding transfer_loop
Never-transfer_loop env last_ackno zero = record { at = λ s a t e. cc }
Never-transfer_loop env last_ackno (suc fuel) =
    Never-bind (transfer_round env last_ackno) (λ _. Never-transfer_loop env last_ackno fuel)

Never-initiate_transfer :
    (env : Env) (last_ackno : ℤ) (fuel : ℕ) → Never (initiate_transfer env fuel last_ackno)
unfolding initiate_transfer
Never-initiate_transfer env last_ackno fuel = Never-bind (set_timers []) (λ _.
    Never-bind (lock env) (λ _. Never-bind (gets (λ s. s.data_packets)) (λ ps.
      Never-bind (add_dat_timers env ps) (λ _. Never-bind (send_syn env (pos 0)) (λ p.
        Never-bind (await_syn_ack env fuel p) (λ _.
          Never-bind (init_window env)
            (λ _. Never-bind (fill_window env) (λ _. Never-transfer_loop env last_ackno fuel))))))))

ended :
    (env : Env) (last_ackno : ℤ) (s : Sender) (o : Outcome Sender (Unit {0}))
    → Framed (Kept s) (AllDone last_ackno) o
    → ((a : Unit {0}) (t : Sender) → o ≡ ok a t → ⊥)
    → Ends last_ackno s o
ended env last_ackno s (ok a t) g never = never a t refl
ended env last_ackno s (exit failure t) g never = g
ended env last_ackno s (exit success t) g never = g
ended env last_ackno s (blocked t) g never = g
ended env last_ackno s crash g never = g

-- With more fuel than datagrams that will ever arrive, the transfer does not run out of fuel: it
-- waits only when every datagram has been taken, and it does not return. If it ends with exit(0),
-- then the timer of every data packet has been started and is stopped there, but perhaps for a packet
-- that has the acknowledgement number of the FIN, whose timer it shares. In every case but undefined behaviour the data packets are those of the start and the
-- datagrams sent are added to those sent before.
pub initiate_transfer-Ends :
    (env : Env) (fuel : ℕ) (last_ackno : ℤ) (s : Sender)
    → length s.inbox < fuel
    → Ends last_ackno s (initiate_transfer env fuel last_ackno s)
initiate_transfer-Ends env fuel last_ackno s h =
    ended env last_ackno s (initiate_transfer env fuel last_ackno s)
      (Framed-initiate_transfer env last_ackno fuel s h)
      ((Never-initiate_transfer env last_ackno fuel).at s)
