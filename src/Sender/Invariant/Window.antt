-- ===== src/Sender/Invariant/Window.antt =====
-- Sending data packets and moving the window of src/rdps.c, under a condition that stands the
-- steps.
use csc361_a.Base.{
  Member, ℕ, zero, suc, ◌+◌, ◌≡◌, refl, sym, ap, ◌∙◌, subst, true, false, not, ◌&&◌, Bool, Option,
  none, some, List, [], ◌∷◌, ◌++◌, failure, Result, ok, if◌then◌else◌, length, get_elem?, inl, inr,
}
use csc361_a.Base
use csc361_a.Base.Action
use csc361_a.Base.Action.{
  Action, Outcome, ◌>>=◌, ◌>>◌, call, gets, modify, pure, exit_with, when, exit, crash,
}
use csc361_a.Base.Triple.{
  Holds, Triple, Ensures, Triple-bind, Triple-pure, Triple-gets, Triple-modify, Triple-weaken,
  Triple-when, Ensures-when,
}
use csc361_a.Base.Int.{ℤ, ltb_ℤ, eqb_ℤ}
use csc361_a.Base.Text.{Bytes}
use csc361_a.Packet.{Packet, construct_string}
use csc361_a.Socket.{Env, post, send_packet}
use csc361_a.Sender.State.{Sender, Window, sender_machine}
use csc361_a.Sender.Window.{
  count_fresh, in_window, send_fresh, visit, fill_from, fill_window, slide, update_from,
  update_window_base,
}
use csc361_a.Sender.Invariant.{posted, IsCalm, IsSending, IsWindowed}
use csc361_a.Sender.Invariant.Timers.{Ensures-start_locked, Ensures-packet_ackd}

-- The globals after the text of `p` was sent from globals with `P`.
pub record Posted (P : Sender → Type 0) (p : Packet) (s : Sender) : Type 0 where
  pub before : Sender
  pub holds : P before
  pub text : Bytes
  pub spelled : construct_string p ≡ ok text
  pub is_posted : posted text before ≡ s

module _ (env : Env) {I P : Sender → Type 0} where
  Holds-post :
      (p : Packet) (text : Bytes) (s : Sender) (b : Bool)
      → ((s : Sender) → P s → I s)
      → construct_string p ≡ ok text
      → P s
      → Holds I (λ _. Posted P p) (if b then exit failure s else Action.ok tt (posted text s))
  Holds-post p text s true f e h = f s h
  Holds-post p text s false f e h = record {
    before = s;
    holds = h;
    text = text;
    spelled = e;
    is_posted = refl;
  }

  Holds-send_packet :
      (p : Packet) (r : Result Bytes) (s : Sender)
      → ((s : Sender) → P s → I s)
      → construct_string p ≡ r
      → P s
      → Holds I (λ _. Posted P p) ((call r >>= post env) s)
  unfolding post
  Holds-send_packet p (Base.ok text) s f e h =
      Holds-post p text s (env.send_fails (length s.sent)) f e h
  Holds-send_packet p Base.exit s f e h = f s h
  Holds-send_packet p Base.crash s f e h = tt

  pub Triple-send_packet :
      (p : Packet) → ((s : Sender) → P s → I s) → Triple I P (send_packet env p) (λ _. Posted P p)
  unfolding send_packet
  Triple-send_packet p f = record {
    at = λ s h. Holds-send_packet p (construct_string p) s f refl h;
  }

-- The globals with the condition and this window.
abbrev pub WithWindow : (Sender → Type 0) → Window → Sender → Type 0
WithWindow I w s = I s × (s.window ≡ w)

WithWindow-IsCalm : {I : Sender → Type 0} (w : Window) → IsCalm I → IsCalm (WithWindow I w)
WithWindow-IsCalm w c = record {
  machine_lem = λ s m (i, e) q. (c.machine_lem s m i q, e);
  timers_lem = λ s ts (i, e). (c.timers_lem s ts i, e);
  ack_lem = λ s (i, e). (c.ack_lem s i, e);
  rst_lem = λ s (i, e). (c.rst_lem s i, e);
}

module _ (env : Env) (last_ackno : ℤ) (ps : List Packet) {I : Sender → Type 0} (c : IsCalm I)
    (sending : IsSending env last_ackno ps I) (windowed : IsWindowed ps I) where
  abbrev HasRoom : Window → Type 0
  HasRoom w = ltb_ℤ w.occupied w.size ≡ true

  -- A calm call keeps the window.
  calmly :
      {A : Type 0} {m : Action Sender A} (w : Window)
      → Ensures (WithWindow I w) m
      → Triple I (WithWindow I w) m (λ _. WithWindow I w)
  calmly w h = Triple-weaken (λ s x. x.0) (λ s x. x) (λ a s x. x) h

  Triple-send_fresh :
      (p : Packet) (w : Window)
      → Member p ps
      → HasRoom w
      → Triple I (WithWindow I w) (send_fresh env p) (λ _. I)
  unfolding send_fresh
  Triple-send_fresh p w member room = Triple-bind (Triple-send_packet env p (λ s x. x.0)) (λ _.
      Triple-bind (Triple-modify {Q = λ _. WithWindow I w} {g = count_fresh p} counted) (λ _.
        Triple-bind (calmly w (Ensures-start_locked (WithWindow-IsCalm w c) env p.ackno)) (λ _.
          Triple-modify (λ s (i, e).
            windowed.occupy_lem s p i member (ap (λ w. ltb_ℤ w.occupied w.size) e ∙ room)))))
    where
      counted : (s : Sender) → Posted (WithWindow I w) p s → WithWindow I w (count_fresh p s)
      counted s x =
          subst (λ t. WithWindow I w (count_fresh p t)) x.is_posted
            (sending.fresh_lem x.before p x.text x.holds.0 member x.spelled, x.holds.1)

  Triple-visit :
      (p : Packet) (w : Window)
      → Member p ps
      → HasRoom w
      → Triple I (WithWindow I w) (visit env p) (λ _. I)
  unfolding visit
  Triple-visit p w member room =
      Triple-bind (Triple-gets {Q = λ _. WithWindow I w} {g = λ s. s.window} (λ s x. x)) (λ v.
        Triple-when (in_window v p) (λ s x. x.0)
          (Triple-bind (calmly w (Ensures-packet_ackd (WithWindow-IsCalm w c) env p))
            (λ ackd. Triple-when (not ackd) (λ s x. x.0) (Triple-send_fresh p w member room))))

  abbrev Among : List Packet → Type 0
  Among qs = (q : Packet) → Member q qs → Member q ps

  Ensures-fill_from : (qs : List Packet) → Among qs → Ensures I (fill_from env qs)
  unfolding fill_from
  Ensures-fill_from [] all = Triple-pure (λ s i. i)
  Ensures-fill_from (p ∷ qs) all =
      Triple-bind (Triple-gets {Q = WithWindow I} {g = λ s. s.window} (λ s i. (i, refl)))
        (λ w. full (ltb_ℤ w.occupied w.size) w refl (Ensures-fill_from qs (λ q m. all q (inr m))))
    where
      full :
          (b : Bool) (w : Window)
          → ltb_ℤ w.occupied w.size ≡ b
          → Ensures I (fill_from env qs)
          → Triple I
              (WithWindow I w)
              (elim b as (λ _. Action Sender (Unit {0})) [
                | true ↦ visit env p >> fill_from env qs
                | false ↦ pure tt
              ])
              (λ _. I)
      full true w room next = Triple-bind (Triple-visit p w (all p (inl refl)) room) (λ _. next)
      full false w room next = Triple-pure (λ s x. x.0)

  -- A read of the data packets.
  Triple-data_packets : Triple I I (gets (λ s. s.data_packets)) (λ qs s. I s × (qs ≡ ps))
  Triple-data_packets = Triple-gets (λ s i. (i, sending.packets_lem s i))

  -- What is done with them may use that they are `ps`.
  pub with_packets :
      {A : Type 0} (f : List Packet → Action Sender A)
      → ((qs : List Packet) → Among qs → Ensures I (f qs))
      → Ensures I (gets (λ s. s.data_packets) >>= f)
  with_packets f h =
      Triple-bind Triple-data_packets
        (λ qs. record { at = λ s (i, e). (h qs (λ q m. subst (Member q) e m)).at s i })

  pub Ensures-fill_window : Ensures I (fill_window env)
  unfolding fill_window
  Ensures-fill_window = with_packets (fill_from env) Ensures-fill_from

  Ensures-slide : (qs : List Packet) → Among qs → Ensures I (slide env qs)
  unfolding slide
  Ensures-slide [] all = Triple-pure (λ s i. i)
  Ensures-slide (q ∷ qs) all = Triple-modify (λ s i. windowed.slide_lem s q i (all q (inl refl)))

  Ensures-update_from : (qs : List Packet) → Among qs → Ensures I (update_from env qs)
  unfolding update_from
  Ensures-update_from [] all = Triple-pure (λ s i. i)
  Ensures-update_from (p ∷ qs) all =
      let rest : Among qs = λ q m. all q (inr m) in
      Triple-bind (Triple-gets {Q = λ _. I} {g = λ s. s.window} (λ s i. i)) (λ w.
        Triple-bind
          (Ensures-when (eqb_ℤ p.seqno w.base_seqno) (
            Triple-bind (Ensures-packet_ackd c env p)
              (λ ackd. Ensures-when ackd (Ensures-slide qs rest))))
          (λ _. Ensures-update_from qs rest))

  pub Ensures-update_window_base : Ensures I (update_window_base env)
  unfolding update_window_base
  Ensures-update_window_base = with_packets (update_from env) Ensures-update_from
