-- ===== src/Sender/Kept/Transfer.antt =====
-- What the calls that initiate_transfer of src/rdps.c is made of keep.
use csc361_a.Base.{refl, Bool, true, false, Option, none, some, List, [], ◌∷◌}
use csc361_a.Base.Action.{Action, crash, modify, pure}
use csc361_a.Base.Int.{ℤ, pos, eqb_ℤ}
use csc361_a.Packet.{Packet, fin, syn, window_size, create_packet}
use csc361_a.Socket.{Env}
use csc361_a.Socket.Frame.{
  Frame-bind, Frame-pure, Frame-gets, Frame-modify, Frame-when, Frame-call, Frame-next_heap,
  Frame-send_packet, Frame-check_time, Frame-receive,
}
use csc361_a.Sender.State.{Sender, sender_machine}
use csc361_a.Sender.Kept.{Kept-IsFrame, Keeps, alike, Keeps-start_new, Keeps-packet_ackd}
use csc361_a.Sender.Kept.Window.{Keeps-handle_packet}
use csc361_a.Sender.Timers.{all_acknowledged, all_packets_acknowledged}
use csc361_a.Sender.Transfer.{
  count_syn, count_first, count_fin, send_syn, resend_syn, init_window, handle_received, finish_if,
  send_fin,
}

module _ (env : Env) {E : Sender → Type 0} where
  pub Keeps-all_acknowledged : (ps : List Packet) → Keeps E (all_acknowledged env ps)
  unfolding all_acknowledged
  Keeps-all_acknowledged [] = Frame-pure true
  Keeps-all_acknowledged (p ∷ ps) =
      Frame-bind (Keeps-packet_ackd env p) (λ b. next b (Keeps-all_acknowledged ps))
    where
      next :
          (b : Bool)
          → Keeps E (all_acknowledged env ps)
          → Keeps E (elim b as (λ _. Action Sender Bool) [
            | true ↦ all_acknowledged env ps
            | false ↦ pure false
          ])
      next true k = k
      next false k = Frame-pure false

  pub Keeps-all_packets_acknowledged : Keeps E (all_packets_acknowledged env)
  unfolding all_packets_acknowledged
  Keeps-all_packets_acknowledged =
      Frame-bind (Frame-gets (λ s. s.data_packets)) Keeps-all_acknowledged

  pub Keeps-send_syn : (n : ℤ) → Keeps E (send_syn env n)
  unfolding send_syn
  Keeps-send_syn n = Frame-bind (Frame-next_heap env) (λ h.
      Frame-bind (Frame-call (create_packet h [] 0 syn n)) (λ p.
        Frame-bind (Frame-send_packet env p) (λ _.
          Frame-bind (Frame-modify {g = count_syn p} (λ s. alike refl refl refl)) (λ _.
            Frame-bind (Frame-modify {g = count_first p} (λ s. alike refl refl refl))
              (λ _. Frame-bind (Keeps-start_new env p.ackno) (λ _. Frame-pure p))))))

  pub Keeps-resend_syn : (p : Packet) → Keeps E (resend_syn env p)
  unfolding resend_syn
  Keeps-resend_syn p = Frame-bind (Frame-send_packet env p) (λ _.
      Frame-bind (Frame-modify {g = count_syn p} (λ s. alike refl refl refl))
        (λ _. Frame-check_time env))

  pub Keeps-init_window : Keeps E (init_window env)
  unfolding init_window
  Keeps-init_window = Frame-bind (Frame-gets (λ s. s.data_packets)) opened
    where
      opened :
          (ps : List Packet)
          → Keeps E (elim ps as (λ _. Action Sender (Unit {0})) [
            | [] ↦ (λ _. crash)
            | p ∷ _ ↦ modify (λ s. record s {
              window = record { size = pos window_size; occupied = pos 0; base_seqno = p.seqno };
            })
          ])
      opened [] = record { at = λ s. tt }
      opened (p ∷ ps) = Frame-modify (λ s. alike refl refl refl)

  pub Keeps-handle_received : (o : Option Packet) → Keeps E (handle_received env o)
  unfolding handle_received
  Keeps-handle_received none = Frame-pure tt
  Keeps-handle_received (some p) = Keeps-handle_packet env p

module _ (env : Env) where
  pub Keeps-finish_if : (f : Packet) (o : Option Packet) → Keeps (λ _. Unit) (finish_if env f o)
  unfolding finish_if
  Keeps-finish_if f none = Frame-pure tt
  Keeps-finish_if f (some p) =
      Frame-bind (Keeps-handle_packet env p)
        (λ _. Frame-when (eqb_ℤ p.seqno f.ackno) (record { at = λ s. (Kept-IsFrame.here s, tt) }))

  pub Keeps-send_fin : (n : ℤ) → Keeps (λ _. Unit) (send_fin env n)
  unfolding send_fin
  Keeps-send_fin n = Frame-bind (Frame-next_heap env) (λ h.
      Frame-bind (Frame-call (create_packet h [] 0 fin n)) (λ p.
        Frame-bind (Frame-send_packet env p) (λ _.
          Frame-bind (Frame-modify {g = count_fin p} (λ s. alike refl refl refl)) (λ _.
            Frame-bind (Frame-modify {g = count_first p} (λ s. alike refl refl refl)) (λ _.
              Frame-bind (Keeps-start_new env p.ackno)
                (λ _. Frame-bind (Frame-receive env) (λ o. Keeps-finish_if p o)))))))
