-- ===== src/Socket/Frame.antt =====
-- What every call keeps: `R` relates the globals before and after, and `E` holds of the globals
-- when the process ends with exit(0). A call waits only where nothing is left to receive. The rules
-- follow the shape of a `do` block.
use csc361_a.Base.{
  ℕ, suc, ◌+◌, ◌≤◌, ◌<◌, ◌≡◌, refl, ◌∙◌, Bool, true, false, Option, none, some, List, [], ◌∷◌, ◌++◌,
  ExitCode, success, failure, Result, ◌≢◌, if◌then◌else◌, arith, length, append-nil, sym, ap,
}
use csc361_a.Base
use csc361_a.Base.Action.{
  Action, Outcome, ok, exit, blocked, crash, ◌>>=◌, call, gets, modify, pure, when, exit_with,
  bind-ok, call-ok,
}
use csc361_a.Base.Text.{Bytes}
use csc361_a.Packet.{Packet, construct_string}
use csc361_a.Packet.Parse.{receive_packet}
use csc361_a.Socket.{
  Env, Machine, HasMachine, read_clock, next_heap, send_packet, post, check_time, is_too_late,
  next_datagram, receive,
}

module _ {S : Type 0} ⦃h : HasMachine S⦄ where
  -- The outcomes that `R` and `E` allow.
  abbrev pub Framed : {A : Type 0} → (S → Type 0) → (S → Type 0) → Outcome S A → Type 0
  Framed P E (ok a s) = P s
  Framed P E (exit failure s) = P s
  Framed P E (exit success s) = P s × E s
  Framed P E (blocked s) = P s × ((h.get_machine s).inbox ≡ [])
  Framed P E crash = Unit

  pub record Frame {A : Type 0} (R : S → S → Type 0) (E : S → Type 0) (m : Action S A)
      : Type 0 where
    pub at : (s : S) → Framed (R s) E (m s)

  -- A relation that the calls on the machine keep: they take datagrams from the inbox and add to
  -- those sent.
  pub record IsFrame (R : S → S → Type 0) : Type 0 where
    pub here : (s : S) → R s s
    pub through : (s t u : S) → R s t → R t u → R s u
    pub machine :
        (s : S) (w : Machine) (t : List Bytes)
        → length w.inbox ≤ length (h.get_machine s).inbox
        → w.sent ≡ (h.get_machine s).sent ++ t
        → R s (h.set_machine w s)

module _ {S : Type 0} ⦃h : HasMachine S⦄ {R : S → S → Type 0} (f : IsFrame R) (E : S → Type 0) where
  pub Framed-through :
      {A : Type 0} (s t : S) (o : Outcome S A) → R s t → Framed (R t) E o → Framed (R s) E o
  Framed-through s t (ok a u) r g = f.through s t u r g
  Framed-through s t (exit failure u) r g = f.through s t u r g
  Framed-through s t (exit success u) r (g, e) = (f.through s t u r g, e)
  Framed-through s t (blocked u) r (g, e) = (f.through s t u r g, e)
  Framed-through s t crash r g = tt

  pub Framed-bind :
      {A B : Type 0} (s : S) (o : Outcome S A) (k : A → Action S B)
      → Framed (R s) E o
      → ((a : A) (t : S) → o ≡ ok a t → Framed (R t) E (k a t))
      → Framed (R s) E (elim o as (λ _. Outcome S B) [
        | ok a s' ↦ k a s'
        | exit c s' ↦ exit c s'
        | blocked s' ↦ blocked s'
        | crash ↦ crash
      ])
  Framed-bind s (ok a t) k r g = Framed-through s t (k a t) r (g a t refl)
  Framed-bind s (exit failure t) k r g = r
  Framed-bind s (exit success t) k r g = r
  Framed-bind s (blocked t) k r g = r
  Framed-bind s crash k r g = tt

  Framed-if :
      {A : Type 0} (s : S) (b : Bool) (x y : Outcome S A)
      → Framed (R s) E x
      → Framed (R s) E y
      → Framed (R s) E (if b then x else y)
  Framed-if s true x y gx gy = gx
  Framed-if s false x y gx gy = gy

  Framed-post : (env : Env) (text : Bytes) (s : S) → Framed (R s) E (post env text s)
  unfolding post
  Framed-post env text s =
      let w = h.get_machine s in
      Framed-if s (env.send_fails (length w.sent)) (exit failure s)
        (ok tt (h.set_machine (record w { sent = w.sent ++ text ∷ [] }) s)) (f.here s)
        (f.machine s (record w { sent = w.sent ++ text ∷ [] }) (text ∷ []) (omega arith) refl)

  Framed-next_datagram :
      (env : Env) (s : S) (l : List (Option Bytes))
      → (h.get_machine s).inbox ≡ l
      → Framed (R s) E (
          let w = h.get_machine s in
          elim l as (λ _. Outcome S (Option Bytes)) [
            | [] ↦ blocked s
            | d ∷ rest ↦ ok d (h.set_machine (record w { inbox = rest }) s)
          ])
  Framed-next_datagram env s [] e = (f.here s, e)
  Framed-next_datagram env s (d ∷ rest) e =
      let w = h.get_machine s in
      let n : length w.inbox ≡ suc (length rest) = ap length e in
      f.machine s (record w { inbox = rest }) [] (omega (arith, n)) (sym (append-nil w.sent))

module _ {S : Type 0} ⦃h : HasMachine S⦄ {R : S → S → Type 0} ⦃f : IsFrame R⦄ {E : S → Type 0} where
  pub Frame-bind :
      {A B : Type 0} {m : Action S A} {k : A → Action S B}
      → Frame R E m
      → ((a : A) → Frame R E (k a))
      → Frame R E (m >>= k)
  Frame-bind {m = m} {k = k} g gs = record {
    at = λ s. Framed-bind f E s (m s) k (g.at s) (λ a t _. (gs a).at t);
  }

  pub Frame-pure : {A : Type 0} (a : A) → Frame R E (pure {S = S} a)
  Frame-pure a = record { at = λ s. f.here s }

  pub Frame-gets : {A : Type 0} (g : S → A) → Frame R E (gets g)
  Frame-gets g = record { at = λ s. f.here s }

  pub Frame-failure : {A : Type 0} → Frame R E (exit_with {S = S} {A = A} failure)
  Frame-failure = record { at = λ s. (f.here s) }

  pub Frame-modify : {g : S → S} → ((s : S) → R s (g s)) → Frame R E (modify g)
  Frame-modify r = record { at = r }

  pub Frame-when : (b : Bool) {m : Action S (Unit {0})} → Frame R E m → Frame R E (when b m)
  Frame-when true g = g
  Frame-when false g = Frame-pure tt

  -- A call of a function without state.
  pub Frame-call : {A : Type 0} (r : Result A) → Frame R E (call {S = S} r)
  Frame-call (Base.ok a) = record { at = λ s. f.here s }
  Frame-call Base.exit = record { at = λ s. f.here s }
  Frame-call Base.crash = record { at = λ s. tt }

  pub Frame-next_heap : (env : Env) → Frame R E (next_heap env)
  unfolding next_heap
  Frame-next_heap env = record {
    at = λ s.
        let w = h.get_machine s in
        f.machine s (record w { heaps = w.heaps + 1 }) [] (omega arith) (sym (append-nil w.sent));
  }

  pub Frame-read_clock : (env : Env) → Frame R E (read_clock env)
  unfolding read_clock
  Frame-read_clock env = record {
    at = λ s.
        let w = h.get_machine s in
        f.machine s (record w { clocks = w.clocks + 1 }) [] (omega arith) (sym (append-nil w.sent));
  }

  pub Frame-send_packet : (env : Env) (p : Packet) → Frame R E (send_packet env p)
  unfolding send_packet
  Frame-send_packet env p =
      Frame-bind (Frame-call (construct_string p))
        (λ text. record { at = Framed-post f E env text })

  pub Frame-if :
      {A : Type 0} (b : Bool) {m k : Action S A}
      → Frame R E m
      → Frame R E k
      → Frame R E (if b then m else k)
  Frame-if true g gs = g
  Frame-if false g gs = gs

  pub Frame-check_time : (env : Env) → Frame R E (check_time env)
  unfolding check_time
  Frame-check_time env =
      Frame-bind (Frame-read_clock env)
        (λ t. Frame-if (is_too_late t) Frame-failure (Frame-pure tt))

  pub Frame-receive : (env : Env) → Frame R E (receive env)
  unfolding receive next_datagram
  Frame-receive env =
      Frame-bind (record { at = λ s. Framed-next_datagram f E env s (h.get_machine s).inbox refl })
        (λ d. Frame-bind (Frame-next_heap env) (λ hp. Frame-call (receive_packet hp d)))

module _ {S : Type 0} ⦃h : HasMachine S⦄ (env : Env) where
  abbrev waiting : S → ℕ
  waiting s = length (h.get_machine s).inbox

  next_datagram-takes :
      (s t : S) (d : Option Bytes) → next_datagram env s ≡ ok d t → waiting t < waiting s
  unfolding next_datagram
  next_datagram-takes s t d e = taken (h.get_machine s).inbox refl e
    where
      taken :
          (l : List (Option Bytes))
          → (h.get_machine s).inbox ≡ l
          → (let w = h.get_machine s in
              elim l as (λ _. Outcome S (Option Bytes)) [
                | [] ↦ blocked s
                | d ∷ rest ↦ ok d (h.set_machine (record w { inbox = rest }) s)
              ])
            ≡ ok d t
          → waiting t < waiting s
      taken [] n e = absurd (cc)
      taken (x ∷ rest) n e =
          let w = h.get_machine s in
          let after : h.set_machine (record w { inbox = rest }) s ≡ t = cc in
          let left : waiting t ≡ length rest =
            ap waiting (sym after)
            ∙ ap (λ v. length v.inbox) (h.get-set (record w { inbox = rest }) s) in
          let all : waiting s ≡ suc (length rest) = ap length n in omega (arith, left, all)

  -- A datagram that was received is taken off.
  pub receive-takes : (s t : S) (o : Option Packet) → receive env s ≡ ok o t → waiting t < waiting s
  unfolding receive next_heap
  receive-takes s t o e =
      let (d, u, taken, rest) =
        bind-ok (next_datagram env) (λ d. next_heap env >>= λ hp. call (receive_packet hp d)) s e in
      let (hp, v, moved, got) = bind-ok (next_heap env) (λ hp. call (receive_packet hp d)) u rest in
      let (_, same) = call-ok (receive_packet hp d) got in
      let w = h.get_machine u in
      let after : h.set_machine (record w { heaps = w.heaps + 1 }) u ≡ v = cc in
      let left : waiting t ≡ waiting u =
        ap waiting (sym same)
        ∙ ap waiting (sym after)
        ∙ ap (λ x. length x.inbox) (h.get-set (record w { heaps = w.heaps + 1 }) u) in
      omega (arith, left, next_datagram-takes s u d taken)
