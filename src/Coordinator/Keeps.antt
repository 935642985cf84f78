-- ===== src/Coordinator/Keeps.antt =====
-- Invariants of programs: a predicate on the state that a program keeps, whether it returns or
-- throws, with a rule for each way of putting programs together.
use kazibee_home.Prelude.{
  ℕ, String, Bool, true, false, if◌then◌else◌, Option, none, some, List, [], ◌∷◌, Bool-cases,
  Option-cases, ◌≡◌, inl, inr,
}
use kazibee_home.Coordinator.State.{Coordinator, Socket, Attachment, Message, Runtime}
use kazibee_home.Coordinator.Effects.{
  Result, ok, threw, M, after, rescue, ◌>>=◌, ◌>>◌, with_state, attempt, option, for_each, modify,
  return, done, throw, send, close, accept_socket,
}

module _ (P : Coordinator → Type 0) where
  pub record Keeps {A : Type 0} (m : M A) : Type 0 where
    pub run : (s : Coordinator) → P s → P (m s).1

module _ {P : Coordinator → Type 0} where
  pub keep_return : {A : Type 0} (a : A) → Keeps P (return a)
  unfolding return
  keep_return a = record { run = λ s h. h }

  pub keep_done : Keeps P done
  unfolding done
  keep_done = record { run = λ s h. h }

  pub keep_throw : {A : Type 0} → Keeps P (throw {A = A})
  unfolding throw
  keep_throw = record { run = λ s h. h }

  pub keep_modify :
      (f : Coordinator → Coordinator) → ((s : Coordinator) → P s → P (f s)) → Keeps P (modify f)
  unfolding modify
  keep_modify f k = record { run = k }

  after_keeps :
      {A B : Type 0} (r : Result A × Coordinator) (f : A → M B)
      → P r.1
      → ((a : A) → Keeps P (f a))
      → P (after r f).1
  unfolding after
  after_keeps (ok a, s) f h k = (k a).run s h
  after_keeps (threw, s) f h k = h

  pub keep_bind :
      {A B : Type 0} {m : M A} {f : A → M B}
      → Keeps P m
      → ((a : A) → Keeps P (f a))
      → Keeps P (m >>= f)
  unfolding ◌>>=◌
  keep_bind {m = m} {f = f} km kf = record { run = λ s h. after_keeps (m s) f (km.run s h) kf }

  pub keep_seq :
      {B : Type 0} {m : M (Unit {0})} {k : M B} → Keeps P m → Keeps P k → Keeps P (m >> k)
  unfolding ◌>>◌
  keep_seq {m = m} {k = k} km kk = record {
    run = λ s h. after_keeps (m s) (λ _. k) (km.run s h) (λ _. kk);
  }

  rescue_keeps :
      {A : Type 0} (r : Result A × Coordinator) (h : M A) → P r.1 → Keeps P h → P (rescue r h).1
  unfolding rescue
  rescue_keeps (ok a, s) h p k = p
  rescue_keeps (threw, s) h p k = k.run s p

  pub keep_attempt : {A : Type 0} {m h : M A} → Keeps P m → Keeps P h → Keeps P (attempt m h)
  unfolding attempt
  keep_attempt {m = m} {h = h} km kh = record { run = λ s p. rescue_keeps (m s) h (km.run s p) kh }

  pub keep_with :
      {A : Type 0} {f : Coordinator → M A}
      → ((s : Coordinator) → Keeps P (f s))
      → Keeps P (with_state f)
  unfolding with_state
  keep_with {f = f} k = record { run = λ s h. (k s).run s h }

  pub keep_option :
      {A X : Type 0} (o : Option X) {absent : M A} {present : X → M A}
      → Keeps P absent
      → ((x : X) → Keeps P (present x))
      → Keeps P (option o absent present)
  unfolding option
  keep_option none ka kp = ka
  keep_option (some x) ka kp = kp x

  -- What the state shows is known where it is used.
  pub keep_found :
      {A X : Type 0} (o : Coordinator → Option X) (present : Coordinator → X → M A) {absent : M A}
      → Keeps P absent
      → ((s : Coordinator) (x : X) → o s ≡ some x → P s → P (present s x s).1)
      → Keeps P (with_state (λ s. option (o s) absent (present s)))
  unfolding with_state option
  keep_found o present ka kp = record {
    run = λ s p. elim (Option-cases (o s)) [
      | inl e ↦ rw (e, option) (ka.run s p)
      | inr (x, e) ↦ rw (e, option) (kp s x e p)
    ];
  }

  pub keep_if :
      {A : Type 0} (b : Bool) {m n : M A} → Keeps P m → Keeps P n → Keeps P (if b then m else n)
  keep_if true km kn = km
  keep_if false km kn = kn

  pub keep_for_each :
      {A : Type 0} (xs : List A) {f : A → M (Unit {0})}
      → ((x : A) → Keeps P (f x))
      → Keeps P (for_each xs f)
  unfolding for_each
  keep_for_each [] k = keep_done
  keep_for_each (x ∷ xs) {f = f} k = keep_seq (k x) (keep_for_each xs k)

-- Predicates that the sockets have no part in.
module _ {P : Coordinator → Type 0}
    (free : (s : Coordinator) (ws : List Socket) (n : ℕ)
      → P s
      → P (record s { sockets = ws; next_handle = n })) where
  pub keep_send : (rt : Runtime) (h : ℕ) (msg : Message) → Keeps P (send rt h msg)
  unfolding send
  keep_send rt h msg = record {
    run = λ s p. elim (Bool-cases (rt.send_throws s.sockets h msg)) [
      | inl e ↦ rw e p
      | inr e ↦ rw e (free s _ s.next_handle p)
    ];
  }

  pub keep_close : (rt : Runtime) (h code : ℕ) (reason : String) → Keeps P (close rt h code reason)
  unfolding close
  keep_close rt h code reason = record {
    run = λ s p. elim (Bool-cases (rt.close_throws s.sockets h)) [
      | inl e ↦ rw e p
      | inr e ↦ rw e (free s _ s.next_handle p)
    ];
  }

  pub keep_accept : (a : Attachment) → Keeps P (accept_socket a)
  unfolding accept_socket
  keep_accept a = record { run = λ s p. free s _ _ p }

pub ruleset keep_rules = (
  keep_option, keep_if, keep_with, keep_seq, keep_bind, keep_attempt, keep_for_each, keep_done,
  keep_return, keep_throw, keep_modify,
)
