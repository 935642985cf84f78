-- ===== src/Executor/Ending.antt =====
-- A revocation ends the credentials of the executor.
use kazibee_home.Prelude.{
  ℕ, String, str_eq, if◌then◌else◌, Bool, true, false, ◌&&◌, ◌||◌, Option, none, some, [], ◌∷◌, ◌≡◌,
  ◌∙◌, refl, ap, arith, ◌⊎◌, inl, inr, Bool-cases,
}
use kazibee_home.Prelude.Map
use kazibee_home.Prelude.Map.{Map}
use kazibee_home.Executor.Rows.{ExecutorRow, CredentialRow, is_revoked, AuditEvent}
use kazibee_home.Executor.Store.{
  Database, Reply, lost, got, Statement, statement, next_failure, find_executor, revoke_owned,
  revoke_credentials, revoke_all, append_event, is_text,
}
use kazibee_home.Executor.Flows.{
  Surroundings, browser_session, OwnerMutationResult, Flow, answer, roll_back, resume, ask, option,
  ended, transact,
}
use kazibee_home.Executor.Owners.{mutation_failed, revoke_flow, answer_revoked}
use kazibee_home.Executor.Rollback.{is_revocation}

-- Whether the executor has a credential that is live.
abbrev pub has_live : (executor_id : String) → Map CredentialRow → Bool
has_live id [] = false
has_live id ((k, c) ∷ m) = (str_eq c.executor_id id && c.is_live) || has_live id m

has_live-revoke_all :
    (id : String) (at : ℕ) (m : Map CredentialRow) → has_live id (revoke_all id at m) ≡ false
unfolding revoke_all
has_live-revoke_all id at [] = refl
has_live-revoke_all id at ((k, c) ∷ m) = elim (Bool-cases (str_eq c.executor_id id && c.is_live)) [
  | inl e ↦ rw (e, has_live-revoke_all id at m) (ground arith)
  | inr e ↦ rw (e, has_live-revoke_all id at m) (ground (arith, e))
]

-- An answer that is no revocation, or one that is not rolled back and leaves no live credential of the
-- executor.
abbrev Settled : (executor_id : String) → OwnerMutationResult × Bool × Database → Type 0
Settled id o = (is_revocation o.0 ≡ false) ⊎ ((o.1 ≡ false) × (has_live id o.2.credentials ≡ false))

record Ends (id : String) (m : Flow OwnerMutationResult) : Type 0 where
  run : (d : Database) → has_live id d.credentials ≡ false → Settled id (m d)

record Wins (id : String) (m : Flow OwnerMutationResult) : Type 0 where
  run : (d : Database) → Settled id (m d)

record IsAside {A : Type 0} (m : Statement A) : Type 0 where
  run : (d : Database) → (m d).1.credentials ≡ d.credentials

module _ (id : String) where
  answer-Ends : (r : OwnerMutationResult) → Ends id (answer r)
  unfolding answer
  answer-Ends r = record { run = λ d h. inr (refl, h) }

  roll_back-Ends : (r : OwnerMutationResult) → is_revocation r ≡ false → Ends id (roll_back r)
  unfolding roll_back
  roll_back-Ends r h = record { run = λ d k. inl h }

  ask-Ends :
      {A : Type 0} (m : Statement A) (fail : Bool → Flow OwnerMutationResult)
      (k : A → Flow OwnerMutationResult)
      → IsAside m
      → ((u : Bool) → Ends id (fail u))
      → ((a : A) → Ends id (k a))
      → Ends id (ask m fail k)
  unfolding ask resume
  ask-Ends {A} m fail k hm hf hk = record {
    run = λ d h. resumed (m d) (ap (has_live id) (hm.run d) ∙ h);
  }
    where
      resumed :
          (o : Reply A × Database)
          → has_live id o.1.credentials ≡ false
          → Settled id (resume o fail k)
      resumed (lost u, e) h = (hf u).run e h
      resumed (got a, e) h = (hk a).run e h

  option-Ends :
      {A : Type 0} (o : Option A) (absent : Flow OwnerMutationResult)
      (present : A → Flow OwnerMutationResult)
      → Ends id absent
      → ((a : A) → Ends id (present a))
      → Ends id (option o absent present)
  unfolding option
  option-Ends none absent present h k = h
  option-Ends (some a) absent present h k = k a

  if-Ends :
      (b : Bool) (f g : Flow OwnerMutationResult)
      → Ends id f
      → Ends id g
      → Ends id (if b then f else g)
  if-Ends true f g hf hg = hf
  if-Ends false f g hf hg = hg

  roll_back-Wins : (r : OwnerMutationResult) → is_revocation r ≡ false → Wins id (roll_back r)
  unfolding roll_back
  roll_back-Wins r h = record { run = λ d. inl h }

  answer-Wins : (r : OwnerMutationResult) → is_revocation r ≡ false → Wins id (answer r)
  unfolding answer
  answer-Wins r h = record { run = λ d. inl h }

  ask-Wins :
      {A : Type 0} (m : Statement A) (fail : Bool → Flow OwnerMutationResult)
      (k : A → Flow OwnerMutationResult)
      → ((u : Bool) → Wins id (fail u))
      → ((a : A) → Wins id (k a))
      → Wins id (ask m fail k)
  unfolding ask resume
  ask-Wins {A} m fail k hf hk = record { run = λ d. resumed (m d) }
    where
      resumed : (o : Reply A × Database) → Settled id (resume o fail k)
      resumed (lost u, e) = (hf u).run e
      resumed (got a, e) = (hk a).run e

  ask-revoke_credentials :
      (at : ℕ) (fail : Bool → Flow OwnerMutationResult) (k : Unit {0} → Flow OwnerMutationResult)
      → ((u : Bool) → Wins id (fail u))
      → ((a : Unit {0}) → Ends id (k a))
      → Wins id (ask (revoke_credentials id at) fail k)
  unfolding ask resume revoke_credentials statement
  ask-revoke_credentials at fail k hf hk = record {
    run = λ d. elim (Bool-cases (next_failure d.failures)) [
      | inl e ↦ rw e ((hf false).run _)
      | inr e ↦ rw e ((hk tt).run _ (has_live-revoke_all id at d.credentials))
    ];
  }

  transact_wins :
      (m : Flow OwnerMutationResult) (d : Database)
      → Settled id (m d)
      → is_revocation (transact m d).0 ≡ true
      → has_live id (transact m d).1.credentials ≡ false
  unfolding transact ended
  transact_wins m d w h = at_end (m d) w h
    where
      at_end :
          (o : OwnerMutationResult × Bool × Database)
          → Settled id o
          → is_revocation (ended d o).0 ≡ true
          → has_live id (ended d o).1.credentials ≡ false
      at_end (r, true, e) (inl x) h = cc
      at_end (r, true, e) (inr x) h = let y = x.0 in cc
      at_end (r, false, e) (inl x) h = cc
      at_end (r, false, e) (inr x) h = x.1

is_aside :
    {A : Type 0} (f : Statement A)
    → ((d : Database) → (f d).1.credentials ≡ d.credentials)
    → IsAside (statement f)
unfolding statement
is_aside f h = record {
  run = λ d. elim (Bool-cases (next_failure d.failures)) [ inl e ↦ rw e refl | inr e ↦ rw e (h _) ];
}

find_executor-IsAside : (id : String) → IsAside (find_executor id)
unfolding find_executor
find_executor-IsAside id = is_aside _ (λ d. refl)

append_event-IsAside : (e : AuditEvent) → IsAside (append_event e)
unfolding append_event
append_event-IsAside e = is_aside _ (λ d. refl)

ruleset ending = (
  refl, answer-Ends, roll_back-Ends, ask-Ends, option-Ends, if-Ends, find_executor-IsAside,
  append_event-IsAside,
)

answer_revoked-Ends :
    (at : Surroundings) (u id correlation : String) (e : ExecutorRow)
    → Ends id (answer_revoked at u id correlation e)
unfolding answer_revoked
answer_revoked-Ends at u id correlation e = search ending depth 12 fits 4000

-- The writes of the revocation.
writes-Wins :
    (at : Surroundings) (u id correlation : String) (r : ExecutorRow)
    → Wins id (
        ask (revoke_owned id u at.now) mutation_failed (λ _.
          ask
            (revoke_credentials id at.now)
            mutation_failed
            (λ _. answer_revoked at u id correlation r)))
writes-Wins at u id correlation r =
    ask-Wins id (revoke_owned id u at.now) _ _ (λ b. roll_back-Wins id _ refl)
      (λ _.
        ask-revoke_credentials id at.now _ _ (λ b. roll_back-Wins id _ refl)
          (λ _. answer_revoked-Ends at u id correlation r))

-- Where the executor is not revoked yet.
revoke_flow-Wins :
    (at : Surroundings) (u id correlation : String) (d : Database) (r : ExecutorRow)
    → Map.get id d.executors ≡ some r
    → is_revoked r.state ≡ false
    → Settled id (revoke_flow at (browser_session u) id correlation d)
unfolding revoke_flow ask resume find_executor statement option answer
revoke_flow-Wins at u id correlation d r h n = elim (Bool-cases (next_failure d.failures)) [
  | inl e ↦ rw e (inl refl)
  | inr e ↦ elim (Bool-cases (is_text u r.owner_user_id)) [
    | inl o ↦ rw (e, h, n, o) ((writes-Wins at u id correlation r).run _)
    | inr o ↦ rw (e, h, n, o) (inl refl)
  ]
]

-- A revocation of an executor that was not revoked, answered with the revoked executor, leaves it no
-- live credential.
pub revocation_ends_credentials :
    (at : Surroundings) (user_id id correlation : String) (d : Database) (r : ExecutorRow)
    → Map.get id d.executors ≡ some r
    → is_revoked r.state ≡ false
    → is_revocation (transact (revoke_flow at (browser_session user_id) id correlation) d).0 ≡ true
    → has_live id
        (transact (revoke_flow at (browser_session user_id) id correlation) d).1.credentials
      ≡ false
revocation_ends_credentials at user_id id correlation d r h n =
    transact_wins id (revoke_flow at (browser_session user_id) id correlation) d
      (revoke_flow-Wins at user_id id correlation d r h n)
