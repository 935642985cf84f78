-- ===== src/Executor/Flows.antt =====
-- The transactions of src/server/logic/connect_executor.logic.ts in which the flows of
-- src/server/services/connect_executor_service.ts run. A transaction runs alone: two that overlap are
-- not modelled.
use kazibee_home.Prelude.{ℕ, String, ◌*◌, Bool, true, false, Option, none, some, List}
use kazibee_home.Executor.Rows.{ExecutorRow, AuditKind, AuditEvent}
use kazibee_home.Executor.Store.{Database, Reply, lost, got, Statement}

-- Of node:crypto and of the language: `hash` is the SHA-256 of a text in hex and `digest` its bytes,
-- `stringify` is JSON.stringify of an array of texts, `from_codes` joins String.fromCharCode.
pub record Tools : Type 0 where
  pub hash : String → String
  pub digest : String → List ℕ
  pub stringify : List String → String
  pub from_codes : List ℕ → String

abbrev pub claim_lifetime_ms : ℕ
claim_lifetime_ms = 10 * 60 * 1000

pub record ClaimCreateInput : Type 0 where
  pub kind : String
  pub protocol_version : String
  pub claim_id : String
  pub executor_id : String
  pub device_id : String
  pub actor_role : String
  pub display_name : String
  pub platform : String
  pub architecture : String
  pub executor_version : String
  pub key_fingerprint : String
  pub idempotency_key : String
  pub correlation_id : String

pub record ClaimDecisionInput : Type 0 where
  pub claim_id : String
  pub accepts : Bool
  pub idempotency_key : String
  pub correlation_id : String

pub data Actor : Type 0 where
  browser_session : (user_id : String) → Actor
  executor_device : (executor_id device_id : String) (generation : ℕ) → Actor

pub record ClaimChallenge : Type 0 where
  pub claim_id : String
  pub executor_id : String
  pub device_id : String
  pub claim_url : String
  pub short_code : String
  pub display_name : String
  pub platform : String
  pub architecture : String
  pub executor_version : String
  pub key_fingerprint : String
  pub expires_at : ℕ

pub data ClaimCreateResult : Type 0 where
  created retry : ClaimChallenge → ClaimCreateResult
  conflict failed : ClaimCreateResult

-- `raised` is no answer: the call rejects with an error.
pub data ClaimDecisionResult : Type 0 where
  accepted : (website_deployment_id : String) → ClaimDecisionResult
  denied expired replayed not_found failed raised : ClaimDecisionResult

pub data OwnerMutationResult : Type 0 where
  renamed revoked : ExecutorRow → OwnerMutationResult
  not_found failed : OwnerMutationResult

-- A flow inside its transaction: its answer, whether the transaction is marked to roll back, and the
-- database.
abbrev pub Flow : Type 0 → Type 0
Flow R = Database → R × Bool × Database

unfoldable pub answer : {R : Type 0} → R → Flow R
answer r db = (r, false, db)

-- `rollbackOnly` and an answer
unfoldable pub roll_back : {R : Type 0} → R → Flow R
roll_back r db = (r, true, db)

unfoldable pub resume :
    {A R : Type 0} → Reply A × Database → (Bool → Flow R) → (A → Flow R) → R × Bool × Database
resume (lost unique, db) fail k = fail unique db
resume (got a, db) fail k = k a db

-- Runs a statement; where it fails, `fail` is told whether a unique key did.
unfoldable pub ask : {A R : Type 0} → Statement A → (Bool → Flow R) → (A → Flow R) → Flow R
unfolding resume
ask m fail k db = resume (m db) fail k

unfoldable pub option : {A R : Type 0} → Option A → Flow R → (A → Flow R) → Flow R
option none absent present = absent
option (some a) absent present = present a

-- How a transaction ends: the rows of one that is marked stay as they were.
unfoldable pub ended : {R : Type 0} → Database → R × Bool × Database → R × Database
ended db (r, true, db') = (r, record db { failures = db'.failures })
ended db (r, false, db') = (r, db')

-- `@transaction`
unfoldable pub transact : {R : Type 0} → Flow R → Database → R × Database
unfolding ended
transact flow db = ended db (flow db)

-- What a flow reads of its surroundings: the clock, the ids that it draws, the base of claim URLs
-- (none where the configured one is refused with an error), the identity of the deployment.
pub record Surroundings : Type 0 where
  pub now : ℕ
  pub audit_event_id : String
  pub credential_id : String
  pub claim_base_url : Option String
  pub deployment : Option String

module _ (at : Surroundings) where
  abbrev pub audit_event :
      AuditKind
      → (executor_id : String) → (claim_id user_id : Option String) → (generation : ℕ)
      → (correlation_id : String) → AuditEvent
  audit_event kind executor_id claim_id user_id generation correlation_id = record {
    audit_event_id = at.audit_event_id;
    executor_id = executor_id;
    claim_id = claim_id;
    actor_user_id = user_id;
    event_kind = kind;
    credential_generation = generation;
    occurred_at = at.now;
    correlation_id = correlation_id;
  }
