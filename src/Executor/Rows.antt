-- ===== src/Executor/Rows.antt =====
-- The rows of src/server/repo/connect_executor_repo, connect_executor_claim_repo,
-- connect_executor_credential_repo and connect_executor_audit_repo. A time is a number of
-- milliseconds.
use kazibee_home.Prelude.{ℕ, String, Bool, true, false, Option}

pub data ExecutorState : Type 0 where
  pending active revoked : ExecutorState

abbrev pub is_pending : ExecutorState → Bool
is_pending pending = true
is_pending _ = false

abbrev pub is_active : ExecutorState → Bool
is_active active = true
is_active _ = false

abbrev pub is_revoked : ExecutorState → Bool
is_revoked revoked = true
is_revoked _ = false

pub record ExecutorRow : Type 0 where
  pub executor_id : String
  pub device_id : String
  pub owner_user_id : Option String
  pub display_name : String
  pub platform : String
  pub architecture : String
  pub executor_version : String
  pub key_fingerprint : String
  pub state : ExecutorState
  pub credential_generation : ℕ
  pub created_at : ℕ
  pub claimed_at : Option ℕ
  pub updated_at : ℕ
  pub last_seen_at : ℕ

pub data ClaimStatus : Type 0 where
  pending accepted denied : ClaimStatus

pub record ClaimRow : Type 0 where
  pub claim_id : String
  pub executor_id : String
  pub bootstrap_token_hash : String
  pub short_code_hash : String
  pub idempotency_key : String
  pub envelope_hash : String
  pub status : ClaimStatus
  pub created_at : ℕ
  pub expires_at : ℕ
  pub decided_at : Option ℕ
  pub decided_by_user_id : Option String
  pub decision_idempotency_key : Option String

pub record CredentialRow : Type 0 where
  pub credential_id : String
  pub executor_id : String
  pub generation : ℕ
  pub token_hash : String
  pub is_live : Bool
  pub created_at : ℕ
  pub revoked_at : Option ℕ

pub data AuditKind : Type 0 where
  claim_created claim_accepted claim_denied executor_renamed executor_revoked : AuditKind

pub record AuditEvent : Type 0 where
  pub audit_event_id : String
  pub executor_id : String
  pub claim_id : Option String
  pub actor_user_id : Option String
  pub event_kind : AuditKind
  pub credential_generation : ℕ
  pub occurred_at : ℕ
  pub correlation_id : String

-- The answer of a repository: the value, or a failure.
pub data RepoResult (A : Type 0) : Type 0 where
  failed : RepoResult A
  ok : A → RepoResult A
