-- ===== src/Executor/Store.antt =====
-- The statements of src/server/repo/connect_executor_repo, connect_executor_claim_repo,
-- connect_executor_credential_repo and connect_executor_audit_repo that the claim and ownership flows
-- run. `failures` says which of the next statements fail for a reason outside the model. The unique
-- keys of the tables are those of the migrations; their other checks are outside.
use kazibee_home.Prelude.{
  ℕ, String, ◌+◌, ◌==◌, ltb, str_eq, if◌then◌else◌, Bool, true, false, not, ◌&&◌, ◌||◌, Option,
  none, some, is_some, List, [], ◌∷◌,
}
use kazibee_home.Prelude.Map
use kazibee_home.Prelude.Map.{Map}
use kazibee_home.Executor.Rows.{
  ExecutorState, ExecutorRow, is_active, is_pending, ClaimStatus, ClaimRow, CredentialRow,
  AuditEvent,
}

-- The rows by their primary keys.
pub record Database : Type 0 where
  pub executors : Map ExecutorRow
  pub claims : Map ClaimRow
  pub credentials : Map CredentialRow
  pub audit : List AuditEvent
  pub failures : List Bool

-- The answer of a statement; a failure is that of a unique key, or another.
pub data Reply (A : Type 0) : Type 0 where
  lost : (unique : Bool) → Reply A
  got : A → Reply A

abbrev pub Statement : Type 0 → Type 0
Statement A = Database → Reply A × Database

abbrev pub next_failure : List Bool → Bool
next_failure [] = false
next_failure (b ∷ bs) = b

abbrev pub later_failures : List Bool → List Bool
later_failures [] = []
later_failures (b ∷ bs) = bs

unfoldable pub statement : {A : Type 0} → Statement A → Statement A
statement f db =
    let db' : Database = record db { failures = later_failures db.failures } in
    if next_failure db.failures then (lost false, db') else f db'

-- `field = :value` for a text that may be null in the row
abbrev pub is_text : String → Option String → Bool
is_text s none = false
is_text s (some t) = str_eq t s

abbrev pub is_claim_pending : ClaimStatus → Bool
is_claim_pending ClaimStatus.pending = true
is_claim_pending _ = false

-- Whether another row holds a value that must be unique.
unfoldable pub taken {ℓ} : {V : Type ℓ} → (V → Bool) → (key : String) → Map V → Bool
taken test key [] = false
taken test key ((k, v) ∷ m) = (not (str_eq k key) && test v) || taken test key m

-- An UPDATE of the row with this key, where it passes the test.
unfoldable pub update {ℓ} : {V : Type ℓ} → (key : String) → (V → Bool) → (V → V) → Map V → Map V
update key test change m = elim (Map.get key m) [
  | none ↦ m
  | some v ↦ if test v then Map.set key (change v) m else m
]

unfoldable pub find_executor : String → Statement (Option ExecutorRow)
find_executor id = statement (λ db. (got (Map.get id db.executors), db))

unfoldable pub create_executor_rows : ExecutorRow → Statement (Unit {0})
create_executor_rows e db =
    if Map.has e.executor_id db.executors
      || taken (λ o. str_eq o.device_id e.device_id) e.executor_id db.executors
    then (lost true, db)
    else (got tt, record db { executors = Map.set e.executor_id e db.executors })

unfoldable pub create_executor : ExecutorRow → Statement (Unit {0})
create_executor e = statement (create_executor_rows e)

-- The columns that `refreshPending` sets.
unfoldable pub refreshed : ExecutorRow → ExecutorRow → ExecutorRow
refreshed e old = record old {
  device_id = e.device_id;
  display_name = e.display_name;
  platform = e.platform;
  architecture = e.architecture;
  executor_version = e.executor_version;
  key_fingerprint = e.key_fingerprint;
  updated_at = e.updated_at;
  last_seen_at = e.last_seen_at;
}

unfoldable pub refresh_pending_rows : ExecutorRow → Statement (Unit {0})
unfolding refreshed
refresh_pending_rows e db =
    if taken (λ o. str_eq o.device_id e.device_id) e.executor_id db.executors
    then (lost true, db)
    else (
      got tt,
      record db {
        executors = update e.executor_id (λ o. is_pending o.state) (refreshed e) db.executors;
      },
    )

unfoldable pub refresh_pending : ExecutorRow → Statement (Unit {0})
refresh_pending e = statement (refresh_pending_rows e)

unfoldable pub is_unowned : ExecutorRow → Bool
is_unowned e = is_pending e.state && not (is_some e.owner_user_id) && e.credential_generation == 0

unfoldable pub owned_by : (user_id : String) (at : ℕ) → ExecutorRow → ExecutorRow
owned_by user_id at e = record e {
  owner_user_id = some user_id;
  state = ExecutorState.active;
  credential_generation = 1;
  claimed_at = some at;
  updated_at = at;
}

unfoldable pub accept_owner : (id user_id : String) (at : ℕ) → Statement (Unit {0})
unfolding owned_by is_unowned
accept_owner id user_id at = statement (λ db.
    (got tt, record db { executors = update id is_unowned (owned_by user_id at) db.executors }))

unfoldable pub is_active_of : (user_id : String) → ExecutorRow → Bool
is_active_of user_id e = is_text user_id e.owner_user_id && is_active e.state

unfoldable pub rename_owned : (id user_id name : String) (at : ℕ) → Statement (Unit {0})
unfolding is_active_of
rename_owned id user_id name at = statement (λ db. (
  got tt,
  record db {
    executors =
        update id (is_active_of user_id) (λ e. record e { display_name = name; updated_at = at })
          db.executors;
  },
))

unfoldable pub revoked_row : (at : ℕ) → ExecutorRow → ExecutorRow
revoked_row at e = record e {
  state = ExecutorState.revoked;
  credential_generation = e.credential_generation + 1;
  updated_at = at;
}

unfoldable pub revoke_owned : (id user_id : String) (at : ℕ) → Statement (Unit {0})
unfolding is_active_of revoked_row
revoke_owned id user_id at = statement (λ db. (
  got tt,
  record db { executors = update id (is_active_of user_id) (revoked_row at) db.executors },
))

unfoldable pub find_claim : String → Statement (Option ClaimRow)
find_claim id = statement (λ db. (got (Map.get id db.claims), db))

-- The first claim that passes the test, by a column that is unique.
unfoldable pub claim_where : (ClaimRow → Bool) → Map ClaimRow → Option ClaimRow
claim_where test [] = none
claim_where test ((k, c) ∷ m) = if test c then some c else claim_where test m

unfoldable pub find_claim_by_code : (code_hash : String) → Statement (Option ClaimRow)
unfolding claim_where
find_claim_by_code code_hash =
    statement (λ db. (got (claim_where (λ c. str_eq c.short_code_hash code_hash) db.claims), db))

unfoldable pub find_claim_by_key : (idempotency_key : String) → Statement (Option ClaimRow)
unfolding claim_where
find_claim_by_key key =
    statement (λ db. (got (claim_where (λ c. str_eq c.idempotency_key key) db.claims), db))

-- Each of the claim's four keys is unique, and its executor is there.
unfoldable pub create_claim_rows : ClaimRow → Statement (Unit {0})
create_claim_rows c db =
    if Map.has c.claim_id db.claims
      || taken (λ o. str_eq o.executor_id c.executor_id) c.claim_id db.claims
      || taken (λ o. str_eq o.short_code_hash c.short_code_hash) c.claim_id db.claims
      || taken (λ o. str_eq o.idempotency_key c.idempotency_key) c.claim_id db.claims
    then (lost true, db)
    else if not (Map.has c.executor_id db.executors)
    then (lost false, db)
    else (got tt, record db { claims = Map.set c.claim_id c db.claims })

unfoldable pub create_claim : ClaimRow → Statement (Unit {0})
create_claim c = statement (create_claim_rows c)

unfoldable pub without_pending : (executor_id : String) → Map ClaimRow → Map ClaimRow
without_pending executor_id [] = []
without_pending executor_id ((k, c) ∷ m) =
    let rest = without_pending executor_id m in
    if str_eq c.executor_id executor_id && is_claim_pending c.status then rest else (k, c) ∷ rest

unfoldable pub delete_pending_claims : (executor_id : String) → Statement (Unit {0})
unfolding without_pending
delete_pending_claims executor_id =
    statement (λ db. (got tt, record db { claims = without_pending executor_id db.claims }))

unfoldable pub decided : ClaimStatus → (user_id key : String) (at : ℕ) → ClaimRow → ClaimRow
decided status user_id key at c = record c {
  status = status;
  decided_at = some at;
  decided_by_user_id = some user_id;
  decision_idempotency_key = some key;
}

unfoldable pub is_open : (at : ℕ) → ClaimRow → Bool
is_open at c = is_claim_pending c.status && ltb at c.expires_at

-- `acceptPending` and `denyPending`
unfoldable pub decide_pending :
    ClaimStatus → (id user_id key : String) (at : ℕ) → Statement (Unit {0})
unfolding decided is_open
decide_pending status id user_id key at = statement (λ db. (
  got tt,
  record db { claims = update id (is_open at) (decided status user_id key at) db.claims },
))

-- The first credential that passes the test, by a column that is unique.
unfoldable pub credential_where : (CredentialRow → Bool) → Map CredentialRow → Option CredentialRow
credential_where test [] = none
credential_where test ((k, c) ∷ m) = if test c then some c else credential_where test m

unfoldable pub find_credential : (token_hash : String) → Statement (Option CredentialRow)
unfolding credential_where
find_credential token_hash =
    statement
      (λ db. (got (credential_where (λ c. str_eq c.token_hash token_hash) db.credentials), db))

unfoldable pub create_credential_rows : CredentialRow → Statement (Unit {0})
create_credential_rows c db =
    if Map.has c.credential_id db.credentials
      || taken (λ o. str_eq o.token_hash c.token_hash) c.credential_id db.credentials
      || taken (λ o. str_eq o.executor_id c.executor_id && o.generation == c.generation)
          c.credential_id db.credentials
    then (lost true, db)
    else (got tt, record db { credentials = Map.set c.credential_id c db.credentials })

unfoldable pub create_credential : CredentialRow → Statement (Unit {0})
create_credential c = statement (create_credential_rows c)

unfoldable pub revoke_all : (executor_id : String) (at : ℕ) → Map CredentialRow → Map CredentialRow
revoke_all executor_id at [] = []
revoke_all executor_id at ((k, c) ∷ m) =
    (
      k,
      (if str_eq c.executor_id executor_id && c.is_live
          then record c { is_live = false; revoked_at = some at }
          else c),
    )
    ∷ revoke_all executor_id at m

unfoldable pub revoke_credentials : (executor_id : String) (at : ℕ) → Statement (Unit {0})
unfolding revoke_all
revoke_credentials executor_id at =
    statement (λ db. (got tt, record db { credentials = revoke_all executor_id at db.credentials }))

unfoldable pub append_event : AuditEvent → Statement (Unit {0})
append_event e = statement (λ db. (got tt, record db { audit = e ∷ db.audit }))
