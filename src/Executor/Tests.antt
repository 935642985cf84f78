-- ===== src/Executor/Tests.antt =====
-- A machine that is claimed, accepted, renamed and revoked.
use kazibee_home.Prelude.{
  inl, inr, ℕ, String, if◌then◌else◌, Bool, true, false, none, some, List, [], ◌∷◌, ◌≡◌, ◌≤◌, ◌<◌,
  ◌⊎◌, refl,
}
use kazibee_home.Prelude.Map
use kazibee_home.Executor.Rows.{ClaimRow, ExecutorRow}
use kazibee_home.Executor.Store.{
  Database, statement, next_failure, find_claim_by_key, claim_where, find_claim, find_executor,
  create_executor, create_executor_rows, taken, create_claim, create_claim_rows, append_event,
  decide_pending, update, is_open, decided, accept_owner, is_unowned, owned_by, create_credential,
  create_credential_rows, revoke_owned, is_active_of, revoked_row, revoke_credentials, revoke_all,
}
use kazibee_home.Executor.Flows.{
  Tools, Surroundings, Actor, browser_session, ClaimCreateInput, ClaimDecisionInput,
  ClaimDecisionResult, accepted, transact, ended, ask, resume, option, answer, roll_back,
}
use kazibee_home.Executor.Claims.{
  claim_flow, new_claim, register, retry_claim, is_retry, answer_created, answer_challenge,
  create_failed, short_code, envelope_hash,
}
use kazibee_home.Executor.Decisions.{
  decide_flow, decide_claim, accept_claim, own_executor, is_newly_owned, grant_credential,
  answer_accepted,
}
use kazibee_home.Executor.Owners.{
  revoke_flow, answer_revoked, is_fenced, status_flow, accepted_status,
}
use kazibee_home.Executor.Granting.{CanAccept, accepted_machine_is_told}
use kazibee_home.Executor.Ending.{has_live, revocation_ends_credentials}
use kazibee_home.Executor.Operations.{Operation, perform, perform_all}
use kazibee_home.Executor.Later.{rank}
use kazibee_home.Executor.Promises.{owners_are_kept, decision_is_final}
use kazibee_home.Executor.Rollback.{
  is_decided, is_created, is_revocation, failed_decision_changes_nothing,
  refused_claim_changes_nothing, refused_revocation_changes_nothing,
}
use kazibee_home.Executor.Quiet.{rows}

abbrev tools : Tools
tools = record {
  hash = λ s. s;
  digest = λ s. 1 ∷ 2 ∷ 3 ∷ 4 ∷ 5 ∷ 6 ∷ 7 ∷ 8 ∷ [];
  stringify = λ l. "envelope";
  from_codes = λ l. "BCDE-FGHI";
}

abbrev at_time : ℕ → Surroundings
at_time now = record {
  now = now;
  audit_event_id = "aud_1";
  credential_id = "crd_1";
  claim_base_url = some "https://example.test";
  deployment = some "dep_1";
}

abbrev input : ClaimCreateInput
input = record {
  kind = "claim.create";
  protocol_version = "1";
  claim_id = "clm_1";
  executor_id = "exe_1";
  device_id = "dev_1";
  actor_role = "executor";
  display_name = "Desk";
  platform = "darwin";
  architecture = "arm64";
  executor_version = "1.0.0";
  key_fingerprint = "fp_1";
  idempotency_key = "key_1";
  correlation_id = "cor_1";
}

abbrev decision : Bool → String → ClaimDecisionInput
decision accepts key = record {
  claim_id = "clm_1";
  accepts = accepts;
  idempotency_key = key;
  correlation_id = "cor_2";
}

abbrev user : Actor
user = browser_session "usr_1"

abbrev nothing : Database
nothing = record { executors = []; claims = []; credentials = []; audit = []; failures = [] }

-- The claim is made and accepted.
abbrev owned : Database
owned =
    perform_all tools
      ((at_time 1000, Operation.create_claim input "tok_1")
        ∷ (at_time 2000, Operation.decide user (decision true "key_2"))
        ∷ [])
      nothing

abbrev calls : List (Surroundings × Operation)
calls =
    (at_time 3000, Operation.rename user "exe_1" "Lamp" "cor_3")
    ∷ (at_time 4000, Operation.revoke user "exe_1" "cor_4")
    ∷ (at_time 5000, Operation.create_claim input "tok_2")
    ∷ []

abbrev owned_row : ExecutorRow
owned_row = record {
  executor_id = "exe_1";
  device_id = "dev_1";
  owner_user_id = some "usr_1";
  display_name = "Desk";
  platform = "darwin";
  architecture = "arm64";
  executor_version = "1.0.0";
  key_fingerprint = "fp_1";
  state = kazibee_home.Executor.Rows.ExecutorState.active;
  credential_generation = 1;
  created_at = 1000;
  claimed_at = some 2000;
  updated_at = 2000;
  last_seen_at = 1000;
}

abbrev accepted_row : ClaimRow
accepted_row = record {
  claim_id = "clm_1";
  executor_id = "exe_1";
  bootstrap_token_hash = "tok_1";
  short_code_hash = "BCDE-FGHI";
  idempotency_key = "key_1";
  envelope_hash = "envelope";
  status = kazibee_home.Executor.Rows.ClaimStatus.accepted;
  created_at = 1000;
  expires_at = 601000;
  decided_at = some 2000;
  decided_by_user_id = some "usr_1";
  decision_idempotency_key = some "key_2";
}

-- The claim is made, and the write of its owner fails.
abbrev unlucky : Database
unlucky =
    let d : Database =
      perform_all tools ((at_time 1000, Operation.create_claim input "tok_1") ∷ []) nothing in
    record d { failures = false ∷ false ∷ false ∷ true ∷ [] }

-- What the calls come to.
calls_come_to :
    (Map.get "exe_1" owned.executors ≡ some owned_row)
    × (Map.get "clm_1" owned.claims ≡ some accepted_row)
    × (is_decided (transact (decide_flow (at_time 2000) user (decision true "key_2")) unlucky).0
        ≡ false)
    × (is_created (transact (claim_flow tools (at_time 5000) input "tok_2") owned).0 ≡ false)
    × (is_revocation
          (transact (revoke_flow (at_time 5000) (browser_session "usr_2") "exe_1" "cor_5") owned).0
        ≡ false)
    × (is_revocation (transact (revoke_flow (at_time 4000) user "exe_1" "cor_4") owned).0 ≡ true)
unfolding perform_all perform transact ended claim_flow new_claim register answer_created
    answer_challenge create_failed ask resume option answer roll_back statement find_claim_by_key
    claim_where find_claim find_executor create_executor create_executor_rows taken create_claim
    create_claim_rows append_event short_code envelope_hash Map.get Map.set decide_flow decide_claim
    accept_claim own_executor is_newly_owned grant_credential answer_accepted decide_pending update
    is_open decided accept_owner is_unowned owned_by create_credential create_credential_rows
    retry_claim is_retry revoke_flow revoke_owned is_active_of revoked_row revoke_credentials
    revoke_all answer_revoked is_fenced
calls_come_to = (refl, refl, refl, refl, refl, refl)

owners_are_kept_example :
    (s : ExecutorRow) × (Map.get "exe_1" (perform_all tools calls owned).executors ≡ some s)
    × (s.owner_user_id ≡ some "usr_1")
    × (1 ≤ rank s.state)
    × (1 ≤ s.credential_generation)
    × ((1 < rank s.state) ⊎ (1 ≡ s.credential_generation))
owners_are_kept_example =
    owners_are_kept tools calls owned "exe_1" "usr_1" owned_row calls_come_to.0 refl

decision_is_final_example :
    (Map.get "clm_1" (perform_all tools calls owned).claims ≡ some accepted_row)
    × ((transact
          (decide_flow (at_time 6000) user (decision false "key_3"))
          (perform_all tools calls owned)).0
        ≡ (if next_failure (perform_all tools calls owned).failures
            then ClaimDecisionResult.failed
            else ClaimDecisionResult.replayed))
decision_is_final_example =
    decision_is_final tools calls owned accepted_row (at_time 6000) "usr_1" (decision false "key_3")
      calls_come_to.1 refl (inr (inl refl))

failed_decision_changes_nothing_example :
    rows (transact (decide_flow (at_time 2000) user (decision true "key_2")) unlucky).1
    ≡ rows unlucky
failed_decision_changes_nothing_example =
    failed_decision_changes_nothing (at_time 2000) user (decision true "key_2") unlucky
      calls_come_to.2

refused_claim_changes_nothing_example :
    rows (transact (claim_flow tools (at_time 5000) input "tok_2") owned).1 ≡ rows owned
refused_claim_changes_nothing_example =
    refused_claim_changes_nothing tools (at_time 5000) input "tok_2" owned calls_come_to.3

refused_revocation_changes_nothing_example :
    rows (transact (revoke_flow (at_time 5000) (browser_session "usr_2") "exe_1" "cor_5") owned).1
    ≡ rows owned
refused_revocation_changes_nothing_example =
    refused_revocation_changes_nothing (at_time 5000) (browser_session "usr_2") "exe_1" "cor_5"
      owned calls_come_to.4

revocation_ends_credentials_example :
    has_live "exe_1"
      (transact (revoke_flow (at_time 4000) user "exe_1" "cor_4") owned).1.credentials
    ≡ false
revocation_ends_credentials_example =
    revocation_ends_credentials (at_time 4000) "usr_1" "exe_1" "cor_4" owned owned_row
      calls_come_to.0 refl calls_come_to.5

abbrev claimed : Database
claimed = perform_all tools ((at_time 1000, Operation.create_claim input "tok_1") ∷ []) nothing

abbrev claimed_row : ClaimRow
claimed_row = record accepted_row {
  status = kazibee_home.Executor.Rows.ClaimStatus.pending;
  decided_at = none;
  decided_by_user_id = none;
  decision_idempotency_key = none;
}

abbrev pending_row : ExecutorRow
pending_row = record owned_row {
  owner_user_id = none;
  state = kazibee_home.Executor.Rows.ExecutorState.pending;
  credential_generation = 0;
  claimed_at = none;
  updated_at = 1000;
}

claimed-CanAccept :
    CanAccept (at_time 2000) (decision true "key_2") claimed_row pending_row "dep_1" claimed
unfolding perform_all perform transact ended claim_flow new_claim register answer_created
    answer_challenge create_failed ask resume option answer roll_back statement find_claim_by_key
    claim_where find_claim find_executor create_executor create_executor_rows taken create_claim
    create_claim_rows append_event short_code envelope_hash Map.get Map.set is_unowned
claimed-CanAccept = record {
  works = refl;
  claim = refl;
  claim_id = refl;
  is_pending = refl;
  in_time = refl;
  accepts = refl;
  executor = refl;
  executor_id = refl;
  unowned = refl;
  new_id = refl;
  new_token = refl;
  new_generation = refl;
  identity = refl;
}

accepted_machine_is_told_example :
    ((transact (decide_flow (at_time 2000) user (decision true "key_2")) claimed).0
      ≡ accepted "dep_1")
    × ((status_flow tools
          (at_time 3000)
          "clm_1"
          (some "tok_1")
          (transact (decide_flow (at_time 2000) user (decision true "key_2")) claimed).1).0
        ≡ accepted_status "dep_1" "exe_1" "dev_1" 1 "usr_1")
accepted_machine_is_told_example =
    accepted_machine_is_told tools (at_time 2000) (at_time 3000) (decision true "key_2") claimed_row
      pending_row "dep_1" "usr_1" "tok_1" claimed claimed-CanAccept refl refl refl refl
