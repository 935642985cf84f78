-- ===== src/Executor/Owners.antt =====
-- Reads, and the owner's rename and revocation, of
-- src/server/services/connect_executor_service.ts.
use kazibee_home.Prelude.{
  ℕ, String, ◌+◌, ◌==◌, leb, str_eq, if◌then◌else◌, Bool, true, false, not, ◌&&◌, ◌||◌, Option,
  none, some,
}
use kazibee_home.Executor.Rows.{
  ExecutorRow, is_active, is_revoked, ClaimStatus, ClaimRow, CredentialRow, AuditKind,
}
use kazibee_home.Executor.Store.{
  Statement, is_text, find_executor, rename_owned, revoke_owned, find_claim, find_claim_by_code,
  find_credential, revoke_credentials, append_event,
}
use kazibee_home.Executor.Flows.{
  Tools, Actor, browser_session, executor_device, OwnerMutationResult, renamed, revoked, Flow,
  answer, roll_back, ask, option, Surroundings, audit_event,
}

-- The status of a claim as it is shown.
pub data ClaimStatusWord : Type 0 where
  pending_claim accepted_claim denied_claim expired_claim : ClaimStatusWord

-- The answers of `status`, `review` and `detail`.
pub data ClaimStatusResult : Type 0 where
  open_status : ClaimStatusWord → ClaimStatusResult
  accepted_status :
      (website_deployment_id executor_id device_id : String) (credential_generation : ℕ)
      (website_account_id : String)
      → ClaimStatusResult
  unauthorized not_found failed : ClaimStatusResult

pub data ClaimReviewResult : Type 0 where
  found : ClaimRow → ExecutorRow → ClaimStatusWord → ClaimReviewResult
  not_found failed : ClaimReviewResult

pub data OwnerResult : Type 0 where
  found : ExecutorRow → OwnerResult
  not_found failed : OwnerResult

-- A failed lookup of a read is answered, and rolls nothing back.
abbrev status_failed : Bool → Flow ClaimStatusResult
status_failed unique = answer ClaimStatusResult.failed

abbrev review_failed : Bool → Flow ClaimReviewResult
review_failed unique = answer ClaimReviewResult.failed

abbrev owner_failed : Bool → Flow OwnerResult
owner_failed unique = answer OwnerResult.failed

abbrev pub mutation_failed : Bool → Flow OwnerMutationResult
mutation_failed unique = roll_back OwnerMutationResult.failed

abbrev pub is_accepted : ClaimStatus → Bool
is_accepted ClaimStatus.accepted = true
is_accepted _ = false

-- A text that is there and not empty.
abbrev present : Option String → Option String
present none = none
present (some s) = if str_eq s "" then none else some s

abbrev owns : Actor → ExecutorRow → Bool
owns (executor_device i d g) e = false
owns (browser_session user_id) e = is_text user_id e.owner_user_id

-- `claimStatus`: a claim that is pending past its time reads as expired.
unfoldable pub claim_status : ℕ → ClaimRow → ClaimStatusWord
claim_status now c = elim c.status [
  | ClaimStatus.pending ↦ if leb c.expires_at now then expired_claim else pending_claim
  | ClaimStatus.accepted ↦ accepted_claim
  | ClaimStatus.denied ↦ denied_claim
]

unfoldable pub review_lookup :
    Tools → (claim_id : Option String) → (code : String) → Statement (Option ClaimRow)
review_lookup tools none code = find_claim_by_code (tools.hash code)
review_lookup tools (some id) code = find_claim id

-- Whether the claim's credential is the executor's current one.
unfoldable pub is_current : ExecutorRow → CredentialRow → Bool
is_current e k = is_active e.state && k.is_live && k.generation == e.credential_generation

module _ (tools : Tools) (at : Surroundings) where
  unfoldable pub answer_status_of : ExecutorRow → CredentialRow → Flow ClaimStatusResult
  unfolding is_current
  answer_status_of e k =
      if not (is_current e k)
      then answer unauthorized
      else option (present e.owner_user_id) (answer unauthorized) (λ owner.
        option at.deployment (status_failed false)
          (λ d. answer (accepted_status d e.executor_id e.device_id k.generation owner)))

  unfoldable pub accepted_claim_status : ClaimRow → Flow ClaimStatusResult
  unfolding answer_status_of
  accepted_claim_status c = ask (find_executor c.executor_id) status_failed (λ executor.
      ask (find_credential c.bootstrap_token_hash) status_failed (λ credential.
        option executor (answer unauthorized)
          (λ e. option credential (answer unauthorized) (λ k. answer_status_of e k))))

  -- `status`; `matchesHash` compares the hash of the token.
  unfoldable pub status_flow :
      (claim_id : String) → (token : Option String) → Flow ClaimStatusResult
  unfolding accepted_claim_status claim_status
  status_flow claim_id token = ask (find_claim claim_id) status_failed (λ claim.
      option claim (answer ClaimStatusResult.not_found) (λ c.
        option (present token) (answer unauthorized) (λ t.
          if not (str_eq (tools.hash t) c.bootstrap_token_hash)
          then answer unauthorized
          else if is_accepted c.status
          then accepted_claim_status c
          else answer (open_status (claim_status at.now c)))))

  -- `review`, by the claim's id or by its short code
  unfoldable pub review_flow : (claim_id : Option String) → (code : String) → Flow ClaimReviewResult
  unfolding claim_status review_lookup
  review_flow claim_id code =
      ask (review_lookup tools (present claim_id) code) review_failed (λ claim.
        option claim (answer ClaimReviewResult.not_found) (λ c.
          ask (find_executor c.executor_id) review_failed (λ executor.
            option executor (answer ClaimReviewResult.not_found)
              (λ e. answer (ClaimReviewResult.found c e (claim_status at.now c))))))

-- `detail`: an executor of somebody else is not found.
unfoldable pub detail_flow : Actor → (executor_id : String) → Flow OwnerResult
detail_flow actor executor_id = ask (find_executor executor_id) owner_failed (λ executor.
    option executor (answer OwnerResult.not_found)
      (λ e. if owns actor e then answer (OwnerResult.found e) else answer OwnerResult.not_found))

module _ (at : Surroundings) where
  -- The row after the rename has the owner and the name, or the rename did not happen.
  unfoldable pub answer_renamed :
      (user_id executor_id name correlation_id : String) → Flow OwnerMutationResult
  answer_renamed user_id executor_id name correlation_id =
      ask (find_executor executor_id) mutation_failed (λ after.
        option after (answer OwnerMutationResult.not_found) (λ e.
          if not (is_text user_id e.owner_user_id) || not (str_eq e.display_name name)
          then answer OwnerMutationResult.not_found
          else ask
              (append_event (
                audit_event at AuditKind.executor_renamed e.executor_id none (some user_id)
                  e.credential_generation correlation_id))
              mutation_failed (λ _. answer (renamed e))))

  unfoldable pub rename_flow :
      Actor → (executor_id name correlation_id : String) → Flow OwnerMutationResult
  unfolding answer_renamed
  rename_flow (executor_device e d g) executor_id name correlation_id =
      answer OwnerMutationResult.not_found
  rename_flow (browser_session user_id) executor_id name correlation_id =
      ask (find_executor executor_id) (λ unique. answer OwnerMutationResult.failed)
        (λ before. option before (answer OwnerMutationResult.not_found) (λ e.
          if not (is_text user_id e.owner_user_id) || not (is_active e.state)
          then answer OwnerMutationResult.not_found
          else ask (rename_owned executor_id user_id name at.now) mutation_failed
              (λ _. answer_renamed user_id executor_id name correlation_id)))

  -- The row after the revocation is the owner's, revoked, one generation on; anything else is an error.
  unfoldable pub is_fenced : (user_id : String) → (before after : ExecutorRow) → Bool
  is_fenced user_id before after =
      is_text user_id after.owner_user_id
      && is_revoked after.state
      && after.credential_generation == before.credential_generation + 1

  unfoldable pub answer_revoked :
      (user_id executor_id correlation_id : String) → ExecutorRow → Flow OwnerMutationResult
  unfolding is_fenced
  answer_revoked user_id executor_id correlation_id before =
      ask (find_executor executor_id) mutation_failed (λ after.
        option after (mutation_failed false) (λ e.
          if not (is_fenced user_id before e)
          then mutation_failed false
          else ask
              (append_event (
                audit_event at AuditKind.executor_revoked e.executor_id none (some user_id)
                  e.credential_generation correlation_id))
              mutation_failed (λ _. answer (revoked e))))

  -- `revoke` on the database; the links and the channel of the executor are ended where it answers.
  unfoldable pub revoke_flow :
      Actor → (executor_id correlation_id : String) → Flow OwnerMutationResult
  unfolding answer_revoked
  revoke_flow (executor_device e d g) executor_id correlation_id =
      answer OwnerMutationResult.not_found
  revoke_flow (browser_session user_id) executor_id correlation_id =
      ask (find_executor executor_id) (λ unique. answer OwnerMutationResult.failed)
        (λ before. option before (answer OwnerMutationResult.not_found) (λ e.
          if not (is_text user_id e.owner_user_id)
          then answer OwnerMutationResult.not_found
          else if is_revoked e.state
          then answer (revoked e)
          else ask (revoke_owned executor_id user_id at.now) mutation_failed (λ _.
            ask (revoke_credentials executor_id at.now) mutation_failed
              (λ _. answer_revoked user_id executor_id correlation_id e))))
