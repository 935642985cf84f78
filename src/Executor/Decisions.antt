-- ===== src/Executor/Decisions.antt =====
-- `decide` of src/server/services/connect_executor_service.ts.
use kazibee_home.Prelude.{
  String, ◌==◌, leb, if◌then◌else◌, Bool, true, false, not, ◌&&◌, ◌||◌, none, some,
}
use kazibee_home.Executor.Rows.{
  ExecutorRow, is_active, ClaimStatus, ClaimRow, CredentialRow, AuditKind,
}
use kazibee_home.Executor.Store.{
  is_text, is_claim_pending, find_executor, accept_owner, find_claim, decide_pending,
  create_credential, append_event,
}
use kazibee_home.Executor.Flows.{
  ClaimDecisionInput, Actor, browser_session, executor_device, ClaimDecisionResult, accepted,
  denied, expired, replayed, Flow, answer, roll_back, ask, option, Surroundings, audit_event,
}

abbrev pub decision_failed : Bool → Flow ClaimDecisionResult
decision_failed unique = roll_back ClaimDecisionResult.failed

-- The error that `acceptClaim` throws. `decide` hands the promise on without awaiting it, so its own
-- `catch` does not see it; the transaction of the call that rejects is rolled back.
abbrev pub owner_invariant_failed : Flow ClaimDecisionResult
owner_invariant_failed = roll_back ClaimDecisionResult.raised

abbrev pub status_of : (accepts : Bool) → ClaimStatus
status_of true = ClaimStatus.accepted
status_of false = ClaimStatus.denied

abbrev pub is_status : ClaimStatus → ClaimStatus → Bool
is_status ClaimStatus.pending ClaimStatus.pending = true
is_status ClaimStatus.accepted ClaimStatus.accepted = true
is_status ClaimStatus.denied ClaimStatus.denied = true
is_status _ _ = false

-- Whether the claim was decided by this very request.
unfoldable pub is_idempotent : ClaimRow → (user_id : String) → ClaimDecisionInput → Bool
is_idempotent c user_id i =
    is_text user_id c.decided_by_user_id
    && is_text i.idempotency_key c.decision_idempotency_key
    && is_status c.status (status_of i.accepts)

module _ (at : Surroundings) where
  -- The identity of the deployment ends an acceptance.
  unfoldable pub answer_accepted : Flow ClaimDecisionResult
  answer_accepted = option at.deployment (decision_failed false) (λ d. answer (accepted d))

  unfoldable pub terminal_decision :
      ClaimRow → (user_id : String) → ClaimDecisionInput → Flow ClaimDecisionResult
  unfolding answer_accepted is_idempotent
  terminal_decision c user_id i =
      if not (is_idempotent c user_id i)
      then answer replayed
      else if not (is_status c.status ClaimStatus.accepted)
      then answer denied
      else answer_accepted

  unfoldable pub deny_claim :
      ClaimRow → (user_id : String) → ClaimDecisionInput → Flow ClaimDecisionResult
  deny_claim c user_id i =
      ask (decide_pending ClaimStatus.denied c.claim_id user_id i.idempotency_key at.now)
        decision_failed
        (λ _. ask (find_claim c.claim_id) decision_failed (λ found.
          option found (answer replayed) (λ row.
            if not (is_status row.status ClaimStatus.denied)
              || not (is_text user_id row.decided_by_user_id)
            then answer replayed
            else ask
                (append_event (
                  audit_event at AuditKind.claim_denied c.executor_id (some c.claim_id)
                    (some user_id) 0 i.correlation_id))
                decision_failed (λ _. answer denied))))

  -- Whether the executor is the one that was just accepted; anything else is an error.
  unfoldable pub is_newly_owned : (user_id : String) → ExecutorRow → Bool
  is_newly_owned user_id e =
      is_text user_id e.owner_user_id && is_active e.state && e.credential_generation == 1

  abbrev pub credential_row : ClaimRow → ExecutorRow → CredentialRow
  credential_row c e = record {
    credential_id = at.credential_id;
    executor_id = e.executor_id;
    generation = 1;
    token_hash = c.bootstrap_token_hash;
    is_live = true;
    created_at = at.now;
    revoked_at = none;
  }

  -- The end of an acceptance: the credential and the audit event.
  unfoldable pub grant_credential :
      ClaimRow → (user_id : String) → ClaimDecisionInput → ExecutorRow → Flow ClaimDecisionResult
  unfolding answer_accepted
  grant_credential c user_id i e =
      ask (create_credential (credential_row c e)) decision_failed (λ _.
        ask
          (append_event (
            audit_event at AuditKind.claim_accepted e.executor_id (some c.claim_id) (some user_id) 1
              i.correlation_id))
          decision_failed (λ _. answer_accepted))

  unfoldable pub own_executor :
      ClaimRow → (user_id : String) → ClaimDecisionInput → Flow ClaimDecisionResult
  unfolding grant_credential is_newly_owned
  own_executor c user_id i = ask (accept_owner c.executor_id user_id at.now) decision_failed (λ _.
      ask (find_executor c.executor_id) decision_failed (λ found.
        option found owner_invariant_failed (λ e.
          if not (is_newly_owned user_id e)
          then owner_invariant_failed
          else grant_credential c user_id i e)))

  unfoldable pub accept_claim :
      ClaimRow → (user_id : String) → ClaimDecisionInput → Flow ClaimDecisionResult
  unfolding own_executor is_idempotent
  accept_claim c user_id i =
      ask (decide_pending ClaimStatus.accepted c.claim_id user_id i.idempotency_key at.now)
        decision_failed
        (λ _. ask (find_claim c.claim_id) decision_failed (λ found.
          option found (answer replayed) (λ row.
            if not (is_status row.status ClaimStatus.accepted)
              || not (is_text user_id row.decided_by_user_id)
              || not (is_text i.idempotency_key row.decision_idempotency_key)
            then answer replayed
            else own_executor c user_id i)))

  unfoldable pub decide_claim :
      ClaimRow → (user_id : String) → ClaimDecisionInput → Flow ClaimDecisionResult
  unfolding terminal_decision deny_claim accept_claim
  decide_claim c user_id i =
      if not (is_claim_pending c.status)
      then terminal_decision c user_id i
      else if leb c.expires_at at.now
      then answer expired
      else if not i.accepts
      then deny_claim c user_id i
      else accept_claim c user_id i

  unfoldable pub decide_flow : Actor → ClaimDecisionInput → Flow ClaimDecisionResult
  unfolding decide_claim
  decide_flow (executor_device e d g) i = answer ClaimDecisionResult.not_found
  decide_flow (browser_session user_id) i =
      ask (find_claim i.claim_id) decision_failed (λ found.
        option found (answer ClaimDecisionResult.not_found) (λ c. decide_claim c user_id i))
