-- ===== src/Executor/Rollback.antt =====
-- Calls of the service of executors that are refused, and what they leave of the rows.
use kazibee_home.Prelude.{String, Bool, true, false, Option, none, some, ◌≡◌, refl}
use kazibee_home.Executor.Rows.{ClaimRow, ExecutorRow}
use kazibee_home.Executor.Store.{Database}
use kazibee_home.Executor.Flows.{
  Tools, Surroundings, Actor, browser_session, executor_device, ClaimCreateInput,
  ClaimDecisionInput, ClaimCreateResult, created, ClaimDecisionResult, OwnerMutationResult, revoked,
  Flow, transact,
}
use kazibee_home.Executor.Claims.{
  claim_flow, retry_claim, new_claim, register, answer_created, answer_challenge, create_failed,
}
use kazibee_home.Executor.Decisions.{
  decide_flow, decide_claim, accept_claim, deny_claim, terminal_decision, own_executor,
  grant_credential, answer_accepted,
}
use kazibee_home.Executor.Owners.{revoke_flow, answer_revoked}
use kazibee_home.Executor.Quiet.{
  Clean, Quiet, find_claim-IsRead, find_claim_by_key-IsRead, find_executor-IsRead, answer-Clean,
  roll_back-Clean, ask-Clean, option-Clean, if-Clean, answer-Quiet, ask-Quiet, option-Quiet,
  if-Quiet, Clean-Quiet, transact-Quiet, rows,
}

ruleset clean = (refl, answer-Clean, roll_back-Clean, ask-Clean, option-Clean, if-Clean)

ruleset quiet = (
  find_executor-IsRead, find_claim-IsRead, find_claim_by_key-IsRead, answer-Quiet, ask-Quiet,
  option-Quiet, if-Quiet,
)

abbrev pub is_decided : ClaimDecisionResult → Bool
is_decided ClaimDecisionResult.failed = false
is_decided ClaimDecisionResult.raised = false
is_decided _ = true

answer_accepted-Clean : (at : Surroundings) → Clean is_decided (answer_accepted at)
unfolding answer_accepted
answer_accepted-Clean at = search clean

terminal_decision-Clean :
    (at : Surroundings) (c : ClaimRow) (u : String) (i : ClaimDecisionInput)
    → Clean is_decided (terminal_decision at c u i)
unfolding terminal_decision
terminal_decision-Clean at c u i = search (clean, answer_accepted-Clean)

deny_claim-Clean :
    (at : Surroundings) (c : ClaimRow) (u : String) (i : ClaimDecisionInput)
    → Clean is_decided (deny_claim at c u i)
unfolding deny_claim
deny_claim-Clean at c u i = search clean depth 12 fits 4000

grant_credential-Clean :
    (at : Surroundings) (c : ClaimRow) (u : String) (i : ClaimDecisionInput) (e : ExecutorRow)
    → Clean is_decided (grant_credential at c u i e)
unfolding grant_credential
grant_credential-Clean at c u i e = search (clean, answer_accepted-Clean)

own_executor-Clean :
    (at : Surroundings) (c : ClaimRow) (u : String) (i : ClaimDecisionInput)
    → Clean is_decided (own_executor at c u i)
unfolding own_executor
own_executor-Clean at c u i = search (clean, grant_credential-Clean) depth 12 fits 4000

accept_claim-Clean :
    (at : Surroundings) (c : ClaimRow) (u : String) (i : ClaimDecisionInput)
    → Clean is_decided (accept_claim at c u i)
unfolding accept_claim
accept_claim-Clean at c u i = search (clean, own_executor-Clean) depth 12 fits 4000

decide_claim-Clean :
    (at : Surroundings) (c : ClaimRow) (u : String) (i : ClaimDecisionInput)
    → Clean is_decided (decide_claim at c u i)
unfolding decide_claim
decide_claim-Clean at c u i =
    search (clean, terminal_decision-Clean, deny_claim-Clean, accept_claim-Clean)

decide_flow-Clean :
    (at : Surroundings) (actor : Actor) (i : ClaimDecisionInput)
    → Clean is_decided (decide_flow at actor i)
unfolding decide_flow
decide_flow-Clean at (executor_device e d g) i = search clean
decide_flow-Clean at (browser_session u) i = search (clean, decide_claim-Clean)

-- A decision that is answered as failed, or that rejects with an error, leaves every table as it was.
pub failed_decision_changes_nothing :
    (at : Surroundings) (actor : Actor) (i : ClaimDecisionInput) (d : Database)
    → is_decided (transact (decide_flow at actor i) d).0 ≡ false
    → rows (transact (decide_flow at actor i) d).1 ≡ rows d
failed_decision_changes_nothing at actor i d =
    transact-Quiet is_decided _ d (Clean-Quiet is_decided _ (decide_flow-Clean at actor i))

abbrev pub is_created : ClaimCreateResult → Bool
is_created (created c) = true
is_created _ = false

create_failed-Clean : (u : Bool) → Clean is_created (create_failed u)
unfolding create_failed
create_failed-Clean u = search clean

create_failed-Quiet : (u : Bool) → Quiet is_created (create_failed u)
create_failed-Quiet u = Clean-Quiet is_created _ (create_failed-Clean u)

answer_created-Clean :
    (tools : Tools) (at : Surroundings) (i : ClaimCreateInput) (token : String)
    → Clean is_created (answer_created tools at i token)
unfolding answer_created answer_challenge
answer_created-Clean tools at i token = search (clean, create_failed-Clean) depth 12 fits 4000

retry_claim-Quiet :
    (tools : Tools) (at : Surroundings) (i : ClaimCreateInput) (token : String) (c : ClaimRow)
    → Quiet is_created (retry_claim tools at i token c)
unfolding retry_claim answer_challenge
retry_claim-Quiet tools at i token c = search (quiet, create_failed-Quiet) depth 12 fits 4000

-- Before the first write the answer leaves the rows alone, and after it an answer that is not a new
-- claim is marked.
register-Quiet :
    (tools : Tools) (at : Surroundings) (i : ClaimCreateInput) (e : Option ExecutorRow)
    (next : Flow ClaimCreateResult)
    → Clean is_created next
    → Quiet is_created (register tools at i e next)
unfolding register
register-Quiet tools at i none next h =
    Clean-Quiet is_created _ (search (clean, create_failed-Clean))
register-Quiet tools at i (some e) next h =
    search (quiet, clean, Clean-Quiet, create_failed-Clean) depth 12 fits 4000

new_claim-Quiet :
    (tools : Tools) (at : Surroundings) (i : ClaimCreateInput) (token : String)
    → Quiet is_created (new_claim tools at i token)
unfolding new_claim
new_claim-Quiet tools at i token =
    search
      (quiet, clean, create_failed-Clean, create_failed-Quiet, register-Quiet, answer_created-Clean)
      depth 12 fits 4000

claim_flow-Quiet :
    (tools : Tools) (at : Surroundings) (i : ClaimCreateInput) (token : String)
    → Quiet is_created (claim_flow tools at i token)
unfolding claim_flow
claim_flow-Quiet tools at i token =
    search (quiet, create_failed-Quiet, retry_claim-Quiet, new_claim-Quiet) depth 12 fits 4000

-- A call that creates a claim and is answered in any other way than with the new claim (as a retry, a
-- conflict or a failure) leaves every table as it was.
pub refused_claim_changes_nothing :
    (tools : Tools) (at : Surroundings) (i : ClaimCreateInput) (token : String) (d : Database)
    → is_created (transact (claim_flow tools at i token) d).0 ≡ false
    → rows (transact (claim_flow tools at i token) d).1 ≡ rows d
refused_claim_changes_nothing tools at i token d =
    transact-Quiet is_created _ d (claim_flow-Quiet tools at i token)

abbrev pub is_revocation : OwnerMutationResult → Bool
is_revocation (revoked e) = true
is_revocation _ = false

answer_revoked-Clean :
    (at : Surroundings) (u id correlation : String) (e : ExecutorRow)
    → Clean is_revocation (answer_revoked at u id correlation e)
unfolding answer_revoked
answer_revoked-Clean at u id correlation e = search clean depth 12 fits 4000

revoke_flow-Quiet :
    (at : Surroundings) (actor : Actor) (id correlation : String)
    → Quiet is_revocation (revoke_flow at actor id correlation)
unfolding revoke_flow
revoke_flow-Quiet at (executor_device e d g) id correlation = search quiet
revoke_flow-Quiet at (browser_session u) id correlation =
    search (quiet, Clean-Quiet, clean, answer_revoked-Clean) depth 12 fits 4000

-- A revocation that is not answered with the revoked executor leaves every table as it was.
pub refused_revocation_changes_nothing :
    (at : Surroundings) (actor : Actor) (id correlation : String) (d : Database)
    → is_revocation (transact (revoke_flow at actor id correlation) d).0 ≡ false
    → rows (transact (revoke_flow at actor id correlation) d).1 ≡ rows d
refused_revocation_changes_nothing at actor id correlation d =
    transact-Quiet is_revocation _ d (revoke_flow-Quiet at actor id correlation)
