-- ===== src/Executor/Holding.antt =====
-- Every flow of the service of executors keeps owners, generations and decisions.
use kazibee_home.Prelude.{String, Bool, Option, none, some}
use kazibee_home.Executor.Rows.{ClaimRow, ExecutorRow}
use kazibee_home.Executor.Flows.{
  Tools, Surroundings, Actor, browser_session, executor_device, ClaimCreateInput,
  ClaimDecisionInput, ClaimCreateResult, Flow,
}
use kazibee_home.Executor.Claims.{
  claim_flow, retry_claim, new_claim, register, answer_created, answer_challenge, create_failed,
}
use kazibee_home.Executor.Decisions.{
  decide_flow, decide_claim, accept_claim, deny_claim, terminal_decision, own_executor,
  grant_credential, answer_accepted,
}
use kazibee_home.Executor.Owners.{
  status_flow, review_flow, detail_flow, rename_flow, revoke_flow, accepted_claim_status,
  review_lookup, answer_status_of, answer_renamed, answer_revoked,
}
use kazibee_home.Executor.Later.{Keeps}
use kazibee_home.Executor.Keeping.{
  find_executor-Keeps, find_claim-Keeps, find_claim_by_code-Keeps, find_claim_by_key-Keeps,
  find_credential-Keeps, revoke_credentials-Keeps, append_event-Keeps, create_credential-Keeps,
  create_executor-Keeps, refresh_pending-Keeps, accept_owner-Keeps, rename_owned-Keeps,
  revoke_owned-Keeps, create_claim-Keeps, delete_pending_claims-Keeps, decide_pending-Keeps,
}
use kazibee_home.Executor.Keepers.{
  Holds, answer-Holds, roll_back-Holds, ask-Holds, option-Holds, if-Holds, transact_later,
}

pub ruleset holding = (
  find_executor-Keeps, find_claim-Keeps, find_claim_by_code-Keeps, find_claim_by_key-Keeps,
  find_credential-Keeps, revoke_credentials-Keeps, append_event-Keeps, create_credential-Keeps,
  create_executor-Keeps, refresh_pending-Keeps, accept_owner-Keeps, rename_owned-Keeps,
  revoke_owned-Keeps, create_claim-Keeps, delete_pending_claims-Keeps, decide_pending-Keeps,
  answer-Holds, roll_back-Holds, ask-Holds, option-Holds, if-Holds,
)

pub create_failed-Holds : (u : Bool) → Holds (create_failed u)
unfolding create_failed
create_failed-Holds u = search holding

pub answer_challenge-Holds :
    (tools : Tools) (at : Surroundings) (result : _) (c : ClaimRow) (e : ExecutorRow)
    (token : String)
    → Holds (answer_challenge tools at result c e token)
unfolding answer_challenge
answer_challenge-Holds tools at result c e token = search holding

pub retry_claim-Holds :
    (tools : Tools) (at : Surroundings) (i : ClaimCreateInput) (token : String) (c : ClaimRow)
    → Holds (retry_claim tools at i token c)
unfolding retry_claim
retry_claim-Holds tools at i token c = search (holding, create_failed-Holds, answer_challenge-Holds)

pub answer_created-Holds :
    (tools : Tools) (at : Surroundings) (i : ClaimCreateInput) (token : String)
    → Holds (answer_created tools at i token)
unfolding answer_created
answer_created-Holds tools at i token =
    search (holding, create_failed-Holds, answer_challenge-Holds)

pub register-Holds :
    (tools : Tools) (at : Surroundings) (i : ClaimCreateInput) (e : Option ExecutorRow)
    (next : Flow ClaimCreateResult)
    → Holds next
    → Holds (register tools at i e next)
unfolding register
register-Holds tools at i none next h = search holding
register-Holds tools at i (some e) next h = search holding

pub claim_flow-Holds :
    (tools : Tools) (at : Surroundings) (i : ClaimCreateInput) (token : String)
    → Holds (claim_flow tools at i token)
unfolding claim_flow new_claim
claim_flow-Holds tools at i token =
    search (holding, create_failed-Holds, answer_created-Holds, register-Holds, retry_claim-Holds)
      depth 12 fits 4000

pub answer_accepted-Holds : (at : Surroundings) → Holds (answer_accepted at)
unfolding answer_accepted
answer_accepted-Holds at = search holding

pub terminal_decision-Holds :
    (at : Surroundings) (c : ClaimRow) (u : String) (i : ClaimDecisionInput)
    → Holds (terminal_decision at c u i)
unfolding terminal_decision
terminal_decision-Holds at c u i = search (holding, answer_accepted-Holds)

pub deny_claim-Holds :
    (at : Surroundings) (c : ClaimRow) (u : String) (i : ClaimDecisionInput)
    → Holds (deny_claim at c u i)
unfolding deny_claim
deny_claim-Holds at c u i = search (holding) depth 12 fits 4000

pub grant_credential-Holds :
    (at : Surroundings) (c : ClaimRow) (u : String) (i : ClaimDecisionInput) (e : ExecutorRow)
    → Holds (grant_credential at c u i e)
unfolding grant_credential
grant_credential-Holds at c u i e = search (holding, answer_accepted-Holds)

pub own_executor-Holds :
    (at : Surroundings) (c : ClaimRow) (u : String) (i : ClaimDecisionInput)
    → Holds (own_executor at c u i)
unfolding own_executor
own_executor-Holds at c u i = search (holding, grant_credential-Holds) depth 12 fits 4000

pub accept_claim-Holds :
    (at : Surroundings) (c : ClaimRow) (u : String) (i : ClaimDecisionInput)
    → Holds (accept_claim at c u i)
unfolding accept_claim
accept_claim-Holds at c u i = search (holding, own_executor-Holds) depth 12 fits 4000

pub decide_claim-Holds :
    (at : Surroundings) (c : ClaimRow) (u : String) (i : ClaimDecisionInput)
    → Holds (decide_claim at c u i)
unfolding decide_claim
decide_claim-Holds at c u i =
    search (holding, terminal_decision-Holds, deny_claim-Holds, accept_claim-Holds)

pub decide_flow-Holds :
    (at : Surroundings) (actor : Actor) (i : ClaimDecisionInput) → Holds (decide_flow at actor i)
unfolding decide_flow
decide_flow-Holds at (executor_device e d g) i = search holding
decide_flow-Holds at (browser_session u) i = search (holding, decide_claim-Holds)

pub status_flow-Holds :
    (tools : Tools) (at : Surroundings) (id : String) (token : Option String)
    → Holds (status_flow tools at id token)
unfolding status_flow accepted_claim_status answer_status_of
status_flow-Holds tools at id token = search (holding) depth 20 fits 4000

pub review_lookup-Keeps :
    (tools : Tools) (id : Option String) (code : String) → Keeps (review_lookup tools id code)
unfolding review_lookup
review_lookup-Keeps tools none code = search holding
review_lookup-Keeps tools (some id) code = search holding

pub review_flow-Holds :
    (tools : Tools) (at : Surroundings) (id : Option String) (code : String)
    → Holds (review_flow tools at id code)
unfolding review_flow
review_flow-Holds tools at id code = search (holding, review_lookup-Keeps)

pub detail_flow-Holds : (actor : Actor) (id : String) → Holds (detail_flow actor id)
unfolding detail_flow
detail_flow-Holds actor id = search holding

pub rename_flow-Holds :
    (at : Surroundings) (actor : Actor) (id name correlation : String)
    → Holds (rename_flow at actor id name correlation)
unfolding rename_flow answer_renamed
rename_flow-Holds at (executor_device e d g) id name correlation =
    search (holding) depth 16 fits 4000
rename_flow-Holds at (browser_session u) id name correlation = search (holding) depth 16 fits 4000

pub revoke_flow-Holds :
    (at : Surroundings) (actor : Actor) (id correlation : String)
    → Holds (revoke_flow at actor id correlation)
unfolding revoke_flow answer_revoked
revoke_flow-Holds at (executor_device e d g) id correlation = search (holding) depth 16 fits 4000
revoke_flow-Holds at (browser_session u) id correlation = search (holding) depth 16 fits 4000
