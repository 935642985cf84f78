-- ===== src/Executor/Operations.antt =====
-- The calls of src/server/logic/connect_executor.logic.ts, each as one step of the database, and
-- runs of them.
use kazibee_home.Prelude.{String, List, [], ◌∷◌, Option}
use kazibee_home.Executor.Store.{Database}
use kazibee_home.Executor.Flows.{
  Tools, Surroundings, Actor, ClaimCreateInput, ClaimDecisionInput, transact,
}
use kazibee_home.Executor.Claims.{claim_flow}
use kazibee_home.Executor.Decisions.{decide_flow}
use kazibee_home.Executor.Owners.{status_flow, review_flow, detail_flow, rename_flow, revoke_flow}

-- A call of the service.
pub data Operation : Type 0 where
  create_claim : ClaimCreateInput → (token : String) → Operation
  status : (claim_id : String) → (token : Option String) → Operation
  review : (claim_id : Option String) → (code : String) → Operation
  decide : Actor → ClaimDecisionInput → Operation
  detail : Actor → (executor_id : String) → Operation
  rename : Actor → (executor_id name correlation_id : String) → Operation
  revoke : Actor → (executor_id correlation_id : String) → Operation

-- The database after a call; a call that writes is a transaction of its own.
unfoldable pub perform : Tools → Surroundings → Operation → Database → Database
unfolding transact
perform tools at (create_claim i token) d = (transact (claim_flow tools at i token) d).1
perform tools at (status id token) d = (status_flow tools at id token d).2
perform tools at (review id code) d = (review_flow tools at id code d).2
perform tools at (decide actor i) d = (transact (decide_flow at actor i) d).1
perform tools at (detail actor id) d = (detail_flow actor id d).2
perform tools at (rename actor id name correlation) d =
    (transact (rename_flow at actor id name correlation) d).1
perform tools at (revoke actor id correlation) d =
    (transact (revoke_flow at actor id correlation) d).1

unfoldable pub perform_all : Tools → List (Surroundings × Operation) → Database → Database
unfolding perform
perform_all tools [] d = d
perform_all tools ((at, o) ∷ os) d = perform_all tools os (perform tools at o d)
