-- ===== src/Executor/Promises.antt =====
-- Owners and decisions over whole runs of the service of executors.
use kazibee_home.Prelude.{
  if◌then◌else◌, String, false, some, List, [], ◌∷◌, ◌≡◌, ◌≤◌, ◌<◌, ◌==◌, arith, ◌⊎◌, inl, inr,
  refl, Bool-cases,
}
use kazibee_home.Prelude.Map
use kazibee_home.Executor.Rows.{ClaimRow, ExecutorRow}
use kazibee_home.Executor.Store.{
  is_text, Database, is_claim_pending, next_failure, statement, find_claim,
}
use kazibee_home.Executor.Flows.{
  Tools, Surroundings, browser_session, ClaimDecisionInput, ClaimDecisionResult, transact, ended,
  ask, resume, option, roll_back, answer,
}
use kazibee_home.Executor.Decisions.{
  is_status, status_of, decide_flow, decide_claim, terminal_decision, is_idempotent,
}
use kazibee_home.Executor.Operations.{Operation, perform, perform_all}
use kazibee_home.Executor.Later.{Later, Moves, rank, later_same, later_trans}
use kazibee_home.Executor.Keepers.{Holds, transact_later}
use kazibee_home.Executor.Holding.{
  claim_flow-Holds, decide_flow-Holds, detail_flow-Holds, rename_flow-Holds, review_flow-Holds,
  revoke_flow-Holds, status_flow-Holds,
}

-- Each call leaves the database later than it was.
perform-later :
    (tools : Tools) (at : Surroundings) (o : Operation) (d : Database)
    → Later d (perform tools at o d)
unfolding perform
perform-later tools at (Operation.create_claim i token) d =
    transact_later _ (claim_flow-Holds tools at i token) d
perform-later tools at (Operation.status id token) d =
    Holds.run (status_flow-Holds tools at id token) d
perform-later tools at (Operation.review id code) d =
    Holds.run (review_flow-Holds tools at id code) d
perform-later tools at (Operation.decide actor i) d =
    transact_later _ (decide_flow-Holds at actor i) d
perform-later tools at (Operation.detail actor id) d = Holds.run (detail_flow-Holds actor id) d
perform-later tools at (Operation.rename actor id name correlation) d =
    transact_later _ (rename_flow-Holds at actor id name correlation) d
perform-later tools at (Operation.revoke actor id correlation) d =
    transact_later _ (revoke_flow-Holds at actor id correlation) d

perform_all-later :
    (tools : Tools) (os : List (Surroundings × Operation)) (d : Database)
    → Later d (perform_all tools os d)
unfolding perform_all
perform_all-later tools [] d = later_same refl refl
perform_all-later tools ((at, o) ∷ os) d =
    later_trans (perform-later tools at o d) (perform_all-later tools os (perform tools at o d))

-- An executor that has an owner keeps it, whatever calls are made after; its state only goes on from
-- pending to active to revoked, and the generation of its credential never goes back, and stays as
-- long as the state does.
pub owners_are_kept :
    (tools : Tools) (os : List (Surroundings × Operation)) (d : Database) (id user_id : String)
    (r : ExecutorRow)
    → Map.get id d.executors ≡ some r
    → r.owner_user_id ≡ some user_id
    → (s : ExecutorRow) × (Map.get id (perform_all tools os d).executors ≡ some s)
      × (s.owner_user_id ≡ some user_id)
      × (rank r.state ≤ rank s.state)
      × (r.credential_generation ≤ s.credential_generation)
      × ((rank r.state < rank s.state) ⊎ (r.credential_generation ≡ s.credential_generation))
owners_are_kept tools os d id user_id r h o =
    let (s, e, m) = (perform_all-later tools os d).executors id r h in
    (s, e, m.owner user_id o, m.state, m.generation, stays r s m)
  where
    stays :
        (r s : ExecutorRow)
        → Moves r s
        → (rank r.state < rank s.state) ⊎ (r.credential_generation ≡ s.credential_generation)
    stays r s m = elim (Bool-cases (rank r.state == rank s.state)) [
      | inl e ↦ inr (m.in_step (ground (arith, e)))
      | inr e ↦ inl (ground (arith, m.state, e))
    ]

-- A decision by another user than the one of the row, with another key, or of the other kind.
abbrev pub IsOther : ClaimRow → (user_id : String) → ClaimDecisionInput → Type 0
IsOther c user_id i =
    (is_text user_id c.decided_by_user_id ≡ false)
    ⊎ (is_text i.idempotency_key c.decision_idempotency_key ≡ false)
    ⊎ (is_status c.status (status_of i.accepts) ≡ false)

not_idempotent :
    (c : ClaimRow) (user_id : String) (i : ClaimDecisionInput)
    → IsOther c user_id i
    → is_idempotent c user_id i ≡ false
unfolding is_idempotent
not_idempotent c user_id i (inl h) = rw h refl
not_idempotent c user_id i (inr (inl h)) = rw h (ground arith)
not_idempotent c user_id i (inr (inr h)) = rw h (ground arith)

-- A claim that was decided stays exactly so, whatever calls are made after; and a decision on it that
-- is not the same one by the same user with the same idempotency key is answered as failed where its
-- lookup of the claim fails, and as replayed otherwise.
pub decision_is_final :
    (tools : Tools) (os : List (Surroundings × Operation)) (d : Database) (c : ClaimRow)
    (at : Surroundings) (user_id : String) (i : ClaimDecisionInput)
    → Map.get i.claim_id d.claims ≡ some c
    → is_claim_pending c.status ≡ false
    → IsOther c user_id i
    → (Map.get i.claim_id (perform_all tools os d).claims ≡ some c)
      × ((transact (decide_flow at (browser_session user_id) i) (perform_all tools os d)).0 ≡ (
          if next_failure (perform_all tools os d).failures
          then ClaimDecisionResult.failed
          else ClaimDecisionResult.replayed))
unfolding transact ended decide_flow ask resume option find_claim statement decide_claim
    terminal_decision roll_back answer
decision_is_final tools os d c at user_id i h p q =
    let k = (perform_all-later tools os d).decisions i.claim_id c h p in
    (k, refused (perform_all tools os d) k)
  where
    refused :
        (e : Database)
        → Map.get i.claim_id e.claims ≡ some c
        → (transact (decide_flow at (browser_session user_id) i) e).0 ≡ (
            if next_failure e.failures
            then ClaimDecisionResult.failed
            else ClaimDecisionResult.replayed)
    refused e k = elim (Bool-cases (next_failure e.failures)) [
      | inl f ↦ rw f refl
      | inr f ↦ rw (f, k, p, not_idempotent c user_id i q) refl
    ]
