-- ===== src/Executor/Granting.antt =====
-- A claim that its user accepts: what it makes of the rows, and what the machine is then told.
use kazibee_home.Prelude.{
  ℕ, String, ◌==◌, leb, str_eq, eq_refl, Bool, true, false, ◌&&◌, some, [], ◌∷◌, ◌≡◌, ◌∙◌, refl, ap,
  arith,
}
use kazibee_home.Prelude.Map
use kazibee_home.Prelude.Map.{Map}
use kazibee_home.Executor.Rows.{ExecutorRow, ClaimRow, ClaimStatus, CredentialRow}
use kazibee_home.Executor.Store.{
  Database, update, is_unowned, owned_by, decided, is_open, is_claim_pending, credential_where,
  taken, statement, find_claim, find_executor, find_credential, decide_pending, accept_owner,
  create_credential, create_credential_rows, append_event,
}
use kazibee_home.Executor.Flows.{
  Tools, Surroundings, browser_session, ClaimDecisionInput, accepted, transact, ended, ask, resume,
  option, answer, roll_back,
}
use kazibee_home.Executor.Decisions.{
  decide_flow, decide_claim, accept_claim, own_executor, is_newly_owned, grant_credential,
  answer_accepted, credential_row,
}
use kazibee_home.Executor.Owners.{
  status_flow, accepted_claim_status, answer_status_of, is_current, is_accepted, accepted_status,
}

-- A pending claim, before its end, that the decision accepts; its machine has no owner yet, no
-- credential stands in the way, and every statement of the next calls succeeds.
pub record CanAccept (at : Surroundings) (i : ClaimDecisionInput) (c : ClaimRow) (e : ExecutorRow)
    (deployment : String) (d : Database) : Type 0 where
  pub works : d.failures ≡ []
  pub claim : Map.get i.claim_id d.claims ≡ some c
  pub claim_id : c.claim_id ≡ i.claim_id
  pub is_pending : is_claim_pending c.status ≡ true
  pub in_time : leb c.expires_at at.now ≡ false
  pub accepts : i.accepts ≡ true
  pub executor : Map.get c.executor_id d.executors ≡ some e
  pub executor_id : e.executor_id ≡ c.executor_id
  pub unowned : is_unowned e ≡ true
  pub new_id : Map.has at.credential_id d.credentials ≡ false
  pub new_token :
      taken (λ o. str_eq o.token_hash c.bootstrap_token_hash) at.credential_id d.credentials ≡ false
  pub new_generation :
      taken
        (λ o. str_eq o.executor_id e.executor_id && o.generation == 1)
        at.credential_id
        d.credentials
      ≡ false
  pub identity : at.deployment ≡ some deployment

update-get :
    {V : Type 0} (k : String) (v : V) (test : V → Bool) (change : V → V) (m : Map V)
    → Map.get k m ≡ some v
    → test v ≡ true
    → Map.get k (update k test change m) ≡ some (change v)
unfolding update
update-get k v test change m h t = rw (h, update, t) (Map.get-set_same k (change v) m)

credential_where-set :
    (c : CredentialRow) (m : Map CredentialRow)
    → Map.has c.credential_id m ≡ false
    → taken (λ o. str_eq o.token_hash c.token_hash) c.credential_id m ≡ false
    → credential_where (λ o. str_eq o.token_hash c.token_hash) (Map.set c.credential_id c m)
      ≡ some c
unfolding credential_where taken Map.get Map.set
credential_where-set c [] h t = rw (eq_refl c.token_hash) refl
credential_where-set c ((k, o) ∷ m) h t = ground (arith, credential_where-set c m, h, t)

still_open :
    (c : ClaimRow) (now : ℕ)
    → is_claim_pending c.status ≡ true
    → leb c.expires_at now ≡ false
    → is_open now c ≡ true
unfolding is_open
still_open c now p t = rw p (ground (arith, t))

newly_owned :
    (at : Surroundings) (user_id : String) (e : ExecutorRow)
    → is_newly_owned at user_id (owned_by user_id at.now e) ≡ true
unfolding is_newly_owned owned_by
newly_owned at user_id e = rw (eq_refl user_id) refl

accept_claim-rows :
    (at : Surroundings) (i : ClaimDecisionInput) (c : ClaimRow) (e : ExecutorRow)
    (deployment : String) (d : Database) (user_id : String)
    → CanAccept at i c e deployment d
    → ((transact (decide_flow at (browser_session user_id) i) d).0 ≡ accepted deployment)
      × (Map.get c.claim_id (transact (decide_flow at (browser_session user_id) i) d).1.claims
          ≡ some (decided ClaimStatus.accepted user_id i.idempotency_key at.now c))
      × (Map.get c.executor_id (transact (decide_flow at (browser_session user_id) i) d).1.executors
          ≡ some (owned_by user_id at.now e))
      × ((transact (decide_flow at (browser_session user_id) i) d).1.credentials
          ≡ Map.set at.credential_id
              (credential_row at c (owned_by user_id at.now e))
              d.credentials)
      × ((transact (decide_flow at (browser_session user_id) i) d).1.failures ≡ [])
unfolding transact ended decide_flow decide_claim accept_claim own_executor is_newly_owned
    grant_credential answer_accepted ask resume option answer roll_back statement find_claim
    find_executor decide_pending accept_owner create_credential create_credential_rows append_event
    owned_by decided
accept_claim-rows at i c e deployment d user_id h =
    let claim' =
      update-get c.claim_id c (is_open at.now)
        (decided ClaimStatus.accepted user_id i.idempotency_key at.now) d.claims
        (ap (λ k. Map.get k d.claims) h.claim_id ∙ h.claim)
        (still_open c at.now h.is_pending h.in_time) in
    let executor' =
      update-get c.executor_id e is_unowned (owned_by user_id at.now) d.executors h.executor
        h.unowned in
    rw
      (
        h.works,
        h.claim,
        h.is_pending,
        h.in_time,
        h.accepts,
        claim',
        eq_refl user_id,
        eq_refl i.idempotency_key,
        executor',
        newly_owned at user_id e,
        h.new_id,
        h.new_token,
        h.new_generation,
        h.identity,
      )
      (refl, claim', executor', refl, refl)

-- The machine's own token is answered with the user, once the rows say so.
status-rows :
    (tools : Tools) (at : Surroundings) (c : ClaimRow) (e : ExecutorRow) (k : CredentialRow)
    (token user_id deployment : String) (d : Database)
    → d.failures ≡ []
    → Map.get c.claim_id d.claims ≡ some c
    → is_accepted c.status ≡ true
    → str_eq (tools.hash token) c.bootstrap_token_hash ≡ true
    → str_eq token "" ≡ false
    → Map.get c.executor_id d.executors ≡ some e
    → credential_where (λ o. str_eq o.token_hash c.bootstrap_token_hash) d.credentials ≡ some k
    → is_current e k ≡ true
    → e.owner_user_id ≡ some user_id
    → str_eq user_id "" ≡ false
    → at.deployment ≡ some deployment
    → (status_flow tools at c.claim_id (some token) d).0
      ≡ accepted_status deployment e.executor_id e.device_id k.generation user_id
unfolding status_flow accepted_claim_status answer_status_of ask resume option answer statement
    find_claim find_executor find_credential
status-rows tools at c e k token user_id deployment d w hc ha ht hn he hk hu ho hne hd =
    rw (w, hc, hn, ht, ha, he, hk, hu, ho, hne, hd) refl

-- A user's decision that accepts an open claim of a machine without an owner, where nothing fails, is
-- answered with the deployment; and a machine that shows the token of the claim next, on the tables
-- that the decision leaves, is told that it is accepted, by that user, under generation 1.
pub accepted_machine_is_told :
    (tools : Tools) (at later : Surroundings) (i : ClaimDecisionInput) (c : ClaimRow)
    (e : ExecutorRow) (deployment user_id token : String) (d : Database)
    → CanAccept at i c e deployment d
    → str_eq (tools.hash token) c.bootstrap_token_hash ≡ true
    → str_eq token "" ≡ false
    → str_eq user_id "" ≡ false
    → later.deployment ≡ some deployment
    → ((transact (decide_flow at (browser_session user_id) i) d).0 ≡ accepted deployment)
      × ((status_flow tools later c.claim_id
            (some token)
            (transact (decide_flow at (browser_session user_id) i) d).1).0
          ≡ accepted_status deployment e.executor_id e.device_id 1 user_id)
unfolding decided owned_by is_current
accepted_machine_is_told tools at later i c e deployment user_id token d h ht hn hu hd =
    let (answered, claim', executor', credentials', works') =
      accept_claim-rows at i c e deployment d user_id h in
    (
      answered,
      status-rows tools later (decided ClaimStatus.accepted user_id i.idempotency_key at.now c)
          (owned_by user_id at.now e) (credential_row at c (owned_by user_id at.now e)) token
          user_id deployment (transact (decide_flow at (browser_session user_id) i) d).1 works'
          claim' refl ht hn executor'
          (ap (credential_where (λ o. str_eq o.token_hash c.bootstrap_token_hash)) credentials'
            ∙ credential_where-set (credential_row at c (owned_by user_id at.now e)) d.credentials
                h.new_id h.new_token)
          refl refl hu hd,
    )
