-- ===== src/Executor/Claims.antt =====
-- `createClaim` of src/server/services/connect_executor_service.ts.
use kazibee_home.Prelude.{
  String, ◌+◌, ◌%◌, str_eq, if◌then◌else◌, Bool, false, not, ◌&&◌, Option, none, some, [], ◌∷◌,
  ◌++◌, take, drop, map,
}
use Prim.Native.String
use kazibee_home.Executor.Rows.{
  ExecutorState, ExecutorRow, is_pending, ClaimStatus, ClaimRow, AuditKind,
}
use kazibee_home.Executor.Store.{
  is_claim_pending, find_executor, create_executor, refresh_pending, find_claim, find_claim_by_key,
  create_claim, delete_pending_claims, append_event,
}
use kazibee_home.Executor.Flows.{
  Tools, claim_lifetime_ms, ClaimCreateInput, ClaimChallenge, ClaimCreateResult, created, retry,
  conflict, Flow, answer, roll_back, ask, option, Surroundings, audit_event,
}

module _ (tools : Tools) where
  -- The letters of the first eight bytes, four and four.
  unfoldable pub short_code : (bootstrap_token claim_id : String) → String
  short_code bootstrap_token claim_id =
      let letters =
        map (λ b. 65 + b % 26)
          (take 8 (
            tools.digest (
              String.◌++◌ "kazi-claim-code-v1:"
                (String.◌++◌ bootstrap_token (String.◌++◌ ":" claim_id))))) in
      tools.from_codes (take 4 letters ++ (45 ∷ drop 4 letters))

  unfoldable pub envelope_hash : ClaimCreateInput → (token_hash : String) → String
  envelope_hash i token_hash = tools.hash (
      tools.stringify (
        i.kind ∷ i.protocol_version ∷ i.claim_id ∷ i.executor_id ∷ i.device_id ∷ i.actor_role
        ∷ i.display_name ∷ i.platform ∷ i.architecture ∷ i.executor_version ∷ i.key_fingerprint
        ∷ i.idempotency_key ∷ token_hash ∷ []))

  abbrev challenge_of :
      ClaimRow → ExecutorRow → (bootstrap_token base_url : String) → ClaimChallenge
  challenge_of c e bootstrap_token base_url = record {
    claim_id = c.claim_id;
    executor_id = e.executor_id;
    device_id = e.device_id;
    claim_url = String.◌++◌ base_url (String.◌++◌ "/claim/" c.claim_id);
    short_code = short_code bootstrap_token c.claim_id;
    display_name = e.display_name;
    platform = e.platform;
    architecture = e.architecture;
    executor_version = e.executor_version;
    key_fingerprint = e.key_fingerprint;
    expires_at = c.expires_at;
  }

-- `claimCreateError`: a unique key that is taken is a lost race.
unfoldable pub create_failed : (unique : Bool) → Flow ClaimCreateResult
create_failed unique = roll_back (if unique then conflict else ClaimCreateResult.failed)

module _ (tools : Tools) (at : Surroundings) where
  -- `challenge`, which throws where the base URL does
  unfoldable pub answer_challenge :
      (ClaimChallenge → ClaimCreateResult)
      → ClaimRow
      → ExecutorRow
      → (bootstrap_token : String) → Flow ClaimCreateResult
  unfolding create_failed
  answer_challenge result c e bootstrap_token =
      option at.claim_base_url (create_failed false)
        (λ base_url. answer (result (challenge_of tools c e bootstrap_token base_url)))

  abbrev pub executor_row : ClaimCreateInput → ExecutorRow
  executor_row i = record {
    executor_id = i.executor_id;
    device_id = i.device_id;
    owner_user_id = none;
    display_name = i.display_name;
    platform = i.platform;
    architecture = i.architecture;
    executor_version = i.executor_version;
    key_fingerprint = i.key_fingerprint;
    state = ExecutorState.pending;
    credential_generation = 0;
    created_at = at.now;
    claimed_at = none;
    updated_at = at.now;
    last_seen_at = at.now;
  }

  abbrev pub claim_row : ClaimCreateInput → (token : String) → ClaimRow
  claim_row i token = record {
    claim_id = i.claim_id;
    executor_id = i.executor_id;
    bootstrap_token_hash = tools.hash token;
    short_code_hash = tools.hash (short_code tools token i.claim_id);
    idempotency_key = i.idempotency_key;
    envelope_hash = envelope_hash tools i (tools.hash token);
    status = ClaimStatus.pending;
    created_at = at.now;
    expires_at = at.now + claim_lifetime_ms;
    decided_at = none;
    decided_by_user_id = none;
    decision_idempotency_key = none;
  }

  -- Whether a claim that is there is the same request again, and still open.
  unfoldable pub is_retry : ClaimCreateInput → (token : String) → ClaimRow → Bool
  unfolding envelope_hash
  is_retry i token c =
      str_eq c.envelope_hash (envelope_hash tools i (tools.hash token))
      && str_eq c.bootstrap_token_hash (tools.hash token)
      && str_eq c.claim_id i.claim_id
      && str_eq c.executor_id i.executor_id
      && is_claim_pending c.status

  unfoldable pub retry_claim :
      ClaimCreateInput → (token : String) → ClaimRow → Flow ClaimCreateResult
  unfolding answer_challenge create_failed
  retry_claim i token c = ask (find_executor c.executor_id) create_failed (λ found.
      option found (answer conflict) (λ e.
        if not (is_retry i token c) then answer conflict else answer_challenge retry c e token))

  -- The executor's row is made, or that of a machine that was never accepted is refreshed and its
  -- pending claim taken away.
  unfoldable pub register :
      ClaimCreateInput → Option ExecutorRow → Flow ClaimCreateResult → Flow ClaimCreateResult
  unfolding create_failed
  register i none next = ask (create_executor (executor_row i)) create_failed (λ _. next)
  register i (some e) next =
      if not (is_pending e.state)
      then answer conflict
      else ask (refresh_pending (executor_row i)) create_failed
          (λ _. ask (delete_pending_claims i.executor_id) create_failed (λ _. next))

  -- The rows are read back; a row that is not there is an error.
  unfoldable pub answer_created : ClaimCreateInput → (token : String) → Flow ClaimCreateResult
  unfolding answer_challenge create_failed
  answer_created i token = ask (find_claim i.claim_id) create_failed (λ claim.
      ask (find_executor i.executor_id) create_failed (λ executor.
        option claim (create_failed false)
          (λ c. option executor (create_failed false) (λ e. answer_challenge created c e token))))

  unfoldable pub new_claim : ClaimCreateInput → (token : String) → Flow ClaimCreateResult
  unfolding register answer_created create_failed
  new_claim i token = ask (find_executor i.executor_id) create_failed (λ registered.
      register i registered (
        ask (create_claim (claim_row i token)) create_failed (λ _.
          ask
            (append_event (
              audit_event at AuditKind.claim_created i.executor_id (some i.claim_id) none 0
                i.correlation_id))
            create_failed (λ _. answer_created i token))))

  -- `createClaim`: an earlier claim is looked for by its idempotency key, then by its id.
  unfoldable pub claim_flow : ClaimCreateInput → (token : String) → Flow ClaimCreateResult
  unfolding retry_claim new_claim create_failed
  claim_flow i token = ask (find_claim_by_key i.idempotency_key) create_failed (λ by_key.
      option by_key
        (ask (find_claim i.claim_id) create_failed
          (λ by_id. option by_id (new_claim i token) (λ c. retry_claim i token c)))
        (λ c. retry_claim i token c))
