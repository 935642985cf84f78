-- ===== src/Executor/Keeping.antt =====
-- The statements of the repositories keep owners, generations and decisions.
use kazibee_home.Prelude.{
  ℕ, String, str_eq, Bool, true, false, not, ◌||◌, ◌≡◌, refl, arith, Bool-cases, inl, inr,
}
use kazibee_home.Prelude.Map
use kazibee_home.Prelude.Map.{Map}
use kazibee_home.Executor.Rows.{
  ExecutorRow, is_pending, ClaimStatus, ClaimRow, CredentialRow, AuditEvent,
}
use kazibee_home.Executor.Store.{
  Database, Statement, statement, find_executor, create_executor, create_executor_rows,
  refresh_pending, refresh_pending_rows, refreshed, accept_owner, is_unowned, owned_by,
  rename_owned, revoke_owned, is_active_of, revoked_row, find_claim, find_claim_by_code,
  find_claim_by_key, create_claim, create_claim_rows, delete_pending_claims, decide_pending,
  is_open, find_credential, create_credential, create_credential_rows, revoke_credentials,
  append_event, taken,
}
use kazibee_home.Executor.Later.{
  Keeps, Moves, keep_statement, later_same, Moves-refl, update_moves, update_pending,
  later_new_executor, later_new_claim, without_pending-get,
}

-- A statement that leaves executors and claims as they are.
keep_read :
    {A : Type 0} (m : Statement A)
    → ((d : Database) → ((m d).1.executors ≡ d.executors) × ((m d).1.claims ≡ d.claims))
    → Keeps (statement m)
keep_read m h = keep_statement m (record { run = λ d. later_same (h d).0 (h d).1 })

pub find_executor-Keeps : (id : String) → Keeps (find_executor id)
unfolding find_executor
find_executor-Keeps id = keep_read _ (λ d. (refl, refl))

pub find_claim-Keeps : (id : String) → Keeps (find_claim id)
unfolding find_claim
find_claim-Keeps id = keep_read _ (λ d. (refl, refl))

pub find_claim_by_code-Keeps : (code_hash : String) → Keeps (find_claim_by_code code_hash)
unfolding find_claim_by_code
find_claim_by_code-Keeps code_hash = keep_read _ (λ d. (refl, refl))

pub find_claim_by_key-Keeps : (key : String) → Keeps (find_claim_by_key key)
unfolding find_claim_by_key
find_claim_by_key-Keeps key = keep_read _ (λ d. (refl, refl))

pub find_credential-Keeps : (token_hash : String) → Keeps (find_credential token_hash)
unfolding find_credential
find_credential-Keeps token_hash = keep_read _ (λ d. (refl, refl))

pub revoke_credentials-Keeps : (id : String) (at : ℕ) → Keeps (revoke_credentials id at)
unfolding revoke_credentials
revoke_credentials-Keeps id at = keep_read _ (λ d. (refl, refl))

pub append_event-Keeps : (e : AuditEvent) → Keeps (append_event e)
unfolding append_event
append_event-Keeps e = keep_read _ (λ d. (refl, refl))

pub create_credential-Keeps : (c : CredentialRow) → Keeps (create_credential c)
unfolding create_credential create_credential_rows
create_credential-Keeps c = keep_read _ (λ d. (ground arith, ground arith))

or_left : (a b : Bool) → (a || b) ≡ false → a ≡ false
or_left false b h = refl
or_left true b h = h

pub create_executor-Keeps : (e : ExecutorRow) → Keeps (create_executor e)
unfolding create_executor create_executor_rows
create_executor-Keeps e = keep_statement _ (record {
  run = λ d.
      elim (Bool-cases (
        Map.has e.executor_id d.executors
        || taken (λ o. str_eq o.device_id e.device_id) e.executor_id d.executors)) [
          | inl n ↦ rw n (later_same refl refl)
          | inr n ↦ rw n (later_new_executor d e (or_left _ _ n))
        ];
})

refreshed-Moves : (e o : ExecutorRow) → Moves o (refreshed e o)
unfolding refreshed
refreshed-Moves e o = record {
  owner = λ u h. h;
  state = omega arith;
  generation = omega arith;
  in_step = λ h. refl;
}

pub refresh_pending-Keeps : (e : ExecutorRow) → Keeps (refresh_pending e)
unfolding refresh_pending refresh_pending_rows
refresh_pending-Keeps e = keep_statement _ (record {
  run = λ d.
      elim (Bool-cases (taken (λ o. str_eq o.device_id e.device_id) e.executor_id d.executors)) [
        | inl n ↦ rw n (later_same refl refl)
        | inr n ↦ rw n (
            update_moves d e.executor_id (λ o. is_pending o.state) (refreshed e)
              (λ o t. refreshed-Moves e o))
      ];
})

owned_by-Moves :
    (user_id : String) (at : ℕ) (e : ExecutorRow)
    → is_unowned e ≡ true
    → Moves e (owned_by user_id at e)
unfolding is_unowned owned_by
owned_by-Moves user_id at e h = record {
  owner = λ u o. ground (arith, h, o);
  state = ground (arith, h);
  generation = ground (arith, h);
  in_step = λ s. ground (arith, h, s);
}

pub accept_owner-Keeps : (id user_id : String) (at : ℕ) → Keeps (accept_owner id user_id at)
unfolding accept_owner
accept_owner-Keeps id user_id at =
    keep_statement _
      (record { run = λ d. update_moves d id _ _ (λ e h. owned_by-Moves user_id at e h) })

pub rename_owned-Keeps :
    (id user_id name : String) (at : ℕ) → Keeps (rename_owned id user_id name at)
unfolding rename_owned
rename_owned-Keeps id user_id name at = keep_statement _ (record {
  run = λ d. update_moves d id _ _ (λ e h. record {
    owner = λ u o. o;
    state = omega arith;
    generation = omega arith;
    in_step = λ s. refl;
  });
})

revoked_row-Moves :
    (user_id : String) (at : ℕ) (e : ExecutorRow)
    → is_active_of user_id e ≡ true
    → Moves e (revoked_row at e)
unfolding is_active_of revoked_row
revoked_row-Moves user_id at e h = record {
  owner = λ u o. o;
  state = ground (arith, h);
  generation = omega arith;
  in_step = λ s. ground (arith, h, s);
}

pub revoke_owned-Keeps : (id user_id : String) (at : ℕ) → Keeps (revoke_owned id user_id at)
unfolding revoke_owned
revoke_owned-Keeps id user_id at =
    keep_statement _
      (record { run = λ d. update_moves d id _ _ (λ e h. revoked_row-Moves user_id at e h) })

pub create_claim-Keeps : (c : ClaimRow) → Keeps (create_claim c)
unfolding create_claim create_claim_rows
create_claim-Keeps c = keep_statement _ (record {
  run = λ d.
      elim (Bool-cases (
        Map.has c.claim_id d.claims
        || taken (λ o. str_eq o.executor_id c.executor_id) c.claim_id d.claims
        || taken (λ o. str_eq o.short_code_hash c.short_code_hash) c.claim_id d.claims
        || taken (λ o. str_eq o.idempotency_key c.idempotency_key) c.claim_id d.claims)) [
          | inl n ↦ rw n (later_same refl refl)
          | inr n ↦ elim (Bool-cases (not (Map.has c.executor_id d.executors))) [
            | inl m ↦ rw (n, m) (later_same refl refl)
            | inr m ↦ rw (n, m) (later_new_claim d c (or_left _ _ (or_left _ _ (or_left _ _ n))))
          ]
        ];
})

pub delete_pending_claims-Keeps : (id : String) → Keeps (delete_pending_claims id)
unfolding delete_pending_claims
delete_pending_claims-Keeps id = keep_statement _ (record {
  run = λ d. record {
    executors = λ k r h. (r, h, Moves-refl r);
    decisions = λ k c h p. without_pending-get id k d.claims c h p;
  };
})

pub decide_pending-Keeps :
    (status : ClaimStatus) (id user_id key : String) (at : ℕ)
    → Keeps (decide_pending status id user_id key at)
unfolding decide_pending is_open
decide_pending-Keeps status id user_id key at =
    keep_statement _ (record { run = λ d. update_pending d id _ _ (λ c h. ground (arith, h)) })
