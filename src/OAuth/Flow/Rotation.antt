-- ===== src/OAuth/Flow/Rotation.antt =====
-- The rotation of refresh tokens in src/server/services/oauth_flow_service.ts.
pub mod Spent
use kazibee_home.Prelude.{
  ℕ, String, ◌+◌, ltb, str_eq, Bool, true, false, not, ◌&&◌, Option, none, some, List, [], ◌∷◌, ◌≡◌,
  ◌⊎◌, refl, Bool-cases, Option-cases, inl, inr, arith, eq_iff,
}
use kazibee_home.Prelude.Map
use kazibee_home.Prelude.Map.{Map}
use kazibee_home.OAuth.Store.{
  Store, Outcome, failed, done, OAuthCode, OAuthConnection, OAuthToken, statement, next_failure,
  find_active_token_with_connection, find_active_token_with_connection_rows,
  rotate_refresh_token_rows, rotated_token, is_refresh, revoke, rotate_refresh_token, is_active,
  Statement, create_code_st, consume_code_st, create_token_st, rotate_st, create_connection_st,
  revoke_connection_st, revoke_tokens_st, find_connection_st, find_token_st, create_client_st,
  find_client_st, list_connections_st, update_capabilities_st, revoke_superseded_tokens_st,
  revoke_superseded_st,
}
use kazibee_home.OAuth.Connections.{
  revoke_tokens_of, revoke_tokens_by_connection, revoke_tokens_by_connection_rows, update_where,
  is_superseded_token, revoke_superseded_connection_tokens,
  revoke_superseded_connection_tokens_rows,
}
use kazibee_home.OAuth.Overlap.{execute, execute_all, interleave}
use kazibee_home.OAuth.Flow.{
  Crypto, answer, resume, ask, option, RefreshTokenInput, refresh_row, refresh_tokens, is_malformed,
  token_matches_resource, active_refresh_token, with_random, mint_access, resource_bound_token,
  random_token, refresh_token_ms,
}
use kazibee_home.OAuth.Flow.Statements.{
  keep_find_connection, keep_find_token, keep_create_connection, keep_revoke_connection,
  keep_list_connections, keep_update_capabilities, keep_revoke_superseded, keep_create_client,
  keep_find_client, keep_create_code, keep_consume_code, keep_create_token, keep_rotate,
}
use kazibee_home.OAuth.Flow.SingleUse.{is_success, true_not_false}
use kazibee_home.OAuth.Flow.Keeps.{
  Keeps, keep_statement, keep_all, keep_exchange_row, keep_mint_access, keep_interleave,
}
use kazibee_home.OAuth.Flow.Rotation.Spent.{
  IsSpentToken, rotate-cases, find-spent, keep-IsSpentToken, IsSpentToken-interleave,
}

Found-cases :
    {A : Type 0} (r : Outcome (Option A))
    → (r ≡ failed) ⊎ (r ≡ done none) ⊎ ((a : A) × (r ≡ done (some a)))
Found-cases failed = inl refl
Found-cases (done none) = inr (inl refl)
Found-cases (done (some a)) = inr (inr (a, refl))

module _ (cr : Crypto) where
  keep_after_rotation :
      (h : String) (now : ℕ) (i : RefreshTokenInput) (t : OAuthToken) (c : OAuthConnection)
      (token : String)
      → Keeps (IsSpentToken h) (mint_access cr now i t c token)
  keep_after_rotation h now i t c token =
      keep_mint_access cr (keep-IsSpentToken h) (λ s n os p. record { spent = p.spent }) now i t c
        token

  -- A refresh that succeeds leaves the token that it was given revoked.
  refresh_row-spends :
      (now db_now : ℕ) (i : RefreshTokenInput) (t : OAuthToken) (c : OAuthConnection) (s : Store)
      → is_success (refresh_row cr now db_now i t c s).0 ≡ true
      → IsSpentToken (cr.hash i.refresh_token) (refresh_row cr now db_now i t c s).1
  unfolding refresh_row answer ask option resume with_random random_token
  refresh_row-spends now db_now i t c s ok = elim (Bool-cases (active_refresh_token now t c)) [
    | inr a ↦ elim (true_not_false (rw (a, refresh_row, answer) at ok)) [ ]
    | inl a ↦ elim (Bool-cases (str_eq c.client_id i.client_id)) [
      | inr b ↦ elim (true_not_false (rw (a, b, refresh_row, answer) at ok)) [ ]
      | inl b ↦
          let s' : Store = interleave (record s { drawn = s.drawn + 1 }) in
          let token = resource_bound_token cr (cr.random s.drawn) i.resource in
          elim (rotate-cases (cr.hash i.refresh_token) (cr.hash token) now (now + refresh_token_ms)
            db_now s') [
              | inl e ↦
                  elim (true_not_false
                    (rw (a, b, e, refresh_row, with_random, ask, resume) at ok)) [ ]
              | inr (inl e) ↦
                  elim (true_not_false
                    (rw (a, b, e, refresh_row, with_random, ask, resume, option, answer) at ok)) [ ]
              | inr (inr (u, e, spent)) ↦
                  rw (a, b, e, refresh_row, with_random, ask, resume, option)
                    ((keep_after_rotation (cr.hash i.refresh_token) now i t c token).run _ spent)
            ]
    ]
  ]

  refresh_tokens-spends :
      (now db_now : ℕ) (i : RefreshTokenInput) (s : Store)
      → is_success (refresh_tokens cr now db_now i s).0 ≡ true
      → IsSpentToken (cr.hash i.refresh_token) (refresh_tokens cr now db_now i s).1
  unfolding refresh_tokens answer ask option resume
  refresh_tokens-spends now db_now i s ok = elim (Bool-cases (is_malformed i)) [
    | inl a ↦ elim (true_not_false (rw (a, refresh_tokens, answer) at ok)) [ ]
    | inr a ↦ elim (Bool-cases (token_matches_resource cr i.refresh_token i.resource)) [
      | inr b ↦ elim (true_not_false (rw (a, b, refresh_tokens, answer) at ok)) [ ]
      | inl b ↦
          elim (Found-cases
            (find_active_token_with_connection (cr.hash i.refresh_token) db_now (interleave s)).0) [
              | inl e ↦ elim (true_not_false (rw (a, b, e, refresh_tokens, ask, resume) at ok)) [ ]
              | inr (inl e) ↦
                  elim (true_not_false
                    (rw (a, b, e, refresh_tokens, ask, resume, option, answer) at ok)) [ ]
              | inr (inr (row, e)) ↦
                  rw (a, b, e, refresh_tokens, ask, resume, option)
                    (refresh_row-spends now db_now i row.0 row.1 _
                      (rw (a, b, e, refresh_tokens, ask, resume, option) at ok))
            ]
    ]
  ]

  refresh_tokens-spent :
      (now db_now : ℕ) (i : RefreshTokenInput) (s : Store)
      → IsSpentToken (cr.hash i.refresh_token) s
      → is_success (refresh_tokens cr now db_now i s).0 ≡ false
  unfolding refresh_tokens answer ask option resume
  refresh_tokens-spent now db_now i s p = elim (Bool-cases (is_malformed i)) [
    | inl a ↦ rw (a, refresh_tokens, answer) refl
    | inr a ↦ elim (Bool-cases (token_matches_resource cr i.refresh_token i.resource)) [
      | inr b ↦ rw (a, b, refresh_tokens, answer) refl
      | inl b ↦
          elim (find-spent (cr.hash i.refresh_token) db_now (interleave s)
            (IsSpentToken-interleave (cr.hash i.refresh_token) s p)) [
              | inl e ↦ rw (a, b, e, refresh_tokens, ask, resume) refl
              | inr e ↦ rw (a, b, e, refresh_tokens, ask, resume, option, answer) refl
            ]
    ]
  ]

  -- Once a refresh with a token succeeded, no later refresh with that token does, whichever
  -- statements of the repository, in any order, ran in between, or between the statements of the two.
  pub refresh_token_is_used_once :
      (now db_now later db_later : ℕ) (i j : RefreshTokenInput) (xs : List Statement) (s : Store)
      → is_success (refresh_tokens cr now db_now i s).0 ≡ true
      → j.refresh_token ≡ i.refresh_token
      → is_success
          (refresh_tokens cr later db_later j
            (execute_all xs (refresh_tokens cr now db_now i s).1)).0
        ≡ false
  refresh_token_is_used_once now db_now later db_later i j xs s ok same =
      refresh_tokens-spent later db_later j _ (
        rw same (
          keep_all (keep-IsSpentToken (cr.hash i.refresh_token)) xs _
            (refresh_tokens-spends now db_now i s ok)))
