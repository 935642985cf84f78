-- ===== src/OAuth/Flow/Rotation/Spent.antt =====
-- Refresh tokens that were revoked, under the statements of src/server/repo/oauth_repo.
use kazibee_home.Prelude.{
  ℕ, String, ltb, Bool, true, false, not, ◌&&◌, Option, none, some, List, [], ◌∷◌, ◌≡◌, ◌⊎◌, refl,
  Bool-cases, Option-cases, inl, inr, arith, eq_iff,
}
use kazibee_home.Prelude.Map
use kazibee_home.Prelude.Map.{Map}
use kazibee_home.OAuth.Store.{
  Store, failed, done, OAuthCode, OAuthConnection, OAuthToken, statement, next_failure,
  find_active_token_with_connection, find_active_token_with_connection_rows,
  rotate_refresh_token_rows, rotated_token, is_refresh, revoke, rotate_refresh_token, is_active,
  Statement, create_code_st, consume_code_st, create_token_st, rotate_st, create_connection_st,
  revoke_connection_st, revoke_tokens_st, find_connection_st, find_token_st, create_client_st,
  find_client_st, list_connections_st, update_capabilities_st, revoke_superseded_tokens_st,
  revoke_superseded_st,
}
use kazibee_home.OAuth.Connections.{
  revoke_tokens_of, revoke_tokens_by_connection, revoke_tokens_by_connection_rows, update_where,
  revoke_superseded_connection_tokens, revoke_superseded_connection_tokens_rows,
}
use kazibee_home.OAuth.Overlap.{execute, interleave}
use kazibee_home.OAuth.Flow.Statements.{
  keep_find_connection, keep_find_token, keep_create_connection, keep_revoke_connection,
  keep_list_connections, keep_update_capabilities, keep_revoke_superseded, keep_create_client,
  keep_find_client, keep_create_code, keep_consume_code, keep_create_token, keep_rotate,
}
use kazibee_home.OAuth.Flow.Keeps.{keep_statement, keep_interleave}

-- The token with this hash was revoked.
abbrev pub spent_token : Option OAuthToken → Bool
spent_token none = false
spent_token (some t) = not (is_active t.status)

pub record IsSpentToken (hash : String) (s : Store) : Type 0 where
  pub spent : spent_token (Map.get hash s.tokens) ≡ true

-- The predicate reads the tokens only.
module _ (hash : String) where
  free_token :
      (s : Store) (os : Map OAuthCode) (cs : Map OAuthConnection) (bs : List Bool)
      → IsSpentToken hash s
      → IsSpentToken hash (record s { codes = os; connections = cs; failures = bs })
  free_token s os cs bs p = record { spent = p.spent }

  spent-revoke_tokens_of :
      (i : String) (a : ℕ) (m : Map OAuthToken)
      → spent_token (Map.get hash m) ≡ true
      → spent_token (Map.get hash (revoke_tokens_of i a m)) ≡ true
  unfolding revoke_tokens_of revoke Map.get
  spent-revoke_tokens_of i a [] e = e
  spent-revoke_tokens_of i a ((k, t) ∷ m) e = ground (arith, spent-revoke_tokens_of i a m, e)

  spent-update_where :
      (f : OAuthToken → Bool) (a : ℕ) (m : Map OAuthToken)
      → spent_token (Map.get hash m) ≡ true
      → spent_token (Map.get hash (update_where f (revoke a) m)) ≡ true
  unfolding update_where revoke Map.get
  spent-update_where f a [] e = e
  spent-update_where f a ((k, t) ∷ m) e = ground (arith, spent-update_where f a m, e)

  pub keep-IsSpentToken :
      (x : Statement) (s : Store) → IsSpentToken hash s → IsSpentToken hash (execute x s)
  unfolding execute revoke rotated_token revoke_tokens_by_connection
      revoke_tokens_by_connection_rows revoke_superseded_connection_tokens
      revoke_superseded_connection_tokens_rows
  keep-IsSpentToken (create_code_st c) =
      (keep_create_code (λ s bs. free_token s _ _ bs) c (λ s e p. free_token s _ _ _ p)).run
  keep-IsSpentToken (consume_code_st h a d) =
      (keep_consume_code (λ s bs. free_token s _ _ bs) h a d (λ s c p. free_token s _ _ _ p)).run
  keep-IsSpentToken (create_token_st t) =
      (keep_create_token (λ s bs. free_token s _ _ bs) t
        (λ s e p. record {
          spent = ground (
            arith,
            Map.get-set t.token_hash hash t s.tokens,
            eq_iff t.token_hash hash,
            p.spent,
            e,
          );
        })).run
  keep-IsSpentToken (rotate_st o h c e d) =
      (keep_rotate (λ s bs. free_token s _ _ bs) o h c e d
        (λ s t n m p. record {
          spent = ground (
            arith,
            Map.get-set h hash (rotated_token o h c e t) (Map.set o (revoke c t) s.tokens),
            Map.get-set o hash (revoke c t) s.tokens,
            eq_iff h hash,
            p.spent,
            m,
          );
        })).run
  keep-IsSpentToken (create_connection_st c) =
      (keep_create_connection (λ s cs bs. free_token s _ cs bs) c).run
  keep-IsSpentToken (revoke_connection_st i a) =
      (keep_revoke_connection (λ s cs bs. free_token s _ cs bs) i a).run
  keep-IsSpentToken (revoke_tokens_st i a) =
      (keep_statement (revoke_tokens_by_connection_rows i a) (λ s bs. free_token s _ _ bs)
        (λ s p. record { spent = spent-revoke_tokens_of i a s.tokens p.spent })).run
  keep-IsSpentToken (find_connection_st i) =
      (keep_find_connection (λ s cs bs. free_token s _ cs bs) i).run
  keep-IsSpentToken (find_token_st h d) =
      (keep_find_token (λ s cs bs. free_token s _ cs bs) h d).run
  keep-IsSpentToken (create_client_st c) =
      (keep_create_client (λ s ns bs p. record { spent = p.spent }) c).run
  keep-IsSpentToken (find_client_st i) =
      (keep_find_client (λ s ns bs p. record { spent = p.spent }) i).run
  keep-IsSpentToken (list_connections_st u) =
      (keep_list_connections (λ s cs bs. free_token s _ cs bs) u).run
  keep-IsSpentToken (update_capabilities_st i g h w) =
      (keep_update_capabilities (λ s cs bs. free_token s _ cs bs) i g h w).run
  keep-IsSpentToken (revoke_superseded_tokens_st u i n a) =
      (keep_statement (revoke_superseded_connection_tokens_rows u i n a)
        (λ s bs. free_token s _ _ bs)
        (λ s p. record { spent = spent-update_where _ a s.tokens p.spent })).run
  keep-IsSpentToken (revoke_superseded_st u i n a) =
      (keep_revoke_superseded (λ s cs bs. free_token s _ cs bs) u i n a).run

  pub IsSpentToken-interleave : (s : Store) → IsSpentToken hash s → IsSpentToken hash (interleave s)
  IsSpentToken-interleave =
      keep_interleave keep-IsSpentToken (λ s n os p. record { spent = p.spent })

  -- A rotation that gives a row leaves the old token revoked.
  pub rotate-cases :
      (h : String) (c e d : ℕ) (s : Store)
      → ((rotate_refresh_token hash h c e d s).0 ≡ failed)
        ⊎ ((rotate_refresh_token hash h c e d s).0 ≡ done none)
        ⊎ ((t : OAuthToken) × ((rotate_refresh_token hash h c e d s).0 ≡ done (some t))
            × IsSpentToken hash (rotate_refresh_token hash h c e d s).1)
  unfolding rotate_refresh_token rotate_refresh_token_rows statement revoke
  rotate-cases h c e d s = elim (Bool-cases (next_failure s.failures)) [
    | inl f ↦ inl (rw (f, rotate_refresh_token, statement) refl)
    | inr f ↦ elim (Option-cases (Map.get hash s.tokens)) [
      | inl n ↦
          inr (inl (rw (f, n, rotate_refresh_token, statement, rotate_refresh_token_rows) refl))
      | inr (t, n) ↦
          elim (Bool-cases (is_refresh t.kind && is_active t.status && ltb d t.expires_at)) [
            | inr b ↦ inr (
                inl (rw (f, n, b, rotate_refresh_token, statement, rotate_refresh_token_rows) refl))
            | inl b ↦ elim (Option-cases (Map.get h s.tokens)) [
              | inr (x, m) ↦
                  inl (
                    rw (f, n, b, m, rotate_refresh_token, statement, rotate_refresh_token_rows)
                      refl)
              | inl m ↦ inr (
                  inr (
                    rotated_token hash h c e t,
                    rw (f, n, b, m, rotate_refresh_token, statement, rotate_refresh_token_rows)
                        refl,
                    rw (f, n, b, m, rotate_refresh_token, statement, rotate_refresh_token_rows)
                        (record {
                          spent = ground (
                            arith,
                            Map.get-set h hash (rotated_token hash h c e t)
                                (Map.set hash (revoke c t) s.tokens),
                            Map.get-set_same hash (revoke c t) s.tokens,
                            eq_iff h hash,
                            m,
                            n,
                          );
                        }),
                  ))
            ]
          ]
    ]
  ]

  -- A token that was revoked is not found.
  pub find-spent :
      (d : ℕ) (s : Store)
      → IsSpentToken hash s
      → ((find_active_token_with_connection hash d s).0 ≡ failed)
        ⊎ ((find_active_token_with_connection hash d s).0 ≡ done none)
  unfolding find_active_token_with_connection find_active_token_with_connection_rows statement
  find-spent d s p = elim (Bool-cases (next_failure s.failures)) [
    | inl f ↦ inl (rw (f, find_active_token_with_connection, statement) refl)
    | inr f ↦ elim (Option-cases (Map.get hash s.tokens)) [
      | inl n ↦ inr (
          rw
            (
              f, n, find_active_token_with_connection, statement,
              find_active_token_with_connection_rows,
            )
            refl)
      | inr (t, n) ↦ elim (Option-cases (Map.get t.connection_id s.connections)) [
        | inl m ↦ inr (
            rw
              (
                f, n, m, find_active_token_with_connection, statement,
                find_active_token_with_connection_rows,
              )
              refl)
        | inr (c, m) ↦
            let dead : (is_active t.status && ltb d t.expires_at && is_active c.status) ≡ false =
              ground (arith, p.spent, n) in
            inr (
              rw
                (
                  f, n, m, dead, find_active_token_with_connection, statement,
                  find_active_token_with_connection_rows,
                )
                refl)
      ]
    ]
  ]
