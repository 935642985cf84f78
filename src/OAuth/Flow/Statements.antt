-- ===== src/OAuth/Flow/Statements.antt =====
-- What a statement of the repository keeps: a predicate that its change of the rows keeps.
use kazibee_home.Prelude.{
  ℕ, String, ltb, Bool, not, ◌&&◌, ◌||◌, none, some, List, ◌≡◌, Bool-cases, Option-cases, inl, inr,
}
use kazibee_home.Prelude.Map
use kazibee_home.Prelude.Map.{Map}
use kazibee_home.OAuth.Store.{
  Store, OAuthCode, OAuthConnection, OAuthToken, create_code, consume_code,
  find_active_connection_by_id, create_token, find_active_token_with_connection, create_code_rows,
  consume_code_rows, create_token_rows, find_active_connection_by_id_rows,
  find_active_token_with_connection_rows, rotate_refresh_token_rows, rotated_token, consumed,
  is_none, is_refresh, revoke, rotate_refresh_token, is_active, OAuthClient,
}
use kazibee_home.OAuth.Scopes.{Access}
use kazibee_home.OAuth.Connections.{
  create_connection, create_connection_rows, revoke_connection, revoke_connection_rows,
  create_client, create_client_rows, find_client_by_id, find_client_by_id_rows,
  list_connections_by_user, list_connections_by_user_rows, update_connection_capabilities,
  update_connection_capabilities_rows, revoke_superseded_connections,
  revoke_superseded_connections_rows,
}
use kazibee_home.OAuth.Flow.Keeps.{Keeps, keep_statement}

-- Statements that leave a table alone.
module _ {P : Store → Type 0}
    (free : (s : Store) (cs : Map OAuthConnection) (bs : List Bool)
      → P s
      → P (record s { connections = cs; failures = bs })) where
  pub keep_find_connection : (id : String) → Keeps P (find_active_connection_by_id id)
  unfolding find_active_connection_by_id find_active_connection_by_id_rows
  keep_find_connection id =
      keep_statement (find_active_connection_by_id_rows id) (λ s bs p. free s _ bs p)
        (λ s p. elim (Option-cases (Map.get id s.connections)) [
          | inl e ↦ rw (e, find_active_connection_by_id_rows) p
          | inr (c, e) ↦ elim (Bool-cases (is_active c.status)) [
            | inl d ↦ rw (e, find_active_connection_by_id_rows, d) p
            | inr d ↦ rw (e, find_active_connection_by_id_rows, d) p
          ]
        ])

  pub keep_find_token : (hash : String) (d : ℕ) → Keeps P (find_active_token_with_connection hash d)
  unfolding find_active_token_with_connection find_active_token_with_connection_rows
  keep_find_token hash d =
      keep_statement (find_active_token_with_connection_rows hash d) (λ s bs p. free s _ bs p)
        (λ s p. elim (Option-cases (Map.get hash s.tokens)) [
          | inl e ↦ rw (e, find_active_token_with_connection_rows) p
          | inr (t, e) ↦ elim (Option-cases (Map.get t.connection_id s.connections)) [
            | inl e' ↦ rw (e, e', find_active_token_with_connection_rows) p
            | inr (c, e') ↦
                elim (Bool-cases (is_active t.status && ltb d t.expires_at && is_active c.status)) [
                  | inl b ↦ rw (e, e', find_active_token_with_connection_rows, b) p
                  | inr b ↦ rw (e, e', find_active_token_with_connection_rows, b) p
                ]
          ]
        ])

  pub keep_create_connection : (c : OAuthConnection) → Keeps P (create_connection c)
  unfolding create_connection create_connection_rows
  keep_create_connection c =
      keep_statement (create_connection_rows c) (λ s bs p. free s _ bs p)
        (λ s p.
          elim (Bool-cases
            (Map.has c.connection_id s.connections || not (Map.has c.client_id s.clients))) [
              | inl d ↦ rw (create_connection_rows, d) p
              | inr d ↦ rw (create_connection_rows, d) (free s _ _ p)
            ])

  pub keep_revoke_connection : (id : String) (at : ℕ) → Keeps P (revoke_connection id at)
  unfolding revoke_connection revoke_connection_rows
  keep_revoke_connection id at =
      keep_statement (revoke_connection_rows id at) (λ s bs p. free s _ bs p)
        (λ s p. elim (Option-cases (Map.get id s.connections)) [
          | inl e ↦ rw (e, revoke_connection_rows) p
          | inr (c, e) ↦ elim (Bool-cases (is_active c.status)) [
            | inl d ↦ rw (e, revoke_connection_rows, d) (free s _ _ p)
            | inr d ↦ rw (e, revoke_connection_rows, d) p
          ]
        ])

  pub keep_list_connections : (user : String) → Keeps P (list_connections_by_user user)
  unfolding list_connections_by_user list_connections_by_user_rows
  keep_list_connections user =
      keep_statement (list_connections_by_user_rows user) (λ s bs p. free s _ bs p) (λ s p. p)

  pub keep_update_capabilities :
      (id : String) (g : Access) (shell web : Bool)
      → Keeps P (update_connection_capabilities id g shell web)
  unfolding update_connection_capabilities update_connection_capabilities_rows
  keep_update_capabilities id g shell web =
      keep_statement (update_connection_capabilities_rows id g shell web) (λ s bs p. free s _ bs p)
        (λ s p. free s _ _ p)

  pub keep_revoke_superseded :
      (user id name : String) (at : ℕ) → Keeps P (revoke_superseded_connections user id name at)
  unfolding revoke_superseded_connections revoke_superseded_connections_rows
  keep_revoke_superseded user id name at =
      keep_statement (revoke_superseded_connections_rows user id name at) (λ s bs p. free s _ bs p)
        (λ s p. free s _ _ p)

-- Statements on clients.
module _ {P : Store → Type 0}
    (free : (s : Store) (cs : Map OAuthClient) (bs : List Bool)
      → P s
      → P (record s { clients = cs; failures = bs })) where
  pub keep_create_client : (c : OAuthClient) → Keeps P (create_client c)
  unfolding create_client create_client_rows
  keep_create_client c =
      keep_statement (create_client_rows c) (λ s bs p. free s _ bs p)
        (λ s p. elim (Bool-cases (Map.has c.client_id s.clients)) [
          | inl d ↦ rw (create_client_rows, d) p
          | inr d ↦ rw (create_client_rows, d) (free s _ _ p)
        ])

  pub keep_find_client : (id : String) → Keeps P (find_client_by_id id)
  unfolding find_client_by_id find_client_by_id_rows
  keep_find_client id =
      keep_statement (find_client_by_id_rows id) (λ s bs p. free s _ bs p) (λ s p. p)

-- Statements on codes.
module _ {P : Store → Type 0}
    (free : (s : Store) (bs : List Bool) → P s → P (record s { failures = bs })) where
  pub keep_create_code :
      (c : OAuthCode)
      → ((s : Store)
          → Map.get c.code_hash s.codes ≡ none
          → P s
          → P (record s { codes = Map.set c.code_hash c s.codes }))
      → Keeps P (create_code c)
  unfolding create_code create_code_rows
  keep_create_code c put = keep_statement (create_code_rows c) free (λ s p.
      elim (Option-cases (Map.get c.code_hash s.codes)) [
        | inl e ↦ elim (Bool-cases (Map.has c.connection_id s.connections)) [
          | inl d ↦ rw (create_code_rows, e, d) (put s e p)
          | inr d ↦ rw (create_code_rows, e, d) p
        ]
        | inr (o, e) ↦ rw (create_code_rows, e) p
      ])

  pub keep_consume_code :
      (h : String) (a d : ℕ)
      → ((s : Store) (c : OAuthCode)
          → P s
          → P (record s { codes = Map.set h (consumed a c) s.codes }))
      → Keeps P (consume_code h a d)
  unfolding consume_code consume_code_rows
  keep_consume_code h a d put = keep_statement (consume_code_rows h a d) free (λ s p.
      elim (Option-cases (Map.get h s.codes)) [
        | inl e ↦ rw (e, consume_code_rows) p
        | inr (c, e) ↦ elim (Bool-cases (is_none c.consumed_at && ltb d c.expires_at)) [
          | inl b ↦ rw (e, consume_code_rows, b) (put s c p)
          | inr b ↦ rw (e, consume_code_rows, b) p
        ]
      ])

  -- Statements on tokens.
  pub keep_create_token :
      (t : OAuthToken)
      → ((s : Store)
          → Map.get t.token_hash s.tokens ≡ none
          → P s
          → P (record s { tokens = Map.set t.token_hash t s.tokens }))
      → Keeps P (create_token t)
  unfolding create_token create_token_rows
  keep_create_token t put = keep_statement (create_token_rows t) free (λ s p.
      elim (Option-cases (Map.get t.token_hash s.tokens)) [
        | inl e ↦ elim (Bool-cases (Map.has t.connection_id s.connections)) [
          | inl d ↦ rw (create_token_rows, e, d) (put s e p)
          | inr d ↦ rw (create_token_rows, e, d) p
        ]
        | inr (o, e) ↦ rw (create_token_rows, e) p
      ])

  pub keep_rotate :
      (o h : String) (c e d : ℕ)
      → ((s : Store) (t : OAuthToken)
          → Map.get o s.tokens ≡ some t
          → Map.get h s.tokens ≡ none
          → P s
          → P (record s {
            tokens = Map.set h (rotated_token o h c e t) (Map.set o (revoke c t) s.tokens);
          }))
      → Keeps P (rotate_refresh_token o h c e d)
  unfolding rotate_refresh_token rotate_refresh_token_rows
  keep_rotate o h c e d put = keep_statement (rotate_refresh_token_rows o h c e d) free (λ s p.
      elim (Option-cases (Map.get o s.tokens)) [
        | inl n ↦ rw (n, rotate_refresh_token_rows) p
        | inr (t, n) ↦
            elim (Bool-cases (is_refresh t.kind && is_active t.status && ltb d t.expires_at)) [
              | inl b ↦ elim (Option-cases (Map.get h s.tokens)) [
                | inl m ↦ rw (n, rotate_refresh_token_rows, b, m) (put s t n m p)
                | inr (x, m) ↦ rw (n, rotate_refresh_token_rows, b, m) p
              ]
              | inr b ↦ rw (n, rotate_refresh_token_rows, b) p
            ]
      ])
