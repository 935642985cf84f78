-- ===== src/OAuth/Flow/SingleUse.antt =====
-- A code is good for one exchange: a code that was consumed stays so.
use kazibee_home.Prelude.{
  ℕ, String, ltb, Bool, true, false, not, ◌&&◌, Option, none, some, List, ◌≡◌, ◌⊎◌, refl, sym, ◌∙◌,
  Bool-cases, Option-cases, inl, inr, arith, eq_iff,
}
use kazibee_home.Prelude.Map
use kazibee_home.Prelude.Map.{Map}
use kazibee_home.OAuth.Store.{
  Store, failed, done, OAuthCode, OAuthConnection, OAuthToken, statement, next_failure,
  consume_code, consume_code_rows, consumed, is_none, Statement, create_code_st, consume_code_st,
  create_token_st, rotate_st, create_connection_st, revoke_connection_st, revoke_tokens_st,
  find_connection_st, find_token_st, create_client_st, find_client_st, list_connections_st,
  update_capabilities_st, revoke_superseded_tokens_st, revoke_superseded_st,
}
use kazibee_home.OAuth.Connections.{
  revoke_tokens_by_connection, revoke_tokens_by_connection_rows,
  revoke_superseded_connection_tokens, revoke_superseded_connection_tokens_rows,
}
use kazibee_home.OAuth.Overlap.{execute, execute_all, interleave}
use kazibee_home.OAuth.Flow.{
  Crypto, answer, resume, ask, option, OAuthTokenResult, success_of, failure, unavailable,
  ExchangeCodeInput, exchange_row, exchange_code, is_incomplete,
}
use kazibee_home.OAuth.Flow.Statements.{
  keep_find_connection, keep_find_token, keep_create_connection, keep_revoke_connection,
  keep_list_connections, keep_update_capabilities, keep_revoke_superseded, keep_create_client,
  keep_find_client, keep_create_code, keep_consume_code, keep_create_token, keep_rotate,
}
use kazibee_home.OAuth.Flow.Keeps.{
  Keeps, keep_statement, keep_all, keep_exchange_row, keep_interleave,
}

-- The code with this hash was consumed.
abbrev pub spent_code : Option OAuthCode → Bool
spent_code none = false
spent_code (some c) = not (is_none c.consumed_at)

pub record IsSpentCode (hash : String) (s : Store) : Type 0 where
  pub spent : spent_code (Map.get hash s.codes) ≡ true

abbrev pub is_success : OAuthTokenResult → Bool
is_success (success_of _) = true
is_success (failure _) = false
is_success unavailable = false

pub true_not_false : ¬ (false ≡ true)
true_not_false e = cc

-- A code that was consumed stays so.
module _ (hash : String) where
  free_code :
      (s : Store) (cs : Map OAuthConnection) (ts : Map OAuthToken) (bs : List Bool)
      → IsSpentCode hash s
      → IsSpentCode hash (record s { connections = cs; tokens = ts; failures = bs })
  free_code s cs ts bs p = record { spent = p.spent }

  keep-IsSpentCode :
      (x : Statement) (s : Store) → IsSpentCode hash s → IsSpentCode hash (execute x s)
  unfolding execute consumed revoke_tokens_by_connection revoke_tokens_by_connection_rows
      revoke_superseded_connection_tokens revoke_superseded_connection_tokens_rows
  keep-IsSpentCode (create_code_st c) =
      (keep_create_code (λ s bs. free_code s _ _ bs) c
        (λ s e p. record {
          spent =
              ground (
                arith,
                Map.get-set c.code_hash hash c s.codes,
                eq_iff c.code_hash hash,
                p.spent,
                e,
              );
        })).run
  keep-IsSpentCode (consume_code_st h a d) =
      (keep_consume_code (λ s bs. free_code s _ _ bs) h a d
        (λ s c p. record {
          spent = ground (arith, Map.get-set h hash (consumed a c) s.codes, p.spent);
        })).run
  keep-IsSpentCode (create_token_st t) =
      (keep_create_token (λ s bs. free_code s _ _ bs) t (λ s e p. free_code s _ _ _ p)).run
  keep-IsSpentCode (rotate_st o h c e d) =
      (keep_rotate (λ s bs. free_code s _ _ bs) o h c e d (λ s t n m p. free_code s _ _ _ p)).run
  keep-IsSpentCode (create_connection_st c) =
      (keep_create_connection (λ s cs bs. free_code s cs _ bs) c).run
  keep-IsSpentCode (revoke_connection_st i a) =
      (keep_revoke_connection (λ s cs bs. free_code s cs _ bs) i a).run
  keep-IsSpentCode (revoke_tokens_st i a) =
      (keep_statement (revoke_tokens_by_connection_rows i a) (λ s bs. free_code s _ _ bs)
        (λ s p. free_code s _ _ _ p)).run
  keep-IsSpentCode (find_connection_st i) =
      (keep_find_connection (λ s cs bs. free_code s cs _ bs) i).run
  keep-IsSpentCode (find_token_st h d) = (keep_find_token (λ s cs bs. free_code s cs _ bs) h d).run
  keep-IsSpentCode (create_client_st c) =
      (keep_create_client (λ s ns bs p. record { spent = p.spent }) c).run
  keep-IsSpentCode (find_client_st i) =
      (keep_find_client (λ s ns bs p. record { spent = p.spent }) i).run
  keep-IsSpentCode (list_connections_st u) =
      (keep_list_connections (λ s cs bs. free_code s cs _ bs) u).run
  keep-IsSpentCode (update_capabilities_st i g h w) =
      (keep_update_capabilities (λ s cs bs. free_code s cs _ bs) i g h w).run
  keep-IsSpentCode (revoke_superseded_tokens_st u i n a) =
      (keep_statement (revoke_superseded_connection_tokens_rows u i n a)
        (λ s bs. free_code s _ _ bs) (λ s p. free_code s _ _ _ p)).run
  keep-IsSpentCode (revoke_superseded_st u i n a) =
      (keep_revoke_superseded (λ s cs bs. free_code s cs _ bs) u i n a).run

  -- What `consume_code` answers: nothing where the code was consumed before, and where it gives the
  -- row the code is consumed.
  consume_code-cases :
      (a d : ℕ) (s : Store)
      → ((consume_code hash a d s).0 ≡ failed)
        ⊎ ((consume_code hash a d s).0 ≡ done none)
        ⊎ ((c : OAuthCode) × ((consume_code hash a d s).0 ≡ done (some c))
            × IsSpentCode hash (consume_code hash a d s).1
            × (spent_code (Map.get hash s.codes) ≡ false))
  unfolding consume_code consume_code_rows statement consumed
  consume_code-cases a d s = elim (Bool-cases (next_failure s.failures)) [
    | inl f ↦ inl (rw (f, consume_code, statement) refl)
    | inr f ↦ elim (Option-cases (Map.get hash s.codes)) [
      | inl e ↦ inr (inl (rw (f, e, consume_code, statement, consume_code_rows) refl))
      | inr (c, e) ↦ elim (Bool-cases (is_none c.consumed_at && ltb d c.expires_at)) [
        | inr b ↦ inr (inl (rw (f, e, b, consume_code, statement, consume_code_rows) refl))
        | inl b ↦ inr (
            inr (
              consumed a c,
              rw (f, e, b, consume_code, statement, consume_code_rows) refl,
              rw (f, e, b, consume_code, statement, consume_code_rows)
                  (record { spent = rw (Map.get-set_same hash (consumed a c) s.codes) refl }),
              rw e (ground (arith, b)),
            ))
      ]
    ]
  ]

  IsSpentCode-interleave : (s : Store) → IsSpentCode hash s → IsSpentCode hash (interleave s)
  IsSpentCode-interleave = keep_interleave keep-IsSpentCode (λ s n os p. record { spent = p.spent })

module _ (cr : Crypto) where
  keep_spent_row :
      (h : String) (now : ℕ) (i : ExchangeCodeInput) (c : OAuthCode)
      → Keeps (IsSpentCode h) (exchange_row cr now i c)
  keep_spent_row h now i c =
      keep_exchange_row cr (keep-IsSpentCode h) (λ s n os p. record { spent = p.spent }) now i c

  -- An exchange that succeeds finds the code not consumed and leaves it consumed.
  exchange_code-spends :
      (now db_now : ℕ) (i : ExchangeCodeInput) (s : Store)
      → is_success (exchange_code cr now db_now i s).0 ≡ true
      → IsSpentCode (cr.hash i.code) (exchange_code cr now db_now i s).1
        × (spent_code (Map.get (cr.hash i.code) (interleave s).codes) ≡ false)
  unfolding exchange_code answer ask option resume
  exchange_code-spends now db_now i s ok = elim (Bool-cases (is_incomplete i)) [
    | inl b ↦ elim (true_not_false (rw (b, exchange_code, answer) at ok)) [ ]
    | inr b ↦ elim (consume_code-cases (cr.hash i.code) now db_now (interleave s)) [
      | inl e ↦ elim (true_not_false (rw (b, e, exchange_code, ask, resume) at ok)) [ ]
      | inr (inl e) ↦
          elim (true_not_false (rw (b, e, exchange_code, ask, resume, option, answer) at ok)) [ ]
      | inr (inr (c, e, spent, new)) ↦
          rw (b, e, exchange_code, ask, option, resume)
            ((keep_spent_row (cr.hash i.code) now i c).run _ spent, new)
    ]
  ]

  -- An exchange of a code that was consumed does not succeed.
  exchange_code-spent :
      (now db_now : ℕ) (i : ExchangeCodeInput) (s : Store)
      → IsSpentCode (cr.hash i.code) s
      → is_success (exchange_code cr now db_now i s).0 ≡ false
  exchange_code-spent now db_now i s p =
      elim (Bool-cases (is_success (exchange_code cr now db_now i s).0)) [
        | inl ok ↦
            elim (true_not_false (
              sym (exchange_code-spends now db_now i s ok).1
              ∙ (IsSpentCode-interleave (cr.hash i.code) s p).spent)) [ ]
        | inr refused ↦ refused
      ]

  -- Once an exchange of a code succeeded, no later exchange of that code does, by whatever client and
  -- whichever statements of the repository, in any order, ran in between, or between the statements of
  -- the two.
  pub code_is_exchanged_once :
      (now db_now later db_later : ℕ) (i j : ExchangeCodeInput) (xs : List Statement) (s : Store)
      → is_success (exchange_code cr now db_now i s).0 ≡ true
      → j.code ≡ i.code
      → is_success
          (exchange_code cr later db_later j (execute_all xs (exchange_code cr now db_now i s).1)).0
        ≡ false
  code_is_exchanged_once now db_now later db_later i j xs s ok same =
      exchange_code-spent later db_later j _ (
        rw same (
          keep_all (keep-IsSpentCode (cr.hash i.code)) xs _
            (exchange_code-spends now db_now i s ok).0))
