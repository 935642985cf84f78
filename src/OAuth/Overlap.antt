-- ===== src/OAuth/Overlap.antt =====
-- The statements of src/server/repo/oauth_repo that other calls run between two statements of one
-- call of src/server/services/oauth_flow_service.ts.
use kazibee_home.Prelude.{List, [], ◌∷◌}
use kazibee_home.OAuth.Store.{
  Store, Statement, create_code_st, consume_code_st, create_token_st, rotate_st,
  create_connection_st, revoke_connection_st, revoke_tokens_st, find_connection_st, find_token_st,
  create_client_st, find_client_st, list_connections_st, update_capabilities_st,
  revoke_superseded_tokens_st, revoke_superseded_st, create_code, consume_code, create_token,
  rotate_refresh_token, find_active_connection_by_id, find_active_token_with_connection,
}
use kazibee_home.OAuth.Connections.{
  create_connection, revoke_connection, revoke_tokens_by_connection, create_client,
  find_client_by_id, list_connections_by_user, update_connection_capabilities,
  revoke_superseded_connection_tokens, revoke_superseded_connections,
}

unfoldable pub execute : Statement → Store → Store
execute (create_code_st c) s = (create_code c s).1
execute (consume_code_st h a d) s = (consume_code h a d s).1
execute (create_token_st t) s = (create_token t s).1
execute (rotate_st o h c e d) s = (rotate_refresh_token o h c e d s).1
execute (create_connection_st c) s = (create_connection c s).1
execute (revoke_connection_st i a) s = (revoke_connection i a s).1
execute (revoke_tokens_st i a) s = (revoke_tokens_by_connection i a s).1
execute (find_connection_st i) s = (find_active_connection_by_id i s).1
execute (find_token_st h d) s = (find_active_token_with_connection h d s).1
execute (create_client_st c) s = (create_client c s).1
execute (find_client_st i) s = (find_client_by_id i s).1
execute (list_connections_st u) s = (list_connections_by_user u s).1
execute (update_capabilities_st i g h w) s = (update_connection_capabilities i g h w s).1
execute (revoke_superseded_tokens_st u i n a) s = (revoke_superseded_connection_tokens u i n a s).1
execute (revoke_superseded_st u i n a) s = (revoke_superseded_connections u i n a s).1

unfoldable pub execute_all : List Statement → Store → Store
execute_all [] s = s
execute_all (x ∷ xs) s = execute_all xs (execute x s)

abbrev pub next_others : List (List Statement) → List Statement
next_others [] = []
next_others (xs ∷ rest) = xs

abbrev pub later_others : List (List Statement) → List (List Statement)
later_others [] = []
later_others (xs ∷ rest) = rest

-- What other calls do before the next statement of this one.
unfoldable pub interleave : Store → Store
interleave s = execute_all (next_others s.others) (record s { others = later_others s.others })
