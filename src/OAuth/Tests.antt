-- ===== src/OAuth/Tests.antt =====
-- The token endpoints at work, and what the properties of oauth_flow_service.ts and oauth_scopes.ts
-- say of them.
use kazibee_home.Prelude.{
  String, ◌==◌, str_eq, if◌then◌else◌, true, false, none, some, List, [], ◌∷◌, ◌≡◌, refl, all,
}
use kazibee_home.Prelude.Map
use kazibee_home.OAuth.Scopes.{
  read_write, read, GrantScope, parse_oauth_grant_scope, grant_scope_to_oauth_scope,
  grant_scope_allows, includes, grant_words,
}
use kazibee_home.OAuth.Scopes.Laws.{parse-grant_scope_to_oauth_scope, grant_scope_allows_lem}
use kazibee_home.OAuth.Store.{
  Outcome, failed, done, Store, OAuthCode, OAuthConnection, OAuthToken, active, refresh,
  consume_code, consume_code_rows, consumed, create_token, create_token_rows,
  find_active_connection_by_id, find_active_connection_by_id_rows,
  find_active_token_with_connection, find_active_token_with_connection_rows, revoke,
  rotate_refresh_token, rotate_refresh_token_rows, rotated_token, statement, Statement,
  find_token_st, revoke_connection_st, create_code_st, revoke_superseded_st,
  revoke_superseded_tokens_st, rotate_st, OAuthClient, dcr, active_client,
}
use kazibee_home.OAuth.Flow.{
  Crypto, ExchangeCodeInput, RefreshTokenInput, exchange_code, refresh_tokens, active_refresh_token,
  answer, ask, ends_with, exchange_row, is_incomplete, is_malformed, mint_access, mint_token_pair,
  option, pkce_challenge, random_token, refresh_row, resource_bound_token, resource_tag, resume,
  scope_of, success, token_matches_resource, token_record, token_shape, with_random,
}
use kazibee_home.OAuth.Overlap.{execute_all, execute, interleave}
use kazibee_home.OAuth.Connections.{
  OAuthConnectionListRecord, list_connections_by_user, list_connections_by_user_rows,
  is_superseded_token, revoke_superseded_connection_tokens,
  revoke_superseded_connection_tokens_rows, revoke_superseded_connections,
  revoke_superseded_connections_rows, is_superseded, update_where,
}
use kazibee_home.OAuth.Flow.SingleUse.{is_success, code_is_exchanged_once}
use kazibee_home.OAuth.Flow.Rotation.{refresh_token_is_used_once}

abbrev crypto : Crypto
crypto = record {
  hash = λ s. s;
  digest = λ s. if str_eq s "verifier" then "challenge" else "tag_of_resource_";
  random = λ n.
      if n == 0
      then "aaaaaaaaaaaaaaaaaaaaaaaa"
      else if n == 1
      then "bbbbbbbbbbbbbbbbbbbbbbbb"
      else "cccccccccccccccccccccccc";
}

abbrev connection : OAuthConnection
connection = record {
  connection_id = "ocn_1";
  user_id = "usr_1";
  client_id = "oac_1";
  approved_scope = read_write;
  allow_shell = false;
  allow_web = true;
  status = active;
  created_at = 1;
  revoked_at = none;
}

abbrev code : OAuthCode
code = record {
  code_hash = "the-code";
  connection_id = "ocn_1";
  client_id = "oac_1";
  redirect_uri = "https://app/cb";
  code_challenge = "challenge";
  resource = "https://mcp";
  created_at = 1000;
  expires_at = 61000;
  consumed_at = none;
}

abbrev old_token : String
old_token = "ddddddddddddddddddddddddtag_of_resource_"

abbrev token : OAuthToken
token = record {
  token_hash = old_token;
  connection_id = "ocn_1";
  kind = refresh;
  status = active;
  created_at = 1000;
  expires_at = 900000;
  revoked_at = none;
  rotated_from = none;
}

abbrev client : OAuthClient
client = record {
  client_id = "oac_1";
  kind = dcr;
  client_name = some "App";
  redirect_uris = "https://app/cb" ∷ [];
  metadata = none;
  status = active_client;
  created_at = 1;
  updated_at = 1;
}

-- Other calls look the token up and drop superseded connections before the second statement.
abbrev store : Store
store = record {
  clients = ("oac_1", client) ∷ [];
  codes = ("the-code", code) ∷ [];
  connections = ("ocn_1", connection) ∷ [];
  tokens = (old_token, token) ∷ [];
  drawn = 0;
  failures = [];
  others =
      []
      ∷ (find_token_st old_token 2000 ∷ revoke_superseded_st "usr_2" "ocn_3" "App" 2000 ∷ [])
      ∷ [];
}

abbrev exchange : ExchangeCodeInput
exchange = record {
  code = "the-code";
  code_verifier = "verifier";
  client_id = "oac_1";
  redirect_uri = "https://app/cb";
  resource = "https://mcp";
}

abbrev refreshing : RefreshTokenInput
refreshing = record { refresh_token = old_token; client_id = "oac_1"; resource = "https://mcp" }

abbrev between : List Statement
between =
    find_token_st old_token 3000
    ∷ create_code_st code
    ∷ revoke_connection_st "ocn_2" 3000
    ∷ revoke_superseded_tokens_st "usr_2" "ocn_3" "App" 3000
    ∷ []

exchange_succeeds : is_success (exchange_code crypto 2000 2000 exchange store).0 ≡ true
unfolding exchange_code is_incomplete ask interleave execute_all execute
    revoke_superseded_connections revoke_superseded_connections_rows is_superseded update_where
    find_active_token_with_connection find_active_token_with_connection_rows consume_code statement
    consume_code_rows Map.get option exchange_row consumed pkce_challenge
    find_active_connection_by_id find_active_connection_by_id_rows mint_token_pair with_random
    create_token create_token_rows answer random_token resource_bound_token resource_tag resume
    scope_of success token_record grant_scope_to_oauth_scope grant_words Map.set
exchange_succeeds = refl

refresh_succeeds : is_success (refresh_tokens crypto 2000 2000 refreshing store).0 ≡ true
unfolding refresh_tokens is_malformed interleave execute_all execute revoke_superseded_connections
    revoke_superseded_connections_rows is_superseded update_where token_shape token_matches_resource
    ends_with ask find_active_token_with_connection statement find_active_token_with_connection_rows
    Map.get option refresh_row active_refresh_token with_random rotate_refresh_token
    rotate_refresh_token_rows resource_bound_token answer mint_access random_token resource_tag
    resume scope_of success token_record grant_scope_to_oauth_scope grant_words create_token
    create_token_rows revoke rotated_token Map.set
refresh_succeeds = refl

code_is_exchanged_once_example :
    is_success
      (exchange_code crypto 4000 4000 exchange
        (execute_all between (exchange_code crypto 2000 2000 exchange store).1)).0
    ≡ false
code_is_exchanged_once_example =
    code_is_exchanged_once crypto 2000 2000 4000 4000 exchange exchange between store
      exchange_succeeds refl

refresh_token_is_used_once_example :
    is_success
      (refresh_tokens crypto 4000 4000 refreshing
        (execute_all between (refresh_tokens crypto 2000 2000 refreshing store).1)).0
    ≡ false
refresh_token_is_used_once_example =
    refresh_token_is_used_once crypto 2000 2000 4000 4000 refreshing refreshing between store
      refresh_succeeds refl

-- Another refresh with the same token rotates it between this call's lookup and its rotation.
overtaken :
    is_success
      (refresh_tokens crypto 2000 2000 refreshing (record store {
        others = [] ∷ (rotate_st old_token "another" 2000 9000000 2000 ∷ []) ∷ [];
      })).0
    ≡ false
unfolding refresh_tokens is_malformed interleave execute_all execute token_shape
    token_matches_resource ends_with ask find_active_token_with_connection statement
    find_active_token_with_connection_rows Map.get option refresh_row active_refresh_token
    with_random rotate_refresh_token rotate_refresh_token_rows resource_bound_token answer
    random_token resource_tag resume revoke rotated_token Map.set
overtaken = refl

-- The user links the application again: the later connection comes first in the list.
abbrev linked_again : Store
linked_again = record store {
  connections =
      ("ocn_1", connection)
      ∷ ("ocn_2", record connection { connection_id = "ocn_2"; created_at = 5 })
      ∷ [];
  others = [];
}

abbrev ids_listed : Store → List String
ids_listed s = ids (list_connections_by_user "usr_1" s).0
  where
    names : List OAuthConnectionListRecord → List String
    names [] = []
    names (r ∷ rs) = r.connection.connection_id ∷ names rs

    ids : Outcome (List OAuthConnectionListRecord) → List String
    ids failed = []
    ids (done rs) = names rs

lists_both : ids_listed linked_again ≡ ("ocn_2" ∷ "ocn_1" ∷ [])
unfolding list_connections_by_user list_connections_by_user_rows statement Map.get
lists_both = refl

supersedes_the_first :
    ids_listed (execute (revoke_superseded_st "usr_1" "ocn_2" "App" 6) linked_again)
    ≡ ("ocn_2" ∷ [])
unfolding list_connections_by_user list_connections_by_user_rows statement Map.get execute
    revoke_superseded_connections revoke_superseded_connections_rows is_superseded update_where
supersedes_the_first = refl

supersedes_its_token :
    find_active_token_with_connection_rows old_token 7
      (execute (revoke_superseded_tokens_st "usr_1" "ocn_2" "App" 6) linked_again)
    ≡ (done none, execute (revoke_superseded_tokens_st "usr_1" "ocn_2" "App" 6) linked_again)
unfolding find_active_token_with_connection_rows statement Map.get execute revoke
    revoke_superseded_connection_tokens revoke_superseded_connection_tokens_rows is_superseded
    is_superseded_token update_where
supersedes_its_token = refl

abbrev reader : GrantScope
reader = record { access = read; shell = false; web = true }

abbrev writer : GrantScope
writer = record { access = read_write; shell = true; web = true }

parse-grant_scope_to_oauth_scope_example :
    parse_oauth_grant_scope (grant_scope_to_oauth_scope writer) ≡ some writer
parse-grant_scope_to_oauth_scope_example = parse-grant_scope_to_oauth_scope writer

grant_scope_allows_lem_example :
    grant_scope_allows writer reader ≡ all (includes (grant_words writer)) (grant_words reader)
grant_scope_allows_lem_example = grant_scope_allows_lem writer reader
