-- ===== src/OAuth/Store.antt =====
-- src/server/repo/oauth_repo: the rows of index.ts and the statements of the .sql files that the
-- token endpoints run; Connections has the others. A time is a number of milliseconds. Each statement is atomic, as it is in the
-- database; `failures` says which of the next statements fail for a reason outside the model.
use kazibee_home.Prelude.{
  ℕ, String, ltb, if◌then◌else◌, Bool, true, false, not, ◌&&◌, ◌||◌, Option, none, some, List, [],
  ◌∷◌,
}
use kazibee_home.Prelude.Map
use kazibee_home.Prelude.Map.{Map}
use kazibee_home.OAuth.Scopes.{Access}

pub data ConnectionStatus : Type 0 where
  active revoked : ConnectionStatus

pub data TokenKind : Type 0 where
  access refresh : TokenKind

pub record OAuthConnection : Type 0 where
  pub connection_id : String
  pub user_id : String
  pub client_id : String
  pub approved_scope : Access
  pub allow_shell : Bool
  pub allow_web : Bool
  pub status : ConnectionStatus
  pub created_at : ℕ
  pub revoked_at : Option ℕ

-- `code_challenge_method` is "S256" by its type.
pub record OAuthCode : Type 0 where
  pub code_hash : String
  pub connection_id : String
  pub client_id : String
  pub redirect_uri : String
  pub code_challenge : String
  pub resource : String
  pub created_at : ℕ
  pub expires_at : ℕ
  pub consumed_at : Option ℕ

pub record OAuthToken : Type 0 where
  pub token_hash : String
  pub connection_id : String
  pub kind : TokenKind
  pub status : ConnectionStatus
  pub created_at : ℕ
  pub expires_at : ℕ
  pub revoked_at : Option ℕ
  pub rotated_from : Option String

pub data OAuthClientKind : Type 0 where
  cimd dcr : OAuthClientKind

pub data OAuthClientStatus : Type 0 where
  active_client disabled_client : OAuthClientStatus

-- `metadata` is its JSON text.
pub record OAuthClient : Type 0 where
  pub client_id : String
  pub kind : OAuthClientKind
  pub client_name : Option String
  pub redirect_uris : List String
  pub metadata : Option String
  pub status : OAuthClientStatus
  pub created_at : ℕ
  pub updated_at : ℕ

-- A call of a statement of the repository, with its parameters and the time of the database where it
-- reads that.
pub data Statement : Type 0 where
  create_code_st : OAuthCode → Statement
  consume_code_st : (code_hash : String) → (consumed_at db_now : ℕ) → Statement
  create_token_st : OAuthToken → Statement
  rotate_st : (old_token_hash token_hash : String) → (created_at expires_at db_now : ℕ) → Statement
  create_connection_st : OAuthConnection → Statement
  revoke_connection_st : (connection_id : String) → (revoked_at : ℕ) → Statement
  revoke_tokens_st : (connection_id : String) → (revoked_at : ℕ) → Statement
  find_connection_st : (connection_id : String) → Statement
  find_token_st : (token_hash : String) → (db_now : ℕ) → Statement
  create_client_st : OAuthClient → Statement
  find_client_st : (client_id : String) → Statement
  list_connections_st : (user_id : String) → Statement
  update_capabilities_st :
      (connection_id : String) → Access → (allow_shell allow_web : Bool) → Statement
  revoke_superseded_tokens_st :
      (user_id connection_id client_name : String) → (revoked_at : ℕ) → Statement
  revoke_superseded_st : (user_id connection_id client_name : String) → (revoked_at : ℕ) → Statement

-- The rows by their primary keys, and how many random tokens were drawn. `others` says which
-- statements of other calls run before each of the next statements of a token endpoint.
pub record Store : Type 0 where
  pub clients : Map OAuthClient
  pub codes : Map OAuthCode
  pub connections : Map OAuthConnection
  pub tokens : Map OAuthToken
  pub drawn : ℕ
  pub failures : List Bool
  pub others : List (List Statement)

pub data Outcome (A : Type 0) : Type 0 where
  failed : Outcome A
  done : A → Outcome A

abbrev pub is_active : ConnectionStatus → Bool
is_active active = true
is_active revoked = false

abbrev pub is_refresh : TokenKind → Bool
is_refresh access = false
is_refresh refresh = true

abbrev pub is_none {ℓ} : {A : Type ℓ} → Option A → Bool
is_none none = true
is_none (some _) = false

abbrev pub next_failure : List Bool → Bool
next_failure [] = false
next_failure (b ∷ bs) = b

abbrev later_failures : List Bool → List Bool
later_failures [] = []
later_failures (b ∷ bs) = bs

-- Runs one statement: where it fails the rows stay as they are.
unfoldable pub statement : {A : Type 0} → (Store → Outcome A × Store) → Store → Outcome A × Store
statement f s =
    let s' : Store = record s { failures = later_failures s.failures } in
    if next_failure s.failures then (failed, s') else f s'

-- An insertion fails where the primary key is taken or the connection that it names is missing.
unfoldable pub create_code_rows : OAuthCode → Store → Outcome (Unit {0}) × Store
create_code_rows c s =
    if Map.has c.code_hash s.codes || not (Map.has c.connection_id s.connections)
    then (failed, s)
    else (done tt, record s { codes = Map.set c.code_hash c s.codes })

unfoldable pub create_code : OAuthCode → Store → Outcome (Unit {0}) × Store
create_code c = statement (create_code_rows c)

unfoldable pub consumed : ℕ → OAuthCode → OAuthCode
consumed at c = record c { consumed_at = some at }

-- consumeCode.sql
unfoldable pub consume_code_rows :
    (hash : String) (at db_now : ℕ) → Store → Outcome (Option OAuthCode) × Store
consume_code_rows hash at db_now s = elim (Map.get hash s.codes) [
  | none ↦ (done none, s)
  | some c ↦
      if is_none c.consumed_at && ltb db_now c.expires_at
      then (done (some (consumed at c)), record s { codes = Map.set hash (consumed at c) s.codes })
      else (done none, s)
]

unfoldable pub consume_code :
    (hash : String) (at db_now : ℕ) → Store → Outcome (Option OAuthCode) × Store
consume_code hash at db_now = statement (consume_code_rows hash at db_now)

-- findActiveConnectionById.sql
unfoldable pub find_active_connection_by_id_rows :
    String → Store → Outcome (Option OAuthConnection) × Store
find_active_connection_by_id_rows id s = elim (Map.get id s.connections) [
  | none ↦ (done none, s)
  | some c ↦ if is_active c.status then (done (some c), s) else (done none, s)
]

unfoldable pub find_active_connection_by_id :
    String → Store → Outcome (Option OAuthConnection) × Store
find_active_connection_by_id id = statement (find_active_connection_by_id_rows id)

unfoldable pub create_token_rows : OAuthToken → Store → Outcome (Unit {0}) × Store
create_token_rows t s =
    if Map.has t.token_hash s.tokens || not (Map.has t.connection_id s.connections)
    then (failed, s)
    else (done tt, record s { tokens = Map.set t.token_hash t s.tokens })

unfoldable pub create_token : OAuthToken → Store → Outcome (Unit {0}) × Store
create_token t = statement (create_token_rows t)

-- findActiveTokenWithConnection.sql: the row of the token and that of its connection.
unfoldable pub find_active_token_with_connection_rows :
    (hash : String) (db_now : ℕ) → Store → Outcome (Option (OAuthToken × OAuthConnection)) × Store
find_active_token_with_connection_rows hash db_now s = elim (Map.get hash s.tokens) [
  | none ↦ (done none, s)
  | some t ↦ elim (Map.get t.connection_id s.connections) [
    | none ↦ (done none, s)
    | some c ↦
        if is_active t.status && ltb db_now t.expires_at && is_active c.status
        then (done (some (t, c)), s)
        else (done none, s)
  ]
]

unfoldable pub find_active_token_with_connection :
    (hash : String) (db_now : ℕ) → Store → Outcome (Option (OAuthToken × OAuthConnection)) × Store
find_active_token_with_connection hash db_now =
    statement (find_active_token_with_connection_rows hash db_now)

unfoldable pub revoke : ℕ → OAuthToken → OAuthToken
revoke at t = record t { status = revoked; revoked_at = some at }

-- The row that a rotation inserts.
unfoldable pub rotated_token :
    (old_hash hash : String) (created_at expires_at : ℕ) → OAuthToken → OAuthToken
rotated_token old_hash hash created_at expires_at t = record {
  token_hash = hash;
  connection_id = t.connection_id;
  kind = refresh;
  status = active;
  created_at = created_at;
  expires_at = expires_at;
  revoked_at = none;
  rotated_from = some old_hash;
}

-- rotateRefreshToken.sql
unfoldable pub rotate_refresh_token_rows :
    (old_hash hash : String) (created_at expires_at db_now : ℕ)
    → Store
    → Outcome (Option OAuthToken) × Store
rotate_refresh_token_rows old_hash hash created_at expires_at db_now s =
    elim (Map.get old_hash s.tokens) [
      | none ↦ (done none, s)
      | some t ↦
          if is_refresh t.kind && is_active t.status && ltb db_now t.expires_at
          then (if Map.has hash s.tokens then (failed, s) else (
            done (some (rotated_token old_hash hash created_at expires_at t)),
            record s {
              tokens =
                  Map.set hash (rotated_token old_hash hash created_at expires_at t)
                    (Map.set old_hash (revoke created_at t) s.tokens);
            },
          ))
          else (done none, s)
    ]

unfoldable pub rotate_refresh_token :
    (old_hash hash : String) (created_at expires_at db_now : ℕ)
    → Store
    → Outcome (Option OAuthToken) × Store
rotate_refresh_token old_hash hash created_at expires_at db_now =
    statement (rotate_refresh_token_rows old_hash hash created_at expires_at db_now)
