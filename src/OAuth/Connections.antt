-- ===== src/OAuth/Connections.antt =====
-- src/server/repo/oauth_repo: the statements on clients and connections, and on all tokens of a
-- connection, and which of the repository's statements a call names.
use kazibee_home.Prelude.{
  ℕ, String, leb, str_eq, if◌then◌else◌, Bool, false, not, ◌&&◌, ◌||◌, Option, none, some, List, [],
  ◌∷◌,
}
use kazibee_home.Prelude.Map
use kazibee_home.Prelude.Map.{Map}
use kazibee_home.OAuth.Scopes.{Access}
use kazibee_home.OAuth.Store.{
  Store, Outcome, failed, done, OAuthClient, OAuthConnection, OAuthToken, revoked, is_active,
  statement, revoke,
}

-- createConnection.sql; the account that it names is outside the model.
unfoldable pub create_connection_rows : OAuthConnection → Store → Outcome (Unit {0}) × Store
create_connection_rows c s =
    if Map.has c.connection_id s.connections || not (Map.has c.client_id s.clients)
    then (failed, s)
    else (done tt, record s { connections = Map.set c.connection_id c s.connections })

unfoldable pub create_connection : OAuthConnection → Store → Outcome (Unit {0}) × Store
create_connection c = statement (create_connection_rows c)

-- revokeConnection.sql
unfoldable pub revoke_connection_rows : (id : String) (at : ℕ) → Store → Outcome (Unit {0}) × Store
revoke_connection_rows id at s = elim (Map.get id s.connections) [
  | none ↦ (done tt, s)
  | some c ↦
      if is_active c.status
      then (
        done tt,
        record s {
          connections =
              Map.set id (record c { status = revoked; revoked_at = some at }) s.connections;
        },
      )
      else (done tt, s)
]

unfoldable pub revoke_connection : (id : String) (at : ℕ) → Store → Outcome (Unit {0}) × Store
revoke_connection id at = statement (revoke_connection_rows id at)

-- The tokens of a connection that are active, revoked.
unfoldable pub revoke_tokens_of : (id : String) (at : ℕ) → Map OAuthToken → Map OAuthToken
revoke_tokens_of id at [] = []
revoke_tokens_of id at ((k, t) ∷ m) =
    (k, (if str_eq t.connection_id id && is_active t.status then revoke at t else t))
    ∷ revoke_tokens_of id at m

-- revokeTokensByConnection.sql
unfoldable pub revoke_tokens_by_connection_rows :
    (id : String) (at : ℕ) → Store → Outcome (Unit {0}) × Store
revoke_tokens_by_connection_rows id at s =
    (done tt, record s { tokens = revoke_tokens_of id at s.tokens })

unfoldable pub revoke_tokens_by_connection :
    (id : String) (at : ℕ) → Store → Outcome (Unit {0}) × Store
revoke_tokens_by_connection id at = statement (revoke_tokens_by_connection_rows id at)

-- createClient.sql; the form of a client id is not checked.
unfoldable pub create_client_rows : OAuthClient → Store → Outcome (Unit {0}) × Store
create_client_rows c s =
    if Map.has c.client_id s.clients
    then (failed, s)
    else (done tt, record s { clients = Map.set c.client_id c s.clients })

unfoldable pub create_client : OAuthClient → Store → Outcome (Unit {0}) × Store
create_client c = statement (create_client_rows c)

-- findClientById.sql
unfoldable pub find_client_by_id_rows : String → Store → Outcome (Option OAuthClient) × Store
find_client_by_id_rows id s = (done (Map.get id s.clients), s)

unfoldable pub find_client_by_id : String → Store → Outcome (Option OAuthClient) × Store
find_client_by_id id = statement (find_client_by_id_rows id)

-- A connection with the name of its client.
pub record OAuthConnectionListRecord : Type 0 where
  pub connection : OAuthConnection
  pub client_name : Option String

-- `ORDER BY connection.created_at DESC`
place_newest :
    OAuthConnectionListRecord → List OAuthConnectionListRecord → List OAuthConnectionListRecord
place_newest r [] = r ∷ []
place_newest r (x ∷ xs) =
    let rest = place_newest r xs in
    if leb x.connection.created_at r.connection.created_at then r ∷ x ∷ xs else x ∷ rest

-- The active connections of the user, each joined with its client.
connections_of : String → Map OAuthClient → Map OAuthConnection → List OAuthConnectionListRecord
unfolding place_newest
connections_of user_id clients [] = []
connections_of user_id clients ((k, c) ∷ m) =
    let rest = connections_of user_id clients m in
    elim (Map.get c.client_id clients) [
      | none ↦ rest
      | some client ↦
          if str_eq c.user_id user_id && is_active c.status
          then place_newest (record { connection = c; client_name = client.client_name }) rest
          else rest
    ]

-- listConnectionsByUser.sql
unfoldable pub list_connections_by_user_rows :
    String → Store → Outcome (List OAuthConnectionListRecord) × Store
unfolding connections_of
list_connections_by_user_rows user_id s = (done (connections_of user_id s.clients s.connections), s)

unfoldable pub list_connections_by_user :
    String → Store → Outcome (List OAuthConnectionListRecord) × Store
list_connections_by_user user_id = statement (list_connections_by_user_rows user_id)

-- `UPDATE … SET … WHERE …`
unfoldable pub update_where {ℓ} : {A : Type ℓ} → (A → Bool) → (A → A) → Map A → Map A
update_where f change [] = []
update_where f change ((k, a) ∷ m) = (k, (if f a then change a else a)) ∷ update_where f change m

-- updateConnectionCapabilities.sql
unfoldable pub update_connection_capabilities_rows :
    (id : String) → Access → (shell web : Bool) → Store → Outcome (Unit {0}) × Store
update_connection_capabilities_rows id scope shell web s = (
  done tt,
  record s {
    connections =
        update_where (λ c. str_eq c.connection_id id && is_active c.status)
          (λ c. record c { approved_scope = scope; allow_shell = shell; allow_web = web })
          s.connections;
  },
)

unfoldable pub update_connection_capabilities :
    (id : String) → Access → (shell web : Bool) → Store → Outcome (Unit {0}) × Store
update_connection_capabilities id scope shell web =
    statement (update_connection_capabilities_rows id scope shell web)

-- The client has this display name; a missing name equals none.
abbrev is_named : String → Option OAuthClient → Bool
is_named name none = false
is_named name (some c) = elim c.client_name [ none ↦ false | some n ↦ str_eq n name ]

-- One of the user's other active connections whose client has this name.
unfoldable pub is_superseded : (user_id id name : String) → Map OAuthClient → OAuthConnection → Bool
is_superseded user_id id name clients c =
    is_active c.status
    && str_eq c.user_id user_id
    && not (str_eq c.connection_id id)
    && is_named name (Map.get c.client_id clients)

-- The token is active and its connection is superseded.
unfoldable pub is_superseded_token :
    (user_id id name : String) → Map OAuthClient → Map OAuthConnection → OAuthToken → Bool
unfolding is_superseded
is_superseded_token user_id id name clients connections t =
    elim (Map.get t.connection_id connections) [
      | none ↦ false
      | some c ↦ is_active t.status && is_superseded user_id id name clients c
    ]

-- revokeSupersededConnectionTokens.sql
unfoldable pub revoke_superseded_connection_tokens_rows :
    (user_id id name : String) (at : ℕ) → Store → Outcome (Unit {0}) × Store
unfolding is_superseded_token update_where
revoke_superseded_connection_tokens_rows user_id id name at s = (
  done tt,
  record s {
    tokens =
        update_where (is_superseded_token user_id id name s.clients s.connections) (revoke at)
          s.tokens;
  },
)

unfoldable pub revoke_superseded_connection_tokens :
    (user_id id name : String) (at : ℕ) → Store → Outcome (Unit {0}) × Store
revoke_superseded_connection_tokens user_id id name at =
    statement (revoke_superseded_connection_tokens_rows user_id id name at)

-- revokeSupersededConnections.sql
unfoldable pub revoke_superseded_connections_rows :
    (user_id id name : String) (at : ℕ) → Store → Outcome (Unit {0}) × Store
unfolding is_superseded update_where
revoke_superseded_connections_rows user_id id name at s = (
  done tt,
  record s {
    connections =
        update_where (is_superseded user_id id name s.clients)
          (λ c. record c { status = revoked; revoked_at = some at }) s.connections;
  },
)

unfoldable pub revoke_superseded_connections :
    (user_id id name : String) (at : ℕ) → Store → Outcome (Unit {0}) × Store
revoke_superseded_connections user_id id name at =
    statement (revoke_superseded_connections_rows user_id id name at)
