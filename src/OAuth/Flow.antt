-- ===== src/OAuth/Flow.antt =====
-- src/server/services/oauth_flow_service.ts: the token endpoints. The clock of the service (`now`)
-- and that of the database (`db_now`) are two arguments.
pub mod Keeps
mod Statements
pub mod SingleUse
pub mod Rotation
use Prim.Native.Char.{Char, code}
use Prim.Native.String
use kazibee_home.Prelude.{
  ℕ, suc, String, len, ◌+◌, ◌*◌, ◌/◌, ◌==◌, ltb, leb, str_eq, if◌then◌else◌, Bool, true, false, not,
  ◌&&◌, ◌||◌, Option, none, some,
}
use kazibee_home.OAuth.Scopes.{GrantScope, grant_scope_to_oauth_scope}
use kazibee_home.OAuth.Overlap.{interleave}
use kazibee_home.OAuth.Store.{
  Store, Outcome, failed, done, OAuthCode, OAuthConnection, OAuthToken, TokenKind, access, refresh,
  active, is_active, is_refresh, create_code, consume_code, find_active_connection_by_id,
  create_token, find_active_token_with_connection, rotate_refresh_token,
}

abbrev pub access_token_ms : ℕ
access_token_ms = 60 * 60 * 1000

abbrev pub refresh_token_ms : ℕ
refresh_token_ms = 30 * 24 * 60 * 60 * 1000

abbrev pub code_ms : ℕ
code_ms = 60 * 1000

abbrev pub resource_tag_length : ℕ
resource_tag_length = 16

-- node:crypto: `hash` is the SHA-256 of a text in hex, `digest` the same in base64url, and `random`
-- the random tokens in the order in which they are drawn.
pub record Crypto : Type 0 where
  pub hash : String → String
  pub digest : String → String
  pub random : ℕ → String

pub data OAuthTokenError : Type 0 where
  invalid_grant invalid_client invalid_request : OAuthTokenError

pub record OAuthTokenSuccess : Type 0 where
  pub access_token : String
  pub expires_in : ℕ
  pub refresh_token : String
  pub scope : String

pub data OAuthTokenResult : Type 0 where
  success_of : OAuthTokenSuccess → OAuthTokenResult
  failure : OAuthTokenError → OAuthTokenResult
  unavailable : OAuthTokenResult

pub record CreateAuthorizationCodeInput : Type 0 where
  pub connection_id : String
  pub client_id : String
  pub redirect_uri : String
  pub code_challenge : String
  pub resource : String

pub record ExchangeCodeInput : Type 0 where
  pub code : String
  pub code_verifier : String
  pub client_id : String
  pub redirect_uri : String
  pub resource : String

pub record RefreshTokenInput : Type 0 where
  pub refresh_token : String
  pub client_id : String
  pub resource : String

abbrev pub is_blank : String → Bool
is_blank s = str_eq s ""

-- A service call from one of its statements on.
abbrev pub Call : Type 0
Call = Store → OAuthTokenResult × Store

unfoldable pub answer : OAuthTokenResult → Call
answer r s = (r, s)

unfoldable pub resume : {A : Type 0} → Outcome A × Store → (A → Call) → OAuthTokenResult × Store
resume (failed, s) k = (unavailable, s)
resume (done a, s) k = k a s

-- Awaits a statement, before which statements of other calls may run, and goes on with its answer;
-- where it fails, `repoUnavailable`.
unfoldable pub ask : {A : Type 0} → (Store → Outcome A × Store) → (A → Call) → Call
unfolding resume
ask m k s = resume (m (interleave s)) k

-- `if (!o) absent; present(o)`
unfoldable pub option : {A : Type 0} → Option A → Call → (A → Call) → Call
option none absent present = absent
option (some a) absent present = present a

-- TOKEN_SHAPE, `/^[A-Za-z0-9_-]{20,}$/`
is_token_char : ℕ → Bool
is_token_char c =
    (leb 65 c && leb c 90)
    || (leb 97 c && leb c 122)
    || (leb 48 c && leb c 57)
    || c == 95
    || c == 45

token_chars : String → Bool
unfolding is_token_char
token_chars String.[] = true
token_chars (String.◌∷◌ c s) = is_token_char (code c) && token_chars s

unfoldable pub token_shape : String → Bool
unfolding token_chars
token_shape s = leb 20 (len s) && token_chars s

-- `s.endsWith(suffix)`
unfoldable pub ends_with : String → String → Bool
ends_with suffix String.[] = str_eq String.[] suffix
ends_with suffix (String.◌∷◌ c s) = str_eq (String.◌∷◌ c s) suffix || ends_with suffix s

-- `s.slice(0, n)`
take_text : ℕ → String → String
take_text ℕ.zero s = ""
take_text (suc n) String.[] = ""
take_text (suc n) (String.◌∷◌ c s) = String.◌∷◌ c (take_text n s)

unfoldable pub success : (access_token refresh_token : String) → GrantScope → OAuthTokenResult
success access_token refresh_token scope = success_of (record {
  access_token = access_token;
  expires_in = access_token_ms / 1000;
  refresh_token = refresh_token;
  scope = grant_scope_to_oauth_scope scope;
})

unfoldable pub scope_of : OAuthConnection → GrantScope
scope_of c = record { access = c.approved_scope; shell = c.allow_shell; web = c.allow_web }

unfoldable pub is_incomplete : ExchangeCodeInput → Bool
is_incomplete i =
    is_blank i.code
    || is_blank i.code_verifier
    || is_blank i.client_id
    || is_blank i.redirect_uri
    || is_blank i.resource

-- `activeRefreshToken` of a row that was found
unfoldable pub active_refresh_token : (now : ℕ) → OAuthToken → OAuthConnection → Bool
active_refresh_token now t c =
    is_refresh t.kind && is_active t.status && is_active c.status && ltb now t.expires_at

unfoldable pub is_malformed : RefreshTokenInput → Bool
is_malformed i =
    is_blank i.refresh_token
    || not (token_shape i.refresh_token)
    || is_blank i.client_id
    || is_blank i.resource

module _ (cr : Crypto) where
  unfoldable pub resource_tag : String → String
  unfolding take_text
  resource_tag resource = take_text resource_tag_length (cr.digest resource)

  unfoldable pub pkce_challenge : String → String
  pkce_challenge verifier = cr.digest verifier

  unfoldable pub token_matches_resource : String → String → Bool
  unfolding resource_tag
  token_matches_resource token resource =
      if not (token_shape token) || is_blank resource
      then false
      else ends_with (resource_tag resource) token

  unfoldable pub resource_bound_token : String → String → String
  unfolding resource_tag
  resource_bound_token random_token resource = String.◌++◌ random_token (resource_tag resource)

  unfoldable pub token_record :
      (raw connection_id : String) → TokenKind → (now lifetime : ℕ) → OAuthToken
  token_record raw connection_id kind now lifetime = record {
    token_hash = cr.hash raw;
    connection_id = connection_id;
    kind = kind;
    status = active;
    created_at = now;
    expires_at = now + lifetime;
    revoked_at = none;
    rotated_from = none;
  }

  -- `randomToken` takes the next random token.
  unfoldable pub random_token : Store → String × Store
  random_token s = (cr.random s.drawn, record s { drawn = s.drawn + 1 })

  unfoldable pub with_random : (String → Call) → Call
  unfolding random_token
  with_random k s = let (raw, s') = random_token s in k raw s'

  unfoldable pub create_authorization_code :
      (now : ℕ) → CreateAuthorizationCodeInput → Store → Outcome String × Store
  unfolding random_token
  create_authorization_code now i s =
      let (raw, s') = random_token s in
      finish raw (
        create_code
          (record {
            code_hash = cr.hash raw;
            connection_id = i.connection_id;
            client_id = i.client_id;
            redirect_uri = i.redirect_uri;
            code_challenge = i.code_challenge;
            resource = i.resource;
            created_at = now;
            expires_at = now + code_ms;
            consumed_at = none;
          })
          s')
    where
      finish : String → Outcome (Unit {0}) × Store → Outcome String × Store
      finish raw (failed, s) = (failed, s)
      finish raw (done _, s) = (done raw, s)

  unfoldable pub mint_token_pair :
      (connection_id : String) → GrantScope → (resource : String) (now : ℕ) → Call
  mint_token_pair connection_id scope resource now = with_random (λ first. with_random (λ second.
      let access_token = resource_bound_token first resource in
      let refresh_token = resource_bound_token second resource in
      ask (create_token (token_record access_token connection_id access now access_token_ms)) (λ _.
        ask (create_token (token_record refresh_token connection_id refresh now refresh_token_ms))
          (λ _. answer (success access_token refresh_token scope)))))

  -- What `exchangeCode` does with the row that it consumed.
  unfoldable pub exchange_row : (now : ℕ) → ExchangeCodeInput → OAuthCode → Call
  exchange_row now i c =
      if not (str_eq c.client_id i.client_id)
      then answer (failure invalid_client)
      else if not (str_eq c.redirect_uri i.redirect_uri)
          || not (str_eq c.resource i.resource)
          || not (str_eq (pkce_challenge i.code_verifier) c.code_challenge)
      then answer (failure invalid_grant)
      else ask (find_active_connection_by_id c.connection_id) (λ found.
        option found (answer (failure invalid_grant)) (λ n.
          if not (is_active n.status)
          then answer (failure invalid_grant)
          else if not (str_eq n.client_id i.client_id)
          then answer (failure invalid_client)
          else mint_token_pair n.connection_id (scope_of n) i.resource now))

  unfoldable pub exchange_code : (now db_now : ℕ) → ExchangeCodeInput → Call
  exchange_code now db_now i =
      if is_incomplete i
      then answer (failure invalid_request)
      else ask (consume_code (cr.hash i.code) now db_now)
          (λ found. option found (answer (failure invalid_grant)) (λ c. exchange_row now i c))

  -- The end of `refresh`: the new access token.
  unfoldable pub mint_access :
      (now : ℕ) → RefreshTokenInput → OAuthToken → OAuthConnection → (refresh_token : String) → Call
  mint_access now i t c refresh_token = with_random (λ second.
      let access_token = resource_bound_token second i.resource in
      ask (create_token (token_record access_token t.connection_id access now access_token_ms))
        (λ _. answer (success access_token refresh_token (scope_of c))))

  -- What `refresh` does with the token and the connection that it found.
  unfoldable pub refresh_row :
      (now db_now : ℕ) → RefreshTokenInput → OAuthToken → OAuthConnection → Call
  refresh_row now db_now i t c =
      if not (active_refresh_token now t c)
      then answer (failure invalid_grant)
      else if not (str_eq c.client_id i.client_id)
      then answer (failure invalid_client)
      else with_random (λ first.
        let refresh_token = resource_bound_token first i.resource in
        ask
          (rotate_refresh_token (cr.hash i.refresh_token) (cr.hash refresh_token) now
            (now + refresh_token_ms) db_now)
          (λ rotated.
            option rotated (answer (failure invalid_grant))
              (λ _. mint_access now i t c refresh_token)))

  unfoldable pub refresh_tokens : (now db_now : ℕ) → RefreshTokenInput → Call
  refresh_tokens now db_now i =
      if is_malformed i
      then answer (failure invalid_request)
      else if not (token_matches_resource i.refresh_token i.resource)
      then answer (failure invalid_grant)
      else ask (find_active_token_with_connection (cr.hash i.refresh_token) db_now) (λ found.
        option found (answer (failure invalid_grant)) (λ row. refresh_row now db_now i row.0 row.1))
