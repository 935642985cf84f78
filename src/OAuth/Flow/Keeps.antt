-- ===== src/OAuth/Flow/Keeps.antt =====
-- What every statement, and with it every service call, leaves alone: a predicate on the store that
-- each statement keeps is kept by the token endpoints.
use kazibee_home.Prelude.{
  ℕ, String, Bool, true, false, Option, none, some, List, [], ◌∷◌, if◌then◌else◌, Bool-cases, inl,
  inr,
}
use kazibee_home.OAuth.Scopes.{GrantScope}
use kazibee_home.OAuth.Store.{
  Store, Outcome, failed, done, OAuthCode, OAuthConnection, OAuthToken, statement, next_failure,
  consume_code, find_active_connection_by_id, create_token, find_active_token_with_connection,
  rotate_refresh_token, Statement, consume_code_st, create_token_st, rotate_st, find_connection_st,
  find_token_st,
}
use kazibee_home.OAuth.Overlap.{execute, execute_all, interleave, next_others, later_others}
use kazibee_home.OAuth.Flow.{
  Crypto, Call, answer, resume, ask, option, with_random, OAuthTokenResult, ExchangeCodeInput,
  RefreshTokenInput, exchange_row, mint_access, mint_token_pair, random_token,
}

module _ (P : Store → Type 0) where
  pub record Keeps {R : Type 0} (m : Store → R × Store) : Type 0 where
    pub run : (s : Store) → P s → P (m s).1

module _ {P : Store → Type 0} where
  pub keep_statement :
      {A : Type 0} (f : Store → Outcome A × Store)
      → ((s : Store) (bs : List Bool) → P s → P (record s { failures = bs }))
      → ((s : Store) → P s → P (f s).1)
      → Keeps P (statement f)
  unfolding statement
  keep_statement f free k = record {
    run = λ s p. elim (Bool-cases (next_failure s.failures)) [
      | inl e ↦ rw (e, statement) (free s _ p)
      | inr e ↦ rw (e, statement) (k _ (free s _ p))
    ];
  }

  pub keep_answer : (r : OAuthTokenResult) → Keeps P (answer r)
  unfolding answer
  keep_answer r = record { run = λ s p. p }

  resume_keeps :
      {A : Type 0} (r : Outcome A × Store) (k : A → Call)
      → P r.1
      → ((a : A) → Keeps P (k a))
      → P (resume r k).1
  unfolding resume
  resume_keeps (failed, s) k p h = p
  resume_keeps (done a, s) k p h = (h a).run s p

  pub keep_option :
      {A : Type 0} (o : Option A) {absent : Call} {present : A → Call}
      → Keeps P absent
      → ((a : A) → Keeps P (present a))
      → Keeps P (option o absent present)
  unfolding option
  keep_option none ka kp = ka
  keep_option (some a) ka kp = kp a

  pub keep_if : (b : Bool) {m n : Call} → Keeps P m → Keeps P n → Keeps P (if b then m else n)
  keep_if true km kn = km
  keep_if false km kn = kn

  pub keep_all :
      ((x : Statement) (s : Store) → P s → P (execute x s))
      → (xs : List Statement) (s : Store) → P s
      → P (execute_all xs s)
  unfolding execute_all
  keep_all k [] s p = p
  keep_all k (x ∷ xs) s p = keep_all k xs (execute x s) (k x s p)

-- What other calls do before a statement keeps a predicate that every statement keeps.
module _ {P : Store → Type 0} (k : (x : Statement) (s : Store) → P s → P (execute x s))
    (free : (s : Store) (n : ℕ) (os : List (List Statement))
      → P s
      → P (record s { drawn = n; others = os })) where
  pub keep_interleave : (s : Store) → P s → P (interleave s)
  unfolding interleave
  keep_interleave s p =
      keep_all k (next_others s.others) _ (free s s.drawn (later_others s.others) p)

-- Predicates that every statement keeps, and drawing a random token too.
module _ {P : Store → Type 0} (cr : Crypto)
    (k : (x : Statement) (s : Store) → P s → P (execute x s))
    (free : (s : Store) (n : ℕ) (os : List (List Statement))
      → P s
      → P (record s { drawn = n; others = os })) where
  keep_ask :
      {A : Type 0} {m : Store → Outcome A × Store} {h : A → Call}
      → Keeps P m
      → ((a : A) → Keeps P (h a))
      → Keeps P (ask m h)
  unfolding ask
  keep_ask {m = m} {h = h} km kh = record {
    run = λ s p. resume_keeps (m (interleave s)) h (km.run _ (keep_interleave k free s p)) kh;
  }

  keep_random : {m : String → Call} → ((x : String) → Keeps P (m x)) → Keeps P (with_random cr m)
  unfolding with_random random_token
  keep_random km = record { run = λ s p. (km _).run _ (free s _ s.others p) }

  keep_consume : (h : String) (a d : ℕ) → Keeps P (consume_code h a d)
  unfolding execute
  keep_consume h a d = record { run = k (consume_code_st h a d) }

  keep_create : (t : OAuthToken) → Keeps P (create_token t)
  unfolding execute
  keep_create t = record { run = k (create_token_st t) }

  keep_rotate : (o h : String) (c e d : ℕ) → Keeps P (rotate_refresh_token o h c e d)
  unfolding execute
  keep_rotate o h c e d = record { run = k (rotate_st o h c e d) }

  keep_find_connection : (i : String) → Keeps P (find_active_connection_by_id i)
  unfolding execute
  keep_find_connection i = record { run = k (find_connection_st i) }

  keep_find_token : (h : String) (d : ℕ) → Keeps P (find_active_token_with_connection h d)
  unfolding execute
  keep_find_token h d = record { run = k (find_token_st h d) }

  ruleset call_rules = (
    keep_option, keep_if, keep_ask, keep_answer, keep_random, keep_consume, keep_create,
    keep_rotate, keep_find_connection, keep_find_token,
  )

  keep_mint :
      (id : String) (g : GrantScope) (resource : String) (now : ℕ)
      → Keeps P (mint_token_pair cr id g resource now)
  unfolding mint_token_pair
  keep_mint id g resource now = search call_rules depth 16

  pub keep_exchange_row :
      (now : ℕ) (i : ExchangeCodeInput) (c : OAuthCode) → Keeps P (exchange_row cr now i c)
  unfolding exchange_row
  keep_exchange_row now i c = search (call_rules, keep_mint) depth 16

  pub keep_mint_access :
      (now : ℕ) (i : RefreshTokenInput) (t : OAuthToken) (c : OAuthConnection) (token : String)
      → Keeps P (mint_access cr now i t c token)
  unfolding mint_access
  keep_mint_access now i t c token = search call_rules depth 16
