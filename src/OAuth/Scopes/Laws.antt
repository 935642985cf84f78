-- ===== src/OAuth/Scopes/Laws.antt =====
-- Scope strings and grants: parsing, printing and comparison agree.
use kazibee_home.Prelude.{◌≡◌, refl, Bool, true, false, some, arith, all}
use kazibee_home.OAuth.Scopes.{
  Access, read, read_write, GrantScope, includes, grant_words, parse_oauth_grant_scope,
  grant_scope_to_oauth_scope, grant_scope_allows,
}

parse-print_cases :
    (a : Access) (s w : Bool)
    → let g : GrantScope = record { access = a; shell = s; web = w } in
      parse_oauth_grant_scope (grant_scope_to_oauth_scope g) ≡ some g
unfolding parse_oauth_grant_scope grant_scope_to_oauth_scope
parse-print_cases read false false = refl
parse-print_cases read false true = refl
parse-print_cases read true false = refl
parse-print_cases read true true = refl
parse-print_cases read_write false false = refl
parse-print_cases read_write false true = refl
parse-print_cases read_write true false = refl
parse-print_cases read_write true true = refl

-- Printing a grant and parsing the text gives the grant back.
pub parse-grant_scope_to_oauth_scope :
    (g : GrantScope) → parse_oauth_grant_scope (grant_scope_to_oauth_scope g) ≡ some g
parse-grant_scope_to_oauth_scope g = parse-print_cases g.access g.shell g.web

-- One grant allows another exactly when every scope word of the second is among the words of the
-- first.
pub grant_scope_allows_lem :
    (a d : GrantScope) → grant_scope_allows a d ≡ all (includes (grant_words a)) (grant_words d)
unfolding grant_scope_allows grant_words includes
grant_scope_allows_lem a d = ground arith
