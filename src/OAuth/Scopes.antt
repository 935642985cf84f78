-- ===== src/OAuth/Scopes.antt =====
-- src/server/services/oauth_scopes.ts.
pub mod Laws
use Prim.Native.Char.{Char, code}
use Prim.Native.String
use kazibee_home.Prelude.{
  ℕ, String, str_eq, Bool, true, false, not, ◌&&◌, ◌||◌, Option, none, some, List, [], ◌∷◌, ◌++◌,
  ◌==◌, leb, if◌then◌else◌, any, all, keep,
}

-- The white space of `trim` and of `\s`.
is_space : ℕ → Bool
is_space c =
    (leb 9 c && leb c 13)
    || c == 32
    || c == 0xa0
    || c == 0x1680
    || (leb 0x2000 c && leb c 0x200a)
    || c == 0x2028
    || c == 0x2029
    || c == 0x202f
    || c == 0x205f
    || c == 0x3000
    || c == 0xfeff

abbrev push : String → Char → String
push s c = String.◌++◌ s (String.◌∷◌ c String.[])

-- Cuts a text at every white space character.
cut_spaces : String → String → List String
unfolding is_space
cut_spaces cur String.[] = cur ∷ []
cut_spaces cur (String.◌∷◌ c s) =
    let closed = cur ∷ cut_spaces "" s in
    let longer = cut_spaces (push cur c) s in if is_space (code c) then closed else longer

-- `scope.trim().split(/\s+/).filter(Boolean)`: trimming, and taking a run of white space at once,
-- spare only empty pieces, which the filter removes.
words : String → List String
unfolding cut_spaces
words scope = keep (λ w. not (str_eq w "")) (cut_spaces "" scope)

pub data Access : Type 0 where
  read read_write : Access

pub record GrantScope : Type 0 where
  pub access : Access
  pub shell : Bool
  pub web : Bool

abbrev pub read_scope : String
read_scope = "kazibee:read"

abbrev pub write_scope : String
write_scope = "kazibee:write"

abbrev pub shell_scope : String
shell_scope = "kazibee:shell"

abbrev pub web_scope : String
web_scope = "kazibee:web"

unfoldable pub includes : List String → String → Bool
includes xs w = any (λ x. str_eq x w) xs

-- `new Set(values).size === values.length`
all_distinct : List String → Bool
unfolding includes
all_distinct [] = true
all_distinct (w ∷ ws) = not (includes ws w) && all_distinct ws

abbrev is_empty : List String → Bool
is_empty [] = true
is_empty (_ ∷ _) = false

abbrev known : List String
known = read_scope ∷ write_scope ∷ shell_scope ∷ web_scope ∷ []

-- The checks of `parseOAuthGrantScope` on the list of words.
grant_of_words : List String → Option GrantScope
unfolding all_distinct includes
grant_of_words ws =
    if not (all_distinct ws) || is_empty ws
    then none
    else if not (all (includes known) ws)
    then none
    else if not (includes ws read_scope)
    then none
    else some (record {
      access = if includes ws write_scope then read_write else read;
      shell = includes ws shell_scope;
      web = includes ws web_scope;
    })

unfoldable pub parse_oauth_grant_scope : String → Option GrantScope
unfolding words grant_of_words
parse_oauth_grant_scope scope = grant_of_words (words scope)

-- `parts` of `grantScopeToOAuthScope`
unfoldable pub grant_words : GrantScope → List String
grant_words g = read_scope ∷ (write ++ (shell ++ web))
  where
    write : List String
    write = elim g.access [ read ↦ [] | read_write ↦ write_scope ∷ [] ]

    shell : List String
    shell = if g.shell then shell_scope ∷ [] else []

    web : List String
    web = if g.web then web_scope ∷ [] else []

-- `parts.join(" ")`
join_space : List String → String
join_space [] = ""
join_space (w ∷ []) = w
join_space (w ∷ v ∷ ws) = String.◌++◌ w (String.◌++◌ " " (join_space (v ∷ ws)))

unfoldable pub grant_scope_to_oauth_scope : GrantScope → String
unfolding grant_words join_space
grant_scope_to_oauth_scope g = join_space (grant_words g)

abbrev is_write : Access → Bool
is_write read = false
is_write read_write = true

unfoldable pub grant_scope_allows : GrantScope → GrantScope → Bool
grant_scope_allows available desired =
    (is_write available.access || not (is_write desired.access))
    && (available.shell || not desired.shell)
    && (available.web || not desired.web)

unfoldable pub oauth_scope_to_connection_scope : String → Option Access
unfolding parse_oauth_grant_scope
oauth_scope_to_connection_scope scope = elim (parse_oauth_grant_scope scope) [
  | none ↦ none
  | some g ↦ if not g.shell && not g.web then some g.access else none
]

unfoldable pub connection_scope_to_oauth_scope : Access → String
connection_scope_to_oauth_scope read = read_scope
connection_scope_to_oauth_scope read_write = "kazibee:read kazibee:write"

-- `families` absent is `none`; else (allow_shell, allow_web).
unfoldable pub connection_scope_to_tool_scopes : Access → Option (Bool × Bool) → List String
connection_scope_to_tool_scopes scope families = base ++ (shell families ++ web families)
  where
    base : List String
    base = elim scope [
      | read_write ↦ "workspace.read" ∷ "workspace.write" ∷ []
      | read ↦ "workspace.read" ∷ []
    ]

    shell : Option (Bool × Bool) → List String
    shell none = []
    shell (some (allow_shell, allow_web)) = if allow_shell then "shell.execute" ∷ [] else []

    web : Option (Bool × Bool) → List String
    web none = []
    web (some (allow_shell, allow_web)) =
        if allow_web then "web.read" ∷ "browser.fetch" ∷ [] else []
