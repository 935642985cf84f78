-- ===== src/Json.antt =====
-- Values of type `unknown` that the server reads from request bodies and socket messages.
-- A JSON number is an integer from 0 (`num`) or any other number, kept as its text (`real`).
use kazibee_home.Prelude.{ℕ, String, str_eq, Bool, true, false, Option, none, some, if◌then◌else◌}

mutual
  pub data Json : Type 0 where
    undefined null : Json
    bool : Bool → Json
    num : ℕ → Json
    real : String → Json
    str : String → Json
    arr : Items → Json
    obj : Fields → Json

  pub data Items : Type 0 where
    nil : Items
    cons : Json → Items → Items

  pub data Fields : Type 0 where
    end : Fields
    field : String → Json → Fields → Fields

unfoldable pub lookup_field : String → Fields → Json
lookup_field k end = undefined
lookup_field k (field j v fs) = if str_eq j k then v else lookup_field k fs

-- `v.k` for a value that is neither null nor undefined (there the language throws a TypeError).
unfoldable pub prop : String → Json → Json
unfolding lookup_field
prop k (obj fs) = lookup_field k fs
prop k v = undefined

-- `v == null`
abbrev pub is_nullish : Json → Bool
is_nullish undefined = true
is_nullish null = true
is_nullish v = false

-- `typeof v === "string" ? v : null`
abbrev pub string? : Json → Option String
string? (str s) = some s
string? v = none

-- `v === s` for a text `s`
abbrev pub is_str : String → Json → Bool
is_str s (str t) = str_eq t s
is_str s v = false

-- `v ?? d`
abbrev pub or_else : Json → Json → Json
or_else undefined d = d
or_else null d = d
or_else v d = v

-- `typeof v === "object" && v !== null && !Array.isArray(v)`
abbrev pub is_object : Json → Bool
is_object (obj fs) = true
is_object v = false

-- `v && typeof v === "object"`
abbrev pub is_reference : Json → Bool
is_reference (obj fs) = true
is_reference (arr vs) = true
is_reference v = false
