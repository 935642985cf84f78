-- ===== src/Release/Index.antt =====
-- The index and the revocation policy of connect_service_release_resolver.ts, and the request.
use Prim.Native.Char.{code}
use kazibee_home.Prelude.{
  ℕ, String, suc, len, ◌*◌, ◌==◌, ltb, leb, str_eq, if◌then◌else◌, Bool, true, false, not, ◌&&◌,
  ◌||◌, Option, none, some, List, [], ◌∷◌, is_some,
}
use kazibee_home.Json.{
  Json, undefined, num, str, arr, obj, Items, nil, cons, Fields, end, field, prop, is_object,
  string?,
}
use kazibee_home.Release.Version.{parse_version, parse_range}

abbrev pub max_resolve_body_bytes : ℕ
max_resolve_body_bytes = 4 * 1024

abbrev pub max_range_length : ℕ
max_range_length = 32

abbrev pub max_index_bytes : ℕ
max_index_bytes = 1024 * 1024

abbrev pub max_policy_bytes : ℕ
max_policy_bytes = 256 * 1024

abbrev pub max_index_releases : ℕ
max_index_releases = 500

pub record ResolverIndexRelease : Type 0 where
  pub release_id : String
  pub version : String
  pub platform : String
  pub architecture : String
  pub artifact : String
  pub size : ℕ
  pub sha256 : String

pub record RevocationEntry : Type 0 where
  pub release_id : Option String
  pub version : Option String
  pub platform : Option String
  pub architecture : Option String

pub record ResolveRequest : Type 0 where
  pub range : String
  pub platform : String
  pub architecture : String

-- `Buffer.byteLength`, `JSON.parse` (`none` where it throws), and the bytes of `JSON.stringify`
-- (`none` where that throws or is undefined).
pub record Codec : Type 0 where
  pub byte_length : String → ℕ
  pub parse : String → Option Json
  pub encoded_bytes : Json → Option ℕ

between : ℕ → ℕ → ℕ → Bool
between low high c = leb low c && leb c high

is_alnum : ℕ → Bool
unfolding between
is_alnum c = between 48 57 c || between 65 90 c || between 97 122 c

-- Every character of a text passes.
every_char : (ℕ → Bool) → String → Bool
every_char p String.[] = true
every_char p (String.◌∷◌ c s) = p (code c) && every_char p s

-- RELEASE_ID_PATTERN, `/^rel_[A-Za-z0-9]{8,64}$/`
unfoldable pub release_id_pattern : String → Bool
unfolding every_char is_alnum between
release_id_pattern (String.◌∷◌ r (String.◌∷◌ e (String.◌∷◌ l (String.◌∷◌ u s)))) =
    code r == 114
    && code e == 101
    && code l == 108
    && code u == 95
    && between 8 64 (len s)
    && every_char is_alnum s
release_id_pattern s = false

-- SHA256_PATTERN, `/^[a-f0-9]{64}$/`
unfoldable pub sha256_pattern : String → Bool
unfolding every_char between
sha256_pattern s = len s == 64 && every_char (λ c. between 48 57 c || between 97 102 c) s

-- ARTIFACT_PATTERN, `/^[A-Za-z0-9][A-Za-z0-9._-]{0,199}$/`
unfoldable pub artifact_pattern : String → Bool
unfolding every_char is_alnum between
artifact_pattern String.[] = false
artifact_pattern (String.◌∷◌ c s) =
    is_alnum (code c)
    && leb (len s) 199
    && every_char (λ d. is_alnum d || d == 46 || d == 95 || d == 45) s

abbrev version_pattern : String → Bool
version_pattern s = is_some (parse_version s)

-- The number of a JSON value that is a positive safe integer.
abbrev size_of : Json → Option ℕ
size_of (num n) = if ltb 0 n && leb n 9007199254740991 then some n else none
size_of v = none

-- The text of a value, where it is one and passes.
abbrev text_that : (String → Bool) → Json → Option String
text_that p (str s) = if p s then some s else none
text_that p v = none

build :
    Option String
    → Option String
    → Option String
    → Option String
    → Option String
    → Option ℕ
    → Option String
    → Option ResolverIndexRelease
build (some i) (some v) (some p) (some a) (some f) (some n) (some h) = some (record {
  release_id = i;
  version = v;
  platform = p;
  architecture = a;
  artifact = f;
  size = n;
  sha256 = h;
})
build _ _ _ _ _ _ _ = none

-- `indexRelease`; `prop` of a value that is no object is never read.
unfoldable pub index_release : Json → Option ResolverIndexRelease
unfolding build
index_release entry =
    if not (is_object entry)
    then none
    else build (text_that release_id_pattern (prop "releaseId" entry))
        (text_that version_pattern (prop "version" entry)) (string? (prop "platform" entry))
        (string? (prop "architecture" entry)) (text_that artifact_pattern (prop "artifact" entry))
        (size_of (prop "size" entry)) (text_that sha256_pattern (prop "sha256" entry))

-- The loop over `parsed.releases`: an entry that fails is left out.
unfoldable pub index_releases : Items → List ResolverIndexRelease
index_releases nil = []
index_releases (cons v vs) = elim (index_release v) [
  | none ↦ index_releases vs
  | some r ↦ r ∷ index_releases vs
]

unfoldable pub count : Items → ℕ
count nil = 0
count (cons v vs) = suc (count vs)

abbrev is_one : Json → Bool
is_one (num n) = n == 1
is_one v = false

abbrev pub items? : Json → Option Items
items? (arr vs) = some vs
items? v = none

-- `raw.k`: absent, a text that passes, or a malformed field.
pub data FieldRead : Type 0 where
  absent malformed : FieldRead
  present : String → FieldRead

abbrev read_field : (String → Bool) → Json → FieldRead
read_field p undefined = absent
read_field p (str s) = if p s then present s else malformed
read_field p v = malformed

abbrev any_text : String → Bool
any_text s = true

abbrev is_malformed : FieldRead → Bool
is_malformed malformed = true
is_malformed _ = false

abbrev field_text : FieldRead → Option String
field_text (present s) = some s
field_text _ = none

-- One entry of the policy: all its fields pass, and it names a release or a version.
unfoldable pub revocation_entry : Json → Option RevocationEntry
revocation_entry raw =
    let release_id = read_field release_id_pattern (prop "releaseId" raw) in
    let version = read_field version_pattern (prop "version" raw) in
    let platform = read_field any_text (prop "platform" raw) in
    let architecture = read_field any_text (prop "architecture" raw) in
    if not (is_object raw)
      || is_malformed release_id
      || is_malformed version
      || is_malformed platform
      || is_malformed architecture
      || (not (is_some (field_text release_id)) && not (is_some (field_text version)))
    then none
    else some (record {
      release_id = field_text release_id;
      version = field_text version;
      platform = field_text platform;
      architecture = field_text architecture;
    })

unfoldable pub join :
    Option RevocationEntry → Option (List RevocationEntry) → Option (List RevocationEntry)
join (some e) (some es) = some (e ∷ es)
join _ _ = none

-- The loop over `parsed.revoked`: an entry that fails ends it.
unfoldable pub revocation_entries : Items → Option (List RevocationEntry)
unfolding join
revocation_entries nil = some []
revocation_entries (cons v vs) = join (revocation_entry v) (revocation_entries vs)

unfoldable pub revocation_matches : RevocationEntry → ResolverIndexRelease → Bool
revocation_matches e r = elim e.release_id [
  | some i ↦ str_eq i r.release_id
  | none ↦
      is e.version r.version && free e.platform r.platform && free e.architecture r.architecture
]
  where
    is : Option String → String → Bool
    is none t = false
    is (some s) t = str_eq s t

    free : Option String → String → Bool
    free none t = true
    free (some s) t = str_eq s t

unfoldable pub key_count : Json → ℕ
key_count (obj fs) = size fs
  where
    size : Fields → ℕ
    size end = 0
    size (field k v fs) = suc (size fs)
key_count v = 0

module _ (codec : Codec) where
  unfoldable pub parse_resolver_index : String → Option (List ResolverIndexRelease)
  parse_resolver_index text =
      if ltb max_index_bytes (codec.byte_length text) then none else elim (codec.parse text) [
        | none ↦ none
        | some parsed ↦
            if not (is_object parsed) || not (is_one (prop "schemaVersion" parsed))
            then none
            else elim (items? (prop "releases" parsed)) [
              | none ↦ none
              | some vs ↦
                  if ltb max_index_releases (count vs) then none else some (index_releases vs)
            ]
      ]

  unfoldable pub parse_revocations : String → Option (List RevocationEntry)
  parse_revocations text =
      if ltb max_policy_bytes (codec.byte_length text) then none else elim (codec.parse text) [
        | none ↦ none
        | some parsed ↦
            if not (is_object parsed) || not (is_one (prop "schemaVersion" parsed))
            then none
            else elim (items? (prop "revoked" parsed)) [
              | none ↦ none
              | some vs ↦ revocation_entries vs
            ]
      ]

  unfoldable pub parse_resolve_request : Json → Option ResolveRequest
  parse_resolve_request body = elim (codec.encoded_bytes body) [
    | none ↦ none
    | some bytes ↦
        if ltb max_resolve_body_bytes bytes || not (is_object body) || not (key_count body == 3)
        then none
        else request
            (text_that (λ s. leb (len s) max_range_length && is_some (parse_range s))
              (prop "range" body))
            (text_that (λ s. str_eq s "darwin") (prop "platform" body))
            (text_that (λ s. str_eq s "arm64" || str_eq s "x64") (prop "architecture" body))
  ]
    where
      request : Option String → Option String → Option String → Option ResolveRequest
      request (some r) (some p) (some a) =
          some (record { range = r; platform = p; architecture = a })
      request _ _ _ = none
