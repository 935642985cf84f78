-- ===== src/Release/Resolver.antt =====
-- The resolver itself. DownloadService, which reads the objects and signs the URLs, is outside: each
-- call of it is a function on a state of its own. A throw is a value of `Thrown`.
use kazibee_home.Prelude.{
  ℕ, zero, suc, String, str_eq, if◌then◌else◌, Bool, true, false, not, ◌&&◌, Option, none, some,
  List, [], ◌∷◌, any, ltb, leb,
}
use kazibee_home.Release.Version.{
  ParsedVersion, parse_version, compare_parsed, is_less, range_satisfied,
}
use kazibee_home.Release.Index.{
  ResolverIndexRelease, RevocationEntry, ResolveRequest, Codec, parse_resolver_index,
  parse_revocations, revocation_matches,
}

-- NotFoundError, ValidationError, and any other error.
pub data Thrown : Type 0 where
  not_found validation other : Thrown

pub data Answer (A : Type 0) : Type 0 where
  got : A → Answer A
  threw : Thrown → Answer A

pub record Candidate : Type 0 where
  pub release_id : String
  pub version : String
  pub size : ℕ
  pub sha256 : String
  pub url : String

abbrev pub dependency_max_attempts : ℕ
dependency_max_attempts = 2

-- `readItemText` of the index, `readPolicyText`, and `createDownload` of a version and an artifact
-- with its lifetime in seconds.
pub record Downloads (W : Type 0) : Type 0 where
  pub read_index : W → Answer String × W
  pub read_policy : W → Answer String × W
  pub create_download : String → String → ℕ → W → Answer String × W

-- `readExpiresIn`, of the integer that `Number.parseInt` gives, where it gives one.
unfoldable pub read_expires_in : Option ℕ → ℕ
read_expires_in none = 300
read_expires_in (some parsed) = if ltb 0 parsed && leb parsed 3600 then parsed else 300

abbrev is_semantic : Thrown → Bool
is_semantic not_found = true
is_semantic validation = true
is_semantic other = false

pub record Sortable : Type 0 where
  pub release : ResolverIndexRelease
  pub parsed : ParsedVersion

-- The stable sort by `compareParsed(b.parsed, a.parsed)`: the highest version first.
unfoldable pub place : Sortable → List Sortable → List Sortable
place c [] = c ∷ []
place c (d ∷ ds) =
    let rest = place c ds in
    if is_less (compare_parsed c.parsed d.parsed) then d ∷ rest else c ∷ d ∷ ds

unfoldable pub sort : List Sortable → List Sortable
unfolding place
sort [] = []
sort (c ∷ cs) = place c (sort cs)

unfoldable pub eligible : ResolveRequest → List RevocationEntry → ResolverIndexRelease → Bool
eligible q revocations r =
    str_eq r.platform q.platform
    && str_eq r.architecture q.architecture
    && range_satisfied q.range r.version
    && not (any (λ e. revocation_matches e r) revocations)

-- The releases that match, with their versions parsed.
unfoldable pub matching :
    ResolveRequest → List RevocationEntry → List ResolverIndexRelease → List Sortable
matching q revocations [] = []
matching q revocations (r ∷ rs) =
    let rest = matching q revocations rs in
    elim (parse_version r.version) [
      | none ↦ rest
      | some v ↦
          if eligible q revocations r then record { release = r; parsed = v } ∷ rest else rest
    ]

-- A parsed object, or NotFoundError where it does not parse.
abbrev or_not_found : {A : Type 0} → Option A → Answer A
or_not_found none = threw not_found
or_not_found (some a) = got a

module _ {W : Type 0} where
  -- What follows a call: one way for its result, one for an error that is never retried, and one for
  -- any other error.
  unfoldable pub retry :
      {A B : Type 0}
      → Answer A × W
      → (A → W → Answer B × W)
      → (Thrown → W → Answer B × W)
      → (Thrown → W → Answer B × W)
      → Answer B × W
  retry (got a, w) finish semantic again = finish a w
  retry (threw t, w) finish semantic again = if is_semantic t then semantic t w else again t w

  -- `dependencyCall` with so many attempts left, after an attempt that failed with `last`.
  unfoldable pub attempts : {A : Type 0} → ℕ → Thrown → (W → Answer A × W) → W → Answer A × W
  attempts zero last call w = (threw last, w)
  attempts (suc n) last call w =
      retry (call w) (λ a w'. (got a, w')) (λ t w'. (threw t, w')) (λ t w'. attempts n t call w')

  unfoldable pub dependency_call : {A : Type 0} → (W → Answer A × W) → W → Answer A × W
  dependency_call = attempts dependency_max_attempts other

  unfoldable pub then_use : {A B : Type 0} → Answer A × W → (A → W → Answer B × W) → Answer B × W
  then_use (got a, w) k = k a w
  then_use (threw t, w) k = (threw t, w)

unfoldable pub candidate_of : ResolverIndexRelease → String → Candidate
candidate_of r url = record {
  release_id = r.release_id;
  version = r.version;
  size = r.size;
  sha256 = r.sha256;
  url = url;
}

module _ {W : Type 0} (codec : Codec) (downloads : Downloads W) (expires_in : ℕ) where
  unfoldable pub read_index : W → Answer (List ResolverIndexRelease) × W
  read_index w =
      then_use (dependency_call downloads.read_index w)
        (λ text w'. (or_not_found (parse_resolver_index codec text), w'))

  unfoldable pub read_revocations : W → Answer (List RevocationEntry) × W
  read_revocations w =
      then_use (dependency_call downloads.read_policy w)
        (λ text w'. (or_not_found (parse_revocations codec text), w'))

  -- The loop over the candidates: one that is not published is skipped.
  unfoldable pub first_published : List Sortable → W → Answer Candidate × W
  first_published [] w = (threw not_found, w)
  first_published (c ∷ cs) w =
      retry
        (dependency_call (downloads.create_download c.release.version c.release.artifact expires_in)
          w)
        (λ url w'. (got (candidate_of c.release url), w')) (λ t w'. first_published cs w')
        (λ t w'. (threw t, w'))

  unfoldable pub resolve : ResolveRequest → W → Answer Candidate × W
  resolve q w = then_use (read_index w) (λ releases w'.
      then_use (read_revocations w')
        (λ revocations w''. first_published (sort (matching q revocations releases)) w''))
