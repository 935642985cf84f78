-- ===== src/Release/Tests.antt =====
-- The resolver at work, and what the properties of connect_service_release_resolver.ts say of it.
use kazibee_home.Prelude.{
  ℕ, String, str_eq, if◌then◌else◌, true, not, ◌&&◌, none, some, List, [], ◌∷◌, ◌≡◌, refl,
}
use kazibee_home.Json.{Json, num, str, arr, obj, Items, nil, cons, end, field, prop}
use kazibee_home.Release.Version.{
  in_range, compare_parsed, is_less, parse_version, parse_range, range_satisfied,
}
use kazibee_home.Release.Carets.{upper, in_range-interval}
use kazibee_home.Release.Index.{
  Codec, ResolverIndexRelease, RevocationEntry, ResolveRequest, revocation_entries,
  artifact_pattern, count, index_release, index_releases, parse_resolver_index, parse_revocations,
  release_id_pattern, revocation_entry, revocation_matches, sha256_pattern,
}
use kazibee_home.Release.Resolver.{
  got, Downloads, Candidate, read_index, read_revocations, resolve, sort, matching, attempts,
  candidate_of, dependency_call, eligible, first_published, place, retry, then_use,
}
use kazibee_home.Release.Offer.{IsOffer, resolve_picks_the_highest}
use kazibee_home.Release.Policy.{AreRead, policy_keeps_every_entry}

abbrev hex : String
hex = "0123456789abcdef0123456789abcdef0123456789abcdef0123456789abcdef"

abbrev release_json : String → String → Json
release_json id version = obj (
    field "releaseId" (str id) (
      field "version" (str version) (
        field "platform" (str "darwin") (
          field "architecture" (str "arm64") (
            field "artifact" (str "service.tar.gz")
              (field "size" (num 10) (field "sha256" (str hex) end)))))))

abbrev index_json : Json
index_json = obj (
    field "schemaVersion" (num 1) (
      field "releases"
        (arr (
          cons (release_json "rel_aaaaaaaa" "1.2.3") (
            cons (release_json "rel_bbbbbbbb" "1.4.0") (
              cons (release_json "rel_cccccccc" "1.3.0")
                (cons (release_json "rel_dddddddd" "2.0.0") nil)))))
        end))

abbrev revoked_items : Items
revoked_items = cons (obj (field "releaseId" (str "rel_bbbbbbbb") end)) nil

abbrev policy_json : Json
policy_json = obj (field "schemaVersion" (num 1) (field "revoked" (arr revoked_items) end))

abbrev codec : Codec
codec = record {
  byte_length = λ s. 100;
  parse = λ s. if str_eq s "index" then some index_json else some policy_json;
  encoded_bytes = λ v. some 60;
}

abbrev downloads : Downloads ℕ
downloads = record {
  read_index = λ w. (got "index", w);
  read_policy = λ w. (got "policy", w);
  create_download = λ version artifact seconds w. (got "https://url", w);
}

abbrev a_request : ResolveRequest
a_request = record { range = "^1.2.0"; platform = "darwin"; architecture = "arm64" }

abbrev release : String → String → ResolverIndexRelease
release id version = record {
  release_id = id;
  version = version;
  platform = "darwin";
  architecture = "arm64";
  artifact = "service.tar.gz";
  size = 10;
  sha256 = hex;
}

abbrev releases : List ResolverIndexRelease
releases =
    release "rel_aaaaaaaa" "1.2.3"
    ∷ release "rel_bbbbbbbb" "1.4.0"
    ∷ release "rel_cccccccc" "1.3.0"
    ∷ release "rel_dddddddd" "2.0.0"
    ∷ []

abbrev revocations : List RevocationEntry
revocations =
    record {
      release_id = some "rel_bbbbbbbb";
      version = none;
      platform = none;
      architecture = none;
    }
    ∷ []

abbrev offered : Candidate
offered = record {
  release_id = "rel_cccccccc";
  version = "1.3.0";
  size = 10;
  sha256 = hex;
  url = "https://url";
}

index_is_read : (read_index codec downloads 300 0).0 ≡ got releases
unfolding read_index then_use dependency_call attempts retry parse_resolver_index prop count
    index_releases index_release release_id_pattern parse_version artifact_pattern sha256_pattern
index_is_read = refl

policy_is_read :
    (read_revocations codec downloads 300 (read_index codec downloads 300 0).1).0 ≡ got revocations
unfolding read_revocations then_use dependency_call attempts retry parse_revocations prop
    revocation_entries revocation_entry release_id_pattern
policy_is_read = refl

third_is_offered : (resolve codec downloads 300 a_request 0).0 ≡ got offered
unfolding resolve read_index read_revocations then_use dependency_call attempts retry
    parse_resolver_index prop count index_releases index_release release_id_pattern parse_version
    artifact_pattern sha256_pattern parse_revocations revocation_entries revocation_entry sort place
    matching eligible range_satisfied parse_range in_range compare_parsed revocation_matches
    candidate_of first_published
third_is_offered = refl

resolve_picks_the_highest_example :
    IsOffer codec downloads 300 a_request revocations releases offered
resolve_picks_the_highest_example =
    resolve_picks_the_highest codec downloads 300 a_request 0 releases revocations offered
      index_is_read policy_is_read third_is_offered

in_range-interval_example :
    in_range true
      (record { major = 0; minor = 2; patch = 3 })
      (record { major = 0; minor = 3; patch = 0 })
    ≡ (not (
          is_less (
            compare_parsed
              (record { major = 0; minor = 3; patch = 0 })
              (record { major = 0; minor = 2; patch = 3 })))
        && is_less (
            compare_parsed
              (record { major = 0; minor = 3; patch = 0 })
              (upper true (record { major = 0; minor = 2; patch = 3 }))))
in_range-interval_example =
    in_range-interval true (record { major = 0; minor = 2; patch = 3 })
      (record { major = 0; minor = 3; patch = 0 })

items_are_read : revocation_entries revoked_items ≡ some revocations
unfolding revocation_entries revocation_entry prop release_id_pattern
items_are_read = refl

policy_keeps_every_entry_example : AreRead revoked_items revocations
policy_keeps_every_entry_example = policy_keeps_every_entry revoked_items revocations items_are_read
