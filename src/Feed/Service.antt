-- ===== src/Feed/Service.antt =====
-- The feeds of src/server/services/update_feed_service.ts. DownloadService is a parameter: each call of
-- it is a function on a state of its own.
use Prim.Native.String
use kazibee_home.Prelude.{
  ℕ, String, ltb, str_eq, if◌then◌else◌, Bool, true, false, not, ◌&&◌, ◌||◌, Option, none, some,
  List, [], ◌∷◌, any,
}
use kazibee_home.Feed.Version.{
  UpdateChannel, is_version_on_channel, Sign, is_positive, compare_release_versions_desc,
}

pub record DownloadItem : Type 0 where
  pub name : String
  pub last_modified : Option String

pub record VersionDownloads : Type 0 where
  pub version : String
  pub downloads : List DownloadItem

pub data UpdateArch : Type 0 where
  arm64 x64 : UpdateArch

-- `raised` is an error of DownloadService.
pub data Answer (A : Type 0) : Type 0 where
  got : A → Answer A
  not_found validation raised : Answer A

-- `listVersions("app")`, `createDownload("app", version, name, { expiresIn })` with the url of its
-- result, and `readItemText("app", version, name)`.
pub record Downloads (W : Type 0) : Type 0 where
  pub list_versions : W → Answer (List VersionDownloads) × W
  pub create_download : (version name : String) → (expires_in : ℕ) → W → Answer String × W
  pub read_item_text : (version name : String) → W → Answer String × W

pub record UpdateFeed : Type 0 where
  pub version : String
  pub name : String
  pub url : String
  pub pub_date : String

-- `readExpiresIn`, of the integer that `Number.parseInt` gives, where it gives one.
unfoldable pub read_expires_in : Option ℕ → ℕ
read_expires_in none = 3600
read_expires_in (some parsed) = if ltb 0 parsed then parsed else 3600

unfoldable pub find {ℓ} : {A : Type ℓ} → (A → Bool) → List A → Option A
find test [] = none
find test (a ∷ rest) = if test a then some a else find test rest

unfoldable pub filter {ℓ} : {A : Type ℓ} → (A → Bool) → List A → List A
filter test [] = []
filter test (a ∷ rest) = let kept = filter test rest in if test a then a ∷ kept else kept

starts_with : String → String → Bool
starts_with String.[] s = true
starts_with (String.◌∷◌ c p) String.[] = false
starts_with (String.◌∷◌ c p) (String.◌∷◌ d s) =
    str_eq (String.◌∷◌ c String.[]) (String.◌∷◌ d String.[]) && starts_with p s

-- `includes` and `endsWith`
includes : String → String → Bool
unfolding starts_with
includes p String.[] = str_eq p ""
includes p (String.◌∷◌ c s) = starts_with p (String.◌∷◌ c s) || includes p s

ends_with : String → String → Bool
ends_with p String.[] = str_eq p ""
ends_with p (String.◌∷◌ c s) = str_eq p (String.◌∷◌ c s) || ends_with p s

abbrev arch_tokens : UpdateArch → List String
arch_tokens x64 = "x64" ∷ "amd64" ∷ []
arch_tokens arm64 = "arm64" ∷ []

-- `replace(/^v/, "")`
abbrev drop_v : String → String
drop_v String.[] = String.[]
drop_v (String.◌∷◌ c s) = if str_eq (String.◌∷◌ c String.[]) "v" then s else String.◌∷◌ c s

abbrev pub eligible : UpdateChannel → VersionDownloads → Bool
eligible channel r = not (str_eq r.version "latest") && is_version_on_channel r.version channel

abbrev pub first {ℓ} : {A : Type ℓ} → List A → Option A
first [] = none
first (a ∷ rest) = some a

-- `collate` is the sign of localeCompare.
module _ (collate : String → String → Sign) where
  -- The stable sort by compareReleaseVersionsDesc.
  unfoldable pub place : VersionDownloads → List VersionDownloads → List VersionDownloads
  place r [] = r ∷ []
  place r (s ∷ rs) =
      let rest = place r rs in
      if is_positive (compare_release_versions_desc collate r.version s.version)
      then s ∷ rest
      else r ∷ s ∷ rs

  unfoldable pub sort : List VersionDownloads → List VersionDownloads
  unfolding place
  sort [] = []
  sort (r ∷ rs) = place r (sort rs)

  -- `newestRelease`, of the listing
  unfoldable pub newest_release : UpdateChannel → List VersionDownloads → Option VersionDownloads
  unfolding filter sort
  newest_release channel versions = first (sort (filter (eligible channel) versions))

-- `lower` is toLowerCase.
unfoldable pub find_mac_archive :
    (lower : String → String) → List DownloadItem → UpdateArch → Option DownloadItem
unfolding find includes ends_with
find_mac_archive lower downloads arch =
    find
      (λ d.
        ends_with ".zip" (lower d.name)
        && (includes "mac" (lower d.name) || includes "darwin" (lower d.name))
        && any (λ token. includes token (lower d.name)) (arch_tokens arch))
      downloads

module _ {W : Type 0} where
  unfoldable pub with_answer : {A B : Type 0} → Answer A × W → (A → W → Answer B × W) → Answer B × W
  with_answer (got a, w) k = k a w
  with_answer (not_found, w) k = (not_found, w)
  with_answer (validation, w) k = (validation, w)
  with_answer (raised, w) k = (raised, w)

  unfoldable pub with_option : {A B : Type 0} → Option A → (A → W → Answer B × W) → W → Answer B × W
  with_option none k w = (not_found, w)
  with_option (some a) k w = k a w

module _ (collate : String → String → Sign) (lower : String → String) {W : Type 0}
    (service : Downloads W) (expires_in : ℕ) where
  -- `createFeed`; `now` is the date of the call as text.
  unfoldable pub create_feed :
      UpdateArch → UpdateChannel → (now : String) → W → Answer UpdateFeed × W
  unfolding with_answer with_option newest_release find_mac_archive
  create_feed arch channel now w = with_answer (service.list_versions w) (λ versions.
      with_option (newest_release collate channel versions) (λ release.
        with_option (find_mac_archive lower release.downloads arch) (λ archive w'.
          with_answer (service.create_download release.version archive.name expires_in w')
            (λ url w''. (got (feed release archive url), w'')))))
    where
      date : Option String → String
      date none = now
      date (some d) = d

      feed : VersionDownloads → DownloadItem → String → UpdateFeed
      feed release archive url = record {
        version = drop_v release.version;
        name = String.◌++◌ "Kazibee " (drop_v release.version);
        url = url;
        pub_date = date archive.last_modified;
      }

  -- `createWindowsReleases`
  unfoldable pub create_windows_releases : UpdateChannel → W → Answer String × W
  unfolding with_answer with_option newest_release
  create_windows_releases channel w = with_answer (service.list_versions w) (λ versions.
      with_option (newest_release collate channel versions) (λ release w'.
        if not (any (λ d. str_eq d.name "RELEASES") release.downloads)
        then (not_found, w')
        else service.read_item_text release.version "RELEASES" w'))

  -- `createWindowsPackageDownload`
  unfoldable pub create_windows_package_download : (file : String) → W → Answer String × W
  unfolding with_answer with_option find ends_with
  create_windows_package_download file w =
      if not (ends_with ".nupkg" (lower file))
      then (validation, w)
      else with_answer (service.list_versions w) (λ versions.
        with_option
          (find (λ r. not (str_eq r.version "latest") && any (λ d. str_eq d.name file) r.downloads)
            versions)
          (λ release w'. service.create_download release.version file expires_in w'))

-- `normalizeUpdateArch`
unfoldable pub normalize_update_arch : Option String → Option UpdateArch
normalize_update_arch none = none
normalize_update_arch (some value) =
    if str_eq value "arm64" || str_eq value "aarch64"
    then some arm64
    else if str_eq value "x64" || str_eq value "amd64" || str_eq value "x86_64"
    then some x64
    else none
