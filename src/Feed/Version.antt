-- ===== src/Feed/Version.antt =====
-- The order of release versions: src/server/services/release_version.ts. Numbers are exact.
use Prim.Native.Char.{Char, code}
use kazibee_home.Prelude.{
  ℕ, String, ◌+◌, ◌-◌, ◌*◌, ◌==◌, ltb, leb, str_eq, if◌then◌else◌, Bool, true, false, not, ◌&&◌,
  ◌||◌, Option, none, some, is_some,
}

pub data UpdateChannel : Type 0 where
  stable beta : UpdateChannel

pub record ParsedReleaseVersion : Type 0 where
  pub major : ℕ
  pub minor : ℕ
  pub patch : ℕ
  pub prerelease : Option String

abbrev is_digit : Char → Bool
is_digit c = leb 48 (code c) && leb (code c) 57

-- `[A-Za-z0-9.-]`
abbrev is_tag_char : Char → Bool
is_tag_char c =
    is_digit c
    || (leb 65 (code c) && leb (code c) 90)
    || (leb 97 (code c) && leb (code c) 122)
    || code c == 46
    || code c == 45

-- The text before the first such character, and the text after it, where there is one.
cut_at : ℕ → String → String × Option String
cut_at n String.[] = (String.[], none)
cut_at n (String.◌∷◌ c s) =
    let rest = cut_at n s in
    if code c == n then (String.[], some s) else (String.◌∷◌ c rest.0, rest.1)

read_digits : ℕ → String → Option ℕ
unfolding cut_at
read_digits n String.[] = some n
read_digits n (String.◌∷◌ c s) =
    let rest = read_digits (n * 10 + (code c - 48)) s in if is_digit c then rest else none

-- `\d+`
read_number : String → Option ℕ
unfolding read_digits
read_number s = if str_eq s "" then none else read_digits 0 s

all_tag_chars : String → Bool
all_tag_chars String.[] = true
all_tag_chars (String.◌∷◌ c s) = is_tag_char c && all_tag_chars s

-- A part that may be missing, and is `[A-Za-z0-9.-]+` where it is there.
abbrev is_tag : Option String → Bool
is_tag none = true
is_tag (some s) = not (str_eq s "") && all_tag_chars s

parsed_core : Option ℕ → Option ℕ → Option ℕ → Option String → Option ParsedReleaseVersion
parsed_core (some a) (some b) (some c) tag =
    some (record { major = a; minor = b; patch = c; prerelease = tag })
parsed_core _ _ _ tag = none

-- Three numbers with dots between them.
parse_core : String → Option String → Option ParsedReleaseVersion
unfolding parsed_core read_number cut_at
parse_core s tag = minor_of (cut_at 46 s)
  where
    patch_of : String → String × Option String → Option ParsedReleaseVersion
    patch_of a (b, none) = none
    patch_of a (b, some c) = parsed_core (read_number a) (read_number b) (read_number c) tag

    minor_of : String × Option String → Option ParsedReleaseVersion
    minor_of (a, none) = none
    minor_of (a, some rest) = patch_of a (cut_at 46 rest)

abbrev drop_v : String → String
drop_v String.[] = String.[]
drop_v (String.◌∷◌ c s) = if code c == 118 then s else String.◌∷◌ c s

-- `parseReleaseVersion`, over RELEASE_VERSION_PATTERN: no part before the build holds a plus sign, and
-- no number a dash.
unfoldable pub parse_release_version : String → Option ParsedReleaseVersion
unfolding parse_core cut_at all_tag_chars
parse_release_version version = of_build (cut_at 43 (drop_v version))
  where
    of_tag : String × Option String → Option ParsedReleaseVersion
    of_tag (core, tag) = if is_tag tag then parse_core core tag else none

    of_build : String × Option String → Option ParsedReleaseVersion
    of_build (s, build) = if is_tag build then of_tag (cut_at 45 s) else none

abbrev pub has_prerelease : Option ParsedReleaseVersion → Bool
has_prerelease none = false
has_prerelease (some p) = is_some p.prerelease

unfoldable pub is_prerelease_version : String → Bool
is_prerelease_version version = has_prerelease (parse_release_version version)

abbrev pub is_beta : UpdateChannel → Bool
is_beta stable = false
is_beta beta = true

unfoldable pub is_version_on_channel : String → UpdateChannel → Bool
unfolding is_prerelease_version
is_version_on_channel version channel = is_beta channel || not (is_prerelease_version version)

-- The sign of what a comparator returns.
pub data Sign : Type 0 where
  negative zero positive : Sign

abbrev pub is_positive : Sign → Bool
is_positive positive = true
is_positive _ = false

-- The sign of `b - a`
abbrev pub sign_of_difference : (b a : ℕ) → Sign
sign_of_difference b a = if ltb b a then negative else if ltb a b then positive else zero

abbrev pub sign_or : Sign → Sign → Sign
sign_or zero t = t
sign_or s t = s

-- `collate a b` is the sign of `a.localeCompare(b, undefined, …)` with the options of the source.
module _ (collate : String → String → Sign) where
  -- The end of the comparison, of the two pre-release tags.
  abbrev pub compare_tags : Option String → Option String → Sign
  compare_tags none none = zero
  compare_tags none (some r) = negative
  compare_tags (some l) none = positive
  compare_tags (some l) (some r) = if str_eq l r then zero else collate r l

  abbrev pub compare_parsed : ParsedReleaseVersion → ParsedReleaseVersion → Sign
  compare_parsed l r = sign_or (sign_of_difference r.major l.major) (
      sign_or (sign_of_difference r.minor l.minor)
        (sign_or (sign_of_difference r.patch l.patch) (compare_tags l.prerelease r.prerelease)))

  -- A text that is no version comes after every version.
  abbrev pub compare_found :
      (a b : String) → Option ParsedReleaseVersion → Option ParsedReleaseVersion → Sign
  compare_found a b (some l) (some r) = compare_parsed l r
  compare_found a b (some l) none = negative
  compare_found a b none (some r) = positive
  compare_found a b none none = collate b a

  -- `compareReleaseVersionsDesc`
  unfoldable pub compare_release_versions_desc : String → String → Sign
  compare_release_versions_desc a b =
      compare_found a b (parse_release_version a) (parse_release_version b)
