-- ===== src/Release/Version.antt =====
-- Versions and ranges of connect_service_release_resolver.ts. The numbers of a version are exact.
use Prim.Native.Char.{Char, code}
use Prim.Native.String
use kazibee_home.Prelude.{
  ℕ, String, ◌+◌, ◌-◌, ◌*◌, ◌==◌, ltb, leb, str_eq, if◌then◌else◌, Bool, true, false, not, ◌&&◌,
  Option, none, some, List, [], ◌∷◌,
}

pub record ParsedVersion : Type 0 where
  pub major : ℕ
  pub minor : ℕ
  pub patch : ℕ

abbrev pub is_digit : Char → Bool
is_digit c = leb 48 (code c) && leb (code c) 57

-- `\d*` up to the end of the text, read in base 10 after the digits before it.
read_digits : ℕ → String → Option ℕ
read_digits n String.[] = some n
read_digits n (String.◌∷◌ c s) =
    let rest = read_digits (n * 10 + (code c - 48)) s in if is_digit c then rest else none

-- `0|[1-9]\d*`
read_number : String → Option ℕ
unfolding read_digits
read_number String.[] = none
read_number (String.◌∷◌ c s) =
    if str_eq (String.◌∷◌ c s) "0"
    then some 0
    else if leb 49 (code c) && leb (code c) 57
    then read_digits (code c - 48) s
    else none

-- Cuts a text at its dots.
cut_dots : String → String → List String
cut_dots cur String.[] = cur ∷ []
cut_dots cur (String.◌∷◌ c s) =
    let closed = cur ∷ cut_dots "" s in
    let longer = cut_dots (String.◌++◌ cur (String.◌∷◌ c String.[])) s in
    if code c == 46 then closed else longer

of_numbers : Option ℕ → Option ℕ → Option ℕ → Option ParsedVersion
of_numbers (some a) (some b) (some c) = some (record { major = a; minor = b; patch = c })
of_numbers _ _ _ = none

of_parts : List String → Option ParsedVersion
unfolding of_numbers read_number
of_parts (a ∷ b ∷ c ∷ []) = of_numbers (read_number a) (read_number b) (read_number c)
of_parts _ = none

-- `parseVersion`, over VERSION_PATTERN
unfoldable pub parse_version : String → Option ParsedVersion
unfolding of_parts cut_dots
parse_version value = of_parts (cut_dots "" value)

abbrev pub is_caret : String → Bool
is_caret String.[] = false
is_caret (String.◌∷◌ c s) = code c == 94

abbrev drop_caret : String → String
drop_caret String.[] = String.[]
drop_caret (String.◌∷◌ c s) = if code c == 94 then s else String.◌∷◌ c s

-- The match of RANGE_PATTERN: the three numbers after the caret, which may be missing.
unfoldable pub parse_range : String → Option ParsedVersion
parse_range range = parse_version (drop_caret range)

pub data Sign : Type 0 where
  less equal greater : Sign

abbrev sign_of : ℕ → ℕ → Sign
sign_of a b = if ltb a b then less else if ltb b a then greater else equal

-- `a || b` on signs
abbrev sign_or : Sign → Sign → Sign
sign_or equal t = t
sign_or s t = s

-- The sign of `compareParsed`
unfoldable pub compare_parsed : ParsedVersion → ParsedVersion → Sign
compare_parsed a b =
    sign_or (sign_of a.major b.major) (sign_or (sign_of a.minor b.minor) (sign_of a.patch b.patch))

abbrev pub is_equal : Sign → Bool
is_equal equal = true
is_equal _ = false

abbrev pub is_less : Sign → Bool
is_less less = true
is_less _ = false

-- `rangeSatisfied` of a range and a version that both match.
unfoldable pub in_range : Bool → ParsedVersion → ParsedVersion → Bool
in_range caret base candidate =
    if not caret
    then is_equal (compare_parsed candidate base)
    else if is_less (compare_parsed candidate base)
    then false
    else if ltb 0 base.major
    then candidate.major == base.major
    else if ltb 0 base.minor
    then candidate.major == 0 && candidate.minor == base.minor
    else is_equal (compare_parsed candidate base)

unfoldable pub range_satisfied : String → String → Bool
range_satisfied range version = both (parse_range range) (parse_version version)
  where
    both : Option ParsedVersion → Option ParsedVersion → Bool
    both (some base) (some candidate) = in_range (is_caret range) base candidate
    both _ _ = false
