-- ===== src/Release/Carets.antt =====
-- A range is an interval of versions in the order of `compareParsed`.
use kazibee_home.Prelude.{◌+◌, ltb, if◌then◌else◌, Bool, not, ◌&&◌, ◌≡◌, arith}
use kazibee_home.Release.Version.{ParsedVersion, compare_parsed, is_less, in_range}

-- The first version after the range: for a caret the next one whose leftmost number that is not 0
-- differs, for an exact range the next patch.
unfoldable pub upper : Bool → ParsedVersion → ParsedVersion
upper caret base =
    if not caret
    then next_patch
    else if ltb 0 base.major
    then record { major = base.major + 1; minor = 0; patch = 0 }
    else if ltb 0 base.minor
    then record { major = 0; minor = base.minor + 1; patch = 0 }
    else next_patch
  where
    next_patch : ParsedVersion
    next_patch = record { major = base.major; minor = base.minor; patch = base.patch + 1 }

-- A version is in a range exactly where it is not below the range's base and below its upper bound.
pub in_range-interval :
    (caret : Bool) (base v : ParsedVersion)
    → in_range caret base v
      ≡ not (is_less (compare_parsed v base)) && is_less (compare_parsed v (upper caret base))
unfolding in_range compare_parsed upper
in_range-interval caret base v = ground arith
