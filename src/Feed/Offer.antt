-- ===== src/Feed/Offer.antt =====
-- Which release a feed offers, against the whole listing.
use kazibee_home.Prelude.{
  String, ◌<◌, ◌++◌, str_eq, eq_iff, Bool, true, false, not, ◌&&◌, ◌||◌, Option, none, some, List,
  [], ◌∷◌, any, All, ◌≡◌, ◌⊎◌, inl, inr, refl, sym, ap, arith, Bool-cases, Option-cases,
}
use kazibee_home.Feed.Version.{
  UpdateChannel, stable, beta, ParsedReleaseVersion, parse_release_version, is_version_on_channel,
  is_prerelease_version, is_beta, has_prerelease, compare_tags, compare_parsed, compare_found, Sign,
  positive, is_positive, compare_release_versions_desc,
}
use kazibee_home.Feed.Service.{VersionDownloads, eligible, newest_release}
use kazibee_home.Feed.Order.{IsCollation}
use kazibee_home.Feed.Newest.{newest_release-first, newest_release-All}

-- The version that a text reads as is no pre-release.
unfoldable pub IsFinal : Option ParsedReleaseVersion → Type 0
IsFinal none = Unit {0}
IsFinal (some p) = p.prerelease ≡ none

-- Whether a release may be offered on a channel.
pub record MayOffer (channel : UpdateChannel) (r : VersionDownloads) : Type 0 where
  pub named : ¬ (r.version ≡ "latest")
  pub suited : (channel ≡ beta) ⊎ IsFinal (parse_release_version r.version)

-- A final version is newer than its candidates, and of two candidates the one that collates after.
pub IsNewerTag : (String → String → Sign) → Option String → Option String → Type 0
IsNewerTag collate none none = ⊥
IsNewerTag collate none (some t) = Unit {0}
IsNewerTag collate (some s) none = ⊥
IsNewerTag collate (some s) (some t) = (¬ (s ≡ t)) × (collate s t ≡ positive)

-- The first is newer than the second, number by number and then by the tags.
pub IsNewerVersion : (String → String → Sign) → ParsedReleaseVersion → ParsedReleaseVersion → Type 0
unfolding IsNewerTag
IsNewerVersion collate p q =
    (q.major < p.major)
    ⊎ ((p.major ≡ q.major)
        × ((q.minor < p.minor)
            ⊎ ((p.minor ≡ q.minor)
                × ((q.patch < p.patch)
                    ⊎ ((p.patch ≡ q.patch) × IsNewerTag collate p.prerelease q.prerelease)))))

-- A text that is a version is newer than one that is none.
pub IsNewerFound :
    (String → String → Sign) → (s t : String) → (p q : Option ParsedReleaseVersion) → Type 0
unfolding IsNewerVersion
IsNewerFound collate s t (some p) (some q) = IsNewerVersion collate p q
IsNewerFound collate s t (some p) none = Unit {0}
IsNewerFound collate s t none (some q) = ⊥
IsNewerFound collate s t none none = collate s t ≡ positive

pub IsNewer : (String → String → Sign) → (s t : String) → Type 0
unfolding IsNewerFound
IsNewer collate s t = IsNewerFound collate s t (parse_release_version s) (parse_release_version t)

tag-positive :
    (collate : String → String → Sign) (s t : Option String)
    → IsNewerTag collate s t
    → is_positive (compare_tags collate t s) ≡ true
unfolding IsNewerTag
tag-positive collate none none h = elim h [ ]
tag-positive collate none (some t) h = refl
tag-positive collate (some s) none h = elim h [ ]
tag-positive collate (some s) (some t) (n, h) = elim (Bool-cases (str_eq t s)) [
  | inl e ↦ elim (n (sym ((eq_iff t s).0 e))) [ ]
  | inr e ↦ rw (e, h) refl
]

version-positive :
    (collate : String → String → Sign) (p q : ParsedReleaseVersion)
    → IsNewerVersion collate p q
    → is_positive (compare_parsed collate q p) ≡ true
unfolding IsNewerVersion
version-positive collate p q (inl a) = ground (arith, a)
version-positive collate p q (inr (a, inl b)) = ground (arith, a, b)
version-positive collate p q (inr (a, inr (b, inl c))) = ground (arith, a, b, c)
version-positive collate p q (inr (a, inr (b, inr (c, h)))) =
    let k = tag-positive collate p.prerelease q.prerelease h in ground (arith, a, b, c, k)

found-positive :
    (collate : String → String → Sign) (s t : String) (p q : Option ParsedReleaseVersion)
    → IsNewerFound collate s t p q
    → is_positive (compare_found collate t s q p) ≡ true
unfolding IsNewerFound
found-positive collate s t (some p) (some q) h = version-positive collate p q h
found-positive collate s t (some p) none h = refl
found-positive collate s t none (some q) h = elim h [ ]
found-positive collate s t none none h = rw h refl

newer-positive :
    (collate : String → String → Sign) (s t : String)
    → IsNewer collate s t
    → is_positive (compare_release_versions_desc collate t s) ≡ true
unfolding IsNewer compare_release_versions_desc
newer-positive collate s t h = found-positive collate s t _ _ h

on-suited :
    (channel : UpdateChannel) (found : Option ParsedReleaseVersion)
    → (is_beta channel || not (has_prerelease found)) ≡ true
    → (channel ≡ beta) ⊎ IsFinal found
unfolding IsFinal
on-suited beta found h = inl refl
on-suited stable none h = inr tt
on-suited stable (some p) h = elim (Option-cases p.prerelease) [
  | inl e ↦ inr e
  | inr (t, e) ↦ ground (arith, h, e)
]

suited-on :
    (channel : UpdateChannel) (found : Option ParsedReleaseVersion)
    → (channel ≡ beta) ⊎ IsFinal found
    → (is_beta channel || not (has_prerelease found)) ≡ true
unfolding IsFinal
suited-on channel found (inl e) = rw e refl
suited-on channel none (inr h) = ground (arith, h)
suited-on beta (some p) (inr h) = refl
suited-on stable (some p) (inr h) = rw h refl

true_no : ¬ (false ≡ true)
true_no e = cc

named-no : (b c : Bool) → (not b && c) ≡ true → b ≡ false
named-no true c h = elim (true_no h) [ ]
named-no false c h = refl

right-yes : (b c : Bool) → (not b && c) ≡ true → c ≡ true
right-yes true c h = elim (true_no h) [ ]
right-yes false c h = h

eligible-MayOffer :
    (channel : UpdateChannel) (r : VersionDownloads)
    → eligible channel r ≡ true
    → MayOffer channel r
unfolding is_version_on_channel is_prerelease_version
eligible-MayOffer channel r h = record {
  named = λ e.
      let k = (eq_iff r.version "latest").1 e in
      let b = named-no (str_eq r.version "latest") (is_version_on_channel r.version channel) h in
      cc;
  suited =
      on-suited channel (parse_release_version r.version)
        (right-yes (str_eq r.version "latest") (is_version_on_channel r.version channel) h);
}

MayOffer-eligible :
    (channel : UpdateChannel) (r : VersionDownloads)
    → MayOffer channel r
    → eligible channel r ≡ true
unfolding is_version_on_channel is_prerelease_version
MayOffer-eligible channel r m = elim (Bool-cases (str_eq r.version "latest")) [
  | inl e ↦ elim (m.named ((eq_iff r.version "latest").0 e)) [ ]
  | inr e ↦
      let k = suited-on channel (parse_release_version r.version) m.suited in ground (arith, e, k)
]

-- A release of a listing.
pub record IsListed (versions : List VersionDownloads) (r : VersionDownloads) : Type 0 where
  pub before : List VersionDownloads
  pub later : List VersionDownloads
  pub place : versions ≡ before ++ r ∷ later

weaken :
    (s : VersionDownloads) (versions rs : List VersionDownloads)
    → All (IsListed versions) rs
    → All (IsListed (s ∷ versions)) rs
weaken s versions [] hs = tt
weaken s versions (r ∷ rs) (h, hs) = (
  record { before = s ∷ h.before; later = h.later; place = ap (λ l. s ∷ l) h.place },
  weaken s versions rs hs,
)

All-IsListed : (versions : List VersionDownloads) → All (IsListed versions) versions
All-IsListed [] = tt
All-IsListed (r ∷ rs) =
    (record { before = []; later = rs; place = refl }, weaken r rs rs (All-IsListed rs))

any-split :
    {A : Type 0} (f : A → Bool) (xs : List A) (x : A) (ys : List A)
    → any f (xs ++ x ∷ ys) ≡ false
    → f x ≡ false
any-split f [] x ys h = ground (arith, h)
any-split f (z ∷ xs) x ys h = any-split f xs x ys (ground (arith, h))

-- The release that a feed offers is one of the listing and may be offered: it is not named "latest",
-- and on the stable channel its name does not read as a pre-release. No release of the listing that may
-- be offered is newer. The collation of texts is a total preorder.
pub feed_offers_the_newest :
    (collate : String → String → Sign) (channel : UpdateChannel) (versions : List VersionDownloads)
    (r s : VersionDownloads)
    → IsCollation collate
    → newest_release collate channel versions ≡ some r
    → IsListed versions s
    → MayOffer channel s
    → IsListed versions r × MayOffer channel r × (¬ IsNewer collate s.version r.version)
feed_offers_the_newest collate channel versions r s c h l m =
    let (fits, best) = newest_release-first collate channel versions r c h in
    (
      newest_release-All collate (IsListed versions) channel versions r h (All-IsListed versions),
      eligible-MayOffer channel r fits,
      λ newer.
          let low =
            any-split
              (λ t.
                eligible channel t
                && is_positive (compare_release_versions_desc collate r.version t.version))
              l.before s l.later (rw l.place at best) in
          let up = newer-positive collate s.version r.version newer in
          let fit = MayOffer-eligible channel s m in ground (arith, low, up, fit),
    )
