-- ===== src/Feed/Tests.antt =====
-- A listing with candidates, releases and a folder named "latest".
use Prim.Native.String.{len}
use kazibee_home.Prelude.{
  String, eq_iff, inr, true, false, none, some, List, [], ◌∷◌, ◌≡◌, refl, arith,
}
use kazibee_home.Feed.Version.{
  stable, beta, Sign, sign_of_difference, parse_release_version, is_prerelease_version,
  is_version_on_channel, compare_release_versions_desc,
}
use kazibee_home.Feed.Service.{VersionDownloads, newest_release, filter, sort, place}
use kazibee_home.Feed.Order.{IsCollation}
use kazibee_home.Feed.Offer.{IsFinal, MayOffer, IsNewer, IsListed, feed_offers_the_newest}

-- A collation by length.
abbrev by_length : String → String → Sign
by_length a b = sign_of_difference (len a) (len b)

by_length-IsCollation : IsCollation by_length
by_length-IsCollation = record {
  flip = λ a b. ground arith;
  through = λ a b c h k. ground (arith, h, k);
}

abbrev release : String → VersionDownloads
release version = record {
  version = version;
  downloads = record { name = "kazi-mac-x64.zip"; last_modified = none } ∷ [];
}

abbrev listing : List VersionDownloads
listing =
    release "v0.9.2"
    ∷ release "latest"
    ∷ release "v0.10.0-rc20260920-1"
    ∷ release "nightly"
    ∷ release "v1.0.0-rc1"
    ∷ release "v0.10.0+build.7"
    ∷ []

stable_offer : newest_release by_length stable listing ≡ some (release "v0.10.0+build.7")
unfolding newest_release filter sort place is_version_on_channel is_prerelease_version
    parse_release_version compare_release_versions_desc
stable_offer = refl

beta_offer : newest_release by_length beta listing ≡ some (release "v1.0.0-rc1")
unfolding newest_release filter sort place is_version_on_channel is_prerelease_version
    parse_release_version compare_release_versions_desc
beta_offer = refl

-- The candidate is no offer for the stable channel; the older release is one.
older-IsListed : IsListed listing (release "v0.9.2")
older-IsListed = record { before = []; later = _; place = refl }

older-MayOffer : MayOffer stable (release "v0.9.2")
unfolding parse_release_version IsFinal
older-MayOffer = record { named = λ e. apart ((eq_iff "v0.9.2" "latest").1 e); suited = inr refl }
  where
    apart : ¬ (false ≡ true)
    apart e = cc

feed_offers_the_newest_example :
    IsListed listing (release "v0.10.0+build.7")
    × MayOffer stable (release "v0.10.0+build.7")
    × (¬ IsNewer by_length "v0.9.2" "v0.10.0+build.7")
feed_offers_the_newest_example =
    feed_offers_the_newest by_length stable listing (release "v0.10.0+build.7") (release "v0.9.2")
      by_length-IsCollation stable_offer older-IsListed older-MayOffer
