-- ===== src/Feed/Newest.antt =====
-- Which release a feed offers.
use kazibee_home.Prelude.{
  All, none, String, Bool, true, false, not, ◌&&◌, ◌||◌, some, List, [], ◌∷◌, any, ◌≡◌, ◌∙◌, refl,
  sym, ap, arith, Bool-cases, inl, inr, subst,
}
use kazibee_home.Feed.Version.{
  UpdateChannel, Sign, negative, zero, positive, is_positive, compare_release_versions_desc,
}
use kazibee_home.Feed.Service.{
  VersionDownloads, place, sort, filter, eligible, newest_release, first,
}
use kazibee_home.Feed.Order.{IsCollation, opposite, compare-flip, compare-through}

any-filter :
    {A : Type 0} (f test : A → Bool) (xs : List A)
    → any f (filter test xs) ≡ any (λ a. test a && f a) xs
unfolding filter
any-filter f test [] = refl
any-filter f test (x ∷ xs) = ground (arith, any-filter f test xs)

module _ (collate : String → String → Sign) (c : IsCollation collate) where
  -- Whether the second comes before the first in a descending order.
  abbrev outranks : VersionDownloads → VersionDownloads → Bool
  outranks r s = is_positive (compare_release_versions_desc collate r.version s.version)

  any-place :
      (f : VersionDownloads → Bool) (r : VersionDownloads) (rs : List VersionDownloads)
      → any f (place collate r rs) ≡ (f r || any f rs)
  unfolding place
  any-place f r [] = refl
  any-place f r (s ∷ rs) = ground (arith, any-place f r rs)

  any-sort :
      (f : VersionDownloads → Bool) (rs : List VersionDownloads)
      → any f (sort collate rs) ≡ any f rs
  unfolding sort
  any-sort f [] = refl
  any-sort f (r ∷ rs) = any-place f r (sort collate rs) ∙ ap (λ b. f r || b) (any-sort f rs)

  outranks_itself : (r : VersionDownloads) → outranks r r ≡ false
  outranks_itself r =
      is_zero (compare_release_versions_desc collate r.version r.version)
        (compare-flip collate c r.version r.version)
    where
      is_zero : (s : Sign) → s ≡ opposite s → is_positive s ≡ false
      is_zero negative h = refl
      is_zero zero h = refl
      is_zero positive h = cc

  outranks_back : (r s : VersionDownloads) → outranks r s ≡ true → outranks s r ≡ false
  outranks_back r s h =
      back (compare_release_versions_desc collate r.version s.version)
        (compare_release_versions_desc collate s.version r.version)
        (compare-flip collate c r.version s.version) h
    where
      back : (x y : Sign) → y ≡ opposite x → is_positive x ≡ true → is_positive y ≡ false
      back negative y e h = cc
      back zero y e h = cc
      back positive y e h = ap is_positive e

  any_through :
      (r s : VersionDownloads) (rs : List VersionDownloads)
      → outranks r s ≡ false
      → any (outranks s) rs ≡ false
      → any (outranks r) rs ≡ false
  any_through r s [] h k = refl
  any_through r s (t ∷ rs) h k =
      let (k1, k2) = both (outranks s t) (any (outranks s) rs) k in
      rw (compare-through collate c r.version s.version t.version h k1, any_through r s rs h k2)
        refl
    where
      both : (a b : Bool) → (a || b) ≡ false → (a ≡ false) × (b ≡ false)
      both false b h = (refl, h)
      both true b h = cc

  -- None outranks the first.
  abbrev IsHeaded : List VersionDownloads → Type 0
  IsHeaded [] = Unit {0}
  IsHeaded (r ∷ rs) = any (outranks r) (r ∷ rs) ≡ false

  place-IsHeaded :
      (r : VersionDownloads) (rs : List VersionDownloads)
      → IsHeaded rs
      → IsHeaded (place collate r rs)
  unfolding place
  place-IsHeaded r [] h = rw (outranks_itself r) refl
  place-IsHeaded r (s ∷ rs) h = elim (Bool-cases (outranks r s)) [
    | inl e ↦ rw e (
        rw (any-place (outranks s) r rs, outranks_back r s e, outranks_itself s)
          (rw (outranks_itself s) at h))
    | inr e ↦ rw e (rw (outranks_itself r) (any_through r s (s ∷ rs) e h))
  ]

  sort-IsHeaded : (rs : List VersionDownloads) → IsHeaded (sort collate rs)
  unfolding sort
  sort-IsHeaded [] = tt
  sort-IsHeaded (r ∷ rs) = place-IsHeaded r (sort collate rs) (sort-IsHeaded rs)

  any-first :
      (f : VersionDownloads → Bool) (r : VersionDownloads) (rs : List VersionDownloads)
      → first rs ≡ some r
      → any f rs ≡ false
      → f r ≡ false
  any-first f r [] h k = cc
  any-first f r (s ∷ rs) h k = left (f r) (any f rs) (ap (λ t. f t || any f rs) (same h) ∙ k)
    where
      left : (a b : Bool) → (a || b) ≡ false → a ≡ false
      left false b h = refl
      left true b h = cc

      same : first (s ∷ rs) ≡ some r → r ≡ s
      same h = cc

  first-IsHeaded :
      (r : VersionDownloads) (rs : List VersionDownloads)
      → first rs ≡ some r
      → IsHeaded rs
      → any (outranks r) rs ≡ false
  first-IsHeaded r [] h k = refl
  first-IsHeaded r (s ∷ rs) h k = subst (λ t. any (outranks t) (s ∷ rs) ≡ false) (same h) k
    where
      same : first (s ∷ rs) ≡ some r → s ≡ r
      same h = cc

  any-kept :
      (channel : UpdateChannel) (versions : List VersionDownloads) (f : VersionDownloads → Bool)
      → any f (sort collate (filter (eligible channel) versions))
        ≡ any (λ s. eligible channel s && f s) versions
  any-kept channel versions f =
      any-sort f (filter (eligible channel) versions) ∙ any-filter f (eligible channel) versions

any_less :
    {A : Type 0} (p g : A → Bool) (xs : List A)
    → any g xs ≡ false
    → any (λ x. p x && g x) xs ≡ false
any_less p g [] h = refl
any_less p g (x ∷ xs) h = ground (arith, any_less p g xs, h)

never : {A : Type 0} (p : A → Bool) (xs : List A) → any (λ s. p s && not (p s)) xs ≡ false
never p [] = refl
never p (x ∷ xs) = rw (never p xs) (ground arith)

-- The first of the releases in order, by the tests of the code.
pub newest_release-first :
    (collate : String → String → Sign) (channel : UpdateChannel) (versions : List VersionDownloads)
    (r : VersionDownloads)
    → IsCollation collate
    → newest_release collate channel versions ≡ some r
    → (eligible channel r ≡ true)
      × (any
            (λ s.
              eligible channel s
              && is_positive (compare_release_versions_desc collate r.version s.version))
            versions
          ≡ false)
unfolding newest_release
newest_release-first collate channel versions r c h = (
  kept_true (eligible channel r) (
      any-first collate c (λ s. not (eligible channel s)) r _ h
        (any-kept collate c channel versions (λ s. not (eligible channel s))
          ∙ never (eligible channel) versions)),
  sym (
        any-kept collate c channel versions
          (λ s. is_positive (compare_release_versions_desc collate r.version s.version)))
      ∙ first-IsHeaded collate c r _ h
          (sort-IsHeaded collate c (filter (eligible channel) versions)),
)
  where
    kept_true : (b : Bool) → not b ≡ false → b ≡ true
    kept_true true h = refl
    kept_true false h = cc

-- What holds of every release of the listing holds of the one that is chosen.
module _ (collate : String → String → Sign) (P : VersionDownloads → Type 0) where
  place-All :
      (r : VersionDownloads) (rs : List VersionDownloads)
      → P r
      → All P rs
      → All P (place collate r rs)
  unfolding place
  place-All r [] h hs = (h, tt)
  place-All r (s ∷ rs) h (k, ks) =
      elim (Bool-cases (is_positive (compare_release_versions_desc collate r.version s.version))) [
        | inl e ↦ rw e (k, place-All r rs h ks)
        | inr e ↦ rw e (h, (k, ks))
      ]

  sort-All : (rs : List VersionDownloads) → All P rs → All P (sort collate rs)
  unfolding sort
  sort-All [] hs = tt
  sort-All (r ∷ rs) (h, hs) = place-All r (sort collate rs) h (sort-All rs hs)

  filter-All :
      (test : VersionDownloads → Bool) (rs : List VersionDownloads)
      → All P rs
      → All P (filter test rs)
  unfolding filter
  filter-All test [] hs = tt
  filter-All test (r ∷ rs) (h, hs) = elim (Bool-cases (test r)) [
    | inl e ↦ rw e (h, filter-All test rs hs)
    | inr e ↦ rw e (filter-All test rs hs)
  ]

  first-All :
      (r : VersionDownloads) (rs : List VersionDownloads) → first rs ≡ some r → All P rs → P r
  first-All r [] e hs = elim (no e) [ ]
    where
      no : ¬ (none ≡ some r)
      no e = cc
  first-All r (s ∷ rs) e (h, hs) = let same : s ≡ r = cc in subst P same h

  pub newest_release-All :
      (channel : UpdateChannel) (versions : List VersionDownloads) (r : VersionDownloads)
      → newest_release collate channel versions ≡ some r
      → All P versions
      → P r
  unfolding newest_release
  newest_release-All channel versions r e hs =
      first-All r _ e
        (sort-All (filter (eligible channel) versions) (filter-All (eligible channel) versions hs))
