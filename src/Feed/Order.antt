-- ===== src/Feed/Order.antt =====
-- The comparison of release versions is a total preorder, where the collation of texts is one.
use kazibee_home.Prelude.{
  ℕ, String, str_eq, eq_iff, false, Option, none, some, ◌≡◌, ◌∙◌, refl, sym, ap, arith, Bool-cases,
  inl, inr, subst,
}
use kazibee_home.Feed.Version.{
  Sign, negative, zero, positive, is_positive, sign_or, sign_of_difference, compare_tags,
  compare_parsed, compare_found, compare_release_versions_desc, ParsedReleaseVersion,
  parse_release_version,
}

abbrev pub opposite : Sign → Sign
opposite negative = positive
opposite zero = zero
opposite positive = negative

-- What Intl.Collator documents of its comparison.
pub record IsCollation (collate : String → String → Sign) : Type 0 where
  pub flip : (a b : String) → collate b a ≡ opposite (collate a b)
  pub through :
      (a b c : String)
      → is_positive (collate a b) ≡ false
      → is_positive (collate b c) ≡ false
      → is_positive (collate a c) ≡ false

lex_flip :
    (x y : ℕ) (s t : Sign)
    → t ≡ opposite s
    → sign_or (sign_of_difference x y) t ≡ opposite (sign_or (sign_of_difference y x) s)
lex_flip x y s t h = ground (arith, h)

lex_through :
    (x y z : ℕ) (s t u : Sign)
    → (is_positive s ≡ false → is_positive t ≡ false → is_positive u ≡ false)
    → is_positive (sign_or (sign_of_difference y x) s) ≡ false
    → is_positive (sign_or (sign_of_difference z y) t) ≡ false
    → is_positive (sign_or (sign_of_difference z x) u) ≡ false
lex_through x y z s t u h p q = grind arith

module _ (collate : String → String → Sign) (c : IsCollation collate) where
  collate_same : (a : String) → collate a a ≡ zero
  collate_same a = is_zero (collate a a) (c.flip a a)
    where
      is_zero : (s : Sign) → s ≡ opposite s → s ≡ zero
      is_zero negative h = cc
      is_zero zero h = refl
      is_zero positive h = cc

  tags_both : (l r : String) → compare_tags collate (some l) (some r) ≡ collate r l
  tags_both l r = elim (Bool-cases (str_eq l r)) [
    | inr n ↦ rw n refl
    | inl e ↦ rw e (sym (subst (λ x. collate x l ≡ zero) ((eq_iff l r).0 e) (collate_same l)))
  ]

  tags_flip : (l r : Option String) → compare_tags collate r l ≡ opposite (compare_tags collate l r)
  tags_flip none none = refl
  tags_flip none (some r) = refl
  tags_flip (some l) none = refl
  tags_flip (some l) (some r) = rw (tags_both l r, tags_both r l) (c.flip r l)

  tags_through :
      (l m r : Option String)
      → is_positive (compare_tags collate l m) ≡ false
      → is_positive (compare_tags collate m r) ≡ false
      → is_positive (compare_tags collate l r) ≡ false
  tags_through none m none h k = refl
  tags_through none m (some r) h k = refl
  tags_through (some l) none r h k = cc
  tags_through (some l) (some m) none h k = cc
  tags_through (some l) (some m) (some r) h k = rw (tags_both l r) (
      c.through r m l (ap is_positive (sym (tags_both m r)) ∙ k)
        (ap is_positive (sym (tags_both l m)) ∙ h))

  parsed_flip :
      (l r : ParsedReleaseVersion)
      → compare_parsed collate r l ≡ opposite (compare_parsed collate l r)
  parsed_flip l r = lex_flip l.major r.major _ _ (
      lex_flip l.minor r.minor _ _
        (lex_flip l.patch r.patch _ _ (tags_flip l.prerelease r.prerelease)))

  parsed_through :
      (l m r : ParsedReleaseVersion)
      → is_positive (compare_parsed collate l m) ≡ false
      → is_positive (compare_parsed collate m r) ≡ false
      → is_positive (compare_parsed collate l r) ≡ false
  parsed_through l m r = lex_through l.major m.major r.major _ _ _ (
      lex_through l.minor m.minor r.minor _ _ _ (
        lex_through l.patch m.patch r.patch _ _ _
          (tags_through l.prerelease m.prerelease r.prerelease)))

  found_flip :
      (a b : String) (l r : Option ParsedReleaseVersion)
      → compare_found collate b a r l ≡ opposite (compare_found collate a b l r)
  found_flip a b (some l) (some r) = parsed_flip l r
  found_flip a b (some l) none = refl
  found_flip a b none (some r) = refl
  found_flip a b none none = c.flip b a

  found_through :
      (a b d : String) (l m r : Option ParsedReleaseVersion)
      → is_positive (compare_found collate a b l m) ≡ false
      → is_positive (compare_found collate b d m r) ≡ false
      → is_positive (compare_found collate a d l r) ≡ false
  found_through a b d (some l) (some m) (some r) h k = parsed_through l m r h k
  found_through a b d (some l) m none h k = refl
  found_through a b d (some l) none (some r) h k = cc
  found_through a b d none (some m) r h k = cc
  found_through a b d none none (some r) h k = cc
  found_through a b d none none none h k = c.through d b a k h

  pub compare-flip :
      (a b : String)
      → compare_release_versions_desc collate b a
        ≡ opposite (compare_release_versions_desc collate a b)
  unfolding compare_release_versions_desc
  compare-flip a b = found_flip a b (parse_release_version a) (parse_release_version b)

  pub compare-through :
      (a b d : String)
      → is_positive (compare_release_versions_desc collate a b) ≡ false
      → is_positive (compare_release_versions_desc collate b d) ≡ false
      → is_positive (compare_release_versions_desc collate a d) ≡ false
  unfolding compare_release_versions_desc
  compare-through a b d =
      found_through a b d (parse_release_version a) (parse_release_version b)
        (parse_release_version d)
