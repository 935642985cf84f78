-- ===== src/Release/Choice.antt =====
-- Which release the resolver gives: one of the index, eligible, with no published one above it.
use kazibee_home.Prelude.{
  ℕ, String, true, false, ◌≡◌, ◌⊎◌, inl, inr, refl, sym, subst, some, List, [], ◌∷◌, ◌++◌, All,
  arith, Bool-cases, Option-cases,
}
use kazibee_home.Release.Version.{parse_version, compare_parsed, is_less}
use kazibee_home.Release.Index.{ResolverIndexRelease, RevocationEntry, ResolveRequest, Codec}
use kazibee_home.Release.Resolver.{
  Answer, got, threw, Thrown, Downloads, Candidate, Sortable, place, sort, eligible, matching,
  retry, dependency_call, then_use, read_index, read_revocations, candidate_of, first_published,
  resolve, not_found, validation, other,
}

module _ (q : ResolveRequest) (es : List RevocationEntry) where
  -- A candidate comes from an eligible release of the index.
  pub record IsCandidate (rs : List ResolverIndexRelease) (c : Sortable) : Type 0 where
    pub before : List ResolverIndexRelease
    pub later : List ResolverIndexRelease
    pub listed : rs ≡ before ++ c.release ∷ later
    pub fits : eligible q es c.release ≡ true
    pub version : parse_version c.release.version ≡ some c.parsed

  weaken :
      (r : ResolverIndexRelease) (rs : List ResolverIndexRelease) (cs : List Sortable)
      → All (IsCandidate rs) cs
      → All (IsCandidate (r ∷ rs)) cs
  weaken r rs [] h = tt
  weaken r rs (c ∷ cs) (h, hs) = (
    record {
      before = r ∷ h.before;
      later = h.later;
      listed = rw h.listed refl;
      fits = h.fits;
      version = h.version;
    },
    weaken r rs cs hs,
  )

  matching-All : (rs : List ResolverIndexRelease) → All (IsCandidate rs) (matching q es rs)
  unfolding matching
  matching-All [] = tt
  matching-All (r ∷ rs) = elim (Option-cases (parse_version r.version)) [
    | inl n ↦ rw (n, matching) (weaken r rs _ (matching-All rs))
    | inr (v, n) ↦ elim (Bool-cases (eligible q es r)) [
      | inr e ↦ rw (n, e, matching) (weaken r rs _ (matching-All rs))
      | inl e ↦
          rw (n, e, matching)
            (
              record { before = []; later = rs; listed = refl; fits = e; version = n },
              weaken r rs _ (matching-All rs),
            )
    ]
  ]

-- Sorting keeps the candidates and puts the highest version first.
module _ (P : Sortable → Type 0) where
  place-All : (c : Sortable) (cs : List Sortable) → P c → All P cs → All P (place c cs)
  unfolding place
  place-All c [] h hs = (h, tt)
  place-All c (d ∷ ds) h (k, ks) = elim (Bool-cases (is_less (compare_parsed c.parsed d.parsed))) [
    | inl e ↦ rw e (k, place-All c ds h ks)
    | inr e ↦ rw e (h, (k, ks))
  ]

  sort-All : (cs : List Sortable) → All P cs → All P (sort cs)
  unfolding sort
  sort-All [] h = tt
  sort-All (c ∷ cs) (h, hs) = place-All c (sort cs) h (sort-All cs hs)

-- No version of a list is above this one.
pub record IsAbove (c d : Sortable) : Type 0 where
  pub holds : is_less (compare_parsed c.parsed d.parsed) ≡ false

pub IsSorted : List Sortable → Type 0
IsSorted [] = Unit {0}
IsSorted (c ∷ cs) = All (IsAbove c) cs × IsSorted cs

IsAbove-trans : (c d e : Sortable) → IsAbove c d → IsAbove d e → IsAbove c e
unfolding compare_parsed
IsAbove-trans c d e h k = record { holds = ground (arith, h.holds, k.holds) }

IsAbove-All :
    (c d : Sortable) (es : List Sortable) → IsAbove c d → All (IsAbove d) es → All (IsAbove c) es
IsAbove-All c d [] h k = tt
IsAbove-All c d (e ∷ es) h (k, ks) = (IsAbove-trans c d e h k, IsAbove-All c d es h ks)

IsAbove-asym : (c d : Sortable) → is_less (compare_parsed c.parsed d.parsed) ≡ true → IsAbove d c
unfolding compare_parsed
IsAbove-asym c d e = record { holds = ground (arith, e) }

place-IsSorted : (c : Sortable) (cs : List Sortable) → IsSorted cs → IsSorted (place c cs)
unfolding place IsSorted
place-IsSorted c [] h = (tt, tt)
place-IsSorted c (d ∷ ds) (h, hs) = elim (Bool-cases (is_less (compare_parsed c.parsed d.parsed))) [
  | inl e ↦ rw e (place-All (IsAbove d) c ds (IsAbove-asym c d e) h, place-IsSorted c ds hs)
  | inr e ↦ rw e ((record { holds = e }, IsAbove-All c d ds (record { holds = e }) h), (h, hs))
]

sort-IsSorted : (cs : List Sortable) → IsSorted (sort cs)
unfolding sort IsSorted
sort-IsSorted [] = tt
sort-IsSorted (c ∷ cs) = place-IsSorted c (sort cs) (sort-IsSorted cs)

split-IsSorted :
    (xs : List Sortable) (c : Sortable) (ys : List Sortable)
    → IsSorted (xs ++ c ∷ ys)
    → All (IsAbove c) ys
unfolding IsSorted
split-IsSorted [] c ys h = h.0
split-IsSorted (x ∷ xs) c ys h = split-IsSorted xs c ys h.1

split-All :
    (P : Sortable → Type 0) (xs : List Sortable) (c : Sortable) (ys : List Sortable)
    → All P (xs ++ c ∷ ys)
    → P c
split-All P [] c ys h = h.0
split-All P (x ∷ xs) c ys h = split-All P xs c ys h.1

Answer-cases :
    {A : Type 0} (a : Answer A)
    → ((x : A) × (a ≡ got x)) ⊎ (a ≡ threw not_found) ⊎ (a ≡ threw validation) ⊎ (a ≡ threw other)
Answer-cases (got x) = inl (x, refl)
Answer-cases (threw not_found) = inr (inl refl)
Answer-cases (threw validation) = inr (inr (inl refl))
Answer-cases (threw other) = inr (inr (inr refl))

got-inj : {A : Type 0} {x y : A} → got x ≡ got y → x ≡ y
got-inj e = cc

threw_is_not_got : {A : Type 0} {x : A} {t : Thrown} → ¬ (threw t ≡ got x)
threw_is_not_got e = cc

module _ {W : Type 0} (codec : Codec) (downloads : Downloads W) (expires_in : ℕ) where
  unfoldable pub asked : Sortable → W → Answer String × W
  asked c =
      dependency_call (downloads.create_download c.release.version c.release.artifact expires_in)

  -- These candidates were asked for one after the other, and none is published.
  unfoldable pub AreRefused : List Sortable → W → W → Type 0
  AreRefused [] w w' = w ≡ w'
  AreRefused (c ∷ cs) w w' =
      (((asked c w).0 ≡ threw not_found) ⊎ ((asked c w).0 ≡ threw validation))
      × AreRefused cs (asked c w).1 w'

  pub record IsFirst (cs : List Sortable) (w : W) (found : Candidate) : Type 0 where
    pub skipped : List Sortable
    pub chosen : Sortable
    pub rest : List Sortable
    pub then_world : W
    pub url : String
    pub order : cs ≡ skipped ++ chosen ∷ rest
    pub refused : AreRefused skipped w then_world
    pub published : (asked chosen then_world).0 ≡ got url
    pub answer : found ≡ candidate_of chosen.release url

  skip :
      (c : Sortable) (cs : List Sortable) (w : W) (found : Candidate)
      → ((asked c w).0 ≡ threw not_found) ⊎ ((asked c w).0 ≡ threw validation)
      → IsFirst cs (asked c w).1 found
      → IsFirst (c ∷ cs) w found
  unfolding AreRefused
  skip c cs w found e f = record {
    skipped = c ∷ f.skipped;
    chosen = f.chosen;
    rest = f.rest;
    then_world = f.then_world;
    url = f.url;
    order = rw f.order refl;
    refused = (e, f.refused);
    published = f.published;
    answer = f.answer;
  }

  first_published-IsFirst :
      (cs : List Sortable) (w : W) (found : Candidate)
      → (first_published codec downloads expires_in cs w).0 ≡ got found
      → IsFirst cs w found
  unfolding first_published retry asked AreRefused
  first_published-IsFirst [] w found e = cc
  first_published-IsFirst (c ∷ cs) w found e = elim (Answer-cases (asked c w).0) [
    | inl (url, a) ↦ record {
      skipped = [];
      chosen = c;
      rest = cs;
      then_world = w;
      url = url;
      order = refl;
      refused = refl;
      published = a;
      answer = got-inj (sym (rw (a, first_published, retry) at e));
    }
    | inr (inl a) ↦
        skip c cs w found (inl a)
          (first_published-IsFirst cs (asked c w).1 found (rw (a, first_published, retry) at e))
    | inr (inr (inl a)) ↦
        skip c cs w found (inr a)
          (first_published-IsFirst cs (asked c w).1 found (rw (a, first_published, retry) at e))
    | inr (inr (inr a)) ↦ elim (threw_is_not_got (rw (a, first_published, retry) at e)) [ ]
  ]

  -- The offered candidate, among the candidates in order.
  pub resolve-IsFirst :
      (q : ResolveRequest) (w : W) (rs : List ResolverIndexRelease) (es : List RevocationEntry)
      (found : Candidate)
      → (read_index codec downloads expires_in w).0 ≡ got rs
      → (read_revocations codec downloads expires_in (read_index codec downloads expires_in w).1).0
        ≡ got es
      → (resolve codec downloads expires_in q w).0 ≡ got found
      → (f : IsFirst
          (sort (matching q es rs))
          (read_revocations codec downloads expires_in
            (read_index codec downloads expires_in w).1).1
          found)
        × IsCandidate q es rs f.chosen
        × All (IsAbove f.chosen) f.rest
  unfolding resolve then_use
  resolve-IsFirst q w rs es found i r e =
      let f =
        first_published-IsFirst (sort (matching q es rs)) _ found
          (rw (i, r, resolve, then_use) at e) in
      (
        f,
        split-All (IsCandidate q es rs) f.skipped f.chosen f.rest (
            subst (All (IsCandidate q es rs)) f.order
              (sort-All (IsCandidate q es rs) _ (matching-All q es rs))),
        split-IsSorted f.skipped f.chosen f.rest
            (subst IsSorted f.order (sort-IsSorted (matching q es rs))),
      )
