-- ===== src/Release/Offer.antt =====
-- What the resolver offers, against the whole index.
use kazibee_home.Prelude.{
  ℕ, String, ◌≤◌, ◌<◌, ltb, str_eq, true, false, any, ◌≡◌, ◌⊎◌, inl, inr, refl, sym, subst, none,
  some, List, [], ◌∷◌, ◌++◌, All, arith, Bool-cases, Option-cases,
}
use kazibee_home.Release.Version.{
  ParsedVersion, parse_version, compare_parsed, is_less, range_satisfied,
}
use kazibee_home.Release.Index.{
  ResolverIndexRelease, RevocationEntry, ResolveRequest, Codec, revocation_matches,
}
use kazibee_home.Release.Resolver.{
  got, threw, Downloads, Candidate, Sortable, place, sort, eligible, matching, dependency_call,
  read_index, read_revocations, candidate_of, resolve, not_found, validation,
}
use kazibee_home.Release.Choice.{asked, AreRefused, IsAbove, resolve-IsFirst}

-- One version is not above another, number by number.
pub IsUpTo : ParsedVersion → ParsedVersion → Type 0
IsUpTo v w =
    (v.major < w.major)
    ⊎ ((v.major ≡ w.major) × ((v.minor < w.minor) ⊎ ((v.minor ≡ w.minor) × (v.patch ≤ w.patch))))

compare-IsUpTo : (v w : ParsedVersion) → is_less (compare_parsed w v) ≡ false → IsUpTo v w
unfolding compare_parsed IsUpTo
compare-IsUpTo v w h = elim (Bool-cases (ltb v.major w.major)) [
  | inl a ↦ inl (ground (arith, a))
  | inr a ↦ inr (
    ground (arith, a, h),
    elim (Bool-cases (ltb v.minor w.minor)) [
      | inl b ↦ inl (ground (arith, b))
      | inr b ↦ inr (ground (arith, a, b, h), ground (arith, a, b, h))
    ],
  )
]

-- The release is for another platform, architecture or range, or an entry of the policy revokes it.
pub IsUnfit : ResolveRequest → List RevocationEntry → ResolverIndexRelease → Type 0
IsUnfit q es r =
    (str_eq r.platform q.platform ≡ false)
    ⊎ (str_eq r.architecture q.architecture ≡ false)
    ⊎ (range_satisfied q.range r.version ≡ false)
    ⊎ (any (λ e. revocation_matches e r) es ≡ true)

pub record IsFit (q : ResolveRequest) (es : List RevocationEntry) (r : ResolverIndexRelease)
    : Type 0 where
  pub platform : str_eq r.platform q.platform ≡ true
  pub architecture : str_eq r.architecture q.architecture ≡ true
  pub range : range_satisfied q.range r.version ≡ true
  pub kept : any (λ e. revocation_matches e r) es ≡ false

eligible-IsFit :
    (q : ResolveRequest) (es : List RevocationEntry) (r : ResolverIndexRelease)
    → eligible q es r ≡ true
    → IsFit q es r
unfolding eligible
eligible-IsFit q es r h = record {
  platform = ground (arith, h);
  architecture = ground (arith, h);
  range = ground (arith, h);
  kept = ground (arith, h);
}

eligible-IsUnfit :
    (q : ResolveRequest) (es : List RevocationEntry) (r : ResolverIndexRelease)
    → eligible q es r ≡ false
    → IsUnfit q es r
unfolding eligible IsUnfit
eligible-IsUnfit q es r h = elim (Bool-cases (str_eq r.platform q.platform)) [
  | inr a ↦ inl a
  | inl a ↦ elim (Bool-cases (str_eq r.architecture q.architecture)) [
    | inr b ↦ inr (inl b)
    | inl b ↦ elim (Bool-cases (range_satisfied q.range r.version)) [
      | inr c ↦ inr (inr (inl c))
      | inl c ↦ inr (inr (inr (ground (arith, a, b, c, h))))
    ]
  ]
]

-- What holds of all candidates in order holds of all releases that fit.
module _ (P : Sortable → Type 0) where
  place-back : (c : Sortable) (cs : List Sortable) → All P (place c cs) → P c × All P cs
  unfolding place
  place-back c [] h = h
  place-back c (d ∷ ds) h = elim (Bool-cases (is_less (compare_parsed c.parsed d.parsed))) [
    | inl e ↦ let (k, ks) = rw (e, place) at h in let (hc, hs) = place-back c ds ks in (hc, (k, hs))
    | inr e ↦ rw (e, place) at h
  ]

  sort-back : (cs : List Sortable) → All P (sort cs) → All P cs
  unfolding sort
  sort-back [] h = tt
  sort-back (c ∷ cs) h = let (hc, hs) = place-back c (sort cs) h in (hc, sort-back cs hs)

  Judged : ResolveRequest → List RevocationEntry → ResolverIndexRelease → Type 0
  Judged q es r =
      IsUnfit q es r
      ⊎ (parse_version r.version ≡ none)
      ⊎ ((v : ParsedVersion) × (parse_version r.version ≡ some v)
          × P (record { release = r; parsed = v }))

  matching-back :
      (q : ResolveRequest) (es : List RevocationEntry) (rs : List ResolverIndexRelease)
      → All P (matching q es rs)
      → All (Judged q es) rs
  unfolding matching Judged
  matching-back q es [] h = tt
  matching-back q es (r ∷ rs) h = elim (Option-cases (parse_version r.version)) [
    | inl n ↦ (inr (inl n), matching-back q es rs (rw (n, matching) at h))
    | inr (v, n) ↦ elim (Bool-cases (eligible q es r)) [
      | inr e ↦ (inl (eligible-IsUnfit q es r e), matching-back q es rs (rw (n, e, matching) at h))
      | inl e ↦
          let (k, ks) = rw (n, e, matching) at h in (inr (inr (v, n, k)), matching-back q es rs ks)
    ]
  ]

  All-append : (xs ys : List Sortable) → All P xs → All P ys → All P (xs ++ ys)
  All-append [] ys h k = k
  All-append (x ∷ xs) ys (h, hs) k = (h, All-append xs ys hs k)

All-weaken :
    {A : Type 0} (P Q : A → Type 0) (xs : List A) → ((x : A) → P x → Q x) → All P xs → All Q xs
All-weaken P Q [] f h = tt
All-weaken P Q (x ∷ xs) f (h, hs) = (f x h, All-weaken P Q xs f hs)

module _ {W : Type 0} (codec : Codec) (downloads : Downloads W) (expires_in : ℕ) where
  -- The download service refused the release as unpublished.
  pub WasRefused : ResolverIndexRelease → Type 0
  WasRefused r =
      (w : W) × (((dependency_call (downloads.create_download r.version r.artifact expires_in) w).0
          ≡ threw not_found)
        ⊎ ((dependency_call (downloads.create_download r.version r.artifact expires_in) w).0
            ≡ threw validation))

  -- Why a release of the index is not the one to offer, beside one of this version.
  pub IsSettled :
      ResolveRequest → List RevocationEntry → ParsedVersion → ResolverIndexRelease → Type 0
  IsSettled q es top r =
      IsUnfit q es r
      ⊎ (parse_version r.version ≡ none)
      ⊎ WasRefused r
      ⊎ ((v : ParsedVersion) × (parse_version r.version ≡ some v) × IsUpTo v top)

  pub record IsOffer (q : ResolveRequest) (es : List RevocationEntry)
      (rs : List ResolverIndexRelease) (found : Candidate) : Type 0 where
    pub chosen : ResolverIndexRelease
    pub version : ParsedVersion
    pub url : String
    pub world : W
    pub before : List ResolverIndexRelease
    pub later : List ResolverIndexRelease
    pub listed : rs ≡ before ++ chosen ∷ later
    pub fit : IsFit q es chosen
    pub parsed : parse_version chosen.version ≡ some version
    pub published :
        (dependency_call
          (downloads.create_download chosen.version chosen.artifact expires_in)
          world).0
        ≡ got url
    pub answer : found ≡ candidate_of chosen url
    pub highest : All (IsSettled q es version) rs

  Beside : ParsedVersion → Sortable → Type 0
  Beside top c = WasRefused c.release ⊎ IsUpTo c.parsed top

  skipped-Beside :
      (top : ParsedVersion) (cs : List Sortable) (w w' : W)
      → AreRefused codec downloads expires_in cs w w'
      → All (Beside top) cs
  unfolding AreRefused Beside WasRefused asked
  skipped-Beside top [] w w' h = tt
  skipped-Beside top (c ∷ cs) w w' (h, hs) = (inl (w, h), skipped-Beside top cs _ w' hs)

  up : (v : ParsedVersion) → IsUpTo v v
  unfolding IsUpTo
  up v = inr (refl, inr (refl, omega arith))

  rest-Beside : (c : Sortable) (ds : List Sortable) → All (IsAbove c) ds → All (Beside c.parsed) ds
  unfolding Beside
  rest-Beside c [] h = tt
  rest-Beside c (d ∷ ds) (h, hs) =
      (inr (compare-IsUpTo d.parsed c.parsed h.holds), rest-Beside c ds hs)

  IsSettled-judge :
      (q : ResolveRequest) (es : List RevocationEntry) (top : ParsedVersion)
      (r : ResolverIndexRelease)
      → Judged (Beside top) q es r
      → IsSettled q es top r
  unfolding Judged IsSettled Beside
  IsSettled-judge q es top r (inl u) = inl u
  IsSettled-judge q es top r (inr (inl n)) = inr (inl n)
  IsSettled-judge q es top r (inr (inr (v, n, inl k))) = inr (inr (inl k))
  IsSettled-judge q es top r (inr (inr (v, n, inr k))) = inr (inr (inr (v, n, k)))

  -- Where the index and the revocation policy were read, a release that is offered is one of the index;
  -- it is of the platform, the architecture and the range that are asked for, no entry of the policy
  -- revokes it, and the download service gave its URL. Every release of the index is unfit for the
  -- request, has no version, was refused by the download service, or is not above the offered one.
  pub resolve_picks_the_highest :
      (q : ResolveRequest) (w : W) (rs : List ResolverIndexRelease) (es : List RevocationEntry)
      (found : Candidate)
      → (read_index codec downloads expires_in w).0 ≡ got rs
      → (read_revocations codec downloads expires_in (read_index codec downloads expires_in w).1).0
        ≡ got es
      → (resolve codec downloads expires_in q w).0 ≡ got found
      → IsOffer q es rs found
  unfolding asked Beside
  resolve_picks_the_highest q w rs es found i r e =
      let (f, k, above) = resolve-IsFirst codec downloads expires_in q w rs es found i r e in
      record {
        chosen = f.chosen.release;
        version = f.chosen.parsed;
        url = f.url;
        world = f.then_world;
        before = k.before;
        later = k.later;
        listed = k.listed;
        fit = eligible-IsFit q es f.chosen.release k.fits;
        parsed = k.version;
        published = f.published;
        answer = f.answer;
        highest =
            All-weaken (Judged (Beside f.chosen.parsed) q es) (IsSettled q es f.chosen.parsed) rs
              (IsSettled-judge q es f.chosen.parsed)
              (matching-back (Beside f.chosen.parsed) q es rs (
                sort-back (Beside f.chosen.parsed) (matching q es rs) (
                  subst (All (Beside f.chosen.parsed)) (sym f.order) (
                    All-append (Beside f.chosen.parsed) f.skipped (f.chosen ∷ f.rest)
                      (skipped-Beside f.chosen.parsed f.skipped _ _ f.refused)
                      (inr (up f.chosen.parsed), rest-Beside f.chosen f.rest above)))));
      }
