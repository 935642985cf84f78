-- ===== src/Release/Policy.antt =====
-- The revocation policy is read whole or not at all.
use kazibee_home.Prelude.{◌≡◌, refl, Option, none, some, List, [], ◌∷◌, arith}
use kazibee_home.Json.{Items, nil, cons}
use kazibee_home.Release.Index.{RevocationEntry, revocation_entry, revocation_entries, join}

-- The entries are those of the policy, one for each item, in its order.
pub AreRead : Items → List RevocationEntry → Type 0
AreRead nil [] = Unit {0}
AreRead nil (e ∷ es) = ⊥
AreRead (cons v vs) [] = ⊥
AreRead (cons v vs) (e ∷ es) = (revocation_entry v ≡ some e) × AreRead vs es

join-cases :
    (o : Option RevocationEntry) (os : Option (List RevocationEntry)) (es : List RevocationEntry)
    → join o os ≡ some es
    → (e : RevocationEntry) × (rest : List RevocationEntry) × (o ≡ some e)
      × (os ≡ some rest)
      × (es ≡ e ∷ rest)
unfolding join
join-cases none os es h = cc
join-cases (some e) none es h = cc
join-cases (some e) (some rest) es h = (e, rest, refl, refl, ground (arith, h))

-- A policy that is accepted gives one entry for each of its items, in order: an item that fails to
-- parse is never passed over.
pub policy_keeps_every_entry :
    (vs : Items) (es : List RevocationEntry) → revocation_entries vs ≡ some es → AreRead vs es
unfolding revocation_entries AreRead join
policy_keeps_every_entry nil [] h = tt
policy_keeps_every_entry nil (e ∷ es) h = cc
policy_keeps_every_entry (cons v vs) es h =
    let (e, rest, one, more, whole) =
      join-cases (revocation_entry v) (revocation_entries vs) es h in
    rw (whole, AreRead) (one, policy_keeps_every_entry vs rest more)
