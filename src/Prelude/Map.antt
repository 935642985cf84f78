-- ===== src/Prelude/Map.antt =====
-- A JavaScript `Map` with string keys: an association list in insertion order.
-- `set` of a key that is there replaces its value in place, as `Map.prototype.set` does.
use Prim.Native.Nat.{ℕ, ◌+◌, ◌≤◌}
use Prim.Native.String.{String}
use mathlib.Core.Path.{◌≡◌, refl}
use mathlib.Core.Bool.{Bool, false, not, ◌&&◌, ◌||◌}
use mathlib.Core.List.{List, [], ◌∷◌}
use mathlib.Core.Option.{Option, none, some}
use native.Mathlib.Omega.{arith}
use text.Mathlib.Text.{◌==◌}
use text.Mathlib.TextEquality.{eq_iff}
use text.Mathlib.TextPositions.{eq_refl}
use kazibee_home.Prelude.Tests.{if◌then◌else◌, is_some}
use kazibee_home.Prelude.Lists.{length}

abbrev pub Map {ℓ} : Type ℓ → Type ℓ
Map V = List (String × V)

module _ {ℓ} {V : Type ℓ} where
  unfoldable pub get : String → Map V → Option V
  get k [] = none
  get k ((j, v) ∷ m) = if j == k then some v else get k m

  unfoldable pub set : String → V → Map V → Map V
  set k v [] = (k, v) ∷ []
  set k v ((j, w) ∷ m) = if j == k then (j, v) ∷ m else (j, w) ∷ set k v m

  unfoldable pub delete : String → Map V → Map V
  delete k [] = []
  delete k ((j, w) ∷ m) = let rest = delete k m in if j == k then rest else (j, w) ∷ rest

  abbrev pub has : String → Map V → Bool
  has k m = is_some (get k m)

  abbrev pub size : Map V → ℕ
  size m = length m

  abbrev pub values : Map V → List V
  values [] = []
  values ((k, v) ∷ m) = v ∷ values m

  pub get-set :
      (k j : String) (v : V) (m : Map V) → get j (set k v m) ≡ (if k == j then some v else get j m)
  unfolding get set
  get-set k j v [] = refl
  get-set k j v ((i, w) ∷ m) = ground (arith, eq_iff k j, eq_iff i k, eq_iff i j, get-set k j v m)

  pub get-set_same : (k : String) (v : V) (m : Map V) → get k (set k v m) ≡ some v
  get-set_same k v m = rw (get-set k k v m, eq_refl k) refl

  pub get-delete :
      (k j : String) (m : Map V) → get j (delete k m) ≡ (if k == j then none else get j m)
  unfolding get delete
  get-delete k j [] = ground arith
  get-delete k j ((i, w) ∷ m) = ground (arith, eq_iff k j, eq_iff i k, eq_iff i j, get-delete k j m)

  pub get-delete_same : (k : String) (m : Map V) → get k (delete k m) ≡ none
  get-delete_same k m = rw (get-delete k k m, eq_refl k) refl

  pub size-delete-le : (k : String) (m : Map V) → size (delete k m) ≤ size m
  unfolding delete
  size-delete-le k [] = omega arith
  size-delete-le k ((i, w) ∷ m) = ground (arith, size-delete-le k m)

  pub size-set-le : (k : String) (v : V) (m : Map V) → size (set k v m) ≤ size m + 1
  unfolding set
  size-set-le k v [] = omega arith
  size-set-le k v ((i, w) ∷ m) = ground (arith, size-set-le k v m)

  -- No key stands twice, as in every JavaScript `Map`.
  abbrev pub IsUnique : Map V → Type 0
  IsUnique [] = Unit {0}
  IsUnique ((k, v) ∷ m) = (has k m ≡ false) × IsUnique m

  pub has-set : (k j : String) (v : V) (m : Map V) → has j (set k v m) ≡ (k == j || has j m)
  has-set k j v m = rw (get-set k j v m) (ground arith)

  pub has-delete : (k j : String) (m : Map V) → has j (delete k m) ≡ (not (k == j) && has j m)
  has-delete k j m = rw (get-delete k j m) (ground arith)

  pub set-IsUnique : (k : String) (v : V) (m : Map V) → IsUnique m → IsUnique (set k v m)
  unfolding set get
  set-IsUnique k v [] h = (refl, tt)
  set-IsUnique k v ((i, w) ∷ m) h =
      ground (arith, eq_iff i k, eq_iff k i, set-IsUnique k v m h.1, has-set k i v m)

  pub delete-IsUnique : (k : String) (m : Map V) → IsUnique m → IsUnique (delete k m)
  unfolding delete get
  delete-IsUnique k [] h = tt
  delete-IsUnique k ((i, w) ∷ m) h =
      ground (arith, eq_iff i k, eq_iff k i, delete-IsUnique k m h.1, has-delete k i m)

  pub size-set_old :
      (k : String) (w v : V) (m : Map V) → get k m ≡ some w → size (set k v m) ≡ size m
  unfolding set get
  size-set_old k w v [] e = cc
  size-set_old k w v ((i, u) ∷ m) e = ground (arith, size-set_old k w v m)
