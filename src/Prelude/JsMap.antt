-- ===== src/Prelude/JsMap.antt =====
-- The built-in `Map` of the source, as an association list in insertion order. `set` on a key that
-- is there keeps its place, as the language prescribes.
use backend_sketch.Prelude.Tests.{Eq, ◌==◌, if◌then◌else◌}
use mathlib.Core.Path.{◌≡◌, refl}
use mathlib.Core.List.{List, [], ◌∷◌}
use mathlib.Core.Option.{Option, none, some}
use native.Mathlib.Omega.{arith}

abbrev pub JsMap {ℓ κ} : Type ℓ → Type κ → Type (ℓ ⊔ κ)
JsMap K V = List (K × V)

module _ {ℓ κ} {K : Type ℓ} {V : Type κ} ⦃e : Eq K⦄ where
  unfoldable pub get : K → JsMap K V → Option V
  get k [] = none
  get k ((j, v) ∷ m) = if j == k then some v else get k m

  unfoldable pub set : K → V → JsMap K V → JsMap K V
  set k v [] = (k, v) ∷ []
  set k v ((j, w) ∷ m) = if j == k then (j, v) ∷ m else (j, w) ∷ set k v m

  unfoldable pub delete : K → JsMap K V → JsMap K V
  delete k [] = []
  delete k ((j, w) ∷ m) = let rest = delete k m in if j == k then rest else (j, w) ∷ rest

  pub get-set :
      (k j : K) (v : V) (m : JsMap K V) → get j (set k v m) ≡ (if k == j then some v else get j m)
  unfolding get set
  get-set k j v [] = refl
  get-set k j v ((i, w) ∷ m) = ground (arith, get-set k j v m)

  pub get-delete :
      (k j : K) (m : JsMap K V) → get j (delete k m) ≡ (if k == j then none else get j m)
  unfolding get delete
  get-delete k j [] = ground arith
  get-delete k j ((i, w) ∷ m) = ground (arith, get-delete k j m)

  -- No key stands twice, as in every value that the operations build.
  abbrev pub Distinct : JsMap K V → Type (ℓ ⊔ κ)
  Distinct [] = Unit
  Distinct ((k, v) ∷ m) = (get k m ≡ none) × Distinct m

  pub set-Distinct : (k : K) (v : V) (m : JsMap K V) → Distinct m → Distinct (set k v m)
  unfolding get set
  set-Distinct k v [] d = (refl, tt)
  set-Distinct k v ((j, w) ∷ m) d = ground (arith, set-Distinct k v m d.1, get-set k j v m)

  pub delete-Distinct : (k : K) (m : JsMap K V) → Distinct m → Distinct (delete k m)
  unfolding get delete
  delete-Distinct k [] d = tt
  delete-Distinct k ((j, w) ∷ m) d = ground (arith, delete-Distinct k m d.1, get-delete k j m)

module _ {ℓ κ} {K : Type ℓ} {V : Type κ} ⦃e : Eq K⦄ (f : V → V) where
  -- The map with its values changed.
  abbrev pub map_values : JsMap K V → JsMap K V
  map_values [] = []
  map_values ((k, v) ∷ m) = (k, f v) ∷ map_values m

  pub set-map_values :
      (k : K) (v : V) (m : JsMap K V) → set k (f v) (map_values m) ≡ map_values (set k v m)
  unfolding set
  set-map_values k v [] = refl
  set-map_values k v ((j, w) ∷ m) = ground (arith, set-map_values k v m)

  pub get-map_values-some :
      (k : K) (v : V) (m : JsMap K V) → get k m ≡ some v → get k (map_values m) ≡ some (f v)
  unfolding get
  get-map_values-some k v [] h = cc
  get-map_values-some k v ((j, w) ∷ m) h = ground (arith, get-map_values-some k v m)

  pub get-map_values-none : (k : K) (m : JsMap K V) → get k m ≡ none → get k (map_values m) ≡ none
  unfolding get
  get-map_values-none k [] h = refl
  get-map_values-none k ((j, w) ∷ m) h = ground (arith, get-map_values-none k m)
