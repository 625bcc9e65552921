-- ===== src/Map.antt =====
-- Go's maps with text keys: the entries, each key once. `range` visits the keys in an order that
-- the environment chooses.
pub mod Laws
use terraform_provider_postg.Base.{List, Option, String, [], if◌then◌else◌, none, some, ◌==◌, ◌∷◌}
use terraform_provider_postg.Effect.{Env, Log}

abbrev pub Map {ℓ} : Type ℓ → Type ℓ
Map V = List (String × V)

module _ {ℓ} {V : Type ℓ} where
  unfoldable pub get : String → Map V → Option V
  get key [] = none
  get key ((k, v) ∷ entries) = if k == key then some v else get key entries

  unfoldable pub remove : String → Map V → Map V
  remove key [] = []
  remove key ((k, v) ∷ entries) =
      if k == key then remove key entries else (k, v) ∷ remove key entries

  -- m[key] = v
  unfoldable pub put : String → V → Map V → Map V
  unfolding remove
  put key v entries = (key, v) ∷ remove key entries

  unfoldable pub keys : Map V → List String
  keys [] = []
  keys ((k, v) ∷ entries) = k ∷ keys entries

  -- the values at the given keys
  unfoldable pub values_at : List String → Map V → List V
  unfolding get
  values_at [] m = []
  values_at (k ∷ ks) m = elim (get k m) [ none ↦ values_at ks m | some v ↦ v ∷ values_at ks m ]

  -- `for _, v := range m`
  unfoldable pub range : Env → Log → Map V → List V
  unfolding values_at keys
  range env log m = values_at (env.map_order log (keys m)) m
