-- ===== src/Prelude/Map.antt =====
-- A JavaScript `Map` with string keys: entries in order of insertion, a write to a key that is
-- there keeps its place.
use Prim.Native.String.{String}
use mathlib.Core.Path.{◌≡◌, refl, ◌∙◌}
use mathlib.Core.Logic.{inl, inr}
use mathlib.Core.Bool.{Bool, true, false}
use mathlib.Core.Option.{Option, none, some}
use mathlib.Core.List.{List, [], ◌∷◌}
use native.Mathlib.Omega.{arith}
use text.Mathlib.Text.{◌==◌}
use text.Mathlib.TextEquality.{eq_iff}
use vdt_provisioning_service.Prelude.Tests.{if◌then◌else◌, Bool-cases}

abbrev pub Map {ℓ} : Type ℓ → Type ℓ
Map V = List (String × V)

module _ {ℓ} {V : Type ℓ} where
  -- `m.get(k)`, with `none` for undefined
  unfoldable pub get : Map V → String → Option V
  get [] k = none
  get ((j, v) ∷ m) k = if j == k then some v else get m k

  -- `m.set(k, v)`
  unfoldable pub set : Map V → String → V → Map V
  set [] k v = (k, v) ∷ []
  set ((j, w) ∷ m) k v = let rest = set m k v in if j == k then (j, v) ∷ m else (j, w) ∷ rest

  -- `m.delete(k)`
  unfoldable pub delete : Map V → String → Map V
  delete [] k = []
  delete ((j, v) ∷ m) k = let rest = delete m k in if j == k then rest else (j, v) ∷ rest

  abbrev pub keys : Map V → List String
  keys [] = []
  keys ((k, v) ∷ m) = k ∷ keys m

  abbrev pub values : Map V → List V
  values [] = []
  values ((k, v) ∷ m) = v ∷ values m

  -- `m.has(k)`
  abbrev pub is_there : Option V → Bool
  is_there none = false
  is_there (some v) = true

  abbrev pub has : Map V → String → Bool
  has m k = is_there (get m k)

  pub get-set :
      (m : Map V) (k j : String) (v : V) → get (set m k v) j ≡ (if k == j then some v else get m j)
  unfolding get set
  get-set [] k j v = refl
  get-set ((i, w) ∷ m) k j v = ground (arith, get-set m k j v, eq_iff i k, eq_iff i j, eq_iff k j)

  pub get-delete :
      (m : Map V) (k j : String) → get (delete m k) j ≡ (if k == j then none else get m j)
  unfolding get delete
  get-delete [] k j = ground arith
  get-delete ((i, w) ∷ m) k j = ground (arith, get-delete m k j, eq_iff i k, eq_iff i j, eq_iff k j)

  -- No key stands twice.
  abbrev pub IsDistinct : Map V → Type ℓ
  IsDistinct [] = Unit
  IsDistinct ((k, v) ∷ m) = (get m k ≡ none) × IsDistinct m

  pub set-IsDistinct : (m : Map V) (k : String) (v : V) → IsDistinct m → IsDistinct (set m k v)
  unfolding get set
  set-IsDistinct [] k v h = (refl, tt)
  set-IsDistinct ((j, w) ∷ m) k v h = elim (Bool-cases (j == k)) [
    | inl e ↦ rw (e, set) h
    | inr e ↦
        rw (e, set)
          (get-set m k j v ∙ ground (arith, eq_iff k j, eq_iff j k, h.0), set-IsDistinct m k v h.1)
  ]

  pub delete-IsDistinct : (m : Map V) (k : String) → IsDistinct m → IsDistinct (delete m k)
  unfolding get delete
  delete-IsDistinct [] k h = tt
  delete-IsDistinct ((j, w) ∷ m) k h = elim (Bool-cases (j == k)) [
    | inl e ↦ rw (e, delete) (delete-IsDistinct m k h.1)
    | inr e ↦
        rw (e, delete)
          (
            get-delete m k j ∙ ground (arith, eq_iff k j, eq_iff j k, h.0),
            delete-IsDistinct m k h.1,
          )
  ]

pub ruleset map_laws = (get-set, get-delete)
