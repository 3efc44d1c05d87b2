-- ===== src/Prelude/Entries.antt =====
-- What holds of every entry of a map.
use Prim.Native.String.{String}
use mathlib.Core.Path.{◌≡◌, subst}
use mathlib.Core.Logic.{inl, inr}
use mathlib.Core.Option.{some}
use mathlib.Core.List.{[], ◌∷◌}
use native.Mathlib.Omega.{arith}
use text.Mathlib.Text.{◌==◌}
use text.Mathlib.TextEquality.{eq_iff}
use vdt_provisioning_service.Prelude.Tests.{Bool-cases}
use vdt_provisioning_service.Prelude.Lists.{All}
use vdt_provisioning_service.Prelude.Map
use vdt_provisioning_service.Prelude.Map.{Map}

module _ {V : Type 0} (P : String × V → Type 0) where
  pub All-set : (m : Map V) (k : String) (x : V) → P (k, x) → All P m → All P (Map.set m k x)
  unfolding Map.set
  All-set [] k x h hs = (h, tt)
  All-set ((j, w) ∷ m) k x h (hj, hs) = elim (Bool-cases (j == k)) [
    | inl e ↦ rw (e, Map.set) (subst (λ y. P (y, x)) (ground (arith, eq_iff j k)) h, hs)
    | inr e ↦ rw (e, Map.set) (hj, All-set m k x h hs)
  ]

  pub All-delete : (m : Map V) (k : String) → All P m → All P (Map.delete m k)
  unfolding Map.delete
  All-delete [] k h = tt
  All-delete ((j, w) ∷ m) k (h, hs) = elim (Bool-cases (j == k)) [
    | inl e ↦ rw (e, Map.delete) (All-delete m k hs)
    | inr e ↦ rw (e, Map.delete) (h, All-delete m k hs)
  ]

module _ {V : Type 0} (P : V → Type 0) where
  pub All-get : (m : Map V) (k : String) (x : V) → All (λ e. P e.1) m → Map.get m k ≡ some x → P x
  unfolding Map.get
  All-get [] k x h q = cc
  All-get ((j, w) ∷ m) k x (h, hs) q = elim (Bool-cases (j == k)) [
    | inl e ↦ subst P (ground arith) h
    | inr e ↦ All-get m k x hs (rw (e, Map.get) at q)
  ]

  pub All-values : (m : Map V) → All (λ e. P e.1) m → All P (Map.values m)
  All-values [] h = tt
  All-values ((k, x) ∷ m) (h, hs) = (h, All-values m hs)
