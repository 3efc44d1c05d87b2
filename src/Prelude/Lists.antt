-- ===== src/Prelude/Lists.antt =====
-- Lists measured by native numbers, tests over lists, and membership as a sum of equations.
use Prim.Native.Nat.{ℕ, suc, ◌≤◌}
use Prim.Native.String.{String}
use mathlib.Core.Path.{◌≡◌, refl}
use mathlib.Core.Logic.{◌⊎◌, inl, inr}
use mathlib.Core.Bool.{Bool, true, false}
use mathlib.Core.Option.{Option, none, some}
use mathlib.Core.List.{List, [], ◌∷◌, ◌++◌, map}
use native.Mathlib.Omega.{arith}
use text.Mathlib.Text.{◌==◌}
use text.Mathlib.TextEquality.{eq_iff}
use vdt_provisioning_service.Prelude.Tests.{if◌then◌else◌, Bool-cases}

module _ {A : Type 0} where
  abbrev pub length : List A → ℕ
  length [] = 0
  length (x ∷ xs) = suc (length xs)

  -- `xs.filter(p)`
  abbrev pub keep : (A → Bool) → List A → List A
  keep p [] = []
  keep p (x ∷ xs) = if p x then x ∷ keep p xs else keep p xs

  -- `xs.find(p)`
  abbrev pub first : (A → Bool) → List A → Option A
  first p [] = none
  first p (x ∷ xs) = if p x then some x else first p xs

  abbrev pub All {κ} : (A → Type κ) → List A → Type κ
  All P [] = Unit
  All P (x ∷ xs) = P x × All P xs

  abbrev pub Elem : A → List A → Type 0
  Elem a [] = ⊥
  Elem a (x ∷ xs) = (a ≡ x) ⊎ Elem a xs

  pub All-Elem {κ} : (P : A → Type κ) (xs : List A) (a : A) → All P xs → Elem a xs → P a
  All-Elem P [] a h m = elim m [ ]
  All-Elem P (x ∷ xs) a h (inl e) = rw e h.0
  All-Elem P (x ∷ xs) a h (inr m) = All-Elem P xs a h.1 m

  pub All-of {κ} : (P : A → Type κ) (xs : List A) → ((a : A) → Elem a xs → P a) → All P xs
  All-of P [] h = tt
  All-of P (x ∷ xs) h = (h x (inl refl), All-of P xs (λ a m. h a (inr m)))

  pub All-keep : (p : A → Bool) (xs : List A) → All (λ x. p x ≡ true) (keep p xs)
  All-keep p [] = tt
  All-keep p (x ∷ xs) = elim (Bool-cases (p x)) [
    | inl e ↦ rw (e, keep) (e, All-keep p xs)
    | inr e ↦ rw (e, keep) (All-keep p xs)
  ]

  pub Elem-keep : (p : A → Bool) (xs : List A) (a : A) → Elem a xs → p a ≡ true → Elem a (keep p xs)
  Elem-keep p [] a m h = m
  Elem-keep p (x ∷ xs) a (inl e) h = let hx : p x ≡ true = rw (← e) h in rw (hx, keep) (inl e)
  Elem-keep p (x ∷ xs) a (inr m) h = elim (Bool-cases (p x)) [
    | inl e ↦ rw (e, keep) (inr (Elem-keep p xs a m h))
    | inr e ↦ rw (e, keep) (Elem-keep p xs a m h)
  ]

  pub length-keep-le : (p : A → Bool) (xs : List A) → length (keep p xs) ≤ length xs
  length-keep-le p [] = omega arith
  length-keep-le p (x ∷ xs) = ground (arith, length-keep-le p xs)

  pub first-keep :
      (p : A → Bool) (xs : List A) (a : A) → first p xs ≡ some a → Elem a xs × (p a ≡ true)
  first-keep p [] a h = cc
  first-keep p (x ∷ xs) a h = elim (Bool-cases (p x)) [
    | inl e ↦ (inl (ground arith), ground arith)
    | inr e ↦ let (m, t) = first-keep p xs a (rw (e, first) at h) in (inr m, t)
  ]

-- Membership of a text, as `Set.has` and `Array.includes` test it.
abbrev pub contains : List String → String → Bool
contains [] s = false
contains (x ∷ xs) s = if x == s then true else contains xs s

-- `Set.add`
abbrev pub add : List String → String → List String
add xs s = if contains xs s then xs else xs ++ s ∷ []

-- `Set.delete`
abbrev pub discard : List String → String → List String
discard [] s = []
discard (x ∷ xs) s = let rest = discard xs s in if x == s then rest else x ∷ rest

pub contains-append :
    (xs ys : List String) (s : String)
    → contains (xs ++ ys) s ≡ (if contains xs s then true else contains ys s)
contains-append [] ys s = refl
contains-append (x ∷ xs) ys s = ground (arith, contains-append xs ys s)

pub contains-add :
    (xs : List String) (s t : String)
    → contains (add xs s) t ≡ (if s == t then true else contains xs t)
contains-add xs s t = ground (arith, contains-append xs (s ∷ []) t, eq_iff s t)

pub contains-discard :
    (xs : List String) (s t : String)
    → contains (discard xs s) t ≡ (if s == t then false else contains xs t)
contains-discard [] s t = ground arith
contains-discard (x ∷ xs) s t =
    ground (arith, contains-discard xs s t, eq_iff x s, eq_iff x t, eq_iff s t)

pub Elem-of_contains : (xs : List String) (s : String) → contains xs s ≡ true → Elem s xs
Elem-of_contains [] s h = cc
Elem-of_contains (x ∷ xs) s h = elim (Bool-cases (x == s)) [
  | inl e ↦ inl (ground (arith, eq_iff x s))
  | inr e ↦ inr (Elem-of_contains xs s (rw (e, contains) at h))
]

pub contains-of_Elem : (xs : List String) (s : String) → Elem s xs → contains xs s ≡ true
contains-of_Elem [] s m = elim m [ ]
contains-of_Elem (x ∷ xs) s (inl e) = ground (arith, eq_iff x s)
contains-of_Elem (x ∷ xs) s (inr m) = ground (arith, contains-of_Elem xs s m)

pub Elem-of_keep :
    {A : Type 0} (p : A → Bool) (xs : List A) (a : A)
    → Elem a (keep p xs)
    → Elem a xs × (p a ≡ true)
Elem-of_keep p [] a m = elim m [ ]
Elem-of_keep p (x ∷ xs) a m = elim (Bool-cases (p x)) [
  | inl e ↦ later (Elem-of_keep p xs a) (rw (e, keep) at m) e
  | inr e ↦ let (n, h) = Elem-of_keep p xs a (rw (e, keep) at m) in (inr n, h)
]
  where
    later :
        (Elem a (keep p xs) → Elem a xs × (p a ≡ true))
        → (a ≡ x) ⊎ Elem a (keep p xs)
        → p x ≡ true
        → ((a ≡ x) ⊎ Elem a xs) × (p a ≡ true)
    later ih (inl e) h = (inl e, rw e h)
    later ih (inr n) h = let (k, t) = ih n in (inr k, t)

pub Elem-append : {A : Type 0} (xs ys : List A) (a : A) → Elem a (xs ++ ys) → Elem a xs ⊎ Elem a ys
Elem-append [] ys a m = inr m
Elem-append (x ∷ xs) ys a (inl e) = inl (inl e)
Elem-append (x ∷ xs) ys a (inr m) = elim (Elem-append xs ys a m) [
  | inl n ↦ inl (inr n)
  | inr n ↦ inr n
]

pub Elem-map :
    {A B : Type 0} (f : A → B) (xs : List A) (b : B)
    → Elem b (map f xs)
    → (a : A) × Elem a xs × (b ≡ f a)
Elem-map f [] b m = elim m [ ]
Elem-map f (x ∷ xs) b (inl e) = (x, inl refl, e)
Elem-map f (x ∷ xs) b (inr m) = let (a, n, e) = Elem-map f xs b m in (a, inr n, e)
