-- ===== src/Prelude/Effect.antt =====
-- Actions that change a state and may throw: what was written before a throw stays written.
use mathlib.Core.Path.{◌≡◌, refl, sym, ap, ◌∙◌, subst}
use mathlib.Core.Logic.{◌⊎◌, inl, inr}

-- The exceptions of the program: Nest's HTTP exceptions by name, and `fault` for any other error.
pub data Failure : Type 0 where
  unauthorized conflict internal not_found bad_request forbidden fault : Failure

pub data Result (A : Type 0) : Type 0 where
  ok : A → Result A
  err : Failure → Result A

abbrev pub Act : Type 0 → Type 0 → Type 0
Act S A = S → Result A × S

module _ {S A : Type 0} where
  abbrev pub pure : A → Act S A
  pure a s = (ok a, s)

  abbrev pub throw : Failure → Act S A
  throw e s = (err e, s)

module _ {S A B : Type 0} where
  abbrev pub resume : (A → Act S B) → Result A → Act S B
  resume f (ok a) s = f a s
  resume f (err e) s = (err e, s)

  infixl 10 ◌>>=◌ ◌>>◌
  abbrev pub ◌>>=◌ : Act S A → (A → Act S B) → Act S B
  ◌>>=◌ m f s = resume f (m s).0 (m s).1

  abbrev pub ◌>>◌ : Act S A → Act S B → Act S B
  ◌>>◌ m n s = resume (λ _. n) (m s).0 (m s).1

module _ {S A : Type 0} where
  -- `try { m } catch { h }`
  abbrev pub handle : (Failure → Act S A) → Result A → Act S A
  handle h (ok a) s = (ok a, s)
  handle h (err e) s = h e s

  abbrev pub catch : Act S A → (Failure → Act S A) → Act S A
  catch m h s = handle h (m s).0 (m s).1

pub Result-cases :
    {A : Type 0} (r : Result A) → ((a : A) × (r ≡ ok a)) ⊎ ((e : Failure) × (r ≡ err e))
Result-cases (ok a) = inl (a, refl)
Result-cases (err e) = inr (e, refl)

pub ok-injective : {A : Type 0} {a b : A} → ok a ≡ ok b → a ≡ b
ok-injective h = cc

pub ok-ne-err : {A : Type 0} {a : A} {e : Failure} → ok a ≡ err e → ⊥
ok-ne-err h = cc

module _ {S A B : Type 0} (m : Act S A) (f : A → Act S B) (s : S) where
  -- A bind goes on from the state that the first action left, or stops there.
  pub bind-cases :
      ((a : A) × ((m s).0 ≡ ok a) × ((m >>= f) s ≡ f a (m s).1))
      ⊎ ((e : Failure) × ((m s).0 ≡ err e) × ((m >>= f) s ≡ (err e, (m s).1)))
  bind-cases = elim (Result-cases (m s).0) [
    | inl (a, q) ↦ inl (a, q, ap (λ r. resume f r (m s).1) q)
    | inr (e, q) ↦ inr (e, q, ap (λ r. resume f r (m s).1) q)
  ]

  pub bind-eq-ok :
      (b : B) → ((m >>= f) s).0 ≡ ok b → (a : A) × ((m s).0 ≡ ok a) × ((m >>= f) s ≡ f a (m s).1)
  bind-eq-ok b h = elim bind-cases [
    | inl done ↦ done
    | inr (e, q, stop) ↦ absurd (ok-ne-err (sym h ∙ ap (λ r. r.0) stop))
  ]

-- To prove `Q` of a bind, prove it of the rest after a return, and of the state after a throw.
pub bind_rule :
    {S A B : Type 0} (Q : Result B × S → Type 0) (m : Act S A) (f : A → Act S B) (s : S)
    → ((a : A) → (m s).0 ≡ ok a → Q (f a (m s).1))
    → ((e : Failure) → (m s).0 ≡ err e → Q (err e, (m s).1))
    → Q ((m >>= f) s)
bind_rule Q m f s good bad = elim (bind-cases m f s) [
  | inl (a, q, e) ↦ subst Q (sym e) (good a q)
  | inr (x, q, e) ↦ subst Q (sym e) (bad x q)
]

-- An action that leaves what `obs` reads of the state as it was.
abbrev pub Keeps : {S A X : Type 0} → (S → X) → Act S A → Type 0
Keeps {S = S} obs m = (s : S) → obs (m s).1 ≡ obs s

pub Keeps-bind :
    {S A B X : Type 0} (obs : S → X) (m : Act S A) (f : A → Act S B)
    → Keeps obs m
    → ((a : A) → Keeps obs (f a))
    → Keeps obs (m >>= f)
Keeps-bind obs m f hm hf s =
    bind_rule (λ r. obs r.1 ≡ obs s) m f s (λ a _. hf a (m s).1 ∙ hm s) (λ e _. hm s)

pub Keeps-catch :
    {S A X : Type 0} (obs : S → X) (m : Act S A) (h : Failure → Act S A)
    → Keeps obs m
    → ((e : Failure) → Keeps obs (h e))
    → Keeps obs (catch m h)
Keeps-catch obs m h hm hh s = elim (Result-cases (m s).0) [
  | inl (a, q) ↦ ap (λ r. obs (handle h r (m s).1).1) q ∙ hm s
  | inr (e, q) ↦ ap (λ r. obs (handle h r (m s).1).1) q ∙ hh e (m s).1 ∙ hm s
]
