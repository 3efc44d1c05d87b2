-- ===== src/Browser/Player/Tasks.antt =====
-- drone-fleet-manager/public/js/video: the tasks that are under way.
use vdt_provisioning_service.Prelude.{
  ℕ, ◌+◌, String, ◌≡◌, inl, inr, refl, sym, ap, ◌∙◌, true, Option, some, List, [], ◌∷◌, All, eqb,
  eq_iff, arith, Bool-cases, either,
}
use vdt_provisioning_service.Browser.Player.{
  Task, handshake, stream_info, probe, is_begun, same_task, finish,
}

-- A connection, a player or a task is for the drone.
abbrev pub IsFor : Option String → Task → Type 0
IsFor o (handshake n d) = o ≡ some d
IsFor o (stream_info d) = o ≡ some d
IsFor o (probe n) = Unit

-- The tasks that can come to show a video.
abbrev pub weight : Task → ℕ
weight (handshake n d) = 1
weight (stream_info d) = 1
weight (probe n) = 0

abbrev pub work : List Task → ℕ
work [] = 0
work (t ∷ ts) = weight t + work ts

same-IsFor : (o : Option String) (t u : Task) → same_task t u ≡ true → IsFor o u → IsFor o t
same-IsFor o (handshake n d) (handshake m e) q h = elim (Bool-cases (eqb n m)) [
  | inl a ↦ h ∙ ap (λ x. some x) (sym ((eq_iff d e).0 (rw a at q)))
  | inr a ↦ cc (rw a at q)
]
same-IsFor o (stream_info d) (stream_info e) q h = h ∙ ap (λ x. some x) (sym ((eq_iff d e).0 q))
same-IsFor o (probe n) u q h = tt
same-IsFor o (handshake n d) (stream_info e) q h = cc
same-IsFor o (handshake n d) (probe m) q h = cc
same-IsFor o (stream_info d) (handshake m e) q h = cc
same-IsFor o (stream_info d) (probe m) q h = cc

same-weight : (t u : Task) → same_task t u ≡ true → weight t ≡ weight u
same-weight (handshake n d) (handshake m e) q = refl
same-weight (stream_info d) (stream_info e) q = refl
same-weight (probe n) (probe m) q = refl
same-weight (handshake n d) (stream_info e) q = refl
same-weight (stream_info d) (handshake m e) q = refl
same-weight (handshake n d) (probe m) q = cc
same-weight (stream_info d) (probe m) q = cc
same-weight (probe n) (handshake m e) q = cc
same-weight (probe n) (stream_info e) q = cc

pub begun-IsFor :
    (o : Option String) (t : Task) (ts : List Task)
    → is_begun t ts ≡ true
    → All (IsFor o) ts
    → IsFor o t
begun-IsFor o t [] q h = cc
begun-IsFor o t (u ∷ ts) q (h, hs) = elim (Bool-cases (same_task t u)) [
  | inl e ↦ same-IsFor o t u e h
  | inr e ↦ begun-IsFor o t ts (rw e at q) hs
]

pub finish-IsFor :
    (o : Option String) (t : Task) (ts : List Task) → All (IsFor o) ts → All (IsFor o) (finish t ts)
finish-IsFor o t [] h = tt
finish-IsFor o t (u ∷ ts) (h, hs) =
    either (All (IsFor o)) (same_task t u) hs (h, finish-IsFor o t ts hs)

pub work-finish :
    (t : Task) (ts : List Task) → is_begun t ts ≡ true → work (finish t ts) + weight t ≡ work ts
work-finish t [] q = cc
work-finish t (u ∷ ts) q = elim (Bool-cases (same_task t u)) [
  | inl e ↦ rw e (omega (arith, same-weight t u e))
  | inr e ↦ rw e (omega (arith, work-finish t ts (rw e at q)))
]
