-- ===== src/Browser/Player/Faithful.antt =====
-- drone-fleet-manager/public/js/video: a page that shows only the active drone, and what the user and
-- the watchdog do to it when nothing is under way.
use vdt_provisioning_service.Prelude.{
  ℕ, ◌+◌, ◌≤◌, String, ◌≡◌, ◌⊎◌, inl, inr, refl, Bool, true, false, Option, none, some, List, [],
  ◌∷◌, ◌==◌, ◌||◌, All, map, arith, Bool-cases, length, either,
}
use vdt_provisioning_service.Browser.Player.{
  Player, Connection, Hls, is_number, shut, destroy, recovered, close_fpv_video_stream,
  start_fpv_video_stream,
}
use vdt_provisioning_service.Browser.Player.Tasks.{IsFor, work}
use vdt_provisioning_service.Browser.Player.Tidy.{IsTidy, IsKept}

-- Nothing is under way.
pub record IsSettled (p : Player) : Type 0 where
  pub tasks : p.tasks ≡ []
  pub timers : All (λ c. c.timer ≡ false) p.connections

abbrev pub IsShown : Option String → Connection → Type 0
IsShown o c = (c.is_open ≡ false) ⊎ (o ≡ some c.device_id)

abbrev pub IsOf : Option String → Hls → Type 0
IsOf o h = o ≡ some h.device_id

pub record IsFaithful (p : Player) : Type 0 where
  pub connections : All (IsShown p.active_fpv_drone_id) p.connections
  pub players : All (IsOf p.active_fpv_drone_id) p.players
  pub tasks : All (IsFor p.active_fpv_drone_id) p.tasks
  pub held : All (λ h. is_number p.fpv_hls_instance h.number ≡ true) p.players
  pub single : work p.tasks + length p.players ≤ 1

-- Nothing under way and the current connection closed: no connection is open.
shut-closed :
    (o : Option ℕ) (cs : List Connection)
    → All (IsKept o) cs
    → All (λ c. c.timer ≡ false) cs
    → All (λ c. c.is_open ≡ false) (map (shut o) cs)
shut-closed o [] h k = tt
shut-closed o (c ∷ cs) (h, hs) (k, ks) = elim (Bool-cases (is_number o c.number)) [
  | inl e ↦ (rw e refl, shut-closed o cs hs ks)
  | inr e ↦
      (rw e (elim h [ inl a ↦ a | inr (inl b) ↦ cc | inr (inr t) ↦ cc ]), shut-closed o cs hs ks)
]

pub destroy-held :
    (o : Option ℕ) (hs : List Hls) → All (λ h. is_number o h.number ≡ true) hs → destroy o hs ≡ []
destroy-held o [] k = refl
destroy-held o (h ∷ hs) (k, ks) = rw k (destroy-held o hs ks)

All-weaken :
    {A : Type 0} (P Q : A → Type 0) (xs : List A) → ((x : A) → P x → Q x) → All P xs → All Q xs
All-weaken P Q [] k h = tt
All-weaken P Q (x ∷ xs) k (h, hs) = (k x h, All-weaken P Q xs k hs)

pub close-IsFaithful :
    (p : Player) → IsSettled p → IsTidy p → IsFaithful p → IsFaithful (close_fpv_video_stream p)
unfolding close_fpv_video_stream
close-IsFaithful p s t f =
    let none_left = destroy-held p.fpv_hls_instance p.players f.held in
    record {
      connections =
          All-weaken _ _ (map (shut p.fpv_peer_connection) p.connections) (λ c h. inl h)
            (shut-closed p.fpv_peer_connection p.connections t s.timers);
      players = rw none_left tt;
      tasks = rw s.tasks tt;
      held = rw none_left tt;
      single = rw (none_left, s.tasks) (omega arith);
    }

pub start-IsFaithful :
    (d : String) (w : Bool) (p : Player)
    → IsSettled p
    → IsTidy p
    → IsFaithful p
    → IsFaithful (start_fpv_video_stream d w p)
unfolding start_fpv_video_stream close_fpv_video_stream
start-IsFaithful d w p s t f = elim (Bool-cases (d == "" || d == "all")) [
  | inl e ↦ rw e f
  | inr e ↦
      let none_left = destroy-held p.fpv_hls_instance p.players f.held in
      let closed : All (IsShown (some d)) (map (shut p.fpv_peer_connection) p.connections) =
        All-weaken _ _ (map (shut p.fpv_peer_connection) p.connections) (λ c h. inl h)
          (shut-closed p.fpv_peer_connection p.connections t s.timers) in
      rw e (
        either IsFaithful w
          (record {
            connections = (inr refl, closed);
            players = rw none_left tt;
            tasks = (refl, rw s.tasks tt);
            held = rw none_left tt;
            single = rw (none_left, s.tasks) (omega arith);
          })
          (record {
            connections = closed;
            players = rw none_left tt;
            tasks = (refl, rw s.tasks tt);
            held = rw none_left tt;
            single = rw (none_left, s.tasks) (omega arith);
          }))
]

pub recovered-IsFaithful :
    (o : Option String) (w : Bool) (p : Player)
    → IsSettled p
    → IsTidy p
    → IsFaithful p
    → IsFaithful (recovered o w p)
recovered-IsFaithful none w p s t f = f
recovered-IsFaithful (some d) w p s t f = start-IsFaithful d w p s t f
