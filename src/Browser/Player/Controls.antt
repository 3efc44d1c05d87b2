-- ===== src/Browser/Player/Controls.antt =====
-- drone-fleet-manager/public/js/video/video-controls.js: the button of the HUD.
use vdt_provisioning_service.Prelude.{
  String, ◌≡◌, inl, inr, refl, sym, ap, subst, ◌∙◌, Bool-cases, Bool, true, false, not, Option,
  none, some, ◌==◌, ◌&&◌, ◌||◌, arith, if◌then◌else◌,
}
use vdt_provisioning_service.Browser.Player.{Player, close_fpv_video_stream, start_fpv_video_stream}

-- What getAuthUser returns.
pub record User : Type 0 where
  pub id : Option String
  pub role : Option String

-- A drone of the list. A field that is missing is `none`; `userId` may be null, which is `some none`.
pub record Drone : Type 0 where
  pub is_owner : Option Bool
  pub user_id : Option (Option String)

abbrev is_given : {A : Type 0} → Option A → Bool
is_given none = false
is_given (some x) = true

abbrev names : Option String → Bool
names none = false
names (some d) = not (d == "")

-- isFpvVideoActive
abbrev pub is_fpv_video_active : Player → Bool
is_fpv_video_active p =
    (names p.active_fpv_drone_id || is_given p.fpv_peer_connection)
    || (is_given p.fpv_hls_instance || is_given p.src_object)

abbrev id_of : Option User → Option String
id_of none = none
id_of (some u) = u.id

abbrev pub is_admin : Option User → Bool
is_admin none = false
is_admin (some u) = elim u.role [ none ↦ false | some r ↦ r == "ADMIN" ]

-- `drone.userId === currentUser?.id`
abbrev pub is_same_id : Option (Option String) → Option String → Bool
is_same_id none none = true
is_same_id (some (some i)) (some j) = i == j
is_same_id _ _ = false

abbrev pub is_mine : Option User → Option Drone → Bool
is_mine u none = is_admin u
is_mine u (some d) =
    is_admin u
    || (elim d.is_owner [ none ↦ true | some b ↦ b ]
        && (is_same_id d.user_id (id_of u) || elim d.is_owner [ none ↦ false | some b ↦ b ]))

-- The button: `selected` is the drone that the page has chosen, `find` looks it up in the list.
unfoldable pub toggle_fpv_video_from_hud :
    Option User → (String → Option Drone) → Option String → Bool → Player → Player
toggle_fpv_video_from_hud u find none has_web_rtc p =
    if is_fpv_video_active p then close_fpv_video_stream p else p
toggle_fpv_video_from_hud u find (some d) has_web_rtc p =
    if is_fpv_video_active p
    then close_fpv_video_stream p
    else if d == "" || d == "all"
    then p
    else if is_mine u (find d)
    then start_fpv_video_stream d has_web_rtc p
    else p

-- No named drone is active while no video is.
idle :
    (o : Option String) (a b c : Bool) (d : String)
    → ((names o || a) || (b || c)) ≡ false
    → o ≡ some d
    → (d == "") ≡ false
    → ⊥
idle none a b c d h q named = cc
idle (some e) a b c d h q named = ground (arith, ap (λ x. names x) q)

idle_player :
    (p : Player) (d : String)
    → is_fpv_video_active p ≡ false
    → p.active_fpv_drone_id ≡ some d
    → (d == "") ≡ false
    → ⊥
idle_player p =
    idle p.active_fpv_drone_id (is_given p.fpv_peer_connection) (is_given p.fpv_hls_instance)
      (is_given p.src_object)

start-active :
    (d : String) (w : Bool) (p : Player)
    → (d == "" || d == "all") ≡ false
    → (start_fpv_video_stream d w p).active_fpv_drone_id ≡ some d
unfolding start_fpv_video_stream close_fpv_video_stream
start-active d true p e = rw e refl
start-active d false p e = rw e refl

-- If the button makes a drone the active one, then no video was shown, the drone is the chosen one,
-- and the user is an ADMIN or the list says that the drone is theirs.
pub toggle_fpv_video_from_hud-IsMine :
    (u : Option User) (find : String → Option Drone) (selected : Option String) (has_web_rtc : Bool)
    (p : Player) (d : String)
    → (toggle_fpv_video_from_hud u find selected has_web_rtc p).active_fpv_drone_id ≡ some d
    → (d == "") ≡ false
    → (is_fpv_video_active p ≡ false) × (selected ≡ some d) × (is_mine u (find d) ≡ true)
unfolding toggle_fpv_video_from_hud close_fpv_video_stream
toggle_fpv_video_from_hud-IsMine u find none w p d h named =
    elim (Bool-cases (is_fpv_video_active p)) [
      | inl a ↦ cc (rw a at h)
      | inr a ↦ absurd (idle_player p d a (rw a at h) named)
    ]
toggle_fpv_video_from_hud-IsMine u find (some e) w p d h named =
    elim (Bool-cases (is_fpv_video_active p)) [
      | inl a ↦ cc (rw a at h)
      | inr a ↦ elim (Bool-cases (e == "" || e == "all")) [
        | inl b ↦ absurd (idle_player p d a (rw (a, b) at h) named)
        | inr b ↦ elim (Bool-cases (is_mine u (find e))) [
          | inl m ↦
              let same = sym (start-active e w p b) ∙ (rw (a, b, m) at h) in
              (a, same, subst (λ x. is_mine u (find x) ≡ true) (cc) m)
          | inr m ↦ absurd (idle_player p d a (rw (a, b, m) at h) named)
        ]
      ]
    ]
