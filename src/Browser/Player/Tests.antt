-- ===== src/Browser/Player/Tests.antt =====
-- A page that turns from one drone to another, and back to a probe's connection.
use vdt_provisioning_service.Prelude.{
  ◌+◌, ◌<◌, String, ◌≡◌, refl, true, false, Option, none, some, List, [], ◌∷◌, All, ◌==◌, arith,
}
use vdt_provisioning_service.TelemetryGateway.Seats.{seats}
use vdt_provisioning_service.Prelude.Text.{trim}
use vdt_provisioning_service.Video.{video_room, handle_subscribe_video, broadcast_video_chunk}
use vdt_provisioning_service.Browser.Player.{
  Player, Connection, Hls, Event, hls_js, start, close, tick, answer, info, parsed, track,
  subscribe, connection_of, hls_of, is_number, is_begun, stream_info, close_fpv_video_stream,
  start_fpv_video_stream, on_event, run, loaded,
}
use vdt_provisioning_service.Browser.Player.Tidy.{IsTidy, run-IsTidy}
use vdt_provisioning_service.Browser.Player.Stale.{superseded_returns, closed_plays}
use vdt_provisioning_service.Browser.Player.Leaks.{replaced_plays_on}
use vdt_provisioning_service.Browser.Player.Rooms.{taken, switch_stays}
use vdt_provisioning_service.Browser.Player.Faithful.{IsSettled, IsShown, IsOf}
use vdt_provisioning_service.Browser.Player.Calm.{Calm, fresh, turns, goes_on, Calm-IsShown}
use vdt_provisioning_service.Browser.Player.Controls.{
  User, Drone, is_mine, is_fpv_video_active, toggle_fpv_video_from_hud,
  toggle_fpv_video_from_hud-IsMine,
}

-- The handshake for D3 fails, hls.js plays it, and a probe has begun.
abbrev fallback : List Event
fallback = start "D3" true ∷ answer 0 "D3" false ∷ info "D3" hls_js ∷ parsed 1 ∷ tick true ∷ []

abbrev probing : Player
probing = run fallback loaded

abbrev probe_connection : Connection
probe_connection = record {
  number = 2;
  device_id = "D3";
  is_open = true;
  is_probe = true;
  timer = true;
}

has_probe : connection_of 2 probing.connections ≡ some probe_connection
unfolding run on_event close_fpv_video_stream start_fpv_video_stream
has_probe = refl

not_current : is_number probing.fpv_peer_connection 2 ≡ false
unfolding run on_event close_fpv_video_stream start_fpv_video_stream
not_current = refl

closed_shows_again :
    let q : Player = run (close ∷ track 2 ∷ []) probing in
    (q.active_fpv_drone_id ≡ none) × (q.src_object ≡ some 2)
closed_shows_again = closed_plays 2 probe_connection probing has_probe refl not_current

run-IsTidy_example : IsTidy (run (fallback) loaded)
run-IsTidy_example = run-IsTidy fallback loaded tt

superseded_returns_example :
    let q : Player =
      run (start "D3" true ∷ start "D4" true ∷ answer 0 "D3" true ∷ info "D3" hls_js ∷ []) loaded in
    (q.active_fpv_drone_id ≡ some "D4")
    × (q.fpv_hls_instance ≡ some (0 + 1 + 1))
    × (hls_of (0 + 1 + 1) q.players ≡ some (record { number = 0 + 1 + 1; device_id = "D3" }))
superseded_returns_example = superseded_returns "D3" "D4" true loaded refl refl

-- Two requests for the addresses of D3, of which one has come to play.
abbrev twice : Player
twice = run (start "D3" false ∷ start "D3" false ∷ info "D3" hls_js ∷ []) loaded

abbrev first_player : Hls
first_player = record { number = 0; device_id = "D3" }

twice_plays :
    (hls_of 0 twice.players ≡ some first_player)
    × (0 < twice.next)
    × (is_begun (stream_info "D3") twice.tasks ≡ true)
unfolding run on_event close_fpv_video_stream start_fpv_video_stream
twice_plays = (refl, omega arith, refl)

two_play : hls_of 0 (run (info "D3" hls_js ∷ close ∷ []) twice).players ≡ some first_player
two_play =
    replaced_plays_on 0 first_player "D3" (close ∷ []) twice twice_plays.0 twice_plays.1
      twice_plays.2

abbrev watching : Player
watching = record loaded { active_fpv_drone_id = some "D3"; sent = subscribe "D3" ∷ [] }

joined : broadcast_video_chunk seats "D3" (taken seats "s1" watching.sent []) "s1" ≡ true
unfolding handle_subscribe_video trim
joined = refl

other_room : (video_room "D4" == video_room "D3") ≡ false
unfolding trim
other_room = refl

switch_stays_example :
    broadcast_video_chunk seats "D3"
      (taken seats "s1" (run (start "D4" true ∷ close ∷ []) watching).sent [])
      "s1"
    ≡ true
switch_stays_example =
    switch_stays seats "s1" "D3" [] "D4" true (close ∷ []) watching joined other_room refl (tt, tt)

loaded-IsSettled : IsSettled loaded
loaded-IsSettled = record { tasks = refl; timers = tt }

abbrev handed_over : Player
handed_over = on_event (answer 0 "D3" true) (on_event (start "D3" true) loaded)

handed_over-Calm : Calm handed_over
handed_over-Calm =
    goes_on (turns fresh (start "D3" true) loaded-IsSettled) (answer 0 "D3" true) refl

Calm-IsShown_example :
    All (IsShown handed_over.active_fpv_drone_id) handed_over.connections
    × All (IsOf handed_over.active_fpv_drone_id) handed_over.players
Calm-IsShown_example = Calm-IsShown handed_over handed_over-Calm

abbrev pilot : Option User
pilot = some (record { id = some "u1"; role = some "PILOT" })

abbrev listed : String → Option Drone
listed d = some (record { is_owner = none; user_id = some (some "u1") })

toggled :
    (toggle_fpv_video_from_hud pilot listed (some "D3") true loaded).active_fpv_drone_id ≡ some "D3"
unfolding toggle_fpv_video_from_hud close_fpv_video_stream start_fpv_video_stream
toggled = refl

pilot_toggles :
    (is_fpv_video_active loaded ≡ false)
    × (◌≡◌ {A = Option String} (some "D3") (some "D3"))
    × (is_mine pilot (listed "D3") ≡ true)
pilot_toggles =
    toggle_fpv_video_from_hud-IsMine pilot listed (some "D3") true loaded "D3" toggled refl
