-- ===== src/TelemetryGateway/Tests.antt =====
-- Browsers against services in memory.
use vdt_provisioning_service.Prelude.{
  String, ◌≡◌, inl, refl, true, false, none, some, List, [], ◌∷◌, All, ◌==◌,
}
use vdt_provisioning_service.Prelude.Map
use vdt_provisioning_service.Services.Tables.{Device}
use vdt_provisioning_service.Services.Memory.{memory, world, row}
use vdt_provisioning_service.RedisService.{add_focus_drone, remove_focus_drone}
use vdt_provisioning_service.Device.{find_by_device_id}
use vdt_provisioning_service.Auth.{Payload}
use vdt_provisioning_service.Mavlink.Access.{IsEntitled}
use vdt_provisioning_service.RedisService.Laws.{TakesFocus, focused}
use vdt_provisioning_service.TelemetryGateway.Seats.{seated, seats}
use vdt_provisioning_service.TelemetryGateway.{
  Hub, Session, handle_subscribe_drone, subscribing, allowed, focus, may_view,
  handle_unsubscribe_drone, handle_disconnect, forgotten, drop_focus, broadcast_telemetry, to_owner,
  look_up,
}
use vdt_provisioning_service.TelemetryGateway.Viewers.{
  handle_subscribe_drone-IsEntitled, handle_disconnect_drops,
}
use vdt_provisioning_service.TelemetryGateway.Broadcast.{
  IsAddressed, broadcast_telemetry-IsAddressed,
}

abbrev pilot : Payload
pilot = record { sub = "user-2"; email = "p@vdt"; role = "PILOT" }

abbrev drone : Device
drone = record (row "b" "D3" (some "10.13.37.3") "ACTIVE") { user_id = some "user-2" }

abbrev session : List String → Session
session ds = record { user = pilot; focused_drones = ds }

-- Two browsers of the pilot, the first with the drone in focus.
abbrev hub : Hub memory seats
hub = record {
  world = record (world (drone ∷ []) true) {
    store = record { hash = λ k f. none; member = λ k m. m == "D3" };
  };
  rooms = ("drone:D3", "s2") ∷ [];
  session_of = ("s1", session ("D3" ∷ [])) ∷ ("s2", session ("D3" ∷ [])) ∷ [];
  device_owner_cache = [];
  last_cache_check = [];
}

open_hub : Unit {0}
unfolding Map.get Map.set handle_subscribe_drone subscribing allowed focus may_view
    handle_unsubscribe_drone handle_disconnect forgotten drop_focus broadcast_telemetry to_owner
    look_up find_by_device_id add_focus_drone remove_focus_drone
open_hub = tt

enters :
    (seated hub.rooms "drone:D3" "s1" ≡ false)
    × (seated (handle_subscribe_drone "s1" "D3" hub).1.rooms "drone:D3" "s1" ≡ true)
unfolding open_hub
enters = (refl, refl)

handle_subscribe_drone-IsEntitled_example :
    (s : Session) × (Map.get hub.session_of "s1" ≡ some s)
    × (◌≡◌ {A = String} "s1" "s1")
    × (◌≡◌ {A = String} "drone:D3" "drone:D3")
    × IsEntitled "D3" s.user hub.world
handle_subscribe_drone-IsEntitled_example =
    handle_subscribe_drone-IsEntitled "s1" "D3" "drone:D3" "s1" hub enters.0 enters.1

memory-TakesFocus : TakesFocus memory
memory-TakesFocus = record { adds = λ j x s. refl; removes = λ j x s. refl }

known : Map.get hub.session_of "s1" ≡ some (session ("D3" ∷ []))
unfolding open_hub
known = refl

handle_disconnect_drops_example :
    (focused (handle_disconnect "s1" hub).world "D3" ≡ false)
    × (seated (handle_disconnect "s1" hub).rooms "drone:D3" "s2" ≡ true)
handle_disconnect_drops_example =
    handle_disconnect_drops "s1" "s2" "D3" (session ("D3" ∷ [])) hub memory-TakesFocus refl known
      (refl, tt) (inl refl) refl refl

broadcast_telemetry-IsAddressed_example :
    All (IsAddressed "D3" hub) (broadcast_telemetry "D3" hub).0
broadcast_telemetry-IsAddressed_example = broadcast_telemetry-IsAddressed "D3" hub

sends : (broadcast_telemetry "D3" hub).0 ≡ "drone:D3" ∷ "admin" ∷ "user:user-2" ∷ []
unfolding open_hub
sends = refl
