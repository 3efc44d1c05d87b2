-- ===== src/Mavlink/Tests.antt =====
-- Pilots against services in memory.
use vdt_provisioning_service.Prelude.{
  String, ◌≡◌, refl, true, false, none, some, List, [], ◌∷◌, contains,
}
use vdt_provisioning_service.Prelude.Map
use vdt_provisioning_service.Prelude.Text.{substring, starts_with}
use vdt_provisioning_service.Services.Tables.{Device}
use vdt_provisioning_service.Services.Memory.{memory, world, row}
use vdt_provisioning_service.RedisService.{add_focus_drone, remove_focus_drone}
use vdt_provisioning_service.Device.{find_by_device_id}
use vdt_provisioning_service.Auth.Memory.{token, toy}
use vdt_provisioning_service.Auth.{Payload}
use vdt_provisioning_service.Mavlink.{
  Relay, Handshake, token_of, raw_token, clients_of, may_control, admit, verified,
  handle_connection, leave, disconnected, handle_disconnect, on_unsubscribed, drone_of_channel,
  receivers, handle_mavlink_uplink,
}
use vdt_provisioning_service.Mavlink.Access.{IsEntitled, handle_connection-IsEntitled}
use vdt_provisioning_service.RedisService.Laws.{TakesFocus}
use vdt_provisioning_service.Mavlink.Focus.{IsInSync}
use vdt_provisioning_service.Mavlink.Runs.{
  Event, connects, disconnects, subscribed, unsubscribed, run, step, run-IsInSync, IsStranded,
  reconnect-IsStranded,
}
use vdt_provisioning_service.Mavlink.Listener
use vdt_provisioning_service.Mavlink.Listener.{IsWaiting, run-IsListening}

abbrev pilot : Payload
pilot = record { sub = "user-2"; email = "p@vdt"; role = "PILOT" }

abbrev drone : Device
drone = record (row "b" "D3" (some "10.13.37.3") "ACTIVE") { user_id = some "user-2" }

abbrev idle : Relay memory
idle = record {
  world = world (drone ∷ []) true;
  drone_clients = [];
  subscribed_raw_channels = [];
  requests = [];
  has_subscriber = true;
  data_of = [];
  refused = [];
}

abbrev asks : String → Handshake
asks t = record {
  query_drone_id = some "D3";
  header_drone_id = none;
  query_token = none;
  authorization = some t;
  header_token = none;
}

good : String
good = token pilot

open_relay : Unit {0}
unfolding handle_connection handle_disconnect verified admit leave disconnected may_control
    add_focus_drone remove_focus_drone find_by_device_id Map.get Map.set Map.delete substring
    starts_with run step drone_of_channel receivers handle_mavlink_uplink good
open_relay = tt

joins : contains (clients_of (handle_connection toy "s1" (asks good) idle) "D3") "s1" ≡ true
unfolding open_relay
joins = refl

not_yet : contains (clients_of idle "D3") "s1" ≡ false
unfolding open_relay
not_yet = refl

handle_connection-IsEntitled_example :
    (p : Payload) × (toy.verify 1000 (token_of (raw_token (asks good))) ≡ some p)
    × (◌≡◌ {A = String} "s1" "s1")
    × (◌≡◌ {A = String} "D3" "D3")
    × IsEntitled "D3" p idle.world
handle_connection-IsEntitled_example =
    handle_connection-IsEntitled toy "s1" "D3" "s1" (asks good) idle not_yet joins

memory-TakesFocus : TakesFocus memory
memory-TakesFocus = record { adds = λ j x s. refl; removes = λ j x s. refl }

idle-IsInSync : IsInSync idle
unfolding open_relay
idle-IsInSync = record { has_client = refl; focus = λ d named. refl }

abbrev day : List Event
day =
    connects "s1" (asks good)
    ∷ subscribed "channel:drone:raw:full:D3"
    ∷ disconnects "s1"
    ∷ connects "s2" (asks good)
    ∷ unsubscribed "channel:drone:raw:full:D3"
    ∷ []

run-IsInSync_example : IsInSync (run toy day idle)
run-IsInSync_example = run-IsInSync toy day idle memory-TakesFocus idle-IsInSync

-- The bytes of the drone reach the pilot, and the pilot's bytes the drone's address.
bytes_flow :
    (receivers (λ c. true) "channel:drone:raw:full:D3" (run toy day idle) ≡ "s2" ∷ [])
    × ((handle_mavlink_uplink true "s2" 12 (run toy day idle)).0 ≡ some "10.13.37.3")
unfolding open_relay
bytes_flow = (refl, refl)

abbrev flying : Relay memory
flying = record idle {
  drone_clients = ("D3", "s1" ∷ []) ∷ [];
  subscribed_raw_channels = "channel:drone:raw:full:D3" ∷ [];
  data_of = ("s1", record { drone_id = "D3"; user = pilot }) ∷ [];
}

flying_state :
    (Map.get flying.data_of "s1" ≡ some (record { drone_id = "D3"; user = pilot }))
    × (Map.get flying.drone_clients "D3" ≡ some ("s1" ∷ []))
unfolding open_relay
flying_state = (refl, refl)

reconnect-IsStranded_example : IsStranded "s2" "D3" flying (
    on_unsubscribed "channel:drone:raw:full:D3"
      (admit "s2" "D3" pilot (handle_disconnect "s1" flying)))
reconnect-IsStranded_example =
    reconnect-IsStranded "s1" "D3" pilot flying "s2" pilot refl flying_state.0 flying_state.1 refl
      refl

listens_once : IsWaiting (
    Listener.run
      (Listener.on_module_init false ∷ Listener.after_init true ∷ Listener.retry true ∷ [])
      Listener.fresh)
listens_once = run-IsListening false (Listener.after_init true ∷ Listener.retry true ∷ [])
