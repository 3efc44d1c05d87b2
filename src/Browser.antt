-- ===== src/Browser.antt =====
-- drone-fleet-manager/public/js/telemetry/render-queue.js, with isDroneOnline of public/js/core/api.js
-- and removeDroneFromMap of public/js/telemetry/map-controller.js: payloads that wait for the next
-- frame, the list of drones, and their trails on the map. `is_zero` tests a measured number; what is
-- only painted, and which drone the HUD shows, are left out; the map is there.
pub mod Queue
pub mod Frames
pub mod Fleet
pub mod Trails
pub mod Watchdog
pub mod Player
pub mod Sdp
mod Tests
use vdt_provisioning_service.Prelude.{
  ℕ, ◌-◌, String, Bool, true, false, not, Option, none, some, List, [], ◌∷◌, ◌++◌, ◌==◌, ◌&&◌, ◌||◌,
  eqb, ltb, chain, length, add, contains, discard, or_string, if◌then◌else◌,
}
use vdt_provisioning_service.Prelude.Map
use vdt_provisioning_service.Prelude.Map.{Map}
use vdt_provisioning_service.Telemetry.{Payload}

module _ (F : Type 0) where
  -- A payload with the time at which the browser took it.
  pub record Received : Type 0 where
    pub payload : Payload F
    pub last_received_at : ℕ

  pub record FleetDevice : Type 0 where
    pub device_id : String
    pub vpn_ip : String
    pub telemetry : Option Received

  pub record Page : Type 0 where
    pub telemetry_render_queue : Map (Payload F)
    pub is_render_frame_scheduled : Bool
    -- the role of the user of the page
    pub role : Option String
    pub fleet_devices : List FleetDevice
    -- the drones that have a marker in `droneMarkers`, and the points of `droneFlightTrails`
    pub markers : List String
    pub trails : Map (List (F × F))

abbrev pub recent : ℕ → ℕ → Bool
recent now t = not (eqb t 0) && ltb (now - t) 10000

-- `currentUser && currentUser.role === 'ADMIN'`
abbrev pub is_admin : Option String → Bool
is_admin o = elim o [ none ↦ false | some role ↦ role == "ADMIN" ]

module _ {F : Type 0} where
  abbrev pub is_drone_online : ℕ → Received F → Bool
  is_drone_online now t =
      if elim t.payload.connected [ none ↦ false | some c ↦ not c ]
      then false
      else if recent now t.last_received_at
      then true
      else if recent now t.payload.timestamp
      then true
      else if not (t.payload.flight_mode == "") && not (t.payload.flight_mode == "UNKNOWN")
      then true
      else elim t.payload.connected [ none ↦ false | some c ↦ c ]

  -- `t.lastReceivedAt = now`, and `connected` is true where it is missing; null, which no publisher
  -- sends for it, is not told apart from that.
  abbrev pub stamped : ℕ → Payload F → Received F
  stamped now t = record {
    payload = record t { connected = elim t.connected [ none ↦ some true | some c ↦ some c ] };
    last_received_at = now;
  }

  unfoldable pub put_telemetry : Received F → List (FleetDevice F) → List (FleetDevice F)
  put_telemetry r [] = []
  put_telemetry r (d ∷ ds) =
      let rest = put_telemetry r ds in
      if d.device_id == r.payload.device_id then record d { telemetry = some r } ∷ ds else d ∷ rest

  abbrev pub is_known : String → List (FleetDevice F) → Bool
  is_known i [] = false
  is_known i (d ∷ ds) = if d.device_id == i then true else is_known i ds

  abbrev pub found_device : Received F → FleetDevice F
  found_device r = record {
    device_id = r.payload.device_id;
    vpn_ip = or_string r.payload.vpn_ip "10.13.37.X";
    telemetry = some r;
  }

  -- `trail.addLatLng`, and the oldest point goes when there are more than a thousand.
  abbrev pub shift : List (F × F) → List (F × F)
  shift [] = []
  shift (p ∷ ps) = ps

  abbrev pub add_point : F × F → List (F × F) → List (F × F)
  add_point p ps = if ltb 1000 (length (ps ++ p ∷ [])) then shift (ps ++ p ∷ []) else ps ++ p ∷ []

  -- A drone without a marker gets one, and a new trail; where there is a marker, a trail grows.
  abbrev moved : String → F × F → Bool → Option (List (F × F)) → Page F → Page F
  moved i p false o b = record b { markers = add b.markers i; trails = Map.set b.trails i (p ∷ []) }
  moved i p true none b = b
  moved i p true (some ps) b = record b { trails = Map.set b.trails i (add_point p ps) }

  module _ (is_zero : F → Bool) where
    -- A valid position.
    abbrev pub position : Payload F → Option (F × F)
    position t = chain (chain t.gps (λ g. g.lat)) (λ lat.
        chain (chain t.gps (λ g. g.lon))
          (λ lon. if is_zero lat || is_zero lon then none else some (lat, lon)))

    abbrev move_marker : String → Option (F × F) → Page F → Page F
    move_marker i none b = b
    move_marker i (some p) b = moved i p (contains b.markers i) (Map.get b.trails i) b

    -- The part after the list: off the map when offline, else on it.
    abbrev on_map : ℕ → Received F → Page F → Page F
    on_map now r b =
        if is_drone_online now r
        then move_marker r.payload.device_id (position r.payload) b
        else record b { markers = discard b.markers r.payload.device_id }

    unfoldable pub process_telemetry_update : ℕ → Payload F → Page F → Page F
    process_telemetry_update now t b =
        let r = stamped now t in
        if t.device_id == ""
        then b
        else if is_known t.device_id b.fleet_devices
        then on_map now r (record b { fleet_devices = put_telemetry r b.fleet_devices })
        else if is_admin b.role
        then on_map now r (record b { fleet_devices = b.fleet_devices ++ found_device r ∷ [] })
        else b

    unfoldable pub process_all : ℕ → List (Payload F) → Page F → Page F
    process_all now [] b = b
    process_all now (t ∷ ts) b = process_all now ts (process_telemetry_update now t b)

    -- The callback of `requestAnimationFrame`.
    unfoldable pub on_frame : ℕ → Page F → Page F
    on_frame now b =
        record (process_all now (Map.values b.telemetry_render_queue)
          (record b { is_render_frame_scheduled = false })) { telemetry_render_queue = [] }

    -- `visibilitychange` to a page that is seen again; the frame stays scheduled.
    unfoldable pub on_visible : ℕ → Page F → Page F
    on_visible now b = record (process_all now (Map.values b.telemetry_render_queue) b) {
      telemetry_render_queue = [];
    }

  unfoldable pub queue_telemetry_for_render : Payload F → Page F → Page F
  queue_telemetry_for_render t b = if t.device_id == "" then b else record b {
    telemetry_render_queue = Map.set b.telemetry_render_queue t.device_id t;
    is_render_frame_scheduled = true;
  }
