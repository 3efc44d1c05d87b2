-- ===== src/Telemetry/Monitor.antt =====
-- drone-fleet-manager/src/telemetry/telemetry.service.ts: the messages of Redis, the sweep and the
-- start. `sent` lists what the gateway has emitted, with the room.
use vdt_provisioning_service.Prelude.{
  ℕ, ◌-◌, String, Bool, true, false, Option, none, some, List, [], ◌∷◌, ◌++◌, map, ◌==◌, ◌&&◌, ◌||◌,
  eqb, ltb, not, add, discard, contains, if◌then◌else◌,
}
use vdt_provisioning_service.Prelude.Map
use vdt_provisioning_service.Prelude.Map.{Map}
use vdt_provisioning_service.Prelude.Text.{starts_with, substring, replace_all, is_ipv4}
use vdt_provisioning_service.Prelude.Effect.{Result, ok, err}
use vdt_provisioning_service.Services.{Services, World}
use vdt_provisioning_service.RedisService.{get_all_telemetry_states}
use vdt_provisioning_service.IpPool.{subnet}
use vdt_provisioning_service.Device.Identity.{find_or_create_manual_device}
use vdt_provisioning_service.TelemetryGateway.Rooms.{Adapter}
use vdt_provisioning_service.TelemetryGateway.{Hub, broadcast_telemetry}
use vdt_provisioning_service.Telemetry.{Payload, normalize_telemetry_payload}

pub record Monitor (v : Services) (a : Adapter) (F : Type 0) : Type 0 where
  pub hub : Hub v a
  pub in_memory_cache : Map (Payload F)
  pub auto_discovered_devices : List String
  pub sent : List (String × Payload F)

-- The listener of `pmessage` is there, and the timer of the sweep runs.
pub record Activity : Type 0 where
  pub listening : Bool
  pub sweeping : Bool

-- `DRONE-IP-10-13-37-5` stands for an address.
abbrev pub ip_of_temp_id : String → String
ip_of_temp_id device_id =
    if starts_with "DRONE-IP-" device_id then replace_all b'-' "." (substring 9 device_id) else ""

module _ {F : Type 0} where
  -- The age of a payload is more than `limit`: without a time it is infinite.
  abbrev pub is_older : ℕ → ℕ → Payload F → Bool
  is_older limit now t = eqb t.timestamp 0 || ltb limit (now - t.timestamp)

  abbrev pub is_connected : Payload F → Bool
  is_connected t = elim t.connected [ none ↦ false | some c ↦ c ]

  abbrev pub offline : Payload F → Payload F
  offline t = record t { connected = some false }

  abbrev pub detected_ip : Payload F → String
  detected_ip t = if t.vpn_ip == "" then ip_of_temp_id t.device_id else t.vpn_ip

module _ {F : Type 0} (literal : ℕ → F) where
  unfoldable pub warm : ℕ → Map (Payload F) → Map (Payload F) → Map (Payload F)
  warm now [] cache = cache
  warm now ((device_id, state) ∷ rest) cache =
      warm now rest (Map.set cache device_id (normalize_telemetry_payload literal now cache state))

module _ {v : Services} {F : Type 0} where
  -- The call of `findOrCreateManualDevice`, whose errors nobody sees.
  abbrev pub record_device : Payload F → World v → World v
  record_device t w =
      let ip = detected_ip t in
      if not (ip == "") && (starts_with (subnet v) ip || is_ipv4 ip)
      then (find_or_create_manual_device t.device_id ip "MANUAL_TELEMETRY"
          "Manual / Discovered Drone" w).1
      else w

module _ {v : Services} {a : Adapter} {F : Type 0} where
  abbrev pub clock : Monitor v a F → ℕ
  clock m = m.hub.world.now

  unfoldable pub broadcast : Payload F → Monitor v a F → Monitor v a F
  broadcast t m =
      let out = broadcast_telemetry t.device_id m.hub in
      record m { hub = out.1; sent = m.sent ++ map (λ room. (room, t)) out.0 }

  abbrev on_world : (World v → World v) → Monitor v a F → Monitor v a F
  on_world f m = record m { hub = record m.hub { world = f m.hub.world } }

  unfoldable pub discover : Payload F → Monitor v a F → Monitor v a F
  discover t m =
      if contains m.auto_discovered_devices t.device_id
      then m
      else on_world (record_device t)
          (record m { auto_discovered_devices = add m.auto_discovered_devices t.device_id })

  -- One entry of the sweep.
  unfoldable pub sweep_entry : ℕ → String → Payload F → Monitor v a F → Monitor v a F
  sweep_entry now device_id t m =
      let lost = is_connected t && is_older 10000 now t in
      let checked =
        if lost
        then broadcast (offline t)
            (record m { in_memory_cache = Map.set m.in_memory_cache device_id (offline t) })
        else m in
      if is_older 300000 now t
      then record checked {
        in_memory_cache = Map.delete checked.in_memory_cache device_id;
        auto_discovered_devices = discard checked.auto_discovered_devices device_id;
      }
      else checked

  unfoldable pub sweep_entries : ℕ → Map (Payload F) → Monitor v a F → Monitor v a F
  sweep_entries now [] m = m
  sweep_entries now ((device_id, t) ∷ rest) m =
      sweep_entries now rest (sweep_entry now device_id t m)

  -- A round of the timer: the loop writes to no entry but the one it is at, so that it walks over
  -- the entries of the cache at its start.
  unfoldable pub sweep : Monitor v a F → Monitor v a F
  sweep m = sweep_entries (clock m) m.in_memory_cache m

  module _ (literal : ℕ → F) where
    unfoldable pub receive : Payload F → Monitor v a F → Monitor v a F
    receive raw m =
        let t = normalize_telemetry_payload literal (clock m) m.in_memory_cache raw in
        discover t
          (broadcast t (record m { in_memory_cache = Map.set m.in_memory_cache t.device_id t }))

    accept : Option (Payload F) → Monitor v a F → Monitor v a F
    accept none m = m
    accept (some raw) m = if raw.device_id == "" then m else receive raw m

    -- The listener of `pmessage`; `parse` is `JSON.parse`, `none` where the text is no such object.
    unfoldable pub on_message :
        (String → Option (Payload F)) → String → Monitor v a F → Monitor v a F
    unfolding accept
    on_message parse text m = accept (parse text) m

    warmed : Result (Map (Payload F)) → Monitor v a F → Monitor v a F
    warmed (ok states) m = record m {
      in_memory_cache = warm literal (clock m) states m.in_memory_cache;
    }
    warmed (err e) m = m

    unfoldable pub warm_up_cache_from_redis :
        (String → Option (Payload F)) → Monitor v a F → Monitor v a F
    unfolding warmed
    warm_up_cache_from_redis parse m =
        let read = get_all_telemetry_states parse m.hub.world in
        warmed read.0 (on_world (λ w. read.1) m)

    -- `subscribed` says whether Redis has a subscriber.
    abbrev pub on_module_init :
        (String → Option (Payload F)) → Bool → Monitor v a F → Activity × Monitor v a F
    on_module_init parse subscribed m =
        (record { listening = subscribed; sweeping = true }, warm_up_cache_from_redis parse m)

abbrev pub on_module_destroy : Activity → Activity
on_module_destroy t = record t { sweeping = false }
