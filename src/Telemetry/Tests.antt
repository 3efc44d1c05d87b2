-- ===== src/Telemetry/Tests.antt =====
-- The cache of telemetry on concrete payloads.
use vdt_provisioning_service.Prelude.{
  ℕ, ◌≡◌, inl, inr, refl, true, some, List, [], ◌∷◌, Elem, chain,
}
use vdt_provisioning_service.Prelude.Map
use vdt_provisioning_service.Prelude.Map.{Map, IsDistinct}
use vdt_provisioning_service.Services.Memory.{memory, world}
use vdt_provisioning_service.Device.Laws.{devices}
use vdt_provisioning_service.Device.{find_by_device_id}
use vdt_provisioning_service.TelemetryGateway.{broadcast_telemetry, to_owner, look_up, looked_up}
use vdt_provisioning_service.TelemetryGateway.Seats.{seats}
use vdt_provisioning_service.Telemetry.{normalize_telemetry_payload}
use vdt_provisioning_service.Telemetry.Normalize.{
  shown, updated, normalize_telemetry_payload_updates,
}
use vdt_provisioning_service.Telemetry.Monitor.{
  Monitor, offline, broadcast, on_message, sweep_entry, sweep_entries, sweep,
}
use vdt_provisioning_service.Telemetry.Sweeper.{swept, sweep-swept}
use vdt_provisioning_service.Telemetry.Discovery.{on_message_registers_once}
use vdt_provisioning_service.Telemetry.Runs.{Event, message, tick, IsSound}
use vdt_provisioning_service.Telemetry.Fixtures.{reading, short, same, parse, monitor}

holds : Map.get (("D3", shown reading) ∷ []) "D3" ≡ some (shown reading)
unfolding Map.get
holds = refl

normalize_telemetry_payload_updates_example :
    normalize_telemetry_payload same 5 (("D3", shown reading) ∷ []) short
    ≡ shown (updated 5 short reading)
normalize_telemetry_payload_updates_example =
    normalize_telemetry_payload_updates same 5 (("D3", shown reading) ∷ []) short reading
      (record { battery = refl; gps = refl; attitude = refl; sysid = refl; vpn_ip = refl }) refl
      holds refl refl

distinct : IsDistinct (("D3", shown reading) ∷ [])
unfolding Map.get
distinct = (refl, tt)

sweep-swept_example :
    Map.get (sweep (monitor 1020000)).in_memory_cache "D3"
    ≡ chain (Map.get (monitor 1020000).in_memory_cache "D3") (swept 1020000)
sweep-swept_example = sweep-swept (monitor 1020000) "D3" distinct

open_sweep : Unit {0}
unfolding sweep sweep_entries sweep_entry broadcast broadcast_telemetry to_owner look_up looked_up
    find_by_device_id Map.get Map.set Map.delete
open_sweep = tt

twenty_seconds :
    (Map.get (sweep (monitor 1020000)).in_memory_cache "D3" ≡ some (offline (shown reading)))
    × ((sweep (monitor 1020000)).sent
        ≡ ("drone:D3", offline (shown reading))
          ∷ ("admin", offline (shown reading))
          ∷ ("user:user-2", offline (shown reading))
          ∷ [])
unfolding open_sweep
twenty_seconds = (refl, refl)

evicted : (sweep (monitor 1300001)).in_memory_cache ≡ []
unfolding open_sweep
evicted = refl

announced : Elem ("admin", offline (shown reading)) (sweep (monitor 1020000)).sent
unfolding open_sweep
announced = inr (inl refl)

-- Nothing is known of the drone, and the table is empty.
abbrev fresh : Monitor memory seats ℕ
fresh = record (monitor 1000500) {
  hub = record (monitor 1000500).hub { world = record (world [] true) { now = 1000500 } };
  in_memory_cache = [];
  auto_discovered_devices = [];
}

on_message_registers_once_example :
    devices (on_message same parse "short" (on_message same parse "short" fresh)).hub.world
    ≡ devices (on_message same parse "short" fresh).hub.world
on_message_registers_once_example =
    on_message_registers_once same parse "short" "short" short short fresh refl refl refl refl

full : IsSound (("D3", shown reading) ∷ [])
full = record { distinct = distinct; full = (refl, tt) }

abbrev events : List (ℕ × Event)
events =
    (1000500, message "short") ∷ (1020000, tick) ∷ (1020001, message "noise") ∷ (1400000, tick) ∷ []
