-- ===== src/Telemetry/Queries/Tests.antt =====
-- The queries on services in memory.
use vdt_provisioning_service.Prelude.{ℕ, ◌≡◌, inl, refl, some, [], ◌∷◌}
use vdt_provisioning_service.Prelude.Map
use vdt_provisioning_service.Prelude.Map.{Map, IsDistinct}
use vdt_provisioning_service.Prelude.Effect.{ok}
use vdt_provisioning_service.RedisService.{get_all_telemetry_states, parsed}
use vdt_provisioning_service.Device.{find_by_device_id, find_all_devices}
use vdt_provisioning_service.Telemetry.{normalize_telemetry_payload}
use vdt_provisioning_service.Telemetry.Normalize.{shown}
use vdt_provisioning_service.Telemetry.Monitor.{clock, offline}
use vdt_provisioning_service.Telemetry.Fleet.{Entry}
use vdt_provisioning_service.Telemetry.Queries.{fetch_raw_fleet_from_storage, assemble, read_map}
use vdt_provisioning_service.Telemetry.Fleet.{device_map, ip_to_device_map, reversed}
use vdt_provisioning_service.Telemetry.Snapshot.{
  merge, merge_one, place, placed_at, put_at, finished, finished_telemetry, union, mark, mark_at,
}
use vdt_provisioning_service.Telemetry.Ownership.{
  IsOwned, IsCurrent, fetch_raw_fleet_from_storage-IsOwned,
}
use vdt_provisioning_service.Telemetry.Fixtures.{reading, same, parse, owned_row, monitor}

holds : Map.get (("D3", shown reading) ∷ []) "D3" ≡ some (shown reading)
unfolding Map.get
holds = refl

found_row : (find_by_device_id "D3" (monitor 1020000).hub.world).0 ≡ ok (some owned_row)
unfolding find_by_device_id
found_row = refl

open_fetch : Unit {0}
unfolding fetch_raw_fleet_from_storage find_all_devices get_all_telemetry_states parsed read_map
    assemble merge merge_one place placed_at put_at finished finished_telemetry union mark mark_at
    device_map ip_to_device_map reversed Map.get Map.set normalize_telemetry_payload
open_fetch = tt

abbrev found : Entry ℕ
found = record {
  id = "b";
  device_id = "D3";
  hardware_model = "X500";
  vpn_ip = some "10.13.37.3";
  status = "ACTIVE";
  last_seen = 0;
  user_id = some "user-2";
  telemetry = some (offline (shown reading));
  source = some "D3";
}

fetches : (fetch_raw_fleet_from_storage same parse (monitor 1020000)).0 ≡ ok (found ∷ [])
unfolding open_fetch
fetches = refl

fetch_raw_fleet_from_storage-IsOwned_example :
    IsOwned (owned_row ∷ []) found
    × IsCurrent (clock (fetch_raw_fleet_from_storage same parse (monitor 1020000)).1) found
fetch_raw_fleet_from_storage-IsOwned_example =
    fetch_raw_fleet_from_storage-IsOwned same parse (monitor 1020000) (found ∷ []) found fetches
      (inl refl)
