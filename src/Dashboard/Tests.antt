-- ===== src/Dashboard/Tests.antt =====
-- The dashboard over services in memory.
use vdt_provisioning_service.Prelude.{◌≡◌, refl, true, none, some, List, [], ◌∷◌, map, keep, All}
use vdt_provisioning_service.Prelude.Map
use vdt_provisioning_service.Prelude.Map.{Map}
use vdt_provisioning_service.Prelude.Text.{trim, split, show}
use vdt_provisioning_service.Prelude.Effect.{Act, ok, pure}
use vdt_provisioning_service.Services.{World}
use vdt_provisioning_service.Services.Tables.{Device, Devices, User}
use vdt_provisioning_service.Services.Memory.{memory, world, row}
use vdt_provisioning_service.Wireguard.{parse_dump, get_live_peer_stats}
use vdt_provisioning_service.RedisService.{map_ip_to_device}
use vdt_provisioning_service.Device.{
  find_all_devices, find_by_device_id, find_by_vpn_ip, create_device,
}
use vdt_provisioning_service.Device.Identity.{
  bind_or_update_device_identity, find_or_create_manual_device, bind_found, bind_unknown,
  rename_or_create,
}
use vdt_provisioning_service.IpPool.{subnet}
use vdt_provisioning_service.Dashboard.{
  FleetItem, IpMatrixCell, TelemetryState, fleet_item, get_fleet, cells, gateway_cell,
  ip_device_map, get_ip_pool_matrix,
}
use vdt_provisioning_service.Device.Laws.{devices}
use vdt_provisioning_service.Device.Identity.Moves.{IsBound}
use vdt_provisioning_service.Dashboard.System.{
  ManualDevice, create_manual_device, create_manual_device-IsBound,
}
use vdt_provisioning_service.Dashboard.Fleet.{is_shown, get_fleet_rows}
use vdt_provisioning_service.Dashboard.Matrix.{IsTrue, get_ip_pool_matrix-IsTrue}

abbrev mine : Device
mine = record (row "b" "D3" (some "10.13.37.3") "ACTIVE") { user_id = some "user-2" }

abbrev rows : Devices
rows = row "a" "D2" (some "10.13.37.2") "REVOKED" ∷ mine ∷ []

abbrev pilot : User
pilot = record {
  id = "user-2";
  email = "p@vdt";
  password_hash = "";
  full_name = "P";
  role = "PILOT";
}

open_all : Unit {0}
unfolding trim get_fleet find_all_devices get_live_peer_stats parse_dump split Map.get
    get_ip_pool_matrix
open_all = tt

shows : (get_fleet (some pilot) (world rows true)).0 ≡ ok (fleet_item mine none ∷ [])
unfolding open_all
shows = refl

get_fleet_rows_example :
    map (λ (i : FleetItem). i.row) (fleet_item mine none ∷ []) ≡ keep (is_shown (some pilot)) rows
get_fleet_rows_example =
    get_fleet_rows (world rows true) (some pilot) (fleet_item mine none ∷ []) shows

abbrev silent : Act (World memory) (Map TelemetryState)
silent = pure []

abbrev matrix : List IpMatrixCell
matrix = gateway_cell (subnet memory) ∷ cells 1000 [] (subnet memory) (ip_device_map rows []) 253 2

draws : (get_ip_pool_matrix silent (world rows true)).0 ≡ ok matrix
unfolding open_all
draws = refl

get_ip_pool_matrix-IsTrue_example : All (IsTrue rows) matrix
get_ip_pool_matrix-IsTrue_example = get_ip_pool_matrix-IsTrue (world rows true) silent matrix draws

open_manual : Unit {0}
unfolding create_manual_device find_or_create_manual_device bind_or_update_device_identity
    find_by_device_id find_by_vpn_ip bind_found bind_unknown rename_or_create create_device
    map_ip_to_device show
open_manual = tt

abbrev dto : ManualDevice
dto = record {
  device_id = " D9 ";
  vpn_ip = "10.13.37.9";
  hardware_model = none;
  vpn_public_key = none;
}

abbrev made : Device
made = record (row "row-1" "D9" (some "10.13.37.9") "ACTIVE") {
  hardware_model = "Manual Configured Drone";
  vpn_public_key = "MANUAL_TELEMETRY";
}

records : (create_manual_device dto (world [] true)).0 ≡ ok (some made)
unfolding open_all open_manual
records = refl

create_manual_device-IsBound_example :
    IsBound
      (trim (trim " D9 "))
      (trim "10.13.37.9")
      (devices (create_manual_device dto (world [] true)).1)
      made
    × (made.vpn_ip ≡ some (trim "10.13.37.9"))
create_manual_device-IsBound_example =
    create_manual_device-IsBound dto (world [] true) made (λ a b m. elim m [ ]) records
