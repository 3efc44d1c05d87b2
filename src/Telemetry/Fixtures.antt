-- ===== src/Telemetry/Fixtures.antt =====
-- A drone with measured numbers as natural numbers, and services in memory.
use vdt_provisioning_service.Prelude.{
  ℕ, String, true, false, Option, none, some, [], ◌∷◌, ◌==◌, if◌then◌else◌,
}
use vdt_provisioning_service.Services.Tables.{Device}
use vdt_provisioning_service.Services.Memory.{memory, world, row}
use vdt_provisioning_service.TelemetryGateway.Seats.{seats}
use vdt_provisioning_service.Telemetry.{Payload}
use vdt_provisioning_service.Telemetry.Normalize.{Reading, shown}
use vdt_provisioning_service.Telemetry.Monitor.{Monitor}

abbrev pub reading : Reading ℕ
reading = record {
  device_id = "D3";
  sysid = 7;
  vpn_ip = "10.13.37.3";
  connected = true;
  armed = false;
  flight_mode = "LOITER";
  percentage = 80;
  voltage_mv = 15200;
  current_ca = 3;
  lat = 21;
  lon = 105;
  alt_relative_m = 30;
  ground_speed_ms = 4;
  heading_deg = 90;
  fix_type = 3;
  satellites = 12;
  roll_deg = 1;
  pitch_deg = 2;
  yaw_deg = 90;
  timestamp = 1000000;
}

-- A payload of the 1 Hz channel with a new position.
abbrev pub short : Payload ℕ
short = record {
  device_id = "D3";
  sysid = 0;
  vpn_ip = "";
  connected = some true;
  armed = some true;
  flight_mode = "RTL";
  battery = none;
  gps = none;
  attitude = none;
  timestamp = 1000500;
  battery_pct = some 79;
  voltage_mv = none;
  lat = some 22;
  lon = some 106;
  alt_relative_m = some 31;
  ground_speed_ms = some 5;
  heading_deg = some 180;
  roll_deg = some 0;
  pitch_deg = some 1;
}

abbrev pub same : ℕ → ℕ
same n = n

abbrev pub parse : String → Option (Payload ℕ)
parse text = if text == "short" then some short else none

abbrev pub owned_row : Device
owned_row = record (row "b" "D3" (some "10.13.37.3") "ACTIVE") { user_id = some "user-2" }

-- The drone was last heard of at 1000000.
abbrev pub monitor : ℕ → Monitor memory seats ℕ
monitor now = record {
  hub = record {
    world = record (world (owned_row ∷ []) true) { now = now };
    rooms = [];
    session_of = [];
    device_owner_cache = [];
    last_cache_check = [];
  };
  in_memory_cache = ("D3", shown reading) ∷ [];
  auto_discovered_devices = "D3" ∷ [];
  sent = [];
}
