-- ===== src/Telemetry/Snapshot.antt =====
-- drone-fleet-manager/src/telemetry/telemetry.service.ts: how the payloads are put to the devices of
-- the fleet.
use vdt_provisioning_service.Prelude.{
  ℕ, String, false, Option, none, some, List, [], ◌∷◌, ◌==◌, add, if◌then◌else◌,
}
use vdt_provisioning_service.Prelude.Map
use vdt_provisioning_service.Prelude.Map.{Map}
use vdt_provisioning_service.Services.Tables.{Devices}
use vdt_provisioning_service.Services.Tables.{Devices}
use vdt_provisioning_service.Telemetry.{Payload, normalize_telemetry_payload, is_full}
use vdt_provisioning_service.Telemetry.Monitor.{offline}
use vdt_provisioning_service.Telemetry.Fleet.{
  Entry, Tags, reversed, device_map, ip_to_device_map, reversed, is_stale, checked, device_map,
  mapped_id, ip_of, with_telemetry, discovered, first_key, ip_to_device_map,
}

-- The distinct keys of the cache, then those of Redis.
unfoldable pub union : List String → List String → List String
union xs [] = xs
union xs (y ∷ ys) = union (add xs y) ys

module _ {F : Type 0} (literal : ℕ → F) where
  -- `DEFAULT_TELEMETRY`
  abbrev pub default_telemetry : Payload F
  default_telemetry = record {
    device_id = "";
    sysid = 0;
    vpn_ip = "";
    connected = some false;
    armed = some false;
    flight_mode = "UNKNOWN";
    battery = some (record {
      percentage = some (literal 0);
      voltage_mv = some (literal 0);
      current_ca = some (literal 0);
    });
    gps = some (record {
      lat = some (literal 0);
      lon = some (literal 0);
      alt_relative_m = some (literal 0);
      ground_speed_ms = some (literal 0);
      heading_deg = some (literal 0);
      fix_type = none;
      satellites = none;
    });
    attitude = some (record {
      roll_deg = some (literal 0);
      pitch_deg = some (literal 0);
      yaw_deg = some (literal 0);
    });
    timestamp = 0;
    battery_pct = none;
    voltage_mv = none;
    lat = none;
    lon = none;
    alt_relative_m = none;
    ground_speed_ms = none;
    heading_deg = none;
    roll_deg = none;
    pitch_deg = none;
  }

module _ {F : Type 0} where
  -- What the payload belongs to: the mapped identity, the identity, then the address.
  abbrev pub target_key : Tags → Map String → Payload F → String → Map (Entry F) → Option String
  target_key tags ips t device_id m =
      elim (first_key m (mapped_id tags t device_id ∷ device_id ∷ [])) [
        | some k ↦ some k
        | none ↦ if ip_of tags t device_id == "" then none else Map.get ips (ip_of tags t device_id)
      ]

  unfoldable pub put_at :
      Payload F → Option String → String → String → Option (Entry F) → Map (Entry F) → Map (Entry F)
  put_at t source ip k none m = m
  put_at t source ip k (some e) m = Map.set m k (with_telemetry t source ip e)

  unfoldable pub placed_at :
      String
      → ℕ
      → Payload F
      → Option String
      → String
      → String
      → Option String
      → Map (Entry F)
      → Map (Entry F)
  unfolding put_at
  placed_at prefix now t source ip id (some k) m = put_at t source ip k (Map.get m k) m
  placed_at prefix now t source ip id none m = Map.set m id (discovered prefix now t source ip id)

  unfoldable pub place :
      String
      → ℕ
      → Tags
      → Map String
      → Payload F
      → Option String
      → String
      → Map (Entry F)
      → Map (Entry F)
  unfolding placed_at
  place prefix now tags ips t source device_id m =
      placed_at prefix now t source (ip_of tags t device_id) (mapped_id tags t device_id)
        (target_key tags ips t device_id m) m

  module _ (literal : ℕ → F) (prefix : String) (now : ℕ) (tags : Tags) (ips : Map String)
      (cache states : Map (Payload F)) where
    -- `inMemoryCache.get(devId) || redisStates[devId]`; the object of the cache is passed on if it
    -- is a full payload.
    unfoldable pub merge_one :
        String → Option (Payload F) → Option (Payload F) → Map (Entry F) → Map (Entry F)
    merge_one device_id (some raw) other m =
        place prefix now tags ips (normalize_telemetry_payload literal now cache raw)
          (if is_full raw then some device_id else none) device_id m
    merge_one device_id none (some raw) m =
        place prefix now tags ips (normalize_telemetry_payload literal now cache raw) none device_id
          m
    merge_one device_id none none m = m

    unfoldable pub merge : List String → Map (Entry F) → Map (Entry F)
    unfolding merge_one
    merge [] m = m
    merge (i ∷ ids) m = merge ids (merge_one i (Map.get cache i) (Map.get states i) m)

  -- The entries before the last loop.
  abbrev pub entries :
      (ℕ → F)
      → String
      → ℕ
      → Devices
      → Map (Payload F)
      → Map String
      → Map String
      → Map (Payload F)
      → List (Entry F)
  entries literal prefix now devices states ip_map sys_map cache = Map.values (
      merge literal prefix now (record { dev_to_ip = reversed ip_map []; sys_map = sys_map })
        (ip_to_device_map devices []) cache states (union (Map.keys cache) (Map.keys states))
        (device_map devices []))

  abbrev pub or_default_telemetry : (ℕ → F) → Option (Payload F) → Payload F
  or_default_telemetry literal none = default_telemetry literal
  or_default_telemetry literal (some t) = t

  -- The last loop: what it returns, and what it marks in the cache.
  unfoldable pub finished_telemetry : (ℕ → F) → ℕ → Option (Payload F) → Payload F
  finished_telemetry literal now none = default_telemetry literal
  finished_telemetry literal now (some t) = checked now t

  unfoldable pub finished : (ℕ → F) → ℕ → Entry F → Entry F
  unfolding finished_telemetry
  finished literal now e = record e {
    telemetry = some (finished_telemetry literal now e.telemetry);
  }

  unfoldable pub mark_at :
      ℕ → Option String → Option (Payload F) → Map (Payload F) → Map (Payload F)
  mark_at now (some k) (some t) cache =
      if is_stale now t then Map.set cache k (offline t) else cache
  mark_at now _ _ cache = cache

  unfoldable pub mark : ℕ → List (Entry F) → Map (Payload F) → Map (Payload F)
  unfolding mark_at
  mark now [] cache = cache
  mark now (e ∷ es) cache = mark now es (mark_at now e.source e.telemetry cache)
