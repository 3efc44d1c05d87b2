-- ===== src/Telemetry/Fleet.antt =====
-- drone-fleet-manager/src/telemetry/telemetry.service.ts: the snapshot of the fleet and of one drone.
-- `source` names the entry of the cache whose object `telemetry` is, so that marking it as offline
-- marks the cache. The identities of the rows are unique, so that a row's entry is known by its key.
use vdt_provisioning_service.Prelude.{
  ℕ, ◌-◌, String, Bool, false, not, Option, none, some, List, [], ◌∷◌, ◌==◌, ◌&&◌, eqb, ltb, keep,
  or_string, if◌then◌else◌,
}
use vdt_provisioning_service.Prelude.Map
use vdt_provisioning_service.Prelude.Map.{Map}
use vdt_provisioning_service.Prelude.Text.{append, show}
use vdt_provisioning_service.Services.Tables.{Device, Devices, User}
use vdt_provisioning_service.Device.{text_of}
use vdt_provisioning_service.Telemetry.{Payload}
use vdt_provisioning_service.Telemetry.Monitor.{ip_of_temp_id, offline}

pub record Entry (F : Type 0) : Type 0 where
  pub id : String
  pub device_id : String
  pub hardware_model : String
  pub vpn_ip : Option String
  pub status : String
  pub last_seen : ℕ
  pub user_id : Option String
  pub telemetry : Option (Payload F)
  pub source : Option String

-- `drone:ip_map` backwards, and `drone:sys_map`.
pub record Tags : Type 0 where
  pub dev_to_ip : Map String
  pub sys_map : Map String

-- The loop that fills `devToIp`.
unfoldable pub reversed : Map String → Map String → Map String
reversed [] m = m
reversed ((ip, device_id) ∷ rest) m = reversed rest (Map.set m device_id ip)

abbrev pub text_at : Map String → String → String
text_at m k = text_of (Map.get m k)

module _ {F : Type 0} where
  -- `timestamp && now - timestamp > HEARTBEAT_TIMEOUT_MS`
  abbrev pub is_stale : ℕ → Payload F → Bool
  is_stale now t = not (eqb t.timestamp 0) && ltb 10000 (now - t.timestamp)

  abbrev pub checked : ℕ → Payload F → Payload F
  checked now t = if is_stale now t then offline t else t

  abbrev pub entry_of : Device → Entry F
  entry_of d = record {
    id = d.id;
    device_id = d.device_id;
    hardware_model = d.hardware_model;
    vpn_ip = d.vpn_ip;
    status = d.status;
    last_seen = d.last_seen;
    user_id = d.user_id;
    telemetry = none;
    source = none;
  }

  unfoldable pub device_map : Devices → Map (Entry F) → Map (Entry F)
  device_map [] m = m
  device_map (d ∷ ds) m = device_map ds (Map.set m d.device_id (entry_of d))

  -- `telemetry.sysid && redisSysMap[telemetry.sysid] || devId`
  abbrev pub mapped_id : Tags → Payload F → String → String
  mapped_id tags t device_id =
      if eqb t.sysid 0 then device_id else or_string (text_at tags.sys_map (show t.sysid)) device_id

  abbrev pub ip_of : Tags → Payload F → String → String
  ip_of tags t device_id = or_string t.vpn_ip (
      or_string (text_at tags.dev_to_ip (mapped_id tags t device_id))
        (or_string (text_at tags.dev_to_ip device_id) (ip_of_temp_id device_id)))

  abbrev pub with_telemetry : Payload F → Option String → String → Entry F → Entry F
  with_telemetry t source ip e = record e {
    telemetry = some t;
    source = source;
    vpn_ip = if text_of e.vpn_ip == "" then (if ip == "" then e.vpn_ip else some ip) else e.vpn_ip;
  }

  abbrev pub discovered : String → ℕ → Payload F → Option String → String → String → Entry F
  discovered prefix now t source ip id = record {
    id = id;
    device_id = id;
    hardware_model = "Real-time Telemetry Stream";
    vpn_ip = some (or_string ip (append prefix "X"));
    status = "ACTIVE";
    last_seen = now;
    user_id = none;
    telemetry = some t;
    source = source;
  }

  -- `filterDevicesForUser`
  abbrev pub is_own : User → Entry F → Bool
  is_own u e = elim e.user_id [ none ↦ false | some i ↦ not (i == "") && (i == u.id) ]

  unfoldable pub filter_devices_for_user : List (Entry F) → Option User → List (Entry F)
  filter_devices_for_user es none = es
  filter_devices_for_user es (some u) = if u.role == "ADMIN" then es else keep (is_own u) es

-- The key of the entry that a payload belongs to: by the mapped identity, the identity, the address.
abbrev pub first_key : {V : Type 0} → Map V → List String → Option String
first_key m [] = none
first_key m (k ∷ ks) = let rest = first_key m ks in if Map.has m k then some k else rest

-- `ipToDeviceMap`, with the key of the entry
unfoldable pub ip_to_device_map : Devices → Map String → Map String
ip_to_device_map [] m = m
ip_to_device_map (d ∷ ds) m =
    ip_to_device_map ds
      (if text_of d.vpn_ip == "" then m else Map.set m (text_of d.vpn_ip) d.device_id)
