-- ===== src/Telemetry/Queries.antt =====
-- drone-fleet-manager/src/telemetry/telemetry.service.ts: fetchRawFleetFromStorage and
-- getDeviceState. `parse` is `JSON.parse`, and a request reads the clock once.
mod Tests
use vdt_provisioning_service.Prelude.{
  ℕ, String, Option, none, some, List, [], ◌∷◌, map, or_number, if◌then◌else◌,
}
use vdt_provisioning_service.Prelude.Map
use vdt_provisioning_service.Prelude.Map.{Map}
use vdt_provisioning_service.Prelude.Effect.{Act, ok, err, not_found, pure, throw, catch, ◌>>=◌}
use vdt_provisioning_service.Services.{Services, World, in_store}
use vdt_provisioning_service.Services.Tables.{Device, Devices}
use vdt_provisioning_service.RedisService.{get_all_telemetry_states, get_device_telemetry_state}
use vdt_provisioning_service.Device.{find_all_devices, find_by_device_id}
use vdt_provisioning_service.IpPool.{subnet}
use vdt_provisioning_service.TelemetryGateway.Rooms.{Adapter}
use vdt_provisioning_service.Telemetry.{Payload, normalize_telemetry_payload, is_full}
use vdt_provisioning_service.Telemetry.Monitor.{Monitor, clock, is_connected}
use vdt_provisioning_service.Telemetry.Fleet.{
  Entry, Tags, reversed, checked, device_map, ip_to_device_map,
}
use vdt_provisioning_service.Telemetry.Snapshot.{
  entries, or_default_telemetry, finished, mark_at, mark,
}

pub record DeviceState (F : Type 0) : Type 0 where
  pub id : String
  pub device_id : String
  pub hardware_model : String
  pub vpn_ip : Option String
  pub status : String
  pub last_seen : ℕ
  pub telemetry : Payload F

module _ {v : Services} where
  -- `client.hgetall(key).catch(() => ({}))`, or nothing without a client
  unfoldable pub read_map : String → Act (World v) (Map String)
  read_map key w =
      if w.has_client then catch (in_store (v.redis.hgetall key)) (λ e. pure []) w else (pure []) w

module _ {v : Services} {a : Adapter} {F : Type 0} where
  abbrev pub on_services : {A : Type 0} → Act (World v) A → Act (Monitor v a F) A
  on_services m s = let r = m s.hub.world in (r.0, record s { hub = record s.hub { world = r.1 } })

  module _ (literal : ℕ → F) where
    unfoldable pub assemble :
        Devices → Map (Payload F) → Map String → Map String → Act (Monitor v a F) (List (Entry F))
    assemble devices states ip_map sys_map s =
        let es =
          entries literal (subnet v) (clock s) devices states ip_map sys_map s.in_memory_cache in
        (
          ok (map (finished literal (clock s)) es),
          record s { in_memory_cache = mark (clock s) es s.in_memory_cache },
        )

    unfoldable pub fetch_raw_fleet_from_storage :
        (String → Option (Payload F)) → Act (Monitor v a F) (List (Entry F))
    fetch_raw_fleet_from_storage parse = do
      devices ← on_services (find_all_devices none)
      states ← on_services (get_all_telemetry_states parse)
      ip_map ← on_services (read_map "drone:ip_map")
      sys_map ← on_services (read_map "drone:sys_map")
      assemble devices states ip_map sys_map

    -- The answer for a row, or for a drone without one.
    unfoldable pub answer :
        String
        → Option Device
        → Payload F
        → Option (Payload F)
        → Act (Monitor v a F) (DeviceState F)
    answer device_id (some d) t cached s =
        pure
          (record {
            id = d.id;
            device_id = d.device_id;
            hardware_model = d.hardware_model;
            vpn_ip = d.vpn_ip;
            status = d.status;
            last_seen = d.last_seen;
            telemetry = t;
          })
          s
    answer device_id none t (some raw) s = (
      ok (record {
        id = device_id;
        device_id = device_id;
        hardware_model = "Real-time Stream";
        vpn_ip = some "10.13.37.X";
        status = if is_connected t then "ACTIVE" else "INACTIVE";
        last_seen = or_number t.timestamp (clock s);
        telemetry = t;
      }),
      s,
    )
    answer device_id none t none s = throw not_found s

    -- The check of the age, with the entry of the cache whose object it is.
    unfoldable pub report :
        String
        → Option Device
        → Payload F
        → Option (Payload F)
        → Act (Monitor v a F) (DeviceState F)
    unfolding answer
    report device_id device raw cached s =
        let t = normalize_telemetry_payload literal (clock s) s.in_memory_cache raw in
        let source : Option String = elim cached [
          | none ↦ none
          | some c ↦ if is_full raw then some device_id else none
        ] in
        answer device_id device (checked (clock s) t) cached
          (record s { in_memory_cache = mark_at (clock s) source (some t) s.in_memory_cache })

    unfoldable pub state_for :
        (String → Option (Payload F))
        → String
        → Option Device
        → Option (Payload F)
        → Act (Monitor v a F) (DeviceState F)
    unfolding report
    state_for parse device_id device (some raw) = report device_id device raw (some raw)
    state_for parse device_id device none = do
      stored ← on_services (get_device_telemetry_state parse device_id)
      report device_id device (or_default_telemetry literal stored) none

    unfoldable pub get_device_state :
        (String → Option (Payload F)) → String → Act (Monitor v a F) (DeviceState F)
    unfolding state_for
    get_device_state parse device_id = do
      device ← on_services (find_by_device_id device_id)
      λ s. state_for parse device_id device (Map.get s.in_memory_cache device_id) s
