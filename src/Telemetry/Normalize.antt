-- ===== src/Telemetry/Normalize.antt =====
-- drone-fleet-manager/src/telemetry/telemetry.service.ts: what normalisation makes of a payload.
use vdt_provisioning_service.Prelude.{
  ℕ, String, ◌≡◌, inl, inr, refl, ◌//◌, Bool, true, false, Option, none, some, ◌==◌, eqb,
  if◌then◌else◌, arith, Bool-cases,
}
use vdt_provisioning_service.Prelude.Map
use vdt_provisioning_service.Prelude.Map.{Map}
use vdt_provisioning_service.Services.Tables.{given}
use vdt_provisioning_service.Telemetry.{Payload, is_full, normalize_telemetry_payload}

-- The state of a drone with nothing left out.
pub record Reading (F : Type 0) : Type 0 where
  pub device_id : String
  pub sysid : ℕ
  pub vpn_ip : String
  pub connected : Bool
  pub armed : Bool
  pub flight_mode : String
  pub percentage : F
  pub voltage_mv : F
  pub current_ca : F
  pub lat : F
  pub lon : F
  pub alt_relative_m : F
  pub ground_speed_ms : F
  pub heading_deg : F
  pub fix_type : F
  pub satellites : F
  pub roll_deg : F
  pub pitch_deg : F
  pub yaw_deg : F
  pub timestamp : ℕ

module _ {F : Type 0} where
  -- A state as a full payload.
  abbrev pub shown : Reading F → Payload F
  shown r = record {
    device_id = r.device_id;
    sysid = r.sysid;
    vpn_ip = r.vpn_ip;
    connected = some r.connected;
    armed = some r.armed;
    flight_mode = r.flight_mode;
    battery = some (record {
      percentage = some r.percentage;
      voltage_mv = some r.voltage_mv;
      current_ca = some r.current_ca;
    });
    gps = some (record {
      lat = some r.lat;
      lon = some r.lon;
      alt_relative_m = some r.alt_relative_m;
      ground_speed_ms = some r.ground_speed_ms;
      heading_deg = some r.heading_deg;
      fix_type = some r.fix_type;
      satellites = some r.satellites;
    });
    attitude = some (record {
      roll_deg = some r.roll_deg;
      pitch_deg = some r.pitch_deg;
      yaw_deg = some r.yaw_deg;
    });
    timestamp = r.timestamp;
    battery_pct = none;
    voltage_mv = none;
    lat = none;
    lon = none;
    alt_relative_m = none;
    ground_speed_ms = none;
    heading_deg = none;
    roll_deg = none;
    pitch_deg = none;
  }

  -- A state after a short payload: the heading is also the yaw.
  abbrev pub updated : ℕ → Payload F → Reading F → Reading F
  updated now raw r = record r {
    connected = given raw.connected r.connected;
    armed = given raw.armed r.armed;
    flight_mode = if raw.flight_mode == "" then r.flight_mode else raw.flight_mode;
    percentage = given raw.battery_pct r.percentage;
    voltage_mv = given raw.voltage_mv r.voltage_mv;
    lat = given raw.lat r.lat;
    lon = given raw.lon r.lon;
    alt_relative_m = given raw.alt_relative_m r.alt_relative_m;
    ground_speed_ms = given raw.ground_speed_ms r.ground_speed_ms;
    heading_deg = given raw.heading_deg r.heading_deg;
    roll_deg = given raw.roll_deg r.roll_deg;
    pitch_deg = given raw.pitch_deg r.pitch_deg;
    yaw_deg = given raw.heading_deg r.yaw_deg;
    timestamp = if eqb raw.timestamp 0 then now else raw.timestamp;
  }

  -- A payload of the 1 Hz channel: no objects, and the drone is known by its identity alone,
  -- as in LiteTelemetryPayload of telemetry-ingestion-service/internal/publisher/redis.go.
  pub record IsShort (raw : Payload F) : Type 0 where
    pub battery : raw.battery ≡ none
    pub gps : raw.gps ≡ none
    pub attitude : raw.attitude ≡ none
    pub sysid : raw.sysid ≡ 0
    pub vpn_ip : raw.vpn_ip ≡ ""

or_some : {A : Type 0} (o : Option A) (a : A) → (o // some a) ≡ some (given o a)
or_some none a = refl
or_some (some b) a = refl

module _ {F : Type 0} (literal : ℕ → F) where
  -- Normalisation returns a full payload of the same device; a full payload is returned as it is,
  -- so that normalising the result again changes nothing, whatever the clock and the cache.
  pub normalize_telemetry_payload-IsFull :
      (now later : ℕ) (cache other : Map (Payload F)) (raw : Payload F)
      → let t : Payload F = normalize_telemetry_payload literal now cache raw in
        (is_full t ≡ true)
        × (t.device_id ≡ raw.device_id)
        × (is_full raw ≡ true → t ≡ raw)
        × (normalize_telemetry_payload literal later other t ≡ t)
  unfolding normalize_telemetry_payload
  normalize_telemetry_payload-IsFull now later cache other raw = elim (Bool-cases (is_full raw)) [
    | inl e ↦ rw (e, normalize_telemetry_payload) (e, refl, λ h. refl, rw (e) refl)
    | inr e ↦ rw (e, normalize_telemetry_payload) (refl, refl, λ h. absurd (ground arith), refl)
  ]

  -- A short payload for a drone whose state is known in full changes what it carries, its flight mode
  -- if that is not empty, and the time, which is now where it has none, and keeps all else; a known system identity is not 0, and a known flight mode is not empty.
  pub normalize_telemetry_payload_updates :
      (now : ℕ) (cache : Map (Payload F)) (raw : Payload F) (r : Reading F)
      → IsShort raw
      → raw.device_id ≡ r.device_id
      → Map.get cache raw.device_id ≡ some (shown r)
      → eqb r.sysid 0 ≡ false
      → (r.flight_mode == "") ≡ false
      → normalize_telemetry_payload literal now cache raw ≡ shown (updated now raw r)
  unfolding normalize_telemetry_payload
  normalize_telemetry_payload_updates now cache raw r short same known sysid mode =
      rw
        (
          short.gps,
          known,
          normalize_telemetry_payload,
          short.battery,
          short.attitude,
          short.sysid,
          short.vpn_ip,
          same,
          sysid,
          mode,
          or_some raw.connected r.connected,
          or_some raw.armed r.armed,
          or_some raw.battery_pct r.percentage,
          or_some raw.voltage_mv r.voltage_mv,
          or_some raw.lat r.lat,
          or_some raw.lon r.lon,
          or_some raw.alt_relative_m r.alt_relative_m,
          or_some raw.ground_speed_ms r.ground_speed_ms,
          or_some raw.heading_deg r.heading_deg,
          or_some raw.heading_deg r.yaw_deg,
          or_some raw.roll_deg r.roll_deg,
          or_some raw.pitch_deg r.pitch_deg,
        )
        refl
