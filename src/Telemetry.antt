-- ===== src/Telemetry.antt =====
-- drone-fleet-manager/src/telemetry/telemetry.service.ts: the cache of the latest state of each drone.
-- A JSON object is a record with the fields that the code reads: a missing field and null are both
-- `none`, and of `sysid`, `vpnIp`, `flightMode` and `timestamp`, which the code only tests for a
-- truth value, 0 and "". The type of the measured numbers is a parameter: they are only copied.
pub mod Monitor
pub mod Sweeper
mod Tests
pub mod Fixtures
pub mod State
pub mod Flight
pub mod Ownership
pub mod Queries
pub mod Snapshot
pub mod Fleet
pub mod Runs
pub mod Discovery
pub mod Losses
pub mod Normalize
use vdt_provisioning_service.Prelude.{
  ℕ, String, Bool, true, false, Option, none, some, ◌//◌, chain, or_number, or_string,
  if◌then◌else◌,
}
use vdt_provisioning_service.Prelude.Map
use vdt_provisioning_service.Prelude.Map.{Map}

module _ (F : Type 0) where
  pub record Battery : Type 0 where
    pub percentage : Option F
    pub voltage_mv : Option F
    pub current_ca : Option F

  pub record Gps : Type 0 where
    pub lat : Option F
    pub lon : Option F
    pub alt_relative_m : Option F
    pub ground_speed_ms : Option F
    pub heading_deg : Option F
    pub fix_type : Option F
    pub satellites : Option F

  pub record Attitude : Type 0 where
    pub roll_deg : Option F
    pub pitch_deg : Option F
    pub yaw_deg : Option F

  -- A payload of either kind: `battery_pct` and what follows it are fields of the short kind.
  pub record Payload : Type 0 where
    pub device_id : String
    pub sysid : ℕ
    pub vpn_ip : String
    pub connected : Option Bool
    pub armed : Option Bool
    pub flight_mode : String
    pub battery : Option Battery
    pub gps : Option Gps
    pub attitude : Option Attitude
    pub timestamp : ℕ
    pub battery_pct : Option F
    pub voltage_mv : Option F
    pub lat : Option F
    pub lon : Option F
    pub alt_relative_m : Option F
    pub ground_speed_ms : Option F
    pub heading_deg : Option F
    pub roll_deg : Option F
    pub pitch_deg : Option F

module _ {F : Type 0} where
  abbrev pub is_full : Payload F → Bool
  is_full raw = elim raw.gps [
    | none ↦ false
    | some g ↦ elim raw.battery [
      | none ↦ false
      | some b ↦ elim raw.attitude [ none ↦ false | some a ↦ true ]
    ]
  ]

  abbrev pub sysid_of : Option (Payload F) → ℕ
  sysid_of none = 0
  sysid_of (some p) = p.sysid

  abbrev pub vpn_ip_of : Option (Payload F) → String
  vpn_ip_of none = ""
  vpn_ip_of (some p) = p.vpn_ip

  abbrev pub flight_mode_of : Option (Payload F) → String
  flight_mode_of none = ""
  flight_mode_of (some p) = p.flight_mode

module _ {F : Type 0} (literal : ℕ → F) where
  abbrev battery_of : Payload F → Option (Payload F) → Battery F
  battery_of raw prev =
      let old : Option (Battery F) = chain prev (λ p. p.battery) in
      record {
        percentage =
            raw.battery_pct
            // chain raw.battery (λ b. b.percentage)
            // chain old (λ b. b.percentage)
            // some (literal 0);
        voltage_mv =
            raw.voltage_mv
            // chain raw.battery (λ b. b.voltage_mv)
            // chain old (λ b. b.voltage_mv)
            // some (literal 0);
        current_ca =
            chain raw.battery (λ b. b.current_ca)
            // chain old (λ b. b.current_ca)
            // some (literal 0);
      }

  abbrev gps_of : Payload F → Option (Payload F) → Gps F
  gps_of raw prev =
      let old : Option (Gps F) = chain prev (λ p. p.gps) in
      record {
        lat = raw.lat // chain raw.gps (λ g. g.lat) // chain old (λ g. g.lat) // some (literal 0);
        lon = raw.lon // chain raw.gps (λ g. g.lon) // chain old (λ g. g.lon) // some (literal 0);
        alt_relative_m =
            raw.alt_relative_m
            // chain raw.gps (λ g. g.alt_relative_m)
            // chain old (λ g. g.alt_relative_m)
            // some (literal 0);
        ground_speed_ms =
            raw.ground_speed_ms
            // chain raw.gps (λ g. g.ground_speed_ms)
            // chain old (λ g. g.ground_speed_ms)
            // some (literal 0);
        heading_deg =
            raw.heading_deg
            // chain raw.gps (λ g. g.heading_deg)
            // chain old (λ g. g.heading_deg)
            // some (literal 0);
        fix_type =
            chain raw.gps (λ g. g.fix_type) // chain old (λ g. g.fix_type) // some (literal 3);
        satellites =
            chain raw.gps (λ g. g.satellites) // chain old (λ g. g.satellites) // some (literal 10);
      }

  abbrev attitude_of : Payload F → Option (Payload F) → Attitude F
  attitude_of raw prev =
      let old : Option (Attitude F) = chain prev (λ p. p.attitude) in
      record {
        roll_deg =
            raw.roll_deg
            // chain raw.attitude (λ a. a.roll_deg)
            // chain old (λ a. a.roll_deg)
            // some (literal 0);
        pitch_deg =
            raw.pitch_deg
            // chain raw.attitude (λ a. a.pitch_deg)
            // chain old (λ a. a.pitch_deg)
            // some (literal 0);
        yaw_deg =
            raw.heading_deg
            // chain raw.attitude (λ a. a.yaw_deg)
            // chain old (λ a. a.yaw_deg)
            // some (literal 0);
      }

  -- A short payload over what is known of the drone.
  abbrev pub filled : ℕ → Payload F → Option (Payload F) → Payload F
  filled now raw prev = record {
    device_id = raw.device_id;
    sysid = or_number raw.sysid (or_number (sysid_of prev) 1);
    vpn_ip = or_string raw.vpn_ip (vpn_ip_of prev);
    connected = raw.connected // chain prev (λ p. p.connected) // some true;
    armed = raw.armed // chain prev (λ p. p.armed) // some false;
    flight_mode = or_string raw.flight_mode (or_string (flight_mode_of prev) "UNKNOWN");
    battery = some (battery_of raw prev);
    gps = some (gps_of raw prev);
    attitude = some (attitude_of raw prev);
    timestamp = or_number raw.timestamp now;
    battery_pct = none;
    voltage_mv = none;
    lat = none;
    lon = none;
    alt_relative_m = none;
    ground_speed_ms = none;
    heading_deg = none;
    roll_deg = none;
    pitch_deg = none;
  }

  unfoldable pub normalize_telemetry_payload : ℕ → Map (Payload F) → Payload F → Payload F
  normalize_telemetry_payload now cache raw =
      if is_full raw then raw else filled now raw (Map.get cache raw.device_id)
