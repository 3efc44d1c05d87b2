-- ===== src/Telemetry/State.antt =====
-- drone-fleet-manager/src/telemetry/telemetry.service.ts: what getDeviceState answers, and what it
-- leaves in the cache.
use vdt_provisioning_service.Prelude.{
  ℕ, String, ◌≡◌, inl, inr, refl, ◌∙◌, true, Option, none, some, eq_refl, Bool-cases,
}
use vdt_provisioning_service.Prelude.Map
use vdt_provisioning_service.Prelude.Map.{Map, get-set}
use vdt_provisioning_service.Prelude.Effect.{ok}
use vdt_provisioning_service.Services.{Services}
use vdt_provisioning_service.Services.Tables.{Device}
use vdt_provisioning_service.Device.{find_by_device_id}
use vdt_provisioning_service.TelemetryGateway.Rooms.{Adapter}
use vdt_provisioning_service.Telemetry.{Payload, is_full, normalize_telemetry_payload}
use vdt_provisioning_service.Telemetry.Monitor.{Monitor, clock, offline}
use vdt_provisioning_service.Telemetry.Fleet.{is_stale, checked}
use vdt_provisioning_service.Telemetry.Snapshot.{mark_at}
use vdt_provisioning_service.Telemetry.Queries.{
  DeviceState, get_device_state, state_for, report, answer,
}

module _ {v : Services} {a : Adapter} {F : Type 0} where
  report_lem :
      (literal : ℕ → F) (i : String) (d : Option Device) (t : Payload F) (s : Monitor v a F)
      → Map.get s.in_memory_cache i ≡ some t
      → is_full t ≡ true
      → let r = report literal i d t (some t) s in
        ((x : DeviceState F) × (r.0 ≡ ok x) × (x.telemetry ≡ checked (clock r.1) t))
        × (Map.get r.1.in_memory_cache i ≡ some (checked (clock r.1) t))
  unfolding report answer normalize_telemetry_payload mark_at
  report_lem literal i none t s held full = elim (Bool-cases (is_stale (clock s) t)) [
    | inl o ↦
        rw (full, o)
          ((_, refl, refl), (get-set s.in_memory_cache i i (offline t) ∙ rw (eq_refl i) refl))
    | inr o ↦ rw (full, o) ((_, refl, refl), held)
  ]
  report_lem literal i (some device) t s held full = elim (Bool-cases (is_stale (clock s) t)) [
    | inl o ↦
        rw (full, o)
          ((_, refl, refl), (get-set s.in_memory_cache i i (offline t) ∙ rw (eq_refl i) refl))
    | inr o ↦ rw (full, o) ((_, refl, refl), held)
  ]

  -- For a drone with a full payload in the cache, a request that finds out whether there is a row
  -- answers with that payload, as offline if it is more than ten seconds old, and leaves exactly the
  -- same payload in the cache.
  pub get_device_state_cached :
      (literal : ℕ → F) (parse : String → Option (Payload F)) (i : String) (s : Monitor v a F)
      (t : Payload F) (d : Option Device)
      → Map.get s.in_memory_cache i ≡ some t
      → is_full t ≡ true
      → (find_by_device_id i s.hub.world).0 ≡ ok d
      → let r = get_device_state literal parse i s in
        ((x : DeviceState F) × (r.0 ≡ ok x) × (x.telemetry ≡ checked (clock r.1) t))
        × (Map.get r.1.in_memory_cache i ≡ some (checked (clock r.1) t))
  unfolding get_device_state state_for
  get_device_state_cached literal parse i s t d held full found =
      rw (found, held, state_for) (report_lem literal i d t _ held full)
