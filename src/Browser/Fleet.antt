-- ===== src/Browser/Fleet.antt =====
-- drone-fleet-manager/public/js/telemetry/render-queue.js: which drones the list can have.
use vdt_provisioning_service.Prelude.{
  ℕ, String, ◌≡◌, inl, inr, refl, ap, ◌∙◌, Bool, true, false, Option, none, some, List, [], ◌∷◌,
  ◌==◌, contains, Bool-cases,
}
use vdt_provisioning_service.Prelude.Map
use vdt_provisioning_service.Prelude.Map.{Map}
use vdt_provisioning_service.Telemetry.{Payload}
use vdt_provisioning_service.Browser.{
  Page, FleetDevice, Received, is_admin, stamped, is_known, is_drone_online, put_telemetry,
  position, on_map, move_marker, moved, process_telemetry_update, process_all, on_frame, on_visible,
  queue_telemetry_for_render,
}
use vdt_provisioning_service.Browser.Queue.{Event, arrives, frame, visible, on_event, run}

module _ {F : Type 0} where
  abbrev pub ids : List (FleetDevice F) → List String
  ids [] = []
  ids (d ∷ ds) = d.device_id ∷ ids ds

  put-ids : (r : Received F) (ds : List (FleetDevice F)) → ids (put_telemetry r ds) ≡ ids ds
  unfolding put_telemetry
  put-ids r [] = refl
  put-ids r (d ∷ ds) = elim (Bool-cases (d.device_id == r.payload.device_id)) [
    | inl e ↦ rw e refl
    | inr e ↦ rw e (ap (λ xs. d.device_id ∷ xs) (put-ids r ds))
  ]

  -- The list has the same drones, and the user is the same.
  abbrev IsSame : Page F → Page F → Type 0
  IsSame b c = (ids c.fleet_devices ≡ ids b.fleet_devices) × (c.role ≡ b.role)

  module _ (is_zero : F → Bool) where
    moved-IsSame :
        (i : String) (p : F × F) (there : Bool) (o : Option (List (F × F))) (b : Page F)
        → IsSame b (moved i p there o b)
    moved-IsSame i p false o b = (refl, refl)
    moved-IsSame i p true none b = (refl, refl)
    moved-IsSame i p true (some ps) b = (refl, refl)

    move_marker-IsSame :
        (i : String) (o : Option (F × F)) (b : Page F) → IsSame b (move_marker is_zero i o b)
    move_marker-IsSame i none b = (refl, refl)
    move_marker-IsSame i (some p) b = moved-IsSame i p (contains b.markers i) (Map.get b.trails i) b

    on_map-IsSame : (now : ℕ) (r : Received F) (b : Page F) → IsSame b (on_map is_zero now r b)
    on_map-IsSame now r b = elim (Bool-cases (is_drone_online now r)) [
      | inl e ↦ rw e (move_marker-IsSame r.payload.device_id (position is_zero r.payload) b)
      | inr e ↦ rw e (refl, refl)
    ]

    process-IsSame :
        (now : ℕ) (t : Payload F) (b : Page F)
        → is_admin b.role ≡ false
        → IsSame b (process_telemetry_update is_zero now t b)
    unfolding process_telemetry_update
    process-IsSame now t b pilot = elim (Bool-cases (t.device_id == "")) [
      | inl e ↦ rw e (refl, refl)
      | inr e ↦ elim (Bool-cases (is_known t.device_id b.fleet_devices)) [
        | inl f ↦
            let there =
              on_map-IsSame now (stamped now t)
                (record b { fleet_devices = put_telemetry (stamped now t) b.fleet_devices }) in
            rw (e, f) (there.0 ∙ put-ids (stamped now t) b.fleet_devices, there.1)
        | inr f ↦ rw (e, f, pilot) (refl, refl)
      ]
    ]

    process_all-IsSame :
        (now : ℕ) (ts : List (Payload F)) (b : Page F)
        → is_admin b.role ≡ false
        → IsSame b (process_all is_zero now ts b)
    unfolding process_all
    process_all-IsSame now [] b pilot = (refl, refl)
    process_all-IsSame now (t ∷ ts) b pilot =
        let first = process-IsSame now t b pilot in
        let rest =
          process_all-IsSame now ts (process_telemetry_update is_zero now t b)
            (ap is_admin first.1 ∙ pilot) in
        (rest.0 ∙ first.0, rest.1 ∙ first.1)

    on_event-IsSame :
        (now : ℕ) (e : Event F) (b : Page F)
        → is_admin b.role ≡ false
        → IsSame b (on_event is_zero now e b)
    unfolding on_event on_frame on_visible queue_telemetry_for_render
    on_event-IsSame now (arrives t) b pilot = elim (Bool-cases (t.device_id == "")) [
      | inl e ↦ rw e (refl, refl)
      | inr e ↦ rw e (refl, refl)
    ]
    on_event-IsSame now frame b pilot =
        process_all-IsSame now (Map.values b.telemetry_render_queue)
          (record b { is_render_frame_scheduled = false }) pilot
    on_event-IsSame now visible b pilot =
        process_all-IsSame now (Map.values b.telemetry_render_queue) b pilot

    run-IsSame :
        (es : List (ℕ × Event F)) (b : Page F)
        → is_admin b.role ≡ false
        → IsSame b (run is_zero es b)
    unfolding run
    run-IsSame [] b pilot = (refl, refl)
    run-IsSame ((now, e) ∷ es) b pilot =
        let first = on_event-IsSame now e b pilot in
        let rest = run-IsSame es (on_event is_zero now e b) (ap is_admin first.1 ∙ pilot) in
        (rest.0 ∙ first.0, rest.1 ∙ first.1)

    -- On the page of a user who is no ADMIN, no sequence of payloads, frames and returns to the page
    -- puts a drone into the list or takes one out.
    pub run-ids :
        (es : List (ℕ × Event F)) (b : Page F)
        → is_admin b.role ≡ false
        → ids (run is_zero es b).fleet_devices ≡ ids b.fleet_devices
    run-ids es b pilot = (run-IsSame es b pilot).0
