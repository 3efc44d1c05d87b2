-- ===== src/Browser/Frames.antt =====
-- drone-fleet-manager/public/js/telemetry/render-queue.js: what a frame leaves in the list of drones.
use vdt_provisioning_service.Prelude.{
  ℕ, String, ◌≡◌, inl, inr, refl, sym, subst, ◌∙◌, Bool, true, false, Option, none, some, List, [],
  ◌∷◌, ◌++◌, ◌==◌, All, contains, eq_iff, arith, Bool-cases, if◌then◌else◌,
}
use vdt_provisioning_service.Prelude.Map
use vdt_provisioning_service.Prelude.Map.{Map, IsDistinct}
use vdt_provisioning_service.Telemetry.{Payload}
use vdt_provisioning_service.Browser.{
  Page, FleetDevice, Received, stamped, is_known, is_drone_online, put_telemetry, found_device,
  position, on_map, move_marker, moved, process_telemetry_update, process_all, on_frame,
}
use vdt_provisioning_service.Browser.Queue.{IsWaiting}

-- Two tests of one name agree.
same_name : (a b k : String) → (a == b) ≡ true → (b == k) ≡ false → (a == k) ≡ false
same_name a b k e apart = subst (λ x. (x == k) ≡ false) (sym ((eq_iff a b).0 e)) apart

module _ {F : Type 0} where
  -- The telemetry that the list has for a drone.
  abbrev pub telemetry_of : String → List (FleetDevice F) → Option (Received F)
  telemetry_of k [] = none
  telemetry_of k (d ∷ ds) = if d.device_id == k then d.telemetry else telemetry_of k ds

  put_here :
      (r : Received F) (ds : List (FleetDevice F))
      → is_known r.payload.device_id ds ≡ true
      → (telemetry_of r.payload.device_id (put_telemetry r ds) ≡ some r)
        × (is_known r.payload.device_id (put_telemetry r ds) ≡ true)
  unfolding put_telemetry
  put_here r [] known = cc
  put_here r (d ∷ ds) known = elim (Bool-cases (d.device_id == r.payload.device_id)) [
    | inl e ↦ rw e (rw e refl, rw e refl)
    | inr e ↦ rw e (rw e (put_here r ds (rw e at known)))
  ]

  put_elsewhere :
      (k : String) (r : Received F) (ds : List (FleetDevice F))
      → (r.payload.device_id == k) ≡ false
      → (telemetry_of k (put_telemetry r ds) ≡ telemetry_of k ds)
        × (is_known k (put_telemetry r ds) ≡ is_known k ds)
  unfolding put_telemetry
  put_elsewhere k r [] apart = (refl, refl)
  put_elsewhere k r (d ∷ ds) apart = elim (Bool-cases (d.device_id == r.payload.device_id)) [
    | inl e ↦ rw (e, same_name d.device_id r.payload.device_id k e apart) (refl, refl)
    | inr e ↦ rw e (elim (Bool-cases (d.device_id == k)) [
      | inl f ↦ rw f (refl, refl)
      | inr f ↦ rw f (put_elsewhere k r ds apart)
    ])
  ]

  appended :
      (k : String) (d : FleetDevice F) (ds : List (FleetDevice F))
      → is_known k ds ≡ true
      → (telemetry_of k (ds ++ d ∷ []) ≡ telemetry_of k ds) × (is_known k (ds ++ d ∷ []) ≡ true)
  appended k d [] known = cc
  appended k d (c ∷ ds) known = elim (Bool-cases (c.device_id == k)) [
    | inl e ↦ rw e (refl, refl)
    | inr e ↦ rw e (appended k d ds (rw e at known))
  ]

  -- The list has a drone, with this telemetry.
  abbrev Shows : String → Option (Received F) → List (FleetDevice F) → Type 0
  Shows k o ds = (telemetry_of k ds ≡ o) × (is_known k ds ≡ true)

  Shows-put :
      (k : String) (o : Option (Received F)) (r : Received F) (ds : List (FleetDevice F))
      → (r.payload.device_id == k) ≡ false
      → Shows k o ds
      → Shows k o (put_telemetry r ds)
  Shows-put k o r ds apart h =
      ((put_elsewhere k r ds apart).0 ∙ h.0, (put_elsewhere k r ds apart).1 ∙ h.1)

  Shows-append :
      (k : String) (o : Option (Received F)) (d : FleetDevice F) (ds : List (FleetDevice F))
      → Shows k o ds
      → Shows k o (ds ++ d ∷ [])
  Shows-append k o d ds h = ((appended k d ds h.1).0 ∙ h.0, (appended k d ds h.1).1)

  module _ (is_zero : F → Bool) where
    moved-fleet_devices :
        (i : String) (p : F × F) (there : Bool) (o : Option (List (F × F))) (b : Page F)
        → (moved i p there o b).fleet_devices ≡ b.fleet_devices
    moved-fleet_devices i p false o b = refl
    moved-fleet_devices i p true none b = refl
    moved-fleet_devices i p true (some ps) b = refl

    move_marker-fleet_devices :
        (i : String) (o : Option (F × F)) (b : Page F)
        → (move_marker is_zero i o b).fleet_devices ≡ b.fleet_devices
    move_marker-fleet_devices i none b = refl
    move_marker-fleet_devices i (some p) b =
        moved-fleet_devices i p (contains b.markers i) (Map.get b.trails i) b

    on_map-fleet_devices :
        (now : ℕ) (r : Received F) (b : Page F)
        → (on_map is_zero now r b).fleet_devices ≡ b.fleet_devices
    on_map-fleet_devices now r b = elim (Bool-cases (is_drone_online now r)) [
      | inl e ↦ rw e (move_marker-fleet_devices r.payload.device_id (position is_zero r.payload) b)
      | inr e ↦ rw e refl
    ]

    Shows-on_map :
        (now : ℕ) (r : Received F) (b : Page F) (k : String) (o : Option (Received F))
        → Shows k o b.fleet_devices
        → Shows k o (on_map is_zero now r b).fleet_devices
    Shows-on_map now r b k o h = subst (Shows k o) (sym (on_map-fleet_devices now r b)) h

    process_elsewhere :
        (now : ℕ) (t : Payload F) (b : Page F) (k : String) (o : Option (Received F))
        → (t.device_id == k) ≡ false
        → Shows k o b.fleet_devices
        → Shows k o (process_telemetry_update is_zero now t b).fleet_devices
    unfolding process_telemetry_update
    process_elsewhere now t b k o apart h = elim (Bool-cases (t.device_id == "")) [
      | inl e ↦ rw e h
      | inr e ↦ elim (Bool-cases (is_known t.device_id b.fleet_devices)) [
        | inl f ↦
            rw (e, f)
              (Shows-on_map now (stamped now t) _ k o
                (Shows-put k o (stamped now t) b.fleet_devices apart h))
        | inr f ↦ elim (Bool-cases (elim b.role [ none ↦ false | some role ↦ role == "ADMIN" ])) [
          | inl a ↦
              rw (e, f, a)
                (Shows-on_map now (stamped now t) _ k o
                  (Shows-append k o (found_device (stamped now t)) b.fleet_devices h))
          | inr a ↦ rw (e, f, a) h
        ]
      ]
    ]

    process_here :
        (now : ℕ) (t : Payload F) (b : Page F)
        → (t.device_id == "") ≡ false
        → is_known t.device_id b.fleet_devices ≡ true
        → Shows t.device_id
            (some (stamped now t))
            (process_telemetry_update is_zero now t b).fleet_devices
    unfolding process_telemetry_update
    process_here now t b named known =
        rw (named, known)
          (Shows-on_map now (stamped now t) _ t.device_id (some (stamped now t))
            (put_here (stamped now t) b.fleet_devices known))

    process_at :
        (now : ℕ) (t : Payload F) (b : Page F) (k : String)
        → t.device_id ≡ k
        → (k == "") ≡ false
        → is_known k b.fleet_devices ≡ true
        → Shows k (some (stamped now t)) (process_telemetry_update is_zero now t b).fleet_devices
    process_at now t b k same named known =
        subst
          (λ x.
            Shows x (some (stamped now t)) (process_telemetry_update is_zero now t b).fleet_devices)
          same
          (process_here now t b (subst (λ x. (x == "") ≡ false) (sym same) named)
            (subst (λ x. is_known x b.fleet_devices ≡ true) (sym same) known))

    all_elsewhere :
        (now : ℕ) (m : Map (Payload F)) (b : Page F) (k : String) (o : Option (Received F))
        → All (λ e. e.1.device_id ≡ e.0) m
        → Map.get m k ≡ none
        → Shows k o b.fleet_devices
        → Shows k o (process_all is_zero now (Map.values m) b).fleet_devices
    unfolding process_all Map.get
    all_elsewhere now [] b k o names absent h = h
    all_elsewhere now ((j, t) ∷ m) b k o (same, names) absent h = elim (Bool-cases (j == k)) [
      | inl e ↦ cc
      | inr e ↦
          all_elsewhere now m _ k o names (rw e at absent)
            (process_elsewhere now t b k o (subst (λ x. (x == k) ≡ false) (sym same) e) h)
    ]

    all_here :
        (now : ℕ) (m : Map (Payload F)) (b : Page F) (k : String) (t : Payload F)
        → IsDistinct m
        → All (λ e. e.1.device_id ≡ e.0) m
        → Map.get m k ≡ some t
        → (k == "") ≡ false
        → is_known k b.fleet_devices ≡ true
        → Shows k (some (stamped now t)) (process_all is_zero now (Map.values m) b).fleet_devices
    unfolding process_all Map.get
    all_here now [] b k t distinct names waits named known = cc
    all_here now ((j, u) ∷ m) b k t (alone, distinct) (same, names) waits named known =
        elim (Bool-cases (j == k)) [
          | inl e ↦
              let this = (eq_iff j k).0 e in
              subst
                (λ x.
                  Shows k (some (stamped now x))
                    (process_all is_zero now (Map.values ((j, u) ∷ m)) b).fleet_devices)
                (ground arith)
                (all_elsewhere now m _ k (some (stamped now u)) names
                  (subst (λ x. Map.get m x ≡ none) this alone)
                  (process_at now u b k (same ∙ this) named known))
          | inr e ↦
              all_here now m _ k t distinct names (rw e at waits) named
                (process_elsewhere now u b k (telemetry_of k b.fleet_devices)
                  (subst (λ x. (x == k) ≡ false) (sym same) e) (refl, known)).1
        ]

    -- If a payload waits for a drone that has a name and is in the list, and what waits does so once
    -- and under the name of its drone, then after the frame the list has that payload for the drone,
    -- with the time of the frame, and connected where it does not say, whatever the others that waited, and nothing waits any more.
    pub on_frame_shows :
        (now : ℕ) (b : Page F) (k : String) (t : Payload F)
        → IsWaiting b
        → Map.get b.telemetry_render_queue k ≡ some t
        → (k == "") ≡ false
        → is_known k b.fleet_devices ≡ true
        → (telemetry_of k (on_frame is_zero now b).fleet_devices
            ≡ some (record {
              payload = record t {
                connected = elim t.connected [ none ↦ some true | some c ↦ some c ];
              };
              last_received_at = now;
            }))
          × ((on_frame is_zero now b).telemetry_render_queue ≡ [])
    unfolding on_frame
    on_frame_shows now b k t h waits named known = (
      (all_here now b.telemetry_render_queue (record b { is_render_frame_scheduled = false }) k t
          h.distinct h.named waits named known).0,
      refl,
    )
