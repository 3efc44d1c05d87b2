-- ===== src/Browser/Trails.antt =====
-- drone-fleet-manager/public/js/telemetry/render-queue.js: the length of the trails on the map.
use vdt_provisioning_service.Prelude.{
  ℕ, ◌+◌, ◌≤◌, String, ◌≡◌, inl, inr, refl, Bool, true, false, Option, none, some, List, [], ◌∷◌,
  ◌++◌, ◌==◌, All, length, ltb, contains, arith, Bool-cases,
}
use vdt_provisioning_service.Prelude.Map
use vdt_provisioning_service.Prelude.Map.{Map}
use vdt_provisioning_service.Prelude.Entries.{All-set, All-get}
use vdt_provisioning_service.Telemetry.{Payload}
use vdt_provisioning_service.Browser.{
  Page, Received, is_admin, stamped, is_known, is_drone_online, shift, add_point, position, on_map,
  move_marker, moved, process_telemetry_update, process_all, on_frame, on_visible,
  queue_telemetry_for_render,
}
use vdt_provisioning_service.Browser.Queue.{Event, arrives, frame, visible, on_event, run}

module _ {F : Type 0} where
  length-snoc : (p : F × F) (ps : List (F × F)) → length (ps ++ p ∷ []) ≡ length ps + 1
  length-snoc p [] = omega arith
  length-snoc p (q ∷ ps) = ground (arith, length-snoc p ps)

  length-shift : (ps : List (F × F)) → length ps ≤ 1001 → length (shift ps) ≤ 1000
  length-shift [] h = omega arith
  length-shift (p ∷ ps) h = omega arith

  length-add_point :
      (p : F × F) (ps : List (F × F)) → length ps ≤ 1000 → length (add_point p ps) ≤ 1000
  length-add_point p ps h = elim (Bool-cases (ltb 1000 (length (ps ++ p ∷ [])))) [
    | inl e ↦ rw e (length-shift (ps ++ p ∷ []) (ground (arith, length-snoc p ps)))
    | inr e ↦ rw e (ground arith)
  ]

  abbrev pub IsShort : Map (List (F × F)) → Type 0
  IsShort m = All (λ e. length e.1 ≤ 1000) m

  moved-IsShort :
      (i : String) (p : F × F) (there : Bool) (o : Option (List (F × F))) (b : Page F)
      → Map.get b.trails i ≡ o
      → IsShort b.trails
      → IsShort (moved i p there o b).trails
  moved-IsShort i p false o b q h = All-set _ b.trails i (p ∷ []) (omega arith) h
  moved-IsShort i p true none b q h = h
  moved-IsShort i p true (some ps) b q h =
      All-set _ b.trails i (add_point p ps)
        (length-add_point p ps (All-get (λ xs. length xs ≤ 1000) b.trails i ps h q)) h

  module _ (is_zero : F → Bool) where
    move_marker-IsShort :
        (i : String) (o : Option (F × F)) (b : Page F)
        → IsShort b.trails
        → IsShort (move_marker is_zero i o b).trails
    move_marker-IsShort i none b h = h
    move_marker-IsShort i (some p) b h =
        moved-IsShort i p (contains b.markers i) (Map.get b.trails i) b refl h

    on_map-IsShort :
        (now : ℕ) (r : Received F) (b : Page F)
        → IsShort b.trails
        → IsShort (on_map is_zero now r b).trails
    on_map-IsShort now r b h = elim (Bool-cases (is_drone_online now r)) [
      | inl e ↦ rw e (move_marker-IsShort r.payload.device_id (position is_zero r.payload) b h)
      | inr e ↦ rw e h
    ]

    process-IsShort :
        (now : ℕ) (t : Payload F) (b : Page F)
        → IsShort b.trails
        → IsShort (process_telemetry_update is_zero now t b).trails
    unfolding process_telemetry_update
    process-IsShort now t b h = elim (Bool-cases (t.device_id == "")) [
      | inl e ↦ rw e h
      | inr e ↦ elim (Bool-cases (is_known t.device_id b.fleet_devices)) [
        | inl k ↦ rw (e, k) (on_map-IsShort now (stamped now t) _ h)
        | inr k ↦ elim (Bool-cases (is_admin b.role)) [
          | inl a ↦ rw (e, k, a) (on_map-IsShort now (stamped now t) _ h)
          | inr a ↦ rw (e, k, a) h
        ]
      ]
    ]

    process_all-IsShort :
        (now : ℕ) (ts : List (Payload F)) (b : Page F)
        → IsShort b.trails
        → IsShort (process_all is_zero now ts b).trails
    unfolding process_all
    process_all-IsShort now [] b h = h
    process_all-IsShort now (t ∷ ts) b h = process_all-IsShort now ts _ (process-IsShort now t b h)

    on_event-IsShort :
        (now : ℕ) (e : Event F) (b : Page F)
        → IsShort b.trails
        → IsShort (on_event is_zero now e b).trails
    unfolding on_event on_frame on_visible queue_telemetry_for_render
    on_event-IsShort now (arrives t) b h = elim (Bool-cases (t.device_id == "")) [
      | inl e ↦ rw e h
      | inr e ↦ rw e h
    ]
    on_event-IsShort now frame b h =
        process_all-IsShort now (Map.values b.telemetry_render_queue)
          (record b { is_render_frame_scheduled = false }) h
    on_event-IsShort now visible b h =
        process_all-IsShort now (Map.values b.telemetry_render_queue) b h

    -- Whatever comes, a trail on the map has at most a thousand points, if that was so at first.
    pub run-IsShort :
        (es : List (ℕ × Event F)) (b : Page F)
        → IsShort b.trails
        → IsShort (run is_zero es b).trails
    unfolding run
    run-IsShort [] b h = h
    run-IsShort ((now, e) ∷ es) b h = run-IsShort es _ (on_event-IsShort now e b h)
