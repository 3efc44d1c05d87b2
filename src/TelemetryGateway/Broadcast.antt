-- ===== src/TelemetryGateway/Broadcast.antt =====
-- Who is sent the telemetry of a drone.
use vdt_provisioning_service.Prelude.{
  ◌-◌, String, ◌≡◌, ◌⊎◌, inl, inr, refl, ap, ◌∙◌, Option, none, some, ◌==◌, Elem, All, arith,
  Bool-cases, Option-cases, ltb,
}
use vdt_provisioning_service.Prelude.Map
use vdt_provisioning_service.Prelude.Effect.{Result, ok, err}
use vdt_provisioning_service.Services.{Services}
use vdt_provisioning_service.Services.Tables.{Device, Devices}
use vdt_provisioning_service.Device.{find_by_device_id}
use vdt_provisioning_service.Device.Laws.{devices}
use vdt_provisioning_service.Device.Identity.Laws.{found_by_id}
use vdt_provisioning_service.TelemetryGateway.Rooms.{Adapter}
use vdt_provisioning_service.TelemetryGateway.{
  Hub, drone_room, user_room, owner_id, owner_rooms, or_never, looked_up, look_up, to_owner,
  broadcast_telemetry,
}

-- The table gives the drone to the user.
abbrev pub IsOwner : String → String → Devices → Type 0
IsOwner u device_id rows =
    (d : Device) × Elem d rows × (d.device_id ≡ device_id) × (d.user_id ≡ some u)

owner_id-eq : (d : Device) (u : String) → owner_id (some d) ≡ some u → d.user_id ≡ some u
owner_id-eq d u h = elim (Option-cases d.user_id) [
  | inl e ↦ absurd (ground arith)
  | inr (x, e) ↦ elim (Bool-cases (x == "")) [
    | inl b ↦ absurd (ground arith)
    | inr b ↦ ground arith
  ]
]

owner_rooms-All :
    (P : String → Type 0) (o : Option String)
    → ((u : String) → o ≡ some u → P (user_room u))
    → All P (owner_rooms o)
owner_rooms-All P none h = tt
owner_rooms-All P (some u) h = elim (Bool-cases (u == "")) [
  | inl e ↦ rw e tt
  | inr e ↦ rw e (h u refl, tt)
]

module _ {v : Services} {a : Adapter} where
  -- A room is the drone's, the administrators', or that of the owner the cache or the table names.
  abbrev pub IsAddressed : String → Hub v a → String → Type 0
  IsAddressed device_id h room =
      (room ≡ drone_room device_id)
      ⊎ (room ≡ "admin")
      ⊎ ((u : String) × (room ≡ user_room u)
          × ((Map.get h.device_owner_cache device_id ≡ some (some u))
              ⊎ IsOwner u device_id (devices h.world)))

  looked_up-All :
      (P : String → Type 0) (device_id : String) (r : Result (Option Device)) (h : Hub v a)
      → ((d : Device) (u : String) → r ≡ ok (some d) → d.user_id ≡ some u → P (user_room u))
      → All P (looked_up device_id r h).0
  unfolding looked_up
  looked_up-All P device_id (err e) h good = tt
  looked_up-All P device_id (ok none) h good = tt
  looked_up-All P device_id (ok (some d)) h good =
      owner_rooms-All P (owner_id (some d)) (λ u e. good d u refl (owner_id-eq d u e))

  look_up-All :
      (device_id : String) (h : Hub v a) → All (IsAddressed device_id h) (look_up device_id h).0
  unfolding look_up
  look_up-All device_id h =
      looked_up-All (IsAddressed device_id h) device_id (find_by_device_id device_id h.world).0 _
        (λ d u q e.
          let (there, same) = found_by_id h.world device_id d q in
          inr (inr (u, refl, inr (d, there, same, e))))

  to_owner-All :
      (device_id : String) (o : Option (Option String)) (h : Hub v a)
      → Map.get h.device_owner_cache device_id ≡ o
      → All (IsAddressed device_id h) (to_owner device_id o h).0
  unfolding to_owner
  to_owner-All device_id none h q = look_up-All device_id h
  to_owner-All device_id (some none) h q =
      elim (Bool-cases (ltb 5000 (h.world.now - or_never (Map.get h.last_cache_check device_id)))) [
        | inl e ↦ rw (e, to_owner) (look_up-All device_id h)
        | inr e ↦ rw (e, to_owner) tt
      ]
  to_owner-All device_id (some (some u)) h q =
      owner_rooms-All (IsAddressed device_id h) (some u)
        (λ x e. inr (inr (x, refl, inl (q ∙ ap some e))))

  -- Every room that a broadcast for a drone is sent to is the room of that drone, the room of the
  -- administrators, or the room of the owner that the cache or the table of devices names.
  pub broadcast_telemetry-IsAddressed :
      (device_id : String) (h : Hub v a)
      → All (IsAddressed device_id h) (broadcast_telemetry device_id h).0
  unfolding broadcast_telemetry
  broadcast_telemetry-IsAddressed device_id h = elim (Bool-cases (device_id == "")) [
    | inl e ↦ rw e tt
    | inr e ↦ rw e (
      inl refl,
      (inr (inl refl), to_owner-All device_id (Map.get h.device_owner_cache device_id) h refl),
    )
  ]
