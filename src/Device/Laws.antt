-- ===== src/Device/Laws.antt =====
-- What the writes of device.service.ts do to the tables.
use vdt_provisioning_service.Prelude.{String, ◌≡◌, inl, inr, sym, ap, ◌∙◌, subst, ◌==◌, arith}
use vdt_provisioning_service.Prelude.Effect.{Result, ok, err, Failure, Result-cases}
use vdt_provisioning_service.Services.{Services, World}
use vdt_provisioning_service.Services.Tables.{Device, Devices, IsCreated, IsUpdated}
use vdt_provisioning_service.RedisService.Laws.{map_ip_to_device_keeps}
use vdt_provisioning_service.Device.{
  CreateInput, UpdateInput, new_row, patch_of, text_of, create_device, update_device,
}

abbrev pub devices : {v : Services} → World v → Devices
devices {v} w = v.database.devices w.db

-- The write and the map of addresses: the database has the last word, Redis the least.
module _ {v : Services} (w : World v) where
  abbrev created : CreateInput → Result Device × v.database.Db
  created i = v.database.create (new_row i) w.db

  pub create_device_lem :
      (i : CreateInput)
      → ((create_device i w).0 ≡ (created i).0)
        × ((create_device i w).1.db ≡ (created i).1)
        × ((create_device i w).1.host ≡ w.host)
        × ((create_device i w).1.now ≡ w.now)
  unfolding create_device
  create_device_lem i = ground (
    arith,
    map_ip_to_device_keeps (record w { db = (created i).1 }) (text_of i.vpn_ip) i.device_id,
  )

  pub create_device-IsCreated :
      (i : CreateInput) (d : Device)
      → (create_device i w).0 ≡ ok d
      → IsCreated (new_row i) (devices w) (devices (create_device i w).1) d
  create_device-IsCreated i d h =
      let (r, s, _, _) = create_device_lem i in
      subst (λ db. IsCreated (new_row i) (devices w) (v.database.devices db) d) (sym s)
        (v.database.create_creates (new_row i) w.db d (sym r ∙ h))

  pub create_device_fails :
      (i : CreateInput) (e : Failure)
      → (create_device i w).0 ≡ err e
      → devices (create_device i w).1 ≡ devices w
  create_device_fails i e h =
      let (r, s, _, _) = create_device_lem i in
      ap v.database.devices s ∙ v.database.create_fails (new_row i) w.db e (sym r ∙ h)

  abbrev updated : String → UpdateInput → Result Device × v.database.Db
  updated id i = v.database.update id (patch_of i) w.db

  pub update_device_lem :
      (id : String) (i : UpdateInput)
      → ((update_device id i w).0 ≡ (updated id i).0)
        × ((update_device id i w).1.db ≡ (updated id i).1)
        × ((update_device id i w).1.host ≡ w.host)
        × ((update_device id i w).1.now ≡ w.now)
  unfolding update_device
  update_device_lem id i = elim (Result-cases (updated id i).0) [
    | inl (d, q) ↦ ground (
      arith,
      map_ip_to_device_keeps (record w { db = (updated id i).1 }) (text_of d.vpn_ip) d.device_id,
    )
    | inr (e, q) ↦ ground arith
  ]

  pub update_device-IsUpdated :
      (id : String) (i : UpdateInput) (d : Device)
      → (update_device id i w).0 ≡ ok d
      → IsUpdated (λ r. r.id == id) (patch_of i) (devices w) (devices (update_device id i w).1) d
  update_device-IsUpdated id i d h =
      let (r, s, _, _) = update_device_lem id i in
      subst (λ db. IsUpdated (λ r. r.id == id) (patch_of i) (devices w) (v.database.devices db) d)
        (sym s) (v.database.update_updates id (patch_of i) w.db d (sym r ∙ h))

  pub update_device_fails :
      (id : String) (i : UpdateInput) (e : Failure)
      → (update_device id i w).0 ≡ err e
      → devices (update_device id i w).1 ≡ devices w
  update_device_fails id i e h =
      let (r, s, _, _) = update_device_lem id i in
      ap v.database.devices s ∙ v.database.update_fails id (patch_of i) w.db e (sym r ∙ h)
