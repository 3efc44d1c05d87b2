-- ===== src/Provisioning/Steps.antt =====
-- The guarded steps of a key rotation, one by one.
use vdt_provisioning_service.Prelude.{
  String, ◌≡◌, ◌≢◌, ◌⊎◌, inl, inr, refl, Option, none, some, ◌==◌, eq_iff, arith, Bool-cases,
}
use vdt_provisioning_service.Prelude.Effect.{ok, err, Failure, Result-cases}
use vdt_provisioning_service.Services.{Services, World}
use vdt_provisioning_service.Services.Tables.{Device}
use vdt_provisioning_service.Wireguard.{Keypair, add_peer, remove_peer}
use vdt_provisioning_service.Wireguard.Laws.{
  SameButHost, add_peer_same, remove_peer_returns, remove_peer_same,
}
use vdt_provisioning_service.Device.{update_device}
use vdt_provisioning_service.Device.Laws.{devices, update_device_fails}
use vdt_provisioning_service.IpPool.{subnet}
use vdt_provisioning_service.IpPool.Allocation.{
  IsAllocated, allocate_ip-IsAllocated, allocate_ip_keeps,
}
use vdt_provisioning_service.Provisioning.{
  RegisterDto, row_update, kept_ip, remove_old, restore_old, rotated_peer, rotated_row,
}

-- The address of a rotated device: the one that it had, or a free one if it had none.
abbrev pub IsKept : {v : Services} → World v → Option String → String → Type 0
IsKept {v} w old ip = ((old ≡ some ip) × (ip ≢ "")) ⊎ IsAllocated (subnet v) (devices w) ip

module _ {v : Services} (w : World v) where
  pub kept_ip-IsKept : (o : Option String) (ip : String) → (kept_ip o w).0 ≡ ok ip → IsKept w o ip
  unfolding kept_ip
  kept_ip-IsKept none ip h = inr (allocate_ip-IsAllocated w ip h)
  kept_ip-IsKept (some old) ip h = elim (Bool-cases (old == "")) [
    | inl empty ↦ inr (allocate_ip-IsAllocated w ip (rw (empty, kept_ip) at h))
    | inr set ↦ inl (ground arith, λ e. ground (arith, eq_iff old ""))
  ]

  pub kept_ip_keeps :
      (o : Option String) → (devices (kept_ip o w).1 ≡ devices w) × ((kept_ip o w).1.now ≡ w.now)
  unfolding kept_ip
  kept_ip_keeps none = ((allocate_ip_keeps w).0, (allocate_ip_keeps w).3)
  kept_ip_keeps (some old) = elim (Bool-cases (old == "")) [
    | inl empty ↦ rw empty ((allocate_ip_keeps w).0, (allocate_ip_keeps w).3)
    | inr set ↦ rw set (refl, refl)
  ]

  pub remove_old_same : (old : String) → SameButHost w (remove_old old w).1
  unfolding remove_old
  remove_old_same old = ground (arith, remove_peer_same w old)

  restore_old_returns : (old ip : String) → (restore_old old ip w).0 ≡ ok tt
  unfolding restore_old
  restore_old_returns old ip = ground arith

  restore_old_same : (old ip : String) → SameButHost w (restore_old old ip w).1
  unfolding restore_old
  restore_old_same old ip = ground (arith, add_peer_same w old ip)

module _ {v : Services} (w : World v) where
  pub rotated_peer_ok :
      (old ip : String) (keys : Keypair)
      → (rotated_peer old ip keys w).0 ≡ ok tt
      → ((add_peer keys.public_key ip w).0 ≡ ok tt)
        × ((rotated_peer old ip keys w).1 ≡ (add_peer keys.public_key ip w).1)
  unfolding rotated_peer
  rotated_peer_ok old ip keys h =
      ground (arith, restore_old_returns (add_peer keys.public_key ip w).1 old ip)

  pub rotated_peer_same :
      (old ip : String) (keys : Keypair)
      → ((rotated_peer old ip keys w).1.db ≡ w.db) × ((rotated_peer old ip keys w).1.now ≡ w.now)
  unfolding rotated_peer
  rotated_peer_same old ip keys =
      let s = (add_peer keys.public_key ip w).1 in
      ground (
        arith,
        add_peer_same w keys.public_key ip,
        restore_old_same s old ip,
        restore_old_returns s old ip,
      )

  pub rotated_row_ok :
      (d : Device) (dto : RegisterDto) (ip : String) (keys : Keypair)
      → (rotated_row d dto ip keys w).0 ≡ ok tt
      → (u : Device) × ((update_device d.id (row_update dto ip keys w.now) w).0 ≡ ok u)
        × ((rotated_row d dto ip keys w).1
            ≡ (update_device d.id (row_update dto ip keys w.now) w).1)
  unfolding rotated_row
  rotated_row_ok d dto ip keys h =
      elim (Result-cases (update_device d.id (row_update dto ip keys w.now) w).0) [
        | inl (u, q) ↦ (u, q, ground arith)
        | inr (f, q) ↦
            let s = (update_device d.id (row_update dto ip keys w.now) w).1 in
            absurd (
              ground (
                arith,
                remove_peer_returns s keys.public_key,
                restore_old_returns (remove_peer keys.public_key s).1 d.vpn_public_key ip,
              ))
      ]

  pub rotated_row_err :
      (d : Device) (dto : RegisterDto) (ip : String) (keys : Keypair) (e : Failure)
      → (rotated_row d dto ip keys w).0 ≡ err e
      → devices (rotated_row d dto ip keys w).1 ≡ devices w
  unfolding rotated_row
  rotated_row_err d dto ip keys e h =
      let i = row_update dto ip keys w.now in
      let s = (update_device d.id i w).1 in
      let t = (remove_peer keys.public_key s).1 in
      elim (Result-cases (update_device d.id i w).0) [
        | inl (u, q) ↦ absurd (ground arith)
        | inr (f, q) ↦ ground (
          arith,
          remove_peer_returns s keys.public_key,
          (remove_peer_same s keys.public_key).db,
          restore_old_returns t d.vpn_public_key ip,
          (restore_old_same t d.vpn_public_key ip).db,
          update_device_fails w d.id i f q,
        )
      ]
