-- ===== src/Auth/Claims.antt =====
-- Who may reach or take a drone.
use vdt_provisioning_service.Prelude.{
  String, ◌≡◌, ◌⊎◌, inl, inr, refl, sym, ap, subst, ◌∙◌, false, Option, none, some, ◌==◌, first,
  Elem, arith, eq_iff, Bool-cases,
}
use vdt_provisioning_service.Prelude.Effect.{
  Result, ok, err, Failure, bind_rule, bind-eq-ok, ok-ne-err,
}
use vdt_provisioning_service.Services.{Services, World, in_db}
use vdt_provisioning_service.Services.Tables.{Device, IsUpdated}
use vdt_provisioning_service.Device.{find_by_device_id}
use vdt_provisioning_service.Device.Laws.{devices}
use vdt_provisioning_service.Device.Identity.Laws.{is_text-eq, found_by_id, find_by_device_id_rows}
use vdt_provisioning_service.Auth.{Account, claim, owned_by_another, claim_found, claim_drone}
use vdt_provisioning_service.Auth.Guards.{
  Target, device_id_of, owner_matches, check_device, check_user, can_activate_device,
}

module _ {v : Services} (w : World v) where
  -- The row `deviceId` names.
  abbrev pub row_of : String → Option Device
  row_of device_id = first (λ d. d.device_id == device_id) (devices w)

  read_row :
      (device_id : String) (r : Option Device)
      → (find_by_device_id device_id w).0 ≡ ok r
      → r ≡ row_of device_id
  unfolding find_by_device_id
  read_row device_id r q = v.database.find_by_device_id_finds device_id w.db r q

  owner_of :
      (user_id : String) (r : Option Device)
      → owner_matches user_id r ≡ ok tt
      → (d : Device) × (r ≡ some d) × (d.user_id ≡ some user_id)
  owner_of user_id none h = absurd (ok-ne-err (sym h))
  owner_of user_id (some d) h = (d, refl, is_text-eq d.user_id user_id (ground arith))

  checked :
      (user : Account) (device_id : String)
      → (device_id == "") ≡ false
      → (check_device user (some device_id) w).0 ≡ ok tt
      → (d : Device) × Elem d (devices w) × (d.device_id ≡ device_id) × (d.user_id ≡ some user.id)
  unfolding check_device
  checked user device_id named h =
      let (r, q, e) =
        bind-eq-ok (find_by_device_id device_id) (λ found s. (owner_matches user.id found, s)) w tt
          (rw named at h) in
      let passed = sym (ap (λ (x : Result Unit × World v). x.0) e) ∙ rw named at h in
      let (d, found, owner) = owner_of user.id r passed in
      let (there, same) = found_by_id w device_id d (q ∙ ap ok found) in (d, there, same, owner)

  -- A request for one drone passes the guard only if its user is an administrator, or the drone's
  -- row names that user as its owner.
  pub can_activate_device-owner :
      (user : Account) (target : Target) (device_id : String)
      → (device_id == "") ≡ false
      → device_id_of target ≡ some device_id
      → (can_activate_device (some user) target w).0 ≡ ok tt
      → (user.role ≡ "ADMIN")
        ⊎ ((d : Device) × Elem d (devices w)
            × (d.device_id ≡ device_id)
            × (d.user_id ≡ some user.id))
  unfolding can_activate_device check_user
  can_activate_device-owner user target device_id named asked h =
      elim (Bool-cases (user.role == "ADMIN")) [
        | inl e ↦ inl (ground (arith, eq_iff user.role "ADMIN"))
        | inr e ↦ inr (
            checked user device_id named
              (ap (λ o. (check_device user o w).0) (sym asked) ∙ rw e at h))
      ]

  -- What a claim has done when it returns the row `d`.
  pub record IsClaimed (user_id device_id : String) (after : World v) (d : Device) : Type 0 where
    pub old : Device
    pub found : row_of device_id ≡ some old
    pub free : (old.user_id ≡ none) ⊎ (old.user_id ≡ some "") ⊎ (old.user_id ≡ some user_id)
    pub owner : d.user_id ≡ some user_id
    pub updated :
        IsUpdated
          (λ r. r.device_id == device_id)
          (record {
            device_id = none;
            hardware_model = none;
            vpn_ip = none;
            vpn_public_key = none;
            status = none;
            last_seen = none;
            user_id = some (some user_id);
          })
          (devices w)
          (devices after)
          d

  unowned :
      (user_id : String) (o : Option String)
      → owned_by_another user_id o ≡ false
      → (o ≡ none) ⊎ (o ≡ some "") ⊎ (o ≡ some user_id)
  unowned user_id none h = inl refl
  unowned user_id (some owner) h = elim (Bool-cases (owner == "")) [
    | inl e ↦ inr (inl (ap some ((eq_iff owner "").0 e)))
    | inr e ↦ inr (
        inr (
          ap some (
            (eq_iff owner user_id).0
              (elim (Bool-cases (owner == user_id)) [ inl f ↦ f | inr f ↦ cc (rw (e, f) at h) ]))))
  ]

  written :
      (user_id device_id : String) (c : Device) (s : World v) (d : Device)
      → devices s ≡ devices w
      → row_of device_id ≡ some c
      → (claim_found user_id device_id (some c) s).0 ≡ ok d
      → IsClaimed user_id device_id (claim_found user_id device_id (some c) s).1 d
  unfolding claim_found
  written user_id device_id c s d same found h =
      elim (Bool-cases (owned_by_another user_id c.user_id)) [
        | inl e ↦ absurd (ok-ne-err (sym (rw e at h)))
        | inr e ↦ rw e (update (rw e at h) e)
      ]
    where
      update :
          (v.database.update_by_device_id device_id (claim user_id) s.db).0 ≡ ok d
          → owned_by_another user_id c.user_id ≡ false
          → IsClaimed user_id device_id
              (in_db (v.database.update_by_device_id device_id (claim user_id)) s).1
              d
      update h free =
          let u = v.database.update_by_device_id_updates device_id (claim user_id) s.db d h in
          record {
            old = c;
            found = found;
            free = unowned user_id c.user_id free;
            owner = ap (λ (x : Device). x.user_id) u.changed;
            updated =
                subst
                  (λ rows.
                    IsUpdated (λ r. r.device_id == device_id) (claim user_id) rows
                      (v.database.devices
                        (v.database.update_by_device_id device_id (claim user_id) s.db).1)
                      d)
                  same u;
          }

  -- A claim that returns found the drone without an owner, or with an empty one, or already the
  -- user's, and has made the user its owner; no other column and no other row has changed.
  pub claim_drone-IsClaimed :
      (user_id device_id : String) (d : Device)
      → (claim_drone user_id device_id w).0 ≡ ok d
      → IsClaimed user_id device_id (claim_drone user_id device_id w).1 d
  unfolding claim_drone claim_found
  claim_drone-IsClaimed user_id device_id d =
      bind_rule (λ x. x.0 ≡ ok d → IsClaimed user_id device_id x.1 d) (find_by_device_id device_id)
        (claim_found user_id device_id) w (λ r q. on_row r q) (λ f q x. absurd (ok-ne-err (sym x)))
    where
      on_row :
          (r : Option Device)
          → (find_by_device_id device_id w).0 ≡ ok r
          → (claim_found user_id device_id r (find_by_device_id device_id w).1).0 ≡ ok d
          → IsClaimed user_id device_id
              (claim_found user_id device_id r (find_by_device_id device_id w).1).1
              d
      on_row none q h = absurd (ok-ne-err (sym h))
      on_row (some c) q h =
          written user_id device_id c (find_by_device_id device_id w).1 d
            (find_by_device_id_rows w device_id) (sym (read_row device_id (some c) q)) h

  kept :
      (user_id device_id : String) (r : Option Device) (s : World v) (e : Failure)
      → devices s ≡ devices w
      → (claim_found user_id device_id r s).0 ≡ err e
      → devices (claim_found user_id device_id r s).1 ≡ devices w
  unfolding claim_found
  kept user_id device_id none s e same h = same
  kept user_id device_id (some c) s e same h =
      elim (Bool-cases (owned_by_another user_id c.user_id)) [
        | inl taken ↦ rw taken same
        | inr free ↦ rw free (
            v.database.update_by_device_id_fails device_id (claim user_id) s.db e (rw free at h)
            ∙ same)
      ]

  -- A claim that is refused or fails has changed no row.
  pub claim_drone_fails_rows :
      (user_id device_id : String) (e : Failure)
      → (claim_drone user_id device_id w).0 ≡ err e
      → devices (claim_drone user_id device_id w).1 ≡ devices w
  unfolding claim_drone
  claim_drone_fails_rows user_id device_id e =
      bind_rule (λ x. x.0 ≡ err e → devices x.1 ≡ devices w) (find_by_device_id device_id)
        (claim_found user_id device_id) w
        (λ r q.
          kept user_id device_id r (find_by_device_id device_id w).1 e
            (find_by_device_id_rows w device_id))
        (λ f q x. find_by_device_id_rows w device_id)
