-- ===== src/Device/Identity/Laws.antt =====
-- What the methods that tie a device to an address do to the tables, and that they leave the
-- kernel alone.
use vdt_provisioning_service.Prelude.{
  ℕ, String, ◌≡◌, inl, inr, refl, sym, ap, subst, ◌∙◌, true, not, ◌&&◌, Option, none, some, [], ◌∷◌,
  ◌==◌, map, is_text, first-keep, Elem, arith, eq_iff, Bool-cases,
}
use vdt_provisioning_service.Prelude.Effect.{
  Result, ok, Keeps, Keeps-bind, bind_rule, ok-injective, ok-ne-err,
}
use vdt_provisioning_service.Services.{Services, World}
use vdt_provisioning_service.Services.Tables.{Device, Devices, given, put_row, patched, IsUpdated}
use vdt_provisioning_service.Device.{UpdateInput, find_by_device_id, find_by_vpn_ip, update_device}
use vdt_provisioning_service.Device.Laws.{
  devices, create_device_lem, update_device_lem, create_device-IsCreated, update_device-IsUpdated,
}
use vdt_provisioning_service.Device.Identity.{
  temp_device_id, seen_at, sync_by_id, sync_by_ip, sync_manual_kernel_peer,
}

module _ {v : Services} where
  abbrev host : World v → v.shell.Host
  host w = w.host

  sync_by_id_host :
      (ip key : String) (n : ℕ) (r : Option Device) → Keeps host (sync_by_id ip key n r)
  unfolding sync_by_id
  sync_by_id_host ip key n none w = (create_device_lem w _).2
  sync_by_id_host ip key n (some d) w = (update_device_lem w d.id _).2

  sync_by_ip_host :
      (ip key : String) (n : ℕ) (r : Option Device) → Keeps host (sync_by_ip ip key n r)
  unfolding sync_by_ip find_by_device_id
  sync_by_ip_host ip key n none w =
      Keeps-bind host (find_by_device_id (temp_device_id ip)) (sync_by_id ip key n) (λ w. refl)
        (sync_by_id_host ip key n) w
  sync_by_ip_host ip key n (some d) w =
      elim (Bool-cases (not (key == "") && not (d.vpn_public_key == key))) [
        | inl e ↦ rw e ((update_device_lem w d.id _).2)
        | inr e ↦ rw e refl
      ]

  pub sync_manual_kernel_peer_host :
      (ip key : String) (n : Option ℕ) → Keeps host (sync_manual_kernel_peer ip key n)
  unfolding sync_manual_kernel_peer find_by_vpn_ip
  sync_manual_kernel_peer_host ip key n w =
      Keeps-bind host (find_by_vpn_ip ip) (sync_by_ip ip key (seen_at w.now n)) (λ w. refl)
        (sync_by_ip_host ip key (seen_at w.now n)) w

-- `id` is the primary key.
abbrev pub IsKeyed : Devices → Type 0
IsKeyed rows = (a b : Device) → Elem a rows → Elem b rows → a.id ≡ b.id → a ≡ b

Elem-put :
    (d : Device) (rows : Devices) (o : Device)
    → Elem o rows
    → o.id ≡ d.id
    → Elem d (map (put_row d) rows)
Elem-put d [] o m h = elim m [ ]
Elem-put d (r ∷ rs) o (inl e) h =
    let same : r.id ≡ d.id = rw (← e) h in inl (ground (arith, eq_iff r.id d.id))
Elem-put d (r ∷ rs) o (inr m) h = inr (Elem-put d rs o m h)

-- An update by `id` of a row of the table changes that row, and it is in the table after.
pub updated_row :
    {p : _} {before after : Devices} (c d : Device)
    → IsKeyed before
    → Elem c before
    → IsUpdated (λ r. r.id == c.id) p before after d
    → (d ≡ record (patched p c) { updated_at = d.updated_at }) × Elem d after
updated_row {p = p} c d keyed m u =
    let (there, same) = first-keep (λ r. r.id == c.id) _ u.old u.found in
    let same_id : u.old.id ≡ c.id = ground (arith, eq_iff u.old.id c.id) in
    let e : u.old ≡ c = keyed u.old c there m same_id in
    let change : d ≡ record (patched p c) { updated_at = d.updated_at } =
      subst (λ o. d ≡ record (patched p o) { updated_at = d.updated_at }) e u.changed in
    (
      change,
      subst (Elem d) (sym u.written) (Elem-put d _ c m (sym (ap (λ (x : Device). x.id) change))),
    )

pub is_text-eq : (o : Option String) (s : String) → is_text o s ≡ true → o ≡ some s
is_text-eq none s h = ground arith
is_text-eq (some t) s h = ap some (ground (arith, eq_iff t s))

-- `d` is a row of the table, and has the address.
pub record IsHeldBy (ip : String) (rows : Devices) (d : Device) : Type 0 where
  pub there : Elem d rows
  pub has_ip : d.vpn_ip ≡ some ip

module _ {v : Services} (w : World v) where
  pub found_by_ip :
      (ip : String) (d : Device) → (find_by_vpn_ip ip w).0 ≡ ok (some d) → IsHeldBy ip (devices w) d
  unfolding find_by_vpn_ip
  found_by_ip ip d q =
      let (there, same) =
        first-keep (λ r. is_text r.vpn_ip ip) (devices w) d
          (sym (v.database.find_by_vpn_ip_finds ip w.db (some d) q)) in
      record { there = there; has_ip = is_text-eq d.vpn_ip ip same }

  pub found_by_id :
      (i : String) (d : Device)
      → (find_by_device_id i w).0 ≡ ok (some d)
      → Elem d (devices w) × (d.device_id ≡ i)
  unfolding find_by_device_id
  found_by_id i d q =
      let (there, same) =
        first-keep (λ r. r.device_id == i) (devices w) d
          (sym (v.database.find_by_device_id_finds i w.db (some d) q)) in
      (there, ground (arith, eq_iff d.device_id i))

  sync_by_id-IsHeldBy :
      (ip key : String) (n : ℕ) (r : Option Device) (d : Device)
      → IsKeyed (devices w)
      → ((c : Device) → r ≡ some c → Elem c (devices w))
      → (sync_by_id ip key n r w).0 ≡ ok d
      → IsHeldBy ip (devices (sync_by_id ip key n r w).1) d
  unfolding sync_by_id
  sync_by_id-IsHeldBy ip key n none d keyed there h =
      let made = create_device-IsCreated w _ d h in
      record { there = subst (Elem d) (sym made.added) (inl refl); has_ip = made.vpn_ip }
  sync_by_id-IsHeldBy ip key n (some c) d keyed there h =
      let (change, after) =
        updated_row c d keyed (there c refl) (update_device-IsUpdated w c.id _ d h) in
      record { there = after; has_ip = ap (λ (x : Device). x.vpn_ip) change }

module _ {v : Services} (w : World v) where
  abbrev Held : String → Device → Result Device × World v → Type 0
  Held ip d x = x.0 ≡ ok d → IsHeldBy ip (devices x.1) d

  pub find_by_device_id_rows : (i : String) → devices (find_by_device_id i w).1 ≡ devices w
  unfolding find_by_device_id
  find_by_device_id_rows i = v.database.find_by_device_id_keeps i w.db

  pub find_by_vpn_ip_rows : (ip : String) → devices (find_by_vpn_ip ip w).1 ≡ devices w
  unfolding find_by_vpn_ip
  find_by_vpn_ip_rows ip = v.database.find_by_vpn_ip_keeps ip w.db

  -- An update that leaves the address alone.
  pub kept_address :
      (ip : String) (c d : Device) (i : UpdateInput)
      → IsKeyed (devices w)
      → IsHeldBy ip (devices w) c
      → i.vpn_ip ≡ none
      → (update_device c.id i w).0 ≡ ok d
      → IsHeldBy ip (devices (update_device c.id i w).1) d
  kept_address ip c d i keyed held same h =
      let (change, after) =
        updated_row c d keyed held.there (update_device-IsUpdated w c.id i d h) in
      record {
        there = after;
        has_ip =
            ap (λ (x : Device). x.vpn_ip) change ∙ ap (λ o. given o c.vpn_ip) same ∙ held.has_ip;
      }

  sync_by_ip-IsHeldBy :
      (ip key : String) (n : ℕ) (r : Option Device) (d : Device)
      → IsKeyed (devices w)
      → ((c : Device) → r ≡ some c → IsHeldBy ip (devices w) c)
      → (sync_by_ip ip key n r w).0 ≡ ok d
      → IsHeldBy ip (devices (sync_by_ip ip key n r w).1) d
  unfolding sync_by_ip
  sync_by_ip-IsHeldBy ip key n none d keyed there h =
      bind_rule (Held ip d) (find_by_device_id (temp_device_id ip)) (sync_by_id ip key n) w
        (λ r q.
          let rows = find_by_device_id_rows (temp_device_id ip) in
          sync_by_id-IsHeldBy (find_by_device_id (temp_device_id ip) w).1 ip key n r d
            (subst IsKeyed (sym rows) keyed)
            (λ c e.
              subst (Elem c) (sym rows) (found_by_id w (temp_device_id ip) c (q ∙ ap ok e)).0))
        (λ e q x. absurd (ok-ne-err (sym x))) h
  sync_by_ip-IsHeldBy ip key n (some c) d keyed there h =
      elim (Bool-cases (not (key == "") && not (c.vpn_public_key == key))) [
        | inl e ↦ rw e (kept_address ip c d _ keyed (there c refl) refl (rw e at h))
        | inr e ↦ rw e (subst (IsHeldBy ip (devices w)) (ok-injective (rw e at h)) (there c refl))
      ]

module _ {v : Services} (w : World v) where
  -- With ids that are the primary key, if `syncManualKernelPeer` returns a row, the address is
  -- that row's in the table.
  pub sync_manual_kernel_peer-IsHeldBy :
      (ip key : String) (handshake : Option ℕ) (d : Device)
      → IsKeyed (devices w)
      → (sync_manual_kernel_peer ip key handshake w).0 ≡ ok d
      → IsHeldBy ip (devices (sync_manual_kernel_peer ip key handshake w).1) d
  unfolding sync_manual_kernel_peer
  sync_manual_kernel_peer-IsHeldBy ip key handshake d keyed =
      bind_rule (Held w ip d) (find_by_vpn_ip ip) (sync_by_ip ip key (seen_at w.now handshake)) w
        (λ r q.
          sync_by_ip-IsHeldBy (find_by_vpn_ip ip w).1 ip key (seen_at w.now handshake) r d
            (subst IsKeyed (sym (find_by_vpn_ip_rows w ip)) keyed)
            (λ c e.
              subst (λ rows. IsHeldBy ip rows c) (sym (find_by_vpn_ip_rows w ip))
                (found_by_ip w ip c (q ∙ ap ok e))))
        (λ e q x. absurd (ok-ne-err (sym x)))
