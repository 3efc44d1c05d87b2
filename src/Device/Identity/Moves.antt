-- ===== src/Device/Identity/Moves.antt =====
-- The steps of `bindOrUpdateDeviceIdentity`: evicting a row, moving one, renaming one.
use vdt_provisioning_service.Prelude.{
  String, ◌≡◌, ◌⊎◌, inl, inr, refl, sym, ap, subst, ◌∙◌, true, false, Option, none, some, ◌==◌,
  Elem, Elem-keep, Elem-of_keep, arith, eq_iff, Bool-cases, if◌then◌else◌,
}
use vdt_provisioning_service.Prelude.Effect.{
  Result, ok, pure, resume, ◌>>=◌, ◌>>◌, bind_rule, ok-ne-err,
}
use vdt_provisioning_service.Services.{Services, World, in_db}
use vdt_provisioning_service.Services.Tables.{Device, Devices, Patch, given}
use vdt_provisioning_service.RedisService.{map_ip_to_device}
use vdt_provisioning_service.RedisService.Laws.{map_ip_to_device_keeps}
use vdt_provisioning_service.Device.{UpdateInput, create_device, update_device}
use vdt_provisioning_service.Device.Laws.{devices, create_device-IsCreated, update_device-IsUpdated}
use vdt_provisioning_service.Device.Identity.{evict, rename_or_create}
use vdt_provisioning_service.Device.Identity.Laws.{IsKeyed, IsHeldBy, updated_row}

-- The row of the identity, at the address if there is one.
pub record IsBound (i ip : String) (rows : Devices) (d : Device) : Type 0 where
  pub there : Elem d rows
  pub identity : d.device_id ≡ i
  pub at : (ip ≡ "") ⊎ (d.vpn_ip ≡ some ip)

module _ {v : Services} (w : World v) where
  abbrev pub Bound : String → String → Device → Result (Option Device) × World v → Type 0
  Bound i ip d x = x.0 ≡ ok (some d) → IsBound i ip (devices x.1) d

  pub some-injective : {A : Type 0} {a b : A} → ok (some a) ≡ ok (some b) → a ≡ b
  some-injective h = cc

  -- Evicting the holder of an address leaves the other rows.
  pub record IsEvicted (d : Device) (after : Devices) : Type 0 where
    pub stays : Elem d (devices w) → Elem d after
    pub from : (x : Device) → Elem x after → Elem x (devices w)

  pub evict-IsEvicted :
      (d : Device) (r : Option Device)
      → (evict d r w).0 ≡ ok tt
      → IsEvicted d (devices (evict d r w).1)
  unfolding evict
  evict-IsEvicted d none h = record { stays = λ m. m; from = λ x m. m }
  evict-IsEvicted d (some c) h = elim (Bool-cases (c.id == d.id)) [
    | inl e ↦ rw e (record { stays = λ m. m; from = λ x m. m })
    | inr e ↦ rw e (gone (rw e at h) e)
  ]
    where
      gone :
          (v.database.delete c.id w.db).0 ≡ ok tt
          → (c.id == d.id) ≡ false
          → IsEvicted d (v.database.devices (v.database.delete c.id w.db).1)
      gone h e =
          let rows = v.database.delete_deletes c.id w.db h in
          record {
            stays = λ m. subst (Elem d) (sym rows) (
                Elem-keep (λ r. if r.id == c.id then false else true) (devices w) d m
                  (ground (arith, eq_iff d.id c.id, eq_iff c.id d.id)));
            from = λ x m.
                (Elem-of_keep (λ r. if r.id == c.id then false else true) (devices w) x
                  (subst (Elem x) rows m)).0;
          }

  -- An update of a row that gives it the address.
  pub moved :
      (i ip : String) (c d : Device) (u : UpdateInput)
      → IsKeyed (devices w)
      → Elem c (devices w)
      → c.device_id ≡ i
      → u.vpn_ip ≡ some (some ip)
      → (update_device c.id u w).0 ≡ ok d
      → IsBound i ip (devices (update_device c.id u w).1) d
  moved i ip c d u keyed m same at h =
      let (change, after) = updated_row c d keyed m (update_device-IsUpdated w c.id u d h) in
      record {
        there = after;
        identity = ap (λ (x : Device). x.device_id) change ∙ same;
        at = inr (ap (λ (x : Device). x.vpn_ip) change ∙ ap (λ o. given o c.vpn_ip) at);
      }

  -- The row takes the identity and keeps its address.
  renamed :
      (i ip : String) (c d : Device) (p : Patch)
      → IsKeyed (devices w)
      → IsHeldBy ip (devices w) c
      → p.device_id ≡ some i
      → p.vpn_ip ≡ none
      → Bound i ip d
          ((in_db (v.database.update c.id p) >>= (λ u. map_ip_to_device ip i >> pure (some u))) w)
  renamed i ip c d p keyed held new_id same_ip =
      bind_rule (Bound i ip d) (in_db (v.database.update c.id p))
        (λ u. map_ip_to_device ip i >> pure (some u)) w
        (λ u q e.
          let after = (in_db (v.database.update c.id p) w).1 in
          let (returns, db, _, _, _) = map_ip_to_device_keeps after ip i in
          let goes_on =
            ap (λ r. resume (λ _. pure (some u)) r (map_ip_to_device ip i after).1) returns in
          let same : u ≡ d =
            some-injective (sym (ap (λ (r : Result (Option Device) × World v). r.0) goes_on) ∙ e) in
          let rows =
            ap (λ (r : Result (Option Device) × World v). devices r.1) goes_on
            ∙ ap v.database.devices db in
          let (change, there) =
            updated_row c u keyed held.there (v.database.update_updates c.id p w.db u q) in
          subst (IsBound i ip _) same (record {
            there = subst (Elem u) (sym rows) there;
            identity =
                ap (λ (x : Device). x.device_id) change ∙ ap (λ o. given o c.device_id) new_id;
            at = inr (
                ap (λ (x : Device). x.vpn_ip) change
                ∙ ap (λ o. given o c.vpn_ip) same_ip
                ∙ held.has_ip);
          }))
        (λ e q x. absurd (ok-ne-err (sym x)))

  pub rename_or_create-IsBound :
      (i ip model : String) (r : Option Device) (d : Device)
      → IsKeyed (devices w)
      → ((c : Device) → r ≡ some c → IsHeldBy ip (devices w) c)
      → Bound i ip d (rename_or_create i ip model r w)
  unfolding rename_or_create
  rename_or_create-IsBound i ip model none d keyed held =
      bind_rule (Bound i ip d) (create_device _) (λ c. pure (some c)) w
        (λ c q e.
          let made = create_device-IsCreated w _ c q in
          subst (IsBound i ip _) (some-injective e) (record {
            there = subst (Elem c) (sym made.added) (inl refl);
            identity = made.device_id;
            at = elim (Bool-cases (ip == "")) [
              | inl b ↦ inl (ground (arith, eq_iff ip ""))
              | inr b ↦ inr (made.vpn_ip ∙ ap (λ t. if t then none else some ip) b)
            ];
          }))
        (λ e q x. absurd (ok-ne-err (sym x)))
  rename_or_create-IsBound i ip model (some c) d keyed held =
      renamed i ip c d _ keyed (held c refl) refl refl
