-- ===== src/Device/Identity/Binding.antt =====
-- What `bindOrUpdateDeviceIdentity` does to the table of devices.
use vdt_provisioning_service.Prelude.{
  String, ◌≡◌, inl, inr, refl, sym, ap, subst, ◌∙◌, false, not, ◌&&◌, Option, none, some, ◌==◌,
  is_text, Elem, arith, eq_iff, Bool-cases,
}
use vdt_provisioning_service.Prelude.Text.{trim}
use vdt_provisioning_service.Prelude.Effect.{Result, ok, pure, ◌>>=◌, ◌>>◌, bind_rule, ok-ne-err}
use vdt_provisioning_service.Services.{Services, World}
use vdt_provisioning_service.Services.Tables.{Device}
use vdt_provisioning_service.Device.{UpdateInput, find_by_device_id, find_by_vpn_ip, update_device}
use vdt_provisioning_service.Device.Laws.{devices}
use vdt_provisioning_service.Device.Identity.{
  evict, bind_known, rename_or_create, bind_unknown, bind_found, bind_or_update_device_identity,
}
use vdt_provisioning_service.Device.Identity.Laws.{
  IsKeyed, IsHeldBy, is_text-eq, found_by_id, found_by_ip, find_by_device_id_rows,
  find_by_vpn_ip_rows,
}
use vdt_provisioning_service.Device.Identity.Moves.{
  IsBound, Bound, some-injective, evict-IsEvicted, moved, rename_or_create-IsBound,
}

module _ {v : Services} (w : World v) where
  -- Whoever holds the address gives way, and the row takes the address.
  evicted_and_moved :
      (i ip : String) (c d : Device) (u : UpdateInput)
      → IsKeyed (devices w)
      → Elem c (devices w)
      → c.device_id ≡ i
      → u.vpn_ip ≡ some (some ip)
      → Bound w i ip d (
          (do
            holder ← find_by_vpn_ip ip
            evict c holder
            updated ← update_device c.id u
            pure (some updated))
            w)
  evicted_and_moved i ip c d u keyed m same at =
      let rows = sym (find_by_vpn_ip_rows w ip) in
      bind_rule (Bound w i ip d) (find_by_vpn_ip ip)
        (λ r. evict c r >> (update_device c.id u >>= λ x. pure (some x))) w
        (λ r _.
          let s = (find_by_vpn_ip ip w).1 in
          bind_rule (Bound w i ip d) (evict c r) (λ _. update_device c.id u >>= λ x. pure (some x))
            s
            (λ _ q.
              let left = evict-IsEvicted s c r q in
              let t = (evict c r s).1 in
              bind_rule (Bound w i ip d) (update_device c.id u) (λ x. pure (some x)) t
                (λ x p e. subst (IsBound i ip _) (some-injective w e) (
                  moved t i ip c x u
                    (λ a b ma mb.
                      keyed a b (subst (Elem a) (sym rows) (left.from a ma))
                        (subst (Elem b) (sym rows) (left.from b mb)))
                    (left.stays (subst (Elem c) rows m)) same at p))
                (λ f q x. absurd (ok-ne-err (sym x))))
            (λ f q x. absurd (ok-ne-err (sym x))))
        (λ f q x. absurd (ok-ne-err (sym x)))

  bind_known-IsBound :
      (i ip : String) (c d : Device)
      → IsKeyed (devices w)
      → Elem c (devices w)
      → c.device_id ≡ i
      → Bound w i ip d (bind_known ip c w)
  unfolding bind_known
  bind_known-IsBound i ip c d keyed m same h =
      elim (Bool-cases (not (ip == "") && not (is_text c.vpn_ip ip))) [
        | inl e ↦ rw e (evicted_and_moved i ip c d _ keyed m same refl (rw e at h))
        | inr e ↦ rw e (stays e (some-injective w (rw e at h)))
      ]
    where
      stays :
          (not (ip == "") && not (is_text c.vpn_ip ip)) ≡ false → c ≡ d → IsBound i ip (devices w) d
      stays e q = subst (IsBound i ip (devices w)) q (record {
        there = m;
        identity = same;
        at = elim (Bool-cases (ip == "")) [
          | inl b ↦ inl (ground (arith, eq_iff ip ""))
          | inr b ↦ inr (is_text-eq c.vpn_ip ip (ground arith))
        ];
      })

  bind_unknown-IsBound :
      (i ip model : String) (d : Device)
      → IsKeyed (devices w)
      → Bound w i ip d (bind_unknown i ip model w)
  unfolding bind_unknown
  bind_unknown-IsBound i ip model d keyed h = elim (Bool-cases (ip == "")) [
    | inl e ↦ rw e (
        rename_or_create-IsBound w i ip model none d keyed (λ c n. absurd (ground arith))
          (rw e at h))
    | inr e ↦ rw e (
        bind_rule (Bound w i ip d) (find_by_vpn_ip ip) (rename_or_create i ip model) w
          (λ r q.
            rename_or_create-IsBound (find_by_vpn_ip ip w).1 i ip model r d
              (subst IsKeyed (sym (find_by_vpn_ip_rows w ip)) keyed)
              (λ c n.
                subst (λ rows. IsHeldBy ip rows c) (sym (find_by_vpn_ip_rows w ip))
                  (found_by_ip w ip c (q ∙ ap ok n))))
          (λ f q x. absurd (ok-ne-err (sym x))) (rw e at h))
  ]

module _ {v : Services} (w : World v) where
  -- If a device with the identity `real_id` comes from the address `ip` and the method returns a
  -- row, that row is in the table under the trimmed identity, and has the address unless that is
  -- blank; row ids are the primary key.
  pub bind_or_update_device_identity-IsBound :
      (real_id ip model : String) (d : Device)
      → IsKeyed (devices w)
      → (bind_or_update_device_identity real_id ip model w).0 ≡ ok (some d)
      → IsBound (trim real_id) ip (devices (bind_or_update_device_identity real_id ip model w).1) d
  unfolding bind_or_update_device_identity bind_found
  bind_or_update_device_identity-IsBound real_id ip model d keyed h =
      elim (Bool-cases (trim real_id == "")) [
        | inl e ↦ absurd (none-ne-some (rw e at h))
        | inr e ↦ rw e (found (rw e at h))
      ]
    where
      none-ne-some : ◌≡◌ {A = Result (Option Device)} (ok none) (ok (some d)) → ⊥
      none-ne-some e = cc

      keyed_after : IsKeyed (devices (find_by_device_id (trim real_id) w).1)
      keyed_after = subst IsKeyed (sym (find_by_device_id_rows w (trim real_id))) keyed

      found :
          Bound w
            (trim real_id)
            ip
            d
            ((find_by_device_id (trim real_id) >>= bind_found (trim real_id) ip model) w)
      found =
          bind_rule (Bound w (trim real_id) ip d) (find_by_device_id (trim real_id))
            (bind_found (trim real_id) ip model) w (λ r q. split_on r q)
            (λ f q x. absurd (ok-ne-err (sym x)))
        where
          split_on :
              (r : Option Device)
              → (find_by_device_id (trim real_id) w).0 ≡ ok r
              → Bound w
                  (trim real_id)
                  ip
                  d
                  (bind_found (trim real_id) ip model r (find_by_device_id (trim real_id) w).1)
          split_on none q =
              bind_unknown-IsBound (find_by_device_id (trim real_id) w).1 (trim real_id) ip model d
                keyed_after
          split_on (some c) q =
              let (m, same) = found_by_id w (trim real_id) c q in
              bind_known-IsBound (find_by_device_id (trim real_id) w).1 (trim real_id) ip c d
                keyed_after (subst (Elem c) (sym (find_by_device_id_rows w (trim real_id))) m) same
