-- ===== src/Provisioning/Startup/Laws.antt =====
-- What a start of the server does to the kernel's peers.
use vdt_provisioning_service.Prelude.{
  String, ◌≡◌, ◌⊎◌, inl, inr, refl, sym, ap, ◌∙◌, Bool, true, some, List, [], ◌∷◌, ◌==◌, arith,
  eq_iff, Elem, Elem-of_keep, Elem-keep, keep, ◌↔◌, Bool-cases, if◌then◌else◌,
}
use vdt_provisioning_service.Prelude.Text.{is_wg_key, trim, split}
use vdt_provisioning_service.Prelude.Effect.{
  pure, ◌>>◌, Result, ok, err, Failure, Result-cases, catch, handle, ◌>>=◌, ok-ne-err, resume,
  Keeps, Keeps-bind, Keeps-catch,
}
use vdt_provisioning_service.Services.{Services, World}
use vdt_provisioning_service.Services.Tables.{Device, Devices}
use vdt_provisioning_service.Wireguard.{PeerStats, interface_name, get_live_peer_stats}
use vdt_provisioning_service.Device.{find_active_devices, is_active}
use vdt_provisioning_service.Device.Laws.{devices}
use vdt_provisioning_service.Prelude.Map
use vdt_provisioning_service.IpPool.{subnet}
use vdt_provisioning_service.Device.Identity.Laws.{sync_manual_kernel_peer_host}
use vdt_provisioning_service.Device.Identity.{sync_manual_kernel_peer}
use vdt_provisioning_service.Provisioning.Startup.{
  restore_all, restore_active, sync_kernel_peers_to_database, on_module_init, sync_cidr, sync_cidrs,
  sync_peers, in_subnet, host_part,
}
use vdt_provisioning_service.Provisioning.Startup.Restore.{
  is_peer, IsRestorable, Accepts, restore_all_returns, restore_all_from, restore_all_makes,
}

module _ {v : Services} where
  module _ (w : World v) where
    abbrev active : World v
    active = (find_active_devices w).1

    restore_active-cases :
        ((ds : Devices) × ((find_active_devices w).0 ≡ ok ds)
          × (restore_active w ≡ restore_all ds active))
        ⊎ ((e : Failure) × ((find_active_devices w).0 ≡ err e)
            × (restore_active w ≡ (ok tt, active)))
    unfolding restore_active
    restore_active-cases = elim (Result-cases (find_active_devices w).0) [
      | inl (ds, q) ↦ inl (
        ds,
        q,
        ap (λ r. catch (resume restore_all r) (λ _ x. (ok tt, x)) active) q
            ∙ ap (λ r. handle (λ _ x. (ok tt, x)) r (restore_all ds active).1)
                (restore_all_returns ds active)
            ∙ ap (λ r. (r, (restore_all ds active).1)) (sym (restore_all_returns ds active)),
      )
      | inr (e, q) ↦ inr (e, q, ap (λ r. catch (resume restore_all r) (λ _ x. (ok tt, x)) active) q)
    ]

    read_peers : (k : String) → is_peer active k ≡ is_peer w k
    unfolding find_active_devices
    read_peers k = refl

  module _ (k : String) where
    abbrev peer_of : World v → Bool
    peer_of w = v.shell.peer w.host k

    sync_cidr-Keeps : (p : PeerStats) (c : String) → Keeps peer_of (sync_cidr p c)
    unfolding sync_cidr
    sync_cidr-Keeps p c w =
        elim (Bool-cases (in_subnet (subnet v) (host_part (split b'/' (trim c))))) [
          | inl e ↦ rw e (
              Keeps-catch peer_of
                (sync_manual_kernel_peer (host_part (split b'/' (trim c))) p.public_key
                    (some p.latest_handshake)
                  >> pure tt)
                (λ _. pure tt)
                (Keeps-bind peer_of
                  (sync_manual_kernel_peer (host_part (split b'/' (trim c))) p.public_key
                    (some p.latest_handshake))
                  (λ _. pure tt)
                  (λ s.
                    ap (λ h. v.shell.peer h k)
                      (sync_manual_kernel_peer_host (host_part (split b'/' (trim c))) p.public_key
                        (some p.latest_handshake) s))
                  (λ _ _. refl))
                (λ _ _. refl) w)
          | inr e ↦ rw e refl
        ]

    sync_cidrs-Keeps : (p : PeerStats) (cs : List String) → Keeps peer_of (sync_cidrs p cs)
    unfolding sync_cidrs
    sync_cidrs-Keeps p [] w = refl
    sync_cidrs-Keeps p (c ∷ cs) w =
        Keeps-bind peer_of (sync_cidr p c) (λ _. sync_cidrs p cs) (sync_cidr-Keeps p c)
          (λ _. sync_cidrs-Keeps p cs) w

    sync_peers-Keeps : (ps : List PeerStats) → Keeps peer_of (sync_peers ps)
    unfolding sync_peers
    sync_peers-Keeps [] w = refl
    sync_peers-Keeps (p ∷ ps) w =
        Keeps-bind peer_of
          (if p.allowed_ips == "" then pure tt else sync_cidrs p (split b',' p.allowed_ips))
          (λ _. sync_peers ps)
          (λ s. elim (Bool-cases (p.allowed_ips == "")) [
            | inl e ↦ rw e refl
            | inr e ↦ rw e (sync_cidrs-Keeps p (split b',' p.allowed_ips) s)
          ])
          (λ _. sync_peers-Keeps ps) w

    get_live_peer_stats-Keeps : Keeps peer_of get_live_peer_stats
    unfolding get_live_peer_stats
    get_live_peer_stats-Keeps w = ground (arith, v.shell.show_keeps (interface_name v) w.host k k)

    sync_kernel : Keeps peer_of sync_kernel_peers_to_database
    unfolding sync_kernel_peers_to_database
    sync_kernel =
        Keeps-catch peer_of (get_live_peer_stats >>= (λ m. sync_peers (Map.values m)))
          (λ _. pure tt)
          (Keeps-bind peer_of get_live_peer_stats (λ m. sync_peers (Map.values m))
            get_live_peer_stats-Keeps (λ m. sync_peers-Keeps (Map.values m)))
          (λ _ _. refl)

module _ {v : Services} (w : World v) where
  restore_active_returns : (restore_active w).0 ≡ ok tt
  restore_active_returns = elim (restore_active-cases w) [
    | inl (ds, _, e) ↦ ap (λ (x : Result Unit × World v). x.0) e ∙ restore_all_returns ds _
    | inr (_, _, e) ↦ ap (λ (x : Result Unit × World v). x.0) e
  ]

  -- The scan of the kernel comes after the restoring loop and changes no peer.
  on_module_init_peer :
      (k : String) → is_peer (on_module_init w).1 k ≡ is_peer (restore_active w).1 k
  unfolding on_module_init
  on_module_init_peer k =
      ap (λ r. is_peer (resume (λ _. sync_kernel_peers_to_database) r (restore_active w).1).1 k)
        restore_active_returns
      ∙ sync_kernel k (restore_active w).1

  active_rows :
      (ds : Devices) (d : Device)
      → (find_active_devices w).0 ≡ ok ds
      → Elem d ds ↔ Elem d (keep is_active (devices w))
  unfolding find_active_devices
  active_rows ds d q = v.database.find_many_finds is_active w.db ds q d

  -- A peer that is in the kernel after a start was there before, or is the key of a row of the
  -- table that is ACTIVE and has an address, and looks like a WireGuard key.
  pub on_module_init_from :
      (k : String)
      → is_peer (on_module_init w).1 k ≡ true
      → (is_peer w k ≡ true)
        ⊎ ((d : Device) × Elem d (devices w)
            × (is_active d ≡ true)
            × (k ≡ d.vpn_public_key)
            × (is_wg_key k ≡ true))
  on_module_init_from k h =
      let there = sym (on_module_init_peer k) ∙ h in
      elim (restore_active-cases w) [
        | inl (ds, q, e) ↦
            elim (restore_all_from ds (active w) k
              (ap (λ (x : Result Unit × World v). is_peer x.1 k) (sym e) ∙ there)) [
                | inl before ↦ inl (sym (read_peers w k) ∙ before)
                | inr (d, m, same, real) ↦
                    let (row, act) =
                      Elem-of_keep is_active (devices w) d ((active_rows ds d q).0 m) in
                    inr (d, row, act, same, real)
              ]
        | inr (_, _, e) ↦ inl (
            sym (read_peers w k)
            ∙ sym (ap (λ (x : Result Unit × World v). is_peer x.1 k) e)
            ∙ there)
      ]

  -- Where `wg` accepts every peer and the query for the active rows returns, the key of each row
  -- that is ACTIVE, has an address that is not blank, and a key of the shape of a WireGuard key,
  -- is a peer of the kernel after a start.
  pub on_module_init_restores :
      (ds : Devices) (d : Device)
      → Accepts v
      → (find_active_devices w).0 ≡ ok ds
      → Elem d (devices w)
      → IsRestorable d
      → is_peer (on_module_init w).1 d.vpn_public_key ≡ true
  on_module_init_restores ds d wg q m r =
      on_module_init_peer d.vpn_public_key ∙ elim (restore_active-cases w) [
        | inl (es, p, e) ↦
            let act : is_active d ≡ true =
              ground (arith, eq_iff d.status "ACTIVE", r.active, r.has_ip) in
            let listed = (active_rows es d p).1 (Elem-keep is_active (devices w) d m act) in
            ap (λ (x : Result Unit × World v). is_peer x.1 d.vpn_public_key) e
            ∙ restore_all_makes es (active w) d wg listed r
        | inr (f, p, e) ↦ absurd (ok-ne-err (sym q ∙ p))
      ]
