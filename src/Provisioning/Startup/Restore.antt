-- ===== src/Provisioning/Startup/Restore.antt =====
-- What the restoring loop of `onModuleInit` does to the kernel's peers.
use vdt_provisioning_service.Prelude.{
  String, ◌≡◌, ◌⊎◌, inl, inr, refl, sym, ap, subst, ◌∙◌, Bool, true, false, Option, none, some, [],
  ◌∷◌, ◌==◌, arith, eq_iff, Elem, Bool-cases,
}
use vdt_provisioning_service.Prelude.Text.{is_wg_key}
use vdt_provisioning_service.Prelude.Effect.{Result, ok, Result-cases, resume}
use vdt_provisioning_service.Services.{Services, World}
use vdt_provisioning_service.Services.Tables.{Device, Devices}
use vdt_provisioning_service.Wireguard.{add_peer}
use vdt_provisioning_service.Wireguard.Laws.{add_peer_same, add_peer-IsAdded, add_peer_fails}
use vdt_provisioning_service.Device.Laws.{devices}
use vdt_provisioning_service.Provisioning.Startup.{restore_at, restore_all}

-- A device whose key and address the start puts back.
pub record IsRestorable (d : Device) : Type 0 where
  pub active : d.status ≡ "ACTIVE"
  pub real : is_wg_key d.vpn_public_key ≡ true
  pub ip : String
  pub has_ip : d.vpn_ip ≡ some ip
  pub not_blank : (ip == "") ≡ false

-- `wg set … allowed-ips` does not fail.
abbrev pub Accepts : Services → Type 0
Accepts v = (key ip : String) (w : World v) → (add_peer key ip w).0 ≡ ok tt

real_not_blank : (key : String) → is_wg_key key ≡ true → (key == "") ≡ false
unfolding is_wg_key
real_not_blank key h = elim (Bool-cases (key == "")) [
  | inl e ↦
      let blank : key ≡ "" = ground (arith, eq_iff key "") in
      absurd (no_key (sym (ap is_wg_key blank) ∙ h))
  | inr e ↦ e
]
  where
    no_key : is_wg_key "" ≡ true → ⊥
    no_key e = ground arith

module _ {v : Services} where
  abbrev pub is_peer : World v → String → Bool
  is_peer w k = v.shell.peer w.host k

  module _ (w : World v) (key : String) where
    restore_at_returns : (ip : Option String) → (restore_at key ip w).0 ≡ ok tt
    unfolding restore_at
    restore_at_returns none = refl
    restore_at_returns (some ip) = ground arith

    restore_at_rows : (ip : Option String) → devices (restore_at key ip w).1 ≡ devices w
    unfolding restore_at
    restore_at_rows none = refl
    restore_at_rows (some ip) = ground (arith, (add_peer_same w key ip).db)

    restore_at_from :
        (ip : Option String) (k : String)
        → is_peer (restore_at key ip w).1 k ≡ true
        → (is_peer w k ≡ true) ⊎ ((k ≡ key) × (is_wg_key key ≡ true))
    unfolding restore_at
    restore_at_from none k h = inl h
    restore_at_from (some ip) k h = elim (Result-cases (add_peer key ip w).0) [
      | inl (u, q) ↦ ground (arith, (add_peer-IsAdded w key ip q).peer k, eq_iff key k)
      | inr (e, q) ↦ ground (arith, (add_peer_fails w key ip e q).peer k)
    ]

    restore_at_keeps :
        (ip : Option String) (k : String)
        → is_peer w k ≡ true
        → is_peer (restore_at key ip w).1 k ≡ true
    unfolding restore_at
    restore_at_keeps none k h = h
    restore_at_keeps (some ip) k h = elim (Result-cases (add_peer key ip w).0) [
      | inl (u, q) ↦ ground (arith, (add_peer-IsAdded w key ip q).peer k)
      | inr (e, q) ↦ ground (arith, (add_peer_fails w key ip e q).peer k)
    ]

    restore_at_makes :
        (ip : String)
        → ((add_peer key ip w).0 ≡ ok tt)
        → (key == "") ≡ false
        → (ip == "") ≡ false
        → is_wg_key key ≡ true
        → is_peer (restore_at key (some ip) w).1 key ≡ true
    unfolding restore_at
    restore_at_makes ip q a b c =
        ground (arith, (add_peer-IsAdded w key ip q).peer key, eq_iff key key)

  pub restore_all_returns : (ds : Devices) (w : World v) → (restore_all ds w).0 ≡ ok tt
  unfolding restore_all
  restore_all_returns [] w = refl
  restore_all_returns (d ∷ ds) w =
      let next = (restore_at d.vpn_public_key d.vpn_ip w).1 in
      ground (arith, restore_at_returns w d.vpn_public_key d.vpn_ip, restore_all_returns ds next)

  pub restore_all_rows : (ds : Devices) (w : World v) → devices (restore_all ds w).1 ≡ devices w
  unfolding restore_all
  restore_all_rows [] w = refl
  restore_all_rows (d ∷ ds) w =
      let next = (restore_at d.vpn_public_key d.vpn_ip w).1 in
      ground (
        arith,
        restore_at_returns w d.vpn_public_key d.vpn_ip,
        restore_at_rows w d.vpn_public_key d.vpn_ip,
        restore_all_rows ds next,
      )

  pub restore_all_step :
      (d : Device) (ds : Devices) (w : World v)
      → restore_all (d ∷ ds) w ≡ restore_all ds (restore_at d.vpn_public_key d.vpn_ip w).1
  unfolding restore_all
  restore_all_step d ds w =
      ap (λ r. resume (λ _. restore_all ds) r (restore_at d.vpn_public_key d.vpn_ip w).1)
        (restore_at_returns w d.vpn_public_key d.vpn_ip)

  pub restore_all_from :
      (ds : Devices) (w : World v) (k : String)
      → is_peer (restore_all ds w).1 k ≡ true
      → (is_peer w k ≡ true)
        ⊎ ((d : Device) × Elem d ds × (k ≡ d.vpn_public_key) × (is_wg_key k ≡ true))
  unfolding restore_all
  restore_all_from [] w k h = inl h
  restore_all_from (d ∷ ds) w k h =
      let there =
        ap (λ (x : Result Unit × World v). is_peer x.1 k) (sym (restore_all_step d ds w)) ∙ h in
      elim (restore_all_from ds (restore_at d.vpn_public_key d.vpn_ip w).1 k there) [
        | inl before ↦ elim (restore_at_from w d.vpn_public_key d.vpn_ip k before) [
          | inl earlier ↦ inl earlier
          | inr (e, real) ↦ inr (d, inl refl, e, ap is_wg_key e ∙ real)
        ]
        | inr (c, m, e, real) ↦ inr (c, inr m, e, real)
      ]

  pub restore_all_keeps :
      (ds : Devices) (w : World v) (k : String)
      → is_peer w k ≡ true
      → is_peer (restore_all ds w).1 k ≡ true
  unfolding restore_all
  restore_all_keeps [] w k h = h
  restore_all_keeps (d ∷ ds) w k h =
      ap (λ (x : Result Unit × World v). is_peer x.1 k) (restore_all_step d ds w)
      ∙ restore_all_keeps ds _ k (restore_at_keeps w d.vpn_public_key d.vpn_ip k h)

  pub restore_all_makes :
      (ds : Devices) (w : World v) (d : Device)
      → Accepts v
      → Elem d ds
      → IsRestorable d
      → is_peer (restore_all ds w).1 d.vpn_public_key ≡ true
  restore_all_makes [] w d wg m r = elim m [ ]
  restore_all_makes (c ∷ ds) w d wg (inl e) r =
      ap (λ (x : Result Unit × World v). is_peer x.1 d.vpn_public_key) (restore_all_step c ds w)
      ∙ restore_all_keeps ds _ d.vpn_public_key (
          subst
            (λ (x : Device).
              is_peer (restore_at x.vpn_public_key x.vpn_ip w).1 d.vpn_public_key ≡ true)
            e
            (rw r.has_ip (
              restore_at_makes w d.vpn_public_key r.ip (wg d.vpn_public_key r.ip w)
                (real_not_blank d.vpn_public_key r.real) r.not_blank r.real)))
  restore_all_makes (c ∷ ds) w d wg (inr m) r =
      ap (λ (x : Result Unit × World v). is_peer x.1 d.vpn_public_key) (restore_all_step c ds w)
      ∙ restore_all_makes ds _ d wg m r
