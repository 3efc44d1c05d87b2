-- ===== src/WebSsh/Routing.antt =====
-- drone-fleet-manager/src/web-ssh/web-ssh.service.ts: the address that a connection goes to.
use vdt_provisioning_service.Prelude.{
  String, ◌≡◌, ◌⊎◌, inl, inr, refl, sym, subst, Bool, true, false, Option, ◌==◌, Elem, first,
  Bool-cases, Option-cases, if◌then◌else◌,
}
use vdt_provisioning_service.Prelude.Map
use vdt_provisioning_service.Prelude.Text.{trim}
use vdt_provisioning_service.Prelude.Effect.{
  Result, ok, err, pure, bind_rule, ok-injective, ok-ne-err,
}
use vdt_provisioning_service.Services.{Services, World}
use vdt_provisioning_service.Services.Tables.{Device, Devices}
use vdt_provisioning_service.Device.{find_by_device_id}
use vdt_provisioning_service.Device.Laws.{devices}
use vdt_provisioning_service.WebSsh.{
  SshConnectOptions, Dial, Terminals, literal_ip, row_ip, redis_ip, resolve, close_ssh_session,
  dial, dial_at, create_ssh_session,
}

-- The address that a target spells out; if it spells none, that of its row; if there is none
-- either, whatever Redis has.
abbrev pub IsAddressOf : String → Devices → String → Type 0
IsAddressOf target rows host =
    let ip = row_ip (first (λ r. r.device_id == target) rows) in
    (((literal_ip target == "") ≡ false) × (host ≡ literal_ip target))
    ⊎ (((literal_ip target == "") ≡ true) × ((ip == "") ≡ false) × (host ≡ ip))
    ⊎ (((literal_ip target == "") ≡ true) × ((ip == "") ≡ true))

-- The socket's own connection, to the address that the target has.
abbrev pub IsRouted : String → SshConnectOptions → Devices → Dial → Type 0
IsRouted socket o rows x = (x.socket_id ≡ socket) × IsAddressOf (trim o.device_id) rows x.host

module _ {v : Services} where
  close_keeps :
      (socket : String) (t : Terminals v)
      → ((close_ssh_session socket t).dialled ≡ t.dialled)
        × ((close_ssh_session socket t).world ≡ t.world)
  unfolding close_ssh_session
  close_keeps socket t = elim (Option-cases (Map.get t.sessions socket)) [
    | inl e ↦ rw (e, close_ssh_session) (refl, refl)
    | inr (s, e) ↦ rw (e, close_ssh_session) (refl, refl)
  ]

  from_row :
      (target ip : String) (row : Option Device) (rows : Devices) (w : World v)
      → (literal_ip target == "") ≡ true
      → row ≡ first (λ r. r.device_id == target) rows
      → ((if row_ip row == "" then redis_ip target else pure (row_ip row)) w).0 ≡ ok ip
      → IsAddressOf target rows ip
  from_row target ip row rows w e same h =
      subst
        (λ o.
          (((literal_ip target == "") ≡ false) × (ip ≡ literal_ip target))
          ⊎ (((literal_ip target == "") ≡ true) × ((row_ip o == "") ≡ false) × (ip ≡ row_ip o))
          ⊎ (((literal_ip target == "") ≡ true) × ((row_ip o == "") ≡ true)))
        same
        (elim (Bool-cases (row_ip row == "")) [
          | inl b ↦ inr (inr (e, b))
          | inr b ↦ inr (inl (e, b, sym (ok-injective (rw b at h))))
        ])

  resolve-IsAddressOf :
      (target ip : String) (w : World v)
      → (resolve target w).0 ≡ ok ip
      → IsAddressOf target (devices w) ip
  unfolding resolve find_by_device_id
  resolve-IsAddressOf target ip w h = elim (Bool-cases (literal_ip target == "")) [
    | inl e ↦
        bind_rule (λ r. r.0 ≡ ok ip → IsAddressOf target (devices w) ip) (find_by_device_id target)
          (λ row. if row_ip row == "" then redis_ip target else pure (row_ip row)) w
          (λ row q.
            from_row target ip row (devices w) (find_by_device_id target w).1 e
              (v.database.find_by_device_id_finds target w.db row q))
          (λ x q g. absurd (ok-ne-err (sym g))) (rw e at h)
    | inr e ↦ inl (e, sym (ok-injective (rw e at h)))
  ]

  dial_new :
      (throws : Bool) (socket : String) (o : SshConnectOptions) (ip : String) (t : Terminals v)
      (x : Dial)
      → Elem x (dial throws socket o ip t).dialled
      → Elem x t.dialled ⊎ ((x.socket_id ≡ socket) × (x.host ≡ ip))
  unfolding dial
  dial_new true socket o ip t x h = inl (subst (Elem x) (close_keeps socket _).0 h)
  dial_new false socket o ip t x (inl e) = inr (rw e (refl, refl))
  dial_new false socket o ip t x (inr m) = inl m

  dial_at_new :
      (throws : Bool) (socket : String) (o : SshConnectOptions) (r : Result String) (rows : Devices)
      (t : Terminals v) (x : Dial)
      → ((ip : String) → r ≡ ok ip → IsAddressOf (trim o.device_id) rows ip)
      → Elem x (dial_at throws socket o r t).dialled
      → Elem x t.dialled ⊎ IsRouted socket o rows x
  unfolding dial_at
  dial_at_new throws socket o (err e) rows t x good h = inl h
  dial_at_new throws socket o (ok ip) rows t x good h = elim (Bool-cases (ip == "")) [
    | inl e ↦ inl (rw e at h)
    | inr e ↦ elim (dial_new throws socket o ip t x (rw e at h)) [
      | inl old ↦ inl old
      | inr (s, host) ↦
          inr (s, subst (IsAddressOf (trim o.device_id) rows) (sym host) (good ip refl))
    ]
  ]

  pub create_ssh_session_new :
      (throws : Bool) (socket : String) (o : SshConnectOptions) (t : Terminals v) (x : Dial)
      → Elem x (create_ssh_session throws socket o t).dialled
      → Elem x t.dialled ⊎ IsRouted socket o (devices t.world) x
  unfolding create_ssh_session
  create_ssh_session_new throws socket o t x h =
      let free = close_ssh_session socket t in
      let found = resolve (trim o.device_id) free.world in
      let (dials, world) = close_keeps socket t in
      elim (dial_at_new throws socket o found.0 (devices t.world) (record free { world = found.1 })
        x
        (λ ip q.
          subst (λ w. IsAddressOf (trim o.device_id) (devices w) ip) world
            (resolve-IsAddressOf (trim o.device_id) ip free.world q))
        h) [ inl old ↦ inl (subst (Elem x) dials old) | inr new ↦ inr new ]
