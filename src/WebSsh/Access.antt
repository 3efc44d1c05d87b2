-- ===== src/WebSsh/Access.antt =====
-- drone-fleet-manager/src/web-ssh/web-ssh.gateway.ts: who gets a connection to a drone.
use vdt_provisioning_service.Prelude.{
  String, ◌≡◌, ◌⊎◌, inl, inr, refl, sym, ap, ◌∙◌, subst, Bool, true, false, Option, none, some,
  ◌==◌, Elem, eq_iff, arith, Bool-cases, Option-cases,
}
use vdt_provisioning_service.Prelude.Text.{trim}
use vdt_provisioning_service.Prelude.Effect.{
  Result, Failure, ok, err, pure, ◌>>=◌, bind_rule, ok-injective, ok-ne-err,
}
use vdt_provisioning_service.Services.{Services, World}
use vdt_provisioning_service.Services.Tables.{Device, Devices}
use vdt_provisioning_service.Device.{find_by_device_id, find_by_vpn_ip}
use vdt_provisioning_service.Device.Laws.{devices}
use vdt_provisioning_service.Device.Identity.Laws.{
  found_by_id, found_by_ip, is_text-eq, find_by_device_id_rows, find_by_vpn_ip_rows,
}
use vdt_provisioning_service.Auth.{Crypto, Payload}
use vdt_provisioning_service.Mavlink.{owns}
use vdt_provisioning_service.WebSsh.{SshConnectOptions, Dial, Terminals}
use vdt_provisioning_service.WebSsh.Gateway.{
  Handshake, ssh_token, or_by_ip, may_open, opened, verified, handle_connect,
}
use vdt_provisioning_service.WebSsh.Routing.{IsAddressOf, IsRouted, create_ssh_session_new}

-- A row is the user's by its identity or by its address.
abbrev pub IsOwnRow : String → String → Device → Type 0
IsOwnRow target sub d = ((d.device_id ≡ target) ⊎ (d.vpn_ip ≡ some target)) × (d.user_id ≡ some sub)

owns-Elem :
    (sub target : String) (rows : Devices) (o : Option Device)
    → owns sub o ≡ true
    → ((d : Device)
        → o ≡ some d
        → Elem d rows × ((d.device_id ≡ target) ⊎ (d.vpn_ip ≡ some target)))
    → (d : Device) × Elem d rows × IsOwnRow target sub d
owns-Elem sub target rows none h found = absurd (ground arith)
owns-Elem sub target rows (some d) h found =
    let (there, same) = found d refl in (d, there, (same, is_text-eq d.user_id sub h))

module _ {v : Services} where
  -- The user is an administrator, or owns a row with that identity or that address.
  abbrev pub MayOpen : String → Payload → World v → Type 0
  MayOpen target p w =
      (p.role ≡ "ADMIN") ⊎ ((d : Device) × Elem d (devices w) × IsOwnRow target p.sub d)

  -- What is claimed of the check.
  abbrev Checked : String → Payload → Devices → Result Bool × World v → Type 0
  Checked target p rows x =
      (x.0 ≡ ok true → (d : Device) × Elem d rows × IsOwnRow target p.sub d) × (devices x.1 ≡ rows)

  refused :
      (target : String) (p : Payload) (rows : Devices) (e : Failure) (w : World v)
      → devices w ≡ rows
      → Checked target p rows (err e, w)
  refused target p rows e w q = (λ h. absurd (ok-ne-err (sym h)), q)

  by_row :
      (target : String) (p : Payload) (w : World v) (o : Option Device)
      → ((d : Device) → o ≡ some d → Elem d (devices w) × (d.device_id ≡ target))
      → Checked target p (devices w) ((or_by_ip target o >>= λ row. pure (owns p.sub row)) w)
  unfolding or_by_ip
  by_row target p w (some d) found = (
    λ h.
        owns-Elem p.sub target (devices w) (some d) (ok-injective h)
          (λ c q. let (m, e) = found c q in (m, inl e)),
    refl,
  )
  by_row target p w none found =
      let rows = find_by_vpn_ip_rows w target in
      bind_rule (Checked target p (devices w)) (find_by_vpn_ip target)
        (λ row. pure (owns p.sub row)) w
        (λ o q. (
          λ h. owns-Elem p.sub target (devices w) o (ok-injective h) (λ c e.
              let held = found_by_ip w target c (q ∙ ap ok e) in (held.there, inr held.has_ip)),
          rows,
        ))
        (λ e q. refused target p (devices w) e (find_by_vpn_ip target w).1 rows)

  may_open_lem :
      (target : String) (p : Payload) (w : World v)
      → ((may_open target p w).0 ≡ ok true → MayOpen target p w)
        × (devices (may_open target p w).1 ≡ devices w)
  unfolding may_open
  may_open_lem target p w = elim (Bool-cases (p.role == "ADMIN")) [
    | inl e ↦ rw e (λ h. inl (ground (arith, eq_iff p.role "ADMIN")), refl)
    | inr e ↦
        let (good, rows) : Checked target p (devices w) (
            (find_by_device_id target >>= λ by_id.
            or_by_ip target by_id >>= λ row. pure (owns p.sub row))
              w) =
          bind_rule (Checked target p (devices w)) (find_by_device_id target)
            (λ by_id. or_by_ip target by_id >>= λ row. pure (owns p.sub row)) w
            (λ o q.
              subst
                (λ rs. Checked target p rs (
                  (or_by_ip target o >>= λ row. pure (owns p.sub row))
                    (find_by_device_id target w).1))
                (find_by_device_id_rows w target)
                (by_row target p (find_by_device_id target w).1 o (λ d e.
                  let (m, same) = found_by_id w target d (q ∙ ap ok e) in
                  (subst (Elem d) (sym (find_by_device_id_rows w target)) m, same))))
            (λ x q.
              refused target p (devices w) x (find_by_device_id target w).1
                (find_by_device_id_rows w target)) in
        rw e (λ h. inr (good h), rows)
  ]

  opened_new :
      (throws : Bool) (socket : String) (o : SshConnectOptions) (r : Result Bool) (t : Terminals v)
      (x : Dial)
      → Elem x (opened throws socket o r t).dialled
      → Elem x t.dialled ⊎ ((r ≡ ok true) × IsRouted socket o (devices t.world) x)
  unfolding opened
  opened_new throws socket o (ok true) t x h = elim (create_ssh_session_new throws socket o t x h) [
    | inl old ↦ inl old
    | inr new ↦ inr (refl, new)
  ]
  opened_new throws socket o (ok false) t x h = inl h
  opened_new throws socket o (err e) t x h = inl h

  -- A connection that a request for a terminal opens is the asking socket's, by a token that
  -- verifies, of an administrator or of the owner of a row with the asked identity or address. It
  -- goes to the address that the trimmed target spells out; if it spells none, to that of the row of
  -- that identity; if there is none either, nothing is said of the address.
  pub handle_connect-MayOpen :
      (k : Crypto) (throws : Bool) (socket : String) (hs : Handshake) (o : SshConnectOptions)
      (t : Terminals v) (x : Dial)
      → Elem x (handle_connect k throws socket hs o t).dialled
      → Elem x t.dialled
        ⊎ ((p : Payload) × (k.verify t.world.now (ssh_token o hs) ≡ some p)
            × MayOpen o.device_id p t.world
            × (x.socket_id ≡ socket)
            × IsAddressOf (trim o.device_id) (devices t.world) x.host)
  unfolding handle_connect verified
  handle_connect-MayOpen k throws socket hs o t x h = elim (Bool-cases (o.device_id == "")) [
    | inl e ↦ inl (rw e at h)
    | inr e ↦ elim (Bool-cases (ssh_token o hs == "")) [
      | inl f ↦ inl (rw (e, f) at h)
      | inr f ↦ elim (Option-cases (k.verify t.world.now (ssh_token o hs))) [
        | inl q ↦ inl (rw (e, f, q) at h)
        | inr (p, q) ↦
            let check = may_open o.device_id p t.world in
            let (good, rows) = may_open_lem o.device_id p t.world in
            elim (opened_new throws socket o check.0 (record t { world = check.1 }) x
              (rw (e, f, q) at h)) [
                | inl old ↦ inl old
                | inr (passed, (mine, host)) ↦ inr (
                  p,
                  q,
                  good passed,
                  mine,
                  subst (λ rs. IsAddressOf (trim o.device_id) rs x.host) rows host,
                )
              ]
      ]
    ]
  ]
