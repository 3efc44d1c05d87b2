-- ===== src/WebSsh/Ownership.antt =====
-- drone-fleet-manager/src/web-ssh/web-ssh.service.ts: each session belongs to a client that its socket
-- has dialled.
use vdt_provisioning_service.Prelude.{
  String, ◌≡◌, ◌⊎◌, inl, inr, refl, ap, ◌∙◌, subst, Bool, true, false, Option, none, some, [], ◌==◌,
  Elem, eq_iff, eq_refl, arith, Bool-cases, Option-cases,
}
use vdt_provisioning_service.Prelude.Map
use vdt_provisioning_service.Prelude.Map.{get-set, get-delete}
use vdt_provisioning_service.Prelude.Text.{trim}
use vdt_provisioning_service.Prelude.Effect.{Result, ok, err}
use vdt_provisioning_service.Services.{Services}
use vdt_provisioning_service.Auth.{Crypto}
use vdt_provisioning_service.WebSsh.{
  SshConnectOptions, Dial, SshSession, Terminals, Input, has_stream, resolve, close_ssh_session,
  dial, dial_at, create_ssh_session, write,
}
use vdt_provisioning_service.WebSsh.Gateway.{
  Handshake, ssh_token, may_open, opened, verified, handle_connect,
}

-- A session that is left after a delete was there before.
pub left_over :
    (m : Map.Map SshSession) (gone socket : String) (s : SshSession)
    → Map.get (Map.delete m gone) socket ≡ some s
    → Map.get m socket ≡ some s
left_over m gone socket s h = ground (arith, get-delete m gone socket)

pub nobody :
    (m : Map.Map SshSession) (socket : String) (s : SshSession)
    → m ≡ []
    → Map.get m socket ≡ some s
    → ⊥
unfolding Map.get
nobody m socket s e h =
    let g : Map.get [] socket ≡ some s = subst (λ n. Map.get n socket ≡ some s) e h in ground arith

cleared :
    (m : Map.Map SshSession) (gone socket : String) (new s : SshSession)
    → Map.get (Map.delete (Map.set m gone new) gone) socket ≡ some s
    → Map.get m socket ≡ some s
cleared m gone socket new s h =
    ground (arith, get-delete (Map.set m gone new) gone socket, get-set m gone socket new)

set_cases :
    (m : Map.Map SshSession) (key socket : String) (new s : SshSession)
    → Map.get (Map.set m key new) socket ≡ some s
    → ((key ≡ socket) × (new ≡ s)) ⊎ (Map.get m socket ≡ some s)
set_cases m key socket new s h = elim (Bool-cases (key == socket)) [
  | inl e ↦ inl (ground (arith, eq_iff key socket), ground (arith, get-set m key socket new))
  | inr e ↦ inr (ground (arith, get-set m key socket new))
]

module _ {v : Services} where
  -- The socket has dialled that client at that address.
  abbrev pub IsDialled : String → SshSession → Terminals v → Type 0
  IsDialled socket s t =
      (d : Dial) × Elem d t.dialled
      × (d.client ≡ s.client)
      × (d.socket_id ≡ socket)
      × (d.host ≡ s.vpn_ip)

  abbrev pub IsSeated : Terminals v → Type 0
  IsSeated t =
      (socket : String) (s : SshSession) → Map.get t.sessions socket ≡ some s → IsDialled socket s t

  pub close-IsSeated :
      (gone : String) (t : Terminals v) → IsSeated t → IsSeated (close_ssh_session gone t)
  unfolding close_ssh_session
  close-IsSeated gone t h = elim (Option-cases (Map.get t.sessions gone)) [
    | inl e ↦ rw (e, close_ssh_session) h
    | inr (x, e) ↦
        rw (e, close_ssh_session) (λ socket s q. h socket s (left_over t.sessions gone socket s q))
  ]

  write_keeps :
      (i : Input) (o : Option SshSession) (t : Terminals v)
      → ((write i o t).sessions ≡ t.sessions) × ((write i o t).dialled ≡ t.dialled)
  write_keeps i none t = (refl, refl)
  write_keeps i (some s) t = elim (Bool-cases (has_stream t.streams s.client)) [
    | inl e ↦ rw e (refl, refl)
    | inr e ↦ rw e (refl, refl)
  ]

  dial-IsSeated :
      (throws : Bool) (socket : String) (o : SshConnectOptions) (ip : String) (t : Terminals v)
      → IsSeated t
      → IsSeated (dial throws socket o ip t)
  unfolding dial close_ssh_session
  dial-IsSeated true socket o ip t h =
      let new : SshSession = record {
        client = t.next;
        device_id = trim o.device_id;
        vpn_ip = ip;
      } in
      let there : Map.get (Map.set t.sessions socket new) socket ≡ some new =
        get-set t.sessions socket socket new ∙ rw (eq_refl socket) refl in
      rw (there, close_ssh_session) (λ k s q. h k s (cleared t.sessions socket k new s q))
  dial-IsSeated false socket o ip t h = λ k s q.
      elim (set_cases t.sessions socket k
        (record { client = t.next; device_id = trim o.device_id; vpn_ip = ip }) s q) [
          | inl (e, same) ↦ (_, inl refl, ap (λ x. x.client) same, e, ap (λ x. x.vpn_ip) same)
          | inr old ↦ let (d, m, c, own, host) = h k s old in (d, inr m, c, own, host)
        ]

  dial_at-IsSeated :
      (throws : Bool) (socket : String) (o : SshConnectOptions) (r : Result String)
      (t : Terminals v)
      → IsSeated t
      → IsSeated (dial_at throws socket o r t)
  unfolding dial_at
  dial_at-IsSeated throws socket o (err e) t h = h
  dial_at-IsSeated throws socket o (ok ip) t h = elim (Bool-cases (ip == "")) [
    | inl e ↦ rw e h
    | inr e ↦ rw e (dial-IsSeated throws socket o ip t h)
  ]

  opened-IsSeated :
      (throws : Bool) (socket : String) (o : SshConnectOptions) (r : Result Bool) (t : Terminals v)
      → IsSeated t
      → IsSeated (opened throws socket o r t)
  unfolding opened create_ssh_session
  opened-IsSeated throws socket o (ok true) t h =
      let free = close_ssh_session socket t in
      let found = resolve (trim o.device_id) free.world in
      dial_at-IsSeated throws socket o found.0 (record free { world = found.1 })
        (close-IsSeated socket t h)
  opened-IsSeated throws socket o (ok false) t h = h
  opened-IsSeated throws socket o (err e) t h = h

  pub handle_connect-IsSeated :
      (k : Crypto) (throws : Bool) (socket : String) (hs : Handshake) (o : SshConnectOptions)
      (t : Terminals v)
      → IsSeated t
      → IsSeated (handle_connect k throws socket hs o t)
  unfolding handle_connect verified
  handle_connect-IsSeated k throws socket hs o t h = elim (Bool-cases (o.device_id == "")) [
    | inl e ↦ rw e h
    | inr e ↦ elim (Bool-cases (ssh_token o hs == "")) [
      | inl f ↦ rw (e, f) h
      | inr f ↦ elim (Option-cases (k.verify t.world.now (ssh_token o hs))) [
        | inl q ↦ rw (e, f, q) h
        | inr (p, q) ↦
            rw (e, f, q)
              (let check = may_open o.device_id p t.world in
                opened-IsSeated throws socket o check.0 (record t { world = check.1 }) h)
      ]
    ]
  ]
