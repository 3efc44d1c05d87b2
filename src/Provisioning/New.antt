-- ===== src/Provisioning/New.antt =====
-- What registration of a new device establishes, and what it leaves behind when it fails.
use vdt_provisioning_service.Prelude.{
  String, ◌≡◌, inl, inr, refl, sym, ap, ◌∙◌, subst, true, some, eq_refl, arith, Elem, All-Elem,
}
use vdt_provisioning_service.Prelude.Effect.{
  Result, ok, err, Failure, Result-cases, ok-ne-err, ok-injective, bind_rule,
}
use vdt_provisioning_service.Services.{Services, World}
use vdt_provisioning_service.Services.Tables.{Device, IsCreated}
use vdt_provisioning_service.Wireguard.{
  Keypair, cidr, generate_keypair, add_peer, remove_peer, get_server_public_key,
}
use vdt_provisioning_service.Wireguard.Laws.{
  SameKernel, add_peer_same, add_peer-IsAdded, remove_peer_returns, generate_keypair_same,
  get_server_public_key_same, get_server_public_key_kernel, get_server_public_key_returns,
}
use vdt_provisioning_service.Device
use vdt_provisioning_service.Device.{create_device}
use vdt_provisioning_service.Device.Laws.{devices, create_device_lem, create_device-IsCreated}
use vdt_provisioning_service.IpPool.{allocate_ip, subnet}
use vdt_provisioning_service.IpPool.Allocation.{
  IsAllocated, allocate_ip-IsAllocated, allocate_ip_keeps,
}
use vdt_provisioning_service.Provisioning.{
  RegisterDto, Response, new_peer, new_row, row_input, format_response, handle_new_provisioning,
}

module _ {v : Services} (w : World v) where
  pub new_peer_ok :
      (ip : String) (keys : Keypair)
      → (new_peer ip keys w).0 ≡ ok tt
      → ((add_peer keys.public_key ip w).0 ≡ ok tt)
        × ((new_peer ip keys w).1 ≡ (add_peer keys.public_key ip w).1)
  unfolding new_peer
  new_peer_ok ip keys h = ground arith

  pub new_peer_err :
      (ip : String) (keys : Keypair) (e : Failure)
      → (new_peer ip keys w).0 ≡ err e
      → (f : Failure) × ((add_peer keys.public_key ip w).0 ≡ err f)
        × ((new_peer ip keys w).1 ≡ (add_peer keys.public_key ip w).1)
  unfolding new_peer
  new_peer_err ip keys e h = elim (Result-cases (add_peer keys.public_key ip w).0) [
    | inl (u, q) ↦ absurd (ground arith)
    | inr (f, q) ↦ (f, q, ground arith)
  ]

  pub new_row_ok :
      (dto : RegisterDto) (ip : String) (keys : Keypair)
      → (new_row dto ip keys w).0 ≡ ok tt
      → (d : Device) × ((create_device (row_input dto ip keys) w).0 ≡ ok d)
        × ((new_row dto ip keys w).1 ≡ (create_device (row_input dto ip keys) w).1)
  unfolding new_row
  new_row_ok dto ip keys h = elim (Result-cases (create_device (row_input dto ip keys) w).0) [
    | inl (d, q) ↦ (d, q, ground arith)
    | inr (f, q) ↦ absurd (
        ground
          (arith, remove_peer_returns (create_device (row_input dto ip keys) w).1 keys.public_key))
  ]

  pub new_row_err :
      (dto : RegisterDto) (ip : String) (keys : Keypair) (e : Failure)
      → (new_row dto ip keys w).0 ≡ err e
      → (f : Failure) × ((create_device (row_input dto ip keys) w).0 ≡ err f)
        × ((new_row dto ip keys w).1
            ≡ (remove_peer keys.public_key (create_device (row_input dto ip keys) w).1).1)
  unfolding new_row
  new_row_err dto ip keys e h = elim (Result-cases (create_device (row_input dto ip keys) w).0) [
    | inl (d, q) ↦ absurd (ground arith)
    | inr (f, q) ↦ (
      f,
      q,
      ground
          (arith, remove_peer_returns (create_device (row_input dto ip keys) w).1 keys.public_key),
    )
  ]

  pub format_response_lem :
      (device_id ip private_key : String) (r : Response)
      → (format_response device_id ip private_key w).0 ≡ ok r
      → ((format_response device_id ip private_key w).1 ≡ (get_server_public_key w).1)
        × (r.device_id ≡ device_id)
        × (r.assigned_ip ≡ ip)
        × (r.vpn.private_key ≡ private_key)
  unfolding format_response
  format_response_lem device_id ip private_key r h =
      elim (Result-cases (get_server_public_key w).0) [
        | inl (key, q) ↦ ground arith
        | inr (e, q) ↦ absurd (get_server_public_key_returns w e q)
      ]

  pub format_response_returns :
      (device_id ip private_key : String) (e : Failure)
      → (format_response device_id ip private_key w).0 ≡ err e
      → ⊥
  unfolding format_response
  format_response_returns device_id ip private_key e h =
      elim (Result-cases (get_server_public_key w).0) [
        | inl (key, q) ↦ ground arith
        | inr (f, q) ↦ get_server_public_key_returns w f q
      ]

  pub new_peer_db : (ip : String) (keys : Keypair) → (new_peer ip keys w).1.db ≡ w.db
  unfolding new_peer
  new_peer_db ip keys = ground (arith, (add_peer_same w keys.public_key ip).db)

  -- The kernel's table after the row is written and the answer is put together.
  answered_kernel :
      (dto : RegisterDto) (ip : String) (keys : Keypair) (r : Response)
      → (new_row dto ip keys w).0 ≡ ok tt
      → SameKernel w (get_server_public_key (new_row dto ip keys w).1).1
  answered_kernel dto ip keys r h =
      let (d, q, e) = new_row_ok dto ip keys h in
      let still =
        ap (λ (x : World v). x.host) e ∙ (create_device_lem w (row_input dto ip keys)).2 in
      let same = get_server_public_key_kernel (new_row dto ip keys w).1 in
      record {
        route = λ c. same.route c ∙ ap (λ h. v.shell.route h c) still;
        peer = λ k. same.peer k ∙ ap (λ h. v.shell.peer h k) still;
      }

-- What a successful registration of a new device has done: the device has the lowest free address
-- and is stored as ACTIVE, under the identity and the model of the request and with the public key of
-- the key pair that was drawn, the kernel has the key as a peer and routes the
-- address to it, and the answer holds the address and the private key.
pub record IsProvisioned {v : Services} (dto : RegisterDto) (before after : World v) (r : Response)
    : Type 0 where
  pub keys : Keypair
  pub device : Device
  pub chosen : (allocate_ip before).0 ≡ ok r.assigned_ip
  pub allocated : IsAllocated (subnet v) (devices before) r.assigned_ip
  pub generated : (generate_keypair (allocate_ip before).1).0 ≡ ok keys
  pub stored :
      IsCreated
        (record {
          device_id = dto.device_id;
          hardware_model = dto.hardware_model;
          vpn_ip = some r.assigned_ip;
          vpn_public_key = keys.public_key;
          status = "ACTIVE";
        })
        (devices before)
        (devices after)
        device
  pub route : v.shell.route after.host (cidr r.assigned_ip) ≡ some keys.public_key
  pub peer : v.shell.peer after.host keys.public_key ≡ true
  pub answered : (r.device_id ≡ dto.device_id) × (r.vpn.private_key ≡ keys.private_key)

module _ {v : Services} (w : World v) (dto : RegisterDto) where
  -- The five steps of the handler have all returned.
  module _ (ip : String) (keys : Keypair) where
    abbrev w1 : World v
    w1 = (allocate_ip w).1

    abbrev w2 : World v
    w2 = (generate_keypair w1).1

    abbrev w3 : World v
    w3 = (new_peer ip keys w2).1

    abbrev w4 : World v
    w4 = (new_row dto ip keys w3).1

    unchanged_until_row : devices w3 ≡ devices w
    unchanged_until_row =
        ap v.database.devices (new_peer_db w2 ip keys ∙ (generate_keypair_same w1).db)
        ∙ (allocate_ip_keeps w).0

    steps-IsProvisioned :
        (r : Response)
        → (allocate_ip w).0 ≡ ok ip
        → (generate_keypair w1).0 ≡ ok keys
        → (new_peer ip keys w2).0 ≡ ok tt
        → (new_row dto ip keys w3).0 ≡ ok tt
        → (format_response dto.device_id ip keys.private_key w4).0 ≡ ok r
        → IsProvisioned dto w (format_response dto.device_id ip keys.private_key w4).1 r
    steps-IsProvisioned r q1 q2 q3 q4 q5 =
        let (last, id_eq, ip_eq, key_eq) = format_response_lem w4 _ ip keys.private_key r q5 in
        let (added_ok, w3_eq) = new_peer_ok w2 ip keys q3 in
        let added = add_peer-IsAdded w2 keys.public_key ip added_ok in
        let (d, made, w4_eq) = new_row_ok w3 dto ip keys q4 in
        let kernel = answered_kernel w3 dto ip keys r q4 in
        let on = λ (x : World v). x.host in
        rw (ip_eq, last)
          (record {
            keys = keys;
            device = d;
            chosen = q1;
            allocated = allocate_ip-IsAllocated w ip q1;
            generated = q2;
            stored =
                subst
                  (λ rows.
                    IsCreated (Device.new_row (row_input dto ip keys)) rows
                      (devices (get_server_public_key w4).1) d)
                  unchanged_until_row
                  (subst
                    (λ db.
                      IsCreated (Device.new_row (row_input dto ip keys)) (devices w3)
                        (v.database.devices db) d)
                    (sym ((get_server_public_key_same w4).db ∙ ap (λ (x : World v). x.db) w4_eq))
                    (create_device-IsCreated w3 (row_input dto ip keys) d made));
            route =
                kernel.route _
                ∙ ap (λ x. v.shell.route (on x) (cidr ip)) w3_eq
                ∙ added.route _
                ∙ rw eq_refl refl;
            peer =
                kernel.peer _
                ∙ ap (λ x. v.shell.peer (on x) keys.public_key) w3_eq
                ∙ added.peer _
                ∙ rw eq_refl refl;
            answered = (id_eq, key_eq);
          })

  abbrev Provides : Result Response × World v → Type 0
  Provides x = (r : Response) → x.0 ≡ ok r → IsProvisioned dto w x.1 r

  throws-Provides : (e : Failure) (s : World v) → Provides (err e, s)
  throws-Provides e s r h = absurd (ok-ne-err (sym h))

  -- A registration of a new device that returns has provisioned it: the device has the lowest free
  -- address and is stored as ACTIVE, under the identity and the model of the request, with the
  -- public key of the pair that `generateKeypair` returned; the kernel has that key as a peer and
  -- routes the address to it, and the answer holds the address and the private key of the pair.
  pub handle_new_provisioning_provisions :
      (r : Response)
      → (handle_new_provisioning dto w).0 ≡ ok r
      → IsProvisioned dto w (handle_new_provisioning dto w).1 r
  unfolding handle_new_provisioning
  handle_new_provisioning_provisions =
      bind_rule Provides allocate_ip _ w
        (λ ip q1.
          bind_rule Provides generate_keypair _ (allocate_ip w).1
            (λ keys q2.
              bind_rule Provides (new_peer ip keys) _ _
                (λ _ q3.
                  bind_rule Provides (new_row dto ip keys) _ _
                    (λ _ q4 r q5. steps-IsProvisioned ip keys r q1 q2 q3 q4 q5)
                    (λ e _. throws-Provides e _))
                (λ e _. throws-Provides e _))
            (λ e _. throws-Provides e _))
        (λ e _. throws-Provides e _)

  -- Where a row of any status has the address that `allocateIp` returns, the registration of a new
  -- device fails: the column is unique, and allocation looks at ACTIVE and PENDING rows alone.
  pub address_taken_blocks :
      (ip : String) (d : Device)
      → (allocate_ip w).0 ≡ ok ip
      → Elem d (devices w)
      → d.vpn_ip ≡ some ip
      → (e : Failure) × ((handle_new_provisioning dto w).0 ≡ err e)
  address_taken_blocks ip d q m held = elim (Result-cases (handle_new_provisioning dto w).0) [
    | inl (r, h) ↦
        let p = handle_new_provisioning_provisions r h in
        let same : some r.assigned_ip ≡ some ip = ap some (ok-injective (sym p.chosen ∙ q)) in
        absurd ((All-Elem _ (devices w) d p.stored.unused m).1 ip same held)
    | inr failed ↦ failed
  ]
