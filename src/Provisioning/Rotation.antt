-- ===== src/Provisioning/Rotation.antt =====
-- Key rotation: what a second registration of a device does.
use vdt_provisioning_service.Prelude.{
  String, ◌≡◌, refl, sym, ap, ◌∙◌, subst, true, none, some, ◌==◌, eq_refl, if◌then◌else◌,
}
use vdt_provisioning_service.Prelude.Effect.{Result, ok, err, Failure, bind_rule, ok-ne-err}
use vdt_provisioning_service.Services.{Services, World}
use vdt_provisioning_service.Services.Tables.{Device, IsUpdated}
use vdt_provisioning_service.Wireguard.{Keypair, cidr, generate_keypair, get_server_public_key}
use vdt_provisioning_service.Wireguard.Laws.{
  IsAdded, add_peer-IsAdded, generate_keypair_same, get_server_public_key_same,
  get_server_public_key_kernel,
}
use vdt_provisioning_service.Device
use vdt_provisioning_service.Device.{update_device}
use vdt_provisioning_service.Device.Laws.{devices, update_device_lem, update_device-IsUpdated}
use vdt_provisioning_service.Provisioning.{
  RegisterDto, Response, row_update, kept_ip, remove_old, rotated_peer, rotated_row,
  format_response, handle_re_provisioning,
}
use vdt_provisioning_service.Provisioning.New.{format_response_lem, format_response_returns}
use vdt_provisioning_service.Provisioning.Steps.{
  IsKept, kept_ip-IsKept, kept_ip_keeps, remove_old_same, rotated_peer_ok, rotated_peer_same,
  rotated_row_ok, rotated_row_err,
}

-- What a rotation that returned has done to the device `d`: its row has the new key and is ACTIVE
-- at the address, and the kernel routes the address to the new key.
pub record IsRotated {v : Services} (d : Device) (dto : RegisterDto) (before after : World v)
    (r : Response) : Type 0 where
  pub keys : Keypair
  pub device : Device
  pub kept : IsKept before d.vpn_ip r.assigned_ip
  pub generated : (generate_keypair (kept_ip d.vpn_ip before).1).0 ≡ ok keys
  -- An empty text leaves its column as it was.
  pub stored :
      IsUpdated
        (λ x. x.id == d.id)
        (record {
          device_id = none;
          hardware_model = if dto.hardware_model == "" then none else some dto.hardware_model;
          vpn_ip = some (some r.assigned_ip);
          vpn_public_key = if keys.public_key == "" then none else some keys.public_key;
          status = some "ACTIVE";
          last_seen = some before.now;
          user_id = none;
        })
        (devices before)
        (devices after)
        device
  pub route : v.shell.route after.host (cidr r.assigned_ip) ≡ some keys.public_key
  pub peer : v.shell.peer after.host keys.public_key ≡ true
  pub answered : (r.device_id ≡ dto.device_id) × (r.vpn.private_key ≡ keys.private_key)

module _ {v : Services} (w : World v) (d : Device) (dto : RegisterDto) where
  abbrev w1 : World v
  w1 = (kept_ip d.vpn_ip w).1

  abbrev w2 : World v
  w2 = (generate_keypair w1).1

  abbrev w3 : World v
  w3 = (remove_old d.vpn_public_key w2).1

  unread : (devices w3 ≡ devices w) × (w3.now ≡ w.now)
  unread = (
    ap v.database.devices ((remove_old_same w2 d.vpn_public_key).db ∙ (generate_keypair_same w1).db)
        ∙ (kept_ip_keeps w d.vpn_ip).0,
    (remove_old_same w2 d.vpn_public_key).now
        ∙ (generate_keypair_same w1).now
        ∙ (kept_ip_keeps w d.vpn_ip).1,
  )

  module _ (ip : String) (keys : Keypair) where
    abbrev w4 : World v
    w4 = (rotated_peer d.vpn_public_key ip keys w3).1

    abbrev w5 : World v
    w5 = (rotated_row d dto ip keys w4).1

    peer_rows : devices w4 ≡ devices w
    peer_rows = ap v.database.devices (rotated_peer_same w3 d.vpn_public_key ip keys).0 ∙ unread.0

    abbrev input : World v → Device.UpdateInput
    input s = row_update dto ip keys s.now

    steps-stored :
        (u : Device)
        → (update_device d.id (input w4) w4).0 ≡ ok u
        → w5 ≡ (update_device d.id (input w4) w4).1
        → IsUpdated
            (λ x. x.id == d.id)
            (Device.patch_of (input w))
            (devices w)
            (devices (get_server_public_key w5).1)
            u
    steps-stored u q e =
        let now_eq = (rotated_peer_same w3 d.vpn_public_key ip keys).1 ∙ unread.1 in
        let last = (get_server_public_key_same w5).db ∙ ap (λ (x : World v). x.db) e in
        subst
          (λ now.
            IsUpdated (λ x. x.id == d.id) (Device.patch_of (row_update dto ip keys now)) (devices w)
              (devices (get_server_public_key w5).1) u)
          now_eq
          (subst
            (λ rows.
              IsUpdated (λ x. x.id == d.id) (Device.patch_of (input w4)) rows
                (devices (get_server_public_key w5).1) u)
            peer_rows
            (subst
              (λ db.
                IsUpdated (λ x. x.id == d.id) (Device.patch_of (input w4)) (devices w4)
                  (v.database.devices db) u)
              (sym last) (update_device-IsUpdated w4 d.id (input w4) u q)))

    steps-host :
        w5 ≡ (update_device d.id (input w4) w4).1
        → (rotated_peer d.vpn_public_key ip keys w3).0 ≡ ok tt
        → IsAdded keys.public_key ip w3 (get_server_public_key w5).1
    steps-host e q =
        let (added_ok, w4_eq) = rotated_peer_ok w3 d.vpn_public_key ip keys q in
        let added = add_peer-IsAdded w3 keys.public_key ip added_ok in
        let host = ap (λ (x : World v). x.host) e ∙ (update_device_lem w4 d.id (input w4)).2 in
        let same = get_server_public_key_kernel w5 in
        record {
          route = λ c.
              same.route c
              ∙ ap (λ h. v.shell.route h c) host
              ∙ ap (λ (x : World v). v.shell.route x.host c) w4_eq
              ∙ added.route c;
          peer = λ k.
              same.peer k
              ∙ ap (λ h. v.shell.peer h k) host
              ∙ ap (λ (x : World v). v.shell.peer x.host k) w4_eq
              ∙ added.peer k;
        }

    steps-IsRotated :
        (r : Response)
        → (kept_ip d.vpn_ip w).0 ≡ ok ip
        → (generate_keypair w1).0 ≡ ok keys
        → (rotated_peer d.vpn_public_key ip keys w3).0 ≡ ok tt
        → (rotated_row d dto ip keys w4).0 ≡ ok tt
        → (format_response dto.device_id ip keys.private_key w5).0 ≡ ok r
        → IsRotated d dto w (format_response dto.device_id ip keys.private_key w5).1 r
    steps-IsRotated r q1 q2 q3 q4 q5 =
        let (last, id_eq, ip_eq, key_eq) = format_response_lem w5 _ ip keys.private_key r q5 in
        let (u, made, w5_eq) = rotated_row_ok w4 d dto ip keys q4 in
        let kernel = steps-host w5_eq q3 in
        rw (ip_eq, last)
          (record {
            keys = keys;
            device = u;
            kept = kept_ip-IsKept w d.vpn_ip ip q1;
            generated = q2;
            stored = steps-stored u made w5_eq;
            route = kernel.route (cidr ip) ∙ rw eq_refl refl;
            peer = kernel.peer keys.public_key ∙ rw eq_refl refl;
            answered = (id_eq, key_eq);
          })

  abbrev Rotates : Result Response × World v → Type 0
  Rotates x = (r : Response) → x.0 ≡ ok r → IsRotated d dto w x.1 r

  throws-Rotates : (e : Failure) (s : World v) → Rotates (err e, s)
  throws-Rotates e s r h = absurd (ok-ne-err (sym h))

  -- A rotation that returns keeps the device's address, or takes the lowest free one if the device
  -- had none, and writes in the device's row, and in no other, the address, the status ACTIVE, the
  -- time, the model and the public key of the pair that `generateKeypair` returned, but a model or
  -- a key that is empty; the kernel has that key as a peer and routes the address to it, and the
  -- answer holds the address and the private key of the pair.
  pub handle_re_provisioning_rotates :
      (r : Response)
      → (handle_re_provisioning d dto w).0 ≡ ok r
      → IsRotated d dto w (handle_re_provisioning d dto w).1 r
  unfolding handle_re_provisioning
  handle_re_provisioning_rotates =
      bind_rule Rotates (kept_ip d.vpn_ip) _ w
        (λ ip q1.
          bind_rule Rotates generate_keypair _ w1
            (λ keys q2.
              bind_rule Rotates (remove_old d.vpn_public_key) _ w2
                (λ _ _.
                  bind_rule Rotates (rotated_peer d.vpn_public_key ip keys) _ w3
                    (λ _ q3.
                      bind_rule Rotates (rotated_row d dto ip keys) _ (w4 ip keys)
                        (λ _ q4 r q5. steps-IsRotated ip keys r q1 q2 q3 q4 q5)
                        (λ e _. throws-Rotates e _))
                    (λ e _. throws-Rotates e _))
                (λ e _. throws-Rotates e _))
            (λ e _. throws-Rotates e _))
        (λ e _. throws-Rotates e _)

  abbrev Unwritten : Result Response × World v → Type 0
  Unwritten x = (e : Failure) → x.0 ≡ err e → devices x.1 ≡ devices w

  -- A rotation that fails leaves every row as it was.
  pub handle_re_provisioning_fails_rows :
      (e : Failure)
      → (handle_re_provisioning d dto w).0 ≡ err e
      → devices (handle_re_provisioning d dto w).1 ≡ devices w
  unfolding handle_re_provisioning
  handle_re_provisioning_fails_rows =
      bind_rule Unwritten (kept_ip d.vpn_ip) _ w
        (λ ip _.
          bind_rule Unwritten generate_keypair _ w1
            (λ keys _.
              bind_rule Unwritten (remove_old d.vpn_public_key) _ w2
                (λ _ _.
                  bind_rule Unwritten (rotated_peer d.vpn_public_key ip keys) _ w3
                    (λ _ _.
                      bind_rule Unwritten (rotated_row d dto ip keys) _ (w4 ip keys)
                        (λ _ _ e h. absurd (format_response_returns _ _ ip keys.private_key e h))
                        (λ f q e h.
                          rotated_row_err (w4 ip keys) d dto ip keys f q ∙ peer_rows ip keys))
                    (λ f q e h. peer_rows ip keys))
                (λ f q e h. unread.0))
            (λ f q e h.
              ap v.database.devices (generate_keypair_same w1).db ∙ (kept_ip_keeps w d.vpn_ip).0))
        (λ f q e h. (kept_ip_keeps w d.vpn_ip).0)
