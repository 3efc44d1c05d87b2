-- ===== src/Provisioning/Rollback.antt =====
-- What a registration of a new device leaves behind when it fails.
use vdt_provisioning_service.Prelude.{
  String, ◌≡◌, sym, ap, ◌∙◌, Bool, true, false, ◌==◌, arith, if◌then◌else◌,
}
use vdt_provisioning_service.Prelude.Effect.{Result, ok, err, Failure, bind_rule}
use vdt_provisioning_service.Services.{Services, World}
use vdt_provisioning_service.Wireguard.{Keypair, is_placeholder, generate_keypair}
use vdt_provisioning_service.Wireguard.Laws.{
  IsReliable, add_peer-IsAdded, add_peer_fails, remove_peer_same, remove_peer_removes,
  generate_keypair_same, generate_keypair_kernel, generate_keypair_key,
}
use vdt_provisioning_service.Device.{create_device}
use vdt_provisioning_service.Device.Laws.{devices, create_device_lem, create_device_fails}
use vdt_provisioning_service.IpPool.{allocate_ip}
use vdt_provisioning_service.IpPool.Allocation.{allocate_ip_keeps}
use vdt_provisioning_service.Provisioning.{
  RegisterDto, Response, row_input, new_peer, new_row, handle_new_provisioning,
}
use vdt_provisioning_service.Provisioning.New.{
  new_peer_ok, new_peer_err, new_row_err, new_peer_db, format_response_returns,
}

module _ {v : Services} (w : World v) (dto : RegisterDto) where
  abbrev w1 : World v
  w1 = (allocate_ip w).1

  abbrev w2 : World v
  w2 = (generate_keypair w1).1

  generated_rows : devices w2 ≡ devices w
  generated_rows = ap v.database.devices (generate_keypair_same w1).db ∙ (allocate_ip_keeps w).0

  generated_peer : (k : String) → v.shell.peer w2.host k ≡ v.shell.peer w.host k
  generated_peer k =
      (generate_keypair_kernel w1).peer k ∙ ap (λ h. v.shell.peer h k) (allocate_ip_keeps w).1

  abbrev Unwritten : Result Response × World v → Type 0
  Unwritten x = (e : Failure) → x.0 ≡ err e → devices x.1 ≡ devices w

  row_rows :
      (ip : String) (keys : Keypair) (s : World v) (e : Failure)
      → devices s ≡ devices w
      → (new_row dto ip keys s).0 ≡ err e
      → devices (new_row dto ip keys s).1 ≡ devices w
  row_rows ip keys s e same h =
      let (f, failed, state) = new_row_err s dto ip keys e h in
      ap devices state
      ∙ ap v.database.devices (remove_peer_same _ keys.public_key).db
      ∙ create_device_fails s (row_input dto ip keys) f failed
      ∙ same

  -- A registration that fails has written no row.
  pub handle_new_provisioning_fails_rows :
      (e : Failure)
      → (handle_new_provisioning dto w).0 ≡ err e
      → devices (handle_new_provisioning dto w).1 ≡ devices w
  unfolding handle_new_provisioning
  handle_new_provisioning_fails_rows =
      bind_rule Unwritten allocate_ip _ w
        (λ ip _.
          bind_rule Unwritten generate_keypair _ w1
            (λ keys _.
              bind_rule Unwritten (new_peer ip keys) _ w2
                (λ _ _.
                  bind_rule Unwritten (new_row dto ip keys) _ (new_peer ip keys w2).1
                    (λ _ _ e h. absurd (format_response_returns _ _ ip keys.private_key e h))
                    (λ f q e h.
                      row_rows ip keys _ f
                        (ap v.database.devices (new_peer_db w2 ip keys) ∙ generated_rows) q))
                (λ f q e h. ap v.database.devices (new_peer_db w2 ip keys) ∙ generated_rows))
            (λ f q e h. generated_rows))
        (λ f q e h. (allocate_ip_keeps w).0)

  abbrev NoNewPeer : Result Response × World v → Type 0
  NoNewPeer x =
      (e : Failure)
      → x.0 ≡ err e
      → (k : String) → v.shell.peer x.1.host k ≡ true
      → v.shell.peer w.host k ≡ true

  -- A peer that is there after a key was added and removed again was there before.
  left_out :
      (key k : String) {last added first before : Bool}
      → last ≡ true
      → last ≡ (if key == k then false else added)
      → added ≡ (if key == k then true else first)
      → first ≡ before
      → before ≡ true
  left_out key k a b c d = ground arith

  module _ (wg : IsReliable v) where
    removed_again :
        (ip : String) (keys : Keypair) (f : Failure) (k : String)
        → (generate_keypair w1).0 ≡ ok keys
        → (new_peer ip keys w2).0 ≡ ok tt
        → (new_row dto ip keys (new_peer ip keys w2).1).0 ≡ err f
        → v.shell.peer (new_row dto ip keys (new_peer ip keys w2).1).1.host k ≡ true
        → v.shell.peer w.host k ≡ true
    removed_again ip keys f k q2 q3 q4 there =
        let (_, _, state) = new_row_err (new_peer ip keys w2).1 dto ip keys f q4 in
        let (_, out, h, printed, key_eq) = generate_keypair_key w1 keys q2 in
        let real : is_placeholder keys.public_key ≡ false =
          rw key_eq (wg.prints_keys _ out h printed) in
        let made = (create_device (row_input dto ip keys) (new_peer ip keys w2).1).1 in
        let gone = (remove_peer_removes made keys.public_key wg real).peer k in
        let (added_ok, w3_eq) = new_peer_ok w2 ip keys q3 in
        let added = (add_peer-IsAdded w2 keys.public_key ip added_ok).peer k in
        let still = (create_device_lem (new_peer ip keys w2).1 (row_input dto ip keys)).2 in
        left_out keys.public_key k (sym (ap (λ (x : World v). v.shell.peer x.host k) state) ∙ there)
          gone
          (ap (λ x. v.shell.peer x k) still
            ∙ ap (λ (x : World v). v.shell.peer x.host k) w3_eq
            ∙ added)
          (generated_peer k)

    -- Where `wg` removes peers when told to and prints keys of the usual length, a registration
    -- that fails has left no peer in the kernel that was not there before.
    pub handle_new_provisioning_fails_peers :
        (e : Failure)
        → (handle_new_provisioning dto w).0 ≡ err e
        → (k : String) → v.shell.peer (handle_new_provisioning dto w).1.host k ≡ true
        → v.shell.peer w.host k ≡ true
    unfolding handle_new_provisioning
    handle_new_provisioning_fails_peers =
        bind_rule NoNewPeer allocate_ip _ w
          (λ ip _.
            bind_rule NoNewPeer generate_keypair _ w1
              (λ keys q2.
                bind_rule NoNewPeer (new_peer ip keys) _ w2
                  (λ _ q3.
                    bind_rule NoNewPeer (new_row dto ip keys) _ (new_peer ip keys w2).1
                      (λ _ _ e h. absurd (format_response_returns _ _ ip keys.private_key e h))
                      (λ f q4 e h k there. removed_again ip keys f k q2 q3 q4 there))
                  (λ f q3 e h k there.
                    let (g, failed, state) = new_peer_err w2 ip keys f q3 in
                    sym (generated_peer k)
                    ∙ sym ((add_peer_fails w2 keys.public_key ip g failed).peer k)
                    ∙ sym (ap (λ (x : World v). v.shell.peer x.host k) state)
                    ∙ there))
              (λ f q e h k there. sym (generated_peer k) ∙ there))
          (λ f q e h k there. sym (ap (λ x. v.shell.peer x k) (allocate_ip_keeps w).1) ∙ there)
