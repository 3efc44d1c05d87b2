-- ===== src/Wireguard/Laws.antt =====
-- What the commands of wireguard.service.ts do to the kernel's peers and routes.
use vdt_provisioning_service.Prelude.{
  String, ◌≡◌, ◌⊎◌, inl, inr, refl, true, false, ◌==◌, arith, Bool-cases, if◌then◌else◌,
}
use vdt_provisioning_service.Prelude.Text.{trim}
use vdt_provisioning_service.Prelude.Effect.{Result, ok, err, Failure, Result-cases}
use vdt_provisioning_service.Services.{Services, World}
use vdt_provisioning_service.Services.Commands.{
  genkey, pubkey, show_public_key, set_peer, routed, unrouted,
}
use vdt_provisioning_service.Services.Commands
use vdt_provisioning_service.Wireguard.{
  Keypair, cidr, interface_name, is_placeholder, generate_keypair, add_peer, remove_peer,
  get_server_public_key,
}

module _ {v : Services} where
  -- All but the kernel stands as it stood.
  pub record SameButHost (before after : World v) : Type 0 where
    pub db : after.db ≡ before.db
    pub store : after.store ≡ before.store
    pub has_client : after.has_client ≡ before.has_client
    pub now : after.now ≡ before.now

  -- The kernel forwards and accepts what it did.
  pub record SameKernel (before after : World v) : Type 0 where
    pub route : (c : String) → v.shell.route after.host c ≡ v.shell.route before.host c
    pub peer : (k : String) → v.shell.peer after.host k ≡ v.shell.peer before.host k

  -- After `addPeer` returns, the address is routed to the key alone, and the key is a peer.
  pub record IsAdded (key ip : String) (before after : World v) : Type 0 where
    pub route :
        (c : String)
        → v.shell.route after.host c ≡ routed key (cidr ip) (v.shell.route before.host) c
    pub peer :
        (k : String)
        → v.shell.peer after.host k ≡ (if key == k then true else v.shell.peer before.host k)

  pub record IsRemoved (key : String) (before after : World v) : Type 0 where
    pub route :
        (c : String) → v.shell.route after.host c ≡ unrouted key (v.shell.route before.host) c
    pub peer :
        (k : String)
        → v.shell.peer after.host k ≡ (if key == k then false else v.shell.peer before.host k)

module _ {v : Services} (w : World v) where
  abbrev set_now : String → String → Result String
  set_now key ip = (v.shell.exec (set_peer (interface_name v) key (cidr ip)) w.host).0

  pub add_peer_same : (key ip : String) → SameButHost w (add_peer key ip w).1
  unfolding add_peer
  add_peer_same key ip = ground arith

  pub add_peer-IsAdded :
      (key ip : String) → (add_peer key ip w).0 ≡ ok tt → IsAdded key ip w (add_peer key ip w).1
  unfolding add_peer
  add_peer-IsAdded key ip h = elim (Result-cases (set_now key ip)) [
    | inl (out, q) ↦ record {
      route = λ c.
          ground (arith, v.shell.set_peer_route (interface_name v) key (cidr ip) w.host out c q);
      peer = λ k.
          ground (arith, v.shell.set_peer_peer (interface_name v) key (cidr ip) w.host out k q);
    }
    | inr (e, q) ↦ absurd (ground arith)
  ]

  pub add_peer_fails :
      (key ip : String) (e : Failure)
      → (add_peer key ip w).0 ≡ err e
      → SameKernel w (add_peer key ip w).1
  unfolding add_peer
  add_peer_fails key ip e h = elim (Result-cases (set_now key ip)) [
    | inl (out, q) ↦ absurd (ground arith)
    | inr (f, q) ↦ record {
      route = λ c. ground (
        arith,
        v.shell.exec_fails_route (set_peer (interface_name v) key (cidr ip)) w.host f c q,
      );
      peer = λ k.
          ground (
            arith,
            v.shell.exec_fails_peer (set_peer (interface_name v) key (cidr ip)) w.host f k q,
          );
    }
  ]

  abbrev remove_now : String → Result String
  remove_now key = (v.shell.exec (Commands.remove_peer (interface_name v) key) w.host).0

  pub remove_peer_returns : (key : String) → (remove_peer key w).0 ≡ ok tt
  unfolding remove_peer
  remove_peer_returns key = ground arith

  pub remove_peer_same : (key : String) → SameButHost w (remove_peer key w).1
  unfolding remove_peer
  remove_peer_same key = ground arith

  -- `removePeer` swallows a failure: the peer is gone, or nothing has changed.
  pub remove_peer_cases :
      (key : String)
      → SameKernel w (remove_peer key w).1
        ⊎ ((is_placeholder key ≡ false) × IsRemoved key w (remove_peer key w).1)
  unfolding remove_peer
  remove_peer_cases key = elim (Bool-cases (is_placeholder key)) [
    | inl skipped ↦ inl (rw skipped (record { route = λ c. refl; peer = λ k. refl }))
    | inr real ↦ elim (Result-cases (remove_now key)) [
      | inl (out, q) ↦ inr (
        real,
        record {
          route =
              λ c. ground (arith, v.shell.remove_peer_route (interface_name v) key w.host out c q);
          peer =
              λ k. ground (arith, v.shell.remove_peer_peer (interface_name v) key w.host out k q);
        },
      )
      | inr (f, q) ↦ inl (record {
        route = λ c. ground (
          arith,
          v.shell.exec_fails_route (Commands.remove_peer (interface_name v) key) w.host f c q,
        );
        peer = λ k. ground (
          arith,
          v.shell.exec_fails_peer (Commands.remove_peer (interface_name v) key) w.host f k q,
        );
      })
    ]
  ]

  pub generate_keypair_same : SameButHost w (generate_keypair w).1
  unfolding generate_keypair
  generate_keypair_same = ground arith

  pub get_server_public_key_same : SameButHost w (get_server_public_key w).1
  unfolding get_server_public_key
  get_server_public_key_same = ground arith

module _ {v : Services} (w : World v) where
  -- Generating keys and reading the server's key leave the peers alone, succeed or not.
  pub generate_keypair_kernel : SameKernel w (generate_keypair w).1
  unfolding generate_keypair
  generate_keypair_kernel = elim (Result-cases (v.shell.exec genkey w.host).0) [
    | inl (out, q) ↦
        let h = (v.shell.exec genkey w.host).1 in
        record {
          route = λ c.
              ground
                (arith, v.shell.genkey_keeps w.host c c, v.shell.pubkey_keeps (trim out) h c c);
          peer = λ k.
              ground
                (arith, v.shell.genkey_keeps w.host k k, v.shell.pubkey_keeps (trim out) h k k);
        }
    | inr (e, q) ↦ record {
      route = λ c. ground (arith, v.shell.genkey_keeps w.host c c);
      peer = λ k. ground (arith, v.shell.genkey_keeps w.host k k);
    }
  ]

  pub get_server_public_key_kernel : SameKernel w (get_server_public_key w).1
  unfolding get_server_public_key
  get_server_public_key_kernel = record {
    route = λ c. ground (arith, v.shell.show_keeps (interface_name v) w.host c c);
    peer = λ k. ground (arith, v.shell.show_keeps (interface_name v) w.host k k);
  }

  pub get_server_public_key_returns : (e : Failure) → (get_server_public_key w).0 ≡ err e → ⊥
  unfolding get_server_public_key
  get_server_public_key_returns e h = ground arith

  -- The public key is what `wg pubkey` printed.
  pub generate_keypair_key :
      (keys : Keypair)
      → (generate_keypair w).0 ≡ ok keys
      → (s : String) × (out : String) × (h : v.shell.Host) × ((v.shell.exec (pubkey s) h).0
          ≡ ok out)
        × (keys.public_key ≡ trim out)
  unfolding generate_keypair
  generate_keypair_key keys e = elim (Result-cases (v.shell.exec genkey w.host).0) [
    | inl (out, q) ↦
        elim (Result-cases (v.shell.exec (pubkey (trim out)) (v.shell.exec genkey w.host).1).0) [
          | inl (key, p) ↦ (trim out, key, (v.shell.exec genkey w.host).1, p, ground arith)
          | inr (f, p) ↦ absurd (ground arith)
        ]
    | inr (f, q) ↦ absurd (ground arith)
  ]

-- What the program relies on of `wg`, for its rollbacks: removing a peer works, and `wg pubkey`
-- prints no placeholder but a key of the usual length.
pub record IsReliable (v : Services) : Type 0 where
  pub removes :
      (k : String) (h : v.shell.Host) (e : Failure)
      → (v.shell.exec (Commands.remove_peer (interface_name v) k) h).0 ≡ err e
      → ⊥
  pub prints_keys :
      (s out : String) (h : v.shell.Host)
      → (v.shell.exec (pubkey s) h).0 ≡ ok out
      → is_placeholder (trim out) ≡ false

pub remove_peer_removes :
    {v : Services} (w : World v) (key : String)
    → IsReliable v
    → is_placeholder key ≡ false
    → IsRemoved key w (remove_peer key w).1
unfolding remove_peer
remove_peer_removes {v} w key wg real =
    elim (Result-cases (v.shell.exec (Commands.remove_peer (interface_name v) key) w.host).0) [
      | inl (out, q) ↦ record {
        route =
            λ c. ground (arith, v.shell.remove_peer_route (interface_name v) key w.host out c q);
        peer = λ k. ground (arith, v.shell.remove_peer_peer (interface_name v) key w.host out k q);
      }
      | inr (f, q) ↦ absurd (wg.removes key w.host f q)
    ]
