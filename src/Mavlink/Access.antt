-- ===== src/Mavlink/Access.antt =====
-- Whom the relay lets control a drone, and where commands go.
use vdt_provisioning_service.Prelude.{
  String, ◌≡◌, ◌⊎◌, inl, inr, refl, sym, ap, ◌∙◌, Bool, true, false, Option, none, some, ◌==◌, Elem,
  contains, add, contains-add, arith, eq_iff, Bool-cases, if◌then◌else◌,
}
use vdt_provisioning_service.Prelude.Map
use vdt_provisioning_service.Prelude.Map.{Map, get-set, get-delete}
use vdt_provisioning_service.Prelude.Effect.{
  ok, err, Failure, Result-cases, ok-injective, catch, pure, ◌>>=◌,
}
use vdt_provisioning_service.Services.{Services, World}
use vdt_provisioning_service.Services.Tables.{Device}
use vdt_provisioning_service.Device.{find_by_device_id}
use vdt_provisioning_service.Device.Laws.{devices}
use vdt_provisioning_service.Device.Identity.Laws.{is_text-eq, found_by_id}
use vdt_provisioning_service.Auth.{Crypto, Payload}
use vdt_provisioning_service.Auth.Guards.{or_text}
use vdt_provisioning_service.Mavlink.{
  Relay, Handshake, clients_of, members, owns, may_control, admit, verified, handle_connection,
  token_of, raw_token, drone_id_of,
}

pub owned_row :
    (sub : String) (r : Option Device)
    → owns sub r ≡ true
    → (d : Device) × (r ≡ some d) × (d.user_id ≡ some sub)
owned_row sub none h = absurd (ground arith)
owned_row sub (some d) h = (d, refl, is_text-eq d.user_id sub h)

pub false-ne-true : false ≡ true → ⊥
false-ne-true e = ground arith

module _ {v : Services} where
  -- The user is an administrator or owns the drone, by the table.
  abbrev pub IsEntitled : String → Payload → World v → Type 0
  IsEntitled drone_id p w =
      (p.role ≡ "ADMIN")
      ⊎ ((d : Device) × Elem d (devices w) × (d.device_id ≡ drone_id) × (d.user_id ≡ some p.sub))

  may_control-IsEntitled :
      (drone_id : String) (p : Payload) (w : World v)
      → (may_control drone_id p w).0 ≡ ok true
      → IsEntitled drone_id p w
  unfolding may_control
  may_control-IsEntitled drone_id p w h = elim (Bool-cases (p.role == "ADMIN")) [
    | inl e ↦ inl (ground (arith, eq_iff p.role "ADMIN"))
    | inr e ↦ inr (from_row (Result-cases (find_by_device_id drone_id w).0) (rw e at h))
  ]
    where
      from_row :
          ((r : Option Device) × ((find_by_device_id drone_id w).0 ≡ ok r))
            ⊎ ((f : Failure) × ((find_by_device_id drone_id w).0 ≡ err f))
          → (catch (find_by_device_id drone_id >>= λ d. pure (owns p.sub d)) (λ _. pure false) w).0
            ≡ ok true
          → (d : Device) × Elem d (devices w) × (d.device_id ≡ drone_id) × (d.user_id ≡ some p.sub)
      from_row (inl (r, q)) h =
          let (d, found, owner) = owned_row p.sub r (ok-injective (rw q at h)) in
          let (there, same) = found_by_id w drone_id d (q ∙ ap ok found) in (d, there, same, owner)
      from_row (inr (f, q)) h = absurd (false-ne-true (ok-injective (rw q at h)))

  pub admit_clients :
      (client drone_id : String) (p : Payload) (r : Relay v)
      → (admit client drone_id p r).drone_clients
        ≡ Map.set r.drone_clients drone_id (add (clients_of r drone_id) client)
  unfolding admit
  admit_clients client drone_id p r = ground arith

  -- A socket that a step put into the set of a drone.
  abbrev IsNew : String → String → Relay v → Relay v → Type 0
  IsNew client drone_id before after =
      (contains (clients_of before drone_id) client ≡ false)
      × (contains (clients_of after drone_id) client ≡ true)

  admit_new :
      (client drone_id other : String) (c : String) (p : Payload) (r : Relay v)
      → IsNew c other r (admit client drone_id p r)
      → (c ≡ client) × (other ≡ drone_id)
  admit_new client drone_id other c p r (before, after) = elim (Bool-cases (drone_id == other)) [
    | inl e ↦
        let here =
          sym (
            ap
              (λ t.
                contains
                  (members (
                    if t
                    then some (add (clients_of r drone_id) client)
                    else Map.get r.drone_clients other))
                  c)
              e)
          ∙ sym (lands c)
          ∙ after in
        let same : drone_id ≡ other = ground (arith, eq_iff drone_id other) in
        let was = ap (λ o. contains (clients_of r o) c) same ∙ before in
        (
          ground (arith, contains-add (clients_of r drone_id) client c, here, was, eq_iff client c),
          sym same,
        )
    | inr e ↦ absurd (
        false-ne-true (
          sym before
          ∙ sym (
              ap
                (λ t.
                  contains
                    (members (
                      if t
                      then some (add (clients_of r drone_id) client)
                      else Map.get r.drone_clients other))
                    c)
                e)
          ∙ sym (lands c)
          ∙ after))
  ]
    where
      lands :
          (x : String)
          → contains (clients_of (admit client drone_id p r) other) x
            ≡ contains
                (members (
                  if drone_id == other
                  then some (add (clients_of r drone_id) client)
                  else Map.get r.drone_clients other))
                x
      lands x =
          ap (λ m. contains (members (Map.get m other)) x) (admit_clients client drone_id p r)
          ∙ ap (λ o. contains (members o) x)
              (get-set r.drone_clients drone_id other (add (clients_of r drone_id) client))

  verified_new :
      (client drone_id other c : String) (o : Option Payload) (r : Relay v)
      → IsNew c other r (verified client drone_id o r)
      → (p : Payload) × (o ≡ some p)
        × (c ≡ client)
        × (other ≡ drone_id)
        × IsEntitled drone_id p r.world
  unfolding verified
  verified_new client drone_id other c none r (before, after) =
      absurd (false-ne-true (sym before ∙ after))
  verified_new client drone_id other c (some p) r (before, after) =
      on_check (Result-cases (may_control drone_id p r.world).0) after
    where
      read : Relay v
      read = record r { world = (may_control drone_id p r.world).1 }

      on_check :
          ((b : Bool) × ((may_control drone_id p r.world).0 ≡ ok b))
            ⊎ ((f : Failure) × ((may_control drone_id p r.world).0 ≡ err f))
          → contains (clients_of (verified client drone_id (some p) r) other) c ≡ true
          → (x : Payload) × (some p ≡ some x)
            × (c ≡ client)
            × (other ≡ drone_id)
            × IsEntitled drone_id x r.world
      on_check (inl (true, q)) h =
          let (same_c, same_d) =
            admit_new client drone_id other c p read (before, rw (q, verified) at h) in
          (p, refl, same_c, same_d, may_control-IsEntitled drone_id p r.world q)
      on_check (inl (false, q)) h = absurd (false-ne-true (sym before ∙ rw (q, verified) at h))
      on_check (inr (f, q)) h = absurd (false-ne-true (sym before ∙ rw (q, verified) at h))

  -- A socket that a connection puts among the clients of a drone is the one that connected, with
  -- a token that verifies, for the drone it asked for, and its user is an administrator or owns
  -- that drone by the table of devices.
  pub handle_connection-IsEntitled :
      (k : Crypto) (client drone_id c : String) (hs : Handshake) (r : Relay v)
      → contains (clients_of r drone_id) c ≡ false
      → contains (clients_of (handle_connection k client hs r) drone_id) c ≡ true
      → (p : Payload) × (k.verify r.world.now (token_of (raw_token hs)) ≡ some p)
        × (c ≡ client)
        × (drone_id ≡ drone_id_of (or_text hs.query_drone_id hs.header_drone_id))
        × IsEntitled (drone_id_of (or_text hs.query_drone_id hs.header_drone_id)) p r.world
  unfolding handle_connection
  handle_connection-IsEntitled k client drone_id c hs r before after =
      elim (Bool-cases (drone_id_of (or_text hs.query_drone_id hs.header_drone_id) == "")) [
        | inl e ↦ absurd (false-ne-true (sym before ∙ rw e at after))
        | inr e ↦ with_token e (Bool-cases (token_of (raw_token hs) == ""))
      ]
    where
      with_token :
          (drone_id_of (or_text hs.query_drone_id hs.header_drone_id) == "") ≡ false
          → ((token_of (raw_token hs) == "") ≡ true) ⊎ ((token_of (raw_token hs) == "") ≡ false)
          → (p : Payload) × (k.verify r.world.now (token_of (raw_token hs)) ≡ some p)
            × (c ≡ client)
            × (drone_id ≡ drone_id_of (or_text hs.query_drone_id hs.header_drone_id))
            × IsEntitled (drone_id_of (or_text hs.query_drone_id hs.header_drone_id)) p r.world
      with_token e (inl t) = absurd (false-ne-true (sym before ∙ rw (e, t) at after))
      with_token e (inr t) =
          verified_new client (drone_id_of (or_text hs.query_drone_id hs.header_drone_id)) drone_id
            c (k.verify r.world.now (token_of (raw_token hs))) r (before, rw (e, t) at after)
