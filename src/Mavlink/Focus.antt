-- ===== src/Mavlink/Focus.antt =====
-- The focus set of Redis against the pilots that are connected, over any order of events.
use vdt_provisioning_service.Prelude.{
  String, ◌≡◌, inl, inr, refl, sym, ap, ◌∙◌, Bool, true, false, Option, none, some, List, ◌==◌, add,
  discard, arith, eq_iff, Bool-cases, eqb, length, if◌then◌else◌,
}
use vdt_provisioning_service.Prelude.Map
use vdt_provisioning_service.Prelude.Map.{Map, get-set, get-delete}
use vdt_provisioning_service.Prelude.Effect.{Result-cases}
use vdt_provisioning_service.Services.{Services, World}
use vdt_provisioning_service.RedisService.{add_focus_drone, remove_focus_drone}
use vdt_provisioning_service.Device.{find_by_device_id}
use vdt_provisioning_service.RedisService.Laws.{
  TakesFocus, focused, add_focus_drone_lem, remove_focus_drone_lem, focus_keeps_client,
}
use vdt_provisioning_service.Auth.{Payload}
use vdt_provisioning_service.Mavlink.{
  Relay, clients_of, members, may_control, admit, verified, leave,
}

-- A set that a socket joins and that then has another size was not empty.
had_clients :
    (o : Option (List String)) (client : String)
    → eqb (length (add (members o) client)) 1 ≡ false
    → Map.is_there o ≡ true
had_clients none client h = absurd (ground arith)
had_clients (some cs) client h = refl

is_there-if :
    {A : Type 0} (b : Bool) (x : A) (o : Option A)
    → Map.is_there (if b then some x else o) ≡ (if b then true else Map.is_there o)
is_there-if true x o = refl
is_there-if false x o = refl

has-set :
    (m : Map (List String)) (d e : String) (cs : List String)
    → Map.has (Map.set m d cs) e ≡ (if d == e then true else Map.has m e)
has-set m d e cs = ap Map.is_there (get-set m d e cs) ∙ is_there-if (d == e) cs (Map.get m e)

has-delete :
    (m : Map (List String)) (d e : String)
    → Map.has (Map.delete m d) e ≡ (if d == e then false else Map.has m e)
has-delete m d e = ap Map.is_there (get-delete m d e) ∙ of_if (d == e) (Map.get m e)
  where
    of_if :
        (b : Bool) (o : Option (List String))
        → Map.is_there (if b then none else o) ≡ (if b then false else Map.is_there o)
    of_if true o = refl
    of_if false o = refl

has-again :
    (m : Map (List String)) (d e : String)
    → Map.has m d ≡ true
    → Map.has m e ≡ (if d == e then true else Map.has m e)
has-again m d e there = elim (Bool-cases (d == e)) [
  | inl same ↦ rw same (ap (Map.has m) (sym (ground (arith, eq_iff d e))) ∙ there)
  | inr other ↦ rw other refl
]

module _ {v : Services} where
  -- The focus set holds the drones that have an entry among the clients.
  pub record IsInSync (r : Relay v) : Type 0 where
    pub has_client : r.world.has_client ≡ true
    pub focus : (d : String) → (d == "") ≡ false → focused r.world d ≡ Map.has r.drone_clients d

  -- The world and the clients after a socket joins a drone.
  pub admit_state :
      (client d : String) (p : Payload) (r : Relay v)
      → ((admit client d p r).world ≡ (
          if eqb (length (add (clients_of r d) client)) 1
          then (add_focus_drone d r.world).1
          else r.world))
        × ((admit client d p r).drone_clients
            ≡ Map.set r.drone_clients d (add (clients_of r d) client))
  unfolding admit
  admit_state client d p r = (ground arith, ground arith)

  admit-IsInSync :
      (client d : String) (p : Payload) (r : Relay v)
      → TakesFocus v
      → (d == "") ≡ false
      → IsInSync r
      → IsInSync (admit client d p r)
  admit-IsInSync client d p r redis named sync =
      let (world_eq, clients_eq) = admit_state client d p r in
      elim (Bool-cases (eqb (length (add (clients_of r d) client)) 1)) [
        | inl one ↦
            let now =
              world_eq ∙ ap (λ b. if b then (add_focus_drone d r.world).1 else r.world) one in
            record {
              has_client =
                  ap (λ (w : World v). w.has_client) now
                  ∙ (focus_keeps_client d r.world).0
                  ∙ sync.has_client;
              focus = λ e other.
                  ap (λ (w : World v). focused w e) now
                  ∙ add_focus_drone_lem d e r.world redis sync.has_client named
                  ∙ ap (λ b. if d == e then true else b) (sync.focus e other)
                  ∙ sym (
                      ap (λ m. Map.has m e) clients_eq
                      ∙ has-set r.drone_clients d e (add (clients_of r d) client));
            }
        | inr more ↦
            let now =
              world_eq ∙ ap (λ b. if b then (add_focus_drone d r.world).1 else r.world) more in
            record {
              has_client = ap (λ (w : World v). w.has_client) now ∙ sync.has_client;
              focus = λ e other.
                  ap (λ (w : World v). focused w e) now
                  ∙ sync.focus e other
                  ∙ has-again r.drone_clients d e
                      (had_clients (Map.get r.drone_clients d) client more)
                  ∙ sym (
                      ap (λ m. Map.has m e) clients_eq
                      ∙ has-set r.drone_clients d e (add (clients_of r d) client));
            }
      ]

  pub leave_state :
      (client d : String) (cs : List String) (r : Relay v)
      → ((leave client d (some cs) r).world ≡ (
          if eqb (length (discard cs client)) 0 then (remove_focus_drone d r.world).1 else r.world))
        × ((leave client d (some cs) r).drone_clients ≡ (
            if eqb (length (discard cs client)) 0
            then Map.delete r.drone_clients d
            else Map.set r.drone_clients d (discard cs client)))
  unfolding leave
  leave_state client d cs r = (ground arith, ground arith)

  pub leave-IsInSync :
      (client d : String) (cs : List String) (r : Relay v)
      → TakesFocus v
      → (d == "") ≡ false
      → Map.get r.drone_clients d ≡ some cs
      → IsInSync r
      → IsInSync (leave client d (some cs) r)
  leave-IsInSync client d cs r redis named there sync =
      let (world_eq, clients_eq) = leave_state client d cs r in
      elim (Bool-cases (eqb (length (discard cs client)) 0)) [
        | inl last ↦
            let now =
              world_eq ∙ ap (λ b. if b then (remove_focus_drone d r.world).1 else r.world) last in
            let left =
              clients_eq
              ∙ ap
                  (λ b.
                    if b
                    then Map.delete r.drone_clients d
                    else Map.set r.drone_clients d (discard cs client))
                  last in
            record {
              has_client =
                  ap (λ (w : World v). w.has_client) now
                  ∙ (focus_keeps_client d r.world).1
                  ∙ sync.has_client;
              focus = λ e other.
                  ap (λ (w : World v). focused w e) now
                  ∙ remove_focus_drone_lem d e r.world redis sync.has_client named
                  ∙ ap (λ b. if d == e then false else b) (sync.focus e other)
                  ∙ sym (ap (λ m. Map.has m e) left ∙ has-delete r.drone_clients d e);
            }
        | inr more ↦
            let now =
              world_eq ∙ ap (λ b. if b then (remove_focus_drone d r.world).1 else r.world) more in
            let left =
              clients_eq
              ∙ ap
                  (λ b.
                    if b
                    then Map.delete r.drone_clients d
                    else Map.set r.drone_clients d (discard cs client))
                  more in
            record {
              has_client = ap (λ (w : World v). w.has_client) now ∙ sync.has_client;
              focus = λ e other.
                  ap (λ (w : World v). focused w e) now
                  ∙ sync.focus e other
                  ∙ has-again r.drone_clients d e (ap Map.is_there there)
                  ∙ sym (
                      ap (λ m. Map.has m e) left ∙ has-set r.drone_clients d e (discard cs client));
            }
      ]

  may_control_keeps :
      (d : String) (p : Payload) (w : World v)
      → ((may_control d p w).1.store ≡ w.store) × ((may_control d p w).1.has_client ≡ w.has_client)
  unfolding may_control find_by_device_id
  may_control_keeps d p w = (ground arith, ground arith)

  pub verified-IsInSync :
      (client d : String) (o : Option Payload) (r : Relay v)
      → TakesFocus v
      → (d == "") ≡ false
      → IsInSync r
      → IsInSync (verified client d o r)
  unfolding verified
  verified-IsInSync client d none r redis named sync = record {
    has_client = sync.has_client;
    focus = sync.focus;
  }
  verified-IsInSync client d (some p) r redis named sync =
      elim (Result-cases (may_control d p r.world).0) [
        | inl (true, q) ↦ rw (q, verified) (admit-IsInSync client d p read redis named read_sync)
        | inl (false, q) ↦
            rw (q, verified) (record { has_client = read_sync.has_client; focus = read_sync.focus })
        | inr (f, q) ↦
            rw (q, verified) (record { has_client = read_sync.has_client; focus = read_sync.focus })
      ]
    where
      read : Relay v
      read = record r { world = (may_control d p r.world).1 }

      read_sync : IsInSync read
      read_sync = record {
        has_client = (may_control_keeps d p r.world).1 ∙ sync.has_client;
        focus = λ e other.
            ap (λ x. v.redis.member x "drone:focus_set" e) (may_control_keeps d p r.world).0
            ∙ sync.focus e other;
      }
