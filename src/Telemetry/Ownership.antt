-- ===== src/Telemetry/Ownership.antt =====
-- drone-fleet-manager/src/telemetry/telemetry.service.ts: whose drones a snapshot of the fleet shows,
-- and which of them it calls connected.
use vdt_provisioning_service.Prelude.{
  ℕ, String, ◌≡◌, ◌⊎◌, inl, inr, refl, sym, subst, ◌∙◌, false, Option, none, some, List, [], ◌∷◌,
  ◌&&◌, Elem, All, Elem-of_keep, Elem-map, All-Elem, arith, Bool-cases, Option-cases,
}
use vdt_provisioning_service.Prelude.Map
use vdt_provisioning_service.Prelude.Map.{Map}
use vdt_provisioning_service.Prelude.Entries.{All-set, All-get, All-values}
use vdt_provisioning_service.Prelude.Effect.{
  Act, Result, ok, ok-injective, ok-ne-err, bind_rule, ◌>>=◌,
}
use vdt_provisioning_service.Services.{Services}
use vdt_provisioning_service.Services.Tables.{Device, Devices}
use vdt_provisioning_service.RedisService.{get_all_telemetry_states}
use vdt_provisioning_service.Device.{owned_by, find_all_devices}
use vdt_provisioning_service.Device.Laws.{devices}
use vdt_provisioning_service.IpPool.{subnet}
use vdt_provisioning_service.TelemetryGateway.Rooms.{Adapter}
use vdt_provisioning_service.Telemetry.{Payload}
use vdt_provisioning_service.Telemetry.Monitor.{Monitor, clock, is_connected}
use vdt_provisioning_service.Telemetry.Fleet.{
  Entry, Tags, is_stale, entry_of, device_map, with_telemetry,
}
use vdt_provisioning_service.Telemetry.Snapshot.{
  target_key, put_at, placed_at, place, merge_one, merge, entries, finished, finished_telemetry,
}
use vdt_provisioning_service.Telemetry.Queries.{
  on_services, read_map, assemble, fetch_raw_fleet_from_storage,
}

module _ {F : Type 0} where
  -- What has an owner has it by a row of the table under its identity.
  abbrev pub IsOwned : Devices → Entry F → Type 0
  IsOwned rows e =
      (e.user_id ≡ none)
      ⊎ ((d : Device) × Elem d rows × (d.device_id ≡ e.device_id) × (d.user_id ≡ e.user_id))

  module _ (rows : Devices) where
    abbrev AllOwned : Map (Entry F) → Type 0
    AllOwned m = All (λ x. IsOwned rows x.1) m

    device_map-IsOwned :
        (ds : Devices) (m : Map (Entry F))
        → ((d : Device) → Elem d ds → Elem d rows)
        → AllOwned m
        → AllOwned (device_map ds m)
    unfolding device_map
    device_map-IsOwned [] m sub h = h
    device_map-IsOwned (d ∷ ds) m sub h =
        device_map-IsOwned ds _ (λ c e. sub c (inr e))
          (All-set _ m d.device_id (entry_of d) (inr (d, sub d (inl refl), refl, refl)) h)

    put_at-IsOwned :
        (t : Payload F) (source : Option String) (ip k : String) (m : Map (Entry F))
        → AllOwned m
        → AllOwned (put_at t source ip k (Map.get m k) m)
    unfolding put_at
    put_at-IsOwned t source ip k m h = elim (Option-cases (Map.get m k)) [
      | inl q ↦ rw (q, put_at) h
      | inr (e, q) ↦
          rw (q, put_at)
            (All-set _ m k (with_telemetry t source ip e) (All-get (IsOwned rows) m k e h q) h)
    ]

    place-IsOwned :
        (prefix : String) (now : ℕ) (tags : Tags) (ips : Map String) (t : Payload F)
        (source : Option String) (i : String) (m : Map (Entry F))
        → AllOwned m
        → AllOwned (place prefix now tags ips t source i m)
    unfolding place placed_at
    place-IsOwned prefix now tags ips t source i m h =
        elim (Option-cases (target_key tags ips t i m)) [
          | inl q ↦ rw (q, placed_at) (All-set _ m _ _ (inl refl) h)
          | inr (k, q) ↦ rw (q, placed_at) (put_at-IsOwned t source _ k m h)
        ]

    module _ (literal : ℕ → F) (prefix : String) (now : ℕ) (tags : Tags) (ips : Map String)
        (cache states : Map (Payload F)) where
      merge_one-IsOwned :
          (i : String) (o p : Option (Payload F)) (m : Map (Entry F))
          → AllOwned m
          → AllOwned (merge_one literal prefix now tags ips cache states i o p m)
      unfolding merge_one
      merge_one-IsOwned i (some raw) p m h = place-IsOwned prefix now tags ips _ _ i m h
      merge_one-IsOwned i none (some raw) m h = place-IsOwned prefix now tags ips _ _ i m h
      merge_one-IsOwned i none none m h = h

      merge-IsOwned :
          (ids : List String) (m : Map (Entry F))
          → AllOwned m
          → AllOwned (merge literal prefix now tags ips cache states ids m)
      unfolding merge
      merge-IsOwned [] m h = h
      merge-IsOwned (i ∷ ids) m h =
          merge-IsOwned ids _ (merge_one-IsOwned i (Map.get cache i) (Map.get states i) m h)

    pub entries-IsOwned :
        (literal : ℕ → F) (prefix : String) (now : ℕ) (ds : Devices) (states : Map (Payload F))
        (ip_map sys_map : Map String) (cache : Map (Payload F))
        → ((d : Device) → Elem d ds → Elem d rows)
        → All (IsOwned rows) (entries literal prefix now ds states ip_map sys_map cache)
    entries-IsOwned literal prefix now ds states ip_map sys_map cache sub =
        All-values (IsOwned rows) _
          (merge-IsOwned literal prefix now _ _ cache states _ _ (device_map-IsOwned ds [] sub tt))

module _ {F : Type 0} where
  -- The payload of an entry is not both marked as connected and more than ten seconds old.
  abbrev pub IsCurrent : ℕ → Entry F → Type 0
  IsCurrent now e =
      (t : Payload F) × (e.telemetry ≡ some t) × ((is_connected t && is_stale now t) ≡ false)

  finished-IsCurrent :
      (literal : ℕ → F) (now : ℕ) (e : Entry F)
      → IsCurrent now (finished literal now e)
        × ((finished literal now e).user_id ≡ e.user_id)
        × ((finished literal now e).device_id ≡ e.device_id)
  unfolding finished finished_telemetry
  finished-IsCurrent literal now e = elim (Option-cases e.telemetry) [
    | inl q ↦ rw (q, finished_telemetry) ((_, refl, refl), refl, refl)
    | inr (t, q) ↦ elim (Bool-cases (is_stale now t)) [
      | inl o ↦ rw (q, finished_telemetry, o) ((_, refl, refl), refl, refl)
      | inr o ↦ rw (q, finished_telemetry, o) ((t, refl, ground arith), refl, refl)
    ]
  ]

  finished-IsOwned :
      (rows : Devices) (literal : ℕ → F) (now : ℕ) (e : Entry F)
      → IsOwned rows e
      → IsOwned rows (finished literal now e)
  finished-IsOwned rows literal now e h =
      let (current, user, id) = finished-IsCurrent literal now e in
      elim h [
        | inl q ↦ inl (user ∙ q)
        | inr (d, m, same, own) ↦ inr (d, m, same ∙ sym id, own ∙ sym user)
      ]

module _ {v : Services} {a : Adapter} {F : Type 0} (literal : ℕ → F) where
  -- What is claimed of an entry that is returned.
  abbrev Shows :
      Devices → List (Entry F) → Entry F → Result (List (Entry F)) × Monitor v a F → Type 0
  Shows rows es e r = r.0 ≡ ok es → Elem e es → IsOwned rows e × IsCurrent (clock r.1) e

  module _ (rows ds : Devices) (es : List (Entry F)) (e : Entry F)
      (sub : (d : Device) → Elem d ds → Elem d rows) where
    assemble-Shows :
        (states : Map (Payload F)) (ip_map sys_map : Map String) (s : Monitor v a F)
        → Shows rows es e (assemble literal ds states ip_map sys_map s)
    unfolding assemble
    assemble-Shows states ip_map sys_map s h there =
        let (b, m, q) = Elem-map _ _ e (subst (Elem e) (sym (ok-injective h)) there) in
        let owned =
          All-Elem (IsOwned rows) _ b
            (entries-IsOwned rows literal (subnet v) (clock s) ds states ip_map sys_map
              s.in_memory_cache sub)
            m in
        subst (λ x. IsOwned rows x × IsCurrent (clock s) x) (sym q)
          (
            finished-IsOwned rows literal (clock s) b owned,
            (finished-IsCurrent literal (clock s) b).0,
          )

  -- A read on the way, whatever it returns.
  read-Shows :
      {A : Type 0} (rows : Devices) (es : List (Entry F)) (e : Entry F) (m : Act (Monitor v a F) A)
      (f : A → Act (Monitor v a F) (List (Entry F))) (s : Monitor v a F)
      → ((x : A) (t : Monitor v a F) → (m s).0 ≡ ok x → Shows rows es e (f x t))
      → Shows rows es e ((m >>= f) s)
  read-Shows rows es e m f s next =
      bind_rule (Shows rows es e) m f s (λ x q. next x (m s).1 q)
        (λ x q h. absurd (ok-ne-err (sym h)))

  -- A fleet that is read from the storage shows an owner only where a row of the table has that
  -- owner under the same identity, and has a payload for every entry, which is not marked as
  -- connected when its time is more than ten seconds before the answer.
  pub fetch_raw_fleet_from_storage-IsOwned :
      (parse : String → Option (Payload F)) (s : Monitor v a F) (es : List (Entry F)) (e : Entry F)
      → (fetch_raw_fleet_from_storage literal parse s).0 ≡ ok es
      → Elem e es
      → IsOwned (devices s.hub.world) e
        × IsCurrent (clock (fetch_raw_fleet_from_storage literal parse s).1) e
  unfolding fetch_raw_fleet_from_storage find_all_devices
  fetch_raw_fleet_from_storage-IsOwned parse s es e =
      let rows : Devices = devices s.hub.world in
      let last = λ (ds : Devices) (states : Map (Payload F)) (ips : Map String).
        on_services (read_map "drone:sys_map") >>= λ syss. assemble literal ds states ips syss in
      let middle = λ (ds : Devices) (states : Map (Payload F)).
        on_services (read_map "drone:ip_map") >>= λ ips. last ds states ips in
      read-Shows rows es e (on_services (find_all_devices none))
        (λ ds. on_services (get_all_telemetry_states parse) >>= λ states. middle ds states) s
        (λ ds t q.
          read-Shows rows es e (on_services (get_all_telemetry_states parse)) (middle ds) t
            (λ states t u.
              read-Shows rows es e (on_services (read_map "drone:ip_map")) (last ds states) t
                (λ ips t u.
                  read-Shows rows es e (on_services (read_map "drone:sys_map"))
                    (assemble literal ds states ips) t
                    (λ syss t u.
                      assemble-Shows rows ds es e
                        (λ d m.
                          (Elem-of_keep (owned_by none) rows d (
                            subst (Elem d)
                              (v.database.find_newest_first_finds (owned_by none) s.hub.world.db ds
                                q)
                              m)).0)
                        states ips syss t))))
