-- ===== src/Telemetry/Sweeper.antt =====
-- drone-fleet-manager/src/telemetry/telemetry.service.ts: what a round of the sweep leaves in the
-- cache.
use vdt_provisioning_service.Prelude.{
  ℕ, ◌-◌, ◌≤◌, String, ◌≡◌, ◌≢◌, ◌⊎◌, inl, inr, refl, sym, ap, ◌∙◌, true, false, Option, none, some,
  [], ◌∷◌, ◌==◌, ◌&&◌, ◌||◌, eqb, ltb, chain, arith, eq_iff, eq_refl, Bool-cases, Option-cases,
  if◌then◌else◌,
}
use vdt_provisioning_service.Prelude.Map
use vdt_provisioning_service.Prelude.Map.{Map, IsDistinct, get-set, get-delete}
use vdt_provisioning_service.Services.{Services}
use vdt_provisioning_service.TelemetryGateway.Rooms.{Adapter}
use vdt_provisioning_service.Telemetry.{Payload}
use vdt_provisioning_service.Telemetry.Monitor.{
  Monitor, clock, is_older, is_connected, offline, broadcast, sweep_entry, sweep_entries, sweep,
}

module _ {F : Type 0} where
  -- What becomes of an entry: without a time, or after five minutes, it goes; and one that is connected
  -- is offline after ten seconds.
  abbrev pub swept : ℕ → Payload F → Option (Payload F)
  swept now t =
      if eqb t.timestamp 0 || ltb 300000 (now - t.timestamp)
      then none
      else some (
          if elim t.connected [ none ↦ false | some c ↦ c ]
            && (eqb t.timestamp 0 || ltb 10000 (now - t.timestamp))
          then record t { connected = some false }
          else t)

  set_deleted :
      (m : Map (Payload F)) (k j : String) (t : Payload F)
      → Map.get (Map.delete (Map.set m k t) k) j ≡ (if k == j then none else Map.get m j)
  set_deleted m k j t = ground (arith, get-delete (Map.set m k t) k j, get-set m k j t)

  apart :
      (m : Map (Payload F)) (k j : String) (t : Payload F)
      → Map.get m k ≡ none
      → Map.get m j ≡ some t
      → (k == j) ≡ false
  apart m k j t h q = ground (arith, eq_iff k j)

  gone :
      (m : Map (Payload F)) (k j : String)
      → Map.get m k ≡ none
      → (k == j) ≡ true
      → Map.get m j ≡ none
  gone m k j h q = ground (arith, eq_iff k j)

  swept-IsRecent :
      (now : ℕ) (u t : Payload F)
      → swept now u ≡ some t
      → (t.timestamp ≢ 0)
        × (now - t.timestamp ≤ 300000)
        × ((is_connected t ≡ false) ⊎ (now - t.timestamp ≤ 10000))
  swept-IsRecent now u t h = elim (Bool-cases (is_older 300000 now u)) [
    | inl o ↦ absurd (ground arith)
    | inr o ↦ elim (Bool-cases (is_connected u && is_older 10000 now u)) [
      | inl e ↦
          let same : offline u ≡ t = ground arith in
          rw (← same) (λ z. ground arith, ground arith, inl refl)
      | inr e ↦
          let same : u ≡ t = ground arith in
          rw (← same) (
            λ z. ground arith,
            ground arith,
            elim (Bool-cases (is_connected u)) [ inl c ↦ inr (ground arith) | inr c ↦ inl c ],
          )
    ]
  ]

  unchanged :
      (m : Map (Payload F)) (k j : String) (t : Payload F)
      → Map.get m k ≡ some t
      → Map.get m j ≡ (if k == j then some t else Map.get m j)
  unchanged m k j t h = ground (arith, eq_iff k j)

  -- What a key holds after the loop over `rest`.
  abbrev outcome : ℕ → Option (Payload F) → Option (Payload F) → Option (Payload F)
  outcome now none old = old
  outcome now (some t) old = swept now t

module _ {v : Services} {a : Adapter} {F : Type 0} where
  sweep_entry_lem :
      (now : ℕ) (k : String) (t : Payload F) (m : Monitor v a F) (j : String)
      → Map.get m.in_memory_cache k ≡ some t
      → Map.get (sweep_entry now k t m).in_memory_cache j
        ≡ (if k == j then swept now t else Map.get m.in_memory_cache j)
  unfolding sweep_entry broadcast
  sweep_entry_lem now k t m j h = elim (Bool-cases (is_connected t && is_older 10000 now t)) [
    | inl e ↦ elim (Bool-cases (is_older 300000 now t)) [
      | inl o ↦ rw (e, o) (set_deleted m.in_memory_cache k j (offline t))
      | inr o ↦ rw (e, o) (get-set m.in_memory_cache k j (offline t))
    ]
    | inr e ↦ elim (Bool-cases (is_older 300000 now t)) [
      | inl o ↦ rw (e, o) (get-delete m.in_memory_cache k j)
      | inr o ↦ rw (e, o) (unchanged m.in_memory_cache k j t h)
    ]
  ]

  sweep_entries_lem :
      (now : ℕ) (rest : Map (Payload F)) (m : Monitor v a F) (j : String)
      → IsDistinct rest
      → ((k : String) (t : Payload F)
          → Map.get rest k ≡ some t
          → Map.get m.in_memory_cache k ≡ some t)
      → Map.get (sweep_entries now rest m).in_memory_cache j
        ≡ outcome now (Map.get rest j) (Map.get m.in_memory_cache j)
  unfolding sweep_entries Map.get
  sweep_entries_lem now [] m j d h = refl
  sweep_entries_lem now ((k, t) ∷ rest) m j d h =
      let held : Map.get m.in_memory_cache k ≡ some t = h k t (rw (eq_refl k) refl) in
      sweep_entries_lem now rest (sweep_entry now k t m) j d.1 (λ i u q.
        let e = apart rest k i u d.0 q in sweep_entry_lem now k t m i held ∙ rw e (h i u (rw e q)))
      ∙ elim (Bool-cases (k == j)) [
        | inl e ↦ rw (e, gone rest k j d.0 e) (sweep_entry_lem now k t m j held ∙ rw e refl)
        | inr e ↦
            rw e (ap (outcome now (Map.get rest j)) (sweep_entry_lem now k t m j held ∙ rw e refl))
      ]

  -- A round of the sweep takes a drone out of the cache that was not heard of for more than five
  -- minutes, or never, marks one that is connected as offline after more than ten seconds, and leaves
  -- the others as they were, each by its own entry, whatever the order; no key stands twice in the
  -- cache of a JavaScript map.
  pub sweep-swept :
      (m : Monitor v a F) (k : String)
      → IsDistinct m.in_memory_cache
      → Map.get (sweep m).in_memory_cache k ≡ chain (Map.get m.in_memory_cache k) (swept (clock m))
  unfolding sweep
  sweep-swept m k d =
      sweep_entries_lem (clock m) m.in_memory_cache m k d (λ i t q. q)
      ∙ elim (Option-cases (Map.get m.in_memory_cache k)) [
        | inl e ↦ rw e refl
        | inr (t, e) ↦ rw e refl
      ]

  -- After a round every payload in the cache has a time at most five minutes ago, and at most ten
  -- seconds ago if it is marked as connected; no key stands twice in the cache of a JavaScript map.
  pub sweep-IsRecent :
      (m : Monitor v a F) (k : String) (t : Payload F)
      → IsDistinct m.in_memory_cache
      → Map.get (sweep m).in_memory_cache k ≡ some t
      → (t.timestamp ≢ 0)
        × (clock m - t.timestamp ≤ 300000)
        × (t.connected ≡ some true → clock m - t.timestamp ≤ 10000)
  sweep-IsRecent m k t d q = elim (Option-cases (Map.get m.in_memory_cache k)) [
    | inl e ↦ absurd (ground (arith, sweep-swept m k d))
    | inr (u, e) ↦
        let (timed, kept, recent) =
          swept-IsRecent (clock m) u t
            (ap (λ o. chain o (swept (clock m))) (sym e) ∙ sym (sweep-swept m k d) ∙ q) in
        (timed, kept, λ c. elim recent [ inl lost ↦ cc (rw c at lost) | inr soon ↦ soon ])
  ]
