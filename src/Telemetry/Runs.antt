-- ===== src/Telemetry/Runs.antt =====
-- drone-fleet-manager/src/telemetry/telemetry.service.ts: sequences of messages, rounds of the sweep
-- and starts, each at its own time.
use vdt_provisioning_service.Prelude.{
  ℕ, String, ◌≡◌, inl, inr, true, Option, List, [], ◌∷◌, ◌==◌, ◌&&◌, All, contains, Bool-cases,
  Option-cases,
}
use vdt_provisioning_service.Prelude.Map
use vdt_provisioning_service.Prelude.Map.{Map, IsDistinct, set-IsDistinct, delete-IsDistinct}
use vdt_provisioning_service.Prelude.Entries.{All-set, All-delete}
use vdt_provisioning_service.Prelude.Effect.{Result-cases}
use vdt_provisioning_service.Services.{Services}
use vdt_provisioning_service.RedisService.{get_all_telemetry_states}
use vdt_provisioning_service.TelemetryGateway.Rooms.{Adapter}
use vdt_provisioning_service.Telemetry.{Payload, is_full, normalize_telemetry_payload}
use vdt_provisioning_service.Telemetry.Normalize.{normalize_telemetry_payload-IsFull}
use vdt_provisioning_service.Telemetry.Monitor.{
  Monitor, clock, is_older, is_connected, offline, broadcast, discover, receive, on_message,
  sweep_entry, sweep_entries, sweep, warm, warm_up_cache_from_redis,
}

pub data Event : Type 0 where
  message : String → Event
  tick start : Event

module _ {v : Services} {a : Adapter} {F : Type 0} where
  abbrev pub at_time : ℕ → Monitor v a F → Monitor v a F
  at_time now m = record m { hub = record m.hub { world = record m.hub.world { now = now } } }

  module _ (literal : ℕ → F) (parse : String → Option (Payload F)) where
    unfoldable pub on_event : Event → Monitor v a F → Monitor v a F
    on_event (message text) m = on_message literal parse text m
    on_event tick m = sweep m
    on_event start m = warm_up_cache_from_redis literal parse m

    unfoldable pub run : List (ℕ × Event) → Monitor v a F → Monitor v a F
    run [] m = m
    run ((now, e) ∷ es) m = run es (on_event e (at_time now m))

module _ {F : Type 0} where
  -- No key stands twice, and every payload is full.
  pub record IsSound (cache : Map (Payload F)) : Type 0 where
    pub distinct : IsDistinct cache
    pub full : All (λ e. is_full e.1 ≡ true) cache

  set-IsSound :
      (m : Map (Payload F)) (k : String) (t : Payload F)
      → IsSound m
      → is_full t ≡ true
      → IsSound (Map.set m k t)
  set-IsSound m k t s h = record {
    distinct = set-IsDistinct m k t s.distinct;
    full = All-set _ m k t h s.full;
  }

  delete-IsSound : (m : Map (Payload F)) (k : String) → IsSound m → IsSound (Map.delete m k)
  delete-IsSound m k s = record {
    distinct = delete-IsDistinct m k s.distinct;
    full = All-delete _ m k s.full;
  }

module _ {F : Type 0} (literal : ℕ → F) where
  full :
      (now : ℕ) (cache : Map (Payload F)) (raw : Payload F)
      → is_full (normalize_telemetry_payload literal now cache raw) ≡ true
  full now cache raw = (normalize_telemetry_payload-IsFull literal now 0 cache [] raw).0

  warm-IsSound :
      (now : ℕ) (states cache : Map (Payload F))
      → IsSound cache
      → IsSound (warm literal now states cache)
  unfolding warm
  warm-IsSound now [] cache s = s
  warm-IsSound now ((k, raw) ∷ rest) cache s =
      warm-IsSound now rest _ (set-IsSound cache k _ s (full now cache raw))

module _ {v : Services} {a : Adapter} {F : Type 0} where
  abbrev IsGood : Monitor v a F → Type 0
  IsGood m = IsSound m.in_memory_cache

  sweep_entry-IsSound :
      (now : ℕ) (k : String) (t : Payload F) (m : Monitor v a F)
      → is_full t ≡ true
      → IsGood m
      → IsGood (sweep_entry now k t m)
  unfolding sweep_entry broadcast
  sweep_entry-IsSound now k t m h s = elim (Bool-cases (is_connected t && is_older 10000 now t)) [
    | inl e ↦
        let marked = set-IsSound m.in_memory_cache k (offline t) s h in
        elim (Bool-cases (is_older 300000 now t)) [
          | inl o ↦ rw (e, o) (delete-IsSound _ k marked)
          | inr o ↦ rw (e, o) marked
        ]
    | inr e ↦ elim (Bool-cases (is_older 300000 now t)) [
      | inl o ↦ rw (e, o) (delete-IsSound _ k s)
      | inr o ↦ rw (e, o) s
    ]
  ]

  sweep_entries-IsSound :
      (now : ℕ) (rest : Map (Payload F)) (m : Monitor v a F)
      → All (λ e. is_full e.1 ≡ true) rest
      → IsGood m
      → IsGood (sweep_entries now rest m)
  unfolding sweep_entries
  sweep_entries-IsSound now [] m h s = s
  sweep_entries-IsSound now ((k, t) ∷ rest) m (h, hs) s =
      sweep_entries-IsSound now rest (sweep_entry now k t m) hs (sweep_entry-IsSound now k t m h s)

  discover_cache : (t : Payload F) (m : Monitor v a F) → IsGood m → IsGood (discover t m)
  unfolding discover
  discover_cache t m s = elim (Bool-cases (contains m.auto_discovered_devices t.device_id)) [
    | inl e ↦ rw (e, discover) s
    | inr e ↦ rw (e, discover) s
  ]

  module _ (literal : ℕ → F) where
    receive-IsSound :
        (raw : Payload F) (m : Monitor v a F) → IsGood m → IsGood (receive literal raw m)
    unfolding receive broadcast
    receive-IsSound raw m s =
        discover_cache _ _ (set-IsSound _ _ _ s (full literal (clock m) m.in_memory_cache raw))

    module _ (parse : String → Option (Payload F)) where
      on_event-IsSound :
          (e : Event) (m : Monitor v a F) → IsGood m → IsGood (on_event literal parse e m)
      unfolding on_event on_message sweep warm_up_cache_from_redis
      on_event-IsSound (message text) m s = elim (Option-cases (parse text)) [
        | inl e ↦ rw e s
        | inr (raw, e) ↦ elim (Bool-cases (raw.device_id == "")) [
          | inl b ↦ rw (e, b) s
          | inr b ↦ rw (e, b) (receive-IsSound raw m s)
        ]
      ]
      on_event-IsSound tick m s = sweep_entries-IsSound (clock m) m.in_memory_cache m s.full s
      on_event-IsSound start m s =
          elim (Result-cases (get_all_telemetry_states parse m.hub.world).0) [
            | inl (states, e) ↦ rw e (warm-IsSound literal _ states m.in_memory_cache s)
            | inr (x, e) ↦ rw e s
          ]

      -- After any sequence of messages, rounds of the sweep and starts, no key stands twice in the
      -- cache and every payload in it is full, if that was so before.
      pub run-IsSound :
          (es : List (ℕ × Event)) (m : Monitor v a F)
          → IsSound m.in_memory_cache
          → IsSound (run literal parse es m).in_memory_cache
      unfolding run
      run-IsSound [] m s = s
      run-IsSound ((now, e) ∷ es) m s = run-IsSound es _ (on_event-IsSound e (at_time now m) s)
