-- ===== src/Telemetry/Losses.antt =====
-- drone-fleet-manager/src/telemetry/telemetry.service.ts: what a round of the sweep sends.
use vdt_provisioning_service.Prelude.{
  ℕ, String, ◌≡◌, ◌⊎◌, inl, inr, refl, ap, true, [], ◌∷◌, ◌&&◌, Elem, arith, Elem-append, Elem-map,
  Bool-cases,
}
use vdt_provisioning_service.Prelude.Map
use vdt_provisioning_service.Prelude.Map.{Map, IsDistinct, get-set, get-delete}
use vdt_provisioning_service.Services.{Services}
use vdt_provisioning_service.TelemetryGateway.Rooms.{Adapter}
use vdt_provisioning_service.Telemetry.{Payload}
use vdt_provisioning_service.Telemetry.Monitor.{
  Monitor, clock, is_older, is_connected, offline, broadcast, sweep_entry, sweep_entries, sweep,
}

module _ {F : Type 0} where
  -- The entry of a message that a round sends: marked as connected, and silent for ten seconds.
  abbrev pub IsLost : ℕ → Map (Payload F) → String × Payload F → Type 0
  IsLost now entries message =
      (k : String) × (t : Payload F) × Elem (k, t) entries
      × (is_connected t ≡ true)
      × (is_older 10000 now t ≡ true)
      × (message.1 ≡ offline t)

module _ {v : Services} {a : Adapter} {F : Type 0} where
  broadcast_sent :
      (t : Payload F) (m : Monitor v a F) (x : String × Payload F)
      → Elem x (broadcast t m).sent
      → Elem x m.sent ⊎ (x.1 ≡ t)
  unfolding broadcast
  broadcast_sent t m x h = elim (Elem-append m.sent _ x h) [
    | inl old ↦ inl old
    | inr new ↦
        let (room, there, e) = Elem-map (λ (room : String). (room, t)) _ x new in
        inr (ap (λ p. p.1) e)
  ]

  sweep_entry_sent :
      (now : ℕ) (k : String) (t : Payload F) (m : Monitor v a F) (x : String × Payload F)
      → Elem x (sweep_entry now k t m).sent
      → Elem x m.sent
        ⊎ ((is_connected t ≡ true) × (is_older 10000 now t ≡ true) × (x.1 ≡ offline t))
  unfolding sweep_entry
  sweep_entry_sent now k t m x h = elim (Bool-cases (is_connected t && is_older 10000 now t)) [
    | inl e ↦ elim (Bool-cases (is_older 300000 now t)) [
      | inl o ↦ lost e (rw (e, o) at h)
      | inr o ↦ lost e (rw (e, o) at h)
    ]
    | inr e ↦ elim (Bool-cases (is_older 300000 now t)) [
      | inl o ↦ inl (rw (e, o) at h)
      | inr o ↦ inl (rw (e, o) at h)
    ]
  ]
    where
      lost :
          (is_connected t && is_older 10000 now t) ≡ true
          → Elem x
              (broadcast
                (offline t)
                (record m { in_memory_cache = Map.set m.in_memory_cache k (offline t) })).sent
          → Elem x m.sent
            ⊎ ((is_connected t ≡ true) × (is_older 10000 now t ≡ true) × (x.1 ≡ offline t))
      lost e q =
          elim (broadcast_sent (offline t)
            (record m { in_memory_cache = Map.set m.in_memory_cache k (offline t) }) x q) [
              | inl old ↦ inl old
              | inr same ↦ inr (ground arith, ground arith, same)
            ]

  sweep_entries_sent :
      (now : ℕ) (rest : Map (Payload F)) (m : Monitor v a F) (x : String × Payload F)
      → Elem x (sweep_entries now rest m).sent
      → Elem x m.sent ⊎ IsLost now rest x
  unfolding sweep_entries
  sweep_entries_sent now [] m x h = inl h
  sweep_entries_sent now ((k, t) ∷ rest) m x h =
      elim (sweep_entries_sent now rest (sweep_entry now k t m) x h) [
        | inl here ↦ elim (sweep_entry_sent now k t m x here) [
          | inl old ↦ inl old
          | inr (c, o, e) ↦ inr (k, t, inl refl, c, o, e)
        ]
        | inr (j, u, there, c, o, e) ↦ inr (j, u, inr there, c, o, e)
      ]

  -- A message that a round of the sweep sends says of a drone of the cache that it is offline; the
  -- drone was marked as connected, and has not been heard of for more than ten seconds.
  pub sweep-IsLost :
      (m : Monitor v a F) (x : String × Payload F)
      → Elem x (sweep m).sent
      → Elem x m.sent ⊎ IsLost (clock m) m.in_memory_cache x
  unfolding sweep
  sweep-IsLost m x h = sweep_entries_sent (clock m) m.in_memory_cache m x h
