-- ===== src/Telemetry/Discovery.antt =====
-- drone-fleet-manager/src/telemetry/telemetry.service.ts: what a message of Redis does to the cache
-- and to the table of devices.
use vdt_provisioning_service.Prelude.{
  ℕ, String, ◌≡◌, inl, inr, refl, sym, ap, subst, ◌∙◌, true, false, Option, none, some, [], ◌==◌,
  contains, contains-add, ltb, arith, eq_refl, Bool-cases, if◌then◌else◌, ◌-◌,
}
use vdt_provisioning_service.Prelude.Map
use vdt_provisioning_service.Prelude.Map.{Map, IsDistinct, get-set, set-IsDistinct}
use vdt_provisioning_service.Prelude.Effect.{Result, ok, err}
use vdt_provisioning_service.Services.{Services}
use vdt_provisioning_service.Services.Tables.{Device}
use vdt_provisioning_service.Device.{find_by_device_id}
use vdt_provisioning_service.Device.Laws.{devices}
use vdt_provisioning_service.Device.Identity.Laws.{find_by_device_id_rows}
use vdt_provisioning_service.TelemetryGateway.Rooms.{Adapter}
use vdt_provisioning_service.TelemetryGateway.{
  Hub, or_never, looked_up, look_up, to_owner, broadcast_telemetry,
}
use vdt_provisioning_service.Telemetry.{Payload, normalize_telemetry_payload}
use vdt_provisioning_service.Telemetry.Normalize.{normalize_telemetry_payload-IsFull}
use vdt_provisioning_service.Telemetry.Monitor.{
  Monitor, clock, broadcast, discover, receive, on_message,
}

module _ {v : Services} {a : Adapter} where
  looked_up_rows :
      (i : String) (r : Result (Option Device)) (h : Hub v a)
      → devices (looked_up i r h).1.world ≡ devices h.world
  unfolding looked_up
  looked_up_rows i (ok d) h = refl
  looked_up_rows i (err e) h = refl

  look_up_rows : (i : String) (h : Hub v a) → devices (look_up i h).1.world ≡ devices h.world
  unfolding look_up
  look_up_rows i h =
      looked_up_rows i (find_by_device_id i h.world).0 _ ∙ find_by_device_id_rows h.world i

  to_owner_rows :
      (i : String) (o : Option (Option String)) (h : Hub v a)
      → devices (to_owner i o h).1.world ≡ devices h.world
  unfolding to_owner
  to_owner_rows i none h = look_up_rows i h
  to_owner_rows i (some none) h =
      elim (Bool-cases (ltb 5000 (h.world.now - or_never (Map.get h.last_cache_check i)))) [
        | inl e ↦ rw (e, to_owner) (look_up_rows i h)
        | inr e ↦ rw (e, to_owner) refl
      ]
  to_owner_rows i (some (some u)) h = refl

  broadcast_telemetry_rows :
      (i : String) (h : Hub v a) → devices (broadcast_telemetry i h).1.world ≡ devices h.world
  unfolding broadcast_telemetry
  broadcast_telemetry_rows i h = elim (Bool-cases (i == "")) [
    | inl e ↦ rw e refl
    | inr e ↦ rw e (to_owner_rows i (Map.get h.device_owner_cache i) h)
  ]

module _ {v : Services} {a : Adapter} {F : Type 0} where
  discover_known :
      (t : Payload F) (m : Monitor v a F)
      → (contains m.auto_discovered_devices t.device_id ≡ true → discover t m ≡ m)
        × (contains (discover t m).auto_discovered_devices t.device_id ≡ true)
        × ((discover t m).in_memory_cache ≡ m.in_memory_cache)
  unfolding discover
  discover_known t m = elim (Bool-cases (contains m.auto_discovered_devices t.device_id)) [
    | inl e ↦ rw (e, discover) (λ h. refl, e, refl)
    | inr e ↦
        rw (e, discover)
          (
            λ h. absurd (ground arith),
            ground (
              arith,
              contains-add m.auto_discovered_devices t.device_id t.device_id,
              eq_refl t.device_id,
            ),
            refl,
          )
  ]

  -- What a message does, but for the normalisation.
  settled :
      (t : Payload F) (m : Monitor v a F)
      → let after : Monitor v a F =
          discover t (
            broadcast t (record m { in_memory_cache = Map.set m.in_memory_cache t.device_id t })) in
        ((k : String)
          → Map.get after.in_memory_cache k
            ≡ (if t.device_id == k then some t else Map.get m.in_memory_cache k))
        × (contains after.auto_discovered_devices t.device_id ≡ true)
        × (contains m.auto_discovered_devices t.device_id ≡ true
            → devices after.hub.world ≡ devices m.hub.world)
  unfolding broadcast
  settled t m =
      let held : Monitor v a F =
        broadcast t (record m { in_memory_cache = Map.set m.in_memory_cache t.device_id t }) in
      let (known, added, cache) = discover_known t held in
      (
        λ k. ap (λ c. Map.get c k) cache ∙ get-set m.in_memory_cache t.device_id k t,
        added,
        λ h.
            ap (λ (n : Monitor v a F). devices n.hub.world) (known h)
            ∙ broadcast_telemetry_rows t.device_id m.hub,
      )

  module _ (literal : ℕ → F) (raw : Payload F) where
    received :
        (m : Monitor v a F)
        → let after : Monitor v a F = receive literal raw m in
          ((k : String)
            → Map.get after.in_memory_cache k ≡ (
                if raw.device_id == k
                then some (normalize_telemetry_payload literal (clock m) m.in_memory_cache raw)
                else Map.get m.in_memory_cache k))
          × (contains after.auto_discovered_devices raw.device_id ≡ true)
          × (contains m.auto_discovered_devices raw.device_id ≡ true
              → devices after.hub.world ≡ devices m.hub.world)
    unfolding receive
    received m =
        let t : Payload F = normalize_telemetry_payload literal (clock m) m.in_memory_cache raw in
        let (full, same, back, again) =
          normalize_telemetry_payload-IsFull literal (clock m) 0 m.in_memory_cache [] raw in
        subst
          (λ i.
            ((k : String)
              → Map.get (receive literal raw m).in_memory_cache k
                ≡ (if i == k then some t else Map.get m.in_memory_cache k))
            × (contains (receive literal raw m).auto_discovered_devices i ≡ true)
            × (contains m.auto_discovered_devices i ≡ true
                → devices (receive literal raw m).hub.world ≡ devices m.hub.world))
          same (settled t m)

  module _ (literal : ℕ → F) (parse : String → Option (Payload F)) where
    accepted :
        (text : String) (raw : Payload F) (m : Monitor v a F)
        → parse text ≡ some raw
        → (raw.device_id == "") ≡ false
        → on_message literal parse text m ≡ receive literal raw m
    unfolding on_message
    accepted text raw m p named = rw (p, named) refl

    -- A message that is a payload of a named device puts the normalised payload in the cache under
    -- that name, and touches no other entry.
    pub on_message-IsReceived :
        (text : String) (raw : Payload F) (m : Monitor v a F) (k : String)
        → parse text ≡ some raw
        → (raw.device_id == "") ≡ false
        → Map.get (on_message literal parse text m).in_memory_cache k ≡ (
            if raw.device_id == k
            then some (normalize_telemetry_payload literal (clock m) m.in_memory_cache raw)
            else Map.get m.in_memory_cache k)
    on_message-IsReceived text raw m k p named =
        ap (λ (n : Monitor v a F). Map.get n.in_memory_cache k) (accepted text raw m p named)
        ∙ (received literal raw m).0 k

    -- Of two messages of the same named device in a row, the second leaves the table of devices as
    -- the first has left it: two in a row register a device at most once.
    pub on_message_registers_once :
        (text later : String) (raw next : Payload F) (m : Monitor v a F)
        → parse text ≡ some raw
        → parse later ≡ some next
        → next.device_id ≡ raw.device_id
        → (raw.device_id == "") ≡ false
        → devices (on_message literal parse later (on_message literal parse text m)).hub.world
          ≡ devices (on_message literal parse text m).hub.world
    on_message_registers_once text later raw next m p q same named =
        let once = on_message literal parse text m in
        let known : contains once.auto_discovered_devices raw.device_id ≡ true =
          subst (λ (n : Monitor v a F). contains n.auto_discovered_devices raw.device_id ≡ true)
            (sym (accepted text raw m p named)) (received literal raw m).1 in
        ap (λ (n : Monitor v a F). devices n.hub.world)
          (accepted later next once q (ap (λ i. i == "") same ∙ named))
        ∙ (received literal next once).2 (ap (contains once.auto_discovered_devices) same ∙ known)
