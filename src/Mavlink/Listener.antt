-- ===== src/Mavlink/Listener.antt =====
-- drone-fleet-manager/src/telemetry/mavlink-relay.gateway.ts: initRedisMessageListener, which onModuleInit
-- and afterInit call, and its timers; and the socket for datagrams, which afterInit makes and
-- onModuleDestroy closes.
use vdt_provisioning_service.Prelude.{
  ℕ, zero, suc, ◌+◌, ◌≤◌, ◌≡◌, ◌∙◌, ◌⊎◌, inl, inr, refl, Bool, true, false, List, [], ◌∷◌, arith,
  Bool-cases, if◌then◌else◌,
}

pub record Listener : Type 0 where
  pub is_subscriber_ready : Bool
  -- how often the handler of `messageBuffer` is attached, and the timers that run
  pub handlers : ℕ
  pub timers : ℕ
  -- whether the socket for datagrams is open
  pub is_udp_open : Bool

-- `has_subscriber`: `getSubscriber()` returns one.
unfoldable pub init_redis_message_listener : Bool → Listener → Listener
init_redis_message_listener has_subscriber l =
    if l.is_subscriber_ready
    then l
    else if has_subscriber
    then record l { is_subscriber_ready = true; handlers = l.handlers + 1 }
    else record l { timers = l.timers + 1 }

pub data Event : Type 0 where
  on_module_init after_init retry : Bool → Event
  on_module_destroy : Event

-- A timer that fires is one less; no timer, no event.
abbrev fired : ℕ → Bool → Listener → Listener
fired zero has_subscriber l = l
fired (suc n) has_subscriber l =
    init_redis_message_listener has_subscriber (record l { timers = n })

unfoldable pub on_event : Event → Listener → Listener
on_event (on_module_init s) l = init_redis_message_listener s l
on_event (after_init s) l = init_redis_message_listener s (record l { is_udp_open = true })
on_event (retry s) l = fired l.timers s l
on_event on_module_destroy l = record l { is_udp_open = false }

unfoldable pub run : List Event → Listener → Listener
run [] l = l
run (e ∷ es) l = run es (on_event e l)

-- One handler, and the flag says that it is there; or none, and a timer runs.
pub record IsWaiting (l : Listener) : Type 0 where
  pub once : l.handlers ≡ (if l.is_subscriber_ready then 1 else 0)
  pub hopeful : (l.is_subscriber_ready ≡ true) ⊎ (1 ≤ l.timers)

init-IsWaiting :
    (s : Bool) (l : Listener)
    → l.handlers ≡ (if l.is_subscriber_ready then 1 else 0)
    → IsWaiting (init_redis_message_listener s l)
unfolding init_redis_message_listener
init-IsWaiting s l once = elim (Bool-cases l.is_subscriber_ready) [
  | inl e ↦ rw e (record { once = once ∙ rw e refl; hopeful = inl refl })
  | inr e ↦
      let none_yet : l.handlers ≡ 0 = once ∙ rw e refl in
      elim (Bool-cases s) [
        | inl f ↦ rw (e, f) (record { once = omega (arith, none_yet); hopeful = inl refl })
        | inr f ↦ rw (e, f) (record { once = none_yet; hopeful = inr (omega arith) })
      ]
]

fired-IsWaiting :
    (n : ℕ) (s : Bool) (l : Listener) → l.timers ≡ n → IsWaiting l → IsWaiting (fired n s l)
fired-IsWaiting zero s l q h = h
fired-IsWaiting (suc n) s l q h = init-IsWaiting s (record l { timers = n }) h.once

on_event-IsWaiting : (e : Event) (l : Listener) → IsWaiting l → IsWaiting (on_event e l)
unfolding on_event
on_event-IsWaiting (on_module_init s) l h = init-IsWaiting s l h.once
on_event-IsWaiting (after_init s) l h = init-IsWaiting s (record l { is_udp_open = true }) h.once
on_event-IsWaiting (retry s) l h = fired-IsWaiting l.timers s l refl h
on_event-IsWaiting on_module_destroy l h = record { once = h.once; hopeful = h.hopeful }

run-IsWaiting_from : (es : List Event) (l : Listener) → IsWaiting l → IsWaiting (run es l)
unfolding run
run-IsWaiting_from [] l h = h
run-IsWaiting_from (e ∷ es) l h = run-IsWaiting_from es (on_event e l) (on_event-IsWaiting e l h)

-- The gateway before Nest has called it.
abbrev pub fresh : Listener
fresh = record { is_subscriber_ready = false; handlers = 0; timers = 0; is_udp_open = false }

-- From the first hook on, however often the hooks and the timers try, the handler of the raw bytes
-- is attached once, or it is not yet and a timer runs that will try again.
pub run-IsListening : (s : Bool) (es : List Event) → IsWaiting (run (on_module_init s ∷ es) fresh)
unfolding run on_event
run-IsListening s es = run-IsWaiting_from es _ (init-IsWaiting s fresh refl)
