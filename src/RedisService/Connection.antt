-- ===== src/RedisService/Connection.antt =====
-- drone-fleet-manager/src/redis/redis.service.ts: the two clients, and the flag that follows the
-- events of the first. The clients are parameters of the event sequences; a client that cannot be
-- made throws.
use vdt_provisioning_service.Prelude.{
  ℕ, ◌*◌, ◌≤◌, ◌≡◌, refl, ◌∙◌, Bool, true, false, List, [], ◌∷◌, ◌++◌, leb, arith, if◌then◌else◌,
}

pub record Connection : Type 0 where
  pub has_client : Bool
  pub has_subscriber : Bool
  pub is_connected : Bool

-- The events of the command client, and what `connect` and `quit` do.
pub data Event : Type 0 where
  connect ready close reconnecting end error connect_failed destroyed : Event

abbrev pub retry_delay : ℕ → ℕ
retry_delay times = if leb (times * 500) 3000 then times * 500 else 3000

-- `onModuleInit` up to the connection: a constructor that throws leaves what was made before it.
abbrev pub on_module_init : Bool → Bool → Connection → Connection
on_module_init makes_client makes_subscriber c =
    if makes_client
    then if makes_subscriber
      then record c { has_client = true; has_subscriber = true }
      else record c { has_client = true; is_connected = false }
    else record c { is_connected = false }

unfoldable pub on_event : Event → Connection → Connection
on_event connect c = record c { is_connected = true }
on_event ready c = record c { is_connected = true }
on_event close c = record c { is_connected = false }
on_event reconnecting c = record c { is_connected = false }
on_event end c = record c { is_connected = false }
on_event error c = record c { is_connected = false }
on_event connect_failed c = record c { is_connected = false }
on_event destroyed c = record c { is_connected = false }

unfoldable pub after : List Event → Connection → Connection
after [] c = c
after (e ∷ es) c = after es (on_event e c)

-- `isReady` and `getIsConnected`
abbrev pub is_ready : Connection → Bool
is_ready c = c.is_connected

abbrev pub opens : Event → Bool
opens connect = true
opens ready = true
opens _ = false

-- The pause before a new attempt to connect grows by half a second with each attempt, up to three
-- seconds, and is never longer.
pub retry_delay-bounds :
    (times : ℕ)
    → (retry_delay times ≤ 3000)
      × (times ≤ 6 → retry_delay times ≡ times * 500)
      × (6 ≤ times → retry_delay times ≡ 3000)
retry_delay-bounds times = (ground arith, λ h. ground arith, λ h. ground arith)

on_event_clients :
    (e : Event) (c : Connection)
    → ((on_event e c).has_client ≡ c.has_client)
      × ((on_event e c).has_subscriber ≡ c.has_subscriber)
unfolding on_event
on_event_clients connect c = (refl, refl)
on_event_clients ready c = (refl, refl)
on_event_clients close c = (refl, refl)
on_event_clients reconnecting c = (refl, refl)
on_event_clients end c = (refl, refl)
on_event_clients error c = (refl, refl)
on_event_clients connect_failed c = (refl, refl)
on_event_clients destroyed c = (refl, refl)

-- Whatever came before, the service is ready after an event exactly if that event is `connect` or
-- `ready`; events neither make nor drop a client.
pub is_ready-after :
    (es : List Event) (e : Event) (c : Connection)
    → (is_ready (after (es ++ e ∷ []) c) ≡ opens e)
      × ((after (es ++ e ∷ []) c).has_client ≡ c.has_client)
      × ((after (es ++ e ∷ []) c).has_subscriber ≡ c.has_subscriber)
unfolding after on_event
is_ready-after [] connect c = (refl, refl, refl)
is_ready-after [] ready c = (refl, refl, refl)
is_ready-after [] close c = (refl, refl, refl)
is_ready-after [] reconnecting c = (refl, refl, refl)
is_ready-after [] end c = (refl, refl, refl)
is_ready-after [] error c = (refl, refl, refl)
is_ready-after [] connect_failed c = (refl, refl, refl)
is_ready-after [] destroyed c = (refl, refl, refl)
is_ready-after (d ∷ es) e c =
    let (r, p, q) = is_ready-after es e (on_event d c) in
    (r, p ∙ (on_event_clients d c).0, q ∙ (on_event_clients d c).1)
