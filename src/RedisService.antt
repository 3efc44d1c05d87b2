-- ===== src/RedisService.antt =====
-- drone-fleet-manager/src/redis/redis.service.ts: every method returns at once without a client,
-- and swallows the errors of Redis.
pub mod Laws
pub mod Connection
use vdt_provisioning_service.Prelude.{
  ℕ, ◌-◌, ◌/◌, String, Option, none, some, List, [], ◌∷◌, ◌==◌, if◌then◌else◌,
}
use vdt_provisioning_service.Prelude.Map
use vdt_provisioning_service.Prelude.Map.{Map}
use vdt_provisioning_service.Prelude.Effect.{Act, pure, catch, ◌>>=◌}
use vdt_provisioning_service.Services.{Services, World, in_store}

module _ {v : Services} where
  -- `try { … } catch { return d }`
  abbrev or_default : {A : Type 0} → Act (World v) A → A → Act (World v) A
  or_default m d = catch m (λ _. pure d)

  unfoldable pub map_ip_to_device : String → String → Act (World v) Unit
  map_ip_to_device ip device_id w =
      if w.has_client
      then if ip == ""
        then (pure tt) w
        else if device_id == ""
        then (pure tt) w
        else or_default (in_store (v.redis.hset "drone:ip_map" ip device_id)) tt w
      else (pure tt) w

  unfoldable pub unmap_ip : String → Act (World v) Unit
  unmap_ip ip w =
      if w.has_client
      then if ip == ""
        then (pure tt) w
        else or_default (in_store (v.redis.hdel "drone:ip_map" ip)) tt w
      else (pure tt) w

  unfoldable pub add_focus_drone : String → Act (World v) Unit
  add_focus_drone device_id w =
      if w.has_client
      then if device_id == ""
        then (pure tt) w
        else or_default (in_store (v.redis.sadd "drone:focus_set" device_id)) tt w
      else (pure tt) w

  unfoldable pub remove_focus_drone : String → Act (World v) Unit
  remove_focus_drone device_id w =
      if w.has_client
      then if device_id == ""
        then (pure tt) w
        else or_default (in_store (v.redis.srem "drone:focus_set" device_id)) tt w
      else (pure tt) w

  unfoldable pub get_focus_drones : Act (World v) (List String)
  get_focus_drones w =
      if w.has_client
      then or_default (in_store (v.redis.smembers "drone:focus_set")) [] w
      else (pure []) w

  unfoldable pub get_online_device_ids : ℕ → Act (World v) (List String)
  get_online_device_ids within w =
      if w.has_client
      then or_default (in_store (v.redis.zrangebyscore "drone:heartbeats" (w.now / 1000 - within)))
          [] w
      else (pure []) w

  unfoldable pub get_heartbeat_online_count : ℕ → Act (World v) ℕ
  get_heartbeat_online_count within w =
      if w.has_client
      then or_default (in_store (v.redis.zcount "drone:heartbeats" (w.now / 1000 - within))) 0 w
      else (pure 0) w

-- `JSON.parse` is the parameter `parse`: `none` where the text is no object of the kind `A`.
module _ {A : Type 0} (parse : String → Option A) where
  abbrev put_parsed : String → Option A → Map A → Map A
  put_parsed device_id none m = m
  put_parsed device_id (some state) m = Map.set m device_id state

  unfoldable pub parsed : Map String → Map A → Map A
  parsed [] m = m
  parsed ((device_id, text) ∷ rest) m = parsed rest (put_parsed device_id (parse text) m)

  -- `!jsonStr` is the test for a missing or an empty text.
  abbrev parsed_text : Option String → Option A
  parsed_text none = none
  parsed_text (some text) = if text == "" then none else parse text

  module _ {v : Services} where
    unfoldable pub get_all_telemetry_states : Act (World v) (Map A)
    get_all_telemetry_states w =
        if w.has_client
        then or_default (in_store (v.redis.hgetall "drone:states") >>= λ raw. pure (parsed raw []))
            [] w
        else (pure []) w

    unfoldable pub get_device_telemetry_state : String → Act (World v) (Option A)
    get_device_telemetry_state device_id w =
        if w.has_client
        then if device_id == ""
          then (pure none) w
          else or_default
              (in_store (v.redis.hget "drone:states" device_id) >>= λ text. pure (parsed_text text))
              none w
        else (pure none) w
