-- ===== src/RedisService/Laws.antt =====
-- What the methods of redis.service.ts do to the state.
use vdt_provisioning_service.Prelude.{
  String, ◌≡◌, Bool, true, false, ◌==◌, eq_iff, arith, if◌then◌else◌,
}
use vdt_provisioning_service.Prelude.Effect.{ok}
use vdt_provisioning_service.Services.{Services, World}
use vdt_provisioning_service.RedisService.{map_ip_to_device, add_focus_drone, remove_focus_drone}

module _ {v : Services} (w : World v) where
  -- The tables and the kernel are out of reach.
  pub map_ip_to_device_keeps :
      (ip i : String)
      → ((map_ip_to_device ip i w).0 ≡ ok tt)
        × ((map_ip_to_device ip i w).1.db ≡ w.db)
        × ((map_ip_to_device ip i w).1.host ≡ w.host)
        × ((map_ip_to_device ip i w).1.now ≡ w.now)
        × ((map_ip_to_device ip i w).1.has_client ≡ w.has_client)
  unfolding map_ip_to_device
  map_ip_to_device_keeps ip i = ground arith

-- Redis takes writes to its sets.
pub record TakesFocus (v : Services) : Type 0 where
  pub adds : (j x : String) (s : v.redis.Store) → (v.redis.sadd j x s).0 ≡ ok tt
  pub removes : (j x : String) (s : v.redis.Store) → (v.redis.srem j x s).0 ≡ ok tt

module _ {v : Services} where
  abbrev pub focused : World v → String → Bool
  focused w drone_id = v.redis.member w.store "drone:focus_set" drone_id

  pub add_focus_drone_lem :
      (d e : String) (w : World v)
      → TakesFocus v
      → w.has_client ≡ true
      → (d == "") ≡ false
      → focused (add_focus_drone d w).1 e ≡ (if d == e then true else focused w e)
  unfolding add_focus_drone
  add_focus_drone_lem d e w redis there named =
      let q = redis.adds "drone:focus_set" d w.store in
      ground (
        arith,
        v.redis.sadd_adds "drone:focus_set" d w.store "drone:focus_set" e q,
        eq_iff "drone:focus_set" "drone:focus_set",
      )

  pub remove_focus_drone_lem :
      (d e : String) (w : World v)
      → TakesFocus v
      → w.has_client ≡ true
      → (d == "") ≡ false
      → focused (remove_focus_drone d w).1 e ≡ (if d == e then false else focused w e)
  unfolding remove_focus_drone
  remove_focus_drone_lem d e w redis there named =
      let q = redis.removes "drone:focus_set" d w.store in
      ground (arith, v.redis.srem_removes "drone:focus_set" d w.store "drone:focus_set" e q)

  pub focus_keeps_client :
      (d : String) (w : World v)
      → ((add_focus_drone d w).1.has_client ≡ w.has_client)
        × ((remove_focus_drone d w).1.has_client ≡ w.has_client)
  unfolding add_focus_drone remove_focus_drone
  focus_keeps_client d w = (ground arith, ground arith)
