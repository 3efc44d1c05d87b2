-- ===== src/Services/Store.antt =====
-- The Redis commands that the program sends, and what they do to hashes and sets.
use vdt_provisioning_service.Prelude.{
  ℕ, String, ◌≡◌, Bool, true, false, Option, none, some, List, ◌==◌, ◌&&◌, if◌then◌else◌,
}
use vdt_provisioning_service.Prelude.Map.{Map}
use vdt_provisioning_service.Prelude.Effect.{Act, ok, err, Failure}

-- `hash s k f` is the field `f` of the hash `k`, `member s k m` whether `m` is in the set `k`.
pub record Redis : Type 1 where
  pub Store : Type 0
  pub hash : Store → String → String → Option String
  pub member : Store → String → String → Bool
  pub hset : String → String → String → Act Store Unit
  pub hdel : String → String → Act Store Unit
  pub hget : String → String → Act Store (Option String)
  pub hgetall : String → Act Store (Map String)
  pub sadd : String → String → Act Store Unit
  pub srem : String → String → Act Store Unit
  pub smembers : String → Act Store (List String)
  -- `zrangebyscore(k, min, '+inf')`
  pub zrangebyscore : String → ℕ → Act Store (List String)
  -- `zcount(k, min, '+inf')`
  pub zcount : String → ℕ → Act Store ℕ
  pub hset_fails :
      (k f x : String) (s : Store) (e : Failure) (j g : String)
      → (hset k f x s).0 ≡ err e
      → hash (hset k f x s).1 j g ≡ hash s j g
  pub hset_sets :
      (k f x : String) (s : Store) (j g : String)
      → (hset k f x s).0 ≡ ok tt
      → hash (hset k f x s).1 j g ≡ (if (k == j) && (f == g) then some x else hash s j g)
  pub hdel_fails :
      (k f : String) (s : Store) (e : Failure) (j g : String)
      → (hdel k f s).0 ≡ err e
      → hash (hdel k f s).1 j g ≡ hash s j g
  pub hdel_deletes :
      (k f : String) (s : Store) (j g : String)
      → (hdel k f s).0 ≡ ok tt
      → hash (hdel k f s).1 j g ≡ (if (k == j) && (f == g) then none else hash s j g)
  pub sadd_fails :
      (k x : String) (s : Store) (e : Failure) (j y : String)
      → (sadd k x s).0 ≡ err e
      → member (sadd k x s).1 j y ≡ member s j y
  pub sadd_adds :
      (k x : String) (s : Store) (j y : String)
      → (sadd k x s).0 ≡ ok tt
      → member (sadd k x s).1 j y ≡ (if (k == j) && (x == y) then true else member s j y)
  pub srem_fails :
      (k x : String) (s : Store) (e : Failure) (j y : String)
      → (srem k x s).0 ≡ err e
      → member (srem k x s).1 j y ≡ member s j y
  pub srem_removes :
      (k x : String) (s : Store) (j y : String)
      → (srem k x s).0 ≡ ok tt
      → member (srem k x s).1 j y ≡ (if (k == j) && (x == y) then false else member s j y)
