-- ===== src/Services/Memory.antt =====
-- Services held in memory, as concrete instances of the interfaces: each law of an interface can
-- be met. `writable` says whether the database takes writes, `fails` which commands fail.
pub mod Rows
use vdt_provisioning_service.Prelude.{
  ℕ, zero, suc, ◌+◌, String, ◌≡◌, ◌↔◌, refl, Bool, true, false, not, ◌&&◌, ◌||◌, Option, none, some,
  List, [], ◌∷◌, map, ◌==◌, is_text, first, keep, length, Elem, contains, add, discard,
  contains-add, contains-discard, arith, if◌then◌else◌,
}
use vdt_provisioning_service.Prelude.Map
use vdt_provisioning_service.Prelude.Map.{Map, map_laws}
use vdt_provisioning_service.Prelude.Text.{append, show}
use vdt_provisioning_service.Prelude.Effect.{Act, Result, ok, err, Failure, fault}
use vdt_provisioning_service.Services.{Services, World}
use vdt_provisioning_service.Services.Tables.{
  Device, Devices, User, NewDevice, Patch, given, patched, put_row, Unused, IsCreated, IsUpdated,
  Database,
}
use vdt_provisioning_service.Services.Commands.{
  Command, show_public_key, show_dump, genkey, pubkey, set_peer, remove_peer, routed, unrouted,
  Shell,
}
use vdt_provisioning_service.Services.Commands
use vdt_provisioning_service.Services.Store.{Redis}
use Rows.{Db, rows_database}

pub record Host : Type 0 where
  pub route : String → Option String
  pub peer : String → Bool

abbrev run : Command → Host → Host
run (set_peer i k c) h = record h {
  route = routed k c h.route;
  peer = λ j. if k == j then true else h.peer j;
}
run (remove_peer i k) h = record h {
  route = unrouted k h.route;
  peer = λ j. if k == j then false else h.peer j;
}
run _ h = h

-- Every command prints this, a text in the form of a key.
abbrev pub sample_key : String
sample_key = "KEYKEYKEYKEYKEYKEYKEYKEYKEYKEYKEYKEYKEYKEYK="

abbrev exec : (Command → Bool) → Command → Act Host String
exec fails c h = if fails c then (err fault, h) else (ok sample_key, run c h)

-- A shell on which the commands of a kind fail.
abbrev pub shell : (Command → Bool) → Shell
shell fails = record {
  Host = Host;
  exec = exec fails;
  route = λ h. h.route;
  peer = λ h. h.peer;
  exec_fails_route = λ c h e ip p. ground arith;
  exec_fails_peer = λ c h e k p. ground arith;
  set_peer_route = λ i k c h out ip p. ground arith;
  set_peer_peer = λ i k c h out j p. ground arith;
  remove_peer_route = λ i k h out ip p. ground arith;
  remove_peer_peer = λ i k h out j p. ground arith;
  genkey_keeps = λ h ip k. ground arith;
  pubkey_keeps = λ s h ip k. ground arith;
  show_keeps = λ i h ip k. ground arith;
}

pub record Store : Type 0 where
  pub hash : String → String → Option String
  pub member : String → String → Bool

abbrev write : (Store → Store) → Act Store Unit
write f s = (ok tt, f s)

abbrev pub redis : Redis
redis = record {
  Store = Store;
  hash = λ s. s.hash;
  member = λ s. s.member;
  hset = λ k f x.
      write λ s. record s { hash = λ j g. if (k == j) && (f == g) then some x else s.hash j g };
  hdel = λ k f.
      write λ s. record s { hash = λ j g. if (k == j) && (f == g) then none else s.hash j g };
  hget = λ k f s. (ok (s.hash k f), s);
  hgetall = λ k s. (ok [], s);
  sadd = λ k x.
      write λ s. record s { member = λ j y. if (k == j) && (x == y) then true else s.member j y };
  srem = λ k x.
      write λ s. record s { member = λ j y. if (k == j) && (x == y) then false else s.member j y };
  smembers = λ k s. (ok [], s);
  zrangebyscore = λ k n s. (ok [], s);
  zcount = λ k n s. (ok 0, s);
  hset_fails = λ k f x s e j g p. ground arith;
  hset_sets = λ k f x s j g p. ground arith;
  hdel_fails = λ k f s e j g p. ground arith;
  hdel_deletes = λ k f s j g p. ground arith;
  sadd_fails = λ k x s e j y p. ground arith;
  sadd_adds = λ k x s j y p. ground arith;
  srem_fails = λ k x s e j y p. ground arith;
  srem_removes = λ k x s j y p. ground arith;
}

abbrev config : String → Option String
config name = if name == "PROVISION_SECRET_TOKEN" then some "factory" else none

abbrev pub memory : Services
memory = record {
  database = rows_database;
  shell = shell (λ c. false);
  redis = redis;
  config = config;
}

abbrev pub world : Devices → Bool → World memory
world rows writable = record {
  db = record { rows = rows; users = []; next = 1; writable = writable };
  host = record { route = λ c. none; peer = λ k. false };
  store = record { hash = λ k f. none; member = λ k m. false };
  has_client = true;
  now = 1000;
}

abbrev pub row : String → String → Option String → String → Device
row id device_id ip status = record {
  id = id;
  device_id = device_id;
  hardware_model = "X500";
  vpn_ip = ip;
  vpn_public_key = "OLDOLDOLDOLDOLDOLDOLDOLDOLDOLDOLDOLDOLDOLDO=";
  status = status;
  last_seen = 0;
  created_at = 0;
  updated_at = 0;
  user_id = none;
}
