-- ===== src/Services.antt =====
-- What the program uses and does not implement: the Prisma client over PostgreSQL, the `wg` command
-- run by `child_process.exec`, the Redis client, and the environment. Each is a record of
-- operations with the laws that its documentation states; a program state is a state of each.
pub mod Tables
pub mod Commands
pub mod Store
pub mod Memory
use vdt_provisioning_service.Prelude.{ℕ, String, Bool, Option, none, some}
use vdt_provisioning_service.Prelude.Effect.{Act}
use Tables.{Database}
use Commands.{Shell}
use Store.{Redis}

pub record Services : Type 1 where
  pub database : Database
  pub shell : Shell
  pub redis : Redis
  -- `configService.get(name)`
  pub config : String → Option String

pub record World (v : Services) : Type 0 where
  pub db : v.database.Db
  pub host : v.shell.Host
  pub store : v.redis.Store
  -- whether `RedisService.client` is there
  pub has_client : Bool
  -- `Date.now()`, which stands still within one request
  pub now : ℕ

-- `configService.get(name, fallback)`
abbrev pub setting : Services → String → String → String
setting v name fallback = elim (v.config name) [ none ↦ fallback | some s ↦ s ]

-- An action of one service as an action on the whole state.
module _ {v : Services} {A : Type 0} where
  abbrev pub in_db : Act v.database.Db A → Act (World v) A
  in_db m w = ((m w.db).0, record w { db = (m w.db).1 })

  abbrev pub in_host : Act v.shell.Host A → Act (World v) A
  in_host m w = ((m w.host).0, record w { host = (m w.host).1 })

  abbrev pub in_store : Act v.redis.Store A → Act (World v) A
  in_store m w = ((m w.store).0, record w { store = (m w.store).1 })
