-- ===== src/Services/Tables.antt =====
-- The tables of prisma/schema.prisma, and the Prisma client as an interface with laws.
use vdt_provisioning_service.Prelude.{
  ℕ, String, ◌≡◌, ◌↔◌, Bool, true, false, Option, none, some, List, ◌∷◌, map, ◌==◌, is_text, first,
  keep, Elem, All, length, if◌then◌else◌,
}
use vdt_provisioning_service.Prelude.Effect.{Act, ok, err, Failure}

pub record Device : Type 0 where
  pub id : String
  pub device_id : String
  pub hardware_model : String
  pub vpn_ip : Option String
  pub vpn_public_key : String
  pub status : String
  pub last_seen : ℕ
  pub created_at : ℕ
  pub updated_at : ℕ
  pub user_id : Option String

pub record User : Type 0 where
  pub id : String
  pub email : String
  pub password_hash : String
  pub full_name : String
  pub role : String

-- The `data` of a `create`.
pub record NewDevice : Type 0 where
  pub device_id : String
  pub hardware_model : String
  pub vpn_ip : Option String
  pub vpn_public_key : String
  pub status : String

-- The `data` of an `update`: `none` is a column that is left out.
pub record Patch : Type 0 where
  pub device_id : Option String
  pub hardware_model : Option String
  pub vpn_ip : Option (Option String)
  pub vpn_public_key : Option String
  pub status : Option String
  pub last_seen : Option ℕ
  pub user_id : Option (Option String)

abbrev pub given : {A : Type 0} → Option A → A → A
given none old = old
given (some new) old = new

-- A row after an update, but for `updatedAt`.
abbrev pub patched : Patch → Device → Device
patched p d = record d {
  device_id = given p.device_id d.device_id;
  hardware_model = given p.hardware_model d.hardware_model;
  vpn_ip = given p.vpn_ip d.vpn_ip;
  vpn_public_key = given p.vpn_public_key d.vpn_public_key;
  status = given p.status d.status;
  last_seen = given p.last_seen d.last_seen;
  user_id = given p.user_id d.user_id;
}

abbrev pub Devices : Type 0
Devices = List Device

abbrev pub put_row : Device → Device → Device
put_row d r = if r.id == d.id then d else r

-- `@unique` columns: nothing else holds them.
abbrev pub Unused : NewDevice → Devices → Type 0
Unused n rows =
    All
      (λ r.
        (r.device_id ≡ n.device_id → ⊥)
        × ((ip : String) → n.vpn_ip ≡ some ip → r.vpn_ip ≡ some ip → ⊥))
      rows

pub record IsCreated (n : NewDevice) (before after : Devices) (d : Device) : Type 0 where
  pub device_id : d.device_id ≡ n.device_id
  pub hardware_model : d.hardware_model ≡ n.hardware_model
  pub vpn_ip : d.vpn_ip ≡ n.vpn_ip
  pub vpn_public_key : d.vpn_public_key ≡ n.vpn_public_key
  pub status : d.status ≡ n.status
  pub user_id : d.user_id ≡ none
  pub added : after ≡ d ∷ before
  pub unused : Unused n before

pub record IsUpdated (key : Device → Bool) (p : Patch) (before after : Devices) (d : Device)
    : Type 0 where
  pub old : Device
  pub found : first key before ≡ some old
  pub changed : d ≡ record (patched p old) { updated_at = d.updated_at }
  pub written : after ≡ map (put_row d) before

-- `devices` lists the rows of the table, newest first, and `users` those of the other.
pub record Database : Type 1 where
  pub Db : Type 0
  pub devices : Db → Devices
  pub users : Db → List User
  -- `device.findUnique({ where: { deviceId } })`, `device.findFirst({ where: { vpnIp } })`
  pub find_by_device_id : String → Act Db (Option Device)
  pub find_by_vpn_ip : String → Act Db (Option Device)
  -- `device.findMany({ where })`, in any order, and with `orderBy: { createdAt: 'desc' }`
  pub find_many : (Device → Bool) → Act Db Devices
  pub find_newest_first : (Device → Bool) → Act Db Devices
  pub count : (Device → Bool) → Act Db ℕ
  pub create : NewDevice → Act Db Device
  -- `device.update({ where: { id } })` and `{ where: { deviceId } }`
  pub update : String → Patch → Act Db Device
  pub update_by_device_id : String → Patch → Act Db Device
  pub delete : String → Act Db Unit
  -- `user.findUnique` by `email` and by `id`, `user.create`
  pub find_user_by_email : String → Act Db (Option User)
  pub find_user : String → Act Db (Option User)
  pub create_user : String → String → String → String → Act Db User
  -- A read changes nothing, and returns what the rows hold if it returns.
  pub find_by_device_id_keeps :
      (i : String) (db : Db) → devices (find_by_device_id i db).1 ≡ devices db
  pub find_by_device_id_finds :
      (i : String) (db : Db) (r : Option Device)
      → (find_by_device_id i db).0 ≡ ok r
      → r ≡ first (λ d. d.device_id == i) (devices db)
  pub find_by_vpn_ip_keeps : (ip : String) (db : Db) → devices (find_by_vpn_ip ip db).1 ≡ devices db
  pub find_by_vpn_ip_finds :
      (ip : String) (db : Db) (r : Option Device)
      → (find_by_vpn_ip ip db).0 ≡ ok r
      → r ≡ first (λ d. is_text d.vpn_ip ip) (devices db)
  pub find_many_keeps : (w : Device → Bool) (db : Db) → devices (find_many w db).1 ≡ devices db
  pub find_many_finds :
      (w : Device → Bool) (db : Db) (r : Devices)
      → (find_many w db).0 ≡ ok r
      → (d : Device) → Elem d r ↔ Elem d (keep w (devices db))
  pub find_newest_first_keeps :
      (w : Device → Bool) (db : Db) → devices (find_newest_first w db).1 ≡ devices db
  pub find_newest_first_finds :
      (w : Device → Bool) (db : Db) (r : Devices)
      → (find_newest_first w db).0 ≡ ok r
      → r ≡ keep w (devices db)
  pub count_keeps : (w : Device → Bool) (db : Db) → devices (count w db).1 ≡ devices db
  pub count_counts :
      (w : Device → Bool) (db : Db) (n : ℕ)
      → (count w db).0 ≡ ok n
      → n ≡ length (keep w (devices db))
  -- A write that fails has written nothing.
  pub create_fails :
      (n : NewDevice) (db : Db) (e : Failure)
      → (create n db).0 ≡ err e
      → devices (create n db).1 ≡ devices db
  pub create_creates :
      (n : NewDevice) (db : Db) (d : Device)
      → (create n db).0 ≡ ok d
      → IsCreated n (devices db) (devices (create n db).1) d
  pub update_fails :
      (i : String) (p : Patch) (db : Db) (e : Failure)
      → (update i p db).0 ≡ err e
      → devices (update i p db).1 ≡ devices db
  pub update_updates :
      (i : String) (p : Patch) (db : Db) (d : Device)
      → (update i p db).0 ≡ ok d
      → IsUpdated (λ r. r.id == i) p (devices db) (devices (update i p db).1) d
  pub update_by_device_id_fails :
      (i : String) (p : Patch) (db : Db) (e : Failure)
      → (update_by_device_id i p db).0 ≡ err e
      → devices (update_by_device_id i p db).1 ≡ devices db
  pub update_by_device_id_updates :
      (i : String) (p : Patch) (db : Db) (d : Device)
      → (update_by_device_id i p db).0 ≡ ok d
      → IsUpdated (λ r. r.device_id == i) p (devices db) (devices (update_by_device_id i p db).1) d
  pub delete_fails :
      (i : String) (db : Db) (e : Failure)
      → (delete i db).0 ≡ err e
      → devices (delete i db).1 ≡ devices db
  pub delete_deletes :
      (i : String) (db : Db)
      → (delete i db).0 ≡ ok tt
      → devices (delete i db).1 ≡ keep (λ r. if r.id == i then false else true) (devices db)
  pub user_reads_keep :
      (s : String) (db : Db)
      → (devices (find_user_by_email s db).1 ≡ devices db)
        × (users (find_user_by_email s db).1 ≡ users db)
        × (devices (find_user s db).1 ≡ devices db)
        × (users (find_user s db).1 ≡ users db)
  pub find_user_by_email_finds :
      (s : String) (db : Db) (r : Option User)
      → (find_user_by_email s db).0 ≡ ok r
      → r ≡ first (λ u. u.email == s) (users db)
  pub find_user_finds :
      (s : String) (db : Db) (r : Option User)
      → (find_user s db).0 ≡ ok r
      → r ≡ first (λ u. u.id == s) (users db)
  pub create_user_creates :
      (email hash name role : String) (db : Db) (u : User)
      → (create_user email hash name role db).0 ≡ ok u
      → (u.email ≡ email)
        × (u.password_hash ≡ hash)
        × (u.full_name ≡ name)
        × (u.role ≡ role)
        × (users (create_user email hash name role db).1 ≡ u ∷ users db)
        × (devices (create_user email hash name role db).1 ≡ devices db)
