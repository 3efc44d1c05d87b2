-- ===== src/Services/Memory/Rows.antt =====
-- The tables in memory.
use vdt_provisioning_service.Prelude.{
  ℕ, ◌+◌, String, ◌≡◌, ◌↔◌, refl, sym, subst, Elem, Bool, true, false, ◌&&◌, Option, none, some,
  List, [], ◌∷◌, map, ◌==◌, eq_iff, is_text, first, keep, length, arith, if◌then◌else◌, Bool-cases,
  inl, inr,
}
use vdt_provisioning_service.Prelude.Text.{append, show}
use vdt_provisioning_service.Prelude.Effect.{Act, ok, err, Failure, fault, ok-injective}
use vdt_provisioning_service.Services.Tables.{
  Device, Devices, User, NewDevice, Patch, patched, put_row, Unused, IsCreated, IsUpdated, Database,
}

pub record Db : Type 0 where
  pub rows : Devices
  pub users : List User
  pub next : ℕ
  pub writable : Bool

abbrev same_ip : Option String → Option String → Bool
same_ip none o = false
same_ip (some ip) o = is_text o ip

abbrev is_unused : NewDevice → Devices → Bool
is_unused n [] = true
is_unused n (r ∷ rs) =
    if r.device_id == n.device_id
    then false
    else if same_ip n.vpn_ip r.vpn_ip
    then false
    else is_unused n rs

abbrev row_of : NewDevice → ℕ → Device
row_of n i = record {
  id = append "row-" (show i);
  device_id = n.device_id;
  hardware_model = n.hardware_model;
  vpn_ip = n.vpn_ip;
  vpn_public_key = n.vpn_public_key;
  status = n.status;
  last_seen = 0;
  created_at = 0;
  updated_at = 0;
  user_id = none;
}

same_ip_sound :
    (o q : Option String) (ip : String) → same_ip o q ≡ false → o ≡ some ip → q ≡ some ip → ⊥
same_ip_sound none q ip h a b = cc
same_ip_sound (some s) none ip h a b = cc
same_ip_sound (some s) (some t) ip h a b = ground (arith, eq_iff t s)

is_unused-Unused : (n : NewDevice) (rows : Devices) → is_unused n rows ≡ true → Unused n rows
is_unused-Unused n [] h = tt
is_unused-Unused n (r ∷ rs) h = (
  (
    λ e. ground (arith, eq_iff r.device_id n.device_id),
    λ ip a b. same_ip_sound n.vpn_ip r.vpn_ip ip (ground arith) a b,
  ),
  is_unused-Unused n rs (ground arith),
)

abbrev create : NewDevice → Act Db Device
create n db =
    if db.writable && is_unused n db.rows
    then (
      ok (row_of n db.next),
      record db { rows = row_of n db.next ∷ db.rows; next = db.next + 1 },
    )
    else (err fault, db)

pub create_creates :
    (n : NewDevice) (db : Db) (d : Device)
    → (create n db).0 ≡ ok d
    → IsCreated n db.rows (create n db).1.rows d
create_creates n db d h = elim (Bool-cases (db.writable && is_unused n db.rows)) [
  | inl e ↦
      let same : row_of n db.next ≡ d = ground arith in
      rw (← same, e)
        (record {
          device_id = refl;
          hardware_model = refl;
          vpn_ip = refl;
          vpn_public_key = refl;
          status = refl;
          user_id = refl;
          added = refl;
          unused = is_unused-Unused n db.rows (ground arith);
        })
  | inr e ↦ cc
]

abbrev apply : Patch → Option Device → Act Db Device
apply p none db = (err fault, db)
apply p (some old) db =
    if db.writable
    then (ok (patched p old), record db { rows = map (put_row (patched p old)) db.rows })
    else (err fault, db)

abbrev update : (Device → Bool) → Patch → Act Db Device
update key p db = apply p (first key db.rows) db

pub apply-IsUpdated :
    (key : Device → Bool) (p : Patch) (o : Option Device) (db : Db) (d : Device)
    → first key db.rows ≡ o
    → (apply p o db).0 ≡ ok d
    → IsUpdated key p db.rows (apply p o db).1.rows d
apply-IsUpdated key p none db d e h = cc
apply-IsUpdated key p (some old) db d e h = elim (Bool-cases db.writable) [
  | inl w ↦
      let same : patched p old ≡ d = ground arith in
      rw (← same, w) (record { old = old; found = e; changed = refl; written = refl })
  | inr w ↦ cc
]

pub apply_fails :
    (p : Patch) (o : Option Device) (db : Db) (e : Failure)
    → (apply p o db).0 ≡ err e
    → (apply p o db).1.rows ≡ db.rows
apply_fails p none db e h = refl
apply_fails p (some old) db e h = ground arith

abbrev others : String → Device → Bool
others i r = if r.id == i then false else true

abbrev delete : String → Act Db Unit
delete i db =
    if db.writable then (ok tt, record db { rows = keep (others i) db.rows }) else (err fault, db)

abbrev create_user : String → String → String → String → Act Db User
create_user email hash name role db =
    let u : User = record {
      id = append "user-" (show db.next);
      email = email;
      password_hash = hash;
      full_name = name;
      role = role;
    } in
    if db.writable
    then (ok u, record db { users = u ∷ db.users; next = db.next + 1 })
    else (err fault, db)

abbrev pub rows_database : Database
rows_database = record {
  Db = Db;
  devices = λ db. db.rows;
  users = λ db. db.users;
  find_by_device_id = λ i db. (ok (first (λ d. d.device_id == i) db.rows), db);
  find_by_vpn_ip = λ ip db. (ok (first (λ d. is_text d.vpn_ip ip) db.rows), db);
  find_many = λ w db. (ok (keep w db.rows), db);
  find_newest_first = λ w db. (ok (keep w db.rows), db);
  count = λ w db. (ok (length (keep w db.rows)), db);
  create = create;
  update = λ i. update (λ r. r.id == i);
  update_by_device_id = λ i. update (λ r. r.device_id == i);
  delete = delete;
  find_user_by_email = λ s db. (ok (first (λ u. u.email == s) db.users), db);
  find_user = λ s db. (ok (first (λ u. u.id == s) db.users), db);
  create_user = create_user;
  find_by_device_id_keeps = λ i db. refl;
  find_by_device_id_finds = λ i db r h. sym (ok-injective h);
  find_by_vpn_ip_keeps = λ ip db. refl;
  find_by_vpn_ip_finds = λ ip db r h. sym (ok-injective h);
  find_many_keeps = λ w db. refl;
  find_many_finds = λ w db r h d.
      subst (λ x. Elem d x ↔ Elem d (keep w db.rows)) (ok-injective h) (λ m. m, λ m. m);
  find_newest_first_keeps = λ w db. refl;
  find_newest_first_finds = λ w db r h. sym (ok-injective h);
  count_keeps = λ w db. refl;
  count_counts = λ w db n h. sym (ok-injective h);
  create_fails = λ n db e h. ground arith;
  create_creates = create_creates;
  update_fails = λ i p db e h. apply_fails p (first (λ r. r.id == i) db.rows) db e h;
  update_updates = λ i p db d h. apply-IsUpdated (λ r. r.id == i) p _ db d refl h;
  update_by_device_id_fails =
      λ i p db e h. apply_fails p (first (λ r. r.device_id == i) db.rows) db e h;
  update_by_device_id_updates =
      λ i p db d h. apply-IsUpdated (λ r. r.device_id == i) p _ db d refl h;
  delete_fails = λ i db e h. ground arith;
  delete_deletes = λ i db h. ground arith;
  user_reads_keep = λ s db. (refl, refl, refl, refl);
  find_user_by_email_finds = λ s db r h. sym (ok-injective h);
  find_user_finds = λ s db r h. sym (ok-injective h);
  create_user_creates = λ email hash name role db u h. ground arith;
}
