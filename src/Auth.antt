-- ===== src/Auth.antt =====
-- drone-fleet-manager/src/auth/auth.service.ts and jwt.strategy.ts: accounts, tokens and claims.
pub mod Guards
pub mod Accounts
pub mod Claims
pub mod Memory
mod Tests
use vdt_provisioning_service.Prelude.{
  ℕ, String, ◌≡◌, Bool, true, false, not, Option, none, some, List, [], map, ◌==◌, ◌&&◌, is_text,
  if◌then◌else◌,
}
use vdt_provisioning_service.Prelude.Effect.{
  Act, Result, ok, err, pure, throw, conflict, unauthorized, not_found, ◌>>=◌, ◌>>◌,
}
use vdt_provisioning_service.Services.{Services, World, in_db}
use vdt_provisioning_service.Services.Tables.{Device, Devices, User, Patch}
use vdt_provisioning_service.Device.{find_by_device_id}

-- What a token carries: `{ sub, email, role }`.
pub record Payload : Type 0 where
  pub sub : String
  pub email : String
  pub role : String

-- The packages bcryptjs and @nestjs/jwt. A hash is drawn with a fresh salt; `verify` throws on a
-- token that is forged or out of date, here `none`.
pub record Crypto : Type 1 where
  pub Salt : Type 0
  pub hash : String → Act Salt String
  pub compare : String → String → Bool
  pub sign : ℕ → Payload → String
  pub verify : ℕ → String → Option Payload
  pub compare_hash :
      (password h : String) (s : Salt) → (hash password s).0 ≡ ok h → compare password h ≡ true
  pub verify_sign : (now : ℕ) (p : Payload) → verify now (sign now p) ≡ some p

pub record State (v : Services) (k : Crypto) : Type 0 where
  pub world : World v
  pub salt : k.Salt

pub record RegisterDto : Type 0 where
  pub email : String
  pub password : String
  pub full_name : String

pub record LoginDto : Type 0 where
  pub email : String
  pub password : String

-- The columns of a user that answers show.
pub record Account : Type 0 where
  pub id : String
  pub email : String
  pub full_name : String
  pub role : String

abbrev pub account_of : User → Account
account_of u = record { id = u.id; email = u.email; full_name = u.full_name; role = u.role }

-- The columns of a device that answers show.
pub record DeviceSummary : Type 0 where
  pub device_id : String
  pub hardware_model : String
  pub vpn_ip : Option String
  pub status : String
  pub last_seen : ℕ

abbrev pub summary_of : Device → DeviceSummary
summary_of d = record {
  device_id = d.device_id;
  hardware_model = d.hardware_model;
  vpn_ip = d.vpn_ip;
  status = d.status;
  last_seen = d.last_seen;
}

-- `assignedDevices`: `'ALL_FLEET'`, or devices
pub data Assigned : Type 0 where
  all_fleet : Assigned
  only : List DeviceSummary → Assigned

pub record Login : Type 0 where
  pub access_token : String
  pub user : Account
  pub assigned_devices : Assigned

abbrev pub payload_of : User → Payload
payload_of u = record { sub = u.id; email = u.email; role = u.role }

-- The relation `User.devices`.
abbrev pub is_owned_by : String → Device → Bool
is_owned_by id d = is_text d.user_id id

abbrev pub claim : String → Patch
claim user_id = record {
  device_id = none;
  hardware_model = none;
  vpn_ip = none;
  vpn_public_key = none;
  status = none;
  last_seen = none;
  user_id = some (some user_id);
}

-- `device.userId && device.userId !== userId`
abbrev pub owned_by_another : String → Option String → Bool
owned_by_another user_id none = false
owned_by_another user_id (some owner) = not (owner == "") && not (owner == user_id)

module _ {v : Services} {k : Crypto} where
  abbrev pub in_world : {A : Type 0} → Act (World v) A → Act (State v k) A
  in_world m s = ((m s.world).0, record s { world = (m s.world).1 })

  abbrev pub in_salt : {A : Type 0} → Act k.Salt A → Act (State v k) A
  in_salt m s = ((m s.salt).0, record s { salt = (m s.salt).1 })

  abbrev pub generate_token : User → State v k → String
  generate_token u s = k.sign s.world.now (payload_of u)

  unfoldable pub register_unused : RegisterDto → Option User → Act (State v k) Login
  register_unused dto (some u) = throw conflict
  register_unused dto none = do
    hashed ← in_salt (k.hash dto.password)
    user ← in_world (in_db (v.database.create_user dto.email hashed dto.full_name "PILOT"))
    λ s. (
      ok (record {
        access_token = generate_token user s;
        user = account_of user;
        assigned_devices = only [];
      }),
      s,
    )

  unfoldable pub register : RegisterDto → Act (State v k) Login
  unfolding register_unused
  register dto = in_world (in_db (v.database.find_user_by_email dto.email)) >>= register_unused dto

  -- `findUnique` with `include: { devices }` reads the user, then the user's devices.
  unfoldable pub login_found : LoginDto → Option User → Act (State v k) Login
  login_found dto none = throw unauthorized
  login_found dto (some u) = do
    owned ← in_world (in_db (v.database.find_many (is_owned_by u.id)))
    λ s.
        if k.compare dto.password u.password_hash
        then (
          ok (record {
            access_token = generate_token u s;
            user = account_of u;
            assigned_devices = if u.role == "ADMIN" then all_fleet else only (map summary_of owned);
          }),
          s,
        )
        else (err unauthorized, s)

  unfoldable pub login : LoginDto → Act (State v k) Login
  unfolding login_found
  login dto = in_world (in_db (v.database.find_user_by_email dto.email)) >>= login_found dto

module _ {v : Services} where
  pub profile_found : Option User → Act (World v) (Account × List DeviceSummary)
  profile_found none = throw not_found
  profile_found (some u) = do
    owned ← in_db (v.database.find_many (is_owned_by u.id))
    fleet ← if u.role == "ADMIN" then in_db (v.database.find_many (λ d. true)) else pure owned
    pure (account_of u, map summary_of fleet)

  unfoldable pub get_profile : String → Act (World v) (Account × List DeviceSummary)
  unfolding profile_found
  get_profile user_id = in_db (v.database.find_user user_id) >>= profile_found

  unfoldable pub claim_found : String → String → Option Device → Act (World v) Device
  claim_found user_id device_id none = throw not_found
  claim_found user_id device_id (some d) =
      if owned_by_another user_id d.user_id
      then throw conflict
      else in_db (v.database.update_by_device_id device_id (claim user_id))

  unfoldable pub claim_drone : String → String → Act (World v) Device
  unfolding claim_found
  claim_drone user_id device_id = find_by_device_id device_id >>= claim_found user_id device_id

  unfoldable pub validated : Option User → Act (World v) Account
  validated none = throw unauthorized
  validated (some u) = pure (account_of u)

  -- `JwtStrategy.validate`
  unfoldable pub validate : Payload → Act (World v) Account
  unfolding validated
  validate p = in_db (v.database.find_user p.sub) >>= validated
