-- ===== src/Auth/Tests.antt =====
-- Accounts and claims against services in memory.
use vdt_provisioning_service.Prelude.{◌≡◌, refl, true, none, some, [], ◌∷◌}
use vdt_provisioning_service.Prelude.Text.{show}
use vdt_provisioning_service.Prelude.Effect.{ok, err, conflict}
use vdt_provisioning_service.Services.{World}
use vdt_provisioning_service.Services.Tables.{Device, User}
use vdt_provisioning_service.Services.Memory.{memory, world, row}
use vdt_provisioning_service.Device.{find_by_device_id}
use vdt_provisioning_service.Auth.Memory.{token, toy}
use vdt_provisioning_service.Auth.{
  Account, account_of, State, RegisterDto, Login, Payload, is_owned_by, only, register,
  register_unused, login, claim_drone, claim_found,
}
use vdt_provisioning_service.Auth.Guards.{Target, can_activate_device, check_user, check_device}
use vdt_provisioning_service.Auth.Claims.{IsClaimed, claim_drone-IsClaimed}
use vdt_provisioning_service.Auth.Accounts.{IsSameLogin, register-login}

abbrev pilot : Payload
pilot = record { sub = "user-1"; email = "p@vdt"; role = "PILOT" }

abbrev start : State memory toy
start = record { world = world [] true; salt = tt }

abbrev form : RegisterDto
form = record { email = "p@vdt"; password = "1234"; full_name = "P" }

run : Unit {0}
unfolding register login register_unused show claim_drone claim_found find_by_device_id
    can_activate_device check_user check_device
run = tt

abbrev new_user : User
new_user = record {
  id = "user-1";
  email = "p@vdt";
  password_hash = "1234";
  full_name = "P";
  role = "PILOT";
}

abbrev welcome : Login
welcome = record {
  access_token = token pilot;
  user = record { id = "user-1"; email = "p@vdt"; full_name = "P"; role = "PILOT" };
  assigned_devices = only [];
}

registers : (register form start).0 ≡ ok welcome
unfolding run
registers = refl

read_back :
    ((memory.database.find_user_by_email "p@vdt" (register form start).1.world.db).0
      ≡ ok (some new_user))
    × ((memory.database.find_many
          (is_owned_by "user-1")
          (memory.database.find_user_by_email "p@vdt" (register form start).1.world.db).1).0
        ≡ ok [])
unfolding run
read_back = (refl, refl)

register-login_example :
    (l : Login) × ((login (record { email = "p@vdt"; password = "1234" }) (register form start).1).0
      ≡ ok l)
    × IsSameLogin "p@vdt" (register form start).1 welcome l
register-login_example =
    register-login start form welcome (some new_user) [] registers read_back.0 read_back.1

abbrev free_row : Device
free_row = row "a" "D2" (some "10.13.37.2") "ACTIVE"

abbrev taken_row : Device
taken_row = record (row "b" "D3" (some "10.13.37.3") "ACTIVE") { user_id = some "user-2" }

abbrev fleet : World memory
fleet = world (free_row ∷ taken_row ∷ []) true

claims : (claim_drone "user-1" "D2" fleet).0 ≡ ok (record free_row { user_id = some "user-1" })
unfolding run
claims = refl

claim_drone-IsClaimed_example :
    IsClaimed fleet "user-1" "D2"
      (claim_drone "user-1" "D2" fleet).1
      (record free_row { user_id = some "user-1" })
claim_drone-IsClaimed_example =
    claim_drone-IsClaimed fleet "user-1" "D2" (record free_row { user_id = some "user-1" }) claims

refuses : (claim_drone "user-1" "D3" fleet).0 ≡ err conflict
unfolding run
refuses = refl

abbrev owner : Account
owner = account_of (record new_user { id = "user-2" })

abbrev asks : Target
asks = record {
  params_device_id = none;
  params_id = some "D3";
  query_device_id = none;
  body_device_id = none;
}

passes : (can_activate_device (some owner) asks fleet).0 ≡ ok tt
unfolding run
passes = refl
