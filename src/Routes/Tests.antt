-- ===== src/Routes/Tests.antt =====
-- The owner of a drone asks for its state, and a pilot for the configuration; tokens are as in
-- Auth.Memory.
use vdt_provisioning_service.Prelude.{◌≡◌, refl, true, none, some, [], ◌∷◌}
use vdt_provisioning_service.Prelude.Effect.{ok, err, forbidden}
use vdt_provisioning_service.Services.{World}
use vdt_provisioning_service.Services.Memory.{memory, world, row}
use vdt_provisioning_service.Services.Tables.{User}
use vdt_provisioning_service.Device.{find_by_device_id}
use vdt_provisioning_service.Auth.{validate, validated}
use vdt_provisioning_service.Auth.Guards.{
  can_activate_device, can_activate_roles, check_user, check_device,
}
use vdt_provisioning_service.Auth.Memory.{toy, token}
use vdt_provisioning_service.Routes.{
  Route, DashboardRoute, TelemetryRoute, Call, Request, guards, handler, authenticate, guarded,
  all_guarded, served, passed,
}
use vdt_provisioning_service.Routes.Access.{served-IsAllowed}
use vdt_provisioning_service.Routes.Passing.{IsAllowed}

abbrev pilot : User
pilot = record {
  id = "user-2";
  email = "p@vdt";
  password_hash = "1234";
  full_name = "P";
  role = "PILOT";
}

abbrev fleet : World memory
fleet =
    let bare : World memory =
      world (record (row "b" "D3" (some "10.13.37.3") "ACTIVE") { user_id = some "user-2" } ∷ [])
        true in
    record bare { db = record bare.db { users = pilot ∷ [] } }

abbrev request : Request
request = record {
  token = some (token (record { sub = "user-2"; email = "p@vdt"; role = "ADMIN" }));
  query_device_id = none;
  body_device_id = none;
}

reaches :
    (served toy (Route.telemetry (TelemetryRoute.device_state "D3")) request fleet).0
    ≡ ok (Call.get_device_state "D3")
unfolding served all_guarded guarded guards handler authenticate validate validated passed
    can_activate_device check_user check_device can_activate_roles find_by_device_id
reaches = refl

-- The role is that of the row, not that of the token.
turned_away : (served toy (Route.dashboard DashboardRoute.config) request fleet).0 ≡ err forbidden
unfolding served all_guarded guarded guards handler authenticate validate validated passed
    can_activate_device check_user check_device can_activate_roles find_by_device_id
turned_away = refl

served-IsAllowed_example : IsAllowed toy request fleet (Call.get_device_state "D3")
served-IsAllowed_example =
    served-IsAllowed toy (Route.telemetry (TelemetryRoute.device_state "D3")) request fleet
      (Call.get_device_state "D3") reaches refl refl
