-- ===== src/Auth/Guards.antt =====
-- drone-fleet-manager/src/auth/guards: device-ownership.guard.ts and roles.guard.ts.
use vdt_provisioning_service.Prelude.{
  String, Option, none, some, List, [], ◌∷◌, ◌==◌, is_text, contains, if◌then◌else◌,
}
use vdt_provisioning_service.Prelude.Effect.{
  Act, Result, ok, err, pure, throw, forbidden, not_found, ◌>>=◌,
}
use vdt_provisioning_service.Services.{Services, World}
use vdt_provisioning_service.Services.Tables.{Device}
use vdt_provisioning_service.Auth.{Account}
use vdt_provisioning_service.Device.{find_by_device_id}

-- Where a request may name a drone.
pub record Target : Type 0 where
  pub params_device_id : Option String
  pub params_id : Option String
  pub query_device_id : Option String
  pub body_device_id : Option String

-- `a || b`, on values that are texts or missing
abbrev pub or_text : Option String → Option String → Option String
or_text none b = b
or_text (some a) b = if a == "" then b else some a

abbrev pub device_id_of : Target → Option String
device_id_of t =
    or_text t.params_device_id (or_text t.params_id (or_text t.query_device_id t.body_device_id))

abbrev pub owner_matches : String → Option Device → Result Unit
owner_matches user_id none = err not_found
owner_matches user_id (some d) = if is_text d.user_id user_id then ok tt else err forbidden

module _ {v : Services} where
  unfoldable pub check_device : Account → Option String → Act (World v) Unit
  check_device user none = pure tt
  check_device user (some device_id) =
      if device_id == ""
      then pure tt
      else (find_by_device_id device_id >>= (λ found s. (owner_matches user.id found, s)))

  unfoldable pub check_user : Target → Option Account → Act (World v) Unit
  unfolding check_device
  check_user target none = throw forbidden
  check_user target (some user) =
      if user.role == "ADMIN" then pure tt else check_device user (device_id_of target)

  -- `canActivate` returns true, or throws.
  unfoldable pub can_activate_device : Option Account → Target → Act (World v) Unit
  unfolding check_user
  can_activate_device user target = check_user target user

-- `user` of the request, by its role; `none` where the handler asks for no roles.
abbrev pub role_among : List String → Option String → Result Unit
role_among roles none = err forbidden
role_among roles (some role) =
    if role == "" then err forbidden else if contains roles role then ok tt else err forbidden

unfoldable pub can_activate_roles : Option (List String) → Option String → Result Unit
can_activate_roles none role = ok tt
can_activate_roles (some []) role = ok tt
can_activate_roles (some (r ∷ rs)) role = role_among (r ∷ rs) role
