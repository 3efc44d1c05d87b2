-- ===== src/Routes.antt =====
-- The controllers of drone-fleet-manager/src: auth, dashboard, provisioning, telemetry, video and app.
-- A route is what Nest's router makes of a request, with the parts of the path that the handler takes;
-- a call is the method of a service that the handler calls. `token` is what the extractors of
-- auth/jwt.strategy.ts find.
pub mod Calls
pub mod Login
pub mod Passing
pub mod Access
mod Tests
use vdt_provisioning_service.Prelude.{
  ℕ, String, Bool, true, false, Option, none, some, List, [], ◌∷◌, if◌then◌else◌,
}
use vdt_provisioning_service.Prelude.Effect.{
  Act, Result, ok, err, pure, throw, unauthorized, ◌>>=◌, ◌>>◌,
}
use vdt_provisioning_service.Services.{Services, World}
use vdt_provisioning_service.Auth.{Crypto, Account, LoginDto, validate}
use vdt_provisioning_service.Auth
use vdt_provisioning_service.Auth.Guards.{Target, can_activate_device, can_activate_roles}
use vdt_provisioning_service.Provisioning
use vdt_provisioning_service.Dashboard.System.{ManualDevice}

pub data AuthRoute : Type 0 where
  register_account : Auth.RegisterDto → AuthRoute
  log_in : LoginDto → AuthRoute
  me : AuthRoute
  claim : String → AuthRoute

pub data DashboardRoute : Type 0 where
  stats devices ip_pool wireguard_peers config : DashboardRoute
  manual : ManualDevice → DashboardRoute
  dashboard_stream_info : String → DashboardRoute

pub data TelemetryRoute : Type 0 where
  fleet_states : TelemetryRoute
  device_state : String → TelemetryRoute

pub data VideoRoute : Type 0 where
  stream_info : String → Option String → VideoRoute
  playlist live_mp4 : String → VideoRoute
  segment : String → String → VideoRoute
  -- with the method, of POST, PATCH and DELETE
  whep : String → String → VideoRoute
  whep_options : VideoRoute

pub data Route : Type 0 where
  hello : Route
  register_drone : Provisioning.RegisterDto → Route
  auth : AuthRoute → Route
  dashboard : DashboardRoute → Route
  telemetry : TelemetryRoute → Route
  video : VideoRoute → Route

pub data Call : Type 0 where
  get_hello no_content : Call
  register : Auth.RegisterDto → Call
  login : LoginDto → Call
  get_profile : String → Call
  claim_drone : String → String → Call
  register_device : Provisioning.RegisterDto → Call
  get_overview_stats get_fleet get_all_fleet_states : Option Account → Call
  get_ip_pool_matrix get_live_peers get_system_config : Call
  create_manual_device : ManualDevice → Call
  get_stream_info get_device_state : String → Call
  get_stream_endpoints : String → Option String → Call
  proxy_media_request proxy_whep_request : String → String → Call

pub data Guard : Type 0 where
  jwt : Guard
  roles : List String → Guard
  device_ownership : Guard

-- The decorators `@UseGuards` and `@Roles`, those of the class first.
abbrev pub auth_guards : AuthRoute → List Guard
auth_guards (register_account dto) = []
auth_guards (log_in dto) = []
auth_guards me = jwt ∷ []
auth_guards (claim d) = jwt ∷ []

abbrev pub dashboard_guards : DashboardRoute → List Guard
dashboard_guards stats = jwt ∷ []
dashboard_guards devices = jwt ∷ []
dashboard_guards ip_pool = jwt ∷ roles ("ADMIN" ∷ []) ∷ []
dashboard_guards wireguard_peers = jwt ∷ roles ("ADMIN" ∷ []) ∷ []
dashboard_guards config = jwt ∷ roles ("ADMIN" ∷ []) ∷ []
dashboard_guards (manual body) = jwt ∷ roles ("ADMIN" ∷ []) ∷ []
dashboard_guards (dashboard_stream_info d) = jwt ∷ device_ownership ∷ []

abbrev pub telemetry_guards : TelemetryRoute → List Guard
telemetry_guards fleet_states = jwt ∷ []
telemetry_guards (device_state d) = jwt ∷ device_ownership ∷ []

abbrev pub video_guards : VideoRoute → List Guard
video_guards (stream_info d host) = jwt ∷ device_ownership ∷ []
video_guards (playlist d) = jwt ∷ device_ownership ∷ []
video_guards (live_mp4 d) = jwt ∷ device_ownership ∷ []
video_guards (segment d file) = jwt ∷ device_ownership ∷ []
video_guards (whep method d) = jwt ∷ device_ownership ∷ []
video_guards whep_options = []

unfoldable pub guards : Route → List Guard
guards hello = []
guards (register_drone dto) = []
guards (auth r) = auth_guards r
guards (dashboard r) = dashboard_guards r
guards (telemetry r) = telemetry_guards r
guards (video r) = video_guards r

-- `params.deviceId` and `params.id`
abbrev pub path_device_id : Route → Option String
path_device_id (telemetry (device_state d)) = some d
path_device_id (video (stream_info d host)) = some d
path_device_id (video (playlist d)) = some d
path_device_id (video (live_mp4 d)) = some d
path_device_id (video (segment d file)) = some d
path_device_id (video (whep method d)) = some d
path_device_id _ = none

abbrev pub path_id : Route → Option String
path_id (dashboard (dashboard_stream_info d)) = some d
path_id _ = none

pub record Request : Type 0 where
  pub token : Option String
  pub query_device_id : Option String
  pub body_device_id : Option String

abbrev pub target : Route → Request → Target
target r q = record {
  params_device_id = path_device_id r;
  params_id = path_id r;
  query_device_id = q.query_device_id;
  body_device_id = q.body_device_id;
}

abbrev id_of : Option Account → String
id_of none = ""
id_of (some u) = u.id

-- The handlers; `u` is the user of the request.
abbrev pub auth_handler : AuthRoute → Option Account → Call
auth_handler (register_account dto) u = register dto
auth_handler (log_in dto) u = login dto
auth_handler me u = get_profile (id_of u)
auth_handler (claim d) u = claim_drone (id_of u) d

abbrev pub dashboard_handler : DashboardRoute → Option Account → Call
dashboard_handler stats u = get_overview_stats u
dashboard_handler devices u = get_fleet u
dashboard_handler ip_pool u = get_ip_pool_matrix
dashboard_handler wireguard_peers u = get_live_peers
dashboard_handler config u = get_system_config
dashboard_handler (manual body) u = create_manual_device body
dashboard_handler (dashboard_stream_info d) u = get_stream_info d

abbrev pub telemetry_handler : TelemetryRoute → Option Account → Call
telemetry_handler fleet_states u = get_all_fleet_states u
telemetry_handler (device_state d) u = get_device_state d

abbrev pub video_handler : VideoRoute → Option Account → Call
video_handler (stream_info d host) u = get_stream_endpoints d host
video_handler (playlist d) u = proxy_media_request d "index.m3u8"
video_handler (live_mp4 d) u = proxy_media_request d "live.mp4"
video_handler (segment d file) u = proxy_media_request d file
video_handler (whep method d) u = proxy_whep_request d method
video_handler whep_options u = no_content

unfoldable pub handler : Route → Option Account → Call
handler hello u = get_hello
handler (register_drone dto) u = register_device dto
handler (auth r) u = auth_handler r u
handler (dashboard r) u = dashboard_handler r u
handler (telemetry r) u = telemetry_handler r u
handler (video r) u = video_handler r u

abbrev pub role_of : Option Account → Option String
role_of none = none
role_of (some u) = some u.role

module _ {v : Services} (k : Crypto) where
  pub validated_payload : Option Auth.Payload → Act (World v) (Option Account)
  validated_payload none = throw unauthorized
  validated_payload (some p) = validate p >>= λ u. pure (some u)

  -- JwtAuthGuard: the user of the request is what the strategy's `validate` returns.
  unfoldable pub authenticate : Option String → Act (World v) (Option Account)
  unfolding validated_payload
  authenticate none s = (err unauthorized, s)
  authenticate (some t) s = validated_payload (k.verify s.now t) s

  pub passed : Result Unit → Option Account → Act (World v) (Option Account)
  passed (ok x) u = pure u
  passed (err e) u = throw e

  -- A guard passes on the user of the request, or throws.
  unfoldable pub guarded : Guard → Route → Request → Option Account → Act (World v) (Option Account)
  unfolding authenticate passed
  guarded jwt r q u = authenticate q.token
  guarded (roles names) r q u = passed (can_activate_roles (some names) (role_of u)) u
  guarded device_ownership r q u = can_activate_device u (target r q) >>= λ _. pure u

  unfoldable pub all_guarded :
      List Guard → Route → Request → Option Account → Act (World v) (Option Account)
  all_guarded [] r q u = pure u
  all_guarded (g ∷ gs) r q u = guarded g r q u >>= all_guarded gs r q

  -- The method that a request reaches.
  unfoldable pub served : Route → Request → Act (World v) Call
  served r q = all_guarded (guards r) r q none >>= λ u. pure (handler r u)
