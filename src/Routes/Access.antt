-- ===== src/Routes/Access.antt =====
-- The controllers of drone-fleet-manager/src with their guards: who reaches which method.
use vdt_provisioning_service.Prelude.{◌≡◌, refl, false}
use vdt_provisioning_service.Prelude.Effect.{ok}
use vdt_provisioning_service.Services.{Services, World}
use vdt_provisioning_service.Auth.{Crypto}
use vdt_provisioning_service.Routes.{
  Route, AuthRoute, DashboardRoute, TelemetryRoute, VideoRoute, Call, Request, guards, handler,
  served,
}
use vdt_provisioning_service.Routes.Calls.{is_open, is_blank, drone_of}
use vdt_provisioning_service.Routes.Passing.{
  IsAllowed, for_anyone, for_an_admin, for_the_owner, not_open,
}

module _ {v : Services} (k : Crypto) where
  auth-IsAllowed :
      (a : AuthRoute) (q : Request) (s : World v) (c : Call)
      → (served k (Route.auth a) q s).0 ≡ ok c
      → is_open c ≡ false
      → is_blank (drone_of c) ≡ false
      → IsAllowed k q s c
  unfolding guards handler
  auth-IsAllowed (AuthRoute.register_account dto) q s c h closed named =
      absurd
        (not_open k (Route.auth (AuthRoute.register_account dto)) q s c h closed refl (λ o. refl))
  auth-IsAllowed (AuthRoute.log_in dto) q s c h closed named =
      absurd (not_open k (Route.auth (AuthRoute.log_in dto)) q s c h closed refl (λ o. refl))
  auth-IsAllowed AuthRoute.me q s c h closed named =
      for_anyone k q s c (Route.auth AuthRoute.me) refl h (λ u. refl) (λ u. refl) (λ u. refl)
  auth-IsAllowed (AuthRoute.claim d) q s c h closed named =
      for_anyone k q s c (Route.auth (AuthRoute.claim d)) refl h (λ u. refl) (λ u. refl) (λ u. refl)

  dashboard-IsAllowed :
      (a : DashboardRoute) (q : Request) (s : World v) (c : Call)
      → (served k (Route.dashboard a) q s).0 ≡ ok c
      → is_open c ≡ false
      → is_blank (drone_of c) ≡ false
      → IsAllowed k q s c
  unfolding guards handler
  dashboard-IsAllowed DashboardRoute.stats q s c h closed named =
      for_anyone k q s c (Route.dashboard DashboardRoute.stats) refl h (λ u. refl) (λ u. refl)
        (λ u. refl)
  dashboard-IsAllowed DashboardRoute.devices q s c h closed named =
      for_anyone k q s c (Route.dashboard DashboardRoute.devices) refl h (λ u. refl) (λ u. refl)
        (λ u. refl)
  dashboard-IsAllowed DashboardRoute.ip_pool q s c h closed named =
      for_an_admin k q s c (Route.dashboard DashboardRoute.ip_pool) refl h (λ u. tt) (λ u. refl)
  dashboard-IsAllowed DashboardRoute.wireguard_peers q s c h closed named =
      for_an_admin k q s c (Route.dashboard DashboardRoute.wireguard_peers) refl h (λ u. tt)
        (λ u. refl)
  dashboard-IsAllowed DashboardRoute.config q s c h closed named =
      for_an_admin k q s c (Route.dashboard DashboardRoute.config) refl h (λ u. tt) (λ u. refl)
  dashboard-IsAllowed (DashboardRoute.manual body) q s c h closed named =
      for_an_admin k q s c (Route.dashboard (DashboardRoute.manual body)) refl h (λ u. tt)
        (λ u. refl)
  dashboard-IsAllowed (DashboardRoute.dashboard_stream_info d) q s c h closed named =
      for_the_owner k q s c (Route.dashboard (DashboardRoute.dashboard_stream_info d)) d refl h
        named (λ n. rw n refl) (λ u. tt) (λ u. refl) (λ u. refl)

  telemetry-IsAllowed :
      (a : TelemetryRoute) (q : Request) (s : World v) (c : Call)
      → (served k (Route.telemetry a) q s).0 ≡ ok c
      → is_open c ≡ false
      → is_blank (drone_of c) ≡ false
      → IsAllowed k q s c
  unfolding guards handler
  telemetry-IsAllowed TelemetryRoute.fleet_states q s c h closed named =
      for_anyone k q s c (Route.telemetry TelemetryRoute.fleet_states) refl h (λ u. refl)
        (λ u. refl) (λ u. refl)
  telemetry-IsAllowed (TelemetryRoute.device_state d) q s c h closed named =
      for_the_owner k q s c (Route.telemetry (TelemetryRoute.device_state d)) d refl h named
        (λ n. rw n refl) (λ u. tt) (λ u. refl) (λ u. refl)

  video-IsAllowed :
      (a : VideoRoute) (q : Request) (s : World v) (c : Call)
      → (served k (Route.video a) q s).0 ≡ ok c
      → is_open c ≡ false
      → is_blank (drone_of c) ≡ false
      → IsAllowed k q s c
  unfolding guards handler
  video-IsAllowed (VideoRoute.stream_info d host) q s c h closed named =
      for_the_owner k q s c (Route.video (VideoRoute.stream_info d host)) d refl h named
        (λ n. rw n refl) (λ u. tt) (λ u. refl) (λ u. refl)
  video-IsAllowed (VideoRoute.playlist d) q s c h closed named =
      for_the_owner k q s c (Route.video (VideoRoute.playlist d)) d refl h named (λ n. rw n refl)
        (λ u. tt) (λ u. refl) (λ u. refl)
  video-IsAllowed (VideoRoute.live_mp4 d) q s c h closed named =
      for_the_owner k q s c (Route.video (VideoRoute.live_mp4 d)) d refl h named (λ n. rw n refl)
        (λ u. tt) (λ u. refl) (λ u. refl)
  video-IsAllowed (VideoRoute.segment d file) q s c h closed named =
      for_the_owner k q s c (Route.video (VideoRoute.segment d file)) d refl h named
        (λ n. rw n refl) (λ u. tt) (λ u. refl) (λ u. refl)
  video-IsAllowed (VideoRoute.whep method d) q s c h closed named =
      for_the_owner k q s c (Route.video (VideoRoute.whep method d)) d refl h named (λ n. rw n refl)
        (λ u. tt) (λ u. refl) (λ u. refl)
  video-IsAllowed VideoRoute.whep_options q s c h closed named =
      absurd (not_open k (Route.video VideoRoute.whep_options) q s c h closed refl (λ o. refl))

  -- A request reaches a method that is not open to all only with a token that verifies and names a
  -- row of the users; the method acts for that row's account, and is one for administrators only if
  -- that row is one's. If the method is about a drone, which has a name since Nest's router matches
  -- no empty part of a path, then the account is an administrator's or the drone's row names it as
  -- its owner.
  pub served-IsAllowed :
      (r : Route) (q : Request) (s : World v) (c : Call)
      → (served k r q s).0 ≡ ok c
      → is_open c ≡ false
      → is_blank (drone_of c) ≡ false
      → IsAllowed k q s c
  unfolding guards handler
  served-IsAllowed Route.hello q s c h closed named =
      absurd (not_open k Route.hello q s c h closed refl (λ o. refl))
  served-IsAllowed (Route.register_drone dto) q s c h closed named =
      absurd (not_open k (Route.register_drone dto) q s c h closed refl (λ o. refl))
  served-IsAllowed (Route.auth a) q s c h closed named = auth-IsAllowed a q s c h closed named
  served-IsAllowed (Route.dashboard a) q s c h closed named =
      dashboard-IsAllowed a q s c h closed named
  served-IsAllowed (Route.telemetry a) q s c h closed named =
      telemetry-IsAllowed a q s c h closed named
  served-IsAllowed (Route.video a) q s c h closed named = video-IsAllowed a q s c h closed named
