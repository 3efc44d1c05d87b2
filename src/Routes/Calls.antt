-- ===== src/Routes/Calls.antt =====
-- The methods that the controllers of drone-fleet-manager/src call, and what they are about.
use vdt_provisioning_service.Prelude.{String, ◌≡◌, Bool, true, false, Option, none, some, ◌==◌}
use vdt_provisioning_service.Auth.{Account}
use vdt_provisioning_service.Routes.{Call}

-- Methods for which no account is asked.
abbrev pub is_open : Call → Bool
is_open Call.get_hello = true
is_open Call.no_content = true
is_open (Call.register dto) = true
is_open (Call.login dto) = true
is_open (Call.register_device dto) = true
is_open _ = false

abbrev pub is_for_admins : Call → Bool
is_for_admins Call.get_ip_pool_matrix = true
is_for_admins Call.get_live_peers = true
is_for_admins Call.get_system_config = true
is_for_admins (Call.create_manual_device body) = true
is_for_admins _ = false

-- The drone that a method tells of.
abbrev pub drone_of : Call → Option String
drone_of (Call.get_stream_info d) = some d
drone_of (Call.get_device_state d) = some d
drone_of (Call.get_stream_endpoints d host) = some d
drone_of (Call.proxy_media_request d file) = some d
drone_of (Call.proxy_whep_request d method) = some d
drone_of _ = none

abbrev pub is_blank : Option String → Bool
is_blank none = false
is_blank (some d) = d == ""

-- On whose behalf a method is called: `none` where it takes no account.
abbrev pub ActsFor : Call → Account → Type 0
ActsFor (Call.get_profile i) u = i ≡ u.id
ActsFor (Call.claim_drone i d) u = i ≡ u.id
ActsFor (Call.get_overview_stats o) u = o ≡ some u
ActsFor (Call.get_fleet o) u = o ≡ some u
ActsFor (Call.get_all_fleet_states o) u = o ≡ some u
ActsFor _ u = Unit
