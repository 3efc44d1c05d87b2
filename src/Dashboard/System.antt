-- ===== src/Dashboard/System.antt =====
-- drone-fleet-manager/src/dashboard/dashboard.service.ts: manual devices, the configuration, and the
-- addresses of a stream.
use Prim.Native.String.{count}
use vdt_provisioning_service.Prelude.{
  ◌-◌, String, ◌≡◌, inl, inr, sym, Option, none, some, ◌==◌, ltb, or_else, Bool-cases,
  if◌then◌else◌,
}
use vdt_provisioning_service.Prelude.Text.{append, trim, take, substring}
use vdt_provisioning_service.Prelude.Effect.{Act, ok, bad_request, throw, ok-ne-err}
use vdt_provisioning_service.Services.{Services, World, setting}
use vdt_provisioning_service.Services.Tables.{Device}
use vdt_provisioning_service.IpPool.{subnet}
use vdt_provisioning_service.Mavlink.Access.{false-ne-true}
use vdt_provisioning_service.Device.Laws.{devices}
use vdt_provisioning_service.Device.Identity.{find_or_create_manual_device}
use vdt_provisioning_service.Device.Identity.Laws.{IsKeyed}
use vdt_provisioning_service.Device.Identity.Moves.{IsBound}
use vdt_provisioning_service.Device.Identity.Binding.{bind_or_update_device_identity-IsBound}

pub record ManualDevice : Type 0 where
  pub device_id : String
  pub vpn_ip : String
  pub hardware_model : Option String
  pub vpn_public_key : Option String

pub record SystemConfig : Type 0 where
  pub provision_secret_token : String
  pub masked_token : String
  pub server_endpoint : String
  pub mavlink_host : String
  pub mavlink_port : String
  pub subnet_prefix : String

pub record StreamInfo : Type 0 where
  pub device_id : String
  pub stream_path : String
  pub whep_endpoint : String
  pub hls_url : String
  pub http_stream_url : String
  pub ws_endpoint : String
  pub rtsp_internal_url : String

-- `s?.trim() || d`
abbrev pub trimmed_or : Option String → String → String
trimmed_or none d = d
trimmed_or (some s) d = if trim s == "" then d else trim s

abbrev pub masked : String → String
masked token =
    if ltb 6 (count token)
    then append (take 3 token) (append "***" (substring (count token - 3) token))
    else "***"

abbrev pub get_system_config : Services → SystemConfig
get_system_config v =
    let token = setting v "PROVISION_SECRET_TOKEN" "FACTORY_SECRET_KEY_2026" in
    record {
      provision_secret_token = token;
      masked_token = masked token;
      server_endpoint = setting v "WG_SERVER_ENDPOINT" "103.253.20.32:10006";
      mavlink_host = setting v "MAVLINK_TARGET_HOST" "10.13.37.1";
      mavlink_port = setting v "MAVLINK_TARGET_PORT" "14551";
      subnet_prefix = subnet v;
    }

-- A URL below the public gateway.
abbrev pub below : String → String → String → String → String → String
below scheme host port path last =
    append scheme (append host (append ":" (append port (append path last))))

abbrev pub get_stream_info : Services → String → StreamInfo
get_stream_info v device_id =
    let id = trim device_id in
    let host = or_else (v.config "VPS_PUBLIC_IP") "127.0.0.1" in
    let port = or_else (v.config "PORT") "10004" in
    let video = append "/api/v1/video/" id in
    record {
      device_id = id;
      stream_path = append "live/" id;
      whep_endpoint = below "http://" host port video "/whep";
      hls_url = below "http://" host port video "/index.m3u8";
      http_stream_url = below "http://" host port video "/live.mp4";
      ws_endpoint = below "ws://" host port "/socket.io/" "";
      rtsp_internal_url =
          below "rtsp://" "10.13.37.1" (or_else (v.config "INTERNAL_MTX_RTSP_PORT") "8554") "/live/"
            id;
    }

module _ {v : Services} where
  -- The `data` of the answer; `none` is the null of an identity that is blank.
  unfoldable pub create_manual_device : ManualDevice → Act (World v) (Option Device)
  create_manual_device dto =
      if trim dto.device_id == ""
      then throw bad_request
      else if trim dto.vpn_ip == ""
      then throw bad_request
      else find_or_create_manual_device (trim dto.device_id) (trim dto.vpn_ip)
          (trimmed_or dto.vpn_public_key "MANUAL_PUBLIC_KEY")
          (trimmed_or dto.hardware_model "Manual Configured Drone")

  -- Where row ids are the primary key, a row that is returned for a manual device is in the table
  -- under the trimmed identity, at the trimmed address.
  pub create_manual_device-IsBound :
      (dto : ManualDevice) (w : World v) (d : Device)
      → IsKeyed (devices w)
      → (create_manual_device dto w).0 ≡ ok (some d)
      → IsBound
          (trim (trim dto.device_id))
          (trim dto.vpn_ip)
          (devices (create_manual_device dto w).1)
          d
        × (d.vpn_ip ≡ some (trim dto.vpn_ip))
  unfolding create_manual_device find_or_create_manual_device
  create_manual_device-IsBound dto w d keyed h = elim (Bool-cases (trim dto.device_id == "")) [
    | inl e ↦ absurd (ok-ne-err (sym (rw e at h)))
    | inr e ↦ elim (Bool-cases (trim dto.vpn_ip == "")) [
      | inl f ↦ absurd (ok-ne-err (sym (rw (e, f) at h)))
      | inr f ↦
          let bound =
            bind_or_update_device_identity-IsBound w (trim dto.device_id) (trim dto.vpn_ip) _ d
              keyed (rw (e, f) at h) in
          rw (e, f)
            (
              bound,
              elim bound.at [
                | inl blank ↦ absurd (false-ne-true (sym (rw blank at f)))
                | inr at ↦ at
              ],
            )
    ]
  ]
