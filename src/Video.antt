-- ===== src/Video.antt =====
-- drone-fleet-manager/src/video: video.service.ts, the addresses of a stream and the paths of the
-- proxy, and video.gateway.ts, the rooms. `encode` is `encodeURIComponent`; a request to MediaMTX
-- goes by its host, port, method and path, and its answer is a parameter.
mod Tests
use Prim.Native.Char.{Char, code}
use Prim.Native.String
use Prim.Native.String.{[], ◌∷◌}
use vdt_provisioning_service.Prelude.{
  ℕ, String, ◌≡◌, ◌∙◌, refl, Bool, true, false, Option, none, some, ◌==◌, eq_refl, ◌&&◌, eqb,
  eq_iff, or_else, arith, Bool-cases, if◌then◌else◌,
}
use vdt_provisioning_service.Prelude.Text.{append, trim}
use vdt_provisioning_service.Services.{Services, setting}
use vdt_provisioning_service.TelemetryGateway.Rooms.{Adapter}

pub record VideoStreamInfo : Type 0 where
  pub device_id : String
  pub stream_path : String
  pub ws_endpoint : String
  pub http_stream_url : String
  pub hls_url : String
  pub whep_proxy_url : String

-- A request to the server inside: a method, a host, a port and a path.
pub record Upstream : Type 0 where
  pub hostname : String
  pub port : String
  pub path : String
  pub method : String
  pub has_body : Bool

abbrev pub below : String → String → String → String → String
below scheme host path last = append scheme (append host (append path last))

abbrev pub get_stream_endpoints : Services → String → Option String → VideoStreamInfo
get_stream_endpoints v device_id host_header =
    let id = trim device_id in
    let public =
      append (or_else (v.config "VPS_PUBLIC_IP") "127.0.0.1")
        (append ":" (or_else (v.config "PORT") "10004")) in
    let host = or_else host_header public in
    let video = append "/api/v1/video/" id in
    record {
      device_id = id;
      stream_path = append "live/" id;
      ws_endpoint = below "ws://" host "/socket.io/" "";
      http_stream_url = below "http://" host video "/live.mp4";
      hls_url = below "http://" host video "/index.m3u8";
      whep_proxy_url = below "http://" host video "/whep";
    }

-- `s.replace(/^\/+/, '')`
unfoldable pub without_slashes : String → String
without_slashes [] = []
without_slashes (c ∷ s) = let rest = without_slashes s in if eqb (code c) b'/' then rest else c ∷ s

-- From the first question mark on.
unfoldable pub query_of : String → String
query_of [] = []
query_of (c ∷ s) = let rest = query_of s in if eqb (code c) b'?' then c ∷ s else rest

module _ (encode : String → String) where
  abbrev pub media_path : String → String → Option String → String
  media_path device_id file_path url =
      let id = encode (trim device_id) in
      let file = without_slashes file_path in
      append (append "/live/" (append id (if file == "" then "/index.m3u8" else append "/" file)))
        (query_of (or_else url ""))

  abbrev pub whep_path : String → String
  whep_path device_id = append "/live/" (append (encode (trim device_id)) "/whep")

  abbrev pub proxy_media_request :
      Services → String → String → Option String → Option String → Upstream
  proxy_media_request v device_id file_path url method = record {
    hostname = setting v "INTERNAL_MTX_HOST" "127.0.0.1";
    port = setting v "INTERNAL_MTX_HLS_PORT" "8888";
    path = media_path device_id file_path url;
    method = or_else method "GET";
    has_body =
        if or_else method "" == "POST"
        then true
        else if or_else method "" == "PUT"
        then true
        else or_else method "" == "PATCH";
  }

  abbrev pub proxy_whep_request : Services → String → Option String → Upstream
  proxy_whep_request v device_id method = record {
    hostname = setting v "INTERNAL_MTX_HOST" "127.0.0.1";
    port = setting v "INTERNAL_MTX_WHEP_PORT" "8889";
    path = whep_path device_id;
    method = or_else method "POST";
    has_body = true;
  }

-- The status that the client gets: that of the answer, or 502 where there was none and no header
-- was sent yet.
abbrev pub status_of : Bool → Option ℕ → Option ℕ
status_of headers_sent none = if headers_sent then none else some 502
status_of headers_sent (some status) = some status

pub data Reply : Type 0 where
  missing : Reply
  in_room : String → Reply

abbrev pub video_room : String → String
video_room device_id = append "video:" (trim device_id)

module _ (a : Adapter) where
  unfoldable pub handle_subscribe_video : String → String → a.Rooms → Reply × a.Rooms
  handle_subscribe_video client device_id r =
      if device_id == ""
      then (missing, r)
      else (in_room (video_room device_id), a.join client (video_room device_id) r)

  unfoldable pub handle_unsubscribe_video : String → String → a.Rooms → Reply × a.Rooms
  handle_unsubscribe_video client device_id r =
      if device_id == ""
      then (missing, r)
      else (in_room (video_room device_id), a.leave client (video_room device_id) r)

  -- Whether a socket gets a chunk of the video of a drone.
  abbrev pub broadcast_video_chunk : String → a.Rooms → String → Bool
  broadcast_video_chunk device_id r client =
      if device_id == "" then false else a.inside r (video_room device_id) client

  -- Any socket that subscribes to a drone with an identity gets its video from then on, without a
  -- token and whoever owns the drone, and no longer after it has unsubscribed; what another socket
  -- gets stays the same.
  pub handle_subscribe_video_lem :
      (client device_id other : String) (r : a.Rooms)
      → (device_id == "") ≡ false
      → (client == other) ≡ false
      → let joined : a.Rooms = (handle_subscribe_video client device_id r).1 in
        let left : a.Rooms = (handle_unsubscribe_video client device_id joined).1 in
        (broadcast_video_chunk device_id joined client ≡ true)
        × (broadcast_video_chunk device_id left client ≡ false)
        × (broadcast_video_chunk device_id joined other ≡ broadcast_video_chunk device_id r other)
        × (broadcast_video_chunk device_id left other ≡ broadcast_video_chunk device_id r other)
  unfolding handle_subscribe_video handle_unsubscribe_video
  handle_subscribe_video_lem client device_id other r named apart =
      let room = video_room device_id in
      let joined = a.join client room r in
      let same = a.join_inside client room r room other ∙ rw (eq_refl room, apart) refl in
      rw (named) (
        a.join_inside client room r room client ∙ rw (eq_refl room, eq_refl client) refl,
        a.leave_inside client room joined room client ∙ rw (eq_refl room, eq_refl client) refl,
        same,
        a.leave_inside client room joined room other ∙ rw (eq_refl room, apart) same,
      )
