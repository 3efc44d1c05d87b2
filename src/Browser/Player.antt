-- ===== src/Browser/Player.antt =====
-- drone-fleet-manager/public/js/video: the player of a drone's video, from video-controls.js,
-- video-webrtc.js, video-hls.js and video-recovery.js. Each function that awaits leaves a task, and
-- what it does when it goes on is an event. Peer connections and players of hls.js have numbers. The
-- page has its elements, and a socket that stays connected; what is only shown, and the counters of Watchdog, are left out.
pub mod Tidy
pub mod Faithful
pub mod Replies
pub mod Calm
pub mod Stale
pub mod Leaks
pub mod Rooms
pub mod Tasks
pub mod HardSeek
pub mod Controls
mod Tests
use vdt_provisioning_service.Prelude.{
  ℕ, ◌+◌, String, Bool, true, false, not, Option, none, some, List, [], ◌∷◌, ◌==◌, ◌&&◌, ◌||◌, eqb,
  map, keep, first, if◌then◌else◌,
}

-- An RTCPeerConnection, of startFpvVideoStream or of a probe. `timer`: the six seconds of the probe
-- have neither passed nor been cancelled.
pub record Connection : Type 0 where
  pub number : ℕ
  pub device_id : String
  pub is_open : Bool
  pub is_probe : Bool
  pub timer : Bool

-- A player of hls.js that was not destroyed.
pub record Hls : Type 0 where
  pub number : ℕ
  pub device_id : String

-- What is under way: the handshake of startFpvVideoStream, the request of startHlsFallbackStream,
-- and the handshake of a probe.
pub data Task : Type 0 where
  handshake : ℕ → String → Task
  stream_info : String → Task
  probe : ℕ → Task

-- What the page tells the server through its socket.
pub data Message : Type 0 where
  subscribe unsubscribe : String → Message

pub record Player : Type 0 where
  pub active_fpv_drone_id : Option String
  pub fpv_peer_connection : Option ℕ
  pub fpv_hls_instance : Option ℕ
  pub fpv_stats_interval : Bool
  -- the drone that the timer of startWebRtcProbing is for
  pub fpv_web_rtc_probe_interval : Option String
  pub is_probing_web_rtc : Bool
  -- the connection whose stream the element shows
  pub src_object : Option ℕ
  pub connections : List Connection
  pub players : List Hls
  pub tasks : List Task
  -- the last one first
  pub sent : List Message
  pub next : ℕ

abbrev pub is_number : Option ℕ → ℕ → Bool
is_number none n = false
is_number (some m) n = eqb m n

-- `pc.close()` and `hls.destroy()` of what a variable holds.
abbrev pub shut : Option ℕ → Connection → Connection
shut o c = if is_number o c.number then record c { is_open = false } else c

abbrev pub destroy : Option ℕ → List Hls → List Hls
destroy o = keep (λ h. not (is_number o h.number))

abbrev pub farewell : Option String → List Message → List Message
farewell none ms = ms
farewell (some d) ms = if d == "" then ms else unsubscribe d ∷ ms

unfoldable pub close_fpv_video_stream : Player → Player
close_fpv_video_stream p = record p {
  active_fpv_drone_id = none;
  fpv_peer_connection = none;
  fpv_hls_instance = none;
  fpv_stats_interval = false;
  fpv_web_rtc_probe_interval = none;
  is_probing_web_rtc = false;
  src_object = none;
  connections = map (shut p.fpv_peer_connection) p.connections;
  players = destroy p.fpv_hls_instance p.players;
  sent = farewell p.active_fpv_drone_id p.sent;
}

abbrev pub begin : Task → Player → Player
begin t p = record p { tasks = t ∷ p.tasks }

-- A new connection, and the task of its handshake.
abbrev pub opened : String → Bool → Task → Player → Player
opened d is_probe t p = record p {
  connections =
      record {
        number = p.next;
        device_id = d;
        is_open = true;
        is_probe = is_probe;
        timer = is_probe;
      }
      ∷ p.connections;
  tasks = t ∷ p.tasks;
  next = p.next + 1;
}

-- `has_web_rtc`: the constructor of RTCPeerConnection does not throw.
unfoldable pub start_fpv_video_stream : String → Bool → Player → Player
start_fpv_video_stream d has_web_rtc p =
    let clean = record (close_fpv_video_stream (record p { active_fpv_drone_id = some d })) {
      active_fpv_drone_id = some d;
    } in
    if d == "" || d == "all"
    then p
    else if has_web_rtc
    then record (opened d false (handshake clean.next d) clean) {
      fpv_peer_connection = some clean.next;
    }
    else begin (stream_info d) clean

abbrev pub is_live : ℕ → List Connection → Bool
is_live n [] = false
is_live n (c ∷ cs) = if eqb c.number n then c.is_open else is_live n cs

abbrev pub same_task : Task → Task → Bool
same_task (handshake n d) (handshake m e) = eqb n m && d == e
same_task (stream_info d) (stream_info e) = d == e
same_task (probe n) (probe m) = eqb n m
same_task _ _ = false

-- A task goes on once.
abbrev pub finish : Task → List Task → List Task
finish t [] = []
finish t (u ∷ ts) = let rest = finish t ts in if same_task t u then ts else u ∷ rest

abbrev pub is_begun : Task → List Task → Bool
is_begun t [] = false
is_begun t (u ∷ ts) = if same_task t u then true else is_begun t ts

-- The end of the handshake: `ok` says that the server took the offer and that no call threw. On a
-- connection that was closed `setRemoteDescription` throws too.
abbrev pub shaken : ℕ → String → Bool → Player → Player
shaken n d ok p =
    if ok && is_live n p.connections
    then record p { sent = subscribe d ∷ p.sent }
    else begin (stream_info d) p

-- What comes of the request for the addresses of the streams.
pub data Info : Type 0 where
  -- it fails; or the browser plays neither
  failed unsupported : Info
  -- hls.js plays, or the browser itself does
  hls_js native : Info

abbrev pub informed : String → Info → Player → Player
informed d failed p = p
informed d unsupported p = record p { sent = subscribe d ∷ p.sent }
informed d native p = record p { sent = subscribe d ∷ p.sent }
informed d hls_js p = record p {
  sent = subscribe d ∷ p.sent;
  fpv_hls_instance = some p.next;
  players = record { number = p.next; device_id = d } ∷ p.players;
  next = p.next + 1;
}

abbrev pub hls_of : ℕ → List Hls → Option Hls
hls_of n = first (λ h. eqb h.number n)

abbrev pub connection_of : ℕ → List Connection → Option Connection
connection_of n = first (λ c. eqb c.number n)

-- MANIFEST_PARSED, with startWebRtcProbing
abbrev pub parsed_by : Option Hls → Player → Player
parsed_by none p = p
parsed_by (some h) p = record p {
  fpv_stats_interval = true;
  fpv_web_rtc_probe_interval = some h.device_id;
}

abbrev pub stop_timer : ℕ → Connection → Connection
stop_timer n c = if eqb c.number n then record c { timer = false } else c

-- `ontrack` of a connection that is open: of a probe, which takes over, or of the first handshake.
abbrev pub tracked : Option Connection → Player → Player
tracked none p = p
tracked (some c) p =
    if not c.is_open
    then p
    else if c.is_probe
    then record p {
      connections = map (λ x. stop_timer c.number (shut p.fpv_peer_connection x)) p.connections;
      players = destroy p.fpv_hls_instance p.players;
      fpv_hls_instance = none;
      fpv_peer_connection = some c.number;
      src_object = some c.number;
      fpv_web_rtc_probe_interval = none;
      is_probing_web_rtc = false;
    }
    else record p { src_object = some c.number; fpv_stats_interval = true }

abbrev pub may_probe : Option ℕ → Bool → Option String → String → Bool
may_probe none probing o d = false
may_probe (some h) probing none d = false
may_probe (some h) probing (some active) d = not probing && not (active == "") && active == d

-- The timer of startWebRtcProbing fires.
abbrev pub ticked : Option String → Bool → Player → Player
ticked none has_web_rtc p = p
ticked (some d) has_web_rtc p =
    if may_probe p.fpv_hls_instance p.is_probing_web_rtc p.active_fpv_drone_id d && has_web_rtc
    then opened d true (probe p.next) (record p { is_probing_web_rtc = true })
    else p

abbrev pub timed_out : Option Connection → Player → Player
timed_out none p = p
timed_out (some c) p = if not c.timer then p else record p {
  connections = map (λ x. stop_timer c.number (shut (some c.number) x)) p.connections;
  is_probing_web_rtc = false;
}

-- The answer to a probe; `none`: a call of its handshake threw.
abbrev pub probed : ℕ → Option Bool → Player → Player
probed n none p = record p { is_probing_web_rtc = false }
probed n (some true) p =
    if is_live n p.connections then p else record p { is_probing_web_rtc = false }
probed n (some false) p = record p {
  connections = map (shut (some n)) p.connections;
  is_probing_web_rtc = false;
}

-- handleWebRtcFrozenRecovery, which updateFpvStats calls with the active drone.
abbrev pub recovered : Option String → Bool → Player → Player
recovered none has_web_rtc p = p
recovered (some d) has_web_rtc p = start_fpv_video_stream d has_web_rtc p

pub data Event : Type 0 where
  start : String → Bool → Event
  close : Event
  freeze tick : Bool → Event
  answer : ℕ → String → Bool → Event
  info : String → Info → Event
  parsed track timeout : ℕ → Event
  probe_answer : ℕ → Option Bool → Event

unfoldable pub on_event : Event → Player → Player
on_event (start d w) p = start_fpv_video_stream d w p
on_event close p = close_fpv_video_stream p
on_event (freeze w) p = recovered p.active_fpv_drone_id w p
on_event (tick w) p = ticked p.fpv_web_rtc_probe_interval w p
on_event (answer n d ok) p =
    if is_begun (handshake n d) p.tasks
    then shaken n d ok (record p { tasks = finish (handshake n d) p.tasks })
    else p
on_event (info d i) p =
    if is_begun (stream_info d) p.tasks
    then informed d i (record p { tasks = finish (stream_info d) p.tasks })
    else p
on_event (parsed n) p = parsed_by (hls_of n p.players) p
on_event (track n) p = tracked (connection_of n p.connections) p
on_event (timeout n) p = timed_out (connection_of n p.connections) p
on_event (probe_answer n r) p =
    if is_begun (probe n) p.tasks
    then probed n r (record p { tasks = finish (probe n) p.tasks })
    else p

unfoldable pub run : List Event → Player → Player
run [] p = p
run (e ∷ es) p = run es (on_event e p)

-- The page as it is loaded.
abbrev pub loaded : Player
loaded = record {
  active_fpv_drone_id = none;
  fpv_peer_connection = none;
  fpv_hls_instance = none;
  fpv_stats_interval = false;
  fpv_web_rtc_probe_interval = none;
  is_probing_web_rtc = false;
  src_object = none;
  connections = [];
  players = [];
  tasks = [];
  sent = [];
  next = 0;
}
