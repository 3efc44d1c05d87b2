-- ===== src/Lib.antt =====
-- A verification library of the drone fleet manager (drone-fleet-manager/src), the NestJS server that
-- hands out VPN addresses and keys to drones, keeps the table of devices, knows the accounts that
-- own them, relays telemetry and MAVLink bytes between drones, pilots and browsers, and shows the
-- fleet on a dashboard.
--
-- The parts, and how they interact.
--   Provisioning (provisioning/provisioning.service.ts) takes the registration of a drone: it asks
--   the IP pool for an address, WireGuard for a key pair and a kernel peer, and the device service
--   for a row, and undoes the peer if a later step fails. A device with a row gets new keys instead.
--   At start-up it puts the peers of the table back into the kernel, and the peers of the kernel into
--   the table. The device service writes the map of addresses in Redis beside the table. Accounts own
--   devices: the guards, the MAVLink relay and the telemetry gateway all ask the table who owns a
--   drone. The two gateways keep the set drone:focus_set of Redis, which tells another service which
--   drones to stream at the full rate. The telemetry service takes the payloads that come back through
--   Redis, fills up the short ones from its cache, has the telemetry gateway broadcast them, and enters
--   drones it has not seen in the table; its sweep marks silent drones as offline, and its queries join
--   the cache with the table for the dashboard. The web terminal opens SSH connections to the drones,
--   and the video service passes requests on to a media server. The page of the browser gathers the
--   payloads that the telemetry gateway sends, and shows the last of each drone once per frame.
--
-- Which file models what, by paths from the repository's root below drone-fleet-manager/src:
--   Provisioning.antt          provisioning/provisioning.service.ts, the handlers; theorems in Gate
--                              (refusals), New, Rollback, Steps, Rotation
--   Provisioning/Startup.antt  provisioning/provisioning.service.ts, onModuleInit; theorems in
--                              Startup/Restore and Startup/Laws
--   IpPool.antt                ip-pool/ip-pool.service.ts; theorems in IpPool/Allocation
--   Wireguard.antt             wireguard/wireguard.service.ts; theorems in Wireguard/Laws and /Dump
--   Device.antt                device/device.service.ts; theorems in Device/Laws
--   Device/Identity.antt       device/device.service.ts, syncManualKernelPeer and
--                              bindOrUpdateDeviceIdentity; theorems in Identity/Laws, /Moves, /Binding
--   RedisService.antt          redis/redis.service.ts; theorems in RedisService/Laws; the clients and
--                              their events in RedisService/Connection
--   Auth.antt, Auth/Guards     auth/auth.service.ts, auth/jwt.strategy.ts, auth/guards; theorems in
--                              Auth/Accounts and Auth/Claims
--   Routes.antt                the controllers of every folder with their guards: which request reaches
--                              which method; theorems in Login, Passing and Access
--   Mavlink.antt               telemetry/mavlink-relay.gateway.ts; theorems in Mavlink/Access (who may
--                              control a drone), Mavlink/Focus and Mavlink/Runs (event sequences)
--   Mavlink/Listener           the same file: when the handler of the raw bytes is attached
--   TelemetryGateway.antt      telemetry/telemetry.gateway.ts; theorems in Viewers and Broadcast
--   Telemetry.antt             telemetry/telemetry.service.ts, normalisation; theorems in Normalize
--   Telemetry/Monitor          the same file: messages, sweep, start; theorems in Sweeper, Losses,
--                              Discovery and Runs (event sequences)
--   Telemetry/Fleet, Snapshot  the same file: the snapshot of the fleet; with Queries, where
--   and Queries                fetchRawFleetFromStorage and getDeviceState are; theorems in Ownership
--                              and State
--   Telemetry/Flight           the same file: getAllFleetStates as a machine of requests that wait for
--                              one fetch; theorems in Flight/Laws and Flight/Answers
--   Dashboard.antt             dashboard/dashboard.service.ts, the overview, the fleet, the matrix of
--                              addresses; theorems in Dashboard/Fleet and Dashboard/Matrix
--   Dashboard/System           the same file: manual devices, configuration, stream addresses
--   WebSsh.antt                web-ssh/web-ssh.service.ts, and WebSsh/Gateway web-ssh/web-ssh.gateway.ts;
--                              theorems in Access and Routing (who gets which connection), Ownership
--                              and Sessions (event sequences)
--   Video.antt                 video/video.service.ts and video/video.gateway.ts
--   Browser.antt               in drone-fleet-manager/public/js: telemetry/render-queue.js, isDroneOnline
--                              of core/api.js and removeDroneFromMap of telemetry/map-controller.js;
--                              theorems in Queue, Frames, Fleet and Trails
--   Browser/Watchdog           the same folder: video/video-recovery.js, the watchdog of updateFpvStats
--   Browser/Player             the same folder: video/video-controls.js, video/video-webrtc.js,
--                              video/video-hls.js, the probing of video/video-recovery.js and the video
--                              fields of core/state.js, as a machine of events; the jumps to the live edge
--                              in Player/HardSeek, the button in Player/Controls; theorems in Tidy,
--                              Faithful, Replies, Calm, Stale, Leaks and Rooms
--   Browser/Sdp                sanitizeWhepAnswerSdp of video/video-webrtc.js; theorems in Sdp/Lines
--   Services, and below it     what the program uses and does not implement (see next)
--   Prelude, and below it      lists, maps, texts, actions that keep the written state beside an error
-- A function keeps its name in snake_case; a method of several steps has helpers of its own for them.
--
-- What is not under drone-fleet-manager is a parameter: the tables and the Prisma client
-- (Services.Tables), the wg command and the kernel behind it (Services.Commands), Redis
-- (Services.Store), the environment (a function), bcryptjs and @nestjs/jwt (Auth.Crypto), the rooms
-- of socket.io (TelemetryGateway.Rooms). JSON.parse and encodeURIComponent are function arguments, the
-- measured numbers of a payload are of any type, and a client of ssh2 is a number with events. Each
-- service is a record of operations with the laws that its
-- documentation states. A read may fail, a write that fails has written nothing, and in what order a
-- query returns rows is left open. Services.Memory, Auth.Memory and TelemetryGateway.Seats have
-- concrete instances, on which every theorem is applied.
--
-- An exception keeps what was written before it (Prelude.Effect). Failures go by the name of the HTTP
-- exception; their texts and the log messages are left out, as are fixed fields of an answer such as
-- status: 'success'. A request reads the clock once. Texts are ASCII, and a number that is parsed
-- has no sign. The sign of a difference matters nowhere: a subtraction stops at 0 where the code
-- compares the difference with a positive bound.
--
-- Bounds: the search for an address has one round for each of the 253 addresses from .2 to .254;
-- a number is printed with as much fuel as its value, which is at least its count of digits.
--
-- In the telemetry service an object that is shared between the cache and a snapshot is followed by
-- the key of its entry, so that a mark on the one is a mark on the other. A fetch under way is a flag
-- with the list of the requests that wait; its end is an event.
--
-- The video player of the browser keeps its connection to the server: the server forgets the rooms of a
-- socket that drops. The player is given events that the browser's API allows: setRemoteDescription of
-- a connection that has been closed throws, a closed connection has no tracks and a destroyed player of
-- hls.js has no events. Nest's router calls no handler for a path with an empty part.
--
-- Not modelled: the validation of request bodies and the modules (declarations for NestJS), the
-- connection life cycle of Prisma, the HTTP streams of the video proxy, and of the pages of the browser
-- what is painted, their requests over HTTP, their login screens, and of their video players the
-- snapshots, the full screen and the figures that are shown.
mod Prelude
pub mod Services
pub mod RedisService
pub mod Wireguard
pub mod Device
pub mod IpPool
pub mod Provisioning
pub mod Auth
pub mod Mavlink
pub mod TelemetryGateway
pub mod Telemetry
pub mod Dashboard
pub mod WebSsh
pub mod Video
pub mod Routes
pub mod Browser
