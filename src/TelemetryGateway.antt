-- ===== src/TelemetryGateway.antt =====
-- drone-fleet-manager/src/telemetry/telemetry.gateway.ts: rooms of browsers, and who is sent what.
pub mod Rooms
pub mod Seats
pub mod Viewers
pub mod Broadcast
mod Tests
use vdt_provisioning_service.Prelude.{
  ℕ, ◌-◌, String, Bool, true, false, not, Option, none, some, List, [], ◌∷◌, ◌++◌, ◌==◌, ◌&&◌, ltb,
  leb, eqb, add, discard, if◌then◌else◌,
}
use vdt_provisioning_service.Prelude.Map
use vdt_provisioning_service.Prelude.Map.{Map}
use vdt_provisioning_service.Prelude.Text.{append}
use vdt_provisioning_service.Prelude.Effect.{Act, Result, ok, err, pure, ◌>>=◌}
use vdt_provisioning_service.Services.{Services, World}
use vdt_provisioning_service.Services.Tables.{Device}
use vdt_provisioning_service.RedisService.{add_focus_drone, remove_focus_drone}
use vdt_provisioning_service.Device.{find_by_device_id}
use vdt_provisioning_service.Auth.{Crypto, Payload}
use vdt_provisioning_service.Auth.Guards.{or_text}
use vdt_provisioning_service.Mavlink.{token_of, owns}
use Rooms.{Adapter}

-- Where a socket may carry its token.
pub record Credentials : Type 0 where
  pub auth_token : Option String
  pub query_token : Option String
  pub authorization : Option String
  pub header_token : Option String

-- `client.data`
pub record Session : Type 0 where
  pub user : Payload
  pub focused_drones : List String

pub record Hub (v : Services) (a : Adapter) : Type 0 where
  pub world : World v
  pub rooms : a.Rooms
  pub session_of : Map Session
  pub device_owner_cache : Map (Option String)
  pub last_cache_check : Map ℕ

pub data Reply : Type 0 where
  no_reply denied : Reply
  subscribed unsubscribed : String → Reply

abbrev pub drone_room : String → String
drone_room device_id = append "drone:" device_id

abbrev pub user_room : String → String
user_room user_id = append "user:" user_id

abbrev pub credential : Credentials → Option String
credential c = or_text c.auth_token (or_text c.query_token (or_text c.authorization c.header_token))

-- `dev?.userId || null`
abbrev pub owner_id : Option Device → Option String
owner_id none = none
owner_id (some d) = elim d.user_id [ none ↦ none | some u ↦ if u == "" then none else some u ]

-- The room of an owner, if there is one.
abbrev pub owner_rooms : Option String → List String
owner_rooms none = []
owner_rooms (some u) = if u == "" then [] else user_room u ∷ []

abbrev pub or_never : Option ℕ → ℕ
or_never none = 0
or_never (some t) = t

abbrev pub unfocus : String → String → Option Session → Map Session → Map Session
unfocus client device_id none m = m
unfocus client device_id (some s) m =
    Map.set m client (record s { focused_drones = discard s.focused_drones device_id })

module _ {v : Services} where
  -- The role, or the owner of the drone's row.
  unfoldable pub may_view : String → Payload → Act (World v) Bool
  may_view device_id p =
      if p.role == "ADMIN"
      then pure true
      else (find_by_device_id device_id >>= λ d. pure (owns p.sub d))

module _ {v : Services} {a : Adapter} where
  abbrev pub join : String → String → Hub v a → Hub v a
  join client room h = record h { rooms = a.join client room h.rooms }

  opened : String → Option Payload → Hub v a → Hub v a
  opened client none h = h
  opened client (some p) h =
      let known : Hub v a = record h {
        session_of = Map.set h.session_of client (record { user = p; focused_drones = [] });
      } in
      if p.role == "ADMIN"
      then join client "all" (join client "admin" known)
      else join client (user_room p.sub) known

  -- A socket without a good token stays connected, without a user.
  unfoldable pub handle_connection : Crypto → String → Credentials → Hub v a → Hub v a
  unfolding opened
  handle_connection k client c h =
      let token = token_of (credential c) in
      if token == "" then h else opened client (k.verify h.world.now token) h

  unfoldable pub drop_focus : List String → Hub v a → Hub v a
  drop_focus [] h = h
  drop_focus (d ∷ ds) h = drop_focus ds (
      if leb (a.size h.rooms (drone_room d)) 1
      then record h { world = (remove_focus_drone d h.world).1 }
      else h)

  unfoldable pub forgotten : Option Session → Hub v a → Hub v a
  forgotten none h = h
  forgotten (some s) h = drop_focus s.focused_drones h

  -- Nest calls it on socket.io's `disconnect`, which comes after the socket has left its rooms.
  unfoldable pub handle_disconnect : String → Hub v a → Hub v a
  unfolding forgotten
  handle_disconnect client h = forgotten (Map.get h.session_of client) h

  abbrev pub set_device_owner_cache : String → Option String → Hub v a → Hub v a
  set_device_owner_cache device_id user_id h = record h {
    device_owner_cache = Map.set h.device_owner_cache device_id user_id;
    last_cache_check = Map.set h.last_cache_check device_id h.world.now;
  }

  unfoldable pub focus : String → String → Session → Hub v a → Reply × Hub v a
  focus client device_id s h =
      let joined = join client (drone_room device_id) h in
      (
        subscribed (drone_room device_id),
        record joined {
          session_of =
              Map.set h.session_of client
                (record s { focused_drones = add s.focused_drones device_id });
          world = (add_focus_drone device_id h.world).1;
        },
      )

  unfoldable pub allowed : String → String → Session → Result Bool → Hub v a → Reply × Hub v a
  unfolding focus
  allowed client device_id s (ok true) h = focus client device_id s h
  allowed client device_id s (ok false) h = (denied, h)
  allowed client device_id s (err e) h = (no_reply, h)

  unfoldable pub subscribing : String → String → Option Session → Hub v a → Reply × Hub v a
  unfolding allowed
  subscribing client device_id none h = (denied, h)
  subscribing client device_id (some s) h =
      let check = may_view device_id s.user h.world in
      allowed client device_id s check.0 (record h { world = check.1 })

  unfoldable pub handle_subscribe_drone : String → String → Hub v a → Reply × Hub v a
  unfolding subscribing
  handle_subscribe_drone client device_id h =
      if device_id == ""
      then (no_reply, h)
      else subscribing client device_id (Map.get h.session_of client) h

  unfoldable pub handle_unsubscribe_drone : String → String → Hub v a → Reply × Hub v a
  handle_unsubscribe_drone client device_id h =
      let left : Hub v a = record h {
        rooms = a.leave client (drone_room device_id) h.rooms;
        session_of = unfocus client device_id (Map.get h.session_of client) h.session_of;
      } in
      if device_id == "" then (no_reply, h) else (
        unsubscribed (drone_room device_id),
        if eqb (a.size left.rooms (drone_room device_id)) 0
            then record left { world = (remove_focus_drone device_id h.world).1 }
            else left,
      )

  subscribed_all : String → Option Session → Hub v a → Reply × Hub v a
  subscribed_all client none h = (denied, h)
  subscribed_all client (some s) h =
      if s.user.role == "ADMIN"
      then (subscribed "admin", join client "all" (join client "admin" h))
      else (denied, h)

  unfoldable pub handle_subscribe_all : String → Hub v a → Reply × Hub v a
  unfolding subscribed_all
  handle_subscribe_all client h = subscribed_all client (Map.get h.session_of client) h

  unfoldable pub looked_up : String → Result (Option Device) → Hub v a → List String × Hub v a
  looked_up device_id (err e) h = ([], h)
  looked_up device_id (ok d) h = (
    owner_rooms (owner_id d),
    record h { device_owner_cache = Map.set h.device_owner_cache device_id (owner_id d) },
  )

  -- The query for the owner, and what its callback does.
  unfoldable pub look_up : String → Hub v a → List String × Hub v a
  unfolding looked_up
  look_up device_id h =
      let found = find_by_device_id device_id h.world in
      looked_up device_id found.0 (record h {
        last_cache_check = Map.set h.last_cache_check device_id h.world.now;
        world = found.1;
      })

  unfoldable pub to_owner : String → Option (Option String) → Hub v a → List String × Hub v a
  to_owner device_id none h = look_up device_id h
  to_owner device_id (some none) h =
      if ltb 5000 (h.world.now - or_never (Map.get h.last_cache_check device_id))
      then look_up device_id h
      else ([], h)
  to_owner device_id (some (some u)) h = (owner_rooms (some u), h)

  -- The rooms that get the telemetry of a drone, in the order of the emits.
  unfoldable pub broadcast_telemetry : String → Hub v a → List String × Hub v a
  unfolding to_owner
  broadcast_telemetry device_id h =
      let owned = to_owner device_id (Map.get h.device_owner_cache device_id) h in
      if device_id == "" then ([], h) else (drone_room device_id ∷ "admin" ∷ owned.0, owned.1)
