-- ===== src/Mavlink.antt =====
-- drone-fleet-manager/src/telemetry/mavlink-relay.gateway.ts: the relay between pilots and drones.
-- A socket is its id. What the gateway asks of the Redis subscriber is a list of requests, newest
-- first; their callbacks are events of their own.
pub mod Access
pub mod Focus
pub mod Runs
pub mod Listener
mod Tests
use vdt_provisioning_service.Prelude.{
  ℕ, String, ◌≡◌, ◌≢◌, Bool, true, false, not, Option, none, some, List, [], ◌∷◌, ◌==◌, ◌&&◌,
  is_text, non_empty, eqb, length, keep, contains, add, discard, if◌then◌else◌,
}
use vdt_provisioning_service.Prelude.Map
use vdt_provisioning_service.Prelude.Map.{Map}
use vdt_provisioning_service.Prelude.Text.{append, substring, starts_with}
use vdt_provisioning_service.Prelude.Effect.{Act, ok, err, pure, catch, ◌>>=◌}
use vdt_provisioning_service.Services.{Services, World}
use vdt_provisioning_service.Services.Tables.{Device}
use vdt_provisioning_service.RedisService.{add_focus_drone, remove_focus_drone}
use vdt_provisioning_service.Device.{find_by_device_id}
use vdt_provisioning_service.Auth.{Crypto, Payload}
use vdt_provisioning_service.Auth.Guards.{or_text}

pub record Handshake : Type 0 where
  pub query_drone_id : Option String
  pub header_drone_id : Option String
  pub query_token : Option String
  pub authorization : Option String
  pub header_token : Option String

pub data Request : Type 0 where
  subscribe unsubscribe : String → Request

-- `client.data`
pub record ClientData : Type 0 where
  pub drone_id : String
  pub user : Payload

pub record Relay (v : Services) : Type 0 where
  pub world : World v
  pub drone_clients : Map (List String)
  pub subscribed_raw_channels : List String
  pub requests : List Request
  -- whether `getSubscriber()` returns one
  pub has_subscriber : Bool
  pub data_of : Map ClientData
  -- the sockets that were sent an error and disconnected
  pub refused : List String

abbrev pub raw_full_channel : String → String
raw_full_channel drone_id = append "channel:drone:raw:full:" drone_id

abbrev pub strip_bearer : String → String
strip_bearer t = if starts_with "Bearer " t then substring 7 t else t

-- The token of a handshake; the empty text stands for none.
abbrev pub token_of : Option String → String
token_of none = ""
token_of (some t) = strip_bearer t

abbrev pub raw_token : Handshake → Option String
raw_token hs = or_text hs.query_token (or_text hs.authorization hs.header_token)

abbrev pub drone_id_of : Option String → String
drone_id_of none = ""
drone_id_of (some d) = d

-- `!device || device.userId !== payload.sub`, negated
abbrev pub owns : String → Option Device → Bool
owns sub none = false
owns sub (some d) = is_text d.user_id sub

abbrev pub members : Option (List String) → List String
members none = []
members (some cs) = cs

-- The drone that a channel of raw bytes belongs to; the empty text for another channel.
unfoldable pub drone_of_channel : String → String
drone_of_channel channel =
    if starts_with "channel:drone:raw:full:" channel
    then substring 23 channel
    else if starts_with "channel:drone:raw:lite:" channel
    then substring 23 channel
    else ""

-- `device && device.vpnIp && this.udpSocket`: where the datagram goes
abbrev pub uplink_target : Bool → Option Device → Option String
uplink_target has_udp none = none
uplink_target has_udp (some d) = if has_udp then non_empty d.vpn_ip else none

module _ {v : Services} where
  abbrev pub clients_of : Relay v → String → List String
  clients_of r drone_id = members (Map.get r.drone_clients drone_id)

  abbrev refuse : String → Relay v → Relay v
  refuse client r = record r { refused = client ∷ r.refused }

  -- The role, or the owner of the drone's row; a failed query refuses.
  unfoldable pub may_control : String → Payload → Act (World v) Bool
  may_control drone_id p =
      if p.role == "ADMIN"
      then pure true
      else catch (find_by_device_id drone_id >>= λ d. pure (owns p.sub d)) (λ _. pure false)

  -- `subscriber.subscribe(…)` unless there is no subscriber or the channel is on already.
  abbrev subscribe_raw : String → Relay v → Relay v
  subscribe_raw drone_id r =
      if r.has_subscriber && not (contains r.subscribed_raw_channels (raw_full_channel drone_id))
      then record r { requests = subscribe (raw_full_channel drone_id) ∷ r.requests }
      else r

  abbrev unsubscribe_raw : String → Relay v → Relay v
  unsubscribe_raw drone_id r =
      if r.has_subscriber && contains r.subscribed_raw_channels (raw_full_channel drone_id)
      then record r { requests = unsubscribe (raw_full_channel drone_id) ∷ r.requests }
      else r

  abbrev focus_on : String → Relay v → Relay v
  focus_on drone_id r = record r { world = (add_focus_drone drone_id r.world).1 }

  abbrev focus_off : String → Relay v → Relay v
  focus_off drone_id r = record r { world = (remove_focus_drone drone_id r.world).1 }

  -- Steps 3 and 4 of `handleConnection`.
  unfoldable pub admit : String → String → Payload → Relay v → Relay v
  admit client drone_id user r =
      let clients = add (clients_of r drone_id) client in
      let joined : Relay v = record r {
        data_of = Map.set r.data_of client (record { drone_id = drone_id; user = user });
        drone_clients = Map.set r.drone_clients drone_id clients;
      } in
      if eqb (length clients) 1 then focus_on drone_id (subscribe_raw drone_id joined) else joined

  unfoldable pub verified : String → String → Option Payload → Relay v → Relay v
  verified client drone_id none r = refuse client r
  verified client drone_id (some p) r =
      let checked = may_control drone_id p r.world in
      let read : Relay v = record r { world = checked.1 } in
      elim checked.0 [
        | ok allowed ↦ if allowed then admit client drone_id p read else refuse client read
        | err e ↦ refuse client read
      ]

  unfoldable pub handle_connection : Crypto → String → Handshake → Relay v → Relay v
  unfolding verified
  handle_connection k client hs r =
      let drone_id = drone_id_of (or_text hs.query_drone_id hs.header_drone_id) in
      let token = token_of (raw_token hs) in
      if drone_id == ""
      then refuse client r
      else if token == ""
      then refuse client r
      else verified client drone_id (k.verify r.world.now token) r

  unfoldable pub leave : String → String → Option (List String) → Relay v → Relay v
  leave client drone_id none r = r
  leave client drone_id (some clients) r =
      let rest = discard clients client in
      if eqb (length rest) 0
      then focus_off drone_id (
          unsubscribe_raw drone_id
            (record r { drone_clients = Map.delete r.drone_clients drone_id }))
      else record r { drone_clients = Map.set r.drone_clients drone_id rest }

  unfoldable pub disconnected : String → Option ClientData → Relay v → Relay v
  unfolding leave
  disconnected client none r = r
  disconnected client (some d) r =
      if d.drone_id == "" then r else leave client d.drone_id (Map.get r.drone_clients d.drone_id) r

  unfoldable pub handle_disconnect : String → Relay v → Relay v
  unfolding disconnected
  handle_disconnect client r = disconnected client (Map.get r.data_of client) r

  -- The callbacks of `subscribe` and `unsubscribe`, called without an error.
  abbrev pub on_subscribed : String → Relay v → Relay v
  on_subscribed channel r = record r {
    subscribed_raw_channels = add r.subscribed_raw_channels channel;
  }

  abbrev pub on_unsubscribed : String → Relay v → Relay v
  on_unsubscribed channel r = record r {
    subscribed_raw_channels = discard r.subscribed_raw_channels channel;
  }

  -- `broadcastDownlink`, for a message on a channel: the sockets that get the bytes.
  unfoldable pub receivers : (String → Bool) → String → Relay v → List String
  receivers connected channel r =
      if drone_of_channel channel == ""
      then []
      else keep connected (clients_of r (drone_of_channel channel))

  -- `handleMavlinkUplink`, for a payload of that many bytes: the address that gets the datagram.
  pub uplink_from : Bool → ℕ → Option ClientData → Relay v → Option String × Relay v
  uplink_from has_udp bytes none r = (none, r)
  uplink_from has_udp bytes (some d) r =
      let found = find_by_device_id d.drone_id r.world in
      let read : Relay v = record r { world = found.1 } in
      if d.drone_id == ""
      then (none, r)
      else if eqb bytes 0
      then (none, r)
      else elim found.0 [ ok device ↦ (uplink_target has_udp device, read) | err e ↦ (none, read) ]

  unfoldable pub handle_mavlink_uplink : Bool → String → ℕ → Relay v → Option String × Relay v
  unfolding uplink_from
  handle_mavlink_uplink has_udp client bytes r =
      uplink_from has_udp bytes (Map.get r.data_of client) r
