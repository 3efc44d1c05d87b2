-- ===== src/WebSsh.antt =====
-- drone-fleet-manager/src/web-ssh/web-ssh.service.ts: the sessions of the terminals. A client of the
-- package ssh2 goes by its number, and its listeners are the events `Event`; what is sent to it and
-- to a browser is listed. The reads of a request are one step.
pub mod Gateway
pub mod Access
pub mod Routing
pub mod Ownership
pub mod Sessions
mod Tests
use vdt_provisioning_service.Prelude.{
  ℕ, ◌+◌, String, Bool, true, false, not, Option, none, some, List, [], ◌∷◌, ◌==◌, ◌&&◌, eqb, chain,
  or_number, or_string, or_else, if◌then◌else◌,
}
use vdt_provisioning_service.Prelude.Map
use vdt_provisioning_service.Prelude.Map.{Map}
use vdt_provisioning_service.Prelude.Text.{trim, is_ipv4, starts_with}
use vdt_provisioning_service.Prelude.Effect.{Act, Result, ok, err, pure, catch, ◌>>=◌}
use vdt_provisioning_service.Services.{Services, World, in_store}
use vdt_provisioning_service.Services.Tables.{Device}
use vdt_provisioning_service.Device.{text_of, find_by_device_id}
use vdt_provisioning_service.Telemetry.Monitor.{ip_of_temp_id}

pub record SshConnectOptions : Type 0 where
  pub device_id : String
  pub username : Option String
  pub password : Option String
  pub private_key : Option String
  pub cols : ℕ
  pub rows : ℕ
  pub token : Option String

pub data Secret : Type 0 where
  private_key password : String → Secret

-- The `connectConfig` and the size of the terminal.
pub record Dial : Type 0 where
  pub client : ℕ
  pub socket_id : String
  pub host : String
  pub username : String
  pub secret : Secret
  pub cols : ℕ
  pub rows : ℕ

pub record SshSession : Type 0 where
  pub client : ℕ
  pub device_id : String
  pub vpn_ip : String

-- The `status` of an `ssh:status`, and `ssh:data`.
pub data Reply : Type 0 where
  error connecting connected closed : Reply
  data_out : String → Reply

-- What is written to a terminal.
pub data Input : Type 0 where
  keys : String → Input
  window : ℕ → ℕ → Input

-- `streams` lists the clients whose session object has a stream: the listeners hold on to the
-- object when it is out of `sessions`.
pub record Terminals (v : Services) : Type 0 where
  pub world : World v
  pub sessions : Map SshSession
  pub next : ℕ
  pub streams : List ℕ
  pub dialled : List Dial
  pub ended : List ℕ
  pub written : List (ℕ × Input)
  pub replies : List (String × Reply)

pub data Event : Type 0 where
  shell_opened shell_failed stream_closed failed disconnected : Event
  data_in : String → Event

abbrev pub has_stream : List ℕ → ℕ → Bool
has_stream [] c = false
has_stream (x ∷ xs) c = if eqb x c then true else has_stream xs c

-- The address that the loop over `drone:ip_map` finds.
unfoldable pub ip_for : String → Map String → String
ip_for target [] = ""
ip_for target ((ip, device_id) ∷ rest) =
    let more = ip_for target rest in if device_id == target then ip else more

abbrev pub row_ip : Option Device → String
row_ip none = ""
row_ip (some d) = text_of d.vpn_ip

-- What a target says of its address itself.
abbrev pub literal_ip : String → String
literal_ip target = if is_ipv4 target then target else ip_of_temp_id target

abbrev pub secret_of : SshConnectOptions → Secret
secret_of o =
    if or_else o.private_key "" == ""
    then if or_else o.password "" == ""
      then password "raspberry"
      else password (or_else o.password "")
    else private_key (or_else o.private_key "")

module _ {v : Services} where
  -- An error of Redis counts as an empty map.
  unfoldable pub redis_ip : String → Act (World v) String
  redis_ip target w =
      if w.has_client
      then catch (in_store (v.redis.hgetall "drone:ip_map") >>= λ m. pure (ip_for target m))
          (λ e. pure "") w
      else (pure "") w

  unfoldable pub resolve : String → Act (World v) String
  unfolding redis_ip
  resolve target =
      if literal_ip target == ""
      then (do
        row ← find_by_device_id target
        if row_ip row == "" then redis_ip target else pure (row_ip row))
      else pure (literal_ip target)

  abbrev pub emit : String → Reply → Terminals v → Terminals v
  emit socket_id r t = record t { replies = (socket_id, r) ∷ t.replies }

  abbrev close_known : String → Option SshSession → Terminals v → Terminals v
  close_known socket_id none t = t
  close_known socket_id (some s) t = record t {
    ended = s.client ∷ t.ended;
    sessions = Map.delete t.sessions socket_id;
  }

  unfoldable pub close_ssh_session : String → Terminals v → Terminals v
  close_ssh_session socket_id t = close_known socket_id (Map.get t.sessions socket_id) t

  -- A new client; `throws` says whether `connect` throws, as for a key that cannot be read.
  unfoldable pub dial : Bool → String → SshConnectOptions → String → Terminals v → Terminals v
  dial throws socket_id o vpn_ip t =
      let begun : Terminals v = record (emit socket_id connecting t) {
        sessions =
            Map.set t.sessions socket_id
              (record { client = t.next; device_id = trim o.device_id; vpn_ip = vpn_ip });
        next = t.next + 1;
      } in
      if throws then close_ssh_session socket_id (emit socket_id error begun) else record begun {
        dialled =
            record {
              client = t.next;
              socket_id = socket_id;
              host = vpn_ip;
              username = or_else o.username "root";
              secret = secret_of o;
              cols = or_number o.cols 80;
              rows = or_number o.rows 24;
            }
            ∷ t.dialled;
      }

  unfoldable pub dial_at :
      Bool → String → SshConnectOptions → Result String → Terminals v → Terminals v
  unfolding dial
  dial_at throws socket_id o (err e) t = t
  dial_at throws socket_id o (ok ip) t =
      if ip == "" then emit socket_id error t else dial throws socket_id o ip t

  unfoldable pub create_ssh_session : Bool → String → SshConnectOptions → Terminals v → Terminals v
  unfolding dial_at
  create_ssh_session throws socket_id o t =
      let free = close_ssh_session socket_id t in
      let found = resolve (trim o.device_id) free.world in
      dial_at throws socket_id o found.0 (record free { world = found.1 })

  -- The listeners of the client `c` that was made for the socket.
  unfoldable pub on_event : String → ℕ → Event → Terminals v → Terminals v
  on_event socket_id c shell_opened t = record (emit socket_id connected t) {
    streams = c ∷ t.streams;
  }
  on_event socket_id c shell_failed t =
      close_ssh_session socket_id (emit socket_id error (emit socket_id connected t))
  on_event socket_id c (data_in text) t = emit socket_id (data_out text) t
  on_event socket_id c stream_closed t = close_ssh_session socket_id (emit socket_id closed t)
  on_event socket_id c failed t = close_ssh_session socket_id (emit socket_id error t)
  on_event socket_id c disconnected t = record t { sessions = Map.delete t.sessions socket_id }

  abbrev pub write : Input → Option SshSession → Terminals v → Terminals v
  write i none t = t
  write i (some s) t =
      if has_stream t.streams s.client then record t { written = (s.client, i) ∷ t.written } else t

  unfoldable pub handle_input : String → String → Terminals v → Terminals v
  handle_input socket_id text t = write (keys text) (Map.get t.sessions socket_id) t

  unfoldable pub handle_resize : String → ℕ → ℕ → Terminals v → Terminals v
  handle_resize socket_id cols rows t = write (window rows cols) (Map.get t.sessions socket_id) t
