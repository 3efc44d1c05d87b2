-- ===== src/Wireguard.antt =====
-- drone-fleet-manager/src/wireguard/wireguard.service.ts
pub mod Laws
pub mod Dump
use Prim.Native.String.{count}
use vdt_provisioning_service.Prelude.{
  ℕ, ◌+◌, ◌/◌, String, Bool, true, false, Option, none, some, List, [], ◌∷◌, ◌==◌, ◌&&◌, ltb, leb,
  eqb, if◌then◌else◌,
}
use vdt_provisioning_service.Prelude.Map
use vdt_provisioning_service.Prelude.Map.{Map}
use vdt_provisioning_service.Prelude.Text.{append, trim, split, parse_int, ends_with}
use vdt_provisioning_service.Prelude.Effect.{Act, pure, throw, catch, fault, ◌>>=◌, ◌>>◌}
use vdt_provisioning_service.Services.{Services, World, in_host, setting}
use vdt_provisioning_service.Services.Commands
use vdt_provisioning_service.Services.Commands.{
  show_public_key, show, show_dump, genkey, pubkey, set_peer,
}

pub record Keypair : Type 0 where
  pub private_key : String
  pub public_key : String

pub record PeerStats : Type 0 where
  pub public_key : String
  pub endpoint : String
  pub allowed_ips : String
  pub latest_handshake : ℕ
  pub transfer_rx : ℕ
  pub transfer_tx : ℕ
  pub is_online : Bool

pub record ServerInfo : Type 0 where
  pub interface_name : String
  pub public_key : String
  pub listen_port : Option ℕ
  pub endpoint : String
  pub is_kernel_active : Bool

abbrev pub cidr : String → String
cidr ip = append ip "/32"

-- `parseInt(…) || 0`
abbrev pub or_zero : Option ℕ → ℕ
or_zero none = 0
or_zero (some n) = n

unfoldable pub online : ℕ → ℕ → Bool
online now handshake = ltb 0 handshake && leb now (handshake + 180)

unfoldable pub stats_of : ℕ → List String → Option PeerStats
unfolding online
stats_of now (key ∷ psk ∷ endpoint ∷ ips ∷ handshake ∷ rx ∷ tx ∷ more) = some (record {
  public_key = key;
  endpoint = if endpoint == "(none)" then "" else endpoint;
  allowed_ips = ips;
  latest_handshake = or_zero (parse_int handshake);
  transfer_rx = or_zero (parse_int rx);
  transfer_tx = or_zero (parse_int tx);
  is_online = online now (or_zero (parse_int handshake));
})
stats_of now _ = none

abbrev pub record_stats : Option PeerStats → Map PeerStats → Map PeerStats
record_stats none m = m
record_stats (some p) m = Map.set m p.public_key p

-- One round of the loop of `getLivePeerStats`.
unfoldable pub read_line : ℕ → String → Map PeerStats → Map PeerStats
unfolding stats_of
read_line now line m =
    if trim line == "" then m else record_stats (stats_of now (split b'\t' (trim line))) m

unfoldable pub read_lines : ℕ → List String → Map PeerStats → Map PeerStats
unfolding read_line
read_lines now [] m = m
read_lines now (line ∷ lines) m = read_lines now lines (read_line now line m)

-- The loop starts at index 1: the first line is the interface's own.
unfoldable pub parse_dump : ℕ → String → Map PeerStats
unfolding read_lines
parse_dump now out = elim (split b'\n' (trim out)) [
  | [] ↦ []
  | first ∷ lines ↦ read_lines now lines []
]

abbrev pub interface_name : Services → String
interface_name v = setting v "WG_INTERFACE" "wg0"

abbrev env_key : Services → String
env_key v = setting v "WG_SERVER_PUBLIC_KEY" ""

abbrev pub is_placeholder : String → Bool
is_placeholder key =
    if key == ""
    then true
    else if key == "MANUAL_TELEMETRY"
    then true
    else if key == "MANUAL_VPN"
    then true
    else ltb (count key) 40

port_of : List String → Option ℕ
port_of (host ∷ port ∷ more) = parse_int (if port == "" then "10006" else port)
port_of _ = parse_int "10006"

module _ {v : Services} where
  kernel_key : String → Act (World v) String
  kernel_key out =
      if eqb (count (trim out)) 44 && ends_with b'=' (trim out)
      then pure (trim out)
      else if env_key v == ""
      then pure "YOUR_SERVER_PUBLIC_KEY"
      else pure (env_key v)

  unfoldable pub get_server_public_key : Act (World v) String
  unfolding kernel_key
  get_server_public_key =
      catch (in_host (v.shell.exec (show_public_key (interface_name v)))) (λ _. pure "")
      >>= kernel_key

  unfoldable pub generate_keypair : Act (World v) Keypair
  generate_keypair =
      catch
        (do
          private_out ← in_host (v.shell.exec genkey)
          public_out ← in_host (v.shell.exec (pubkey (trim private_out)))
          pure (record { private_key = trim private_out; public_key = trim public_out }))
        (λ _. throw fault)

  unfoldable pub add_peer : String → String → Act (World v) Unit
  add_peer key ip =
      catch (in_host (v.shell.exec (set_peer (interface_name v) key (cidr ip))) >> pure tt)
        (λ _. throw fault)

  unfoldable pub remove_peer : String → Act (World v) Unit
  remove_peer key =
      if is_placeholder key
      then pure tt
      else catch (in_host (v.shell.exec (Commands.remove_peer (interface_name v) key)) >> pure tt)
          (λ _. pure tt)

  unfoldable pub get_server_info : Act (World v) ServerInfo
  unfolding port_of
  get_server_info = do
    key ← get_server_public_key
    out ← catch (in_host (v.shell.exec (show (interface_name v)))) (λ _. pure "")
    pure (record {
      interface_name = interface_name v;
      public_key = key;
      listen_port = port_of (split b':' (setting v "WG_SERVER_ENDPOINT" ""));
      endpoint = setting v "WG_SERVER_ENDPOINT" "";
      is_kernel_active = if trim out == "" then false else true;
    })

  unfoldable pub get_live_peer_stats : Act (World v) (Map PeerStats)
  get_live_peer_stats w =
      catch
        (do
          out ← in_host (v.shell.exec (show_dump (interface_name v)))
          pure (parse_dump (w.now / 1000) out))
        (λ _. pure []) w
