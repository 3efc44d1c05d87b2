-- ===== src/Provisioning.antt =====
-- drone-fleet-manager/src/provisioning/provisioning.service.ts: registration and key rotation.
pub mod Gate
pub mod New
pub mod Rollback
pub mod Steps
pub mod Rotation
pub mod Startup
mod Tests
use Prim.Native.String.{len}
use vdt_provisioning_service.Prelude.{
  ℕ, String, Bool, true, false, Option, none, some, ◌==◌, eqb, if◌then◌else◌,
}
use vdt_provisioning_service.Prelude.Text.{append, parse_int}
use vdt_provisioning_service.Prelude.Effect.{
  Act, pure, throw, catch, internal, unauthorized, conflict, ◌>>=◌, ◌>>◌,
}
use vdt_provisioning_service.Services.{Services, World, setting}
use vdt_provisioning_service.Services.Tables.{Device}
use vdt_provisioning_service.Wireguard.{
  Keypair, generate_keypair, add_peer, remove_peer, get_server_public_key,
}
use vdt_provisioning_service.Device.{
  CreateInput, UpdateInput, find_by_device_id, create_device, update_device,
}
use vdt_provisioning_service.IpPool.{allocate_ip}

pub record RegisterDto : Type 0 where
  pub device_id : String
  pub provision_token : String
  pub hardware_model : String

pub record Vpn : Type 0 where
  pub address : String
  pub private_key : String
  pub server_public_key : String
  pub server_endpoint : String
  pub allowed_ips : String
  pub persistent_keepalive : Option ℕ

pub record Response : Type 0 where
  pub device_id : String
  pub assigned_ip : String
  pub vpn : Vpn
  pub target_host : String
  pub target_port : Option ℕ

-- `timingSafeEqual` compares buffers of one length byte by byte.
unfoldable pub secure_compare : String → String → Bool
secure_compare a b = if eqb (len a) (len b) then a == b else false

-- The arguments of `createDevice` and of `updateDevice`.
abbrev pub row_input : RegisterDto → String → Keypair → CreateInput
row_input dto ip keys = record {
  device_id = dto.device_id;
  hardware_model = dto.hardware_model;
  vpn_ip = some ip;
  vpn_public_key = keys.public_key;
  status = some "ACTIVE";
}

abbrev pub row_update : RegisterDto → String → Keypair → ℕ → UpdateInput
row_update dto ip keys now = record {
  hardware_model = some dto.hardware_model;
  vpn_ip = some (some ip);
  vpn_public_key = some keys.public_key;
  status = some "ACTIVE";
  last_seen = some now;
}

-- The body of `formatResponse`; the fixed `status: 'success'` is left out.
abbrev pub response_of : Services → String → String → String → String → Response
response_of v device_id ip private_key server_key = record {
  device_id = device_id;
  assigned_ip = ip;
  vpn = record {
    address = append ip "/24";
    private_key = private_key;
    server_public_key = server_key;
    server_endpoint = setting v "WG_SERVER_ENDPOINT" "103.253.20.32:10006";
    allowed_ips = setting v "WG_SERVER_ALLOWED_IPS" "10.13.37.0/24";
    persistent_keepalive = parse_int (setting v "WG_SERVER_PERSISTENT_KEEPALIVE" "25");
  };
  target_host = setting v "MAVLINK_TARGET_HOST" "10.13.37.1";
  target_port = parse_int (setting v "MAVLINK_TARGET_PORT" "14551");
}

module _ {v : Services} where
  pub format_response : String → String → String → Act (World v) Response
  format_response device_id ip private_key = do
    server_key ← get_server_public_key
    pure (response_of v device_id ip private_key server_key)

  -- The two guarded writes of `handleNewProvisioning`, once there are an address and a key pair.
  pub new_peer : String → Keypair → Act (World v) Unit
  new_peer ip keys = catch (add_peer keys.public_key ip) (λ _. throw internal)

  pub new_row : RegisterDto → String → Keypair → Act (World v) Unit
  new_row dto ip keys =
      catch (create_device (row_input dto ip keys) >> pure tt)
        (λ _. remove_peer keys.public_key >> throw internal)

  unfoldable pub handle_new_provisioning : RegisterDto → Act (World v) Response
  unfolding new_peer new_row format_response
  handle_new_provisioning dto = do
    ip ← allocate_ip
    keys ← generate_keypair
    new_peer ip keys
    new_row dto ip keys
    format_response dto.device_id ip keys.private_key

  -- `existingDevice.vpnIp || (await allocateIp())`
  pub kept_ip : Option String → Act (World v) String
  kept_ip none = allocate_ip
  kept_ip (some ip) = if ip == "" then allocate_ip else pure ip

  pub remove_old : String → Act (World v) Unit
  remove_old old = if old == "" then pure tt else remove_peer old

  pub restore_old : String → String → Act (World v) Unit
  restore_old old ip = if old == "" then pure tt else catch (add_peer old ip) (λ _. pure tt)

  pub rotated_peer : String → String → Keypair → Act (World v) Unit
  unfolding restore_old
  rotated_peer old ip keys =
      catch (add_peer keys.public_key ip) (λ _. restore_old old ip >> throw internal)

  pub rotated_row : Device → RegisterDto → String → Keypair → Act (World v) Unit
  unfolding restore_old
  rotated_row device dto ip keys w =
      catch (update_device device.id (row_update dto ip keys w.now) >> pure tt)
        (λ _. do remove_peer keys.public_key; restore_old device.vpn_public_key ip; throw internal)
        w

  unfoldable pub handle_re_provisioning : Device → RegisterDto → Act (World v) Response
  unfolding kept_ip remove_old rotated_peer rotated_row format_response
  handle_re_provisioning device dto = do
    ip ← kept_ip device.vpn_ip
    keys ← generate_keypair
    remove_old device.vpn_public_key
    rotated_peer device.vpn_public_key ip keys
    rotated_row device dto ip keys
    format_response dto.device_id ip keys.private_key

  handle_existing : RegisterDto → Option Device → Act (World v) Response
  handle_existing dto none = handle_new_provisioning dto
  handle_existing dto (some d) =
      if d.status == "REVOKED" then throw conflict else handle_re_provisioning d dto

  authorised : RegisterDto → Option String → Act (World v) Response
  unfolding handle_existing
  authorised dto none = throw internal
  authorised dto (some expected) =
      if expected == ""
      then throw internal
      else if secure_compare dto.provision_token expected
      then (find_by_device_id dto.device_id >>= handle_existing dto)
      else throw unauthorized

  unfoldable pub register_device : RegisterDto → Act (World v) Response
  unfolding authorised
  register_device dto = authorised dto (v.config "PROVISION_SECRET_TOKEN")
