-- ===== src/Device.antt =====
-- drone-fleet-manager/src/device/device.service.ts
pub mod Identity
pub mod Laws
use vdt_provisioning_service.Prelude.{
  ℕ, ◌*◌, String, Bool, true, false, not, Option, none, some, List, [], ◌∷◌, ◌==◌, ◌&&◌, ◌||◌, ltb,
  truthy, or_else, is_text, non_empty, if◌then◌else◌,
}
use vdt_provisioning_service.Prelude.Text.{append, trim, replace_all}
use vdt_provisioning_service.Prelude.Effect.{Act, pure, catch, ◌>>=◌, ◌>>◌}
use vdt_provisioning_service.Services.{Services, World, in_db}
use vdt_provisioning_service.Services.Tables.{Device, Devices, NewDevice, Patch}
use vdt_provisioning_service.RedisService.{map_ip_to_device}

pub record CreateInput : Type 0 where
  pub device_id : String
  pub hardware_model : String
  pub vpn_ip : Option String
  pub vpn_public_key : String
  pub status : Option String

-- A field that is `none` is undefined.
pub record UpdateInput : Type 0 where
  pub hardware_model : Option String
  pub vpn_ip : Option (Option String)
  pub vpn_public_key : Option String
  pub status : Option String
  pub last_seen : Option ℕ

abbrev pub no_update : UpdateInput
no_update = record {
  hardware_model = none;
  vpn_ip = none;
  vpn_public_key = none;
  status = none;
  last_seen = none;
}

abbrev pub text_of : Option String → String
text_of none = ""
text_of (some s) = s

abbrev pub is_there : Option String → Bool
is_there none = false
is_there (some s) = true

-- The `where` of `findActiveOrPendingIps` and of `findActiveDevices`.
abbrev pub holds_ip : Device → Bool
holds_ip d = (d.status == "PENDING" || d.status == "ACTIVE") && is_there d.vpn_ip

abbrev pub is_active : Device → Bool
is_active d = d.status == "ACTIVE" && is_there d.vpn_ip

-- `.map((d) => d.vpnIp).filter((ip) => ip !== null)`
abbrev pub add_ip : Option String → List String → List String
add_ip none ips = ips
add_ip (some ip) ips = ip ∷ ips

abbrev pub ips_of : Devices → List String
ips_of [] = []
ips_of (d ∷ ds) = add_ip d.vpn_ip (ips_of ds)

-- `userId ? { userId } : {}`
abbrev pub owned_by : Option String → Device → Bool
owned_by none d = true
owned_by (some user_id) d = if user_id == "" then true else is_text d.user_id user_id

pub record Counts : Type 0 where
  pub total : ℕ
  pub active : ℕ
  pub revoked : ℕ
  pub pending : ℕ

-- `{ deviceId, hardwareModel, … }` for the database, from the input of `createDevice`
abbrev pub new_row : CreateInput → NewDevice
new_row i = record {
  device_id = i.device_id;
  hardware_model = i.hardware_model;
  vpn_ip = i.vpn_ip;
  vpn_public_key = i.vpn_public_key;
  status = or_else i.status "ACTIVE";
}

abbrev pub patch_of : UpdateInput → Patch
patch_of i = record {
  device_id = none;
  hardware_model = non_empty i.hardware_model;
  vpn_ip = i.vpn_ip;
  vpn_public_key = non_empty i.vpn_public_key;
  status = non_empty i.status;
  last_seen = i.last_seen;
  user_id = none;
}

module _ {v : Services} where
  unfoldable pub find_by_device_id : String → Act (World v) (Option Device)
  find_by_device_id i = in_db (v.database.find_by_device_id i)

  unfoldable pub find_by_vpn_ip : String → Act (World v) (Option Device)
  find_by_vpn_ip ip = in_db (v.database.find_by_vpn_ip ip)

  unfoldable pub find_all_devices : Option String → Act (World v) Devices
  find_all_devices user_id = in_db (v.database.find_newest_first (owned_by user_id))

  count_status : Option String → String → Act (World v) ℕ
  count_status user_id status =
      in_db (v.database.count (λ d. owned_by user_id d && d.status == status))

  unfoldable pub count_stats : Option String → Act (World v) Counts
  unfolding count_status
  count_stats user_id = do
    total ← in_db (v.database.count (owned_by user_id))
    active ← count_status user_id "ACTIVE"
    revoked ← count_status user_id "REVOKED"
    pending ← count_status user_id "PENDING"
    pure (record { total = total; active = active; revoked = revoked; pending = pending })

  unfoldable pub find_active_or_pending_ips : Act (World v) (List String)
  find_active_or_pending_ips = do
    devices ← in_db (v.database.find_many holds_ip)
    pure (ips_of devices)

  unfoldable pub find_active_devices : Act (World v) Devices
  find_active_devices = in_db (v.database.find_many is_active)

  unfoldable pub create_device : CreateInput → Act (World v) Device
  create_device input = do
    device ← in_db (v.database.create (new_row input))
    map_ip_to_device (text_of input.vpn_ip) input.device_id
    pure device

  unfoldable pub update_device : String → UpdateInput → Act (World v) Device
  update_device id input = do
    device ← in_db (v.database.update id (patch_of input))
    map_ip_to_device (text_of device.vpn_ip) device.device_id
    pure device

  map_all : Devices → Act (World v) Unit
  map_all [] = pure tt
  map_all (d ∷ ds) =
      let rest = map_all ds in do map_ip_to_device (text_of d.vpn_ip) d.device_id; rest

  -- `onModuleInit`
  unfoldable pub sync_ip_map : Act (World v) Unit
  unfolding map_all
  sync_ip_map = catch (find_active_devices >>= map_all) (λ _. pure tt)
