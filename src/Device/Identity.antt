-- ===== src/Device/Identity.antt =====
-- drone-fleet-manager/src/device/device.service.ts: the methods that tie a device to an address.
pub mod Laws
pub mod Moves
pub mod Binding
use vdt_provisioning_service.Prelude.{
  ℕ, ◌*◌, String, Bool, true, false, not, Option, none, some, ◌==◌, ◌&&◌, ltb, or_else, is_text,
  if◌then◌else◌,
}
use vdt_provisioning_service.Prelude.Text.{append, trim, replace_all}
use vdt_provisioning_service.Prelude.Effect.{Act, pure, ◌>>=◌, ◌>>◌}
use vdt_provisioning_service.Services.{Services, World, in_db}
use vdt_provisioning_service.Services.Tables.{Device, Patch}
use vdt_provisioning_service.RedisService.{map_ip_to_device}
use vdt_provisioning_service.Device.{
  no_update, find_by_device_id, find_by_vpn_ip, create_device, update_device,
}

abbrev pub temp_device_id : String → String
temp_device_id ip = append "DRONE-IP-" (replace_all b'.' "-" ip)

-- `latestHandshake && latestHandshake > 0 ? new Date(latestHandshake * 1000) : new Date()`
abbrev pub seen_at : ℕ → Option ℕ → ℕ
seen_at now none = now
seen_at now (some handshake) = if ltb 0 handshake then handshake * 1000 else now

module _ {v : Services} where
  pub sync_by_id : String → String → ℕ → Option Device → Act (World v) Device
  sync_by_id ip key seen (some d) = update_device d.id (record no_update {
    vpn_ip = some (some ip);
    vpn_public_key = some key;
    status = some "ACTIVE";
    last_seen = some seen;
  })
  sync_by_id ip key seen none = create_device (record {
    device_id = temp_device_id ip;
    hardware_model = "Manual WireGuard Peer";
    vpn_ip = some ip;
    vpn_public_key = key;
    status = some "ACTIVE";
  })

  pub sync_by_ip : String → String → ℕ → Option Device → Act (World v) Device
  sync_by_ip ip key seen (some d) =
      if not (key == "") && not (d.vpn_public_key == key)
      then update_device d.id (record no_update {
        vpn_public_key = some key;
        status = some "ACTIVE";
        last_seen = some seen;
      })
      else pure d
  sync_by_ip ip key seen none = do
    by_id ← find_by_device_id (temp_device_id ip)
    sync_by_id ip key seen by_id

  unfoldable pub sync_manual_kernel_peer : String → String → Option ℕ → Act (World v) Device
  unfolding sync_by_ip sync_by_id
  sync_manual_kernel_peer ip key handshake w =
      (do by_ip ← find_by_vpn_ip ip; sync_by_ip ip key (seen_at w.now handshake) by_ip) w

  -- The record that holds the address gives way to the device `d`.
  pub evict : Device → Option Device → Act (World v) Unit
  evict d none = pure tt
  evict d (some holder) = if holder.id == d.id then pure tt else in_db (v.database.delete holder.id)

  pub bind_known : String → Device → Act (World v) (Option Device)
  unfolding evict
  bind_known ip d w =
      if not (ip == "") && not (is_text d.vpn_ip ip)
      then (do
        holder ← find_by_vpn_ip ip
        evict d holder
        updated ← update_device d.id (record no_update {
          vpn_ip = some (some ip);
          status = some "ACTIVE";
          last_seen = some w.now;
        })
        pure (some updated))
          w
      else (pure (some d)) w

  -- The record of the address takes the real identity, or a new one is made.
  unfoldable pub rename_or_create :
      String → String → String → Option Device → Act (World v) (Option Device)
  rename_or_create device_id ip model (some d) w =
      (do
        updated ← in_db (
            v.database.update d.id (record {
              device_id = some device_id;
              hardware_model = some (or_else (some model) d.hardware_model);
              vpn_ip = none;
              vpn_public_key = none;
              status = some "ACTIVE";
              last_seen = some w.now;
              user_id = none;
            }))
        map_ip_to_device ip device_id
        pure (some updated))
        w
  rename_or_create device_id ip model none w =
      (do
        created ← create_device (record {
          device_id = device_id;
          hardware_model = model;
          vpn_ip = if ip == "" then none else some ip;
          vpn_public_key = "MANUAL_TELEMETRY";
          status = some "ACTIVE";
        })
        pure (some created))
        w

  unfoldable pub bind_unknown : String → String → String → Act (World v) (Option Device)
  unfolding rename_or_create
  bind_unknown device_id ip model =
      if ip == ""
      then rename_or_create device_id ip model none
      else (do holder ← find_by_vpn_ip ip; rename_or_create device_id ip model holder)

  unfoldable pub bind_found :
      String → String → String → Option Device → Act (World v) (Option Device)
  unfolding bind_known bind_unknown
  bind_found device_id ip model (some d) = bind_known ip d
  bind_found device_id ip model none = bind_unknown device_id ip model

  -- `none` is the null that a blank identity returns.
  unfoldable pub bind_or_update_device_identity :
      String → String → String → Act (World v) (Option Device)
  unfolding bind_found
  bind_or_update_device_identity real_id ip model =
      if trim real_id == ""
      then pure none
      else (do by_id ← find_by_device_id (trim real_id); bind_found (trim real_id) ip model by_id)

  -- The public key is an argument that nothing reads.
  unfoldable pub find_or_create_manual_device :
      String → String → String → String → Act (World v) (Option Device)
  find_or_create_manual_device device_id ip key model =
      bind_or_update_device_identity device_id ip model
