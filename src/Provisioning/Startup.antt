-- ===== src/Provisioning/Startup.antt =====
-- drone-fleet-manager/src/provisioning/provisioning.service.ts: what runs when the module starts.
pub mod Restore
pub mod Laws
mod Tests
use vdt_provisioning_service.Prelude.{
  ℕ, String, Bool, true, false, not, Option, none, some, List, [], ◌∷◌, ◌==◌, ◌&&◌, if◌then◌else◌,
}
use vdt_provisioning_service.Prelude.Map
use vdt_provisioning_service.Prelude.Text.{append, starts_with, trim, split, is_ipv4, is_wg_key}
use vdt_provisioning_service.Prelude.Effect.{Act, pure, catch, ◌>>=◌, ◌>>◌}
use vdt_provisioning_service.Services.{Services, World}
use vdt_provisioning_service.Services.Tables.{Device, Devices}
use vdt_provisioning_service.Wireguard.{PeerStats, add_peer, get_live_peer_stats}
use vdt_provisioning_service.Device.{find_active_devices}
use vdt_provisioning_service.Device.Identity.{sync_manual_kernel_peer}
use vdt_provisioning_service.IpPool.{subnet}

-- `rawCidr.trim().split('/')[0]`
abbrev pub host_part : List String → String
host_part [] = ""
host_part (ip ∷ more) = ip

-- An IPv4 address of the VPN's subnet that is not the gateway's.
pub in_subnet : String → String → Bool
in_subnet prefix ip = starts_with prefix ip && not (ip == append prefix "1") && is_ipv4 ip

module _ {v : Services} where
  -- One round of the restoring loop of `onModuleInit`; a failure is logged and the loop goes on.
  pub restore_at : String → Option String → Act (World v) Unit
  restore_at key none = pure tt
  restore_at key (some ip) =
      if not (key == "") && not (ip == "") && is_wg_key key
      then catch (add_peer key ip) (λ _. pure tt)
      else pure tt

  pub restore_all : Devices → Act (World v) Unit
  unfolding restore_at
  restore_all [] = pure tt
  restore_all (d ∷ ds) = restore_at d.vpn_public_key d.vpn_ip >> restore_all ds

  pub sync_cidr : PeerStats → String → Act (World v) Unit
  unfolding in_subnet
  sync_cidr p cidr =
      if in_subnet (subnet v) (host_part (split b'/' (trim cidr)))
      then catch
          (sync_manual_kernel_peer (host_part (split b'/' (trim cidr))) p.public_key
              (some p.latest_handshake)
            >> pure tt)
          (λ _. pure tt)
      else pure tt

  pub sync_cidrs : PeerStats → List String → Act (World v) Unit
  unfolding sync_cidr
  sync_cidrs p [] = pure tt
  sync_cidrs p (c ∷ cs) = sync_cidr p c >> sync_cidrs p cs

  pub sync_peers : List PeerStats → Act (World v) Unit
  unfolding sync_cidrs
  sync_peers [] = pure tt
  sync_peers (p ∷ ps) =
      (if p.allowed_ips == "" then pure tt else sync_cidrs p (split b',' p.allowed_ips))
      >> sync_peers ps

  unfoldable pub sync_kernel_peers_to_database : Act (World v) Unit
  unfolding sync_peers
  sync_kernel_peers_to_database =
      catch (do stats ← get_live_peer_stats; sync_peers (Map.values stats)) (λ _. pure tt)

  pub restore_active : Act (World v) Unit
  unfolding restore_all
  restore_active = catch (do active ← find_active_devices; restore_all active) (λ _. pure tt)

  unfoldable pub on_module_init : Act (World v) Unit
  unfolding restore_active
  on_module_init = restore_active >> sync_kernel_peers_to_database
