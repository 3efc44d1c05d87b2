-- ===== src/IpPool.antt =====
-- drone-fleet-manager/src/ip-pool/ip-pool.service.ts
pub mod Allocation
use vdt_provisioning_service.Prelude.{
  ℕ, zero, suc, ◌+◌, ◌-◌, ◌*◌, ◌/◌, String, Bool, Option, none, some, List, length, contains,
  if◌then◌else◌,
}
use vdt_provisioning_service.Prelude.Text.{append, show}
use vdt_provisioning_service.Prelude.Effect.{Act, pure, throw, fault, ◌>>=◌}
use vdt_provisioning_service.Services.{Services, World, setting}
use vdt_provisioning_service.Device.{find_active_or_pending_ips}

abbrev pub start_ip : ℕ
start_ip = 2

abbrev pub end_ip : ℕ
end_ip = 254

abbrev pub total_capacity : ℕ
total_capacity = end_ip - start_ip + 1

abbrev pub subnet : Services → String
subnet v = setting v "VPN_SUBNET_PREFIX" "10.13.37."

abbrev pub address : String → ℕ → String
address prefix host = append prefix (show host)

-- The loop of `allocateIp` with the rounds that are left.
unfoldable pub first_free : ℕ → ℕ → String → List String → Option String
first_free zero i prefix used = none
first_free (suc rounds) i prefix used =
    let rest = first_free rounds (i + 1) prefix used in
    if contains used (address prefix i) then rest else some (address prefix i)

abbrev or_full : {v : Services} → Option String → Act (World v) String
or_full none = throw fault
or_full (some ip) = pure ip

pub record PoolStats : Type 0 where
  pub subnet_prefix : String
  pub gateway_ip : String
  pub start_ip : ℕ
  pub end_ip : ℕ
  pub total_capacity : ℕ
  pub used_count : ℕ
  pub available_count : ℕ
  -- tenths of a percent: `Math.round((used / capacity) * 1000)`, half a unit is never reached
  pub utilization : ℕ

unfoldable pub pool_stats : String → List String → PoolStats
pool_stats prefix used = record {
  subnet_prefix = prefix;
  gateway_ip = address prefix 1;
  start_ip = start_ip;
  end_ip = end_ip;
  total_capacity = total_capacity;
  used_count = length used;
  available_count = total_capacity - length used;
  utilization = (2000 * length used + 253) / 506;
}

module _ {v : Services} where
  unfoldable pub allocate_ip : Act (World v) String
  allocate_ip = do
    used ← find_active_or_pending_ips
    or_full (first_free total_capacity start_ip (subnet v) used)

  unfoldable pub get_pool_stats : Act (World v) PoolStats
  unfolding pool_stats
  get_pool_stats = do used ← find_active_or_pending_ips; pure (pool_stats (subnet v) used)
