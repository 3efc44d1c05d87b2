-- ===== src/Dashboard.antt =====
-- drone-fleet-manager/src/dashboard/dashboard.service.ts: what the dashboard shows. The queries that
-- the code starts together run one after the other here.
pub mod Fleet
pub mod Matrix
pub mod System
mod Tests
use vdt_provisioning_service.Prelude.{
  ℕ, zero, suc, ◌+◌, ◌-◌, String, Bool, true, false, not, Option, none, some, List, [], ◌∷◌, map,
  ◌==◌, ◌&&◌, ◌||◌, ltb, eqb, length, if◌then◌else◌,
}
use vdt_provisioning_service.Prelude.Map
use vdt_provisioning_service.Prelude.Map.{Map}
use vdt_provisioning_service.Prelude.Text.{append}
use vdt_provisioning_service.Prelude.Effect.{Act, pure, ◌>>=◌}
use vdt_provisioning_service.Services.{Services, World}
use vdt_provisioning_service.Services.Tables.{Device, Devices, User}
use vdt_provisioning_service.Wireguard.{PeerStats, ServerInfo, get_live_peer_stats, get_server_info}
use vdt_provisioning_service.Device.{Counts, find_all_devices, count_stats}
use vdt_provisioning_service.IpPool.{PoolStats, subnet, address, get_pool_stats}

-- The columns of `row` but `userId`, and what the kernel says of its peer.
pub record FleetItem : Type 0 where
  pub row : Device
  pub is_online : Bool
  pub latest_handshake : ℕ
  pub transfer_rx : ℕ
  pub transfer_tx : ℕ
  pub endpoint : String

pub data CellStatus : Type 0 where
  gateway active available : CellStatus

pub record IpMatrixCell : Type 0 where
  pub ip : String
  pub host_number : ℕ
  pub status : CellStatus
  pub device_id : Option String
  pub hardware_model : Option String
  pub is_online : Option Bool

-- The `connected` and `timestamp` of a state in Redis; 0 stands for a missing timestamp.
pub record TelemetryState : Type 0 where
  pub connected : Option Bool
  pub timestamp : ℕ

pub record Traffic : Type 0 where
  pub online_now : ℕ
  pub total_rx_bytes : ℕ
  pub total_tx_bytes : ℕ

pub record OverviewStats : Type 0 where
  pub devices : Counts
  pub ip_pool : PoolStats
  pub wireguard : ServerInfo
  pub traffic : Traffic
  pub active_peers_count : ℕ

-- `user && user.role !== 'ADMIN' ? user.id : undefined`
abbrev pub viewer : Option User → Option String
viewer none = none
viewer (some u) = if u.role == "ADMIN" then none else some u.id

abbrev pub add_peer_traffic : PeerStats → Traffic → Traffic
add_peer_traffic p t = record {
  online_now = if p.is_online then t.online_now + 1 else t.online_now;
  total_rx_bytes = t.total_rx_bytes + p.transfer_rx;
  total_tx_bytes = t.total_tx_bytes + p.transfer_tx;
}

unfoldable pub sum_traffic : List PeerStats → Traffic → Traffic
sum_traffic [] t = t
sum_traffic (p ∷ ps) t = sum_traffic ps (add_peer_traffic p t)

abbrev pub fleet_item : Device → Option PeerStats → FleetItem
fleet_item d none = record {
  row = d;
  is_online = false;
  latest_handshake = 0;
  transfer_rx = 0;
  transfer_tx = 0;
  endpoint = "";
}
fleet_item d (some p) = record {
  row = d;
  is_online = p.is_online;
  latest_handshake = p.latest_handshake;
  transfer_rx = p.transfer_rx;
  transfer_tx = p.transfer_tx;
  endpoint = p.endpoint;
}

-- `d.vpnIp && (d.status === 'ACTIVE' || d.status === 'PENDING')`
abbrev pub shown_at : Device → Option String → Map Device → Map Device
shown_at d none m = m
shown_at d (some ip) m =
    if not (ip == "") && (d.status == "ACTIVE" || d.status == "PENDING") then Map.set m ip d else m

-- The loop that fills `ipDeviceMap`.
unfoldable pub ip_device_map : Devices → Map Device → Map Device
ip_device_map [] m = m
ip_device_map (d ∷ ds) m = ip_device_map ds (shown_at d d.vpn_ip m)

abbrev pub is_live : ℕ → Option TelemetryState → Bool
is_live now none = false
is_live now (some t) =
    not (elim t.connected [ none ↦ false | some c ↦ not c ])
    && (not (eqb t.timestamp 0) && ltb (now - t.timestamp) 10000)

-- `redisStates[device.deviceId] || (device.vpnIp ? redisStates[device.vpnIp] : null)`
abbrev pub state_at : Map TelemetryState → Option String → Option TelemetryState
state_at states none = none
state_at states (some ip) = if ip == "" then none else Map.get states ip

abbrev pub state_of : Map TelemetryState → Device → Option TelemetryState
state_of states d = elim (Map.get states d.device_id) [
  | none ↦ state_at states d.vpn_ip
  | some t ↦ some t
]

abbrev pub cell_of : ℕ → Map TelemetryState → String → ℕ → Option Device → IpMatrixCell
cell_of now states ip host none = record {
  ip = ip;
  host_number = host;
  status = available;
  device_id = none;
  hardware_model = none;
  is_online = none;
}
cell_of now states ip host (some d) = record {
  ip = ip;
  host_number = host;
  status = active;
  device_id = some d.device_id;
  hardware_model = some d.hardware_model;
  is_online = some (is_live now (state_of states d));
}

-- The loop over the hosts, with the rounds that are left.
unfoldable pub cells : ℕ → Map TelemetryState → String → Map Device → ℕ → ℕ → List IpMatrixCell
cells now states prefix m zero host = []
cells now states prefix m (suc rounds) host =
    let ip = address prefix host in
    cell_of now states ip host (Map.get m ip) ∷ cells now states prefix m rounds (host + 1)

abbrev pub gateway_cell : String → IpMatrixCell
gateway_cell prefix = record {
  ip = append prefix "1";
  host_number = 1;
  status = gateway;
  device_id = some "VPN Gateway Server";
  hardware_model = some "Linux WireGuard Host";
  is_online = some true;
}

module _ {v : Services} where
  unfoldable pub get_overview_stats : Option User → Act (World v) OverviewStats
  get_overview_stats user = do
    counts ← count_stats (viewer user)
    pool ← get_pool_stats
    peers ← get_live_peer_stats
    info ← get_server_info
    pure (record {
      devices = counts;
      ip_pool = pool;
      wireguard = info;
      traffic =
          sum_traffic (Map.values peers)
            (record { online_now = 0; total_rx_bytes = 0; total_tx_bytes = 0 });
      active_peers_count = length peers;
    })

  unfoldable pub get_fleet : Option User → Act (World v) (List FleetItem)
  get_fleet user = do
    devices ← find_all_devices (viewer user)
    peers ← get_live_peer_stats
    pure (map (λ d. fleet_item d (Map.get peers d.vpn_public_key)) devices)

  -- `states` is what `getAllTelemetryStates` returns, which reads JSON.
  unfoldable pub get_ip_pool_matrix :
      Act (World v) (Map TelemetryState) → Act (World v) (List IpMatrixCell)
  get_ip_pool_matrix states w =
      (do
        devices ← find_all_devices none
        peers ← get_live_peer_stats
        known ← states
        pure (
            gateway_cell (subnet v)
            ∷ cells w.now known (subnet v) (ip_device_map devices []) 253 2))
        w

  unfoldable pub get_live_peers : Act (World v) (List PeerStats)
  get_live_peers = do peers ← get_live_peer_stats; pure (Map.values peers)
