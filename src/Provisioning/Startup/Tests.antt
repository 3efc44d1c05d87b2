-- ===== src/Provisioning/Startup/Tests.antt =====
-- A start of the server, and identities seen in telemetry, against services in memory.
use vdt_provisioning_service.Prelude.{
  String, ◌≡◌, ◌⊎◌, inl, inr, refl, ap, sym, ◌∙◌, true, none, some, [], ◌∷◌, Elem, arith, eq_iff,
}
use vdt_provisioning_service.Prelude.Text.{split, is_wg_key, trim, replace_all}
use vdt_provisioning_service.Prelude.Effect.{ok}
use vdt_provisioning_service.Services.Tables.{Device, Devices}
use vdt_provisioning_service.Services.Memory.{memory, world, row}
use vdt_provisioning_service.Device.{
  find_by_device_id, find_by_vpn_ip, find_active_devices, create_device, update_device, is_active,
}
use vdt_provisioning_service.RedisService.{map_ip_to_device}
use vdt_provisioning_service.Wireguard.{parse_dump, add_peer, get_live_peer_stats}
use vdt_provisioning_service.Device.Laws.{devices}
use vdt_provisioning_service.Device.Identity.{
  sync_manual_kernel_peer, bind_or_update_device_identity,
}
use vdt_provisioning_service.Device.Identity.Laws.{IsKeyed}
use vdt_provisioning_service.Device.Identity.Moves.{IsBound}
use vdt_provisioning_service.Device.Identity.Binding.{bind_or_update_device_identity-IsBound}
use vdt_provisioning_service.Provisioning.Startup.{
  on_module_init, restore_active, restore_all, restore_at, sync_kernel_peers_to_database,
}
use vdt_provisioning_service.Provisioning.Startup.Restore.{IsRestorable, Accepts}
use vdt_provisioning_service.Provisioning.Startup.Laws.{
  on_module_init_from, on_module_init_restores,
}

abbrev a_row : Device
a_row = row "a" "D2" (some "10.13.37.2") "ACTIVE"

abbrev b_row : Device
b_row = row "b" "D3" (some "10.13.37.3") "ACTIVE"

abbrev rows : Devices
rows = a_row ∷ b_row ∷ []

start : Unit {0}
unfolding parse_dump split on_module_init restore_active restore_all restore_at
    sync_kernel_peers_to_database find_active_devices add_peer get_live_peer_stats is_wg_key
    find_by_device_id find_by_vpn_ip create_device update_device map_ip_to_device trim replace_all
    sync_manual_kernel_peer bind_or_update_device_identity
start = tt

restored : memory.shell.peer (on_module_init (world rows true)).1.host a_row.vpn_public_key ≡ true
unfolding start
restored = refl

on_module_init_from_example :
    (memory.shell.peer (world rows true).host a_row.vpn_public_key ≡ true)
    ⊎ ((d : Device) × Elem d rows
        × (is_active d ≡ true)
        × (a_row.vpn_public_key ≡ d.vpn_public_key)
        × (is_wg_key a_row.vpn_public_key ≡ true))
on_module_init_from_example = on_module_init_from (world rows true) a_row.vpn_public_key restored

memory-Accepts : Accepts memory
unfolding add_peer
memory-Accepts key ip w = refl

a_row-IsRestorable : IsRestorable a_row
unfolding start
a_row-IsRestorable = record {
  active = refl;
  real = refl;
  ip = "10.13.37.2";
  has_ip = refl;
  not_blank = refl;
}

all_active : (find_active_devices (world rows true)).0 ≡ ok rows
unfolding start
all_active = refl

on_module_init_restores_example :
    memory.shell.peer (on_module_init (world rows true)).1.host a_row.vpn_public_key ≡ true
on_module_init_restores_example =
    on_module_init_restores (world rows true) rows a_row memory-Accepts all_active (inl refl)
      a_row-IsRestorable

ne : ◌≡◌ {A = String} "a" "b" → ⊥
ne e = ground (arith, eq_iff "a" "b")

rows-IsKeyed : IsKeyed rows
rows-IsKeyed a b (inl p) (inl q) e = p ∙ sym q
rows-IsKeyed a b (inl p) (inr (inl q)) e =
    absurd (ne (sym (ap (λ (x : Device). x.id) p) ∙ e ∙ ap (λ (x : Device). x.id) q))
rows-IsKeyed a b (inr (inl p)) (inl q) e =
    absurd (ne (sym (ap (λ (x : Device). x.id) q) ∙ sym e ∙ ap (λ (x : Device). x.id) p))
rows-IsKeyed a b (inr (inl p)) (inr (inl q)) e = p ∙ sym q
rows-IsKeyed a b (inl p) (inr (inr m)) e = elim m [ ]
rows-IsKeyed a b (inr (inl p)) (inr (inr m)) e = elim m [ ]
rows-IsKeyed a b (inr (inr m)) n e = elim m [ ]

abbrev resynced : Device
resynced = record b_row { vpn_public_key = "NEWKEY"; status = "ACTIVE"; last_seen = 1000 }

synced : (sync_manual_kernel_peer "10.13.37.3" "NEWKEY" none (world rows true)).0 ≡ ok resynced
unfolding start
synced = refl

abbrev arrived : Device
arrived = record a_row { vpn_ip = some "10.13.37.3"; last_seen = 1000 }

-- The drone `D2` shows up at the address of `D3`.
moved :
    (bind_or_update_device_identity " D2 " "10.13.37.3" "X500" (world rows true)).0
    ≡ ok (some arrived)
unfolding start
moved = refl

bind_or_update_device_identity-IsBound_example :
    IsBound
      (trim " D2 ")
      "10.13.37.3"
      (devices (bind_or_update_device_identity " D2 " "10.13.37.3" "X500" (world rows true)).1)
      arrived
bind_or_update_device_identity-IsBound_example =
    bind_or_update_device_identity-IsBound (world rows true) " D2 " "10.13.37.3" "X500" arrived
      rows-IsKeyed moved
