-- ===== src/Provisioning/Tests.antt =====
-- Registrations against services in memory.
use vdt_provisioning_service.Prelude.{
  ℕ, zero, suc, String, ◌≡◌, ◌≢◌, ◌↔◌, ◌⊎◌, inl, inr, refl, true, false, Option, none, some, [],
  ◌∷◌, arith, eq_iff, subst, ◌==◌,
}
use vdt_provisioning_service.Prelude.Text.{show, trim, ends_with}
use vdt_provisioning_service.Prelude.Effect.{
  ok, err, Failure, internal, unauthorized, fault, ok-ne-err, ok-injective,
}
use vdt_provisioning_service.Services.{World}
use vdt_provisioning_service.Services.Tables.{Device, Devices}
use vdt_provisioning_service.Services.Memory.{memory, world, row, sample_key}
use vdt_provisioning_service.RedisService.{map_ip_to_device}
use vdt_provisioning_service.Wireguard.{
  is_placeholder, generate_keypair, add_peer, remove_peer, get_server_public_key,
}
use vdt_provisioning_service.Wireguard.Laws.{IsReliable}
use vdt_provisioning_service.Device.{
  find_by_device_id, ips_of, find_active_or_pending_ips, create_device, update_device,
}
use vdt_provisioning_service.IpPool.{allocate_ip, first_free, subnet, address}
use vdt_provisioning_service.IpPool.Allocation.{
  IsAllocated, IsFull, allocate_ip-IsAllocated, allocate_ip-IsFull,
}
use vdt_provisioning_service.Provisioning.{
  RegisterDto, Response, secure_compare, register_device, handle_new_provisioning,
  handle_re_provisioning, response_of,
}
use vdt_provisioning_service.Provisioning.Gate.{register_device_refuses}
use vdt_provisioning_service.Provisioning.New.{
  IsProvisioned, handle_new_provisioning_provisions, address_taken_blocks,
}
use vdt_provisioning_service.Provisioning.Rollback.{handle_new_provisioning_fails_peers}
use vdt_provisioning_service.Provisioning.Rotation.{IsRotated, handle_re_provisioning_rotates}

-- Opens the whole handler.
run_all : Unit {0}
unfolding register_device handle_new_provisioning handle_re_provisioning allocate_ip first_free show
    find_active_or_pending_ips create_device update_device find_by_device_id generate_keypair
    add_peer remove_peer get_server_public_key map_ip_to_device secure_compare trim ends_with
run_all = tt

abbrev dto : RegisterDto
dto = record { device_id = "D9"; provision_token = "factory"; hardware_model = "X500" }

abbrev fleet : Devices
fleet =
    row "a" "D2" (some "10.13.37.2") "ACTIVE"
    ∷ row "b" "D3" (some "10.13.37.3") "REVOKED"
    ∷ row "c" "D4" (some "10.13.37.4") "PENDING"
    ∷ []

-- The address of a revoked device is free for `allocateIp`.
allocates_3 : (allocate_ip (world fleet true)).0 ≡ ok "10.13.37.3"
unfolding run_all
allocates_3 = refl

allocate_ip-IsAllocated_example : IsAllocated (subnet memory) fleet "10.13.37.3"
allocate_ip-IsAllocated_example =
    allocate_ip-IsAllocated (world fleet true) "10.13.37.3" allocates_3

full_from : ℕ → Devices
full_from zero = []
full_from (suc n) =
    row (show n) (show n) (some (address "10.13.37." (suc (suc n)))) "ACTIVE" ∷ full_from n

full_fails : (allocate_ip (world (full_from 253) true)).0 ≡ err fault
unfolding run_all full_from
full_fails = refl

full_read :
    (find_active_or_pending_ips (world (full_from 253) true)).0 ≡ ok (ips_of (full_from 253))
unfolding run_all full_from
full_read = refl

allocate_ip-IsFull_example :
    ((allocate_ip (world (full_from 253) true)).0 ≡ err fault)
    ↔ IsFull (subnet memory) (full_from 253)
allocate_ip-IsFull_example =
    allocate_ip-IsFull (world (full_from 253) true) (ips_of (full_from 253)) full_read

abbrev forged : RegisterDto
forged = record dto { provision_token = "guess" }

forged_differs : ◌≢◌ {A = Option String} (some "factory") (some "guess")
forged_differs e = ground (arith, eq_iff "factory" "guess")

register_device_refuses_example :
    (register_device forged (world fleet true) ≡ (err internal, world fleet true))
    ⊎ (register_device forged (world fleet true) ≡ (err unauthorized, world fleet true))
register_device_refuses_example =
    register_device_refuses (world fleet true) forged (inl forged_differs)

abbrev revoked_row : Device
revoked_row = row "b" "D3" (some "10.13.37.3") "REVOKED"

abbrev answer : String → String → Response
answer device_id ip = response_of memory device_id ip sample_key sample_key

abbrev small_fleet : Devices
small_fleet = row "a" "D2" (some "10.13.37.2") "ACTIVE" ∷ []

new_answer :
    (handle_new_provisioning dto (world small_fleet true)).0 ≡ ok (answer "D9" "10.13.37.3")
unfolding run_all
new_answer = refl

handle_new_provisioning_provisions_example :
    IsProvisioned dto
      (world small_fleet true)
      (handle_new_provisioning dto (world small_fleet true)).1
      (answer "D9" "10.13.37.3")
handle_new_provisioning_provisions_example =
    handle_new_provisioning_provisions (world small_fleet true) dto (answer "D9" "10.13.37.3")
      new_answer

-- The database refuses every write.
abbrev read_only : World memory
read_only = world small_fleet false

read_only_fails : (handle_new_provisioning dto read_only).0 ≡ err internal
unfolding run_all
read_only_fails = refl

memory-IsReliable : IsReliable memory
unfolding trim
memory-IsReliable = record {
  removes = λ k h e p. ok-ne-err p;
  prints_keys = λ s out h p. subst (λ o. is_placeholder (trim o) ≡ false) (ok-injective p) refl;
}

-- The same, with a peer in the kernel that the program did not make.
abbrev watched : World memory
watched = record read_only { host = record { route = λ c. none; peer = λ k. k == "OTHER" } }

watched_fails :
    ((handle_new_provisioning dto watched).0 ≡ err internal)
    × (memory.shell.peer (handle_new_provisioning dto watched).1.host "OTHER" ≡ true)
unfolding run_all
watched_fails = (refl, refl)

handle_new_provisioning_fails_peers_example : memory.shell.peer watched.host "OTHER" ≡ true
handle_new_provisioning_fails_peers_example =
    handle_new_provisioning_fails_peers watched dto memory-IsReliable internal watched_fails.0
      "OTHER" watched_fails.1

abbrev old_row : Device
old_row = row "a" "D2" (some "10.13.37.2") "ACTIVE"

rotation_answer :
    (handle_re_provisioning old_row dto (world small_fleet true)).0 ≡ ok (answer "D9" "10.13.37.2")
unfolding run_all
rotation_answer = refl

handle_re_provisioning_rotates_example :
    IsRotated old_row dto
      (world small_fleet true)
      (handle_re_provisioning old_row dto (world small_fleet true)).1
      (answer "D9" "10.13.37.2")
handle_re_provisioning_rotates_example =
    handle_re_provisioning_rotates (world small_fleet true) old_row dto (answer "D9" "10.13.37.2")
      rotation_answer

rotation_fails : (handle_re_provisioning old_row dto read_only).0 ≡ err internal
unfolding run_all
rotation_fails = refl

address_taken_blocks_example :
    (e : Failure) × ((handle_new_provisioning dto (world fleet true)).0 ≡ err e)
address_taken_blocks_example =
    address_taken_blocks (world fleet true) dto "10.13.37.3" revoked_row allocates_3
      (inr (inl refl)) refl
