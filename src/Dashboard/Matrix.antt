-- ===== src/Dashboard/Matrix.antt =====
-- The map of addresses against the table.
use vdt_provisioning_service.Prelude.{
  ℕ, zero, suc, ◌+◌, String, ◌≡◌, ◌⊎◌, inl, inr, refl, sym, ap, subst, ◌∙◌, true, false, not, ◌&&◌,
  ◌||◌, Option, none, some, List, [], ◌∷◌, ◌==◌, keep, Elem, All, arith, eq_iff, Bool-cases,
  if◌then◌else◌,
}
use vdt_provisioning_service.Prelude.Map
use vdt_provisioning_service.Prelude.Map.{Map, get-set}
use vdt_provisioning_service.Prelude.Effect.{Act, Result, ok, ok-ne-err, ok-injective, bind_rule}
use vdt_provisioning_service.Services.{Services, World}
use vdt_provisioning_service.Services.Tables.{Device, Devices}
use vdt_provisioning_service.Wireguard.{get_live_peer_stats}
use vdt_provisioning_service.Device.{owned_by, find_all_devices}
use vdt_provisioning_service.Device.Laws.{devices}
use vdt_provisioning_service.IpPool.{subnet, address}
use vdt_provisioning_service.Dashboard.{
  gateway, IpMatrixCell, TelemetryState, available, active, shown_at, ip_device_map, cell_of, cells,
  gateway_cell, get_ip_pool_matrix,
}

-- The device keeps the address from others: `allocateIp` skips it.
pub record Occupies (ip : String) (d : Device) : Type 0 where
  pub at : d.vpn_ip ≡ some ip
  pub status : (d.status == "ACTIVE" || d.status == "PENDING") ≡ true
  pub named : (ip == "") ≡ false

none-ne-some : {A : Type 0} {a : A} → none ≡ some a → ⊥
none-ne-some e = cc

same_text : {x y : String} → some x ≡ some y → x ≡ y
same_text e = cc

shown :
    (d : Device) (o : Option String) (m : Map Device) (ip : String)
    → d.vpn_ip ≡ o
    → (Map.get (shown_at d o m) ip ≡ Map.get m ip × (Occupies ip d → ⊥))
      ⊎ ((Map.get (shown_at d o m) ip ≡ some d) × Occupies ip d)
shown d none m ip q = inl (refl, λ h. none-ne-some (sym q ∙ h.at))
shown d (some x) m ip q =
    elim (Bool-cases (not (x == "") && (d.status == "ACTIVE" || d.status == "PENDING"))) [
      | inl e ↦ elim (Bool-cases (x == ip)) [
        | inl same ↦
            let at : x ≡ ip = ground (arith, eq_iff x ip) in
            inr (
              rw e (get-set m x ip d ∙ ap (λ b. if b then some d else Map.get m ip) same),
              record {
                at = q ∙ ap some at;
                status = ground arith;
                named = subst (λ y. (y == "") ≡ false) at (ground arith);
              },
            )
        | inr other ↦ inl (
          rw e (get-set m x ip d ∙ ap (λ b. if b then some d else Map.get m ip) other),
          λ h. let at : x ≡ ip = same_text (sym q ∙ h.at) in ground (arith, eq_iff x ip),
        )
      ]
      | inr e ↦ inl (
        rw e refl,
        λ h.
            let at : x ≡ ip = same_text (sym q ∙ h.at) in
            let named = ap (λ y. y == "") at ∙ h.named in let status = h.status in ground arith,
      )
    ]

-- What the map of devices says of an address.
pub record IsMapped (ds : Devices) (m : Map Device) (ip : String) (o : Option Device) : Type 0 where
  pub free : o ≡ none → (Map.get m ip ≡ none) × ((d : Device) → Elem d ds → Occupies ip d → ⊥)
  pub held : (d : Device) → o ≡ some d → (Map.get m ip ≡ some d) ⊎ (Elem d ds × Occupies ip d)

ip_device_map-IsMapped :
    (ds : Devices) (m : Map Device) (ip : String)
    → IsMapped ds m ip (Map.get (ip_device_map ds m) ip)
unfolding ip_device_map
ip_device_map-IsMapped [] m ip = record { free = λ e. (e, λ d x. elim x [ ]); held = λ d e. inl e }
ip_device_map-IsMapped (d ∷ ds) m ip =
    let later = ip_device_map-IsMapped ds (shown_at d d.vpn_ip m) ip in
    elim (shown d d.vpn_ip m ip refl) [
      | inl (same, not_here) ↦ record {
        free = λ e.
            let (before, rest) = later.free e in
            (sym same ∙ before, λ c x h. elsewhere c x h not_here rest);
        held = λ c e. elim (later.held c e) [
          | inl q ↦ inl (sym same ∙ q)
          | inr (x, h) ↦ inr (inr x, h)
        ];
      }
      | inr (here, h) ↦ record {
        free = λ e. absurd (none-ne-some (sym (later.free e).0 ∙ here));
        held = λ c e. elim (later.held c e) [
          | inl q ↦
              let same : d ≡ c = same_row (sym here ∙ q) in
              inr (inl (sym same), subst (Occupies ip) same h)
          | inr (x, k) ↦ inr (inr x, k)
        ];
      }
    ]
  where
    same_row : {a b : Device} → some a ≡ some b → a ≡ b
    same_row e = cc

    elsewhere :
        (c : Device)
        → Elem c (d ∷ ds)
        → Occupies ip c
        → (Occupies ip d → ⊥)
        → ((c : Device) → Elem c ds → Occupies ip c → ⊥)
        → ⊥
    elsewhere c (inl e) h here rest = here (subst (Occupies ip) e h)
    elsewhere c (inr x) h here rest = rest c x h

-- A cell is true to the table: a device is named only at the address it occupies, and an address
-- is available only if no ACTIVE or PENDING device has it.
pub record IsTrue (rows : Devices) (c : IpMatrixCell) : Type 0 where
  pub free : c.status ≡ available → (d : Device) → Elem d rows → Occupies c.ip d → ⊥
  pub held :
      c.status ≡ active
      → (d : Device) × Elem d rows × Occupies c.ip d × (c.device_id ≡ some d.device_id)

available-ne-active : available ≡ active → ⊥
available-ne-active e = cc

cell-IsTrue :
    (rows : Devices) (now : ℕ) (states : Map TelemetryState) (ip : String) (host : ℕ)
    (o : Option Device)
    → IsMapped rows [] ip o
    → IsTrue rows (cell_of now states ip host o)
unfolding Map.get
cell-IsTrue rows now states ip host none h = record {
  free = λ e. (h.free refl).1;
  held = λ e. absurd (available-ne-active e);
}
cell-IsTrue rows now states ip host (some d) h = record {
  free = λ e. absurd (available-ne-active (sym e));
  held =
      λ e. elim (h.held d refl) [ inl q ↦ absurd (none-ne-some q) | inr (x, k) ↦ (d, x, k, refl) ];
}

cells-All :
    (rows : Devices) (now : ℕ) (states : Map TelemetryState) (prefix : String) (rounds host : ℕ)
    → All (IsTrue rows) (cells now states prefix (ip_device_map rows []) rounds host)
unfolding cells
cells-All rows now states prefix zero host = tt
cells-All rows now states prefix (suc rounds) host = (
  cell-IsTrue rows now states (address prefix host) host _
      (ip_device_map-IsMapped rows [] (address prefix host)),
  cells-All rows now states prefix rounds (host + 1),
)

keep-owned_by : (rows : Devices) → keep (owned_by none) rows ≡ rows
keep-owned_by [] = refl
keep-owned_by (d ∷ ds) = ap (λ r. d ∷ r) (keep-owned_by ds)

gateway-ne : gateway ≡ available → ⊥
gateway-ne e = cc

gateway-ne-active : gateway ≡ active → ⊥
gateway-ne-active e = cc

gateway-IsTrue : (rows : Devices) (prefix : String) → IsTrue rows (gateway_cell prefix)
gateway-IsTrue rows prefix = record {
  free = λ e. absurd (gateway-ne e);
  held = λ e. absurd (gateway-ne-active e);
}

module _ {v : Services} (w : World v) where
  -- In a matrix that is returned, a cell names a device only at an address that it occupies as an
  -- ACTIVE or PENDING row of the table, and a cell is available only if no such row has its address.
  pub get_ip_pool_matrix-IsTrue :
      (states : Act (World v) (Map TelemetryState)) (r : List IpMatrixCell)
      → (get_ip_pool_matrix states w).0 ≡ ok r
      → All (IsTrue (devices w)) r
  unfolding get_ip_pool_matrix find_all_devices
  get_ip_pool_matrix-IsTrue states r =
      bind_rule True (find_all_devices none) _ w
        (λ ds q.
          bind_rule True get_live_peer_stats _ (find_all_devices none w).1
            (λ peers p.
              bind_rule True states _ (get_live_peer_stats (find_all_devices none w).1).1
                (λ known k h. subst (All (IsTrue (devices w))) (ok-injective h) (
                  gateway-IsTrue (devices w) (subnet v),
                  subst
                      (λ rows.
                        All (IsTrue (devices w))
                          (cells w.now known (subnet v) (ip_device_map rows []) 253 2))
                      (sym (all_rows ds q)) (cells-All (devices w) w.now known (subnet v) 253 2),
                ))
                (λ e k h. absurd (ok-ne-err (sym h))))
            (λ e p h. absurd (ok-ne-err (sym h))))
        (λ e q h. absurd (ok-ne-err (sym h)))
    where
      True : Result (List IpMatrixCell) × World v → Type 0
      True x = x.0 ≡ ok r → All (IsTrue (devices w)) r

      all_rows : (ds : Devices) → (find_all_devices none w).0 ≡ ok ds → ds ≡ devices w
      all_rows ds q =
          v.database.find_newest_first_finds (owned_by none) w.db ds q ∙ keep-owned_by (devices w)
