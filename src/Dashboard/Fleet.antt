-- ===== src/Dashboard/Fleet.antt =====
-- Whose drones the fleet shows.
use vdt_provisioning_service.Prelude.{
  ◌≡◌, inl, inr, true, false, Bool, ◌||◌, ◌==◌, Bool-cases, Option-cases, refl, sym, ap, ◌∙◌,
  Option, none, some, List, [], ◌∷◌, map, keep,
}
use vdt_provisioning_service.Prelude.Map
use vdt_provisioning_service.Prelude.Map.{Map}
use vdt_provisioning_service.Prelude.Effect.{ok, ok-ne-err, ok-injective, bind_rule}
use vdt_provisioning_service.Services.{Services, World}
use vdt_provisioning_service.Services.Tables.{Device, Devices, User}
use vdt_provisioning_service.Wireguard.{PeerStats, get_live_peer_stats}
use vdt_provisioning_service.Device.{owned_by, find_all_devices}
use vdt_provisioning_service.Device.Laws.{devices}
use vdt_provisioning_service.Dashboard.{FleetItem, viewer, fleet_item, get_fleet}

item_row : (d : Device) (o : Option PeerStats) → (fleet_item d o).row ≡ d
item_row d none = refl
item_row d (some p) = refl

items :
    (m : Map PeerStats) (ds : Devices)
    → map (λ (i : FleetItem). i.row) (map (λ d. fleet_item d (Map.get m d.vpn_public_key)) ds) ≡ ds
items m [] = refl
items m (d ∷ ds) = rw (items m ds, item_row d (Map.get m d.vpn_public_key)) refl

-- Whether a user is shown a drone.
abbrev pub is_shown : Option User → Device → Bool
is_shown none d = true
is_shown (some u) d =
    u.role == "ADMIN" || (u.id == "" || elim d.user_id [ none ↦ false | some i ↦ i == u.id ])

is_shown-owned_by : (user : Option User) (d : Device) → owned_by (viewer user) d ≡ is_shown user d
is_shown-owned_by none d = refl
is_shown-owned_by (some u) d = elim (Bool-cases (u.role == "ADMIN")) [
  | inl e ↦ rw e refl
  | inr e ↦ rw e (elim (Bool-cases (u.id == "")) [
    | inl f ↦ rw f refl
    | inr f ↦ rw f (elim (Option-cases d.user_id) [ inl o ↦ rw o refl | inr (i, o) ↦ rw o refl ])
  ])
]

keep_same :
    (p q : Device → Bool) (ds : Devices) → ((d : Device) → p d ≡ q d) → keep p ds ≡ keep q ds
keep_same p q [] h = refl
keep_same p q (d ∷ ds) h = rw (h d, keep_same p q ds h) refl

module _ {v : Services} (w : World v) where
  -- A fleet that is returned has exactly these rows of the table, newest first: all of them for an
  -- administrator, without a user or for a user without an id, and otherwise those that name the
  -- user as their owner.
  pub get_fleet_rows :
      (user : Option User) (r : List FleetItem)
      → (get_fleet user w).0 ≡ ok r
      → map (λ (i : FleetItem). i.row) r ≡ keep (is_shown user) (devices w)
  unfolding get_fleet find_all_devices
  get_fleet_rows user r =
      bind_rule
        (λ x. x.0 ≡ ok r → map (λ (i : FleetItem). i.row) r ≡ keep (is_shown user) (devices w))
        (find_all_devices (viewer user)) _ w
        (λ ds q.
          bind_rule
            (λ x. x.0 ≡ ok r → map (λ (i : FleetItem). i.row) r ≡ keep (is_shown user) (devices w))
            get_live_peer_stats _ (find_all_devices (viewer user) w).1
            (λ m p h.
              ap (map (λ (i : FleetItem). i.row)) (sym (ok-injective h))
              ∙ items m ds
              ∙ v.database.find_newest_first_finds (owned_by (viewer user)) w.db ds q
              ∙ keep_same (owned_by (viewer user)) (is_shown user) (devices w)
                  (is_shown-owned_by user))
            (λ e p h. absurd (ok-ne-err (sym h))))
        (λ e q h. absurd (ok-ne-err (sym h)))
