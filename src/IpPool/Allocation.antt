-- ===== src/IpPool/Allocation.antt =====
-- The addresses that `allocateIp` gives out.
use native.Mathlib.Decide.{dec_le}
use vdt_provisioning_service.Prelude.{
  ℕ, zero, suc, ◌+◌, ◌≤◌, ◌<◌, String, ◌≡◌, ◌↔◌, ◌⊎◌, inl, inr, refl, sym, ap, ◌∙◌, subst, true,
  false, Option, none, some, List, [], ◌∷◌, contains, Elem, Elem-of_contains, contains-of_Elem,
  Elem-keep, Elem-of_keep, Bool-cases, Option-cases, eq_iff, ◌==◌, arith,
}
use vdt_provisioning_service.Prelude.Effect.{ok, err, fault, Result-cases}
use vdt_provisioning_service.Services.{Services, World}
use vdt_provisioning_service.Services.Tables.{Device, Devices}
use vdt_provisioning_service.Device.{find_active_or_pending_ips, holds_ip, ips_of, add_ip}
use vdt_provisioning_service.IpPool.{
  start_ip, total_capacity, subnet, address, first_free, allocate_ip,
}

-- `host` is the lowest number from `low` on, below `high`, whose address is not in `used`.
pub record IsLowestFree (prefix : String) (used : List String) (low high : ℕ) (ip : String)
    : Type 0 where
  pub host : ℕ
  pub at_least : low ≤ host
  pub below : host < high
  pub address_eq : ip ≡ address prefix host
  pub free : contains used ip ≡ false
  pub lowest : (j : ℕ) → low ≤ j → j < host → contains used (address prefix j) ≡ true

pub first_free-IsLowestFree :
    (rounds i : ℕ) (prefix : String) (used : List String) (ip : String)
    → first_free rounds i prefix used ≡ some ip
    → IsLowestFree prefix used i (i + rounds) ip
unfolding first_free
first_free-IsLowestFree zero i prefix used ip h = cc
first_free-IsLowestFree (suc rounds) i prefix used ip h =
    elim (Bool-cases (contains used (address prefix i))) [
      | inl taken ↦
          let ih =
            first_free-IsLowestFree rounds (i + 1) prefix used ip (rw (taken, first_free) at h) in
          record {
            host = ih.host;
            at_least = omega (arith, ih.at_least);
            below = omega (arith, ih.below);
            address_eq = ih.address_eq;
            free = ih.free;
            lowest = λ j a b. elim (dec_le (i + 1) j) [
              | yes later ↦ ih.lowest j later b
              | no now ↦ let here : j ≡ i = omega arith in rw here taken
            ];
          }
      | inr free ↦ record {
        host = i;
        at_least = omega arith;
        below = omega arith;
        address_eq = ground arith;
        free = ground arith;
        lowest = λ j a b. absurd (omega arith);
      }
    ]

pub first_free-none :
    (rounds i : ℕ) (prefix : String) (used : List String)
    → first_free rounds i prefix used ≡ none
    → (j : ℕ) → i ≤ j
    → j < i + rounds
    → contains used (address prefix j) ≡ true
unfolding first_free
first_free-none zero i prefix used h j a b = absurd (omega arith)
first_free-none (suc rounds) i prefix used h j a b =
    elim (Bool-cases (contains used (address prefix i))) [
      | inl taken ↦ elim (dec_le (i + 1) j) [
        | yes later ↦
            first_free-none rounds (i + 1) prefix used (rw (taken, first_free) at h) j later
              (omega arith)
        | no now ↦ let here : j ≡ i = omega arith in rw here taken
      ]
      | inr free ↦ cc
    ]

-- An ACTIVE or PENDING device has the address.
abbrev pub IsHeld : Devices → String → Type 0
IsHeld rows ip =
    (d : Device) × Elem d rows
    × ((d.status ≡ "PENDING") ⊎ (d.status ≡ "ACTIVE"))
    × (d.vpn_ip ≡ some ip)

status-holds_ip : (d : Device) → holds_ip d ≡ true → (d.status ≡ "PENDING") ⊎ (d.status ≡ "ACTIVE")
status-holds_ip d h = elim (Bool-cases (d.status == "PENDING")) [
  | inl e ↦ inl ((eq_iff d.status "PENDING").0 e)
  | inr e ↦ elim (Bool-cases (d.status == "ACTIVE")) [
    | inl f ↦ inr ((eq_iff d.status "ACTIVE").0 f)
    | inr f ↦ cc (rw (e, f) at h)
  ]
]

holds_ip-status :
    (d : Device) (ip : String)
    → (d.status ≡ "PENDING") ⊎ (d.status ≡ "ACTIVE")
    → d.vpn_ip ≡ some ip
    → holds_ip d ≡ true
holds_ip-status d ip (inl e) h = rw (e, h) refl
holds_ip-status d ip (inr e) h = rw (e, h) refl

Elem-ips_of :
    (rows : Devices) (ip : String)
    → Elem ip (ips_of rows)
    → (d : Device) × Elem d rows × (d.vpn_ip ≡ some ip)
Elem-ips_of [] ip m = elim m [ ]
Elem-ips_of (r ∷ rs) ip m = go r.vpn_ip refl (Elem-ips_of rs ip) m
  where
    go :
        (o : Option String)
        → r.vpn_ip ≡ o
        → (Elem ip (ips_of rs) → (d : Device) × Elem d rs × (d.vpn_ip ≡ some ip))
        → Elem ip (add_ip o (ips_of rs))
        → (d : Device) × Elem d (r ∷ rs) × (d.vpn_ip ≡ some ip)
    go none e ih n = let (d, k, h) = ih n in (d, inr k, h)
    go (some s) e ih (inl q) = (r, inl refl, e ∙ ap some (sym q))
    go (some s) e ih (inr n) = let (d, k, h) = ih n in (d, inr k, h)

add_ip-Elem :
    (o : Option String) (ips : List String) (ip : String) → Elem ip ips → Elem ip (add_ip o ips)
add_ip-Elem none ips ip m = m
add_ip-Elem (some s) ips ip m = inr m

ips_of-Elem :
    (rows : Devices) (ip : String) (d : Device)
    → Elem d rows
    → d.vpn_ip ≡ some ip
    → Elem ip (ips_of rows)
ips_of-Elem [] ip d m h = elim m [ ]
ips_of-Elem (r ∷ rs) ip d (inl e) h =
    let held : r.vpn_ip ≡ some ip = ap (λ (x : Device). x.vpn_ip) (sym e) ∙ h in
    subst (λ o. Elem ip (add_ip o (ips_of rs))) (sym held) (inl refl)
ips_of-Elem (r ∷ rs) ip d (inr m) h = add_ip-Elem r.vpn_ip (ips_of rs) ip (ips_of-Elem rs ip d m h)

module _ {v : Services} (w : World v) where
  abbrev rows : Devices
  rows = v.database.devices w.db

  -- What the query returns holds exactly the addresses of the ACTIVE and PENDING devices.
  pub contains-IsHeld :
      (found : Devices) (ip : String)
      → (v.database.find_many holds_ip w.db).0 ≡ ok found
      → (contains (ips_of found) ip ≡ true) ↔ IsHeld (v.database.devices w.db) ip
  contains-IsHeld found ip q = (
    λ c.
        let (d, m, e) = Elem-ips_of found ip (Elem-of_contains _ ip c) in
        let (n, h) = Elem-of_keep holds_ip _ d ((v.database.find_many_finds _ _ found q d).0 m) in
        (d, n, status-holds_ip d h, e),
    λ held.
        let (d, n, h, e) = held in
        contains-of_Elem _ ip (
          ips_of-Elem found ip d
            ((v.database.find_many_finds _ _ found q d).1
              (Elem-keep holds_ip _ d n (holds_ip-status d ip h e)))
            e),
  )

-- An address of the pool, with the numbers below it in use.
pub record IsAllocated (prefix : String) (rows : Devices) (ip : String) : Type 0 where
  pub host : ℕ
  pub at_least : 2 ≤ host
  pub at_most : host ≤ 254
  pub address_eq : ip ≡ address prefix host
  pub free : ¬ IsHeld rows ip
  pub lowest : (j : ℕ) → 2 ≤ j → j < host → IsHeld rows (address prefix j)

-- Every address of the pool is in use.
abbrev pub IsFull : String → Devices → Type 0
IsFull prefix rows = (j : ℕ) → 2 ≤ j → j ≤ 254 → IsHeld rows (address prefix j)

module _ {v : Services} (w : World v) where
  searched :
      (found : Devices) (ip : String)
      → (v.database.find_many holds_ip w.db).0 ≡ ok found
      → first_free total_capacity start_ip (subnet v) (ips_of found) ≡ some ip
      → IsAllocated (subnet v) (v.database.devices w.db) ip
  searched found ip q e =
      let f = first_free-IsLowestFree total_capacity start_ip (subnet v) (ips_of found) ip e in
      record {
        host = f.host;
        at_least = f.at_least;
        at_most = omega (arith, f.below);
        address_eq = f.address_eq;
        free = λ held. cc (f.free, (contains-IsHeld w found ip q).1 held);
        lowest = λ j a b. (contains-IsHeld w found _ q).0 (f.lowest j a b);
      }

  exhausted :
      (found : Devices)
      → (v.database.find_many holds_ip w.db).0 ≡ ok found
      → first_free total_capacity start_ip (subnet v) (ips_of found) ≡ none
      → IsFull (subnet v) (v.database.devices w.db)
  exhausted found q e j a b =
      (contains-IsHeld w found _ q).0
        (first_free-none total_capacity start_ip (subnet v) (ips_of found) e j a (omega arith))

  -- An address that is returned is the lowest of .2 to .254 that no ACTIVE or PENDING device has.
  pub allocate_ip-IsAllocated :
      (ip : String)
      → (allocate_ip w).0 ≡ ok ip
      → IsAllocated (subnet v) (v.database.devices w.db) ip
  unfolding allocate_ip find_active_or_pending_ips
  allocate_ip-IsAllocated ip h = elim (Result-cases (v.database.find_many holds_ip w.db).0) [
    | inl (found, q) ↦
        elim (Option-cases (first_free total_capacity start_ip (subnet v) (ips_of found))) [
          | inl e ↦ absurd (ground arith)
          | inr (s, e) ↦ searched found ip q (ground arith)
        ]
    | inr (e, q) ↦ absurd (ground arith)
  ]

  full_fails :
      (found : Devices)
      → (v.database.find_many holds_ip w.db).0 ≡ ok found
      → IsFull (subnet v) (v.database.devices w.db)
      → first_free total_capacity start_ip (subnet v) (ips_of found) ≡ none
  full_fails found q full =
      elim (Option-cases (first_free total_capacity start_ip (subnet v) (ips_of found))) [
        | inl e ↦ e
        | inr (ip, e) ↦
            let a = searched found ip q e in
            absurd (
              a.free (
                subst (IsHeld (v.database.devices w.db)) (sym a.address_eq)
                  (full a.host a.at_least a.at_most)))
      ]

  -- If the query for the addresses in use returns, allocation fails exactly when every address of
  -- .2 to .254 is that of an ACTIVE or PENDING device.
  pub allocate_ip-IsFull :
      (used : List String)
      → (find_active_or_pending_ips w).0 ≡ ok used
      → ((allocate_ip w).0 ≡ err fault) ↔ IsFull (subnet v) (v.database.devices w.db)
  unfolding allocate_ip find_active_or_pending_ips
  allocate_ip-IsFull used h = elim (Result-cases (v.database.find_many holds_ip w.db).0) [
    | inl (found, q) ↦ (
      λ fails. elim (Option-cases (first_free total_capacity start_ip (subnet v) (ips_of found))) [
        | inl none_left ↦ exhausted found q none_left
        | inr (s, there) ↦ absurd (ground arith)
      ],
      λ full. let none_left = full_fails found q full in ground arith,
    )
    | inr (f, q) ↦ absurd (ground arith)
  ]

  -- Allocation only reads the tables.
  pub allocate_ip_keeps :
      (v.database.devices (allocate_ip w).1.db ≡ v.database.devices w.db)
      × ((allocate_ip w).1.host ≡ w.host)
      × ((allocate_ip w).1.store ≡ w.store)
      × ((allocate_ip w).1.now ≡ w.now)
  unfolding allocate_ip find_active_or_pending_ips
  allocate_ip_keeps = ground (arith, v.database.find_many_keeps holds_ip w.db)
