-- ===== src/Telemetry/Flight/Answers.antt =====
-- drone-fleet-manager/src/telemetry/telemetry.service.ts: what the answers hold.
use vdt_provisioning_service.Prelude.{
  ℕ, ◌≡◌, ◌⊎◌, inl, inr, true, Option, none, some, List, [], ◌∷◌, ◌==◌, Elem, All, All-Elem,
  Elem-of_keep, arith, eq_iff, Bool-cases, Option-cases,
}
use vdt_provisioning_service.Services.Tables.{User}
use vdt_provisioning_service.Telemetry.Fleet.{Entry, is_own, filter_devices_for_user}
use vdt_provisioning_service.Telemetry.Flight.{
  Request, Flight, Event, ask, fetched, failed, is_hit, answer, answer_all, get_all_fleet_states,
  land, on_event, run, start,
}

module _ {F : Type 0} where
  -- An entry may go to an administrator, to a caller without a user, and to its owner.
  abbrev pub IsFor : Option User → Entry F → Type 0
  IsFor none e = Unit
  IsFor (some u) e = (u.role ≡ "ADMIN") ⊎ (e.user_id ≡ some u.id)

  own : (u : User) (e : Entry F) → is_own u e ≡ true → e.user_id ≡ some u.id
  own u e h = elim (Option-cases e.user_id) [
    | inl q ↦ absurd (ground arith)
    | inr (i, q) ↦ ground (arith, eq_iff i u.id)
  ]

  filter-IsFor :
      (es : List (Entry F)) (user : Option User) (e : Entry F)
      → Elem e (filter_devices_for_user es user)
      → Elem e es × IsFor user e
  unfolding filter_devices_for_user
  filter-IsFor es none e m = (m, tt)
  filter-IsFor es (some u) e m = elim (Bool-cases (u.role == "ADMIN")) [
    | inl b ↦ (rw b at m, inl (ground (arith, eq_iff u.role "ADMIN")))
    | inr b ↦ let (n, h) = Elem-of_keep (is_own u) es e (rw b at m) in (n, inr (own u e h))
  ]

  module _ (P : Entry F → Type 0) where
    abbrev pub IsServed : Request × List (Entry F) → Type 0
    IsServed x = (e : Entry F) → Elem e x.1 → P e × IsFor x.0.user e

    abbrev IsData : Event F → Type 0
    IsData (fetched es) = All P es
    IsData _ = Unit

    record IsFair (f : Flight F) : Type 0 where
      cached : All P f.cached_all_fleet_devices
      served : All IsServed f.answered

    answer-IsServed : (r : Request) (es : List (Entry F)) → All P es → IsServed (answer r es)
    answer-IsServed r es h e m =
        let (n, mine) = filter-IsFor es r.user e m in (All-Elem P es e h n, mine)

    answer_all-IsServed :
        (rs : List Request) (es : List (Entry F)) (done : List (Request × List (Entry F)))
        → All P es
        → All IsServed done
        → All IsServed (answer_all rs es done)
    unfolding answer_all
    answer_all-IsServed [] es done h hs = hs
    answer_all-IsServed (r ∷ rs) es done h hs =
        answer_all-IsServed rs es _ h (answer-IsServed r es h, hs)

    on_event-IsFair :
        (now : ℕ) (e : Event F) (f : Flight F) → IsData e → IsFair f → IsFair (on_event now e f)
    unfolding on_event get_all_fleet_states land
    on_event-IsFair now (ask r) f d h = elim (Bool-cases (is_hit now f)) [
      | inl b ↦
          rw b (record { cached = h.cached; served = (answer-IsServed r _ h.cached, h.served) })
      | inr b ↦ elim (Bool-cases f.in_flight) [
        | inl c ↦ rw (b, c) (record { cached = h.cached; served = h.served })
        | inr c ↦ rw (b, c) (record { cached = h.cached; served = h.served })
      ]
    ]
    on_event-IsFair now (fetched es) f d h = elim (Bool-cases f.in_flight) [
      | inl b ↦
          rw b
            (record { cached = d; served = answer_all-IsServed f.waiting es f.answered d h.served })
      | inr b ↦ rw b (record { cached = h.cached; served = h.served })
    ]
    on_event-IsFair now failed f d h = elim (Bool-cases f.in_flight) [
      | inl b ↦ rw b (record {
        cached = h.cached;
        served = answer_all-IsServed f.waiting _ f.answered h.cached h.served;
      })
      | inr b ↦ rw b (record { cached = h.cached; served = h.served })
    ]

    run-IsFair :
        (es : List (ℕ × Event F)) (f : Flight F)
        → All (λ x. IsData x.1) es
        → IsFair f
        → IsFair (run es f)
    unfolding run
    run-IsFair [] f d h = h
    run-IsFair ((now, e) ∷ es) f (d, ds) h = run-IsFair es _ ds (on_event-IsFair now e f d h)

    -- Whatever holds of every entry that a fetch returns holds of every entry of every answer, be it
    -- from the cache, from a shared fetch, or after an error; and a pilot's answer has only entries
    -- whose owner is that pilot.
    pub run-IsServed :
        (es : List (ℕ × Event F)) → All (λ x. IsData x.1) es → All IsServed (run es start).answered
    run-IsServed es d = (run-IsFair es start d (record { cached = tt; served = tt })).served
