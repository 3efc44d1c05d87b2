-- ===== src/Telemetry/Flight/Laws.antt =====
-- drone-fleet-manager/src/telemetry/telemetry.service.ts: at most one fetch at a time, and no request
-- that is left without an answer.
use vdt_provisioning_service.Prelude.{
  ℕ, ◌+◌, ◌≡◌, ◌⊎◌, inl, inr, refl, ◌∙◌, true, false, List, [], ◌∷◌, length, arith, Bool-cases,
  if◌then◌else◌,
}
use vdt_provisioning_service.Telemetry.Fleet.{Entry}
use vdt_provisioning_service.Telemetry.Flight.{
  Request, Flight, Event, ask, fetched, failed, is_hit, answer, answer_all, get_all_fleet_states,
  land, on_event, run, count_ask, requests, start,
}

module _ {F : Type 0} where
  -- At most one fetch is under way, and nobody waits without one.
  pub record IsCoherent (f : Flight F) : Type 0 where
    pub one : f.fetches ≡ (if f.in_flight then f.ended + 1 else f.ended)
    pub idle : (f.in_flight ≡ true) ⊎ (f.waiting ≡ [])

  nobody : (f : Flight F) → f.in_flight ≡ false → IsCoherent f → f.waiting ≡ []
  nobody f b c = elim c.idle [ inl busy ↦ absurd (ground arith) | inr empty ↦ empty ]

  abbrev heard : Flight F → ℕ
  heard f = length f.waiting + length f.answered

  length-answer_all :
      (rs : List Request) (es : List (Entry F)) (done : List (Request × List (Entry F)))
      → length (answer_all rs es done) ≡ length rs + length done
  unfolding answer_all
  length-answer_all [] es done = omega arith
  length-answer_all (r ∷ rs) es done = ground (arith, length-answer_all rs es (answer r es ∷ done))

  on_event-IsCoherent :
      (now : ℕ) (e : Event F) (f : Flight F)
      → IsCoherent f
      → IsCoherent (on_event now e f) × (heard (on_event now e f) ≡ count_ask e + heard f)
  unfolding on_event get_all_fleet_states land
  on_event-IsCoherent now (ask r) f c = elim (Bool-cases (is_hit now f)) [
    | inl h ↦ rw h (record { one = c.one; idle = c.idle }, omega arith)
    | inr h ↦ elim (Bool-cases f.in_flight) [
      | inl b ↦ rw (h, b) (record { one = ground arith; idle = inl refl }, omega arith)
      | inr b ↦ rw (h, b) (record { one = ground arith; idle = inl refl }, omega arith)
    ]
  ]
  on_event-IsCoherent now (fetched es) f c = elim (Bool-cases f.in_flight) [
    | inl b ↦ rw b (
      record { one = ground arith; idle = inr refl },
      ground (arith, length-answer_all f.waiting es f.answered),
    )
    | inr b ↦ rw b (record { one = ground (arith, c.one); idle = inr (nobody f b c) }, omega arith)
  ]
  on_event-IsCoherent now failed f c = elim (Bool-cases f.in_flight) [
    | inl b ↦ rw b (
      record { one = ground arith; idle = inr refl },
      ground (arith, length-answer_all f.waiting f.cached_all_fleet_devices f.answered),
    )
    | inr b ↦ rw b (record { one = ground (arith, c.one); idle = inr (nobody f b c) }, omega arith)
  ]

  run-IsCoherent_from :
      (es : List (ℕ × Event F)) (f : Flight F)
      → IsCoherent f
      → IsCoherent (run es f) × (heard (run es f) ≡ requests es + heard f)
  unfolding run requests
  run-IsCoherent_from [] f c = (c, omega arith)
  run-IsCoherent_from ((now, e) ∷ es) f c =
      let (d, one) = on_event-IsCoherent now e f c in
      let (last, all) = run-IsCoherent_from es (on_event now e f) d in (last, omega arith)

  -- From the start and after any sequence of requests and ends of fetches, at most one fetch is
  -- under way, and no request waits when none is; each request is waiting or has been answered.
  pub run-IsCoherent :
      (es : List (ℕ × Event F))
      → IsCoherent (run es start)
        × (length (run es start).waiting + length (run es start).answered ≡ requests es)
  run-IsCoherent es =
      let (c, all) = run-IsCoherent_from es start (record { one = refl; idle = inr refl }) in
      (c, omega arith)

  abbrev pub IsEnd : Event F → Type 0
  IsEnd (ask r) = ⊥
  IsEnd _ = Unit

  counted :
      (waiting : List Request) (done : List (Request × List (Entry F))) (n : ℕ)
      → waiting ≡ []
      → length waiting + length done ≡ n
      → length done ≡ n
  counted waiting done n h q = omega (arith, rw h at q)

  end_idle :
      (now : ℕ) (e : Event F) (f : Flight F)
      → IsEnd e
      → ((on_event now e f).in_flight ≡ false) × (count_ask e ≡ 0)
  unfolding on_event land
  end_idle now (ask r) f h = absurd h
  end_idle now (fetched es) f h = elim (Bool-cases f.in_flight) [
    | inl b ↦ rw b (refl, refl)
    | inr b ↦ rw b (refl, refl)
  ]
  end_idle now failed f h = elim (Bool-cases f.in_flight) [
    | inl b ↦ rw b (refl, refl)
    | inr b ↦ rw b (refl, refl)
  ]

  -- Whatever came before, the end of the fetch, be it with data or with an error, leaves no request
  -- waiting and no fetch under way: all requests that were made have been answered.
  pub run_lands :
      (es : List (ℕ × Event F)) (now : ℕ) (e : Event F)
      → IsEnd e
      → let f = on_event now e (run es start) in
        (f.waiting ≡ [])
        × (length f.answered ≡ requests es)
        × (f.in_flight ≡ false)
        × (f.fetches ≡ f.ended)
  run_lands es now e h =
      let (before, asked) = run-IsCoherent_from es start (record { one = refl; idle = inr refl }) in
      let (c, all) = on_event-IsCoherent now e (run es start) before in
      let (idle, none_new) = end_idle now e (run es start) h in
      let empty = nobody (on_event now e (run es start)) idle c in
      (empty, counted _ _ _ empty (all ∙ ground arith), idle, rw (idle) at c.one)
