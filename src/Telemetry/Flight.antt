-- ===== src/Telemetry/Flight.antt =====
-- drone-fleet-manager/src/telemetry/telemetry.service.ts: getAllFleetStates, where the requests that
-- come during a fetch wait for it together. A fetch ends with an event: its data, or an error.
pub mod Laws
pub mod Answers
mod Tests
use vdt_provisioning_service.Prelude.{
  ℕ, ◌+◌, ◌-◌, String, ◌≡◌, ◌≢◌, ◌⊎◌, inl, inr, refl, sym, ap, ◌∙◌, Bool, true, false, not, Option,
  none, some, List, [], ◌∷◌, ◌++◌, ◌==◌, ◌&&◌, eqb, ltb, length, Elem, Elem-of_keep, arith, eq_iff,
  Bool-cases, Option-cases, if◌then◌else◌,
}
use vdt_provisioning_service.Services.Tables.{User}
use vdt_provisioning_service.Telemetry.Fleet.{Entry, is_own, filter_devices_for_user}

-- A request by its number and its user.
pub record Request : Type 0 where
  pub number : ℕ
  pub user : Option User

pub record Flight (F : Type 0) : Type 0 where
  pub last_fleet_cache_time : ℕ
  pub cached_all_fleet_devices : List (Entry F)
  -- whether there is a `fleetSingleFlightPromise`, and who awaits it
  pub in_flight : Bool
  pub waiting : List Request
  pub answered : List (Request × List (Entry F))
  -- how often `fetchRawFleetFromStorage` was called, and how often it ended
  pub fetches : ℕ
  pub ended : ℕ

pub data Event (F : Type 0) : Type 0 where
  ask : Request → Event F
  fetched : List (Entry F) → Event F
  failed : Event F

module _ {F : Type 0} where
  abbrev pub is_hit : ℕ → Flight F → Bool
  is_hit now f =
      ltb (now - f.last_fleet_cache_time) 500 && not (eqb (length f.cached_all_fleet_devices) 0)

  abbrev pub answer : Request → List (Entry F) → Request × List (Entry F)
  answer r es = (r, filter_devices_for_user es r.user)

  unfoldable pub answer_all :
      List Request
      → List (Entry F)
      → List (Request × List (Entry F))
      → List (Request × List (Entry F))
  answer_all [] es done = done
  answer_all (r ∷ rs) es done = answer_all rs es (answer r es ∷ done)

  -- The first request of a flight starts the fetch.
  unfoldable pub get_all_fleet_states : ℕ → Request → Flight F → Flight F
  get_all_fleet_states now r f =
      if is_hit now f
      then record f { answered = answer r f.cached_all_fleet_devices ∷ f.answered }
      else if f.in_flight
      then record f { waiting = r ∷ f.waiting }
      else record f { in_flight = true; waiting = r ∷ f.waiting; fetches = f.fetches + 1 }

  -- What both callbacks of the promise do, then those who wait go on with `es`.
  unfoldable pub land : List (Entry F) → Flight F → Flight F
  land es f = record f {
    in_flight = false;
    waiting = [];
    answered = answer_all f.waiting es f.answered;
    ended = f.ended + 1;
  }

  -- A promise ends once: without a flight there is none to end.
  unfoldable pub on_event : ℕ → Event F → Flight F → Flight F
  on_event now (ask r) f = get_all_fleet_states now r f
  on_event now (fetched es) f =
      if f.in_flight
      then land es (record f { cached_all_fleet_devices = es; last_fleet_cache_time = now })
      else f
  on_event now failed f = if f.in_flight then land f.cached_all_fleet_devices f else f

  unfoldable pub run : List (ℕ × Event F) → Flight F → Flight F
  run [] f = f
  run ((now, e) ∷ es) f = run es (on_event now e f)

  abbrev pub count_ask : Event F → ℕ
  count_ask (ask r) = 1
  count_ask _ = 0

  unfoldable pub requests : List (ℕ × Event F) → ℕ
  requests [] = 0
  requests ((now, e) ∷ es) = count_ask e + requests es

abbrev pub start : {F : Type 0} → Flight F
start = record {
  last_fleet_cache_time = 0;
  cached_all_fleet_devices = [];
  in_flight = false;
  waiting = [];
  answered = [];
  fetches = 0;
  ended = 0;
}
