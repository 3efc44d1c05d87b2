-- ===== src/Telemetry/Flight/Tests.antt =====
-- Three requests during one fetch, and a fetch from services in memory.
use vdt_provisioning_service.Prelude.{
  ℕ, String, ◌≡◌, refl, false, Option, none, some, List, [], ◌∷◌, All, length,
}
use vdt_provisioning_service.Services.Tables.{User}
use vdt_provisioning_service.Telemetry.Fleet.{Entry, filter_devices_for_user}
use vdt_provisioning_service.Telemetry.Flight.{
  Request, Flight, Event, ask, fetched, failed, get_all_fleet_states, land, answer_all, on_event,
  run, requests, start,
}
use vdt_provisioning_service.Telemetry.Flight.Laws.{run_lands}
use vdt_provisioning_service.Telemetry.Flight.Answers.{IsServed, run-IsServed}

abbrev user : String → String → User
user id role = record { id = id; email = ""; password_hash = ""; full_name = ""; role = role }

abbrev entry : String → Option String → Entry ℕ
entry id owner = record {
  id = id;
  device_id = id;
  hardware_model = "X500";
  vpn_ip = none;
  status = "ACTIVE";
  last_seen = 0;
  user_id = owner;
  telemetry = none;
  source = none;
}

abbrev fleet : List (Entry ℕ)
fleet = entry "D3" (some "user-2") ∷ entry "D4" none ∷ []

abbrev pilot : Request
pilot = record { number = 1; user = some (user "user-2" "PILOT") }

abbrev admin : Request
admin = record { number = 2; user = some (user "user-1" "ADMIN") }

-- Two requests share a fetch, the third is answered from the cache.
abbrev events : List (ℕ × Event ℕ)
events = (1000, ask pilot) ∷ (1001, ask admin) ∷ (1100, fetched fleet) ∷ (1200, ask pilot) ∷ []

open_flight : Unit {0}
unfolding run on_event get_all_fleet_states land answer_all filter_devices_for_user
open_flight = tt

shared :
    ((run events start).fetches ≡ 1)
    × ((run events start).answered
        ≡ (pilot, entry "D3" (some "user-2") ∷ [])
          ∷ (pilot, entry "D3" (some "user-2") ∷ [])
          ∷ (admin, fleet)
          ∷ [])
unfolding open_flight
shared = (refl, refl)

abbrev asked : List (ℕ × Event ℕ)
asked = (1000, ask pilot) ∷ (1001, ask admin) ∷ []

run_lands_example :
    let f : Flight ℕ = on_event 5000 failed (run asked start) in
    (f.waiting ≡ [])
    × (length f.answered ≡ requests asked)
    × (f.in_flight ≡ false)
    × (f.fetches ≡ f.ended)
run_lands_example = run_lands asked 5000 failed tt

run-IsServed_example : All (IsServed (λ e. e.hardware_model ≡ "X500")) (run events start).answered
run-IsServed_example =
    run-IsServed (λ e. e.hardware_model ≡ "X500") events (tt, (tt, ((refl, (refl, tt)), (tt, tt))))
