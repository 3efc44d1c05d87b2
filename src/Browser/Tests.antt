-- ===== src/Browser/Tests.antt =====
-- A pilot's page with one drone, two payloads and frames; measured numbers are natural numbers.
use vdt_provisioning_service.Prelude.{
  ℕ, ◌*◌, ◌≤◌, ◌≡◌, inr, refl, Bool, true, false, none, some, List, [], ◌∷◌, eqb, length, arith,
}
use vdt_provisioning_service.Prelude.Map
use vdt_provisioning_service.Telemetry.{Payload}
use vdt_provisioning_service.Telemetry.Normalize.{shown}
use vdt_provisioning_service.Telemetry.Fixtures.{reading, short}
use vdt_provisioning_service.Browser.{
  Page, put_telemetry, process_telemetry_update, process_all, on_frame, on_visible,
  queue_telemetry_for_render,
}
use vdt_provisioning_service.Browser.Queue.{
  Event, arrives, frame, visible, IsWaiting, queue_all, latest, on_event, run, queue_all-latest,
  run-IsWaiting,
}
use vdt_provisioning_service.Browser.Frames.{telemetry_of, on_frame_shows}
use vdt_provisioning_service.Browser.Fleet.{ids, run-ids}
use vdt_provisioning_service.Browser.Watchdog
use vdt_provisioning_service.Browser.Watchdog.{
  Sample, Watchdog, sampled, update_fpv_stats, recoveries, recoveries_lem,
}
use vdt_provisioning_service.Browser.Trails.{IsShort, run-IsShort}

abbrev sample : ℕ → ℕ → Sample
sample f b = record { current_frames_decoded = f; current_bytes = b }

abbrev watched : List Watchdog.Event
watched =
    Watchdog.closed ∷ sampled (sample 30 9000) ∷ sampled (sample 30 9000) ∷ Watchdog.visible ∷ []

abbrev asleep : Watchdog
asleep = record { frozen_frame_ticks = 0; last_frames_decoded = 0; last_rtp_bytes = 0 }

abbrev is_zero : ℕ → Bool
is_zero n = eqb n 0

abbrev opened : Page ℕ
opened = record {
  telemetry_render_queue = [];
  is_render_frame_scheduled = false;
  role = some "PILOT";
  fleet_devices = record { device_id = "D3"; vpn_ip = "10.13.37.3"; telemetry = none } ∷ [];
  markers = [];
  trails = [];
}

abbrev full : Payload ℕ
full = shown reading

-- The payloads of a drone of the list and of another one.
abbrev stranger : Payload ℕ
stranger = record full { device_id = "D9" }

abbrev waits : Page ℕ
waits = record opened {
  telemetry_render_queue = ("D9", stranger) ∷ ("D3", full) ∷ [];
  is_render_frame_scheduled = true;
}

abbrev events : List (ℕ × Event ℕ)
events =
    (5, arrives stranger)
    ∷ (6, arrives full)
    ∷ (7, frame)
    ∷ (8, arrives short)
    ∷ (9, arrives full)
    ∷ (10, visible)
    ∷ (11, arrives short)
    ∷ []

-- The same drone gets a second point.
draws_trail : (run is_zero events opened).trails ≡ ("D3", (21, 105) ∷ (21, 105) ∷ []) ∷ []
unfolding run on_event on_frame on_visible queue_telemetry_for_render process_telemetry_update
    process_all put_telemetry Map.get Map.set
draws_trail = refl

waits-IsWaiting : IsWaiting waits
unfolding Map.get
waits-IsWaiting = record {
  distinct = (refl, (refl, tt));
  named = (refl, (refl, tt));
  scheduled = inr refl;
}

waits_D3 : Map.get waits.telemetry_render_queue "D3" ≡ some full
unfolding Map.get
waits_D3 = refl

run-IsWaiting_example : IsWaiting (run is_zero events opened)
run-IsWaiting_example = run-IsWaiting is_zero events opened refl

run-IsShort_example : IsShort (run is_zero events opened).trails
run-IsShort_example = run-IsShort is_zero events opened tt

run-ids_example : ids (run is_zero events opened).fleet_devices ≡ ids opened.fleet_devices
run-ids_example = run-ids is_zero events opened refl

queue_all-latest_example :
    Map.get (queue_all (stranger ∷ full ∷ short ∷ []) opened).telemetry_render_queue "D3"
    ≡ latest "D3" (stranger ∷ full ∷ short ∷ []) (Map.get opened.telemetry_render_queue "D3")
queue_all-latest_example = queue_all-latest "D3" (stranger ∷ full ∷ short ∷ []) opened refl

on_frame_shows_example :
    (telemetry_of "D3" (on_frame is_zero 7 waits).fleet_devices
      ≡ some (record {
        payload = record full {
          connected = elim full.connected [ none ↦ some true | some c ↦ some c ];
        };
        last_received_at = 7;
      }))
    × ((on_frame is_zero 7 waits).telemetry_render_queue ≡ [])
on_frame_shows_example = on_frame_shows is_zero 7 waits "D3" full waits-IsWaiting waits_D3 refl refl

recoveries_lem_example :
    (recoveries watched asleep * 3 ≤ length watched)
    × (recoveries
          (sampled (sample 31 9500) ∷ sampled (sample 31 9500) ∷ sampled (sample 31 9500) ∷ [])
          (update_fpv_stats (sample 31 9500) (Watchdog.run watched asleep)).0
        ≡ 1)
recoveries_lem_example = recoveries_lem watched asleep (sample 31 9500) refl (omega arith)
