-- ===== src/Browser/Watchdog.antt =====
-- drone-fleet-manager/public/js/video/video-recovery.js: the watchdog of updateFpvStats, which counts
-- the samples in a row without a new frame. A sample is what getStats says of the stream.
use vdt_provisioning_service.Prelude.{
  ℕ, ◌+◌, ◌*◌, ◌≤◌, ◌≡◌, Bool, false, not, List, [], ◌∷◌, ◌&&◌, eqb, ltb, length, arith,
  if◌then◌else◌,
}

pub record Sample : Type 0 where
  pub current_frames_decoded : ℕ
  pub current_bytes : ℕ

pub record Watchdog : Type 0 where
  pub frozen_frame_ticks : ℕ
  pub last_frames_decoded : ℕ
  pub last_rtp_bytes : ℕ

pub data Event : Type 0 where
  sampled : Sample → Event
  -- `visibilitychange` to a page that is seen again
  visible : Event
  -- closeFpvVideoStream
  closed : Event

abbrev pub both_decoded : Sample → Watchdog → Bool
both_decoded s w = not (eqb w.last_frames_decoded 0) && not (eqb s.current_frames_decoded 0)

abbrev pub is_frozen : Sample → Watchdog → Bool
is_frozen s w =
    eqb s.current_frames_decoded w.last_frames_decoded && eqb s.current_bytes w.last_rtp_bytes

-- The count after `frozenFrameTicks++` or the reset.
abbrev pub ticks : Sample → Watchdog → ℕ
ticks s w =
    if both_decoded s w
    then if is_frozen s w then w.frozen_frame_ticks + 1 else 0
    else w.frozen_frame_ticks

-- The watchdog after a sample, and whether handleWebRtcFrozenRecovery is called.
unfoldable pub update_fpv_stats : Sample → Watchdog → Watchdog × Bool
update_fpv_stats s w =
    let fires = both_decoded s w && not (ltb (ticks s w) 3) in
    (
      record {
        frozen_frame_ticks = if fires then 0 else ticks s w;
        last_frames_decoded = s.current_frames_decoded;
        last_rtp_bytes = s.current_bytes;
      },
      fires,
    )

unfoldable pub on_event : Event → Watchdog → Watchdog × Bool
on_event (sampled s) w = update_fpv_stats s w
on_event visible w = (record w { frozen_frame_ticks = 0 }, false)
on_event closed w =
    (record { frozen_frame_ticks = 0; last_frames_decoded = 0; last_rtp_bytes = 0 }, false)

-- The recoveries that a list of events starts.
abbrev pub one : Bool → ℕ
one b = if b then 1 else 0

unfoldable pub recoveries : List Event → Watchdog → ℕ
recoveries [] w = 0
recoveries (e ∷ es) w = one (on_event e w).1 + recoveries es (on_event e w).0

unfoldable pub run : List Event → Watchdog → Watchdog
run [] w = w
run (e ∷ es) w = run es (on_event e w).0

on_event-ticks :
    (e : Event) (w : Watchdog) → w.frozen_frame_ticks ≤ 2 → (on_event e w).0.frozen_frame_ticks ≤ 2
unfolding on_event update_fpv_stats
on_event-ticks (sampled s) w h = ground arith
on_event-ticks visible w h = omega arith
on_event-ticks closed w h = omega arith

pub run-ticks :
    (es : List Event) (w : Watchdog) → w.frozen_frame_ticks ≤ 2 → (run es w).frozen_frame_ticks ≤ 2
unfolding run
run-ticks [] w h = h
run-ticks (e ∷ es) w h = run-ticks es (on_event e w).0 (on_event-ticks e w h)

-- After three samples that say what the one before them said, of a stream with frames.
from_ticks :
    (n : ℕ) (s : Sample)
    → ¬ (s.current_frames_decoded ≡ 0)
    → n ≤ 2
    → recoveries (sampled s ∷ sampled s ∷ sampled s ∷ []) (record {
      frozen_frame_ticks = n;
      last_frames_decoded = s.current_frames_decoded;
      last_rtp_bytes = s.current_bytes;
    })
      ≡ 1
unfolding recoveries on_event update_fpv_stats
from_ticks n s decoded h = ground arith

on_event-pays :
    (e : Event) (w : Watchdog)
    → w.frozen_frame_ticks ≤ 2
    → one (on_event e w).1 * 3 + (on_event e w).0.frozen_frame_ticks ≤ 1 + w.frozen_frame_ticks
unfolding on_event update_fpv_stats
on_event-pays (sampled s) w h = ground arith
on_event-pays visible w h = omega arith
on_event-pays closed w h = omega arith

recoveries-length :
    (es : List Event) (w : Watchdog)
    → w.frozen_frame_ticks ≤ 2
    → recoveries es w * 3 ≤ length es + w.frozen_frame_ticks
unfolding recoveries
recoveries-length [] w h = omega arith
recoveries-length (e ∷ es) w h =
    let first = on_event-pays e w h in
    let rest = recoveries-length es (on_event e w).0 (on_event-ticks e w h) in ground arith

-- When the count starts at 0, then whatever the events were, the page has started at most one
-- recovery for each three of them; and if a sample has frames and three samples come right after it
-- that say the same, then those three start exactly one.
pub recoveries_lem :
    (es : List Event) (w : Watchdog) (s : Sample)
    → w.frozen_frame_ticks ≡ 0
    → ¬ (s.current_frames_decoded ≡ 0)
    → (recoveries es w * 3 ≤ length es)
      × (recoveries (sampled s ∷ sampled s ∷ sampled s ∷ []) (update_fpv_stats s (run es w)).0 ≡ 1)
unfolding update_fpv_stats on_event
recoveries_lem es w s starts decoded =
    let few : w.frozen_frame_ticks ≤ 2 = omega arith in
    let paid = recoveries-length es w few in
    (
      omega arith,
      from_ticks _ s decoded (on_event-ticks (sampled s) (run es w) (run-ticks es w few)),
    )
