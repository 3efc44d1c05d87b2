-- ===== src/Browser/Queue.antt =====
-- drone-fleet-manager/public/js/telemetry/render-queue.js: what waits for the next frame.
use vdt_provisioning_service.Prelude.{
  ℕ, String, ◌≡◌, ◌⊎◌, inl, inr, refl, ◌∙◌, Bool, true, false, Option, some, List, [], ◌∷◌, ◌==◌,
  All, eq_iff, arith, Bool-cases, if◌then◌else◌,
}
use vdt_provisioning_service.Prelude.Map
use vdt_provisioning_service.Prelude.Map.{Map, IsDistinct, get-set, set-IsDistinct}
use vdt_provisioning_service.Prelude.Entries.{All-set}
use vdt_provisioning_service.Telemetry.{Payload}
use vdt_provisioning_service.Browser.{Page, on_frame, on_visible, queue_telemetry_for_render}

pub data Event (F : Type 0) : Type 0 where
  arrives : Payload F → Event F
  frame visible : Event F

module _ {F : Type 0} where
  unfoldable pub queue_all : List (Payload F) → Page F → Page F
  queue_all [] b = b
  queue_all (t ∷ ts) b = queue_all ts (queue_telemetry_for_render t b)

  -- The last of the payloads that are of the drone, or else what there was.
  abbrev pub latest : String → List (Payload F) → Option (Payload F) → Option (Payload F)
  latest k [] old = old
  latest k (t ∷ ts) old = latest k ts (if t.device_id == k then some t else old)

  queued :
      (k : String) (t : Payload F) (b : Page F)
      → (k == "") ≡ false
      → Map.get (queue_telemetry_for_render t b).telemetry_render_queue k
        ≡ (if t.device_id == k then some t else Map.get b.telemetry_render_queue k)
  unfolding queue_telemetry_for_render
  queued k t b named = elim (Bool-cases (t.device_id == "")) [
    | inl e ↦ rw e (ground (arith, eq_iff t.device_id "", eq_iff t.device_id k))
    | inr e ↦ rw e (get-set b.telemetry_render_queue t.device_id k t)
  ]

  -- When any number of payloads come before a frame, the one that waits for a drone is the last of
  -- that drone, and a drone of which none came keeps what it had.
  pub queue_all-latest :
      (k : String) (ts : List (Payload F)) (b : Page F)
      → (k == "") ≡ false
      → Map.get (queue_all ts b).telemetry_render_queue k
        ≡ latest k ts (Map.get b.telemetry_render_queue k)
  unfolding queue_all
  queue_all-latest k [] b named = refl
  queue_all-latest k (t ∷ ts) b named =
      queue_all-latest k ts (queue_telemetry_for_render t b) named ∙ rw (queued k t b named) refl

  -- What waits does so once, under the name of its drone, and a frame is on its way.
  pub record IsWaiting (b : Page F) : Type 0 where
    pub distinct : IsDistinct b.telemetry_render_queue
    pub named : All (λ e. e.1.device_id ≡ e.0) b.telemetry_render_queue
    pub scheduled : (b.telemetry_render_queue ≡ []) ⊎ (b.is_render_frame_scheduled ≡ true)

  queue-IsWaiting :
      (t : Payload F) (b : Page F) → IsWaiting b → IsWaiting (queue_telemetry_for_render t b)
  unfolding queue_telemetry_for_render
  queue-IsWaiting t b h = elim (Bool-cases (t.device_id == "")) [
    | inl e ↦ rw e (record { distinct = h.distinct; named = h.named; scheduled = h.scheduled })
    | inr e ↦ rw e (record {
      distinct = set-IsDistinct b.telemetry_render_queue t.device_id t h.distinct;
      named = All-set _ b.telemetry_render_queue t.device_id t refl h.named;
      scheduled = inr refl;
    })
  ]

  module _ (is_zero : F → Bool) where
    unfoldable pub on_event : ℕ → Event F → Page F → Page F
    on_event now (arrives t) b = queue_telemetry_for_render t b
    on_event now frame b = on_frame is_zero now b
    on_event now visible b = on_visible is_zero now b

    unfoldable pub run : List (ℕ × Event F) → Page F → Page F
    run [] b = b
    run ((now, e) ∷ es) b = run es (on_event now e b)

    on_event-IsWaiting :
        (now : ℕ) (e : Event F) (b : Page F) → IsWaiting b → IsWaiting (on_event now e b)
    unfolding on_event on_frame on_visible
    on_event-IsWaiting now (arrives t) b h = queue-IsWaiting t b h
    on_event-IsWaiting now frame b h = record { distinct = tt; named = tt; scheduled = inl refl }
    on_event-IsWaiting now visible b h = record { distinct = tt; named = tt; scheduled = inl refl }

    run-IsWaiting_from : (es : List (ℕ × Event F)) (b : Page F) → IsWaiting b → IsWaiting (run es b)
    unfolding run
    run-IsWaiting_from [] b h = h
    run-IsWaiting_from ((now, e) ∷ es) b h = run-IsWaiting_from es _ (on_event-IsWaiting now e b h)

    -- On a page whose queue was empty at first, after any sequence of payloads, frames and returns to
    -- the page, no drone waits twice, each payload waits under its drone's name, and a frame is
    -- scheduled if any waits.
    pub run-IsWaiting :
        (es : List (ℕ × Event F)) (b : Page F)
        → b.telemetry_render_queue ≡ []
        → IsWaiting (run es b)
    run-IsWaiting es b empty =
        run-IsWaiting_from es b
          (record { distinct = rw empty tt; named = rw empty tt; scheduled = inl empty })
