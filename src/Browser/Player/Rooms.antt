-- ===== src/Browser/Player/Rooms.antt =====
-- drone-fleet-manager/public/js/video: the rooms of the server that the page is in.
use vdt_provisioning_service.Prelude.{
  ℕ, String, ◌≡◌, inl, inr, refl, sym, subst, ◌∙◌, Bool, true, false, not, Option, none, some, List,
  [], ◌∷◌, ◌==◌, ◌&&◌, ◌||◌, All, Bool-cases, either,
}
use vdt_provisioning_service.TelemetryGateway.Rooms.{Adapter}
use vdt_provisioning_service.Video
use vdt_provisioning_service.Video.{
  video_room, handle_subscribe_video, handle_unsubscribe_video, broadcast_video_chunk,
}
use vdt_provisioning_service.Browser.Player.{
  Player, Connection, Event, Info, Hls, Message, subscribe, unsubscribe, handshake, stream_info,
  probe, start, close, freeze, tick, answer, info, parsed, track, timeout, probe_answer,
  connection_of, hls_of, shaken, informed, parsed_by, tracked, ticked, timed_out, probed, recovered,
  is_begun, is_live, may_probe, farewell, close_fpv_video_stream, start_fpv_video_stream, on_event,
  run,
}
use vdt_provisioning_service.Browser.Player.Stale.{is_drone}

-- An event that starts no video in the room of a drone.
abbrev pub IsAway : String → Event → Type 0
IsAway d (start e w) = (video_room e == video_room d) ≡ false
IsAway d _ = Unit

abbrev IsApart : String → Option String → Type 0
IsApart d none = Unit
IsApart d (some e) = (video_room e == video_room d) ≡ false

start_idle :
    (e : String) (w : Bool) (p : Player) → is_drone e ≡ false → start_fpv_video_stream e w p ≡ p
unfolding start_fpv_video_stream
start_idle e w p h = elim (Bool-cases (e == "" || e == "all")) [ inl b ↦ rw b refl | inr b ↦ cc ]

-- The page's messages as the server takes them, for the socket `client`.
module _ (a : Adapter) (client : String) where
  abbrev take_one : Message → a.Rooms → a.Rooms
  take_one (subscribe d) r = (handle_subscribe_video a client d r).1
  take_one (unsubscribe d) r = (handle_unsubscribe_video a client d r).1

  abbrev pub taken : List Message → a.Rooms → a.Rooms
  taken [] r = r
  taken (m ∷ ms) r = take_one m (taken ms r)

  module _ (d : String) (r : a.Rooms) where
    abbrev IsIn : List Message → Type 0
    IsIn ms = a.inside (taken ms r) (video_room d) client ≡ true

    IsIn-subscribe : (e : String) (ms : List Message) → IsIn ms → IsIn (subscribe e ∷ ms)
    unfolding handle_subscribe_video
    IsIn-subscribe e ms h =
        either (λ (z : Video.Reply × a.Rooms). a.inside z.1 (video_room d) client ≡ true) (e == "")
          h
          (a.join_inside client (video_room e) (taken ms r) (video_room d) client
            ∙ either (λ x. x ≡ true) ((video_room e == video_room d) && client == client) refl h)

    IsIn-farewell :
        (o : Option String) (ms : List Message) → IsApart d o → IsIn ms → IsIn (farewell o ms)
    unfolding handle_unsubscribe_video
    IsIn-farewell none ms apart h = h
    IsIn-farewell (some e) ms apart h = either IsIn (e == "") h (
        either (λ (z : Video.Reply × a.Rooms). a.inside z.1 (video_room d) client ≡ true) (e == "")
          h (a.leave_inside client (video_room e) (taken ms r) (video_room d) client ∙ rw apart h))

    -- Another drone is active, if any, and the page is in the room.
    record IsStuck (p : Player) : Type 0 where
      apart : IsApart d p.active_fpv_drone_id
      inside : IsIn p.sent

    start-IsStuck :
        (e : String) (w : Bool) (p : Player)
        → (video_room e == video_room d) ≡ false
        → IsIn p.sent
        → is_drone e ≡ true
        → IsStuck (start_fpv_video_stream e w p)
    unfolding start_fpv_video_stream close_fpv_video_stream
    start-IsStuck e w p apart h named = elim (Bool-cases (e == "" || e == "all")) [
      | inl b ↦ cc
      | inr b ↦ rw b (
          either IsStuck w
            (record { apart = apart; inside = IsIn-farewell (some e) p.sent apart h })
            (record { apart = apart; inside = IsIn-farewell (some e) p.sent apart h }))
    ]

    kept :
        (p q : Player)
        → q.active_fpv_drone_id ≡ p.active_fpv_drone_id
        → q.sent ≡ p.sent
        → IsStuck p
        → IsStuck q
    kept p q same sent s = record {
      apart = subst (IsApart d) (sym same) s.apart;
      inside = subst IsIn (sym sent) s.inside;
    }

    said :
        (e : String) (p q : Player)
        → q.active_fpv_drone_id ≡ p.active_fpv_drone_id
        → q.sent ≡ subscribe e ∷ p.sent
        → IsStuck p
        → IsStuck q
    said e p q same sent s = record {
      apart = subst (IsApart d) (sym same) s.apart;
      inside = subst IsIn (sym sent) (IsIn-subscribe e p.sent s.inside);
    }

    again-IsStuck :
        (o : Option String) (w : Bool) (p : Player)
        → IsApart d o
        → IsStuck p
        → IsStuck (recovered o w p)
    again-IsStuck none w p apart s = s
    again-IsStuck (some e) w p apart s = elim (Bool-cases (is_drone e)) [
      | inl b ↦ start-IsStuck e w p apart s.inside b
      | inr b ↦ subst IsStuck (sym (start_idle e w p b)) s
    ]

    close-IsStuck : (p : Player) → IsStuck p → IsStuck (close_fpv_video_stream p)
    unfolding close_fpv_video_stream
    close-IsStuck p s = record {
      apart = tt;
      inside = IsIn-farewell p.active_fpv_drone_id p.sent s.apart s.inside;
    }

    shaken-IsStuck :
        (m : ℕ) (e : String) (ok : Bool) (p : Player) → IsStuck p → IsStuck (shaken m e ok p)
    shaken-IsStuck m e ok p s =
        either IsStuck (ok && is_live m p.connections) (said e p _ refl refl s)
          (kept p _ refl refl s)

    informed-IsStuck : (e : String) (i : Info) (p : Player) → IsStuck p → IsStuck (informed e i p)
    informed-IsStuck e Info.failed p s = s
    informed-IsStuck e Info.unsupported p s = said e p _ refl refl s
    informed-IsStuck e Info.native p s = said e p _ refl refl s
    informed-IsStuck e Info.hls_js p s = said e p _ refl refl s

    parsed-IsStuck : (o : Option Hls) (p : Player) → IsStuck p → IsStuck (parsed_by o p)
    parsed-IsStuck none p s = s
    parsed-IsStuck (some x) p s = kept p _ refl refl s

    track-IsStuck : (o : Option Connection) (p : Player) → IsStuck p → IsStuck (tracked o p)
    track-IsStuck none p s = s
    track-IsStuck (some c) p s =
        either IsStuck (not c.is_open) s
          (either IsStuck c.is_probe (kept p _ refl refl s) (kept p _ refl refl s))

    timeout-IsStuck : (o : Option Connection) (p : Player) → IsStuck p → IsStuck (timed_out o p)
    timeout-IsStuck none p s = s
    timeout-IsStuck (some c) p s = either IsStuck (not c.timer) s (kept p _ refl refl s)

    probed-IsStuck : (m : ℕ) (o : Option Bool) (p : Player) → IsStuck p → IsStuck (probed m o p)
    probed-IsStuck m none p s = kept p _ refl refl s
    probed-IsStuck m (some true) p s =
        either IsStuck (is_live m p.connections) s (kept p _ refl refl s)
    probed-IsStuck m (some false) p s = kept p _ refl refl s

    tick-IsStuck : (o : Option String) (w : Bool) (p : Player) → IsStuck p → IsStuck (ticked o w p)
    tick-IsStuck none w p s = s
    tick-IsStuck (some e) w p s =
        either IsStuck
          (may_probe p.fpv_hls_instance p.is_probing_web_rtc p.active_fpv_drone_id e && w)
          (kept p _ refl refl s) s

    on_event-IsStuck : (e : Event) (p : Player) → IsAway d e → IsStuck p → IsStuck (on_event e p)
    unfolding on_event
    on_event-IsStuck (start e w) p away s = again-IsStuck (some e) w p away s
    on_event-IsStuck close p away s = close-IsStuck p s
    on_event-IsStuck (freeze w) p away s = again-IsStuck p.active_fpv_drone_id w p s.apart s
    on_event-IsStuck (tick w) p away s = tick-IsStuck p.fpv_web_rtc_probe_interval w p s
    on_event-IsStuck (answer m e ok) p away s =
        either IsStuck (is_begun (handshake m e) p.tasks)
          (shaken-IsStuck m e ok _ (kept p _ refl refl s)) s
    on_event-IsStuck (info e i) p away s =
        either IsStuck (is_begun (stream_info e) p.tasks)
          (informed-IsStuck e i _ (kept p _ refl refl s)) s
    on_event-IsStuck (parsed m) p away s = parsed-IsStuck (hls_of m p.players) p s
    on_event-IsStuck (track m) p away s = track-IsStuck (connection_of m p.connections) p s
    on_event-IsStuck (timeout m) p away s = timeout-IsStuck (connection_of m p.connections) p s
    on_event-IsStuck (probe_answer m o) p away s =
        either IsStuck (is_begun (probe m) p.tasks) (probed-IsStuck m o _ (kept p _ refl refl s)) s

    run-IsStuck :
        (es : List Event) (p : Player) → All (IsAway d) es → IsStuck p → IsStuck (run es p)
    unfolding run
    run-IsStuck [] p away s = s
    run-IsStuck (e ∷ es) p (away, aways) s =
        run-IsStuck es (on_event e p) aways (on_event-IsStuck e p away s)

    -- When the page is in the room of a drone's video and turns to a drone with another room, then
    -- the server sends it the chunks of the first drone as long as its socket stays connected and the
    -- first drone's video is not started again: nothing that the user, the video's connections and
    -- the timers do, closing the video included, takes the page out of the room.
    pub switch_stays :
        (e : String) (w : Bool) (es : List Event) (p : Player)
        → broadcast_video_chunk a d (taken p.sent r) client ≡ true
        → (video_room e == video_room d) ≡ false
        → is_drone e ≡ true
        → All (IsAway d) es
        → broadcast_video_chunk a d (taken (run (start e w ∷ es) p).sent r) client ≡ true
    unfolding run on_event
    switch_stays e w es p joined apart named away = elim (Bool-cases (d == "")) [
      | inl b ↦ cc (rw b at joined)
      | inr b ↦
          rw b (run-IsStuck es _ away (start-IsStuck e w p apart (rw b at joined) named)).inside
    ]
