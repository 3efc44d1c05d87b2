-- ===== src/Browser/Player/Leaks.antt =====
-- drone-fleet-manager/public/js/video: what is left when a player takes another one's place, and the
-- rooms of the server that the page stays in.
use vdt_provisioning_service.Prelude.{
  ℕ, ◌<◌, String, ◌≡◌, inl, inr, refl, Bool, true, false, not, Option, none, some, List, [], ◌∷◌,
  ◌==◌, ◌&&◌, ◌||◌, eqb, arith, Bool-cases, either,
}
use vdt_provisioning_service.Browser.Player.{
  Player, Connection, Task, Event, Info, Hls, handshake, stream_info, probe, hls_js, start, close,
  freeze, tick, answer, info, parsed, track, timeout, probe_answer, is_number, connection_of,
  hls_of, shaken, informed, parsed_by, tracked, ticked, timed_out, probed, recovered, is_begun,
  is_live, may_probe, close_fpv_video_stream, start_fpv_video_stream, on_event, run,
}
use vdt_provisioning_service.Browser.Player.Stale.{hls_of-destroy}

new : (n k : ℕ) → n < k → eqb k n ≡ false
new n k l = ground arith

module _ (n : ℕ) (h : Hls) where
  -- The page plays from it, and has no variable that holds it.
  record IsLost (p : Player) : Type 0 where
    playing : hls_of n p.players ≡ some h
    unheld : is_number p.fpv_hls_instance n ≡ false
    old : n < p.next

  close-IsLost : (p : Player) → IsLost p → IsLost (close_fpv_video_stream p)
  unfolding close_fpv_video_stream
  close-IsLost p l = record {
    playing = hls_of-destroy n p.fpv_hls_instance h p.players l.unheld l.playing;
    unheld = refl;
    old = l.old;
  }

  start-IsLost :
      (d : String) (w : Bool) (p : Player) → IsLost p → IsLost (start_fpv_video_stream d w p)
  unfolding start_fpv_video_stream close_fpv_video_stream
  start-IsLost d w p l = elim (Bool-cases (d == "" || d == "all")) [
    | inl e ↦ rw e l
    | inr e ↦
        let still = hls_of-destroy n p.fpv_hls_instance h p.players l.unheld l.playing in
        elim (Bool-cases w) [
          | inl f ↦
              rw (e, f) (record { playing = still; unheld = refl; old = omega (arith, l.old) })
          | inr f ↦ rw (e, f) (record { playing = still; unheld = refl; old = l.old })
        ]
  ]

  informed-IsLost : (d : String) (i : Info) (p : Player) → IsLost p → IsLost (informed d i p)
  informed-IsLost d Info.failed p l = l
  informed-IsLost d Info.unsupported p l = record {
    playing = l.playing;
    unheld = l.unheld;
    old = l.old;
  }
  informed-IsLost d Info.native p l = record { playing = l.playing; unheld = l.unheld; old = l.old }
  informed-IsLost d Info.hls_js p l = record {
    playing = rw (new n p.next l.old) l.playing;
    unheld = new n p.next l.old;
    old = omega (arith, l.old);
  }

  parsed-IsLost : (o : Option Hls) (p : Player) → IsLost p → IsLost (parsed_by o p)
  parsed-IsLost none p l = l
  parsed-IsLost (some x) p l = record { playing = l.playing; unheld = l.unheld; old = l.old }

  shaken-IsLost :
      (m : ℕ) (d : String) (ok : Bool) (p : Player) → IsLost p → IsLost (shaken m d ok p)
  shaken-IsLost m d ok p l =
      either IsLost (ok && is_live m p.connections)
        (record { playing = l.playing; unheld = l.unheld; old = l.old })
        (record { playing = l.playing; unheld = l.unheld; old = l.old })

  track-IsLost : (o : Option Connection) (p : Player) → IsLost p → IsLost (tracked o p)
  track-IsLost none p l = l
  track-IsLost (some c) p l = either IsLost (not c.is_open) l (
      either IsLost c.is_probe
        (record {
          playing = hls_of-destroy n p.fpv_hls_instance h p.players l.unheld l.playing;
          unheld = refl;
          old = l.old;
        })
        (record { playing = l.playing; unheld = l.unheld; old = l.old }))

  timeout-IsLost : (o : Option Connection) (p : Player) → IsLost p → IsLost (timed_out o p)
  timeout-IsLost none p l = l
  timeout-IsLost (some c) p l =
      either IsLost (not c.timer) l (record { playing = l.playing; unheld = l.unheld; old = l.old })

  probed-IsLost : (m : ℕ) (r : Option Bool) (p : Player) → IsLost p → IsLost (probed m r p)
  probed-IsLost m none p l = record { playing = l.playing; unheld = l.unheld; old = l.old }
  probed-IsLost m (some true) p l =
      either IsLost (is_live m p.connections) l
        (record { playing = l.playing; unheld = l.unheld; old = l.old })
  probed-IsLost m (some false) p l = record { playing = l.playing; unheld = l.unheld; old = l.old }

  tick-IsLost : (o : Option String) (w : Bool) (p : Player) → IsLost p → IsLost (ticked o w p)
  tick-IsLost none w p l = l
  tick-IsLost (some d) w p l =
      either IsLost (may_probe p.fpv_hls_instance p.is_probing_web_rtc p.active_fpv_drone_id d && w)
        (record { playing = l.playing; unheld = l.unheld; old = omega (arith, l.old) }) l

  recovered-IsLost :
      (o : Option String) (w : Bool) (p : Player) → IsLost p → IsLost (recovered o w p)
  recovered-IsLost none w p l = l
  recovered-IsLost (some d) w p l = start-IsLost d w p l

  done-IsLost : (ts : List Task) (p : Player) → IsLost p → IsLost (record p { tasks = ts })
  done-IsLost ts p l = record { playing = l.playing; unheld = l.unheld; old = l.old }

  on_event-IsLost : (e : Event) (p : Player) → IsLost p → IsLost (on_event e p)
  unfolding on_event
  on_event-IsLost (start d w) p l = start-IsLost d w p l
  on_event-IsLost close p l = close-IsLost p l
  on_event-IsLost (freeze w) p l = recovered-IsLost p.active_fpv_drone_id w p l
  on_event-IsLost (tick w) p l = tick-IsLost p.fpv_web_rtc_probe_interval w p l
  on_event-IsLost (answer m d ok) p l =
      either IsLost (is_begun (handshake m d) p.tasks) (shaken-IsLost m d ok _ (done-IsLost _ p l))
        l
  on_event-IsLost (info d i) p l =
      either IsLost (is_begun (stream_info d) p.tasks) (informed-IsLost d i _ (done-IsLost _ p l)) l
  on_event-IsLost (parsed m) p l = parsed-IsLost (hls_of m p.players) p l
  on_event-IsLost (track m) p l = track-IsLost (connection_of m p.connections) p l
  on_event-IsLost (timeout m) p l = timeout-IsLost (connection_of m p.connections) p l
  on_event-IsLost (probe_answer m r) p l =
      either IsLost (is_begun (probe m) p.tasks) (probed-IsLost m r _ (done-IsLost _ p l)) l

  run-IsLost : (es : List Event) (p : Player) → IsLost p → IsLost (run es p)
  unfolding run
  run-IsLost [] p l = l
  run-IsLost (e ∷ es) p l = run-IsLost es (on_event e p) (on_event-IsLost e p l)

  -- Once hls.js comes to play another stream, a player of it that was there before is never
  -- destroyed, whatever the user, the network and the timers do from then on.
  pub replaced_plays_on :
      (d : String) (es : List Event) (p : Player)
      → hls_of n p.players ≡ some h
      → n < p.next
      → is_begun (stream_info d) p.tasks ≡ true
      → hls_of n (run (info d hls_js ∷ es) p).players ≡ some h
  unfolding run on_event
  replaced_plays_on d es p playing old begun =
      let lost : IsLost (on_event (info d hls_js) p) = rw begun (record {
        playing = rw (new n p.next old) playing;
        unheld = new n p.next old;
        old = omega (arith, old);
      }) in
      (run-IsLost es (on_event (info d hls_js) p) lost).playing
