-- ===== src/Browser/Player/Tidy.antt =====
-- drone-fleet-manager/public/js/video: no connection is forgotten.
use vdt_provisioning_service.Prelude.{
  ℕ, String, ◌≡◌, ◌⊎◌, inl, inr, refl, Bool, true, false, not, Option, none, some, List, [], ◌∷◌,
  ◌==◌, ◌&&◌, ◌||◌, All, map, eqb, arith, Bool-cases, either,
}
use vdt_provisioning_service.Browser.Player.{
  Player, Connection, Event, Info, start, close, freeze, tick, answer, info, parsed, track, timeout,
  probe_answer, is_number, shut, stop_timer, connection_of, shaken, informed, parsed_by, tracked,
  ticked, timed_out, probed, recovered, Hls, handshake, stream_info, probe, is_begun, is_live,
  hls_of, may_probe, close_fpv_video_stream, start_fpv_video_stream, on_event, run,
}

-- A connection that is closed, or the current one, or one that a timer will close.
abbrev pub IsKept : Option ℕ → Connection → Type 0
IsKept o c = (c.is_open ≡ false) ⊎ (is_number o c.number ≡ true) ⊎ (c.timer ≡ true)

abbrev pub IsTidy : Player → Type 0
IsTidy p = All (IsKept p.fpv_peer_connection) p.connections

pub All-map :
    {A : Type 0} (P Q : A → Type 0) (f : A → A) (xs : List A)
    → ((x : A) → P x → Q (f x))
    → All P xs
    → All Q (map f xs)
All-map P Q f [] k h = tt
All-map P Q f (x ∷ xs) k (h, hs) = (k x h, All-map P Q f xs k hs)

-- What the current connection was is closed, whichever comes then.
shut-IsKept : (o q : Option ℕ) (c : Connection) → IsKept o c → IsKept q (shut o c)
shut-IsKept o q c h = elim (Bool-cases (is_number o c.number)) [
  | inl e ↦ rw e (inl refl)
  | inr e ↦ rw e (elim h [ inl a ↦ inl a | inr (inl b) ↦ cc | inr (inr t) ↦ inr (inr t) ])
]

shut-IsKept_too : (o q : Option ℕ) (c : Connection) → IsKept q c → IsKept q (shut o c)
shut-IsKept_too o q c h = elim (Bool-cases (is_number o c.number)) [
  | inl e ↦ rw e (inl refl)
  | inr e ↦ rw e h
]

swap-IsKept :
    (n : ℕ) (o : Option ℕ) (c : Connection) → IsKept o c → IsKept (some n) (stop_timer n (shut o c))
swap-IsKept n o c h = elim (Bool-cases (eqb (shut o c).number n)) [
  | inl e ↦ rw e (inr (inl (ground (arith, e))))
  | inr e ↦ rw e (shut-IsKept o (some n) c h)
]

timeout-IsKept :
    (n : ℕ) (o : Option ℕ) (c : Connection) → IsKept o c → IsKept o (stop_timer n (shut (some n) c))
timeout-IsKept n o c h = elim (Bool-cases (eqb n c.number)) [
  | inl e ↦ let same : eqb c.number n ≡ true = ground (arith, e) in rw e (rw same (inl refl))
  | inr e ↦ let apart : eqb c.number n ≡ false = ground (arith, e) in rw e (rw apart h)
]

close-IsTidy : (p : Player) → IsTidy p → IsTidy (close_fpv_video_stream p)
unfolding close_fpv_video_stream
close-IsTidy p h = All-map _ _ _ p.connections (shut-IsKept p.fpv_peer_connection none) h

start-IsTidy :
    (d : String) (w : Bool) (p : Player) → IsTidy p → IsTidy (start_fpv_video_stream d w p)
unfolding start_fpv_video_stream close_fpv_video_stream
start-IsTidy d w p h = elim (Bool-cases (d == "" || d == "all")) [
  | inl e ↦ rw e h
  | inr e ↦ elim (Bool-cases w) [
    | inl f ↦
        rw (e, f)
          (
            inr (inl (ground arith)),
            All-map _ _ _ p.connections (shut-IsKept p.fpv_peer_connection (some p.next)) h,
          )
    | inr f ↦ rw (e, f) (All-map _ _ _ p.connections (shut-IsKept p.fpv_peer_connection none) h)
  ]
]

tick-IsTidy : (o : Option String) (w : Bool) (p : Player) → IsTidy p → IsTidy (ticked o w p)
tick-IsTidy none w p h = h
tick-IsTidy (some d) w p h =
    either IsTidy (may_probe p.fpv_hls_instance p.is_probing_web_rtc p.active_fpv_drone_id d && w)
      (inr (inr refl), h) h

shaken-IsTidy : (n : ℕ) (d : String) (ok : Bool) (p : Player) → IsTidy p → IsTidy (shaken n d ok p)
shaken-IsTidy n d ok p h = either IsTidy (ok && is_live n p.connections) h h

informed-IsTidy : (d : String) (i : Info) (p : Player) → IsTidy p → IsTidy (informed d i p)
informed-IsTidy d Info.failed p h = h
informed-IsTidy d Info.unsupported p h = h
informed-IsTidy d Info.hls_js p h = h
informed-IsTidy d Info.native p h = h

track-IsTidy : (o : Option Connection) (p : Player) → IsTidy p → IsTidy (tracked o p)
track-IsTidy none p h = h
track-IsTidy (some c) p h = either IsTidy (not c.is_open) h (
    either IsTidy c.is_probe
      (All-map _ _ _ p.connections (swap-IsKept c.number p.fpv_peer_connection) h) h)

timeout-IsTidy : (o : Option Connection) (p : Player) → IsTidy p → IsTidy (timed_out o p)
timeout-IsTidy none p h = h
timeout-IsTidy (some c) p h =
    either IsTidy (not c.timer) h
      (All-map _ _ _ p.connections (timeout-IsKept c.number p.fpv_peer_connection) h)

probed-IsTidy : (n : ℕ) (r : Option Bool) (p : Player) → IsTidy p → IsTidy (probed n r p)
probed-IsTidy n none p h = h
probed-IsTidy n (some true) p h = either IsTidy (is_live n p.connections) h h
probed-IsTidy n (some false) p h =
    All-map _ _ _ p.connections (shut-IsKept_too (some n) p.fpv_peer_connection) h

recovered-IsTidy : (o : Option String) (w : Bool) (p : Player) → IsTidy p → IsTidy (recovered o w p)
recovered-IsTidy none w p h = h
recovered-IsTidy (some d) w p h = start-IsTidy d w p h

parsed-IsTidy : (o : Option Hls) (p : Player) → IsTidy p → IsTidy (parsed_by o p)
parsed-IsTidy none p h = h
parsed-IsTidy (some x) p h = h

pub on_event-IsTidy : (e : Event) (p : Player) → IsTidy p → IsTidy (on_event e p)
unfolding on_event
on_event-IsTidy (start d w) p h = start-IsTidy d w p h
on_event-IsTidy close p h = close-IsTidy p h
on_event-IsTidy (freeze w) p h = recovered-IsTidy p.active_fpv_drone_id w p h
on_event-IsTidy (tick w) p h = tick-IsTidy p.fpv_web_rtc_probe_interval w p h
on_event-IsTidy (answer n d ok) p h =
    either IsTidy (is_begun (handshake n d) p.tasks) (shaken-IsTidy n d ok _ h) h
on_event-IsTidy (info d i) p h =
    either IsTidy (is_begun (stream_info d) p.tasks) (informed-IsTidy d i _ h) h
on_event-IsTidy (parsed n) p h = parsed-IsTidy (hls_of n p.players) p h
on_event-IsTidy (track n) p h = track-IsTidy (connection_of n p.connections) p h
on_event-IsTidy (timeout n) p h = timeout-IsTidy (connection_of n p.connections) p h
on_event-IsTidy (probe_answer n r) p h =
    either IsTidy (is_begun (probe n) p.tasks) (probed-IsTidy n r _ h) h

-- Whatever the user, the network and the timers do, in any order, a connection that the page has
-- made is closed, or is the current one, or is a probe's whose six seconds are still running, if that
-- was so at first.
pub run-IsTidy : (es : List Event) (p : Player) → IsTidy p → IsTidy (run es p)
unfolding run
run-IsTidy [] p h = h
run-IsTidy (e ∷ es) p h = run-IsTidy es (on_event e p) (on_event-IsTidy e p h)
