-- ===== src/Browser/Player/Calm.antt =====
-- drone-fleet-manager/public/js/video: a user who waits until the page has finished.
use vdt_provisioning_service.Prelude.{
  ◌≡◌, inl, inr, refl, Bool, true, false, All, arith, Bool-cases,
}
use vdt_provisioning_service.Browser.Player.{
  Player, Event, handshake, stream_info, probe, start, close, freeze, tick, answer, info, parsed,
  track, timeout, probe_answer, connection_of, hls_of, is_begun, loaded, on_event,
}
use vdt_provisioning_service.Browser.Player.Tidy.{IsTidy, on_event-IsTidy}
use vdt_provisioning_service.Browser.Player.Faithful.{
  IsSettled, IsShown, IsOf, IsFaithful, close-IsFaithful, start-IsFaithful, recovered-IsFaithful,
}
use vdt_provisioning_service.Browser.Player.Replies.{
  shaken-IsFaithful, done-IsFaithful, informed-IsFaithful, track-IsFaithful, timeout-IsFaithful,
  parsed-IsFaithful, probed-IsFaithful, tick-IsFaithful,
}

-- What the user does, and the recovery that the watchdog starts.
abbrev pub is_turn : Event → Bool
is_turn (start d w) = true
is_turn close = true
is_turn (freeze w) = true
is_turn _ = false

-- The states of a page where that happens only when nothing is under way.
pub data Calm : Player → Type 0 where
  fresh : Calm loaded
  turns : {p : Player} → Calm p → (e : Event) → IsSettled p → Calm (on_event e p)
  goes_on : {p : Player} → Calm p → (e : Event) → is_turn e ≡ false → Calm (on_event e p)

goes-IsFaithful :
    (e : Event) (p : Player) → is_turn e ≡ false → IsFaithful p → IsFaithful (on_event e p)
unfolding on_event
goes-IsFaithful (start d w) p u f = cc
goes-IsFaithful close p u f = cc
goes-IsFaithful (freeze w) p u f = cc
goes-IsFaithful (tick w) p u f = tick-IsFaithful p.fpv_web_rtc_probe_interval w p f
goes-IsFaithful (answer n d ok) p u f = elim (Bool-cases (is_begun (handshake n d) p.tasks)) [
  | inl b ↦ rw b (shaken-IsFaithful p f n d ok b)
  | inr b ↦ rw b f
]
goes-IsFaithful (info d i) p u f = elim (Bool-cases (is_begun (stream_info d) p.tasks)) [
  | inl b ↦ rw b (informed-IsFaithful p f d i b)
  | inr b ↦ rw b f
]
goes-IsFaithful (parsed n) p u f = parsed-IsFaithful p f (hls_of n p.players)
goes-IsFaithful (track n) p u f = track-IsFaithful p f (connection_of n p.connections)
goes-IsFaithful (timeout n) p u f = timeout-IsFaithful p f (connection_of n p.connections)
goes-IsFaithful (probe_answer n r) p u f = elim (Bool-cases (is_begun (probe n) p.tasks)) [
  | inl b ↦ rw b (probed-IsFaithful _ (done-IsFaithful p f (probe n) b) n r)
  | inr b ↦ rw b f
]

turn-IsFaithful :
    (e : Event) (p : Player) → IsSettled p → IsTidy p → IsFaithful p → IsFaithful (on_event e p)
unfolding on_event
turn-IsFaithful (start d w) p s t f = start-IsFaithful d w p s t f
turn-IsFaithful close p s t f = close-IsFaithful p s t f
turn-IsFaithful (freeze w) p s t f = recovered-IsFaithful p.active_fpv_drone_id w p s t f
turn-IsFaithful (tick w) p s t f = goes-IsFaithful (tick w) p refl f
turn-IsFaithful (answer n d ok) p s t f = goes-IsFaithful (answer n d ok) p refl f
turn-IsFaithful (info d i) p s t f = goes-IsFaithful (info d i) p refl f
turn-IsFaithful (parsed n) p s t f = goes-IsFaithful (parsed n) p refl f
turn-IsFaithful (track n) p s t f = goes-IsFaithful (track n) p refl f
turn-IsFaithful (timeout n) p s t f = goes-IsFaithful (timeout n) p refl f
turn-IsFaithful (probe_answer n r) p s t f = goes-IsFaithful (probe_answer n r) p refl f

Calm-IsTidy : {p : Player} → Calm p → IsTidy p
Calm-IsTidy fresh = tt
Calm-IsTidy (turns {p = p} c e s) = on_event-IsTidy e p (Calm-IsTidy c)
Calm-IsTidy (goes_on {p = p} c e u) = on_event-IsTidy e p (Calm-IsTidy c)

Calm-IsFaithful : {p : Player} → Calm p → IsFaithful p
Calm-IsFaithful fresh = record {
  connections = tt;
  players = tt;
  tasks = tt;
  held = tt;
  single = omega arith;
}
Calm-IsFaithful (turns {p = p} c e s) = turn-IsFaithful e p s (Calm-IsTidy c) (Calm-IsFaithful c)
Calm-IsFaithful (goes_on {p = p} c e u) = goes-IsFaithful e p u (Calm-IsFaithful c)

-- On a page where the user starts and closes videos, and the watchdog recovers them, only when no
-- handshake, request or probe is under way, every connection that is open and every player is one of
-- the active drone, whatever the network and the timers do in between.
pub Calm-IsShown :
    (p : Player)
    → Calm p
    → All (IsShown p.active_fpv_drone_id) p.connections × All (IsOf p.active_fpv_drone_id) p.players
Calm-IsShown p c = let f = Calm-IsFaithful c in (f.connections, f.players)
