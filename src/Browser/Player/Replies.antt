-- ===== src/Browser/Player/Replies.antt =====
-- drone-fleet-manager/public/js/video: what answers, tracks and timers do to a page that shows only the
-- active drone.
use vdt_provisioning_service.Prelude.{
  ℕ, ◌≤◌, String, ◌≡◌, ◌⊎◌, inl, inr, refl, Bool, true, false, not, Option, none, some, List, [],
  ◌∷◌, ◌&&◌, All, eqb, eq_iff, arith, Bool-cases, length, either,
}
use vdt_provisioning_service.Browser.Player.{
  Player, Connection, Task, Info, Hls, Message, handshake, stream_info, is_number, shut, stop_timer,
  shaken, informed, parsed_by, tracked, ticked, timed_out, probed, is_begun, finish, is_live,
  may_probe,
}
use vdt_provisioning_service.Browser.Player.Tasks.{begun-IsFor, finish-IsFor, work-finish}
use vdt_provisioning_service.Browser.Player.Tidy.{All-map}
use vdt_provisioning_service.Browser.Player.Faithful.{IsShown, IsFaithful, destroy-held}

none_of : (hs : List Hls) → length hs ≤ 0 → hs ≡ []
none_of [] h = refl
none_of (x ∷ hs) h = absurd (omega arith)

said : (ms : List Message) (p : Player) → IsFaithful p → IsFaithful (record p { sent = ms })
said ms p f = record {
  connections = f.connections;
  players = f.players;
  tasks = f.tasks;
  held = f.held;
  single = f.single;
}

-- What an answer does, when its task has been taken from the list.
module _ (p : Player) (f : IsFaithful p) where
  pub shaken-IsFaithful :
      (n : ℕ) (d : String) (ok : Bool)
      → is_begun (handshake n d) p.tasks ≡ true
      → IsFaithful (shaken n d ok (record p { tasks = finish (handshake n d) p.tasks }))
  shaken-IsFaithful n d ok begun =
      let rest = finish-IsFor p.active_fpv_drone_id (handshake n d) p.tasks f.tasks in
      let fewer = work-finish (handshake n d) p.tasks begun in
      either IsFaithful (ok && is_live n p.connections)
        (record {
          connections = f.connections;
          players = f.players;
          tasks = rest;
          held = f.held;
          single = omega (arith, f.single, fewer);
        })
        (record {
          connections = f.connections;
          players = f.players;
          tasks = (begun-IsFor p.active_fpv_drone_id (handshake n d) p.tasks begun f.tasks, rest);
          held = f.held;
          single = omega (arith, f.single, fewer);
        })

  pub done-IsFaithful :
      (t : Task) → is_begun t p.tasks ≡ true → IsFaithful (record p { tasks = finish t p.tasks })
  done-IsFaithful t begun = record {
    connections = f.connections;
    players = f.players;
    tasks = finish-IsFor p.active_fpv_drone_id t p.tasks f.tasks;
    held = f.held;
    single = omega (arith, f.single, work-finish t p.tasks begun);
  }

  pub informed-IsFaithful :
      (d : String) (i : Info)
      → is_begun (stream_info d) p.tasks ≡ true
      → IsFaithful (informed d i (record p { tasks = finish (stream_info d) p.tasks }))
  informed-IsFaithful d Info.failed begun = done-IsFaithful (stream_info d) begun
  informed-IsFaithful d Info.unsupported begun = said _ _ (done-IsFaithful (stream_info d) begun)
  informed-IsFaithful d Info.native begun = said _ _ (done-IsFaithful (stream_info d) begun)
  informed-IsFaithful d Info.hls_js begun =
      let fewer = work-finish (stream_info d) p.tasks begun in
      let alone : p.players ≡ [] = none_of p.players (omega (arith, f.single, fewer)) in
      record {
        connections = f.connections;
        players =
            (begun-IsFor p.active_fpv_drone_id (stream_info d) p.tasks begun f.tasks, f.players);
        tasks = finish-IsFor p.active_fpv_drone_id (stream_info d) p.tasks f.tasks;
        held = (ground arith, rw alone tt);
        single = omega (arith, f.single, fewer);
      }

  -- Where the same connections and players are left, or fewer of them.
  fewer-IsFaithful :
      (q : Player)
      → q.active_fpv_drone_id ≡ p.active_fpv_drone_id
      → All (IsShown p.active_fpv_drone_id) q.connections
      → (q.players ≡ p.players) × (q.fpv_hls_instance ≡ p.fpv_hls_instance) ⊎ (q.players ≡ [])
      → q.tasks ≡ p.tasks
      → IsFaithful q
  fewer-IsFaithful q active shown (inl (same, hls)) tasks = record {
    connections = rw active shown;
    players = rw (active, same) f.players;
    tasks = rw (active, tasks) f.tasks;
    held = rw (same, hls) f.held;
    single = rw (same, tasks) f.single;
  }
  fewer-IsFaithful q active shown (inr none_left) tasks = record {
    connections = rw active shown;
    players = rw none_left tt;
    tasks = rw (active, tasks) f.tasks;
    held = rw none_left tt;
    single = rw (none_left, tasks) (omega (arith, f.single));
  }

shut-IsShown :
    (o : Option String) (q : Option ℕ) (c : Connection) → IsShown o c → IsShown o (shut q c)
shut-IsShown o q c h = elim (Bool-cases (is_number q c.number)) [
  | inl e ↦ rw e (inl refl)
  | inr e ↦ rw e h
]

stop-IsShown :
    (o : Option String) (n : ℕ) (c : Connection) → IsShown o c → IsShown o (stop_timer n c)
stop-IsShown o n c h = either (IsShown o) (eqb c.number n) h h

module _ (p : Player) (f : IsFaithful p) where
  pub track-IsFaithful : (o : Option Connection) → IsFaithful (tracked o p)
  track-IsFaithful none = f
  track-IsFaithful (some c) = either IsFaithful (not c.is_open) f (
      either IsFaithful c.is_probe
        (fewer-IsFaithful p f _ refl
          (All-map _ _ _ p.connections
            (λ x h.
              stop-IsShown p.active_fpv_drone_id c.number (shut p.fpv_peer_connection x)
                (shut-IsShown p.active_fpv_drone_id p.fpv_peer_connection x h))
            f.connections)
          (inr (destroy-held p.fpv_hls_instance p.players f.held)) refl)
        (fewer-IsFaithful p f _ refl f.connections (inl (refl, refl)) refl))

  pub timeout-IsFaithful : (o : Option Connection) → IsFaithful (timed_out o p)
  timeout-IsFaithful none = f
  timeout-IsFaithful (some c) = either IsFaithful (not c.timer) f (
      fewer-IsFaithful p f _ refl
        (All-map _ _ _ p.connections
          (λ x h.
            stop-IsShown p.active_fpv_drone_id c.number (shut (some c.number) x)
              (shut-IsShown p.active_fpv_drone_id (some c.number) x h))
          f.connections)
        (inl (refl, refl)) refl)

  pub parsed-IsFaithful : (o : Option Hls) → IsFaithful (parsed_by o p)
  parsed-IsFaithful none = f
  parsed-IsFaithful (some h) = fewer-IsFaithful p f _ refl f.connections (inl (refl, refl)) refl

  pub probed-IsFaithful : (n : ℕ) (r : Option Bool) → IsFaithful (probed n r p)
  probed-IsFaithful n none = fewer-IsFaithful p f _ refl f.connections (inl (refl, refl)) refl
  probed-IsFaithful n (some true) =
      either IsFaithful (is_live n p.connections) f
        (fewer-IsFaithful p f _ refl f.connections (inl (refl, refl)) refl)
  probed-IsFaithful n (some false) =
      fewer-IsFaithful p f _ refl
        (All-map _ _ _ p.connections (shut-IsShown p.active_fpv_drone_id (some n)) f.connections)
        (inl (refl, refl)) refl

-- A probe is for the active drone.
probe-active :
    (hls : Option ℕ) (probing : Bool) (o : Option String) (d : String)
    → may_probe hls probing o d ≡ true
    → o ≡ some d
probe-active none probing o d h = cc
probe-active (some n) probing none d h = cc
probe-active (some n) probing (some e) d h = ground (arith, eq_iff e d)

pub tick-IsFaithful :
    (o : Option String) (w : Bool) (p : Player) → IsFaithful p → IsFaithful (ticked o w p)
tick-IsFaithful none w p f = f
tick-IsFaithful (some d) w p f =
    let may = may_probe p.fpv_hls_instance p.is_probing_web_rtc p.active_fpv_drone_id d in
    elim (Bool-cases may) [
      | inl e ↦
          let active =
            probe-active p.fpv_hls_instance p.is_probing_web_rtc p.active_fpv_drone_id d e in
          rw e (
            either IsFaithful w
              (record {
                connections = (inr active, f.connections);
                players = f.players;
                tasks = (tt, f.tasks);
                held = f.held;
                single = omega (arith, f.single);
              })
              f)
      | inr e ↦ rw e f
    ]
