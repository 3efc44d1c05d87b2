-- ===== src/Browser/Player/Stale.antt =====
-- drone-fleet-manager/public/js/video: what goes on after the user has turned to another drone.
use vdt_provisioning_service.Prelude.{
  ℕ, ◌+◌, String, ◌≡◌, inl, inr, refl, sym, ap, subst, ◌∙◌, Bool, true, false, not, Option, none,
  some, List, [], ◌∷◌, ◌==◌, ◌||◌, map, eqb, eq_refl, arith, Bool-cases,
}
use vdt_provisioning_service.Browser.Player.{
  Player, Connection, Hls, unsubscribe, handshake, hls_js, start, close, answer, info, track,
  is_number, shut, destroy, connection_of, hls_of, is_begun, is_live, close_fpv_video_stream,
  start_fpv_video_stream, on_event, run,
}

-- A drone of which there can be a video.
abbrev pub is_drone : String → Bool
is_drone d = not (d == "" || d == "all")

eqb_refl : (n : ℕ) → eqb n n ≡ true
eqb_refl n = ground arith

abbrev made : ℕ → String → Connection
made n d = record { number = n; device_id = d; is_open = true; is_probe = false; timer = false }

-- What a start leaves.
record IsStarted (d : String) (p q : Player) : Type 0 where
  active : q.active_fpv_drone_id ≡ some d
  current : q.fpv_peer_connection ≡ some p.next
  connections : q.connections ≡ made p.next d ∷ map (shut p.fpv_peer_connection) p.connections
  tasks : q.tasks ≡ handshake p.next d ∷ p.tasks
  sent : q.sent ≡ unsubscribe d ∷ p.sent
  next : q.next ≡ p.next + 1

start-IsStarted :
    (d : String) (p : Player) → is_drone d ≡ true → IsStarted d p (start_fpv_video_stream d true p)
unfolding start_fpv_video_stream close_fpv_video_stream
start-IsStarted d p h = elim (Bool-cases (d == "")) [
  | inl e ↦ cc (rw e at h)
  | inr e ↦ elim (Bool-cases (d == "all")) [
    | inl f ↦ cc (rw (e, f) at h)
    | inr f ↦
        rw (e, f)
          (record {
            active = refl;
            current = refl;
            connections = refl;
            tasks = refl;
            sent = refl;
            next = refl;
          })
  ]
]

-- The end of a handshake whose connection was closed, and the player that follows.
stale_plays :
    (n : ℕ) (d : String) (ok : Bool) (p : Player)
    → is_begun (handshake n d) p.tasks ≡ true
    → is_live n p.connections ≡ false
    → let q : Player = on_event (info d hls_js) (on_event (answer n d ok) p) in
      (q.active_fpv_drone_id ≡ p.active_fpv_drone_id)
      × (q.fpv_hls_instance ≡ some p.next)
      × (hls_of p.next q.players ≡ some (record { number = p.next; device_id = d }))
unfolding on_event
stale_plays n d true p begun dead =
    rw (begun, dead) (rw (eq_refl d) (refl, refl, rw (eqb_refl p.next) refl))
stale_plays n d false p begun dead =
    rw begun (rw (eq_refl d) (refl, refl, rw (eqb_refl p.next) refl))

-- Its connection was the current one when the second start came.
superseded :
    (d e : String) (p : Player)
    → is_drone d ≡ true
    → is_drone e ≡ true
    → let q : Player = start_fpv_video_stream e true (start_fpv_video_stream d true p) in
      (is_begun (handshake p.next d) q.tasks ≡ true)
      × (is_live p.next q.connections ≡ false)
      × (q.next ≡ p.next + 1 + 1)
superseded d e p hd he =
    let first = start-IsStarted d p hd in
    let second = start-IsStarted e (start_fpv_video_stream d true p) he in
    (
      rw (second.tasks, first.tasks, first.next) (ground (arith, eq_refl d)),
      rw (second.connections, first.connections, first.next, first.current) (ground arith),
      rw (second.next, first.next) refl,
    )

-- When the user turns to a second drone before the handshake for the first one has ended, then,
-- whatever the server answers to that handshake, the page asks for the first drone's HLS addresses,
-- and if hls.js plays them, the page's player is one of the first drone while the second is the
-- active one.
pub superseded_returns :
    (d e : String) (ok : Bool) (p : Player)
    → is_drone d ≡ true
    → is_drone e ≡ true
    → let q : Player =
        run (start d true ∷ start e true ∷ answer p.next d ok ∷ info d hls_js ∷ []) p in
      (q.active_fpv_drone_id ≡ some e)
      × (q.fpv_hls_instance ≡ some (p.next + 1 + 1))
      × (hls_of (p.next + 1 + 1) q.players
          ≡ some (record { number = p.next + 1 + 1; device_id = d }))
unfolding run on_event
superseded_returns d e ok p hd he =
    let two = start_fpv_video_stream e true (start_fpv_video_stream d true p) in
    let (begun, dead, next) = superseded d e p hd he in
    let (a, h, l) = stale_plays p.next d ok two begun dead in
    (
      a ∙ (start-IsStarted e (start_fpv_video_stream d true p) he).active,
      h ∙ ap (λ n. some n) next,
      subst
          (λ n.
            hls_of n (on_event (info d hls_js) (on_event (answer p.next d ok) two)).players
            ≡ some (record { number = n; device_id = d }))
          next l,
    )

num_eq : (n m : ℕ) → eqb n m ≡ true → n ≡ m
num_eq n m e = ground arith

number_apart :
    (o : Option ℕ) (m n : ℕ) → is_number o m ≡ true → is_number o n ≡ false → eqb m n ≡ false
number_apart none m n e apart = cc
number_apart (some k) m n e apart = ground arith

connection_of-shut :
    (n : ℕ) (o : Option ℕ) (c : Connection) (cs : List Connection)
    → is_number o n ≡ false
    → connection_of n cs ≡ some c
    → connection_of n (map (shut o) cs) ≡ some c
connection_of-shut n o c [] apart q = cc
connection_of-shut n o c (x ∷ xs) apart q = elim (Bool-cases (eqb x.number n)) [
  | inl e ↦
      let apart_too : is_number o x.number ≡ false =
        subst (λ m. is_number o m ≡ false) (sym (num_eq x.number n e)) apart in
      rw apart_too (rw e (rw e at q))
  | inr e ↦ elim (Bool-cases (is_number o x.number)) [
    | inl f ↦ rw f (rw e (connection_of-shut n o c xs apart (rw e at q)))
    | inr f ↦ rw f (rw e (connection_of-shut n o c xs apart (rw e at q)))
  ]
]

-- When the user closes the video while a probe's connection is open that is not the current one,
-- and the server's track comes on it then, the element shows the stream of that connection although
-- no drone is active.
pub closed_plays :
    (n : ℕ) (c : Connection) (p : Player)
    → connection_of n p.connections ≡ some c
    → c.is_open ≡ true
    → is_number p.fpv_peer_connection n ≡ false
    → let q : Player = run (close ∷ track n ∷ []) p in
      (q.active_fpv_drone_id ≡ none) × (q.src_object ≡ some c.number)
unfolding run on_event close_fpv_video_stream
closed_plays n c p here live apart =
    rw (connection_of-shut n p.fpv_peer_connection c p.connections apart here) (
      rw live
        (elim (Bool-cases c.is_probe) [ inl e ↦ rw e (refl, refl) | inr e ↦ rw e (refl, refl) ]))

pub hls_of-destroy :
    (n : ℕ) (o : Option ℕ) (h : Hls) (hs : List Hls)
    → is_number o n ≡ false
    → hls_of n hs ≡ some h
    → hls_of n (destroy o hs) ≡ some h
hls_of-destroy n o h [] apart q = cc
hls_of-destroy n o h (x ∷ xs) apart q = elim (Bool-cases (is_number o x.number)) [
  | inl e ↦
      let other : eqb x.number n ≡ false = number_apart o x.number n e apart in
      rw e (hls_of-destroy n o h xs apart (rw other at q))
  | inr e ↦ rw e (elim (Bool-cases (eqb x.number n)) [
    | inl f ↦ rw f (rw f at q)
    | inr f ↦ rw f (hls_of-destroy n o h xs apart (rw f at q))
  ])
]
