-- ===== src/TelemetryGateway/Seats.antt =====
-- The rooms of socket.io as a list of pairs of a room and a socket: each law of the interface can be
-- met.
use vdt_provisioning_service.Prelude.{
  ℕ, ◌+◌, String, ◌≡◌, inl, inr, refl, Bool, true, false, List, [], ◌∷◌, ◌==◌, ◌&&◌, arith, eq_iff,
  Bool-cases, if◌then◌else◌,
}
use vdt_provisioning_service.TelemetryGateway.Rooms.{Adapter}

abbrev pub Seats : Type 0
Seats = List (String × String)

abbrev pub seated : Seats → String → String → Bool
seated [] q x = false
seated ((r, c) ∷ s) q x = if (r == q) && (c == x) then true else seated s q x

abbrev sit : String → String → Seats → Seats
sit client room s = if seated s room client then s else (room, client) ∷ s

pub seated-sit :
    (client room : String) (s : Seats) (q x : String)
    → seated (sit client room s) q x ≡ (if (room == q) && (client == x) then true else seated s q x)
seated-sit client room s q x = elim (Bool-cases (seated s room client)) [
  | inl e ↦ rw e (ground (arith, eq_iff room q, eq_iff client x, e))
  | inr e ↦ rw e refl
]

abbrev vacate : String → String → Seats → Seats
vacate client room [] = []
vacate client room ((r, c) ∷ s) =
    let rest = vacate client room s in if (r == room) && (c == client) then rest else (r, c) ∷ rest

abbrev pub taken : Seats → String → ℕ
taken [] q = 0
taken ((r, c) ∷ s) q = let n = taken s q in if r == q then n + 1 else n

pub seated-vacate :
    (client room : String) (s : Seats) (q x : String)
    → seated (vacate client room s) q x
      ≡ (if (room == q) && (client == x) then false else seated s q x)
seated-vacate client room [] q x = ground arith
seated-vacate client room ((r, c) ∷ s) q x = ground (
  arith,
  seated-vacate client room s q x,
  eq_iff r room,
  eq_iff c client,
  eq_iff r q,
  eq_iff c x,
  eq_iff room q,
  eq_iff client x,
)

pub taken_none : (s : Seats) (q x : String) → taken s q ≡ 0 → seated s q x ≡ false
taken_none [] q x h = refl
taken_none ((r, c) ∷ s) q x h = ground (arith, taken_none s q x)

abbrev pub seats : Adapter
seats = record {
  Rooms = Seats;
  inside = seated;
  join = sit;
  leave = vacate;
  size = taken;
  join_inside = seated-sit;
  leave_inside = seated-vacate;
  size_zero = taken_none;
}
