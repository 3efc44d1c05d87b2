-- ===== src/TelemetryGateway/Rooms.antt =====
-- The rooms of socket.io, which the gateway uses through `join`, `leave` and the size of a room.
use vdt_provisioning_service.Prelude.{ℕ, String, ◌≡◌, Bool, true, false, ◌==◌, ◌&&◌, if◌then◌else◌}

-- `inside r room client`: the socket is in the room.
pub record Adapter : Type 1 where
  pub Rooms : Type 0
  pub inside : Rooms → String → String → Bool
  pub join : String → String → Rooms → Rooms
  pub leave : String → String → Rooms → Rooms
  pub size : Rooms → String → ℕ
  pub join_inside :
      (client room : String) (r : Rooms) (q x : String)
      → inside (join client room r) q x
        ≡ (if (room == q) && (client == x) then true else inside r q x)
  pub leave_inside :
      (client room : String) (r : Rooms) (q x : String)
      → inside (leave client room r) q x
        ≡ (if (room == q) && (client == x) then false else inside r q x)
  -- A room that nobody is in has no size.
  pub size_zero : (r : Rooms) (q x : String) → size r q ≡ 0 → inside r q x ≡ false
