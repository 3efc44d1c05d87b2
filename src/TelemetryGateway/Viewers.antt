-- ===== src/TelemetryGateway/Viewers.antt =====
-- Who gets into the room of a drone, and what leaving does to the focus set.
use vdt_provisioning_service.Prelude.{
  String, ◌≡◌, inl, inr, refl, sym, ap, ◌∙◌, Bool, true, false, Option, none, some, List, [], ◌∷◌,
  ◌==◌, Elem, All, arith, eq_iff, eq_refl, Bool-cases, eqb, leb, if◌then◌else◌,
}
use vdt_provisioning_service.Prelude.Map
use vdt_provisioning_service.Prelude.Effect.{Result, ok, err, bind-eq-ok, ok-injective}
use vdt_provisioning_service.Services.{Services, World}
use vdt_provisioning_service.RedisService.{remove_focus_drone}
use vdt_provisioning_service.Device.{find_by_device_id}
use vdt_provisioning_service.Device.Identity.Laws.{found_by_id}
use vdt_provisioning_service.Auth.{Payload}
use vdt_provisioning_service.Mavlink.{owns}
use vdt_provisioning_service.Mavlink.Access.{IsEntitled, owned_row, false-ne-true}
use vdt_provisioning_service.RedisService.Laws.{
  TakesFocus, focused, remove_focus_drone_lem, focus_keeps_client,
}
use vdt_provisioning_service.TelemetryGateway.Rooms.{Adapter}
use vdt_provisioning_service.TelemetryGateway.{
  Hub, Session, drone_room, may_view, focus, allowed, subscribing, handle_subscribe_drone,
  handle_unsubscribe_drone, drop_focus, forgotten, handle_disconnect,
}

may_view-IsEntitled :
    {v : Services} (d : String) (p : Payload) (w : World v)
    → (may_view d p w).0 ≡ ok true
    → IsEntitled d p w
unfolding may_view
may_view-IsEntitled d p w h = elim (Bool-cases (p.role == "ADMIN")) [
  | inl e ↦ inl (ground (arith, eq_iff p.role "ADMIN"))
  | inr e ↦
      let (r, q, goes) =
        bind-eq-ok (find_by_device_id d) (λ x s. (ok (owns p.sub x), s)) w true (rw e at h) in
      let passed = sym (ap (λ (x : Result Bool × World _). x.0) goes) ∙ rw e at h in
      let (row, found, owner) = owned_row p.sub r (ok-injective passed) in
      let (there, same) = found_by_id w d row (q ∙ ap ok found) in inr (row, there, same, owner)
]

module _ {v : Services} {a : Adapter} where
  allowed_new :
      (client d q x : String) (s : Session) (c : Result Bool) (h : Hub v a)
      → a.inside h.rooms q x ≡ false
      → a.inside (allowed client d s c h).1.rooms q x ≡ true
      → (c ≡ ok true) × (x ≡ client) × (q ≡ drone_room d)
  unfolding allowed focus
  allowed_new client d q x s (ok true) h before after =
      let in_room = sym (a.join_inside client (drone_room d) h.rooms q x) ∙ after in
      (refl, ground (arith, eq_iff client x), ground (arith, eq_iff (drone_room d) q))
  allowed_new client d q x s (ok false) h before after = absurd (false-ne-true (sym before ∙ after))
  allowed_new client d q x s (err e) h before after = absurd (false-ne-true (sym before ∙ after))

  subscribing_new :
      (client d q x : String) (o : Option Session) (h : Hub v a)
      → a.inside h.rooms q x ≡ false
      → a.inside (subscribing client d o h).1.rooms q x ≡ true
      → (s : Session) × (o ≡ some s)
        × (x ≡ client)
        × (q ≡ drone_room d)
        × IsEntitled d s.user h.world
  unfolding subscribing
  subscribing_new client d q x none h before after = absurd (false-ne-true (sym before ∙ after))
  subscribing_new client d q x (some s) h before after =
      let check = may_view d s.user h.world in
      let (passes, who, room) =
        allowed_new client d q x s check.0 (record h { world = check.1 }) before after in
      (s, refl, who, room, may_view-IsEntitled d s.user h.world passes)

  -- The only socket that `subscribe:drone` brings into a room is the one that asks, into the room
  -- of the drone it asks for, and its user is an administrator or owns that drone by the table.
  pub handle_subscribe_drone-IsEntitled :
      (client d q x : String) (h : Hub v a)
      → a.inside h.rooms q x ≡ false
      → a.inside (handle_subscribe_drone client d h).1.rooms q x ≡ true
      → (s : Session) × (Map.get h.session_of client ≡ some s)
        × (x ≡ client)
        × (q ≡ drone_room d)
        × IsEntitled d s.user h.world
  unfolding handle_subscribe_drone
  handle_subscribe_drone-IsEntitled client d q x h before after = elim (Bool-cases (d == "")) [
    | inl e ↦ absurd (false-ne-true (sym before ∙ rw e at after))
    | inr e ↦ subscribing_new client d q x (Map.get h.session_of client) h before (rw e at after)
  ]

  -- Where there is a Redis client and Redis takes the writes: after `unsubscribe:drone` for a drone
  -- whose id is not blank, the socket is out of the room, and the drone has left the focus set if
  -- nobody is in the room any more, and else keeps its place.
  pub handle_unsubscribe_drone_lem :
      (client d : String) (h : Hub v a)
      → TakesFocus v
      → h.world.has_client ≡ true
      → (d == "") ≡ false
      → (a.inside (handle_unsubscribe_drone client d h).1.rooms (drone_room d) client ≡ false)
        × (focused (handle_unsubscribe_drone client d h).1.world d ≡ (
            if eqb (a.size (handle_unsubscribe_drone client d h).1.rooms (drone_room d)) 0
            then false
            else focused h.world d))
  unfolding handle_unsubscribe_drone
  handle_unsubscribe_drone_lem client d h redis there named =
      elim (Bool-cases (eqb (a.size (a.leave client (drone_room d) h.rooms) (drone_room d)) 0)) [
        | inl e ↦
            rw (named, e)
              (
                out,
                remove_focus_drone_lem d d h.world redis there named
                    ∙ ap (λ b. if b then false else focused h.world d) (eq_refl d)
                    ∙ sym (ap (λ b. if b then false else focused h.world d) e),
              )
        | inr e ↦ rw (named, e) (out, sym (ap (λ b. if b then false else focused h.world d) e))
      ]
    where
      out : a.inside (a.leave client (drone_room d) h.rooms) (drone_room d) client ≡ false
      out =
          a.leave_inside client (drone_room d) h.rooms (drone_room d) client
          ∙ ground (arith, eq_refl (drone_room d), eq_refl client)

  drop_focus_rooms : (ds : List String) (h : Hub v a) → (drop_focus ds h).rooms ≡ h.rooms
  unfolding drop_focus
  drop_focus_rooms [] h = refl
  drop_focus_rooms (d ∷ ds) h = elim (Bool-cases (leb (a.size h.rooms (drone_room d)) 1)) [
    | inl e ↦
        rw (e, drop_focus)
          (drop_focus_rooms ds (record h { world = (remove_focus_drone d h.world).1 }))
    | inr e ↦ rw (e, drop_focus) (drop_focus_rooms ds h)
  ]

  drop_focus_off :
      (ds : List String) (d : String) (h : Hub v a)
      → TakesFocus v
      → h.world.has_client ≡ true
      → All (λ x. (x == "") ≡ false) ds
      → focused h.world d ≡ false
      → focused (drop_focus ds h).world d ≡ false
  unfolding drop_focus
  drop_focus_off [] d h redis there named off = off
  drop_focus_off (x ∷ ds) d h redis there named off =
      elim (Bool-cases (leb (a.size h.rooms (drone_room x)) 1)) [
        | inl e ↦
            rw (e, drop_focus)
              (drop_focus_off ds d (record h { world = (remove_focus_drone x h.world).1 }) redis
                ((focus_keeps_client x h.world).1 ∙ there) named.1
                (remove_focus_drone_lem x d h.world redis there named.0 ∙ still (x == d) off))
        | inr e ↦ rw (e, drop_focus) (drop_focus_off ds d h redis there named.1 off)
      ]
    where
      still : (b : Bool) {c : Bool} → c ≡ false → (if b then false else c) ≡ false
      still true q = refl
      still false q = q

  drop_focus_removes :
      (ds : List String) (d : String) (h : Hub v a)
      → TakesFocus v
      → h.world.has_client ≡ true
      → All (λ x. (x == "") ≡ false) ds
      → Elem d ds
      → leb (a.size h.rooms (drone_room d)) 1 ≡ true
      → focused (drop_focus ds h).world d ≡ false
  unfolding drop_focus
  drop_focus_removes [] d h redis there named m small = elim m [ ]
  drop_focus_removes (x ∷ ds) d h redis there named (inl same) small =
      let e = ap (λ y. leb (a.size h.rooms (drone_room y)) 1) (sym same) ∙ small in
      rw (e, drop_focus)
        (drop_focus_off ds d (record h { world = (remove_focus_drone x h.world).1 }) redis
          ((focus_keeps_client x h.world).1 ∙ there) named.1
          (remove_focus_drone_lem x d h.world redis there named.0
            ∙ ap (λ y. if x == y then false else focused h.world d) same
            ∙ ap (λ b. if b then false else focused h.world d) (eq_refl x)))
  drop_focus_removes (x ∷ ds) d h redis there named (inr m) small =
      elim (Bool-cases (leb (a.size h.rooms (drone_room x)) 1)) [
        | inl e ↦
            rw (e, drop_focus)
              (drop_focus_removes ds d (record h { world = (remove_focus_drone x h.world).1 }) redis
                ((focus_keeps_client x h.world).1 ∙ there) named.1 m small)
        | inr e ↦ rw (e, drop_focus) (drop_focus_removes ds d h redis there named.1 m small)
      ]

  -- A socket that had a drone in focus, and no blank id, disconnects while the room of that drone
  -- has one socket, another one: where there is a Redis client and Redis takes the writes, the
  -- drone is not in the focus set after, although the other socket is still in the room.
  pub handle_disconnect_drops :
      (client other d : String) (s : Session) (h : Hub v a)
      → TakesFocus v
      → h.world.has_client ≡ true
      → Map.get h.session_of client ≡ some s
      → All (λ x. (x == "") ≡ false) s.focused_drones
      → Elem d s.focused_drones
      → a.size h.rooms (drone_room d) ≡ 1
      → a.inside h.rooms (drone_room d) other ≡ true
      → (focused (handle_disconnect client h).world d ≡ false)
        × (a.inside (handle_disconnect client h).rooms (drone_room d) other ≡ true)
  unfolding handle_disconnect forgotten
  handle_disconnect_drops client other d s h redis there known named m one inside = rw known (
    drop_focus_removes s.focused_drones d h redis there named m (ap (λ n. leb n 1) one),
    ap (λ r. a.inside r (drone_room d) other) (drop_focus_rooms s.focused_drones h) ∙ inside,
  )
