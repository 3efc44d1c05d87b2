-- ===== src/Mavlink/Runs.antt =====
-- Any sequence of connections, disconnections and callbacks of the relay.
use vdt_provisioning_service.Prelude.{
  String, ◌≡◌, ◌⊎◌, inl, inr, refl, ap, ◌∙◌, true, false, Option, none, some, List, [], ◌∷◌, ◌==◌,
  contains, contains-discard, eq_refl, Bool-cases, if◌then◌else◌,
}
use vdt_provisioning_service.Prelude.Map
use vdt_provisioning_service.Prelude.Map.{Map, get-set, get-delete}
use vdt_provisioning_service.Services.{Services}
use vdt_provisioning_service.Auth.{Crypto, Payload}
use vdt_provisioning_service.Auth.Guards.{or_text}
use vdt_provisioning_service.Mavlink.{
  Relay, Handshake, ClientData, unsubscribe, raw_full_channel, clients_of, members, admit,
  handle_connection, leave, disconnected, handle_disconnect, on_subscribed, on_unsubscribed,
  token_of, raw_token, drone_id_of,
}
use vdt_provisioning_service.RedisService.Laws.{TakesFocus}
use vdt_provisioning_service.Mavlink.Focus.{IsInSync, verified-IsInSync, leave-IsInSync}

-- What can happen at the gateway.
pub data Event : Type 0 where
  connects : String → Handshake → Event
  disconnects : String → Event
  subscribed unsubscribed : String → Event

module _ {v : Services} (k : Crypto) where
  unfoldable pub step : Event → Relay v → Relay v
  step (connects client hs) r = handle_connection k client hs r
  step (disconnects client) r = handle_disconnect client r
  step (subscribed channel) r = on_subscribed channel r
  step (unsubscribed channel) r = on_unsubscribed channel r

  unfoldable pub run : List Event → Relay v → Relay v
  unfolding step
  run [] r = r
  run (e ∷ es) r = run es (step e r)

  connected-IsInSync :
      (client : String) (hs : Handshake) (r : Relay v)
      → TakesFocus v
      → IsInSync r
      → IsInSync (handle_connection k client hs r)
  unfolding handle_connection
  connected-IsInSync client hs r redis sync =
      elim (Bool-cases (drone_id_of (or_text hs.query_drone_id hs.header_drone_id) == "")) [
        | inl e ↦ rw e (record { has_client = sync.has_client; focus = sync.focus })
        | inr e ↦ with_token e (Bool-cases (token_of (raw_token hs) == ""))
      ]
    where
      with_token :
          (drone_id_of (or_text hs.query_drone_id hs.header_drone_id) == "") ≡ false
          → ((token_of (raw_token hs) == "") ≡ true) ⊎ ((token_of (raw_token hs) == "") ≡ false)
          → IsInSync (handle_connection k client hs r)
      with_token e (inl t) = rw (e, t) (record { has_client = sync.has_client; focus = sync.focus })
      with_token e (inr t) =
          rw (e, t)
            (verified-IsInSync client (drone_id_of (or_text hs.query_drone_id hs.header_drone_id))
              (k.verify r.world.now (token_of (raw_token hs))) r redis e sync)

  left-IsInSync :
      (client d : String) (o : Option (List String)) (r : Relay v)
      → TakesFocus v
      → (d == "") ≡ false
      → Map.get r.drone_clients d ≡ o
      → IsInSync r
      → IsInSync (leave client d o r)
  unfolding leave
  left-IsInSync client d none r redis named there sync = sync
  left-IsInSync client d (some cs) r redis named there sync =
      leave-IsInSync client d cs r redis named there sync

  gone-IsInSync :
      (client : String) (o : Option ClientData) (r : Relay v)
      → TakesFocus v
      → IsInSync r
      → IsInSync (disconnected client o r)
  unfolding disconnected
  gone-IsInSync client none r redis sync = sync
  gone-IsInSync client (some d) r redis sync = elim (Bool-cases (d.drone_id == "")) [
    | inl e ↦ rw e sync
    | inr e ↦
        rw e
          (left-IsInSync client d.drone_id (Map.get r.drone_clients d.drone_id) r redis e refl sync)
  ]

  step-IsInSync : (e : Event) (r : Relay v) → TakesFocus v → IsInSync r → IsInSync (step e r)
  unfolding step handle_disconnect
  step-IsInSync (connects client hs) r redis sync = connected-IsInSync client hs r redis sync
  step-IsInSync (disconnects client) r redis sync =
      gone-IsInSync client (Map.get r.data_of client) r redis sync
  step-IsInSync (subscribed channel) r redis sync = record {
    has_client = sync.has_client;
    focus = sync.focus;
  }
  step-IsInSync (unsubscribed channel) r redis sync = record {
    has_client = sync.has_client;
    focus = sync.focus;
  }

  -- Where Redis takes the writes and no other component changes the focus set, that set holds
  -- exactly the drones with a pilot's entry, after any sequence of connections, disconnections
  -- and callbacks, if it did before.
  pub run-IsInSync :
      (es : List Event) (r : Relay v) → TakesFocus v → IsInSync r → IsInSync (run es r)
  unfolding run
  run-IsInSync [] r redis sync = sync
  run-IsInSync (e ∷ es) r redis sync =
      run-IsInSync es (step e r) redis (step-IsInSync e r redis sync)

-- A pilot on the relay whose raw channel is off, and whose last request for it was to unsubscribe.
pub record IsStranded {v : Services} (client drone_id : String) (before after : Relay v)
    : Type 0 where
  pub joined : clients_of after drone_id ≡ client ∷ []
  pub off : contains after.subscribed_raw_channels (raw_full_channel drone_id) ≡ false
  pub asked : after.requests ≡ unsubscribe (raw_full_channel drone_id) ∷ before.requests

module _ {v : Services} (old d : String) (q : Payload) (r : Relay v) where
  -- The last pilot leaves: the entry goes, and the subscriber is asked to unsubscribe.
  record IsLeft (after : Relay v) : Type 0 where
    clients : after.drone_clients ≡ Map.delete r.drone_clients d
    asked : after.requests ≡ unsubscribe (raw_full_channel d) ∷ r.requests
    channels : after.subscribed_raw_channels ≡ r.subscribed_raw_channels
    subscriber : after.has_subscriber ≡ r.has_subscriber

  last-IsLeft :
      (d == "") ≡ false
      → Map.get r.data_of old ≡ some (record { drone_id = d; user = q })
      → Map.get r.drone_clients d ≡ some (old ∷ [])
      → r.has_subscriber ≡ true
      → contains r.subscribed_raw_channels (raw_full_channel d) ≡ true
      → IsLeft (handle_disconnect old r)
  unfolding handle_disconnect disconnected leave
  last-IsLeft named its only has on =
      let self : (old == old) ≡ true = eq_refl old in
      rw (its, named, only, self, has, on)
        (record { clients = refl; asked = refl; channels = refl; subscriber = refl })

  record IsJoined (new : String) (before after : Relay v) : Type 0 where
    clients : clients_of after d ≡ new ∷ []
    asked : after.requests ≡ before.requests
    channels : after.subscribed_raw_channels ≡ before.subscribed_raw_channels

  -- A pilot joins a drone whose channel is taken for on.
  admit-IsJoined :
      (new : String) (p : Payload) (s : Relay v)
      → Map.get s.drone_clients d ≡ none
      → contains s.subscribed_raw_channels (raw_full_channel d) ≡ true
      → s.has_subscriber ≡ true
      → IsJoined new s (admit new d p s)
  unfolding admit
  admit-IsJoined new p s empty on has =
      rw (empty, has, on)
        (record {
          clients =
              ap members (get-set s.drone_clients d d (new ∷ []))
              ∙ ap (λ b. members (if b then some (new ∷ []) else Map.get s.drone_clients d))
                  (eq_refl d);
          asked = refl;
          channels = refl;
        })

  -- If the only pilot of a drone whose raw channel is on leaves, with a subscriber there, and
  -- another pilot joins before the callback of `unsubscribe`, then after the callback the new
  -- pilot is the drone's only one, the channel is off, and the last request was to unsubscribe.
  pub reconnect-IsStranded :
      (new : String) (p : Payload)
      → (d == "") ≡ false
      → Map.get r.data_of old ≡ some (record { drone_id = d; user = q })
      → Map.get r.drone_clients d ≡ some (old ∷ [])
      → r.has_subscriber ≡ true
      → contains r.subscribed_raw_channels (raw_full_channel d) ≡ true
      → IsStranded new d r
          (on_unsubscribed (raw_full_channel d) (admit new d p (handle_disconnect old r)))
  reconnect-IsStranded new p named its only has on =
      let left = last-IsLeft named its only has on in
      let s = handle_disconnect old r in
      let empty =
        ap (λ m. Map.get m d) left.clients
        ∙ get-delete r.drone_clients d d
        ∙ ap (λ b. if b then none else Map.get r.drone_clients d) (eq_refl d) in
      let join =
        admit-IsJoined new p s empty
          (ap (λ cs. contains cs (raw_full_channel d)) left.channels ∙ on)
          (left.subscriber ∙ has) in
      record {
        joined = join.clients;
        off =
            contains-discard (admit new d p s).subscribed_raw_channels (raw_full_channel d)
              (raw_full_channel d)
            ∙ ap
                (λ b.
                  if b
                  then false
                  else contains (admit new d p s).subscribed_raw_channels (raw_full_channel d))
                (eq_refl (raw_full_channel d));
        asked = join.asked ∙ left.asked;
      }
