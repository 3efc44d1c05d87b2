-- ===== src/WebSsh/Sessions.antt =====
-- drone-fleet-manager/src/web-ssh/web-ssh.service.ts and web-ssh.gateway.ts: sequences of events, and
-- whose connection a socket writes to.
use vdt_provisioning_service.Prelude.{
  ℕ, String, ◌≡◌, ◌⊎◌, inl, inr, refl, sym, ap, ◌∙◌, Bool, Option, none, some, List, [], ◌∷◌, eqb,
  Elem, first, ◌||◌, eq_refl, Bool-cases, Option-cases,
}
use vdt_provisioning_service.Prelude.Map
use vdt_provisioning_service.Prelude.Map.{get-set, get-delete}
use vdt_provisioning_service.Services.{Services}
use vdt_provisioning_service.Auth.{Crypto}
use vdt_provisioning_service.WebSsh.{
  SshConnectOptions, Dial, SshSession, Terminals, Event, Input, keys, shell_opened, shell_failed,
  stream_closed, failed, disconnected, data_in, has_stream, close_ssh_session, on_event, write,
  handle_input, handle_resize,
}
use vdt_provisioning_service.WebSsh.Gateway.{
  Handshake, handle_connect, handle_disconnect, handle_disconnect_session, on_input, on_resize,
}
use vdt_provisioning_service.WebSsh.Ownership.{
  IsDialled, IsSeated, left_over, close-IsSeated, handle_connect-IsSeated, nobody,
}

-- What the gateway and the clients of ssh2 do, in any order.
pub data Step : Type 0 where
  asked : Bool → String → Handshake → SshConnectOptions → Step
  left hung_up : String → Step
  happened : ℕ → Event → Step
  typed : String → Option String → Step
  resized : String → ℕ → ℕ → Step

module _ {v : Services} (k : Crypto) where
  -- The event of a client that nobody dialled does not come.
  abbrev heard : Option Dial → Event → Terminals v → Terminals v
  heard none e t = t
  heard (some d) e t = on_event d.socket_id d.client e t

  unfoldable pub step : Step → Terminals v → Terminals v
  step (asked throws socket hs o) t = handle_connect k throws socket hs o t
  step (left socket) t = handle_disconnect socket t
  step (hung_up socket) t = handle_disconnect_session socket t
  step (happened c e) t = heard (first (λ d. eqb d.client c) t.dialled) e t
  step (typed socket text) t = on_input socket text t
  step (resized socket cols rows) t = on_resize socket cols rows t

  unfoldable pub run : List Step → Terminals v → Terminals v
  run [] t = t
  run (s ∷ ss) t = run ss (step s t)

module _ {v : Services} where
  on_event-IsSeated :
      (socket : String) (c : ℕ) (e : Event) (t : Terminals v)
      → IsSeated t
      → IsSeated (on_event socket c e t)
  unfolding on_event
  on_event-IsSeated socket c shell_opened t h = h
  on_event-IsSeated socket c shell_failed t h = close-IsSeated socket _ h
  on_event-IsSeated socket c (data_in text) t h = h
  on_event-IsSeated socket c stream_closed t h = close-IsSeated socket _ h
  on_event-IsSeated socket c failed t h = close-IsSeated socket _ h
  on_event-IsSeated socket c disconnected t h = λ k s q. h k s (left_over t.sessions socket k s q)

  write-IsSeated :
      (i : Input) (o : Option SshSession) (t : Terminals v) → IsSeated t → IsSeated (write i o t)
  write-IsSeated i none t h = h
  write-IsSeated i (some s) t h = elim (Bool-cases (has_stream t.streams s.client)) [
    | inl e ↦ rw e h
    | inr e ↦ rw e h
  ]

  step-IsSeated : (k : Crypto) (s : Step) (t : Terminals v) → IsSeated t → IsSeated (step k s t)
  unfolding step handle_disconnect handle_disconnect_session on_input on_resize handle_input
      handle_resize
  step-IsSeated k (asked throws socket hs o) t h = handle_connect-IsSeated k throws socket hs o t h
  step-IsSeated k (left socket) t h = close-IsSeated socket t h
  step-IsSeated k (hung_up socket) t h = close-IsSeated socket t h
  step-IsSeated k (happened c e) t h = elim (Option-cases (first (λ d. eqb d.client c) t.dialled)) [
    | inl q ↦ rw q h
    | inr (d, q) ↦ rw q (on_event-IsSeated d.socket_id d.client e t h)
  ]
  step-IsSeated k (typed socket none) t h = h
  step-IsSeated k (typed socket (some text)) t h =
      write-IsSeated (keys text) (Map.get t.sessions socket) t h
  step-IsSeated k (resized socket cols rows) t h = elim (Bool-cases (eqb cols 0 || eqb rows 0)) [
    | inl e ↦ rw e h
    | inr e ↦ rw e (write-IsSeated _ (Map.get t.sessions socket) t h)
  ]

  run-IsSeated :
      (k : Crypto) (ss : List Step) (t : Terminals v) → IsSeated t → IsSeated (run k ss t)
  unfolding run
  run-IsSeated k [] t h = h
  run-IsSeated k (s ∷ ss) t h = run-IsSeated k ss (step k s t) (step-IsSeated k s t h)

  write_new :
      (i j : Input) (socket : String) (c : ℕ) (o : Option SshSession) (t : Terminals v)
      → ((s : SshSession) → o ≡ some s → IsDialled socket s t)
      → Elem (c, j) (write i o t).written
      → Elem (c, j) t.written
        ⊎ ((d : Dial) × Elem d t.dialled × (d.client ≡ c) × (d.socket_id ≡ socket))
  write_new i j socket c none t own h = inl h
  write_new i j socket c (some s) t own h = elim (Bool-cases (has_stream t.streams s.client)) [
    | inl e ↦ new (own s refl) (rw e at h)
    | inr e ↦ inl (rw e at h)
  ]
    where
      new :
          IsDialled socket s t
          → Elem (c, j) ((s.client, i) ∷ t.written)
          → Elem (c, j) t.written
            ⊎ ((d : Dial) × Elem d t.dialled × (d.client ≡ c) × (d.socket_id ≡ socket))
      new (d, m, same, mine, host) (inl e) = inr (d, m, same ∙ sym (ap (λ x. x.0) e), mine)
      new own (inr m) = inl m

  -- After any sequence of requests, events of the clients, and keys, what a socket types goes at
  -- most to a client that the same socket has dialled: never to a terminal of another socket.
  pub run_types :
      (k : Crypto) (ss : List Step) (t : Terminals v) (socket text : String) (c : ℕ) (i : Input)
      → t.sessions ≡ []
      → let r = run k ss t in
        Elem (c, i) (handle_input socket text r).written
        → Elem (c, i) r.written
          ⊎ ((d : Dial) × Elem d r.dialled × (d.client ≡ c) × (d.socket_id ≡ socket))
  unfolding handle_input
  run_types k ss t socket text c i empty h =
      write_new (keys text) i socket c (Map.get (run k ss t).sessions socket) (run k ss t)
        (λ s q.
          run-IsSeated k ss t (λ socket s q. absurd (nobody t.sessions socket s empty q)) socket s
            q)
        h

  -- The end of any client of a socket, also of one that a new connection has replaced, takes the
  -- socket's session away without ending its client: what the socket types is lost, and its
  -- departure ends nothing.
  pub disconnected_strands :
      (socket text : String) (c : ℕ) (t : Terminals v)
      → let r = on_event socket c disconnected t in
        (Map.get r.sessions socket ≡ none)
        × ((handle_input socket text r).written ≡ t.written)
        × ((handle_disconnect socket r).ended ≡ t.ended)
  unfolding on_event handle_input handle_disconnect close_ssh_session
  disconnected_strands socket text c t =
      let gone : Map.get (Map.delete t.sessions socket) socket ≡ none =
        get-delete t.sessions socket socket ∙ rw (eq_refl socket) refl in
      (gone, rw gone refl, rw (gone, close_ssh_session) refl)
