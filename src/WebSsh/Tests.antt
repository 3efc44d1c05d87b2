-- ===== src/WebSsh/Tests.antt =====
-- Terminals of a pilot and an administrator, with services in memory.
use vdt_provisioning_service.Prelude.{
  ℕ, String, ◌≡◌, ◌⊎◌, inl, refl, true, false, none, some, List, [], ◌∷◌, Elem,
}
use vdt_provisioning_service.Prelude.Map
use vdt_provisioning_service.Prelude.Text.{trim, is_ipv4, starts_with, substring, replace_all}
use vdt_provisioning_service.Services.Tables.{Device}
use vdt_provisioning_service.Services.Memory.{memory, world, row}
use vdt_provisioning_service.Device.{find_by_device_id, find_by_vpn_ip}
use vdt_provisioning_service.Auth.{Payload}
use vdt_provisioning_service.Auth.Memory.{toy, token}
use vdt_provisioning_service.WebSsh.{
  SshConnectOptions, Dial, Terminals, keys, password, shell_opened, disconnected, resolve,
  close_ssh_session, dial, dial_at, create_ssh_session, on_event, handle_input,
}
use vdt_provisioning_service.WebSsh.Gateway.{
  Handshake, ssh_token, may_open, or_by_ip, opened, verified, handle_connect, handle_disconnect,
  on_input,
}
use vdt_provisioning_service.WebSsh.Routing.{IsAddressOf}
use vdt_provisioning_service.WebSsh.Access.{MayOpen, handle_connect-MayOpen}
use vdt_provisioning_service.WebSsh.Sessions.{
  Step, asked, happened, typed, step, run, run_types, disconnected_strands,
}

abbrev pilot : Payload
pilot = record { sub = "user-2"; email = "p@vdt"; role = "PILOT" }

-- The pilot's row has the name of an address that the drone no longer has.
abbrev drone : Device
drone = record (row "b" "D3" (some "10.13.37.3") "ACTIVE") { user_id = some "user-2" }

abbrev moved : Device
moved = record (row "c" "DRONE-IP-10-13-37-5" (some "10.13.37.9") "ACTIVE") {
  user_id = some "user-2";
}

abbrev terminals : Terminals memory
terminals = record {
  world = world (drone ∷ moved ∷ []) true;
  sessions = [];
  next = 0;
  streams = [];
  dialled = [];
  ended = [];
  written = [];
  replies = [];
}

abbrev handshake : Handshake
handshake = record { auth_token = some (token pilot); query_token = none; authorization = none }

abbrev options : String → SshConnectOptions
options id = record {
  device_id = id;
  username = none;
  password = none;
  private_key = none;
  cols = 0;
  rows = 0;
  token = none;
}

abbrev dialled_at : ℕ → String → Dial
dialled_at c host = record {
  client = c;
  socket_id = "s1";
  host = host;
  username = "root";
  secret = password "raspberry";
  cols = 80;
  rows = 24;
}

open_terminals : Unit {0}
unfolding handle_connect verified opened may_open or_by_ip find_by_device_id find_by_vpn_ip
    create_ssh_session dial_at dial close_ssh_session resolve trim is_ipv4 starts_with substring
    replace_all Map.get Map.set Map.delete on_event handle_input step run on_input
open_terminals = tt

dials :
    (handle_connect toy false "s1" handshake (options "D3") terminals).dialled
    ≡ dialled_at 0 "10.13.37.3" ∷ []
unfolding open_terminals
dials = refl

-- An identity that spells out an address leads there, whatever address the row has.
spelled_out :
    (handle_connect toy false "s1" handshake (options "DRONE-IP-10-13-37-5") terminals).dialled
    ≡ dialled_at 0 "10.13.37.5" ∷ []
unfolding open_terminals
spelled_out = refl

new_dial :
    Elem
      (dialled_at 0 "10.13.37.3")
      (handle_connect toy false "s1" handshake (options "D3") terminals).dialled
unfolding open_terminals
new_dial = inl refl

handle_connect-MayOpen_example :
    Elem (dialled_at 0 "10.13.37.3") []
    ⊎ ((p : Payload) × (toy.verify 1000 (ssh_token (options "D3") handshake) ≡ some p)
        × MayOpen "D3" p terminals.world
        × (◌≡◌ {A = String} "s1" "s1")
        × IsAddressOf (trim "D3") (drone ∷ moved ∷ []) "10.13.37.3")
handle_connect-MayOpen_example =
    handle_connect-MayOpen toy false "s1" handshake (options "D3") terminals
      (dialled_at 0 "10.13.37.3") new_dial

-- The second connection of a socket takes the place of the first, whose end comes later.
abbrev steps : List Step
steps =
    asked false "s1" handshake (options "D3")
    ∷ happened 0 shell_opened
    ∷ asked false "s1" handshake (options "D3")
    ∷ happened 1 shell_opened
    ∷ []

types : Elem (1, keys "ls") (handle_input "s1" "ls" (run toy steps terminals)).written
unfolding open_terminals
types = inl refl

run_types_example :
    Elem (1, keys "ls") (run toy steps terminals).written
    ⊎ ((d : Dial) × Elem d (run toy steps terminals).dialled
        × (d.client ≡ 1)
        × (d.socket_id ≡ "s1"))
run_types_example = run_types toy steps terminals "s1" "ls" 1 (keys "ls") refl types

stranded :
    ((run toy
        (happened 0 disconnected ∷ typed "s1" (some "ls") ∷ [])
        (run toy steps terminals)).written
      ≡ [])
    × ((run toy
          (happened 0 disconnected ∷ typed "s1" (some "ls") ∷ [])
          (run toy steps terminals)).ended
        ≡ 0 ∷ [])
unfolding open_terminals
stranded = (refl, refl)

disconnected_strands_example :
    let r : Terminals memory = on_event "s1" 0 disconnected (run toy steps terminals) in
    (Map.get r.sessions "s1" ≡ none)
    × ((handle_input "s1" "ls" r).written ≡ (run toy steps terminals).written)
    × ((handle_disconnect "s1" r).ended ≡ (run toy steps terminals).ended)
disconnected_strands_example = disconnected_strands "s1" "ls" 0 (run toy steps terminals)
