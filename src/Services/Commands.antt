-- ===== src/Services/Commands.antt =====
-- The commands that wireguard.service.ts runs through `execAsync`, and `wg` behind them.
use vdt_provisioning_service.Prelude.{
  String, ◌≡◌, Bool, true, false, Option, none, some, ◌==◌, is_text, if◌then◌else◌,
}
use vdt_provisioning_service.Prelude.Effect.{Act, ok, err, Failure}

-- One constructor for each command line, over the interface's name.
pub data Command : Type 0 where
  show_public_key show show_dump : String → Command
  genkey : Command
  pubkey : String → Command
  -- `sudo wg set <interface> peer <key> allowed-ips <cidr>`, `… peer <key> remove`
  set_peer : String → String → String → Command
  remove_peer : String → String → Command

-- The routing table after a peer gets the allowed IPs `cidr`: the range moves to that peer, and is
-- all that the peer has.
abbrev pub routed : String → String → (String → Option String) → String → Option String
routed key cidr route c =
    if c == cidr then some key else if is_text (route c) key then none else route c

abbrev pub unrouted : String → (String → Option String) → String → Option String
unrouted key route c = if is_text (route c) key then none else route c

-- `exec` returns standard output, or throws if the command fails. `route` is the kernel's table of
-- allowed IPs (which peer has a range) and `peer` says which keys are peers of the interface.
pub record Shell : Type 1 where
  pub Host : Type 0
  pub exec : Command → Act Host String
  pub route : Host → String → Option String
  pub peer : Host → String → Bool
  pub exec_fails_route :
      (c : Command) (h : Host) (e : Failure) (ip : String)
      → (exec c h).0 ≡ err e
      → route (exec c h).1 ip ≡ route h ip
  pub exec_fails_peer :
      (c : Command) (h : Host) (e : Failure) (k : String)
      → (exec c h).0 ≡ err e
      → peer (exec c h).1 k ≡ peer h k
  pub set_peer_route :
      (i k cidr : String) (h : Host) (out ip : String)
      → (exec (set_peer i k cidr) h).0 ≡ ok out
      → route (exec (set_peer i k cidr) h).1 ip ≡ routed k cidr (route h) ip
  pub set_peer_peer :
      (i k cidr : String) (h : Host) (out j : String)
      → (exec (set_peer i k cidr) h).0 ≡ ok out
      → peer (exec (set_peer i k cidr) h).1 j ≡ (if k == j then true else peer h j)
  pub remove_peer_route :
      (i k : String) (h : Host) (out ip : String)
      → (exec (remove_peer i k) h).0 ≡ ok out
      → route (exec (remove_peer i k) h).1 ip ≡ unrouted k (route h) ip
  pub remove_peer_peer :
      (i k : String) (h : Host) (out j : String)
      → (exec (remove_peer i k) h).0 ≡ ok out
      → peer (exec (remove_peer i k) h).1 j ≡ (if k == j then false else peer h j)
  -- The commands that only print.
  pub genkey_keeps :
      (h : Host) (ip k : String)
      → (route (exec genkey h).1 ip ≡ route h ip) × (peer (exec genkey h).1 k ≡ peer h k)
  pub pubkey_keeps :
      (s : String) (h : Host) (ip k : String)
      → (route (exec (pubkey s) h).1 ip ≡ route h ip) × (peer (exec (pubkey s) h).1 k ≡ peer h k)
  pub show_keeps :
      (i : String) (h : Host) (ip k : String)
      → (route (exec (show_public_key i) h).1 ip ≡ route h ip)
        × (peer (exec (show_public_key i) h).1 k ≡ peer h k)
        × (route (exec (show_dump i) h).1 ip ≡ route h ip)
        × (peer (exec (show_dump i) h).1 k ≡ peer h k)
