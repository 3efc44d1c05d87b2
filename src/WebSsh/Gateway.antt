-- ===== src/WebSsh/Gateway.antt =====
-- drone-fleet-manager/src/web-ssh/web-ssh.gateway.ts: who may open a terminal.
use vdt_provisioning_service.Prelude.{
  ℕ, String, Bool, true, false, Option, none, some, ◌==◌, eqb, ◌||◌, if◌then◌else◌,
}
use vdt_provisioning_service.Prelude.Effect.{Act, Result, ok, err, pure, ◌>>=◌}
use vdt_provisioning_service.Services.{Services, World}
use vdt_provisioning_service.Services.Tables.{Device}
use vdt_provisioning_service.Device.{find_by_device_id, find_by_vpn_ip}
use vdt_provisioning_service.Auth.{Crypto, Payload}
use vdt_provisioning_service.Auth.Guards.{or_text}
use vdt_provisioning_service.Mavlink.{token_of, owns}
use vdt_provisioning_service.WebSsh.{
  SshConnectOptions, Terminals, error, closed, emit, close_ssh_session, create_ssh_session,
  handle_input, handle_resize,
}

-- Where the handshake of the socket may carry a token.
pub record Handshake : Type 0 where
  pub auth_token : Option String
  pub query_token : Option String
  pub authorization : Option String

abbrev pub ssh_token : SshConnectOptions → Handshake → String
ssh_token o hs =
    token_of (or_text o.token (or_text hs.auth_token (or_text hs.query_token hs.authorization)))

module _ {v : Services} where
  -- The row of the identity, or the row of the address.
  unfoldable pub or_by_ip : String → Option Device → Act (World v) (Option Device)
  or_by_ip target none = find_by_vpn_ip target
  or_by_ip target (some d) = pure (some d)

  unfoldable pub may_open : String → Payload → Act (World v) Bool
  unfolding or_by_ip
  may_open target p =
      if p.role == "ADMIN"
      then pure true
      else (do by_id ← find_by_device_id target; row ← or_by_ip target by_id; pure (owns p.sub row))

  unfoldable pub opened :
      Bool → String → SshConnectOptions → Result Bool → Terminals v → Terminals v
  opened throws socket_id o (ok true) t = create_ssh_session throws socket_id o t
  opened throws socket_id o (ok false) t = emit socket_id error t
  opened throws socket_id o (err e) t = emit socket_id error t

  unfoldable pub verified :
      Bool → String → SshConnectOptions → Option Payload → Terminals v → Terminals v
  unfolding opened
  verified throws socket_id o none t = emit socket_id error t
  verified throws socket_id o (some p) t =
      let check = may_open o.device_id p t.world in
      opened throws socket_id o check.0 (record t { world = check.1 })

  unfoldable pub handle_connect :
      Crypto → Bool → String → Handshake → SshConnectOptions → Terminals v → Terminals v
  unfolding verified
  handle_connect k throws socket_id hs o t =
      if o.device_id == ""
      then emit socket_id error t
      else if ssh_token o hs == ""
      then emit socket_id error t
      else verified throws socket_id o (k.verify t.world.now (ssh_token o hs)) t

  unfoldable pub handle_disconnect : String → Terminals v → Terminals v
  handle_disconnect socket_id t = close_ssh_session socket_id t

  unfoldable pub handle_disconnect_session : String → Terminals v → Terminals v
  handle_disconnect_session socket_id t = emit socket_id closed (close_ssh_session socket_id t)

  -- `ssh:input`, with `none` where there are no data, and `ssh:resize`
  unfoldable pub on_input : String → Option String → Terminals v → Terminals v
  on_input socket_id none t = t
  on_input socket_id (some text) t = handle_input socket_id text t

  unfoldable pub on_resize : String → ℕ → ℕ → Terminals v → Terminals v
  on_resize socket_id cols rows t =
      if eqb cols 0 || eqb rows 0 then t else handle_resize socket_id cols rows t
