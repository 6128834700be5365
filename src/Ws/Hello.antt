-- ===== src/Ws/Hello.antt =====
-- packages/server/src/ws/server.ts: `hello`.
use obsidian_baritone.Prelude.{
  ℕ, ◌==◌, not, ◌||◌, none, some, List, [], ◌∷◌, JsString, String, lit, map, str_eq, ltb, length,
  if◌then◌else◌, Result, ok, err, is_some,
}
use obsidian_baritone.Protocol.{
  ErrorCode, SyncError, bad_request, unauthenticated, upgrade_required, forbidden, Details,
}
use obsidian_baritone.Protocol.ClientMessage.{HelloMessage}
use obsidian_baritone.Protocol.ServerMessage.{ServerMessage}
use obsidian_baritone.Engine.Store.{list_ops, current_seq}
use obsidian_baritone.Engine.Rooms.{RoomSink}
use obsidian_baritone.Roles.{verify_device, DeviceClaims}
use obsidian_baritone.Roles.Tokens.{AccessClaims}
use obsidian_baritone.Ws.{
  Session, ConnectionState, Services, Action, ◌>>=◌, ◌>>◌, reads, lift, when, send,
}

-- `MIN_CLIENT_PROTOCOL`
abbrev pub oldest_client : ℕ
oldest_client = 1

abbrev capabilities : List JsString
capabilities =
    lit "layer1"
    ∷ lit "blob-presign"
    ∷ lit "manifest-v1"
    ∷ lit "conflict-v1"
    ∷ lit "yjs-lease-v1"
    ∷ lit "yjs-realtime"
    ∷ lit "snapshot-history-v1"
    ∷ []

abbrev refuse {ℓ} : {A : Type ℓ} → ErrorCode → String → Result SyncError A
refuse code message = err (record { code = code; message = message; details = none })

abbrev pub device_claims : AccessClaims → DeviceClaims
device_claims claims = record {
  user_id = claims.user_id;
  vault_id = claims.vault_id;
  device_id = claims.device_id;
}

module _ {Doc : Type 0} (services : Services Doc) where
  -- `state.claims = …` on the connection of a socket.
  unfoldable pub set_session : ℕ → Session → Action Doc (Unit {0})
  set_session socket session s = (
    ok tt,
    record s {
      clients =
          map (λ c. if c.socket == socket then record c { session = some session } else c)
            s.clients;
    },
  )

  -- The last tests of `hello`, after that on the device.
  abbrev admit_device :
      HelloMessage → AccessClaims → Result SyncError (Unit {0}) → Result SyncError Session
  admit_device msg claims (err e) = err e
  admit_device msg claims (ok _) =
      if is_some (services.auth.get_member claims.vault_id claims.user_id)
      then ok (record { claims = claims; device_id = msg.device_id; vault_id = msg.vault_id })
      else refuse forbidden "No vault access"

  -- The tests of `hello` on what the token claims.
  unfoldable pub admit_claims : HelloMessage → AccessClaims → Result SyncError Session
  admit_claims msg claims =
      if not (str_eq claims.device_id msg.device_id) || not (str_eq claims.vault_id msg.vault_id)
      then refuse unauthenticated "Token/device/vault mismatch"
      else admit_device msg claims (verify_device services.auth (device_claims claims))

  abbrev admit_token : HelloMessage → Result SyncError AccessClaims → Result SyncError Session
  admit_token msg (err e) = err e
  admit_token msg (ok claims) = admit_claims msg claims

  unfoldable pub admit : ConnectionState → HelloMessage → Result SyncError Session
  admit connection msg =
      if is_some connection.session
      then refuse bad_request "hello already received"
      else if ltb msg.protocol_version oldest_client
      then err (record {
        code = upgrade_required;
        message = "Client protocol is too old";
        details = some (Details.min_client_protocol oldest_client);
      })
      else admit_token msg (services.verify_access msg.token)

  -- What `hello` sends.
  unfoldable pub greet : RoomSink → HelloMessage → Action Doc (Unit {0})
  greet sink msg = do
    seq ← reads λ s. current_seq s msg.vault_id
    send sink (
        ServerMessage.welcome (record {
          server_time = services.env.now;
          current_seq = seq;
          server_protocol = 1;
          min_client_protocol = oldest_client;
          capabilities = capabilities;
        }))
    ops ← reads λ s. list_ops s msg.vault_id msg.last_seq 1000
    when (ltb 0 (length ops))
        (send sink (ServerMessage.ops (record { ops = ops; more = length ops == 1000 })))

  unfoldable pub hello : ConnectionState → HelloMessage → Action Doc (Unit {0})
  hello connection msg = do
    session ← lift (admit connection msg)
    set_session connection.socket session
    greet (record { connection = connection.socket; device_id = msg.device_id }) msg
