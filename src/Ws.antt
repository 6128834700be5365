-- ===== src/Ws.antt =====
-- packages/server/src/ws/server.ts: the state of `SyncWebSocketServer` and what its handlers do with
-- it. A socket is a number. What a socket is given goes into the same list as what the rooms send.
use obsidian_baritone.Prelude.{
  ℕ, ◌==◌, Bool, true, false, not, ◌&&◌, ◌||◌, Option, none, some, List, [], ◌∷◌, ◌++◌, JsString,
  String, lit, map, str_eq, filter, any, if◌then◌else◌, Result, ok, err,
}
use obsidian_baritone.Protocol.{
  AppliedOp, ErrorCode, SyncError, internal, rate_limited, retry_after_ms,
}
use obsidian_baritone.Protocol.ServerMessage.{ServerMessage}
use obsidian_baritone.Engine.Store.{InMemoryDataStore, key_of}
use obsidian_baritone.Engine.Store.Tx.{Tx, Thrown, sync_error}
use obsidian_baritone.Engine.Blobs.{ObjectStorage}
use obsidian_baritone.Engine.Manifest.{ManifestCursor}
use obsidian_baritone.Engine.Rooms.{Env, RoomSink, RoomThrown, thrown}
use obsidian_baritone.Engine.Rooms.Method.{RoomManager, Method, on_data}
use obsidian_baritone.RateLimit.{FixedWindowRateLimiter, consume}
use obsidian_baritone.Roles.{AuthRepository}
use obsidian_baritone.Roles.Tokens.{AccessClaims}
pub mod Hello
pub mod Content
pub mod Dispatch
pub mod Access
pub mod Held
pub mod Guards
pub mod Tests

-- The fields of a connection that `hello` sets, which it sets together.
pub record Session : Type 0 where
  pub claims : AccessClaims
  pub device_id : JsString
  pub vault_id : JsString

pub record ConnectionState : Type 0 where
  pub socket : ℕ
  pub session : Option Session
  pub message_limiter : FixedWindowRateLimiter

-- The services keep their state in `manager`: the store of the vaults and the rooms.
pub record SyncWebSocketServer (Doc : Type 0) : Type 0 where
  pub manager : RoomManager Doc
  pub clients : List ConnectionState
  pub pending_blob_owners : List JsString

-- What the handlers are given. `parse` is `JSON.parse` and the schema; `verify_access` is
-- `verifyAccess`; `get_bytes` is `getBytes`; `encode` and `decode` are for the cursors of a manifest.
pub record Services (Doc : Type 0) : Type 0 where
  pub env : Env Doc
  pub storage : ObjectStorage
  pub auth : AuthRepository
  pub verify_access : JsString → Result SyncError AccessClaims
  pub get_bytes : JsString → Option (List ℕ)
  pub encode : ManifestCursor → JsString
  pub decode : JsString → Option ManifestCursor

abbrev pub Action {ℓ} : Type 0 → Type ℓ → Type ℓ
Action Doc A = SyncWebSocketServer Doc → Result RoomThrown A × SyncWebSocketServer Doc

module _ {ℓ κ} {Doc : Type 0} {A : Type ℓ} {B : Type κ} where
  abbrev pub continue : Result RoomThrown A → (A → Action Doc B) → Action Doc B
  continue (ok a) f s = f a s
  continue (err e) f s = (err e, s)

  infixl 5 ◌>>=◌
  unfoldable pub ◌>>=◌ : Action Doc A → (A → Action Doc B) → Action Doc B
  ◌>>=◌ m f s = let (r, s') = m s in continue r f s'

module _ {ℓ} {Doc : Type 0} {A : Type ℓ} where
  unfoldable pub throw : RoomThrown → Action Doc A
  throw e s = (err e, s)

  unfoldable pub in_manager : Method Doc A → Action Doc A
  in_manager m s = let (r, manager) = m s.manager in (r, record s { manager = manager })

  unfoldable pub reads : (InMemoryDataStore → A) → Action Doc A
  reads f s = (ok (f s.manager.data_store), s)

  unfoldable pub lift : Result SyncError A → Action Doc A
  lift (ok a) s = (ok a, s)
  lift (err e) s = (err (thrown (sync_error e)), s)

infixl 5 ◌>>◌
abbrev pub ◌>>◌ {ℓ} :
    {Doc : Type 0} {A : Type ℓ} → Action Doc (Unit {0}) → Action Doc A → Action Doc A
m >> n = m >>= λ _. n

abbrev pub fail : {Doc : Type 0} → ErrorCode → String → Action Doc (Unit {0})
fail code message =
    throw (thrown (sync_error (record { code = code; message = message; details = none })))

-- `if (test) throw new SyncError(…)`
unfoldable pub fail_if : {Doc : Type 0} → Bool → ErrorCode → String → Action Doc (Unit {0})
fail_if test code message s = if test then fail code message s else (ok tt, s)

unfoldable pub when : {Doc : Type 0} → Bool → Action Doc (Unit {0}) → Action Doc (Unit {0})
when test m s = if test then m s else (ok tt, s)

abbrev pub device_of : Option Session → JsString
device_of none = []
device_of (some session) = session.device_id

abbrev pub sink_of : ConnectionState → RoomSink
sink_of c = record { connection = c.socket; device_id = device_of c.session }

unfoldable pub send : {Doc : Type 0} → RoomSink → ServerMessage → Action Doc (Unit {0})
send sink message s = (
  ok tt,
  record s { manager = record s.manager { sent = s.manager.sent ++ ((sink, message) ∷ []) } },
)

abbrev pub is_in_vault : JsString → ConnectionState → Bool
is_in_vault vault_id c = elim c.session [
  | none ↦ false
  | some session ↦ str_eq session.vault_id vault_id
]

-- `broadcastOps`
unfoldable pub broadcast_ops :
    {Doc : Type 0} → JsString → Option ℕ → List AppliedOp → Action Doc (Unit {0})
broadcast_ops vault_id source ops s =
    let others = filter (λ c. not (is_source source c) && is_in_vault vault_id c) s.clients in
    (
      ok tt,
      record s {
        manager = record s.manager {
          sent =
              s.manager.sent
              ++ map (λ c. (sink_of c, ServerMessage.ops (record { ops = ops; more = false })))
                  others;
        };
      },
    )
  where
    is_source : Option ℕ → ConnectionState → Bool
    is_source none c = false
    is_source (some socket) c = c.socket == socket

unfoldable pub blob_owner_key : JsString → JsString → JsString
blob_owner_key vault_id hash = key_of vault_id hash
