-- ===== src/Ws/Access.antt =====
-- packages/server/src/ws/server.ts: what a connection may do before and after its `hello`.
use mathlib.Core.Path.{subst}
use mathlib.Core.Option.{none-ne-some}
use obsidian_baritone.Prelude.{
  ◌≡◌, refl, sym, ap, ◌∙◌, true, Option, none, some, str_eq, ltb, length, Result, ok, err, is_some,
  Bool-cases, Result-cases, inl, inr, ◌⊎◌,
}
use obsidian_baritone.Protocol.{SyncError}
use obsidian_baritone.Protocol.ClientMessage.{ClientMessage, HelloMessage}
use obsidian_baritone.Engine.Store.{list_ops}
use obsidian_baritone.Engine.Store.Tx.{sync_error}
use obsidian_baritone.Engine.Rooms.{RoomSink, RoomThrown, thrown}
use obsidian_baritone.Roles.{verify_device}
use obsidian_baritone.Roles.Tokens.{AccessClaims}
use obsidian_baritone.Ws.{
  Session, ConnectionState, SyncWebSocketServer, Services, Action, ◌>>=◌, throw, reads, lift, when,
  send,
}
use obsidian_baritone.Ws.Hello.{
  oldest_client, set_session, device_claims, admit_claims, admit, greet, hello,
}
use obsidian_baritone.Ws.Dispatch.{in_session, handle_valid}

module _ {Doc : Type 0} (services : Services Doc) where
  -- What a session rests on.
  pub record IsEntitled (msg : HelloMessage) (session : Session) : Type 0 where
    pub by_token : services.verify_access msg.token ≡ ok session.claims
    pub same_device : str_eq session.claims.device_id session.device_id ≡ true
    pub same_vault : str_eq session.claims.vault_id session.vault_id ≡ true
    pub valid_device : verify_device services.auth (device_claims session.claims) ≡ ok tt
    pub is_member :
        is_some (services.auth.get_member session.claims.vault_id session.claims.user_id) ≡ true

  admit_claims-IsEntitled :
      (msg : HelloMessage) (claims : AccessClaims) (session : Session)
      → services.verify_access msg.token ≡ ok claims
      → admit_claims services msg claims ≡ ok session
      → IsEntitled msg session
  unfolding admit_claims
  admit_claims-IsEntitled msg claims session t e =
      elim (Bool-cases (str_eq claims.device_id msg.device_id)) [
        | inr d ↦ absurd (refused (rw d at e))
        | inl d ↦ elim (Bool-cases (str_eq claims.vault_id msg.vault_id)) [
          | inr v ↦ absurd (refused (rw (d, v) at e))
          | inl v ↦ elim (Result-cases (verify_device services.auth (device_claims claims))) [
            | inr (x, w) ↦ absurd (refused (rw (d, v, w) at e))
            | inl (_, w) ↦
                elim (Bool-cases
                  (is_some (services.auth.get_member claims.vault_id claims.user_id))) [
                    | inr m ↦ absurd (refused (rw (d, v, w, m) at e))
                    | inl m ↦
                        subst (IsEntitled msg) (ok_inj _ refl (rw (d, v, w, m) at e)) (record {
                          by_token = t;
                          same_device = d;
                          same_vault = v;
                          valid_device = w;
                          is_member = m;
                        })
                  ]
          ]
        ]
      ]
    where
      refused : {x : SyncError} → ¬ (err x ≡ ok session)
      refused h = cc

      ok_inj : {a b : Session} (r : Result SyncError Session) → r ≡ ok a → r ≡ ok b → a ≡ b
      ok_inj r g h = cc

  admit-IsEntitled :
      (connection : ConnectionState) (msg : HelloMessage) (session : Session)
      → admit services connection msg ≡ ok session
      → IsEntitled msg session
  unfolding admit
  admit-IsEntitled connection msg session e = elim (Bool-cases (is_some connection.session)) [
    | inl h ↦ absurd (refused (rw h at e))
    | inr h ↦ elim (Bool-cases (ltb msg.protocol_version oldest_client)) [
      | inl p ↦ absurd (refused (rw (h, p) at e))
      | inr p ↦ elim (Result-cases (services.verify_access msg.token)) [
        | inr (x, t) ↦ absurd (refused (rw (h, p, t) at e))
        | inl (claims, t) ↦ admit_claims-IsEntitled msg claims session t (rw (h, p, t) at e)
      ]
    ]
  ]
    where
      refused : {x : SyncError} → ¬ (err x ≡ ok session)
      refused h = cc

  -- The call throws and leaves the server as it is.
  abbrev pub Refuses : Action Doc (Unit {0}) → SyncWebSocketServer Doc → Type 0
  Refuses action s = (e : RoomThrown) × (action s ≡ (err e, s))

  -- The connection of the socket gets a session that the client is entitled to; the vaults stay as
  -- they are.
  pub record Opens (connection : ConnectionState) (m : ClientMessage)
      (s s' : SyncWebSocketServer Doc) : Type 0 where
    pub msg : HelloMessage
    pub session : Session
    pub is_hello : m ≡ ClientMessage.hello msg
    pub entitled : IsEntitled msg session
    pub same_store : s'.manager.data_store ≡ s.manager.data_store
    pub same_clients : s'.clients ≡ (set_session services connection.socket session s).1.clients

  greet-quiet :
      (sink : RoomSink) (msg : HelloMessage) (s : SyncWebSocketServer Doc)
      → ((greet services sink msg s).1.manager.data_store ≡ s.manager.data_store)
        × ((greet services sink msg s).1.clients ≡ s.clients)
  unfolding greet ◌>>=◌ reads send when
  greet-quiet sink msg s =
      elim (Bool-cases
        (ltb 0 (length (list_ops s.manager.data_store msg.vault_id msg.last_seq 1000)))) [
          | inl e ↦ rw e (refl, refl)
          | inr e ↦ rw e (refl, refl)
        ]

  hello-Opens :
      (connection : ConnectionState) (msg : HelloMessage) (s : SyncWebSocketServer Doc)
      → Refuses (hello services connection msg) s
        ⊎ Opens connection (ClientMessage.hello msg) s (hello services connection msg s).1
  unfolding hello set_session ◌>>=◌ lift
  hello-Opens connection msg s = elim (Result-cases (admit services connection msg)) [
    | inr (e, h) ↦ inl (thrown (sync_error e), rw h refl)
    | inl (session, h) ↦
        let opened = (set_session services connection.socket session s).1 in
        let greeting =
          greet services (record { connection = connection.socket; device_id = msg.device_id })
            msg in
        let done : hello services connection msg s ≡ greeting opened = rw h refl in
        let quiet =
          greet-quiet (record { connection = connection.socket; device_id = msg.device_id }) msg
            opened in
        inr (record {
          msg = msg;
          session = session;
          is_hello = refl;
          entitled = admit-IsEntitled connection msg session h;
          same_store = ap (λ r. r.1.manager.data_store) done ∙ quiet.0;
          same_clients = ap (λ r. r.1.clients) done ∙ quiet.1;
        })
  ]

  no_session :
      (connection : ConnectionState) (o : Option Session) (m : ClientMessage)
      (s : SyncWebSocketServer Doc)
      → o ≡ none
      → Refuses (in_session services connection o m) s
  unfolding in_session throw
  no_session connection none m s e = (_, refl)
  no_session connection (some session) m s e = absurd (none-ne-some session (sym e))

  -- Before its hello a connection gets nowhere: a valid message of a connection without a
  -- session either throws and leaves the whole server as it is, or is a hello, after which the
  -- vaults are as they were and the connection has a session. The claims of the session are then
  -- those of the token of the hello and name the device and the vault of the session, the device
  -- is valid for the user and the vault, and the user is a member of the vault.
  pub handle_valid-Opens :
      (connection : ConnectionState) (m : ClientMessage) (s : SyncWebSocketServer Doc)
      → connection.session ≡ none
      → Refuses (handle_valid services connection m) s
        ⊎ Opens connection m s (handle_valid services connection m s).1
  unfolding handle_valid
  handle_valid-Opens connection (ClientMessage.hello msg) s e = hello-Opens connection msg s
  handle_valid-Opens connection _ s e = inl (no_session connection connection.session _ s e)
