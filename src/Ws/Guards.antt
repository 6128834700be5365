-- ===== src/Ws/Guards.antt =====
-- packages/server/src/ws/server.ts: messages that are refused after the `hello`.
use mathlib.Core.List.{Memᴰ}
use mathlib.Core.Path.{subst}
use obsidian_baritone.Prelude.{
  ◌≡◌, ◌≢◌, refl, ap, ◌∙◌, Bool, true, false, ◌&&◌, none, some, [], ◌∷◌, ◌++◌, String, JsString,
  str_eq, str_eq_iff, any, arith, Bool-cases, inl, inr, nonempty, str_ne,
}
use obsidian_baritone.Protocol.{FileOp, ErrorCode, unauthenticated, forbidden}
use obsidian_baritone.Protocol.ClientMessage.{
  ClientMessage, FileOpMessage, GetContentMessage, RestoreMessage,
}
use obsidian_baritone.Engine.Store.{has_content_for_vault}
use obsidian_baritone.Engine.Rooms.{RoomSink, RoomThrown, thrown}
use obsidian_baritone.Engine.Store.Tx.{sync_error}
use obsidian_baritone.Ws.{
  Session, SyncWebSocketServer, Services, blob_owner_key, ◌>>=◌, throw, reads, fail_if,
}
use obsidian_baritone.Ws.Content.{
  named_content, owns_content, assert_op_content_access, file_op, get_content,
}
use obsidian_baritone.Ws.Dispatch.{dispatch_store, dispatch}
use obsidian_baritone.Ws.Access.{Refuses}
use obsidian_baritone.Ws.Held.{IsHeld, any_found, not_held}

-- The operation is the connection's own.
abbrev is_own : Session → FileOp → Bool
is_own session op = str_eq op.device_id session.device_id && str_eq op.vault_id session.vault_id

abbrev refusal : ErrorCode → String → RoomThrown
refusal code message =
    thrown (sync_error (record { code = code; message = message; details = none }))

abbrev foreign : RoomThrown
foreign = refusal unauthenticated "Operation device/vault must match the authenticated connection"

present : (hash : JsString) → hash ≢ [] → nonempty hash ≡ true
present [] h = absurd (h refl)
present (u ∷ hash) h = refl

module _ {Doc : Type 0} where
  -- What a connection with the session must not send.
  pub data IsForbidden (session : Session) (s : SyncWebSocketServer Doc)
      : ClientMessage → Type 0 where
    other_device :
        (m : FileOpMessage)
        → m.op.device_id ≢ session.device_id
        → IsForbidden session s (ClientMessage.file_op m)
    other_vault :
        (m : FileOpMessage)
        → m.op.vault_id ≢ session.vault_id
        → IsForbidden session s (ClientMessage.file_op m)
    unknown_content :
        (m : FileOpMessage) (hash : JsString)
        → m.op.inline_text ≡ none
        → m.op.content_hash ≡ some hash
        → hash ≢ []
        → m.op.blob_ref ≡ none
        → ¬ IsHeld session.vault_id hash s.manager.data_store
        → ¬ Memᴰ (session.vault_id ++ (b':' ∷ hash)) s.pending_blob_owners
        → IsForbidden session s (ClientMessage.file_op m)
    unknown_blob :
        (m : FileOpMessage) (hash blob : JsString)
        → m.op.inline_text ≡ none
        → m.op.content_hash ≡ some hash
        → hash ≢ []
        → m.op.blob_ref ≡ some blob
        → ¬ IsHeld session.vault_id blob s.manager.data_store
        → ¬ Memᴰ (session.vault_id ++ (b':' ∷ blob)) s.pending_blob_owners
        → IsForbidden session s (ClientMessage.file_op m)
    foreign_content :
        (m : GetContentMessage)
        → ¬ IsHeld session.vault_id m.hash s.manager.data_store
        → IsForbidden session s (ClientMessage.get_content m)
    restores : (m : RestoreMessage) → IsForbidden session s (ClientMessage.restore_message m)

  not_owned :
      (vault_id hash : JsString) (s : SyncWebSocketServer Doc)
      → ¬ IsHeld vault_id hash s.manager.data_store
      → ¬ Memᴰ (vault_id ++ (b':' ∷ hash)) s.pending_blob_owners
      → owns_content vault_id (some hash) s ≡ false
  unfolding blob_owner_key
  not_owned vault_id hash s absent unsent =
      elim (Bool-cases
        (any (λ key. str_eq key (blob_owner_key vault_id hash)) s.pending_blob_owners)) [
          | inl h ↦
              let (key, (m, e)) =
                any_found (λ k. str_eq k (blob_owner_key vault_id hash)) s.pending_blob_owners h in
              absurd (
                unsent (
                  subst (λ k. Memᴰ k s.pending_blob_owners)
                    ((str_eq_iff key (vault_id ++ (b':' ∷ hash))).0 e) m))
          | inr e ↦ rw (not_held vault_id hash s.manager.data_store absent, e) refl
        ]

module _ {Doc : Type 0} (services : Services Doc) (sink : RoomSink) (session : Session) where
  file_op-Refuses :
      (op : FileOp) (s : SyncWebSocketServer Doc)
      → (is_own session op && owns_content session.vault_id (named_content op) s) ≡ false
      → Refuses services (file_op services sink session op) s
  unfolding file_op assert_op_content_access fail_if throw ◌>>=◌
  file_op-Refuses op s h = elim (Bool-cases (str_eq op.device_id session.device_id)) [
    | inr d ↦ (foreign, rw d refl)
    | inl d ↦ elim (Bool-cases (str_eq op.vault_id session.vault_id)) [
      | inr v ↦ (foreign, rw (d, v) refl)
      | inl v ↦
          let missing : owns_content session.vault_id (named_content op) s ≡ false =
            rw (d, v) at h in
          (
            refusal forbidden "Content hash is not available for this vault",
            rw (d, v, missing) refl,
          )
    ]
  ]

  get_content-Refuses :
      (hash : JsString) (s : SyncWebSocketServer Doc)
      → has_content_for_vault s.manager.data_store session.vault_id hash ≡ false
      → Refuses services (get_content services sink session hash) s
  unfolding get_content reads fail_if throw ◌>>=◌
  get_content-Refuses hash s h =
      (refusal forbidden "Content is not available for this vault", rw h refl)

  wrong_content :
      (op : FileOp) (s : SyncWebSocketServer Doc) (hash : JsString)
      → named_content op ≡ some hash
      → ¬ IsHeld session.vault_id hash s.manager.data_store
      → ¬ Memᴰ (session.vault_id ++ (b':' ∷ hash)) s.pending_blob_owners
      → Refuses services (file_op services sink session op) s
  wrong_content op s hash named absent unsent = file_op-Refuses op s (
      last_false (is_own session op) _ (
        ap (λ n. owns_content session.vault_id n s) named
        ∙ not_owned session.vault_id hash s absent unsent))
    where
      last_false : (a b : Bool) → b ≡ false → a && b ≡ false
      last_false a b h = ground arith

  -- After the hello these each throw and leave the whole server as it is: an operation of another
  -- device or for another vault; an operation without inline text whose content hash is given and
  -- not empty, when the vault does not have what its blob reference names, or its content hash if it
  -- has no blob reference, and no client of the vault has begun to upload that; a request for stored
  -- content that the vault does not have; and a restore message.
  pub dispatch-Refuses :
      (m : ClientMessage) (s : SyncWebSocketServer Doc)
      → IsForbidden session s m
      → Refuses services (dispatch services sink session m) s
  unfolding dispatch dispatch_store throw
  dispatch-Refuses _ s (other_device m e) =
      file_op-Refuses m.op s (rw (str_ne m.op.device_id session.device_id e) refl)
  dispatch-Refuses _ s (other_vault m e) = file_op-Refuses m.op s (
      middle_false (str_eq m.op.device_id session.device_id) _ _
        (str_ne m.op.vault_id session.vault_id e))
    where
      middle_false : (a b c : Bool) → b ≡ false → (a && b) && c ≡ false
      middle_false a b c h = ground arith
  dispatch-Refuses _ s (unknown_content m hash text content filled ref absent unsent) =
      wrong_content m.op s hash (rw (text, content, present hash filled, ref) refl) absent unsent
  dispatch-Refuses _ s (unknown_blob m hash blob text content filled ref absent unsent) =
      wrong_content m.op s blob (rw (text, content, present hash filled, ref) refl) absent unsent
  dispatch-Refuses _ s (foreign_content m absent) =
      get_content-Refuses m.hash s (not_held session.vault_id m.hash s.manager.data_store absent)
  dispatch-Refuses _ s (restores m) = (_, refl)
