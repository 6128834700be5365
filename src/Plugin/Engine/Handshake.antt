-- ===== src/Plugin/Engine/Handshake.antt =====
-- apps/plugin/src/sync/engine.ts: no message of the server makes the engine send an operation before the
-- handshake is complete.
use obsidian_baritone.Prelude.{
  ℕ, ◌+◌, ◌≡◌, refl, ◌∙◌, Bool, true, false, not, ◌||◌, Option, none, some, List, [], ◌∷◌, JsString,
  String, if◌then◌else◌, ap, arith, Result, ok, err, truthy, Bool-cases, Result-cases, inl, inr,
  ◌⊎◌, any, str_eq, ltb, leb, ◌==◌, sort,
}
use obsidian_baritone.Protocol.{AppliedOp, ErrorCode, is_resolved}
use obsidian_baritone.Protocol.ServerMessage.{ServerMessage, OpAckMessage}
use obsidian_baritone.Plugin.Outbox.{OutboxEntry}
use obsidian_baritone.Plugin.Engine.{
  Surroundings, SyncEngine, ForcePushOpResult, send, persist_outbox,
}
use obsidian_baritone.Plugin.Engine.Step.{Step, ◌>>=◌, pure, asks, changes}
use obsidian_baritone.Plugin.Engine.Queue.{
  request_resync, promote, send_op, flush_found, flush_outbox, settle, handle_ack, promote_entry,
  is_out_of_order, is_file_active, handle_code, handle_reject, finish_handshake,
}
use obsidian_baritone.Plugin.Engine.Messages.{
  earlier, apply_next, apply_sorted, apply_ops, after_ops, is_live_stale, fail, caught, rejected,
  dispatch, handle_message,
}
use obsidian_baritone.Plugin.Engine.CatchUp.{run_op}
use obsidian_baritone.Plugin.Engine.Progress.{ops_of, send-SameProgress}
use obsidian_baritone.Plugin.Engine.Gate.{apply_op-SameProgress}

module _ {V : Type 0} where
  -- No operation was sent on the way from one engine to the other.
  abbrev pub SendsNoOp : SyncEngine V → SyncEngine V → Type 0
  SendsNoOp e f = ops_of f.sent ≡ ops_of e.sent

  -- The handshake is complete, or no operation was sent.
  abbrev pub IsGated : SyncEngine V → SyncEngine V → Type 0
  IsGated e f = (f.handshake_complete ≡ true) ⊎ SendsNoOp e f

  if-IsGated :
      (b : Bool) (e f g : SyncEngine V) → IsGated e f → IsGated e g → IsGated e (if b then f else g)
  if-IsGated true e f g hf hg = hf
  if-IsGated false e f g hf hg = hg

  request_resync-SendsNoOp : (e : SyncEngine V) → SendsNoOp e (request_resync e)
  unfolding request_resync
  request_resync-SendsNoOp e = (send-SameProgress _ e refl).ops

  flush_found-handshake :
      (now : ℕ) (flying next : Option OutboxEntry) (e : SyncEngine V)
      → (flush_found now flying next e).handshake_complete ≡ e.handshake_complete
  unfolding flush_found send_op send persist_outbox
  flush_found-handshake now (some flying) next e = refl
  flush_found-handshake now none none e = refl
  flush_found-handshake now none (some next) e = refl

  flush_outbox-closed :
      (now : ℕ) (e : SyncEngine V) → e.handshake_complete ≡ false → flush_outbox now e ≡ e
  unfolding flush_outbox
  flush_outbox-closed now e h =
      let shut : (not e.ready || e.is_paused_by_user || not e.handshake_complete) ≡ true =
        ground (arith, h) in
      rw shut refl

  if-handshake :
      (b : Bool) (e f g : SyncEngine V)
      → f.handshake_complete ≡ e.handshake_complete
      → g.handshake_complete ≡ e.handshake_complete
      → (if b then f else g).handshake_complete ≡ e.handshake_complete
  if-handshake true e f g hf hg = hf
  if-handshake false e f g hf hg = hg

  flush_outbox-handshake :
      (now : ℕ) (e : SyncEngine V) → (flush_outbox now e).handshake_complete ≡ e.handshake_complete
  unfolding flush_outbox
  flush_outbox-handshake now e =
      if-handshake (not e.ready || e.is_paused_by_user || not e.handshake_complete) e e _ refl
        (flush_found-handshake now _ _ e)

  flush_outbox-IsGated :
      (now : ℕ) (e f : SyncEngine V) → SendsNoOp e f → IsGated e (flush_outbox now f)
  flush_outbox-IsGated now e f h = elim (Bool-cases f.handshake_complete) [
    | inl t ↦ inl (flush_outbox-handshake now f ∙ t)
    | inr t ↦ inr (ap (λ g. ops_of g.sent) (flush_outbox-closed now f t) ∙ h)
  ]

  finish_handshake-IsGated : (now : ℕ) (e f : SyncEngine V) → IsGated e (finish_handshake now f)
  unfolding finish_handshake
  finish_handshake-IsGated now e f = inl (flush_outbox-handshake now _)

  if-SendsNoOp :
      (b : Bool) (e f g : SyncEngine V)
      → SendsNoOp e f
      → SendsNoOp e g
      → SendsNoOp e (if b then f else g)
  if-SendsNoOp true e f g hf hg = hf
  if-SendsNoOp false e f g hf hg = hg

  settle-SendsNoOp :
      (op_id : JsString) (result : ForcePushOpResult) (e : SyncEngine V)
      → SendsNoOp e (settle op_id result e)
  unfolding settle
  settle-SendsNoOp op_id result e =
      if-SendsNoOp (any (λ id. str_eq id op_id) e.waiters) e _ e refl refl

  handle_ack-IsGated :
      (now : ℕ) (m : OpAckMessage) (e : SyncEngine V) → IsGated e (handle_ack now m e)
  unfolding handle_ack persist_outbox
  handle_ack-IsGated now m e = flush_outbox-IsGated now e _ (settle-SendsNoOp _ _ _)

  promote-SendsNoOp : (file_id : JsString) (e : SyncEngine V) → SendsNoOp e (promote file_id e)
  unfolding promote
  promote-SendsNoOp file_id e =
      if-SendsNoOp e.settings.encrypts e _ _ refl (send-SameProgress _ e refl).ops

  promote_entry-SendsNoOp :
      (entry : Option OutboxEntry) (e : SyncEngine V) → SendsNoOp e (promote_entry entry e)
  promote_entry-SendsNoOp none e = refl
  promote_entry-SendsNoOp (some entry) e = promote-SendsNoOp entry.op.file_id e

  handle_code-SendsNoOp :
      (now : ℕ) (op_id message : JsString) (code : ErrorCode) (e : SyncEngine V)
      → SendsNoOp e (handle_code now op_id message code e)
  unfolding handle_code
  handle_code-SendsNoOp now op_id message code e =
      if-SendsNoOp (is_out_of_order code) e _ _ (request_resync-SendsNoOp _)
        (if-SendsNoOp (is_file_active code) e _ _ (promote_entry-SendsNoOp _ e) refl)

  handle_reject-IsGated :
      (now : ℕ) (op_id : JsString) (code : ErrorCode) (text coded_text : JsString)
      (e : SyncEngine V)
      → IsGated e (handle_reject now op_id code text coded_text e)
  unfolding handle_reject persist_outbox
  handle_reject-IsGated now op_id code text coded_text e =
      if-IsGated (any (λ id. str_eq id op_id) e.waiters) e _ _ (inr (settle-SendsNoOp _ _ e))
        (flush_outbox-IsGated now e _ (handle_code-SendsNoOp now op_id text code e))

module _ {V : Type 0} (around : Surroundings V) where
  apply_next-SendsNoOp :
      (item : AppliedOp) (e : SyncEngine V) → SendsNoOp e (apply_next around item e).1
  unfolding apply_next ◌>>=◌
  apply_next-SendsNoOp item e = elim (Result-cases (run_op around item e).0) [
    | inl (_, x) ↦ rw x (apply_op-SameProgress around item.op _ _ e).ops
    | inr (message, x) ↦ rw x (apply_op-SameProgress around item.op _ _ e).ops
  ]

  bind-SendsNoOp :
      {A B : Type 0} (m : Step V A) (f : A → Step V B) (e : SyncEngine V)
      → SendsNoOp e (m e).1
      → ((a : A) → SendsNoOp (m e).1 (f a (m e).1).1)
      → SendsNoOp e ((m >>= f) e).1
  unfolding ◌>>=◌
  bind-SendsNoOp m f e h k = elim (Result-cases (m e).0) [
    | inl (a, x) ↦ rw x (k a ∙ h)
    | inr (message, x) ↦ rw x h
  ]

  if_result-SendsNoOp :
      {A : Type 0} (b : Bool) (e : SyncEngine V) (x y : Result JsString A × SyncEngine V)
      → SendsNoOp e x.1
      → SendsNoOp e y.1
      → SendsNoOp e (if b then x else y).1
  if_result-SendsNoOp true e x y hx hy = hx
  if_result-SendsNoOp false e x y hx hy = hy

  apply_sorted-SendsNoOp :
      (items : List AppliedOp) (e : SyncEngine V) → SendsNoOp e (apply_sorted around items e).1
  unfolding apply_sorted
  apply_sorted-SendsNoOp [] e = refl
  apply_sorted-SendsNoOp (item ∷ items) e =
      if_result-SendsNoOp (leb item.vault_seq e.index.device.applied_seq) e _ _
        (apply_sorted-SendsNoOp items e)
        (if_result-SendsNoOp (not (item.vault_seq == e.index.device.applied_seq + 1)) e _ _
          (request_resync-SendsNoOp e)
          (bind-SendsNoOp (apply_next around item) (λ _. apply_sorted around items) e
            (apply_next-SendsNoOp item e)
            λ _. apply_sorted-SendsNoOp items (apply_next around item e).1))

  after_ops-IsGated :
      (is_applied more : Bool) (e f : SyncEngine V)
      → SendsNoOp e f
      → IsGated e (after_ops around is_applied more f)
  unfolding after_ops
  after_ops-IsGated is_applied more e f h = if-IsGated (not is_applied) e f _ (inr h) (
      if-IsGated more e _ _ (inr (request_resync-SendsNoOp f ∙ h))
        (if-IsGated f.awaiting_catchup e _ f (finish_handshake-IsGated around.now e f) (inr h)))

  caught-IsGated :
      (e : SyncEngine V) (r : Result JsString (Unit {0}) × SyncEngine V)
      → IsGated e r.1
      → IsGated e (caught around r)
  unfolding fail
  caught-IsGated e (ok x, f) g = g
  caught-IsGated e (err message, f) g = g

  ops-IsGated :
      (items : List AppliedOp) (more : Bool) (e : SyncEngine V)
      → IsGated e ((apply_ops around items >>= λ b. changes (after_ops around b more)) e).1
  unfolding ◌>>=◌ apply_ops
  ops-IsGated items more e = elim (Result-cases (apply_sorted around (sort earlier items) e).0) [
    | inl (b, x) ↦
        rw x (after_ops-IsGated b more e _ (apply_sorted-SendsNoOp (sort earlier items) e))
    | inr (message, x) ↦ rw x (inr (apply_sorted-SendsNoOp (sort earlier items) e))
  ]

  module _ (text_of : String → JsString) (code_text : ErrorCode → JsString)
      (stale_file : ServerMessage → Option JsString) where
    rejected-IsGated :
        (op_id : Option JsString) (code : ErrorCode) (message : String) (e : SyncEngine V)
        → IsGated e (rejected around text_of code_text stale_file op_id code message e)
    unfolding rejected
    rejected-IsGated none code message e = inr refl
    rejected-IsGated (some op_id) code message e =
        if-IsGated (truthy (some op_id)) e _ e
          (handle_reject-IsGated around.now op_id code (text_of message) _ e) (inr refl)

    answer-IsGated :
        (b : Bool) (f : V → Result JsString (Unit {0})) (e : SyncEngine V)
        → IsGated e ((if b then pure tt else asks f) e).1
    unfolding pure asks
    answer-IsGated true f e = inr refl
    answer-IsGated false f e = inr refl

    dispatch-IsGated :
        (message : ServerMessage) (e : SyncEngine V)
        → IsGated e (dispatch around text_of code_text stale_file message e).1
    unfolding dispatch pure asks
    dispatch-IsGated (ServerMessage.welcome m) e =
        if-IsGated (ltb e.index.device.applied_seq m.current_seq) e _ _
          (inr (request_resync-SendsNoOp _)) (finish_handshake-IsGated around.now e e)
    dispatch-IsGated (ServerMessage.ops m) e = ops-IsGated m.ops m.more e
    dispatch-IsGated (ServerMessage.op_ack m) e = handle_ack-IsGated around.now m e
    dispatch-IsGated (ServerMessage.reject_message m) e =
        rejected-IsGated m.op_id m.code m.message e
    dispatch-IsGated (ServerMessage.conflict_message m) e = inr refl
    dispatch-IsGated (ServerMessage.conflict_state m) e =
        if-IsGated (is_resolved m.status) e _ e (inr refl) (inr refl)
    dispatch-IsGated (ServerMessage.error_message m) e =
        answer-IsGated
          (is_live_stale around text_of code_text stale_file (ServerMessage.error_message m) m.code)
          _ e
    dispatch-IsGated (ServerMessage.blob_upload_url m) e = inr refl
    dispatch-IsGated (ServerMessage.room_state m) e = inr refl
    dispatch-IsGated (ServerMessage.yjs_relay_update m) e = inr refl
    dispatch-IsGated (ServerMessage.yjs_ack m) e = inr refl
    dispatch-IsGated (ServerMessage.yjs_awareness_relay m) e = inr refl
    dispatch-IsGated (ServerMessage.room_closed m) e = inr refl
    dispatch-IsGated (ServerMessage.manifest_page m) e = inr refl
    dispatch-IsGated (ServerMessage.content_message m) e = inr refl
    dispatch-IsGated (ServerMessage.trash_list m) e = inr refl
    dispatch-IsGated (ServerMessage.history_list_response m) e = inr refl
    dispatch-IsGated (ServerMessage.history_version m) e = inr refl
    dispatch-IsGated (ServerMessage.history_restored m) e = inr refl

    -- After any message of the server, the handshake is complete, or the operations among the messages
    -- that the engine has sent are the same as before.
    pub handle_message-IsGated :
        (message : ServerMessage) (e : SyncEngine V)
        → IsGated e (handle_message around text_of code_text stale_file message e)
    unfolding handle_message
    handle_message-IsGated message e = if-IsGated (around.takes message) e e _ (inr refl) (
        caught-IsGated e (dispatch around text_of code_text stale_file message e)
          (dispatch-IsGated message e))
