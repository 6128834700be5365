-- ===== src/Plugin/SyncLog.antt =====
-- apps/plugin/src/logs/log-store.ts: `SyncLogStore`. Its listeners, which only call back, are not
-- modelled; `now` is the time of a call.
pub mod Newest
pub mod Bounds
pub mod Tests
use obsidian_baritone.Prelude.{
  ℕ, ◌+◌, ◌-◌, Bool, true, false, Option, List, [], ◌∷◌, ◌++◌, JsString, if◌then◌else◌, ltb, length,
  drop, ◌otherwise◌,
}

pub data SyncLogLevel : Type 0 where
  info : SyncLogLevel
  warn : SyncLogLevel
  error : SyncLogLevel
  debug : SyncLogLevel

pub record SyncLogEntry : Type 0 where
  pub id : ℕ
  pub ts : ℕ
  pub level : SyncLogLevel
  pub source : JsString
  pub message : JsString

pub record SyncLogEntryInput : Type 0 where
  pub ts : Option ℕ
  pub level : SyncLogLevel
  pub source : JsString
  pub message : JsString

pub record SyncLogStore : Type 0 where
  pub logged : List SyncLogEntry
  pub next_id : ℕ
  pub limit : ℕ

unfoldable pub new_log : ℕ → SyncLogStore
new_log limit = record { logged = []; next_id = 1; limit = limit }

-- `entries.splice(0, entries.length - limit)` when there are too many.
unfoldable pub trimmed : ℕ → List SyncLogEntry → List SyncLogEntry
trimmed limit logged =
    if ltb limit (length logged) then drop (length logged - limit) logged else logged

unfoldable pub append : ℕ → SyncLogEntryInput → SyncLogStore → SyncLogEntry × SyncLogStore
append now input store =
    let entry : SyncLogEntry = record {
      id = store.next_id;
      ts = input.ts otherwise now;
      level = input.level;
      source = input.source;
      message = input.message;
    } in
    (
      entry,
      record store {
        logged = trimmed store.limit (store.logged ++ (entry ∷ []));
        next_id = store.next_id + 1;
      },
    )

unfoldable pub clear : SyncLogStore → SyncLogStore
clear store = record store { logged = [] }
