-- ===== src/Lib.antt =====
-- Obsidian sync: the core of the server and of the plugin.
--
-- The server (packages/server) keeps for every vault a log of file operations with consecutive
-- numbers, the files that result, and the conflicts between concurrent edits. A plugin on each
-- device (apps/plugin) queues its operations in an outbox, sends them one after the other, and
-- catches up from the log. Both share clocks, paths, hashes and records (packages/shared).
--
-- Which file models what:
--   Clock/VersionVector  packages/shared/src/clock/version-vector.ts
--   Clock/Lamport        packages/shared/src/clock/lamport.ts
--   Unicode, Hash        packages/shared/src/hash/content-hash.ts, and the text functions used
--   Path, Path/Parts     packages/shared/src/path/normalize.ts
--   Protocol             packages/shared/src/protocol/types.ts, errors/codes.ts (messages in
--                        Protocol/ClientMessage and Protocol/ServerMessage)
--   Engine/Store         packages/server/src/engine/store.ts (records, reads; writes in Store/Tx)
--   Engine/OpProcessor   packages/server/src/engine/op-processor.ts (process; in Payload the
--                        validation, in Apply the effect of each kind of operation on its file)
--   Engine/Conflict      packages/server/src/engine/conflict.ts (claim, release; resolve in
--                        Conflict/Resolve)
--   Engine/Blobs         packages/server/src/blob/store.ts (states of blobs)
--   Engine/Trash         packages/server/src/engine/trash.ts
--   Engine/Rooms         packages/server/src/engine/room-manager.ts (records and actions; helpers in
--                        Rooms/Helpers and Rooms/Actions, the locked sections in
--                        Rooms/Handlers, Rooms/Demotion and Rooms/Lifecycle, loading in
--                        Rooms/Loading, the public methods in Rooms/Manager)
--   Engine/Rooms/RoomStore  packages/server/src/engine/yjs.ts (the store in memory)
--   Engine/Gc            packages/server/src/engine/yjs-gc.ts (a run over the store in memory)
--   Engine/Manifest      packages/server/src/engine/manifest.ts, and listManifest of engine/store.ts
--   Roles                packages/server/src/auth/service.ts (roles and devices)
--   Roles/Tokens         packages/server/src/auth/tokens.ts, auth/pg-repository.ts and
--                        auth/service.ts (refresh tokens)
--   Ws                   packages/server/src/ws/server.ts (state and sends; hello in Ws/Hello, operations
--                        and contents in Ws/Content, all other messages in Ws/Dispatch), which calls
--                        the services of Engine
--   RateLimit            packages/server/src/ws/rate-limit.ts
--   Plugin/Outbox        apps/plugin/src/sync/outbox.ts
--   Plugin/Rebase        apps/plugin/src/sync/rebase.ts
--   Plugin/ForceSync     apps/plugin/src/sync/force-sync.ts
--   Plugin/LocalIndex    apps/plugin/src/localindex/index.ts
--   Plugin/SyncLog       apps/plugin/src/logs/log-store.ts
--   Plugin/Reconciliation  apps/plugin/src/watcher/reconciliation.ts
--   Plugin/Ignore        apps/plugin/src/ignore/ignore.ts
--   Plugin/Engine        apps/plugin/src/sync/engine.ts (content in Engine/Content, applyOp in
--                        Engine/ApplyOp, the outbox and the transport in Engine/Queue, the
--                        messages in Engine/Messages, forced operations in Engine/Forced),
--                        pathing.ts (isTextPath)
--   Plugin/InitialSync   apps/plugin/src/sync/initial-sync.ts (fetchManifest, with the server's answers
--                        from Engine/Manifest)
--   Prelude              tests on numbers, lists, JavaScript strings and Maps, optional values
--
-- How the code is read. Functions keep their names in snake_case. A string is the list of its
-- UTF-16 code units; counters, sequence numbers, sizes and times in milliseconds are natural
-- numbers, as the validation of messages demands. A Map is the list of its entries in insertion
-- order. A field that may be undefined or null is an Option with one empty value for both. A call on
-- the store is a function from the store to a result and a store, where the result is a value or
-- what was thrown; what was written before an exception stays written, as in the in-memory store.
-- A call takes one time and one random id. An asynchronous method runs as one action: the races
-- that the compare-and-set of conflicts guards against are stated as two writes that carry the
-- same earlier read.
--
-- A room is a value that a locked section takes and leaves; the lock makes the section one action.
-- The sinks of a room take what they are given. A timer is the time at which it runs out, and its
-- callback is a call of its own.
--
-- Parameters. Unicode normalisation, lower case and SHA-256 belong to the JavaScript engine and are
-- the fields of a record; what a theorem needs of them is among its hypotheses. What the object
-- storage reports of an object is a record too, and so is what the rooms use of Yjs, with a type for
-- the documents, and what stands around the plugin's engine: the vault, the answers of the server to
-- requests for content, uploads, the cipher, live editing and the rules of config sync. The hash of a
-- refresh token and the signature of an access token are functions; the server and the database read
-- one clock. The text of a manifest cursor is an encoding and a decoding.
--
-- Bounds. All loops are structural recursion, but for three. The decimal digits of n take suc n
-- rounds, which is enough, as a number has no more digits than its value plus one. The search for a
-- free path makes 9998 rounds and then throws, which is the bound in the source. Fetching a manifest
-- takes rounds from its caller; more rounds than the store has files are enough.
--
-- Not modelled: the upgrade of sockets, HTTP, the schemas of messages, access tokens and
-- passwords, SQL but for the statements on refresh tokens, the bytes in object storage, encryption,
-- live editing and the user interface of the plugin, and JSON texts.
pub mod Prelude
pub mod Clock
pub mod Unicode
pub mod Hash
pub mod Path
pub mod Protocol
pub mod Engine
pub mod RateLimit
pub mod Roles
pub mod Ws
pub mod Plugin
