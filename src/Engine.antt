-- ===== src/Engine.antt =====
-- packages/server/src/engine: the store, the processing of file operations, and conflicts.
pub mod Store
pub mod OpProcessor
pub mod Conflict
pub mod Blobs
pub mod Trash
pub mod Rooms
pub mod Gc
pub mod Manifest
