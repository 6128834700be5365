-- ===== src/Plugin.antt =====
-- apps/plugin/src: the parts of the plugin that plan and queue what it sends to the server.
pub mod Outbox
pub mod ForceSync
pub mod Rebase
pub mod LocalIndex
pub mod SyncLog
pub mod Reconciliation
pub mod Ignore
pub mod Engine
pub mod InitialSync
