-- ===== src/Tests.antt =====
-- Runs at concrete inputs, on a concrete raw table.
mod Slots
mod Shards
mod Samples
mod Witnesses
mod Entries
mod Locks
mod Caches
mod Guards
mod Documents
mod Histories
mod Resizes
