-- ===== src/MapRef.antt =====
-- The entry API of src/mapref/entry.rs. The write guard that an entry holds is the shard that its
-- operations take, and the `RefMut` they return is a bucket.
pub mod Occupied
pub mod Vacant
pub mod Api
pub mod Enter
pub mod Fill
pub mod Replace
pub mod Guard
pub mod Multi
