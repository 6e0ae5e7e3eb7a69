-- ===== src/Collab.antt =====
-- internal/collab: the collaboration over documents.
pub mod Presence
pub mod Shapes
pub mod Sync
