-- ===== src/Nats.antt =====
-- internal/nats: the replication of todo mutations between instances.
pub mod Crud
pub mod Realtime
pub mod Connection
pub mod Rooms
