-- ===== src/Store.antt =====
-- features/store: the strategies that keep the todos, and the transport of CRDT updates.
pub mod Entity
pub mod App
pub mod Pb
pub mod Transport
pub mod Loro
pub mod Hook
pub mod Items
pub mod Projection
pub mod Crdt
pub mod Contract
