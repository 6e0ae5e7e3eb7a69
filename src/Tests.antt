-- ===== src/Tests.antt =====
-- Runs of the model on concrete inputs, and the theorems at inputs that meet their hypotheses.
pub mod Hubs
pub mod Stores
pub mod Wire
pub mod Docs
pub mod Pages
pub mod Contracts
pub mod Streams
pub mod Peers
pub mod Workers
pub mod Boards
pub mod Logins
pub mod Starts
pub mod Suggestions
pub mod Watches
