-- ===== src/Config.antt =====
-- features/config: the page that shows the configuration with its secrets masked.
pub mod Mask
pub mod Page
pub mod Load
pub mod Handler
pub mod Hiding
