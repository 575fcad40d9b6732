-- ===== src/Lgp.antt =====
-- The display server, src/lgp-compositor: its wire protocol, its surfaces and its scene.
pub mod Session
pub mod Wire
pub mod Client
pub mod Messages
pub mod Hello
pub mod Surface
pub mod Scene
pub mod Mouse
pub mod Input
mod Tests
