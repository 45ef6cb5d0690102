-- ===== src/Compose.antt =====
-- src/compose/: the containers, volumes, networks and images of the apps on the device.
mod Tests
pub mod Labels
pub mod ServiceTypes
pub mod Service
pub mod Utils
pub mod Engine
pub mod Volume
pub mod Network
pub mod Images
pub mod Steps
pub mod Strategies
pub mod Ports
pub mod App
pub mod ApplicationManager
