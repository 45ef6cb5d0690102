-- ===== src/Compose/ApplicationManager.antt =====
-- compose/application-manager.ts: the steps for all the apps of the device.
pub mod Types
pub mod ImageSteps
pub mod Downloads
pub mod Infer
