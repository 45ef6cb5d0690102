-- ===== src/Compose/App.antt =====
-- compose/app.ts: the planner of one app. The parts are in the modules below.
pub mod Types
pub mod Components
pub mod Services
pub mod ServiceSteps
pub mod Plan
