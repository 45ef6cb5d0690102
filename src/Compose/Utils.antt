-- ===== src/Compose/Utils.antt =====
-- compose/utils.ts: the conversions between the composition of a service, its configuration and
-- the options of the container engine.
pub mod Networks
pub mod Arrays
pub mod Mounts
pub mod Values
pub mod NormalLabels
