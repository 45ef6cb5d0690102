-- ===== src/Config.antt =====
-- src/config/: the configuration of the host, by the backends that write it.
pub mod Odmdata
