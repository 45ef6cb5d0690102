-- ===== src/DeviceConfig/Store/Convergence.antt =====
-- device-config.ts and config/index.ts: the configuration settles once its changes are stored.
use balena_supervisor.DeviceConfig.Store.{Store}
