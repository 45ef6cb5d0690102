-- ===== src/Lib.antt =====
-- A model of the supervisor: above all of its planner, which computes the steps that take the apps of
-- a device from what runs to what the target state asks for, and of the comparison of containers
-- with services that the planner rests on.
--
-- The supervisor compares the containers, networks, volumes and images that it finds on the device
-- with the target state, computes the steps that may be taken now, executes them and compares again.
-- A service becomes a container by toDockerContainer, and what the engine reports of a container
-- becomes a service again by fromDockerContainer; isEqualConfig compares that one with the target.
-- The configuration of the device is brought to its target in the same way, by steps of its own.
-- These computations are pure, and most of this library models them. Beside them stand the locks
-- under which steps are executed, the retries with a back-off and a backend of the host configuration.
--
-- Files and code:
--   Compose/ServiceTypes src/compose/types/service.ts: the configuration of a service
--   Compose/Service      src/compose/service.ts: the state of a service, hasNetwork, hasNetworkMode,
--                        hasVolume
--   Compose/Service/NetworkMode  the modes of networks that refer to services and containers
--   Compose/Service/Comparison   isEqualConfig, isEqualExceptForRunningState, hasSameNetworks
--   Compose/Service/Container    toDockerContainer, fromDockerContainer, and the round trip. What
--                        survives a container is the record IsRestorable: it asks, among others, for
--                        ranges of ports in ascending order, of which none overlaps or continues
--                        another (Compose/Ports/Spread)
--   Compose/Engine       what the engine is given and what it reports
--   Compose/Utils        src/compose/utils.ts: networks, mounts, labels, values and the comparison of
--                        arrays
--   Compose/Volume       src/compose/volume.ts: Volume, isEqualConfig
--   Compose/Network      src/compose/network.ts: Network, isEqualConfig
--   Compose/Images       src/compose/images.ts: Image, imageFromService, isSameImage
--   Compose/Images/Tasks src/compose/images.ts: createTask, reportEvent, getDownloadingImageNames
--   Compose/Steps        src/compose/composition-steps.ts: the steps and their arguments
--   Compose/Strategies   src/compose/update-strategies.ts
--   Compose/Ports        src/compose/ports.ts: port ranges; the model starts from the groups that
--                        the regular expressions match
--   Compose/Labels       dictionaries of labels, and checkTruthy and checkString of
--                        src/lib/validation.ts
--   Compose/App/Components     src/compose/app.ts: compareComponents, generateStepsForComponent
--   Compose/App/Services       compareServices
--   Compose/App/ServiceSteps   generateStepsForService, and the tests that it makes
--   Compose/App/Plan           nextStepsForAppUpdate, stepsToRemoveApp, migrateLegacy
--   Compose/ApplicationManager   src/compose/application-manager.ts: inferNextSteps and
--                        getRequiredSteps (Infer), saveAndRemoveImages (ImageSteps, with the reasons
--                        for each change in ImageSteps/Reasons), the limit on
--                        deltas (Downloads), getAppContainerIds (Types)
--   Config/Odmdata       src/config/backends/odmdata.ts: getBootConfig, setBootConfig
--   DeviceConfig         src/device-config.ts: getConfigSteps, getVPNSteps; Boot: envToBootConfig,
--                        bootConfigChangeRequired, getBackendSteps; Required: getRequiredSteps;
--                        Limits: rounds that share the limit on the switching of the VPN, and its
--                        resets by resetRateLimits; Store:
--                        get and set of src/config/index.ts for the keys of the table, and the part
--                        of getCurrent that reads them
--   Library/Conversions  src/lib/conversions.ts
--   Library/Locks        src/lib/update-lock.ts and src/lib/lockfile.ts: lock, lockService, dispose;
--                        Released: the locks in memory, OnDisk: the lockfiles, Kept: those of users
--   Library/Validation   src/lib/validation.ts: checkInt, checkBooleanish; and parseInt
--   Backoff              src/lib/backoff.ts, over a list of the outcomes of the calls
--   Common               lists, options, results, texts and dictionaries that the parts share
--   Compose/Tests        runs on concrete apps and containers; Library/Tests, DeviceConfig/Tests,
--                        DeviceConfig/Store/Tests,
--                        Backoff/Tests, Config/Odmdata/Tests: runs of the other parts
--
-- How the code is modelled:
--   - A class is a record of its fields. A dictionary is a list of keys and values in the order in
--     which the keys were added; the order that JavaScript gives to keys that look like integers is
--     not modelled, so services are taken not to be named by numbers.
--   - null and undefined are both none. Code that may throw returns a Result. Reading a property of
--     undefined is the exception type_error.
--   - Dates are natural numbers. A service of the target has no date of creation.
--   - migrateLegacy writes into the services of the target. The model passes the changed services on.
--     Labels that it sets to undefined are kept with the value none.
--   - The ids of the containers are looked up by the id of an app. For an app of both states a missing
--     entry is undefined, and the comparison of a network mode that reads an id then throws; for an
--     app of the target alone it is the empty object.
--   - `same_config` is a parameter of the planner: what is proved of it holds for every comparison of
--     configurations. The comparison that the program uses is modelled in Compose/Service/Comparison.
--   - The container engine is a third-party service. What it is given and what it reports are records,
--     and the relations between the two, whose names begin with Reports, are hypotheses: they say
--     that the engine reports back what it was given.
--   - isEqual and sortBy of lodash are those of the documentation: deep equality, and a stable sort.
--   - What the host does with lockfiles (which cannot be created, which cannot be removed, and what
--     folders there are) is a record Host. Waiting for a lock that is held is not modelled: a write
--     lock that is asked for is got.
--   - The partition of ODMDATA is a function from places to bytes with a flag, and the operations of
--     the file system that fail are those that a record Faults names.
--   - A backend of the boot configuration is a record of the pure methods of its class. The clock, the
--     time of the boot and the breadcrumb of the reboot are arguments.
--   - Numbers are exact, also those beyond 2 ^ 53, which JavaScript rounds.
--   - Loops are recursion on lists, so nothing runs out of fuel; the only fuel is that of the decimal
--     digits of a number in Common/Texts, where one unit more than the number is enough.
--   - What the planner asks of the engine and of the configuration (the images, the downloads under
--     way, whether the network of the supervisor is ready, whether images need a cleanup) is part of
--     its arguments, the records Options and Environment.
--
-- Not modelled: the execution of the steps, which calls the container engine, the construction of
-- apps and services from the database and from compose files, the regular expressions of port
-- strings, and the parts of the supervisor that the list of files does not name (the HTTP API, the
-- report of the state, logging, the rest of the configuration store), which are mostly input and output.
pub mod Backoff
pub mod Library
pub mod Common
pub mod Compose
pub mod Config
pub mod DeviceConfig
