-- ===== src/Lib.antt =====
-- Verification of the controller core, of the companion's scheduler, of the agent's outbox, of the
-- parsers and formats between them, and of the extension's graph and native bridge.
--
-- The controller (platform/controller-core) keeps one persisted state, and its services change it
-- through `store.update`. Agents are paired (pairingService.js), open sessions (sessionManager.js),
-- lease jobs (jobService.js), and report events (executionEventStore.js); devices, groups and
-- containers are administered beside that. The companion (companion/scheduler.js) is an older
-- controller on the same state. The agent (platform/browser-agent) keeps an outbox of terminal
-- envelopes (terminalOutbox.js). The extension (src) records profiles, whose steps form a graph, and
-- talks to the native host (native-host) in frames of bytes; workflow revisions made of profiles are
-- told apart by a content hash (platform/workflow-core), and input tables are parsed and handed out to
-- devices (platform/input-parser).
--
-- How code corresponds to the model: a service's call is a function from the readings of its clocks,
-- the ids it draws and its arguments to an `Outcome`, which returns or throws and carries the state in
-- both cases, since the store hands its own object to the mutator. Names are the source's in snake
-- case. Time stamps are numbers of milliseconds, taken to be within the range of
-- a Date (8.64e15), so that toISOString does not throw; texts of errors are left out.
--
--   Json.antt, Json/*                 JSON values, and the redaction of sensitive fields
--   Core/Errors.antt                  platform/controller-core/src/errors.js
--   Core/State.antt                   companion/store.js: the persisted state
--   Core/Transitions.antt             platform/controller-core/src/stateTransitions.js
--   Core/Audit.antt                   platform/controller-core/src/auditService.js
--   Core/Commands.antt, Core/Jobs/*   platform/controller-core/src/jobService.js
--   Core/Dataset/*                    platform/controller-core/src/datasetAssignment.js
--   Core/Devices.antt                 platform/controller-core/src/deviceRegistry.js
--   Core/Auth.antt                    platform/controller-core/src/authPolicy.js
--   Core/Events.antt                  platform/controller-core/src/executionEventStore.js
--   Core/Pairing.antt, Core/Pairing/* platform/controller-core/src/pairingService.js
--   Core/Network.antt, Core/Network/* platform/controller-core/src/networkConfig.js
--   Core/Groups.antt                  platform/controller-core/src/groupRegistry.js
--   Core/Containers.antt              platform/controller-core/src/containerRegistry.js
--   Core/Workflows.antt, Core/Workflows/* platform/controller-core/src/workflowRegistry.js
--   Core/Sessions.antt, Core/Sessions/* platform/controller-core/src/sessionManager.js
--   Companion/Scheduler.antt          companion/scheduler.js
--   Agent/Outbox.antt                 platform/browser-agent/src/terminalOutbox.js
--   Agent/Stop.antt                   platform/browser-agent/src/emergencyStop.js
--   Core/Persistence.antt             platform/controller-core/src/persistenceAdapter.js
--   Agent/Coordinates.antt            platform/browser-agent/src/coordinateMapper.js
--   Agent/Errors.antt                 platform/browser-agent/src/errors.js
--   Agent/Input.antt                  platform/browser-agent/src/inputSafety.js, limits and checks
--   Protocol/CompanionStatus.antt     platform/protocol/src/companionStatusAdapter.js
--   Native/Framing.antt, Native/Framing/* native-host/framing.js
--   InputParser.antt, InputParser/*   platform/input-parser/src/inputParser.js
--   Extension/Graph.antt, Extension/Graph/* src/graph.js
--   Extension/NativeBridge.antt, Extension/NativeBridge/* src/native-bridge.js, NativeBridgeClient
--   Workflow/Metadata.antt, Workflow/Metadata/* platform/workflow-core/src/workflowMetadata.js
--   Common/*                          shared helpers; Tests/* concrete runs
--
-- Parameters: SHA-256, the random source, the byte length of a JSON text, JSON.parse, localeCompare,
-- and the two checks that the access policy is given. Loops are structural recursion on lists, and the
-- shuffle on a counter. Two functions take fuel: the search for a cycle, as much as there are steps and
-- one more, and the loop that reads frames, as much as there are bytes and one more; in both the fuel
-- is shown to be enough. A call of the session manager is one step: what its awaits let in between is
-- not modelled, nor are callbacks, sockets, files, the browser, Docker and the user interface. The
-- validation of envelopes and of workflow revisions is not modelled, and what sanitizeRuntime makes of
-- a container's settings is an argument of its service; Core/Network models the settings apart.
pub mod Common
pub mod InputParser
pub mod Extension
pub mod Json
pub mod Core
pub mod Companion
pub mod Agent
pub mod Workflow
pub mod Tests
pub mod Protocol
pub mod Native
