-- ===== src/Lib.antt =====
-- Verification library of kazibee_home's server.
--
-- The server of kazi Connect links remote executors (desktop machines) with web sessions and tool
-- calls. Its parts that are modelled here, by file:
--
--   Coordinator.antt    src/server/durable-objects.ts, class ExecutorCoordinator: the durable object
--                       of one executor. State.antt has its state and frames, Channel.antt accepts
--                       sockets and keeps the presence (acceptChannel, acceptViewer, onHello, onEvent,
--                       presence), Session.antt and Chunks.antt forward and reassemble session frames
--                       (onViewerMessage, onSessionFrame, onSessionClose), Invoke.antt is
--                       sessionInvoke, Routes.antt is dispatch with onAccepted, onResult and the
--                       timers, Handler.antt is webSocketMessage, webSocketClose and fetch. Run.antt
--                       says what can happen to the object: calls, timers, pongs and dropped sockets.
--   Swarm.antt          src/server/durable-objects.ts, class SwarmMachineCoordinator: Machine.antt has
--                       its handlers.
--   Registry.antt       src/server/services/connect_executor_connection_registry.ts, over the sinks of
--                       src/server/services/sse_stream.ts (Sse.antt).
--   Relay.antt          src/server/services/connect_client_relay_service.ts, between clients and
--                       executors: State.antt has the tables, removeRoute and fenceExecutor,
--                       Links.antt open, close, revokeDesktop and revokeExecutor with the callbacks
--                       of the streams, Source.antt the checks of a command's target and
--                       owner, Routing.antt the parts of command with its timer, and receive,
--                       Hub.antt the relay beside the registry, and the events of both.
--   Executor.antt       src/server/services/connect_executor_service.ts: Store.antt has the
--                       statements of the four executor repositories, Flows.antt the transactions of
--                       connect_executor.logic.ts, Claims.antt createClaim, Decisions.antt decide,
--                       Owners.antt status, review, detail, rename and revoke.
--   OAuth/Scopes.antt   src/server/services/oauth_scopes.ts.
--   OAuth/Flow.antt     src/server/services/oauth_flow_service.ts, over the statements of
--                       src/server/repo/oauth_repo: OAuth/Store.antt has its rows and statements,
--                       OAuth/Connections.antt those on clients and connections, OAuth/Overlap.antt
--                       what other calls run in between.
--   Release.antt        src/server/services/connect_service_release_resolver.ts: Version.antt has
--                       versions and ranges, Index.antt the parsers, Resolver.antt the selection.
--   Feed.antt           src/server/services/update_feed_service.ts (Service.antt) over the order of
--                       src/server/services/release_version.ts (Version.antt).
--   Prelude.antt        Boolean tests, lists, and maps as association lists in insertion order.
--   Json.antt           values of type `unknown`.
--
-- How the code is modelled. A handler of the coordinator is a program that changes the state and may
-- throw (Coordinator/Effects.antt); what was done before a throw stays done. A promise that waits is
-- a ticket, and resolving it adds an answer to a list, so that a missing or a second answer can be
-- told. A timer that is armed is the time at which it is due; it fires as an event of its own, at any
-- moment. The registry and the token endpoints pass their state on. A statement of the database is
-- atomic and may fail for reasons of its own. A token endpoint awaits each of its statements
-- (OAuth/Flow.antt, ask), and before each of them any statements of other calls may run; the store
-- lists them (others).
-- A command of the relay is cut at its two awaits, and a run may put any events between the parts; the
-- identity of a route or a link, which the source compares by reference, is a serial number; ending a
-- stream runs its close callbacks at once. A flow of the executor service is built from statements that
-- may each fail, and a transaction that is marked to roll back restores the rows.
-- Times are milliseconds, and identifiers of the source are spelled in snake case.
--
-- What is outside is a parameter: JSON and dates of the language, the frame encoder, the parsers and the
-- limits of the protocol packages, sockets that throw, SHA-256 and random bytes, localeCompare,
-- DownloadService. Tests in each part run the models on concrete inputs.
--
-- Bounds. Retries of the resolver are counted down from DEPENDENCY_MAX_ATTEMPTS, the source's own
-- bound; the relay makes room for a new link in as many rounds as there are links, and each round drops
-- one; every other loop follows a list, so nothing runs out of fuel. Numbers are exact where the source
-- has doubles; the sizes that it compares are far below 2^53, and a version number above that is
-- compared here as it is written.
--
-- Not modelled: authorize, grant, desktop and session services, controllers, the user interface,
-- observability and deployment. Interleavings at an `await` inside one handler of the coordinator are
-- not modelled; a handler runs to its end. Transactions of the executor service that overlap are not
-- modelled: one runs after the other.
mod Prelude
pub mod Json
pub mod Coordinator
pub mod OAuth
pub mod Executor
pub mod Feed
pub mod Registry
pub mod Relay
pub mod Release
pub mod Sse
pub mod Swarm
