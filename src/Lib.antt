-- ===== src/Lib.antt =====
-- Vixy: a proxy in front of Ethereum nodes. It checks execution layer (EL) and consensus layer (CL)
-- nodes at intervals, and sends HTTP and WebSocket requests to a healthy one, with backup EL nodes
-- for the case that no primary is healthy.
--
-- The parts, with the files of the program:
--   Config      src/config.rs: settings, defaults, validation, loading.
--   State       src/state.rs: what is known of each node, and the state that all parts share.
--   Selection   src/proxy/selection.rs: `select_el_node` and `select_cl_node`.
--   Health      src/health/el.rs and src/health/cl.rs: the check of one node, the chain head, and
--               `calculate_el_health` and `calculate_cl_health`. Health.Number is the number parser
--               of Rust's standard library, Health.Net the network that the checks ask.
--   Metrics     src/metrics.rs: the collector's helpers. A function that calls them gives the list
--               of its calls, which `record_calls` runs on a collector.
--   Monitor     src/monitor.rs: the two passes over the nodes of each layer, the failover flag, the
--               cycle and the loop. Monitor.Phases has the cycle in single steps, each under one
--               hold of a lock or in one store; Monitor.Polling has the first of these request by
--               request, with the lock that it holds and those who wait for it.
--   Http        src/proxy/http.rs: the EL and CL handlers, forwarding, and the status response.
--   Ws          src/proxy/ws.rs: Ws.Tracker is `SubscriptionTracker`; Ws.Messages has the handlers
--               of one message, Ws.Replay the replay of subscriptions; Ws.Session the upgrade, the proxy
--               loop, reconnection and clean-up; Ws.Watch the task `health_monitor`; Ws.Signals the
--               channel between that task and the loop, and Ws.Channels the channels for messages
--               with `client_receiver_task` and `upstream_receiver_task`.
--   Main        src/main.rs: the arguments, the routes, the start with its effects and errors, and
--               `shutdown_signal` in Main.Shutdown.
--   Prelude     Boolean tests, lists, results, texts as lists of bytes, and hash maps.
--   UnitTests   the unit tests of the program's files, as Boolean tests of the definitions.
--   Tests       concrete nodes, networks and sockets, and the theorems at them.
--
-- How they interact: the monitor writes the shared state, and the handlers and the watcher read it.
-- A function that reads it more than once, while the monitor may write in between, takes one state
-- for each read; Http.Interleaved and Ws.Signals.Configured take such states among those that
-- `Monitor.Phases.Reach` says are possible. The watcher's signals, the messages of both sides and the
-- verdicts of the sockets reach the proxy loop as one sequence of events, in any order; `step` takes
-- one of them, and takes none once the loop is left. Which events there can be is told by the tasks
-- at the other ends of the channels: Ws.Signals has a reconnection that takes time, in which the
-- watcher goes on, and Ws.Channels the ends of the tasks and of the channels.
--
-- Bounds: numbers are unbounded where the program only compares them or subtracts with saturation;
-- parsing checks 64 bits as the standard library does; the failure counter is taken modulo 2^32, as
-- in a release build. All loops are recursion on the list that they run over, so there is no fuel;
-- the monitor's endless loop has one entry of a list for each cycle, and a run of concurrent tasks
-- one step of a relation for each thing that a task does. `decimal` has as many digits as a 16-bit
-- port can need. Each channel for messages has 100 places, and the channel of signals one.
--
-- Parameters, since their code is elsewhere: the TOML decoder, the URL parser and the file system
-- (Config), the network (Health.Net) and which nodes answer at all (Monitor.Polling), the HTTP client
-- (Http.Client), the JSON library (Ws.Json), the counters and gauges of the metrics library
-- (Metrics.Prometric), the router (Main.Routes.Axum), the sockets and the address parser (Main.Host),
-- and the signals of the operating system (Main.Shutdown). What a theorem needs of them is a law among its
-- hypotheses.
--
-- Not modelled: logging; the registration of the collector, which a macro generates; the parser of
-- the command line, of which only the defaults are there; the elapsed time, which is a parameter of
-- the client; and three unit tests of src/config.rs and those of src/metrics.rs, which exercise the
-- TOML decoder and the metrics library, and the one of src/monitor.rs that waits for the interval.
pub mod Prelude
pub mod Config
pub mod State
pub mod Selection
pub mod Health
pub mod Metrics
pub mod Monitor
pub mod Http
pub mod Main
pub mod Ws
pub mod Tests
pub mod UnitTests
