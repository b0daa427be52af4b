-- ===== src/Lib.antt =====
-- The Taymna machine agent (agent/src): a service that keeps a shared computer locked unless the
-- server has given it a session with time left, also while the server cannot be reached.
--
-- Parts, and the files that model them:
--
-- - Session.antt (agent/src/session.rs): SessionStatus, SessionSnapshot, Desired, and the two
--   functions apply_server_message and advance. A function that takes `&mut` returns the new
--   value.
-- - Clock.antt (agent/src/storage.rs, ClockGuard): new, now and resync_from_server. A DateTime is
--   the number of nanoseconds since the earliest instant of the type, an Instant is the monotonic
--   clock's nanoseconds; what a call reads of the two clocks is its argument.
-- - Storage.antt (agent/src/storage.rs, AgentState and Store): save, load and load_for_enroll
--   over the three files of the state directory. Each call of the file system has its failure, if
--   any, as an argument, so a crash inside a save is an argument too. Storage/Permissions.antt has the
--   modes of the files, Storage/Place.antt their paths.
-- - Warning.antt (agent/src/warning.rs, with Notice and Urgency of agent/src/platform/mod.rs):
--   ExpiryWarnings and its reconcile, level_for, arriving_late_level and notice_for. Seconds are
--   the signed integers of Common/Int.antt, since no operation leaves the range of i64.
-- - Client.antt and Client/Connection.antt (agent/src/client.rs): the messages, to_ws_url,
--   handle_message, connect_and_serve and run. What select! takes up is a list of rounds, a
--   connection is an episode, and what the task sends, forwards and sleeps is a list of acts.
-- - Agent.antt with Agent/Rounds.antt and Agent/Loop.antt (agent/src/main.rs, run and
--   accept_decommission): the variables of run are a record, each branch of its select! is an
--   input, and the enforcement calls, saves, warnings and commands are the effects, in their
--   order. A round calls the functions of the parts above as the code does: a tick takes the
--   trusted time from Clock, asks Session what to enforce, then asks Warning what to announce,
--   and saves the state. Agent/Restarts.antt puts runs of the loop one after the other, as the lives
--   of a process between which only the files remain (docs/offline-expiry.md).
-- - Enroll.antt (agent/src/main.rs, enroll): what the server answers is an input.
-- - System.antt (the loop of run in agent/src/main.rs with the task of agent/src/client.rs that it
--   spawns): the whole agent on a machine. A process is the loop's variables, the connection task,
--   and the two channels between them; a move is one round of either, taken with the functions of
--   Agent/Rounds.antt and Client/Connection.antt, or a start, the end of the process at any point,
--   or an enrollment while it is stopped. System/Lifecycle.antt is the abstract machine: managed or
--   released, with what others see. System/Lawful.antt, System/Links.antt and System/Stored.antt
--   are about one round of the loop, of the connection, and about starts and enrollments;
--   System/Invariant.antt and System/Refinement.antt put them together. System/Sequence.antt
--   puts the moves of the connection task one after another.
-- - Service.antt (agent/src/main.rs, main, windows_service_support and wait_for_shutdown): what
--   main goes on to do, the control handler, the statuses that the service reports.
-- - Platform (agent/src/platform): Platform/Linux.antt finds the desktop session in the output of
--   loginctl, and Platform/Linux/Notifier.antt is LinuxNotifier with `apply` of
--   agent/src/warning.rs and the warnings thread of agent/src/main.rs; what a child process
--   prints is an input and what is run is the result. Platform/Macos.antt is MacosNotifier and
--   Platform/Windows.antt WindowsNotifier and WindowsEnforcement likewise, the latter with each
--   handle that the system gives and each that is closed. Platform/Windows/Scripts.antt holds the
--   two scripts of agent/src/platform/windows.rs and `str::replace`, Platform/Base64.antt and
--   Platform/Utf16.antt the encodings of that file, Platform/Quoting.antt its string literals and
--   those of agent/src/platform/macos.rs. Platform/UserNotifier.antt is the trait of
--   agent/src/platform/mod.rs as a record of operations and laws; the warnings thread is written
--   against it once more, and Platform/UserNotifier/Instances.antt fills it for each platform.
--   Platform/Enforcement.antt is the trait Enforcement likewise, with the calls that a tick makes.
-- - Server (api): what the server tells an agent and counts of it. Server/Sessions.antt
--   (api/src/modules/sessions) is the table of sessions with its partial unique index and the
--   requests start, extend and end as statements on it; Server/Push.antt is the message that a
--   request pushes, or an agent that connects is sent, with what the agent makes of it.
--   Server/Machines.antt (api/src/modules/machines, api/src/modules/realtime) is the row of a
--   machine, its enrollment tokens and its connection: the two requests in which other requests
--   can come in between, removal and enrollment, are also split at that point (remove_read, and
--   check_token with redeem). Server/Credentials.antt splits the texts that an agent sends.
--   Server/Usage.antt and Server/Reports.antt (api/src/modules/reports) are the usage report. A
--   Date is a number of milliseconds, and seconds are the
--   floating-point numbers of Server/Number.antt, rounded at each division and addition.
-- - Deployment.antt (agent/src with api/src/modules/machines and api/src/modules/realtime): the whole
--   agent of System.antt and the row of its machine on the server, which meet in the
--   acknowledgements that are on the way; Deployment/Covered.antt is about one step and
--   Deployment/Removal.antt about a course of steps.
-- - UnitTests.antt: the unit tests in the files of agent/src, each as its steps on the model with what
--   it asserts.
-- - External.antt: what the code takes from chrono and serde_json, as parameters. Common.antt:
--   shared types, tests, lists, integers and text. Examples.antt: the theorems at concrete
--   inputs.
--
-- Bounds: every loop is a recursion on the list of what it takes up, so that no fuel is needed,
-- except in the decimal and the binary digits of a number, whose fuel is the number plus one and
-- the number: each round divides by ten (Common.Text, digits_fuel) or by two (Server.Number,
-- bits_enough).
--
-- Not modelled: the web dashboard, and of the API server the sign-in of operators, the naming of
-- machines and what operators are shown; the calls of the operating systems, whose answers are
-- inputs, the parsing of the command line, tracing and what is logged; the transport, the timers
-- and the wire formats are those of the crates. In the composition of System.antt an enrollment of
-- a running agent is left out: the two processes would write the same file. The files of the state
-- directory are texts. How often a tick or a heartbeat comes is not modelled either: rounds come
-- in any order. A DateTime and the JavaScript numbers have no upper end here: chrono panics where
-- a sum leaves the range of its type.
pub mod Agent
pub mod Client
pub mod Clock
pub mod Common
pub mod Deployment
pub mod Enroll
pub mod Examples
pub mod External
pub mod Platform
pub mod Server
pub mod Service
pub mod Session
pub mod Storage
pub mod System
pub mod UnitTests
pub mod Warning
