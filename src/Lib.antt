-- ===== src/Lib.antt =====
-- A model of the relay of OutRelay, which connects agents to services: agents hold a control
-- connection to the relay, ask it for streams to a service, and the relay checks the policy, finds the
-- provider in its registry, and either splices the streams or lets the agents exchange datagrams
-- through its forwarding plane.
--
-- The parts and their files, with the source that each models:
-- - Common: Boolean tests, lists and maps over the native numbers. Go's map is an association list
--   whose newest entry counts; where the source ranges over a map in an order that matters, the order
--   is a parameter `range` with the law `IsRange`.
-- - Forward: pkg/forward/plane.go. `Plane` holds the tables. Forward/Alloc has Allocate, Forget,
--   ForgetAgent and gcOnce; Forward/Register has ArmPending, register and the datagram loop of Run. The
--   files below Forward that have theorems are named for them: Invariant and Index (agreement of the
--   tables), Release, Grants, Expiry, History, Evidence and Authority (who may bind an allocation), Owners,
--   Delivery, Liveness. Forward/Serve has Run with its collector as a machine on events.
-- - Policy: pkg/policy. Policy/Glob, Policy/Rules, Policy/Snapshot, Policy/Engine and Policy/Wire model
--   matcher.go, Policy/Cache models cache.go, Policy/Watcher models client.go.
-- - Edge: pkg/edge. Edge/Evaluate is the policy check of edge.go, which uses the engine and the cache
--   while the watcher changes them. Edge/Handshake has the checks of serveConn, Edge/Sessions what an
--   agent that comes or goes does to the registry and the forwarding plane. Edge/Frames has the frames
--   that the relay writes and rejectConsumer. Edge/Streams is handleConsumerStream up to the wait for
--   the provider and Edge/Streams/Answer the rest of it: `Relay` holds what a stream touches, the
--   handler's early returns are one function each, and the files Allowed, CalleeSide, Outcomes, Told and
--   Granted below it are named for what they are about. Edge/Peer has forwardToPeer and
--   handleForwardedStream. Edge/Accept has Run, RunListener and the loops over the streams of a connection.
--   Edge/Pairs has the pairs of agents and the routing of their frames,
--   Edge/Control handleRegister, handleForwardRegister, handleMigrateToP2P and enforceRequiredPromotion,
--   Edge/Control/Loop a turn of controlLoop with handleObservedAddrQuery and handleForwardResume,
--   Edge/Halves handleResumeHalf, handleMigrateToRelay and splicePair, Edge/Drain the method Drain.
--   Edge/System puts the handlers side by side: `System` has the tables of Server with the handlers that
--   run, Edge/System/Acts what each of them does between two waits, as a step of the whole relay, and the
--   files below Edge/System prove what every step keeps. A step makes two allocations at most, so that 2^31
--   steps cannot use up the ids.
--   Edge/Drain/Endpoint models drain.go, Edge/Migrated migrate.go, Edge/Resume resume.go, and
--   Edge/ForwardResume forward_resume.go with driveForwardResume of edge.go.
-- - Intra: pkg/intra/pool.go, the connections to peer relays.
-- - Registry: pkg/registry. The directory of connected agents and the calls of the controller
--   (registry.go), the successor list and the heartbeat (Registry/Fleet, fleet.go; Registry/Order is about
--   its order).
-- - Audit: pkg/audit/emitter.go, the bounded queue of audit events.
-- - Splice: pkg/splice/splice.go, the end of the two copies of a splice.
-- - Start: cmd/outrelay-relay/main.go, what is read off the flags and the check of a peer's certificate.
--   Start/Tls has the TLS configurations, Start/Setup the way from the flags to the server that accepts, and
--   Start/Shutdown the way from there to the exit: signals, drains and the return of Run are its events.
-- - Text: the functions on strings of the standard library that Start and Edge/Drain/Endpoint use.
--
-- State is passed explicitly, and a method that holds a lock is one step. The calls that serveConn makes when
-- an agent comes or goes take a lock each: each one is a `Call` of Edge/Sessions and an act of Edge/System, and
-- `attach` and `detach` are what they do one after another. The goroutines of the two
-- resume matchers are step relations. Clock readings are arguments in nanoseconds, and each reading of the
-- source is an argument of its own. Subtraction on the naturals stops at 0, which a clock reading minus
-- a window only reaches before the window has passed once. Texts are lists of bytes,
-- and the lists of endpoints of a flag or a drain request, which are trimmed, lists of runes. The loop of
-- Allocate runs on fuel 2, which is enough from every counter.
--
-- Parameters stand for code of other packages: the controller's answers, identity.Parse, slices.SortFunc,
-- unicode.IsSpace, time.ParseDuration, net.SplitHostPort, strconv.Atoi and the numbers of the generated
-- protocol package.
--
-- Not modelled: sockets, QUIC and the frame codec, dialing, TLS itself, logging, metrics and the parsing
-- of flags. What a read or a write on a stream gives is an argument of the model.
pub mod Audit
pub mod Common
pub mod Edge
pub mod Forward
pub mod Intra
pub mod Policy
pub mod Registry
pub mod Splice
pub mod Start
pub mod Text
