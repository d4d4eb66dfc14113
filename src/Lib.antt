-- ===== src/Lib.antt =====
-- SubNetree is a self-hosted network monitor: one server process made of plugins (recon, pulse,
-- insight, vault, gateway and others) that a registry orders, starts and stops, and that talk to
-- each other over an event bus. This library models the parts of that program that carry its own
-- logic and proves what makes them correct.
--
-- Registry models internal/registry/registry.go and the types of pkg/plugin that it uses.
--   Registry/Types: PluginInfo, Plugin and the Registry's state. What a plugin's methods answer is a
--   field of the plugin; a panic is one more answer, since the registry recovers it.
--   Registry/Validate: Register, checkAPIVersion and Validate. The loops of Validate are passes over
--   the disabled names that an error ends. The loop of the cascade has fuel, one round more than
--   there are plugins, which is enough: every round but the last disables a plugin.
--   Registry/Sort: topologicalSort. Its loop has fuel, one round for each active plugin, which is
--   enough: every round places a plugin that was not placed before.
--   Registry/Lifecycle: InitAll, StartAll, StopAll and the queries. Calls on plugins are a list of
--   events, in order.
--   A range over a Go map visits the keys in any order. Prelude/Go has that order as a parameter,
--   with a number for each loop, and the theorems hold for all orders.
--
-- Docs models ComputeDiff and computeLCS of internal/docs/diff.go. Texts are bytes, lines are of any
-- type with an equality. An index out of range is the result none. Docs/Unified models
-- FormatUnifiedDiff: an item stands for a line of its text, which fmt prints, and the number of context
-- lines is an int of 64 bits, whose sums wrap around.
--
-- Event models internal/event/bus.go. Event/Bus has the subscriptions as values; Event/Slices has the
-- slices and the arrays behind them, which a removal shifts in place, and Publish, which copies them.
-- Slices/Listed shows that the slices hold the lists of Event/Bus. While a handler runs, any sequence of
-- steps of the bus may happen. How much room an array gets when it grows is a parameter.
--
-- Vault models internal/vault/crypto.go and keymanager.go. Argon2id, AES-GCM and the random source
-- are third-party code: the record Primitives of Vault/Crypto, and an argument for each read. Keys
-- are slices at addresses of a memory, because the source wipes them in place and shares one.
-- Vault/Validation models the checks of internal/vault/validation.go.
--
-- Pulse models internal/pulse/alerter.go and correlation.go, with the queries of
-- internal/pulse/store.go that they use as functions on the rows of the tables. Which queries fail
-- in a step is an input. Locks make each of these operations one step.
--
-- Pulse/Maintenance models the test of internal/pulse/maint_window.go. A time is what package time
-- answers about it.
--
-- Gateway models internal/gateway/sessions.go: the methods one by one in Sessions, and in
-- Sessions/Races the steps of Create among those of other goroutines. The Range of a Count is no
-- snapshot: all that is known is that it visits the sessions that are there from its beginning to its
-- end.
--
-- Recon/Schedule models isQuietHours and tick of internal/recon/scheduler.go. The parsers of times
-- and of subnets are parameters. Recon/Hierarchy models InferHierarchyFromData of
-- internal/recon/hierarchy.go: the map of assignments is two functions of the ID, and each loop is a
-- body that runs for every device. Its modules follow the steps: Ranks has the rank that falls from
-- a device to its parent, Early, Late, Hung and Fdb what each step keeps of it, and Forest and Climb
-- put them together.
--
-- Recon/Movement models internal/recon/service_movement.go: a scan is the list of the entries of its
-- map, in the order of the range over it.
--
-- Auth models internal/auth/service.go and store.go, with the types of user.go and token.go.
--   Auth/Monad: the tables and a call of the database, which is a function of the tables to a result
--   and new tables: what a call wrote before an error stays written.
--   Auth/Store: one function per method of UserStore. What the world decides in a call, the time, the
--   statements that fail and the values of the generators, is a record World.
--   Auth/Service: one function per method of Service; Login, Setup, Refresh and UpdateUser are cut in
--   two behind their look-up. bcrypt, SHA-256, JWT, TOTP codes and the cipher of their secrets are the
--   record Primitives. A call is one step: calls are not interleaved statement by statement.
--   Auth/Service/Lockout has the automaton that Login refines, and Auth/Service/Rotation the life of a
--   refresh token over any sequence of calls; Auth/Service/Once has the same for the token between the
--   two factors.
--
-- Insight models internal/insight/correlation/correlator.go. A map of strings is a function. find has
-- fuel, one more than there are pairs of alerts, which is enough: each union lengthens a path by one
-- parent at most. Insight/Correlation/Window has the overflow of durations, Forest what find and union
-- do to the parents, Joins and Pairs the loops over the pairs, Groups and Build the result, and Spec the
-- relation of which the groups are the classes.
--
-- Dispatch models CheckIn of internal/dispatch/grpc.go with the statements of store.go and the handler
-- of handlers.go that creates enrollment tokens. Dispatch/Store has the tables, a function for each
-- statement and the record World of what the world decides in a call; Versions, Enrollment and CheckIn
-- follow grpc.go, where CheckIn is cut in three: identify, after_enrollment and proceed. Package semver,
-- SHA-256, strings.SplitN and the certificate authority are the record Server. Dispatch/Uses has the
-- statements of enrollAgent one by one, among those of other calls.
--
-- Svcmap models internal/svcmap/correlator.go with the statements of store.go that it uses. Which
-- statements fail is a function of their number in the call.
--
-- Ws models internal/ws/hub.go. A client is the number of its allocation and has a channel: a buffer
-- of 256 messages at most, open or closed. A send on a closed channel is a panic. Ws/Hub/Panics has
-- the steps of all goroutines: connections, disconnections, broadcasts and writes.
--
-- Prelude has the shared names, Boolean tests, lists measured by native numbers, equality, counting
-- and Go's run-time choices. The tests of a part stand in its module Tests, which applies
-- the results below to samples.
--
-- Not modelled: HTTP handlers but the one named above, middleware, SQL beyond the statements named
-- above, the network collectors of recon, the profiles and the collectors of agents, the proxies, the
-- anomaly detection and the forecasts of insight, which are floating-point statistics, clients of
-- outside services, and the web interface. Log lines, error texts, metrics and contexts are left out
-- of what is modelled.
pub mod Prelude
pub mod Auth
pub mod Dispatch
pub mod Docs
pub mod Event
pub mod Gateway
pub mod Insight
pub mod Pulse
pub mod Recon
pub mod Registry
pub mod Svcmap
pub mod Vault
pub mod Ws
