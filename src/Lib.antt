-- ===== src/Lib.antt =====
-- The client of a Klever node, with the broker of its web dashboard.
--
-- The client (subscriber/) keeps one connection to a node. It holds the event types and addresses
-- that it asks for, sends requests over the connection and routes each reply to the request that
-- waits for it, and fans the events out to the channels of its subscriptions. The broker
-- (web/broker/) takes the events of one subscription, counts them, and broadcasts them as frames to
-- the dashboards, each of which is a goroutine of `HandleSSE`. The server (web/) joins the client, the
-- broker and the handlers of the API; the command (cmd/subscriber/) makes the client and the server.
--
-- What models what, with the function of the source beside each operation:
--   Event         subscriber/event.go: the event types, `Event`
--   Frame         subscriber/connection.go and subscriber/event.go: the read loop of `connect`,
--                 `DecodeEvent`
--   Sets          subscriber/helpers.go: `mergeTypes`, `removeTypes`, `diffTypes` and their twins
--   Slice         the slices of Go, as the source uses them: arrays that several slices share
--   Slice.Sets    subscriber/helpers.go, on slices
--   Slice.Clients subscriber/subscriber.go and subscriber/subscription.go: the slices that `New` and
--                 `Reconfigure` keep and that `Types` and `Addresses` copy
--   Chan          the channels of Go, as the source uses them
--   Hub           subscriber/subscriber.go: `Subscribe`, `removeSub`, `Close`, `closeSubscribers`,
--                 `fanOut`
--   Rate          web/broker/broker.go: `bumpRate`, `rateSnapshot`
--   Broker        web/broker/broker.go and web/broker/stats.go: `New`, `recordEvent`,
--                 `ProcessEvents`, `broadcast`, `BroadcastSubscription`, `snapshot`
--   Broker.Sse    web/broker/broker.go: `HandleSSE`
--   Broker.Wire   web/broker/broker.go: `writeFrame`, with the reader of a browser's EventSource, which
--                 HTML's section on server-sent events describes
--   Broker.Stats  web/broker/stats.go: `HandleStats`, `StartStatsLoop`
--   Decimal       strconv.FormatInt, which spells the ids of requests
--   Request       subscriber/request.go and subscriber/query.go: `sendRequest`, `routeResponse`,
--                 `failAllPending`, `GetTransaction`, `GetBlock`; `writeMessage` of
--                 subscriber/connection.go
--   Subscriber    subscriber/subscriber.go: the state, the options, `New`, `URL`
--   Subscription  subscriber/subscription.go: `Reconfigure`, `AddSubscriptions`,
--                 `RemoveSubscriptions`
--   Connection    subscriber/connection.go: the loop of `Start` with its `recover`, and of `connect`
--                 the stages of a connection; the turns of `Start` are `advance`
--   Connection.Alive  subscriber/connection.go: the pings and the read deadline
--   Handler       web/handler/subscription.go and web/handler/query.go: `validatePayload` and the five
--                 handlers of the dashboard's API
--   Server        web/server.go and web/middleware/middleware.go: `NewServer`, `Start`, the routes,
--                 `SecurityHeaders`
--   Server.Steps  web/server.go: the goroutines of the server and of the client, as steps
--   Command       cmd/subscriber/main.go, run.go and helpers.go: the root command, `run`, `printJSON`
--   Command.Query cmd/subscriber/get_block.go and get_tx.go
--   Wait          examples/wait-for-event/main.go
--   Examples      examples/query/main.go, examples/stream/main.go and examples/reconnect/main.go
-- Base has the shared names, the Boolean tests and the lemmas on lists; the modules named Tests hold
-- runs at fixed inputs.
--
-- State and concurrency. A struct is a record, and an operation takes the state and returns the
-- next. What runs under a mutex is one step. Goroutines that share state are sequences of steps:
-- any sequence is an interleaving. In `Hub` the steps are the operations on the channels; in
-- `Broker.Sse` a step is a turn of one request's goroutine or a broadcast; in `Server.Steps` it is
-- a turn of any goroutine of the server, or what the client does meanwhile, where a whole call of
-- the API is one step, whose networks hold what comes between, while the cancel function of the
-- connection and the token for the reconnect stay as the call found them; in `Connection` it is a turn of
-- `Start`, or what another goroutine does with the channels, the requests or the subscriptions; in
-- `Request` the steps of the other goroutines come between the write of a request and the end of
-- its wait, as an argument. A channel is an index into a heap that never frees; a
-- panic is `none`. Outside of `Slice` a slice is the list of its elements: what several slices that
-- share an array do to each other is told there, for the types and addresses of the clients.
--
-- Bounds and fuel. The counters of events wrap at 2 ^ 64, and so does the counter of requests, an
-- `int64` that is kept as its bit pattern. `Decimal` writes at most twenty digits, which is enough
-- below 2 ^ 64. Every other recursion is on a list or on a number of rounds. Times are Unix
-- seconds, or nanoseconds in `Connection.Alive` and `Broker.Stats`, which are not negative.
--
-- Outside the repository: the node, in `Subscription.Node`, is a record of the operations and laws
-- that the source relies on; the network, the context, the clock and the ticker are arguments,
-- and so is what encoding/json makes of a frame, of the body of a request to the dashboard, or of an
-- event that is printed.
--
-- Not modelled: the parsing of flags, signals and the log lines of callbacks; listening, timeouts and
-- the static files of the server, which are net/http; the float of the event rate; mutexes, as all
-- code that shares state takes them.
pub mod Base
pub mod Event
pub mod Sets
pub mod Slice
pub mod Chan
pub mod Hub
pub mod Rate
pub mod Broker
pub mod Decimal
pub mod Request
pub mod Subscriber
pub mod Subscription
pub mod Frame
pub mod Connection
pub mod Handler
pub mod Server
pub mod Command
pub mod Wait
pub mod Examples
