-- ===== src/Server.antt =====
-- web/server.go and web/middleware/middleware.go: the dashboard's server, which joins the client, the
-- broker and the handlers, and its routes.
pub mod Steps
pub mod Handlers
pub mod Safety
pub mod Flow
pub mod Counting
pub mod Turns
pub mod Whole
pub mod Order
pub mod Telling
pub mod Routes
pub mod Broadcasts
pub mod Pages
pub mod Drain
pub mod Shutdown
pub mod Tests
use klever_subscriber.Base.{
  ℕ, ◌+◌, Bool, true, false, not, ◌&&◌, String, List, [], ◌∷◌, ◌++◌, Option, none, some, ◌>>=◌,
  ◌==◌, string_eq, eqb, length, get_elem?, set, if◌then◌else◌,
}
use klever_subscriber.Event.{Event}
use klever_subscriber.Chan.{Received, got, drained, waits, receive}
use klever_subscriber.Hub.{Subscription, subscribe}
use klever_subscriber.Hub as Channels
use klever_subscriber.Request.{GetBlockParams, Network, assign}
use klever_subscriber.Subscriber.{Subscriber, url}
use klever_subscriber.Broker.{
  Broker, SseFrame, StatsSnapshot, process_event, broadcast_subscription,
}
use klever_subscriber.Broker as Broker
use klever_subscriber.Broker.Stats.{StatsLoop, Tick, start_stats_loop, on_tick, handle_stats}
use klever_subscriber.Broker.Sse.{Stage, arrived, handle_sse}
use klever_subscriber.Broker.Sse as Sse
use klever_subscriber.Handler.{
  SubscriptionPayload, GetTransactionRequest, Body, HttpRequest, Answer, Handler,
  handle_subscription, handle_dynamic_subscribe, handle_dynamic_unsubscribe, handle_get_transaction,
  handle_get_block,
}

abbrev pub default_max_clients : ℕ
default_max_clients = 100

-- The heartbeat that `Start` asks for, in nanoseconds.
abbrev pub heartbeat : ℕ
heartbeat = 2000000000

pub record Server : Type 0 where
  pub addr : String
  pub sub : Subscriber
  pub broker : Broker

unfoldable pub new_server : String → Subscriber → Server
unfolding Broker.new url
new_server addr sub = record {
  addr = addr;
  sub = sub;
  broker = Broker.new default_max_clients (url sub);
}

-- The server at work. `handles` holds the subscriptions of the client, and `own` is the place of the
-- server's; `channel` is what its `C()` returned. The broker stands in `stats`. `done` tells whether
-- the context is, and `shut` whether the shutdown has closed the server's subscription.
pub record Dashboard : Type 0 where
  pub client : Subscriber
  pub handles : List Subscription
  pub own : ℕ
  pub channel : ℕ
  pub stats : StatsLoop
  pub streams : List Stage
  pub consuming : Bool
  pub ticking : Bool
  pub done : Bool
  pub shut : Bool

-- What `Start` does before it listens.
unfoldable pub start : Server → List Subscription → Dashboard
unfolding subscribe start_stats_loop
start s handles =
    let (hub', sub) = subscribe s.sub.hub in
    record {
      client = record s.sub { hub = hub' };
      handles = handles ++ sub ∷ [];
      own = length handles;
      channel = sub.ch;
      stats = start_stats_loop s.broker s.sub.connected;
      streams = [];
      consuming = true;
      ticking = true;
      done = false;
      shut = false;
    }

abbrev pub with_broker : Broker → Dashboard → Dashboard
with_broker b d = record d { stats = record d.stats { broker = b } }

-- The patterns of the `ServeMux`, of which "/" matches every other path.
pub data Route : Type 0 where
  to_static_files : Route
  to_events : Route
  to_stats : Route
  to_subscription : Route
  to_subscribes : Route
  to_unsubscribes : Route
  to_transaction : Route
  to_block : Route

unfoldable pub route : String → Route
route path =
    if path == "/events"
    then to_events
    else if path == "/stats"
    then to_stats
    else if path == "/subscription"
    then to_subscription
    else if path == "/subscription/subscribe"
    then to_subscribes
    else if path == "/subscription/unsubscribe"
    then to_unsubscribes
    else if path == "/api/transaction"
    then to_transaction
    else if path == "/api/block"
    then to_block
    else to_static_files

-- A request: what each of the decoders finds in its body, the networks that the client's calls meet,
-- and the second.
pub record Call : Type 0 where
  pub path : String
  pub method : String
  pub as_subscription : Body SubscriptionPayload
  pub as_transaction : Body GetTransactionRequest
  pub as_block : Body GetBlockParams
  pub nets : ℕ → Network
  pub now : ℕ

-- A file, a stream by its number, the statistics, or the answer of a handler.
pub data Content : Type 0 where
  asset : String → Content
  stream : ℕ → Content
  statistics : StatsSnapshot → Content
  api : Answer → Content

abbrev pub request_of {ℓ} : {P : Type ℓ} → Call → Body P → HttpRequest P
request_of call body = record { method = call.method; body = body }

-- `NewQueryHandler` has no `onChange`.
abbrev pub subscription_handler : Dashboard → Handler
subscription_handler d = record { sub = d.client; on_change = true; notified = 0 }

abbrev pub query_handler : Dashboard → Handler
query_handler d = record { sub = d.client; on_change = false; notified = 0 }

-- A handler's result, with what `onChange` does where it was called.
unfoldable pub answer : Dashboard → Handler × Answer → Option (Dashboard × Content)
unfolding broadcast_subscription
answer d (h, a) =
    let d' = record d { client = h.sub } in
    let told = broadcast_subscription d.stats.broker h.sub.types h.sub.addresses in
    if eqb h.notified 0 then some (d', api a) else (told >>= λ b. some (with_broker b d', api a))

unfoldable pub serve_route : Route → Dashboard → Call → Option (Dashboard × Content)
unfolding answer handle_stats handle_subscription handle_dynamic_subscribe
    handle_dynamic_unsubscribe handle_get_transaction handle_get_block
serve_route to_static_files d call = some (d, asset call.path)
serve_route to_events d call =
    some (record d { streams = d.streams ++ arrived ∷ [] }, stream (length d.streams))
serve_route to_stats d call =
    let (b, s) = handle_stats d.stats.broker d.client.connected call.now in
    some (with_broker b d, statistics s)
serve_route to_subscription d call =
    answer d (
      handle_subscription call.nets (subscription_handler d) (request_of call call.as_subscription))
serve_route to_subscribes d call = answer d (
    handle_dynamic_subscribe (call.nets 0) (subscription_handler d)
      (request_of call call.as_subscription))
serve_route to_unsubscribes d call = answer d (
    handle_dynamic_unsubscribe (call.nets 0) (subscription_handler d)
      (request_of call call.as_subscription))
serve_route to_transaction d call =
    answer d
      (handle_get_transaction (call.nets 0) (query_handler d) (request_of call call.as_transaction))
serve_route to_block d call =
    answer d (handle_get_block (call.nets 0) (query_handler d) (request_of call call.as_block))

-- The headers of a reply and its content; the headers that the handlers add are left out.
pub record Reply : Type 0 where
  pub headers : List (String × String)
  pub content : Content

-- `w.Header().Set` four times, before the handler behind it runs.
unfoldable pub security_headers : List (String × String) → List (String × String)
unfolding assign
security_headers headers =
    assign "Content-Security-Policy"
      "default-src 'self'; script-src 'self'; style-src 'self'; img-src 'self' data:; connect-src 'self'; base-uri 'none'; frame-ancestors 'none'; form-action 'none'"
      (assign "Referrer-Policy" "no-referrer"
        (assign "X-Frame-Options" "DENY" (assign "X-Content-Type-Options" "nosniff" headers)))

-- `middleware.SecurityHeaders(mux)`
unfoldable pub serve_http : Dashboard → Call → Option (Dashboard × Reply)
unfolding security_headers route serve_route
serve_http d call = serve_route (route call.path) d call >>= λ (d', content).
    some (d', record { headers = security_headers []; content = content })
