-- ===== src/Server/Steps.antt =====
-- web/server.go: the goroutines of the server and of the client, which take turns: `ProcessEvents`,
-- `StartStatsLoop`, each stream of `HandleSSE`, each call of the API, the shutdown, the read loop.
use klever_subscriber.Base.{
  ℕ, Bool, true, false, not, ◌&&◌, List, [], ◌∷◌, Option, none, some, ◌>>=◌, string_eq, get_elem?,
  set, if◌then◌else◌,
}
use klever_subscriber.Event.{Event}
use klever_subscriber.Chan.{Received, got, drained, waits, receive}
use klever_subscriber.Hub.{Subscription, subscribe}
use klever_subscriber.Hub as Channels
use klever_subscriber.Broker.{process_event}
use klever_subscriber.Broker.Stats.{Tick, on_tick}
use klever_subscriber.Broker.Sse.{Stage, arrived, handle_sse}
use klever_subscriber.Broker.Sse as Sse
use klever_subscriber.Server.{Dashboard, Call, heartbeat, with_broker, serve_http}

-- A turn of one of the goroutines. `ProcessEvents` takes an event at a second or ends with its
-- context; the loop of the statistics takes a tick or ends; a request is served; a stream takes a
-- turn; the shutdown closes the subscription; the context ends; and the client's own goroutines
-- act on the channels or change the state of the connection.
pub data Step : Type 0 where
  consumes : ℕ → Step
  quits : Step
  ticks : Tick → Step
  stops_ticking : Step
  serves : Call → Step
  streams_on : ℕ → Sse.Turn → Step
  shuts_down : Step
  finishes : Step
  on_channels : Channels.Action → Step
  connects : Bool → Step

abbrev pub clients_of : Dashboard → Channels.Clients
clients_of d = record { hub = d.client.hub; handles = d.handles }

abbrev pub with_clients : Channels.Clients → Dashboard → Dashboard
with_clients w d = record d { client = record d.client { hub = w.hub }; handles = w.handles }

unfoldable pub do_channels : Dashboard → Channels.Action → Option Dashboard
unfolding Channels.act
do_channels d a = Channels.act (clients_of d) a >>= λ w. some (with_clients w d)

-- What `ProcessEvents` does with what it has received.
abbrev pub consumed : Dashboard → ℕ → Received Event → Option Dashboard
consumed d now (got evt) = process_event d.stats.broker evt now >>= λ b. some (with_broker b d)
consumed d now drained = some (record d { consuming = false })
consumed d now waits = some d

unfoldable pub consume : Dashboard → ℕ → Option Dashboard
unfolding receive process_event
consume d now =
    let received = do_channels d (Channels.receives d.channel) >>= λ d'.
    consumed d' now (receive d.client.hub.channels d.channel).1 in
    if d.consuming then received else some d

-- One turn of the `k`th stream.
unfoldable pub stream_turn : Dashboard → ℕ → Sse.Turn → Dashboard
unfolding handle_sse
stream_turn d k t = elim (get_elem? d.streams k) [
  | none ↦ d
  | some stage ↦
      let (b, stage') =
        handle_sse d.stats.broker stage (record t { connected = d.client.connected }) in
      with_broker b (record d { streams = set d.streams k stage' })
]

unfoldable pub step : Dashboard → Step → Option Dashboard
unfolding consume on_tick serve_http stream_turn do_channels
step d (consumes now) = consume d now
step d quits = some (record d { consuming = d.consuming && not d.done })
step d (ticks t) =
    let pushed = on_tick heartbeat d.stats (record t { connected = d.client.connected }) >>= λ l.
    some (record d { stats = l }) in
    if d.ticking then pushed else some d
step d stops_ticking = some (record d { ticking = d.ticking && not d.done })
step d (serves call) = serve_http d call >>= λ (d', reply). some d'
step d (streams_on k t) = some (stream_turn d k t)
step d shuts_down =
    let closed = do_channels d (Channels.closes d.own) >>= λ d'. some (record d' { shut = true }) in
    if d.done && not d.shut then closed else some d
step d finishes = some (record d { done = true })
step d (on_channels a) = do_channels d a
step d (connects b) = some (record d { client = record d.client { connected = b } })

unfoldable pub run : Dashboard → List Step → Option Dashboard
unfolding step
run d [] = some d
run d (a ∷ as') = step d a >>= λ d'. run d' as'
