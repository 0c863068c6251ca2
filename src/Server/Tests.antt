-- ===== src/Server/Tests.antt =====
-- Runs of the server.
use mathlib.Core.List.{Sublistᴰ}
use klever_subscriber.Base.{
  sym, subst, ◌∙◌, arith, ◌≡◌, ◌≤◌, refl, true, false, String, List, [], ◌∷◌, ◌++◌, none, some,
}
use klever_subscriber.Event.{Event, null}
use klever_subscriber.Hub.{no_subscribers, subscribe, fans_out, fan_out}
use klever_subscriber.Hub as Channels
use klever_subscriber.Hub.Sound.{IsSound}
use klever_subscriber.Hub.Safety.{no_subscribers-IsSound, subscribe-IsSound}
use klever_subscriber.Hub.Buffers.{buffer_at}
use klever_subscriber.Request.{Network}
use klever_subscriber.Subscriber.{Subscriber, defaults}
use klever_subscriber.Broker.Counts.{Tallied}
use klever_subscriber.Broker.Sse as Sse
use klever_subscriber.Broker.Sse.Counts.{count, is_served}
use klever_subscriber.Handler.{malformed, decoded}
use klever_subscriber.Server.{
  Dashboard, Call, Reply, to_static_files, to_subscribes, route, serve_http,
}
use klever_subscriber.Server.Safety.{IsTold, changes_are_told}
use klever_subscriber.Server.Steps.{
  Step, consumes, ticks, serves, streams_on, shuts_down, finishes, on_channels, connects, run,
  clients_of, with_clients,
}
use klever_subscriber.Server.Counting.{taken, recorded, do_channels-IsServing}
use klever_subscriber.Server.Whole.{opened, opened-IsServing, server_runs}
use klever_subscriber.Server.Order.{offered, counted_in_order}
use klever_subscriber.Server.Drain.{own_turns, taken_in, goes_on}
use klever_subscriber.Server.Shutdown.{IsHeld, shutdown_drains}
use klever_subscriber.Server.Safety.{IsServing}
use klever_subscriber.Server.Whole.{nothing_counted}
use klever_subscriber.Server.{start, new_server}
use klever_subscriber.Broker.{new}
use klever_subscriber.Chan.{make_chan, for_each, send_or_skip}

subscribe_path : route "/subscription/subscribe" ≡ to_subscribes
unfolding route
subscribe_path = refl

other_path : route "/index.html" ≡ to_static_files
unfolding route
other_path = refl

-- A client with the channel of `Events`.
abbrev client : Subscriber
client = record (defaults "node" none) { hub = (subscribe no_subscribers).0 }

client-IsSound : IsSound client.hub
client-IsSound = subscribe-IsSound no_subscribers no_subscribers-IsSound

abbrev offline : Network
offline = record {
  connected = false;
  write_error = none;
  meanwhile = [];
  ctx_first = false;
  ctx_error = "context canceled";
}

abbrev call : String → String → Call
call method path = record {
  path = path;
  method = method;
  as_subscription = decoded (record { types = some ("blocks" ∷ []); addresses = none });
  as_transaction = malformed "EOF";
  as_block = malformed "EOF";
  nets = λ k. offline;
  now = 100;
}

abbrev block : Event
block = record { type = "blocks"; address = ""; hash = "0x01"; payload = null; raw = "" }

abbrev turn : Sse.Turn
turn = record { flusher = true; done = false; connected = false; now = 100 }

-- A stream is opened, the subscription is posted, an event is fanned out and counted, and the
-- server shuts down.
abbrev session : List Step
session =
    connects true
    ∷ serves (call "GET" "/events")
    ∷ streams_on 0 turn
    ∷ streams_on 0 turn
    ∷ serves (call "POST" "/subscription")
    ∷ on_channels (fans_out block)
    ∷ consumes 100
    ∷ streams_on 0 turn
    ∷ ticks (record { now = 1000; connected = false; connected_then = true; unix = 100 })
    ∷ finishes
    ∷ shuts_down
    ∷ consumes 101
    ∷ []

server_runs_example :
    (d : Dashboard) × (run (opened ":3000" client []) session ≡ some d)
    × IsSound d.client.hub
    × (count is_served d.streams ≤ 100)
    × Tallied (recorded (taken (opened ":3000" client []) session) []) d.stats.broker.counters
server_runs_example = server_runs ":3000" client [] session client-IsSound

changes_are_told_example :
    (d' : Dashboard) × (reply : Reply) × (serve_http
        (opened ":3000" client [])
        (call "POST" "/subscription")
      ≡ some (d', reply))
    × IsTold (opened ":3000" client []) d'
changes_are_told_example =
    changes_are_told (opened ":3000" client []) (call "POST" "/subscription")
      (opened-IsServing ":3000" client [] client-IsSound)

-- The server when the session is over.
abbrev after_session : Dashboard
after_session = (server_runs ":3000" client [] session client-IsSound).0

counted_in_order_example :
    Sublistᴰ
      (taken (opened ":3000" client []) session
        ++ buffer_at after_session.client.hub.channels (opened ":3000" client []).channel)
      (offered session)
counted_in_order_example =
    counted_in_order ":3000" client [] session after_session client-IsSound
      (server_runs ":3000" client [] session client-IsSound).1

-- An event waits, and the context is done.
abbrev filled : Channels.Clients
filled = elim (Channels.act (clients_of (opened ":3000" client [])) (fans_out block)) [
  | none ↦ clients_of (opened ":3000" client [])
  | some w ↦ w
]

abbrev ending : Dashboard
ending = record (with_clients filled (opened ":3000" client [])) { done = true }

filling : Channels.act (clients_of (opened ":3000" client [])) (fans_out block) ≡ some filled
unfolding Channels.act fan_out for_each send_or_skip start subscribe make_chan new_server
filling = refl

ending-IsServing : IsServing ending
ending-IsServing =
    let (w, _, serving, acts) =
      do_channels-IsServing (opened ":3000" client []) (fans_out block)
        (opened-IsServing ":3000" client [] client-IsSound) in
    let same : w ≡ filled = some-inj (sym acts ∙ filling) in
    let v = subst (λ x. IsServing (with_clients x (opened ":3000" client []))) same serving in
    record { sound = v.sound; limited = v.limited; capped = v.capped }
  where
    some-inj : {v w : Channels.Clients} → some v ≡ some w → v ≡ w
    some-inj h = ground (arith, h)

ending-IsHeld : IsHeld ending
unfolding Channels.act fan_out for_each send_or_skip start subscribe make_chan new_server
ending-IsHeld = record { sub = _; held = refl; same = refl; unclosed = refl; listed = refl }

one_waits : buffer_at ending.client.hub.channels ending.channel ≡ block ∷ []
unfolding Channels.act fan_out for_each send_or_skip start subscribe make_chan new_server
one_waits = refl

shutdown_drains_example :
    let waiting = buffer_at ending.client.hub.channels ending.channel in
    (d' : Dashboard) × (run ending (shuts_down ∷ own_turns 100 (true ∷ true ∷ [])) ≡ some d')
    × (d'.consuming ≡ goes_on (true ∷ true ∷ []) waiting)
    × Tallied (recorded (taken_in (true ∷ true ∷ []) waiting) []) d'.stats.broker.counters
unfolding start new_server new
shutdown_drains_example =
    shutdown_drains ending 100 (true ∷ true ∷ []) [] ending-IsServing nothing_counted ending-IsHeld
      refl refl refl
