-- ===== src/Server/Pages/Tests.antt =====
-- A run of the server with a dashboard that is served.
use mathlib.Core.List.{Sublistᴰ}
use klever_subscriber.Base.{
  ℕ, ◌≡◌, refl, true, false, String, List, [], ◌∷◌, ◌++◌, none, some, get_elem?, map,
}
use klever_subscriber.Event.{Event, null}
use klever_subscriber.Hub.{no_subscribers, subscribe, fans_out}
use klever_subscriber.Hub.Sound.{IsSound}
use klever_subscriber.Hub.Safety.{no_subscribers-IsSound, subscribe-IsSound}
use klever_subscriber.Subscriber.{Subscriber, defaults}
use klever_subscriber.Chan.Buffers.{buffer_at}
use klever_subscriber.Broker.{SseFrame, Payload, new}
use klever_subscriber.Broker.Sse.{Stage, Turn, serving}
use klever_subscriber.Broker.Wire.{codes, body, is_one_line}
use klever_subscriber.Broker.Wire.Source.{messages}
use klever_subscriber.Broker.Wire.Dispatch.{message_of}
use klever_subscriber.Handler.{malformed}
use klever_subscriber.Server.{Dashboard, Call, new_server, start}
use klever_subscriber.Server.Steps.{Step, consumes, serves, streams_on, on_channels, run}
use klever_subscriber.Server.Whole.{opened}
use klever_subscriber.Server.Order.{offered}
use klever_subscriber.Server.Telling.{events_in}
use klever_subscriber.Server.Pages.{dashboards_follow_client}

abbrev client : Subscriber
client = record (defaults "node" none) { hub = (subscribe no_subscribers).0 }

client-IsSound : IsSound client.hub
client-IsSound = subscribe-IsSound no_subscribers no_subscribers-IsSound

abbrev opens_stream : Call
opens_stream = record {
  path = "/events";
  method = "GET";
  as_subscription = malformed "EOF";
  as_transaction = malformed "EOF";
  as_block = malformed "EOF";
  nets = λ k. record {
    connected = false;
    write_error = none;
    meanwhile = [];
    ctx_first = false;
    ctx_error = "context canceled";
  };
  now = 100;
}

abbrev with_hash : String → Event
with_hash hash = record { type = "blocks"; address = ""; hash = hash; payload = null; raw = "" }

abbrev turn : Turn
turn = record { flusher = true; done = false; connected = false; now = 100 }

-- A stream is opened and writes the statistics, and of two events that are fanned out and broadcast
-- it writes the first.
abbrev session : List Step
session =
    serves opens_stream
    ∷ streams_on 0 turn
    ∷ streams_on 0 turn
    ∷ streams_on 0 turn
    ∷ on_channels (fans_out (with_hash "0x01"))
    ∷ on_channels (fans_out (with_hash "0x02"))
    ∷ consumes 100
    ∷ consumes 101
    ∷ streams_on 0 turn
    ∷ []

abbrev after_session : Dashboard
after_session = elim (run (opened ":3000" client []) session) [
  | none ↦ opened ":3000" client []
  | some d ↦ d
]

abbrev written_of : Stage → List SseFrame
written_of (serving c written) = written
written_of _ = []

abbrev page : List SseFrame
page = elim (get_elem? after_session.streams 0) [ none ↦ [] | some stage ↦ written_of stage ]

session_runs :
    (run (opened ":3000" client []) session ≡ some after_session)
    × (get_elem? after_session.streams 0 ≡ some (serving 0 page))
    × (events_in page ≡ with_hash "0x01" ∷ [])
    × (events_in (buffer_at after_session.stats.broker.frames 0) ≡ with_hash "0x02" ∷ [])
unfolding run events_in start new_server new subscribe
session_runs = (refl, refl, refl, refl)

abbrev braces : Payload → List ℕ
braces p = codes "{}"

dashboards_follow_client_example :
    (stats : SseFrame) × (later : List SseFrame) × (stats.event ≡ "stats")
    × (messages (body braces page) ≡ message_of braces stats ∷ map (message_of braces) later)
    × Sublistᴰ
        (events_in (later ++ buffer_at after_session.stats.broker.frames 0))
        (offered session)
unfolding is_one_line codes
dashboards_follow_client_example =
    dashboards_follow_client braces ":3000" client [] session after_session 0 0 page (λ p. refl)
      client-IsSound session_runs.0 session_runs.1
