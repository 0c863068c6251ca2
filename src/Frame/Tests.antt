-- ===== src/Frame/Tests.antt =====
-- Runs of the read loop.
use mathlib.Core.List.{Sublistᴰ}
use klever_subscriber.Base.{
  ◌≡◌, refl, true, false, String, List, [], ◌∷◌, ◌++◌, some, ◌==◌, string_eq, if◌then◌else◌, map,
}
use klever_subscriber.Event.{Event, null}
use klever_subscriber.Chan.{make_chan, send_or_skip, for_each, receive}
use klever_subscriber.Hub.{
  no_subscribers, Action, Clients, subscribes, fans_out, receives, subscribe, fan_out, act, run,
}
use klever_subscriber.Hub.Safety.{no_clients, no_subscribers-IsSound, subscribe-IsSound}
use klever_subscriber.Hub.Buffers.{buffer_at}
use klever_subscriber.Hub.Delivery.{published, received}
use klever_subscriber.Subscriber.{defaults}
use klever_subscriber.Frame.{
  Parsed, bad, parsed, Probe, Decoders, Reader, Incoming, message, broken, decode_event, read_loop,
}
use klever_subscriber.Frame.Effects.{Performs, effects, events_of, read_loop_lem}
use klever_subscriber.Frame.Pipeline.{frames, consumers_follow_frames}

-- The decoders at four frames.
abbrev probe_of : String → Parsed Probe
probe_of frame =
    if frame == "BLOCK"
    then parsed (record { id = ""; type = "blocks"; error = "" })
    else if frame == "REPLY"
    then parsed (record { id = "1"; type = ""; error = "" })
    else if frame == "ERROR"
    then parsed (record { id = ""; type = ""; error = "too many types" })
    else bad "unexpected end of JSON input"

abbrev decoders : Decoders
decoders = record {
  probe = probe_of;
  response = λ frame. parsed (record { id = "1"; content = "{}"; error = "" });
  raw_event =
      λ frame. parsed (record { type = "blocks"; address = ""; hash = "0x01"; content = "null" });
  value = λ content. parsed null;
}

abbrev arriving : List Incoming
arriving =
    message "BLOCK"
    ∷ message "REPLY"
    ∷ message "{"
    ∷ message "ERROR"
    ∷ message "BLOCK"
    ∷ broken true "reset by peer"
    ∷ []

abbrev reader : Reader
reader = record {
  client = record (defaults "node" (some ("blocks" ∷ []))) { hub = (subscribe no_subscribers).0 };
  reports = [];
}

read_loop_lem_example :
    (s' : Reader) × (read_loop decoders reader arriving ≡ some s')
    × Performs reader s' (effects decoders arriving)
read_loop_lem_example =
    read_loop_lem decoders arriving reader (subscribe-IsSound no_subscribers no_subscribers-IsSound)

abbrev block : Event
block = record { type = "blocks"; address = ""; hash = "0x01"; payload = null; raw = "BLOCK" }

abbrev session : List Action
session = subscribes ∷ fans_out block ∷ receives 0 ∷ fans_out block ∷ []

abbrev after_session : Clients
after_session = record {
  hub = record {
    channels = record { buffer = block ∷ []; capacity = 256; closed = false } ∷ [];
    subscribers = 0 ∷ [];
  };
  handles = record { ch = 0; closed = false } ∷ [];
}

session_runs : run no_clients session ≡ some after_session
unfolding run act subscribe make_chan fan_out for_each send_or_skip receive
session_runs = refl

two_blocks : published session ≡ events_of (effects decoders arriving)
unfolding published decode_event
two_blocks = refl

consumers_follow_frames_example :
    Sublistᴰ
      (map
        (λ (evt : Event). evt.raw)
        (received no_clients 0 session ++ buffer_at after_session.hub.channels 0))
      (frames arriving)
consumers_follow_frames_example =
    consumers_follow_frames decoders arriving session after_session 0 two_blocks session_runs
