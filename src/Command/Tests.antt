-- ===== src/Command/Tests.antt =====
-- Runs of the command.
use mathlib.Core.List.{Sublistᴰ}
use klever_subscriber.Base.{
  ◌≡◌, refl, true, false, List, [], ◌∷◌, none, some, string_eq, arith, map,
}
use klever_subscriber.Event.{Event, null}
use klever_subscriber.Request.{Network, routes, fails_all, transaction, block as block_request}
use klever_subscriber.Request.Sent.{asked_once}
use klever_subscriber.Chan.{make_chan, for_each, send_or_skip, receive}
use klever_subscriber.Hub.{Action, Clients, subscribes, fans_out, receives, subscribe, fan_out}
use klever_subscriber.Hub as Channels
use klever_subscriber.Hub.Safety.{no_clients}
use klever_subscriber.Hub.Delivery.{published, received}
use klever_subscriber.Request.Outcome.{outcome}
use klever_subscriber.Frame.{bad, parsed, Decoders, Incoming, message, broken, decode_event}
use klever_subscriber.Frame.Effects.{effects, events_of}
use klever_subscriber.Frame.Pipeline.{frames}
use klever_subscriber.Command.{
  Flags, default_flags, no_types, unknown_event_type, refused, running, collect, root_cmd, Encoders,
  print_events,
}
use klever_subscriber.Command.Output.{non_blank, raw_output_follows_frames}
use klever_subscriber.Command.Query.{BlockFlags, get_block_cmd, get_tx_cmd}
use klever_subscriber.Command.Answers.{ending, EndsWith, query_commands_lem}

abbrev flags : Flags
flags = record {
  node_url = "localhost:8080";
  use_wss = true;
  types = "blocks" ∷ "bogus" ∷ [];
  addresses = "klv1" ∷ [];
  pretty = false;
  raw = true;
  web_addr = "0.0.0.0:3000";
  quiet = false;
}

-- The address of the dashboard has a default, and so its lack is not refused.
runs_without_flags : root_cmd default_flags ≡ running []
unfolding root_cmd collect
runs_without_flags = refl

refuses_no_dashboard : root_cmd (record default_flags { web_addr = "" }) ≡ refused no_types
unfolding root_cmd collect
refuses_no_dashboard = refl

refuses_bogus : root_cmd flags ≡ refused (unknown_event_type "bogus")
unfolding root_cmd collect
refuses_bogus = refl

-- No event can be encoded.
abbrev encoders : Encoders
encoders = record {
  marshal = λ evt. bad "json: unsupported value";
  marshal_indent = λ evt. bad "json: unsupported value";
  indent = λ content. parsed content;
}

-- Every frame is an event.
abbrev decoders : Decoders
decoders = record {
  probe = λ frame. parsed (record { id = ""; type = "blocks"; error = "" });
  response = λ frame. bad "EOF";
  raw_event =
      λ frame. parsed (record { type = "blocks"; address = ""; hash = "0x01"; content = "null" });
  value = λ content. parsed null;
}

abbrev arriving : List Incoming
arriving = message "BLOCK 1" ∷ message "BLOCK 2" ∷ broken true "reset by peer" ∷ []

abbrev block : Event
block = record { type = "blocks"; address = ""; hash = "0x01"; payload = null; raw = "BLOCK 1" }

abbrev next_block : Event
next_block = record block { raw = "BLOCK 2" }

abbrev session : List Action
session = subscribes ∷ fans_out block ∷ receives 0 ∷ fans_out next_block ∷ []

abbrev after_session : Clients
after_session = record {
  hub = record {
    channels = record { buffer = next_block ∷ []; capacity = 256; closed = false } ∷ [];
    subscribers = 0 ∷ [];
  };
  handles = record { ch = 0; closed = false } ∷ [];
}

session_runs : Channels.run no_clients session ≡ some after_session
unfolding Channels.run Channels.act subscribe make_chan fan_out for_each send_or_skip receive
session_runs = refl

two_blocks : published session ≡ events_of (effects decoders arriving)
unfolding published decode_event
two_blocks = refl

raw_output_follows_frames_example :
    let raws = map (λ (evt : Event). evt.raw) (received no_clients 0 session) in
    (print_events encoders flags (received no_clients 0 session) ≡ non_blank raws)
    × Sublistᴰ raws (frames arriving)
raw_output_follows_frames_example =
    raw_output_follows_frames encoders decoders flags arriving session after_session 0 refl
      two_blocks session_runs

abbrev block_flags : BlockFlags
block_flags = record { nonce_set = true; nonce = 7; hash = ""; with_txs = false }

-- The node replies, and then the connection closes.
abbrev network : Network
network = record {
  connected = true;
  write_error = none;
  meanwhile = routes (record { id = "1"; content = "{}"; error = "" }) ∷ fails_all ∷ [];
  ctx_first = false;
  ctx_error = "context deadline exceeded";
}

query_commands_lem_example :
    let end = ending encoders false none (outcome network "1") in
    EndsWith (get_block_cmd encoders flags block_flags none network) end (
      asked_once none network (record {
        id = "1";
        method = "get_block";
        params = block_request (record { nonce = some 7; hash = ""; with_txs = false });
      }))
    × EndsWith (get_tx_cmd encoders flags "0x02" true none network) end (
        asked_once none network
          (record { id = "1"; method = "get_transaction"; params = transaction "0x02" true }))
query_commands_lem_example =
    query_commands_lem encoders flags block_flags "0x02" true none network (omega arith) tt
