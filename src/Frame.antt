-- ===== src/Frame.antt =====
-- subscriber/connection.go and subscriber/event.go: the read loop of a connection, which routes the
-- replies, reports the errors and fans the events out, and `DecodeEvent`. What encoding/json makes of
-- the bytes of a frame is an argument.
pub mod Effects
pub mod Pipeline
pub mod Tests
use klever_subscriber.Base.{
  ℕ, Bool, true, false, not, String, List, [], ◌∷◌, ◌++◌, Option, none, some, ◌>>=◌, ◌==◌,
  string_eq, if◌then◌else◌,
}
use klever_subscriber.Event.{EventType, Event, Json, text}
use klever_subscriber.Hub.{Hub, fan_out}
use klever_subscriber.Request.{Response, route_response}
use klever_subscriber.Subscriber.{Subscriber}

-- The result of `json.Unmarshal`, or its error.
pub data Parsed {ℓ} (A : Type ℓ) : Type ℓ where
  bad : String → Parsed A
  parsed : A → Parsed A

-- The struct by which the read loop tells frames apart.
pub record Probe : Type 0 where
  pub id : String
  pub type : String
  pub error : String

-- `Data` is raw JSON.
pub record RawEvent : Type 0 where
  pub type : String
  pub address : String
  pub hash : String
  pub content : String

-- `json.Unmarshal` into each of the four types.
pub record Decoders : Type 0 where
  pub probe : String → Parsed Probe
  pub response : String → Parsed Response
  pub raw_event : String → Parsed RawEvent
  pub value : String → Parsed Json

-- The errors that the read loop reports.
pub data ReadError : Type 0 where
  read_failed : String → ReadError
  bad_frame : String → ReadError
  bad_response : String → String → ReadError
  server_error : String → ReadError

-- `reports` lists the calls of `onError` by the read loop, in order.
pub record Reader : Type 0 where
  pub client : Subscriber
  pub reports : List ReadError

-- What `ReadMessage` returns: a message, or an error, which may be an unexpected one.
pub data Incoming : Type 0 where
  message : String → Incoming
  broken : Bool → String → Incoming

-- `Data`: the decoded value, or the bytes as a string.
abbrev pub payload_of : Parsed Json → String → Json
payload_of (bad e) content = text content
payload_of (parsed v) content = v

unfoldable pub decode_event : Decoders → String → Parsed Event
decode_event dec frame = elim (dec.raw_event frame) [
  | bad e ↦ bad e
  | parsed r ↦ parsed (record {
    type = r.type;
    address = r.address;
    hash = r.hash;
    payload = payload_of (dec.value r.content) r.content;
    raw = frame;
  })
]

-- `Event{Raw: frame, Data: string(frame)}`
abbrev pub plain_event : String → Event
plain_event frame = record { type = ""; address = ""; hash = ""; payload = text frame; raw = frame }

abbrev pub event_or_plain : Parsed Event → String → Event
event_or_plain (bad e) frame = plain_event frame
event_or_plain (parsed evt) frame = evt

abbrev pub report : ReadError → Reader → Reader
report e s = if s.client.on_error then record s { reports = s.reports ++ e ∷ [] } else s

unfoldable pub publish : Event → Reader → Option Reader
unfolding fan_out
publish evt s =
    fan_out s.client.hub evt >>= λ hub'. some (record s { client = record s.client { hub = hub' } })

abbrev pub respond : String → Parsed Response → Reader → Reader
respond id (bad e) s = report (bad_response id e) s
respond id (parsed resp) s = record s {
  client = record s.client { requests = route_response s.client.requests resp };
}

-- What follows the probe.
unfoldable pub handle_probed : Decoders → Reader → String → Probe → Option Reader
unfolding publish decode_event
handle_probed dec s frame p =
    if not (p.id == "")
    then some (respond p.id (dec.response frame) s)
    else if not (p.error == "")
    then some (report (server_error p.error) s)
    else if not (p.type == "")
    then publish (event_or_plain (decode_event dec frame) frame) s
    else publish (plain_event frame) s

unfoldable pub handle_frame : Decoders → Reader → String → Option Reader
unfolding handle_probed
handle_frame dec s frame = elim (dec.probe frame) [
  | bad e ↦ some (report (bad_frame e) s)
  | parsed p ↦ handle_probed dec s frame p
]

-- The loop returns at the first error of `ReadMessage`.
unfoldable pub read_loop : Decoders → Reader → List Incoming → Option Reader
unfolding handle_frame
read_loop dec s [] = some s
read_loop dec s (message frame ∷ rest) = handle_frame dec s frame >>= λ s'. read_loop dec s' rest
read_loop dec s (broken unexpected e ∷ rest) =
    some (if unexpected then report (read_failed e) s else s)
