-- ===== src/Command.antt =====
-- cmd/subscriber/main.go, run.go and helpers.go: the flags of the command, the client and the server
-- that it makes of them, and what it prints. What encoding/json prints is an argument.
pub mod Query
pub mod Checks
pub mod Output
pub mod Answers
pub mod Tests
use klever_subscriber.Base.{
  ℕ, ◌+◌, String, Bool, true, false, not, ◌&&◌, ◌||◌, List, [], ◌∷◌, ◌++◌, Option, none, some,
  ◌>>=◌, ◌==◌, string_eq, if◌then◌else◌,
}
use klever_subscriber.Event.{EventType, Event, valid_event_types}
use klever_subscriber.Request.{Slice}
use klever_subscriber.Subscriber.{
  Subscriber, Setting, with_scheme, with_addresses, with_on_connect, with_on_disconnect,
  with_on_error, url,
}
use klever_subscriber.Subscriber as Subscriber
use Prim.Native.String.{◌++◌ as join}
use klever_subscriber.Subscription.{is_some_list}
use klever_subscriber.Frame.{Parsed, bad, parsed}
use klever_subscriber.Server.{Server, new_server}

pub record Flags : Type 0 where
  pub node_url : String
  pub use_wss : Bool
  pub types : List String
  pub addresses : List String
  pub pretty : Bool
  pub raw : Bool
  pub web_addr : String
  pub quiet : Bool

-- The flags where none is given.
abbrev pub default_flags : Flags
default_flags = record {
  node_url = "localhost:8080";
  use_wss = false;
  types = [];
  addresses = [];
  pretty = false;
  raw = false;
  web_addr = "0.0.0.0:3000";
  quiet = false;
}

-- The errors of `RunE`.
pub data UsageError : Type 0 where
  no_types : UsageError
  unknown_event_type : String → UsageError

-- An error, or the event types with which `run` is called.
pub data Checked : Type 0 where
  refused : UsageError → Checked
  running : List EventType → Checked

-- The loop of `RunE`; `types` holds those collected.
unfoldable pub collect : List String → List EventType → Checked
unfolding valid_event_types
collect [] types = running types
collect (t ∷ ts) types =
    let rest = collect ts (types ++ t ∷ []) in
    if not (valid_event_types t) then refused (unknown_event_type t) else rest

-- `RunE` of the root command, up to its call of `run`.
unfoldable pub root_cmd : Flags → Checked
unfolding collect
root_cmd flags =
    if not (is_some_list flags.types) && flags.web_addr == ""
    then refused no_types
    else collect flags.types []

abbrev pub scheme_of : Bool → String
scheme_of use_wss = if use_wss then "wss" else "ws"

-- The options of `run`.
unfoldable pub options : Flags → List Setting
options flags =
    with_scheme (scheme_of flags.use_wss)
      ∷ (if is_some_list flags.addresses then with_addresses (some flags.addresses) ∷ [] else [])
    ++ with_on_connect true ∷ with_on_disconnect true ∷ with_on_error true ∷ []

-- `quiet`, after the test at the head of `run`.
abbrev pub is_quiet : Flags → List EventType → Bool
is_quiet flags event_types =
    flags.quiet || not (flags.web_addr == "") && not (is_some_list event_types)

-- `strings.Join(xs, ", ")`
abbrev pub comma_separated : List String → String
comma_separated [] = ""
comma_separated (x ∷ []) = x
comma_separated (x ∷ y ∷ xs) = join x (join ", " (comma_separated (y ∷ xs)))

-- `logf`
abbrev pub logf : Bool → String → List String
logf quiet line = if quiet then [] else line ∷ []

-- What `run` has made before it starts the client, and the lines on the standard error.
pub record Launch : Type 0 where
  pub sub : Subscriber
  pub server : Option Server
  pub quiet : Bool
  pub lines : List String

abbrev pub web_lines : Flags → List EventType → List String
web_lines flags event_types =
    join "Web dashboard at http://" flags.web_addr
    ∷ (if is_some_list event_types
        then []
        else "No event types specified — configure via dashboard" ∷ [])

-- The lines from "Connecting" to "---".
unfoldable pub banner : Flags → List EventType → Subscriber → List String
unfolding url
banner flags event_types sub =
    let quiet = is_quiet flags event_types in
    logf quiet (join "Connecting to " (url sub))
    ++ (if is_some_list flags.types
        then logf quiet (join "Subscribed types: " (comma_separated flags.types))
        else [])
    ++ (if is_some_list flags.addresses
        then logf quiet (join "Watching addresses: " (comma_separated flags.addresses))
        else [])
    ++ (if flags.web_addr == "" then [] else web_lines flags event_types)
    ++ logf quiet "Press Ctrl+C to exit"
    ++ logf quiet "---"

-- `run`, up to the start of the client; `none` is a panic.
unfoldable pub run : Flags → List EventType → Option Launch
unfolding Subscriber.new options new_server banner
run flags event_types = Subscriber.new flags.node_url (some event_types) (options flags) >>= λ sub.
    some (record {
      sub = sub;
      server = if flags.web_addr == "" then none else some (new_server flags.web_addr sub);
      quiet = is_quiet flags event_types;
      lines = banner flags event_types sub;
    })

-- `json.Marshal` and `json.MarshalIndent` of an event, and `json.Indent`.
pub record Encoders : Type 0 where
  pub marshal : Event → Parsed String
  pub marshal_indent : Event → Parsed String
  pub indent : String → Parsed String

-- `if len(evt.Raw) > 0 { fmt.Println(string(evt.Raw)) }`
abbrev pub raw_line : Event → List String
raw_line evt = if evt.raw == "" then [] else evt.raw ∷ []

abbrev pub encoded_line : Parsed String → Event → List String
encoded_line (bad e) evt = raw_line evt
encoded_line (parsed output) evt = output ∷ []

-- One round of the loop over `sub.Events()`.
unfoldable pub print_event : Encoders → Flags → Event → List String
print_event enc flags evt =
    if flags.raw
    then raw_line evt
    else if flags.pretty
    then encoded_line (enc.marshal_indent evt) evt
    else encoded_line (enc.marshal evt) evt

unfoldable pub print_events : Encoders → Flags → List Event → List String
unfolding print_event
print_events enc flags [] = []
print_events enc flags (evt ∷ evts) = print_event enc flags evt ++ print_events enc flags evts

-- What is printed of the events: a quiet command only waits for its context.
abbrev pub printed : Encoders → Flags → Launch → List Event → List String
printed enc flags launch evts = if launch.quiet then [] else print_events enc flags evts

abbrev pub indented : Parsed String → String → String
indented (bad e) content = content
indented (parsed output) content = output

-- `printJSON`
unfoldable pub print_json : Encoders → Bool → String → String
print_json enc pretty content = if pretty then indented (enc.indent content) content else content
