-- ===== src/Subscriber.antt =====
-- subscriber/subscriber.go: the client's state, its options and its constructor.
-- A callback is not modelled, only whether it is set.
pub mod Construction
pub mod Tests
use Prim.Native.String.{◌++◌ as join}
use klever_subscriber.Base.{
  ℕ, zero, suc, ◌*◌, String, Bool, true, false, not, ◌&&◌, List, [], ◌∷◌, Option, none, some, ◌>>=◌,
  ◌==◌, string_eq, if◌then◌else◌,
}
use klever_subscriber.Event.{EventType}
use klever_subscriber.Hub.{Hub, no_subscribers, Subscription, subscribe}
use klever_subscriber.Request.{Slice, elems, Requests, no_requests}

-- Durations are in nanoseconds.
abbrev pub second : ℕ
second = 1000000000

abbrev pub default_reconnect_interval : ℕ
default_reconnect_interval = 5 * second

abbrev pub default_ping_interval : ℕ
default_ping_interval = 3 * second

pub record Config : Type 0 where
  pub host : String
  pub scheme : String
  pub reconnect_interval : ℕ
  pub ping_interval : ℕ
  pub on_connect : Bool
  pub on_disconnect : Bool
  pub on_error : Bool
  pub query_only : Bool

-- `conn_cancel` names the context of the present connection, and `cancelled` lists the contexts
-- cancelled; `reconnect_ch` tells whether the channel, which has room for one, holds a token.
-- `types` and `addresses` are only ranged over and copied, so that nil and empty are one.
pub record Subscriber : Type 0 where
  pub config : Config
  pub open config use *
  pub connected : Bool
  pub types : List EventType
  pub addresses : List String
  pub hub : Hub
  pub conn_cancel : Option ℕ
  pub cancelled : List ℕ
  pub events : ℕ
  pub reconnect_ch : Bool
  pub requests : Requests

-- `type Option func(*Subscriber)`; `none` is a panic.
pub data Setting : Type 0 where
  with_scheme : String → Setting
  with_addresses : Slice String → Setting
  with_reconnect_interval : ℕ → Setting
  with_ping_interval : ℕ → Setting
  with_on_connect : Bool → Setting
  with_on_disconnect : Bool → Setting
  with_on_error : Bool → Setting
  with_query_only : Setting

abbrev pub configure : Subscriber → Config → Subscriber
configure s c = record s { config = c }

unfoldable pub apply : Setting → Subscriber → Option Subscriber
apply (with_scheme scheme) s =
    if not (scheme == "ws") && not (scheme == "wss")
    then none
    else some (configure s (record s.config { scheme = scheme }))
apply (with_addresses addresses) s = some (record s { addresses = elems addresses })
apply (with_reconnect_interval d) s =
    some (configure s (record s.config { reconnect_interval = d }))
apply (with_ping_interval d) s = some (configure s (record s.config { ping_interval = d }))
apply (with_on_connect fn) s = some (configure s (record s.config { on_connect = fn }))
apply (with_on_disconnect fn) s = some (configure s (record s.config { on_disconnect = fn }))
apply (with_on_error fn) s = some (configure s (record s.config { on_error = fn }))
apply with_query_only s = some (configure s (record s.config { query_only = true }))

unfoldable pub apply_all : List Setting → Subscriber → Option Subscriber
unfolding apply
apply_all [] s = some s
apply_all (opt ∷ opts) s = apply opt s >>= apply_all opts

-- The literal at the head of `New`; the channel of `Events` is made last.
abbrev pub defaults : String → Slice EventType → Subscriber
defaults host types = record {
  config = record {
    host = host;
    scheme = "ws";
    reconnect_interval = default_reconnect_interval;
    ping_interval = default_ping_interval;
    on_connect = false;
    on_disconnect = false;
    on_error = false;
    query_only = false;
  };
  connected = false;
  types = elems types;
  addresses = [];
  hub = no_subscribers;
  conn_cancel = none;
  cancelled = [];
  events = 0;
  reconnect_ch = false;
  requests = no_requests;
}

abbrev pub with_events : Subscriber → Subscriber
with_events s = let (hub', sub) = subscribe s.hub in record s { hub = hub'; events = sub.ch }

unfoldable pub new : String → Slice EventType → List Setting → Option Subscriber
unfolding apply_all subscribe
new host types opts = apply_all opts (defaults host types) >>= λ s. some (with_events s)

unfoldable pub url : Subscriber → String
url s = join s.scheme (join "://" (join s.host "/subscribe"))
