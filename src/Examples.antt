-- ===== src/Examples.antt =====
-- examples/query, examples/stream and examples/reconnect: three small programs that use the client.
-- What `os.Getenv` returns, the flags, the contexts and the networks are arguments.
pub mod Query
pub mod Streams
pub mod Tests
use Prim.Native.String.{◌++◌ as join}
use klever_subscriber.Base.{
  ℕ, ◌*◌, String, Bool, true, false, not, ◌&&◌, List, [], ◌∷◌, Option, none, some, ◌>>=◌, ◌==◌,
  string_eq, eqb, map, if◌then◌else◌,
}
use klever_subscriber.Event.{EventType, Event, event_blocks, event_transactions}
use klever_subscriber.Request.{
  Requests, no_requests, Result, ok, err, SendError, Network, get_transaction, get_block,
}
use klever_subscriber.Subscriber.{
  Subscriber, Setting, with_scheme, with_query_only, with_on_connect, with_on_disconnect,
  with_on_error, with_reconnect_interval, new, url, second,
}

-- `os.Getenv`, which is empty for a variable that is not set.
abbrev pub Environment : Type 0
Environment = String → String

abbrev pub env_or : Environment → String → String → String
env_or env key fallback = if not (env key == "") then env key else fallback

abbrev pub node_host : Environment → String
node_host env = env_or env "KLEVER_NODE" "localhost:8080"

abbrev pub node_scheme : Environment → String
node_scheme env = if not (env "KLEVER_WSS" == "") then "wss" else "ws"

-- examples/query: the flags. A flag that is not given is empty, or 0.
pub record QueryFlags : Type 0 where
  pub tx_hash : String
  pub block_nonce : ℕ
  pub with_results : Bool

-- How it ends: with the status 2, with 1 and an error, or with the line that it prints.
pub data QueryEnd : Type 0 where
  usage : QueryEnd
  connect_timeout : String → QueryEnd
  query_failed : SendError → QueryEnd
  prints : String → QueryEnd

abbrev pub query_settings : Environment → List Setting
query_settings env =
    with_scheme (node_scheme env) ∷ with_query_only ∷ with_on_connect true ∷ with_on_error true ∷ []

unfoldable pub query_node : QueryFlags → Network → Requests → Requests × Result String
unfolding get_transaction get_block
query_node flags net s =
    if not (flags.tx_hash == "")
    then get_transaction net s flags.tx_hash flags.with_results
    else get_block net s (record { nonce = some flags.block_nonce; hash = ""; with_txs = false })

abbrev pub query_end : Requests × Result String → Requests × QueryEnd
query_end (s, ok content) = (s, prints content)
query_end (s, err e) = (s, query_failed e)

-- The `select` after `go sub.Start(ctx)`: an error is that of the context.
abbrev pub after_connect : Option String → Requests → Requests × QueryEnd → Requests × QueryEnd
after_connect none s next = next
after_connect (some e) s next = (s, connect_timeout e)

-- The requests of the client at the end, and how the program ends; `none` is a panic of `New`.
unfoldable pub query_main :
    Environment → QueryFlags → Option String → Network → Option (Requests × QueryEnd)
unfolding new query_node
query_main env flags timeout net =
    let asked = new (node_host env) none (query_settings env) >>= λ sub.
    some (after_connect timeout sub.requests (query_end (query_node flags net sub.requests))) in
    if flags.tx_hash == "" && eqb flags.block_nonce 0 then some (no_requests, usage) else asked

-- The line that tells where the events come from.
unfoldable pub streaming_from : Subscriber → String
unfolding url
streaming_from sub = join "streaming from " (join (url sub) " — press Ctrl+C to exit")

-- examples/stream: the client, and that line.
unfoldable pub stream_main : Environment → Option (Subscriber × String)
unfolding new streaming_from
stream_main env =
    new (node_host env) (some (event_blocks ∷ event_transactions ∷ []))
      (with_scheme (node_scheme env) ∷ [])
    >>= λ sub. some (sub, streaming_from sub)

-- examples/reconnect: the client.
unfoldable pub reconnect_main : Environment → Option Subscriber
unfolding new
reconnect_main env = new (node_host env) (some (event_blocks ∷ [])) (
    with_scheme (node_scheme env)
    ∷ with_reconnect_interval (2 * second)
    ∷ with_on_connect true
    ∷ with_on_disconnect true
    ∷ with_on_error true
    ∷ [])

-- `for evt := range sub.Events() { fmt.Println(evt.Type) }` of both, for the events received.
unfoldable pub print_types : List Event → List EventType
print_types [] = []
print_types (evt ∷ evts) = evt.type ∷ print_types evts
