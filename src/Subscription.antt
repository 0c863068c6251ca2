-- ===== src/Subscription.antt =====
-- subscriber/subscription.go: changing the subscriptions of a running client. The operations hold
-- `reconfigureMu`, so that nothing else changes the types and addresses while they run.
pub mod Paths
pub mod Holdings
pub mod Outcomes
pub mod Node
pub mod Tests
use klever_subscriber.Base.{
  ℕ, zero, suc, String, Bool, true, false, not, ◌&&◌, ◌||◌, List, [], ◌∷◌, Option, none, some,
  if◌then◌else◌,
}
use klever_subscriber.Event.{EventType}
use klever_subscriber.Sets.{
  merge_types, merge_strings, remove_types, remove_strings, diff_types, diff_strings,
}
use klever_subscriber.Request.{
  Slice, elems, Params, types_and_addresses, only_types, only_addresses, Response, Result, ok, err,
  SendError, not_connected, write_failed, context_done, request_failed, Network, send_request,
}
use klever_subscriber.Subscriber.{Subscriber}

-- `len(xs) > 0`
abbrev pub is_some_list {ℓ} : {A : Type ℓ} → List A → Bool
is_some_list [] = false
is_some_list (x ∷ xs) = true

abbrev pub is_ok {ℓ} : {A : Type ℓ} → Result A → Bool
is_ok (ok a) = true
is_ok (err e) = false

unfoldable pub send : Network → Subscriber → String → Params → Subscriber × Result Response
send net s method params =
    let (requests', result) = send_request net s.requests method params in
    (record s { requests = requests' }, result)

-- `if ok && needed { if _, err := s.sendRequest(…); err != nil { ok = false } }`
unfoldable pub send_if : Bool → Network → String → Params → Subscriber × Bool → Subscriber × Bool
send_if needed net method params (s, success) =
    if success && needed
    then (let (s', result) = send net s method params in (s', is_ok result))
    else (s, success)

-- The requests of the fast path; the calls of `sendRequest` meet the networks 0, 1 and 2.
unfoldable pub send_changes :
    (ℕ → Network) → Subscriber → List EventType → Slice String → Subscriber × Bool
send_changes net s types addresses =
    let add_t = diff_types types s.types in
    let remove_t = diff_types s.types types in
    let add_a = diff_strings (elems addresses) s.addresses in
    let remove_a = diff_strings s.addresses (elems addresses) in
    send_if (is_some_list remove_t) (net 2) "unsubscribe" (only_types remove_t) (
      send_if (is_some_list remove_a) (net 1) "unsubscribe" (only_addresses remove_a) (
        send_if (is_some_list add_t || is_some_list add_a) (net 0) "subscribe"
          (types_and_addresses types addresses) (s, true)))

abbrev pub assign : Subscriber → List EventType → List String → Subscriber
assign s types addresses = record s { types = types; addresses = addresses }

-- `if cancel != nil { cancel() }`
abbrev pub cancel : Subscriber → Option ℕ → Subscriber
cancel s none = s
cancel s (some c) = record s { cancelled = c ∷ s.cancelled }

-- The bounce: the connection's context is cancelled, and a token is left for `Start`.
unfoldable pub bounce : Subscriber → Subscriber
bounce s = let s' = cancel s s.conn_cancel in record s' { reconnect_ch = true }

unfoldable pub reconfigure : (ℕ → Network) → Subscriber → List EventType → Slice String → Subscriber
reconfigure net s types addresses =
    let (s', success) = send_changes net s types addresses in
    if s.connected
    then (if success
        then assign s' types (elems addresses)
        else bounce (assign s' types (elems addresses)))
    else bounce (assign s types (elems addresses))

-- `errors.Is(err, ErrNotConnected)`
abbrev pub is_not_connected : SendError → Bool
is_not_connected not_connected = true
is_not_connected (write_failed e) = false
is_not_connected (context_done e) = false
is_not_connected (request_failed e) = false

abbrev pub merged : Subscriber → List EventType → List String → Subscriber
merged s types addresses =
    assign s (merge_types s.types types) (merge_strings s.addresses addresses)

abbrev pub removed : Subscriber → List EventType → List String → Subscriber
removed s types addresses =
    assign s (remove_types s.types types) (remove_strings s.addresses addresses)

-- What follows the call in `AddSubscriptions`; the error is `none` for nil.
abbrev pub added :
    Subscriber × Result Response → List EventType → List String → Subscriber × Option SendError
added (s, ok resp) types addresses = (merged s types addresses, none)
added (s, err e) types addresses =
    if is_not_connected e then (bounce (merged s types addresses), none) else (s, some e)

unfoldable pub add_subscriptions :
    Network → Subscriber → List EventType → Slice String → Subscriber × Option SendError
add_subscriptions net s types addresses =
    added (send net s "subscribe" (types_and_addresses types (some (elems addresses)))) types
      (elems addresses)

abbrev pub dropped :
    Subscriber × Result Response → List EventType → List String → Subscriber × Option SendError
dropped (s, ok resp) types addresses = (removed s types addresses, none)
dropped (s, err e) types addresses =
    if is_not_connected e then (removed s types addresses, none) else (s, some e)

unfoldable pub remove_subscriptions :
    Network → Subscriber → List EventType → Slice String → Subscriber × Option SendError
remove_subscriptions net s types addresses =
    dropped (send net s "unsubscribe" (types_and_addresses types (some (elems addresses)))) types
      (elems addresses)
