-- ===== src/Handler.antt =====
-- web/handler/subscription.go and web/handler/query.go: the dashboard's API. What encoding/json finds
-- in a request's body is an argument, and so are the networks that the client's calls meet.
pub mod Checks
pub mod Queries
pub mod Tests
use klever_subscriber.Base.{
  ℕ, zero, suc, ◌+◌, String, Bool, true, false, not, ◌&&◌, ◌||◌, List, [], ◌∷◌, Option, none, some,
  ◌==◌, string_eq, eqb, ltb, if◌then◌else◌,
}
use klever_subscriber.Event.{EventType, valid_event_types}
use klever_subscriber.Request.{
  Slice, elems, GetBlockParams, Requests, Result, ok, err, SendError, Network, get_transaction,
  get_block,
}
use klever_subscriber.Subscriber.{Subscriber}
use klever_subscriber.Subscription.{reconfigure, add_subscriptions, remove_subscriptions}

pub record SubscriptionPayload : Type 0 where
  pub types : Slice EventType
  pub addresses : Slice String

pub record GetTransactionRequest : Type 0 where
  pub hash : String
  pub with_results : Bool

-- What `decodeJSON` finds: no value, a value with something after it, or a value alone.
pub data Body {ℓ} (P : Type ℓ) : Type ℓ where
  malformed : String → Body P
  trailing : Body P
  decoded : P → Body P

pub record HttpRequest {ℓ} (P : Type ℓ) : Type ℓ where
  pub method : String
  pub body : Body P

pub data Invalid : Type 0 where
  unknown_type : EventType → Invalid
  bad_address : String → Invalid

-- The message of an error.
pub data Complaint : Type 0 where
  method_not_allowed : Complaint
  invalid_json : String → Complaint
  trailing_data : Complaint
  invalid : Invalid → Complaint
  hash_required : Complaint
  nonce_or_hash_required : Complaint
  upstream : SendError → Complaint

-- An error with its status, or what is encoded.
pub data Answer : Type 0 where
  failed : ℕ → Complaint → Answer
  subscription : SubscriptionPayload → Answer
  bytes : String → Answer

-- `notified` counts the calls of `onChange`; `on_change` tells whether it is set.
pub record Handler : Type 0 where
  pub sub : Subscriber
  pub on_change : Bool
  pub notified : ℕ

-- `len(addr)`: a string lists its bytes.
unfoldable pub size : String → ℕ
size String.[] = 0
size (String.◌∷◌ c s) = suc (size s)

unfoldable pub first_unknown : List EventType → Option Invalid
unfolding valid_event_types
first_unknown [] = none
first_unknown (t ∷ types) =
    let rest = first_unknown types in
    if not (valid_event_types t) then some (unknown_type t) else rest

unfoldable pub first_bad : List String → Option Invalid
unfolding size
first_bad [] = none
first_bad (addr ∷ addresses) =
    let rest = first_bad addresses in
    if eqb (size addr) 0 || ltb 128 (size addr) then some (bad_address addr) else rest

-- `validatePayload`; `none` is nil.
unfoldable pub validate_payload : SubscriptionPayload → Option Invalid
unfolding first_unknown first_bad
validate_payload req = elim (first_unknown (elems req.types)) [
  | some e ↦ some e
  | none ↦ first_bad (elems req.addresses)
]

unfoldable pub notify : Handler → Handler
notify h = if h.on_change then record h { notified = h.notified + 1 } else h

-- `h.sub.Types()` and `h.sub.Addresses()`, which are never nil.
abbrev pub current : Handler → Answer
current h = subscription (record { types = some h.sub.types; addresses = some h.sub.addresses })

-- `if !decodeJSON(w, r, &req) { return }`
abbrev pub decode {ℓ} : {P : Type ℓ} → Body P → Handler → (P → Handler × Answer) → Handler × Answer
decode (malformed e) h next = (h, failed 400 (invalid_json e))
decode trailing h next = (h, failed 400 trailing_data)
decode (decoded req) h next = next req

-- `if err := validatePayload(req); err != nil { …; return }`
abbrev pub validate : Option Invalid → Handler → (Handler × Answer) → Handler × Answer
validate (some e) h next = (h, failed 400 (invalid e))
validate none h next = next

unfoldable pub handle_subscription :
    (ℕ → Network) → Handler → HttpRequest SubscriptionPayload → Handler × Answer
unfolding validate_payload reconfigure notify
handle_subscription net h r =
    if r.method == "GET"
    then (h, current h)
    else if r.method == "POST"
    then decode r.body h (λ req. validate (validate_payload req) h (
      notify (record h { sub = reconfigure net h.sub (elems req.types) req.addresses }),
      subscription req,
    ))
    else (h, failed 405 method_not_allowed)

-- What follows `AddSubscriptions` and `RemoveSubscriptions`.
abbrev pub changed : Handler → Subscriber × Option SendError → Handler × Answer
changed h (sub, some e) = (record h { sub = sub }, failed 502 (upstream e))
changed h (sub, none) = let h' = notify (record h { sub = sub }) in (h', current h')

unfoldable pub handle_dynamic_subscribe :
    Network → Handler → HttpRequest SubscriptionPayload → Handler × Answer
unfolding validate_payload add_subscriptions notify
handle_dynamic_subscribe net h r =
    if not (r.method == "POST")
    then (h, failed 405 method_not_allowed)
    else decode r.body h (λ req.
      validate (validate_payload req) h
        (changed h (add_subscriptions net h.sub (elems req.types) req.addresses)))

unfoldable pub handle_dynamic_unsubscribe :
    Network → Handler → HttpRequest SubscriptionPayload → Handler × Answer
unfolding validate_payload remove_subscriptions notify
handle_dynamic_unsubscribe net h r =
    if not (r.method == "POST")
    then (h, failed 405 method_not_allowed)
    else decode r.body h (λ req.
      validate (validate_payload req) h
        (changed h (remove_subscriptions net h.sub (elems req.types) req.addresses)))

-- What follows `GetTransaction` and `GetBlock`.
abbrev pub fetched : Handler → Requests × Result String → Handler × Answer
fetched h (requests, ok data') =
    (record h { sub = record h.sub { requests = requests } }, bytes data')
fetched h (requests, err e) =
    (record h { sub = record h.sub { requests = requests } }, failed 502 (upstream e))

unfoldable pub handle_get_transaction :
    Network → Handler → HttpRequest GetTransactionRequest → Handler × Answer
unfolding get_transaction
handle_get_transaction net h r =
    if not (r.method == "POST")
    then (h, failed 405 method_not_allowed)
    else decode r.body h (λ req.
      if req.hash == ""
      then (h, failed 400 hash_required)
      else fetched h (get_transaction net h.sub.requests req.hash req.with_results))

-- `req.Nonce == nil`
abbrev pub is_nil : Option ℕ → Bool
is_nil none = true
is_nil (some n) = false

unfoldable pub handle_get_block : Network → Handler → HttpRequest GetBlockParams → Handler × Answer
unfolding get_block
handle_get_block net h r =
    if not (r.method == "POST")
    then (h, failed 405 method_not_allowed)
    else decode r.body h (λ req.
      if is_nil req.nonce && req.hash == ""
      then (h, failed 400 nonce_or_hash_required)
      else fetched h (get_block net h.sub.requests req))
