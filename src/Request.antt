-- ===== src/Request.antt =====
-- subscriber/request.go and subscriber/query.go: requests to the node and the replies to them.
-- `sendRequest` waits while other goroutines act on what it shares; what they do meanwhile, and what
-- the network and the context do, is an argument.
pub mod Pending
pub mod Reply
pub mod Outcome
pub mod Sent
pub mod Known
pub mod Tests
use klever_subscriber.Base.{
  ℕ, zero, suc, ◌+◌, ◌%◌, ◌^◌, String, Bool, true, false, List, [], ◌∷◌, ◌++◌, Option, none, some,
  ◌>>=◌, ◌==◌, string_eq, if◌then◌else◌,
}
use klever_subscriber.Chan.{Heap, make_chan, offer, receive, Received, got, drained, waits}
use klever_subscriber.Decimal.{format_int}
use klever_subscriber.Rate.{u64}

-- A slice of Go that may be nil, which `json.Marshal` tells from an empty one.
abbrev pub Slice {ℓ} : Type ℓ → Type ℓ
Slice A = Option (List A)

abbrev pub elems {ℓ} : {A : Type ℓ} → Slice A → List A
elems none = []
elems (some xs) = xs

pub record GetBlockParams : Type 0 where
  pub nonce : Option ℕ
  pub hash : String
  pub with_txs : Bool

-- What the program passes for `params`: the maps that it builds, and `GetBlockParams`.
pub data Params : Type 0 where
  types_and_addresses : List String → Slice String → Params
  only_types : List String → Params
  only_addresses : List String → Params
  transaction : String → Bool → Params
  block : GetBlockParams → Params

pub record Request : Type 0 where
  pub id : String
  pub method : String
  pub params : Params

-- `data` is raw JSON.
pub record Response : Type 0 where
  pub id : String
  pub content : String
  pub error : String

-- The errors that `sendRequest` returns. The params above can always be marshalled.
pub data SendError : Type 0 where
  not_connected : SendError
  write_failed : String → SendError
  context_done : String → SendError
  request_failed : String → SendError

pub data Result {ℓ} (A : Type ℓ) : Type ℓ where
  ok : A → Result A
  err : SendError → Result A

-- `map[string]chan *Response`, with the entries in the order of insertion.
module _ {ℓ} {V : Type ℓ} where
  unfoldable pub lookup : String → List (String × V) → Option V
  lookup k [] = none
  lookup k ((j, v) ∷ m) = let rest = lookup k m in if j == k then some v else rest

  unfoldable pub assign : String → V → List (String × V) → List (String × V)
  assign k v [] = (k, v) ∷ []
  assign k v ((j, w) ∷ m) = if j == k then (k, v) ∷ m else (j, w) ∷ assign k v m

  unfoldable pub delete : String → List (String × V) → List (String × V)
  delete k [] = []
  delete k ((j, v) ∷ m) = (if j == k then [] else (j, v) ∷ []) ++ delete k m

-- The fields of `Subscriber` that requests use. `sent` lists the requests that the connection took,
-- the last first; `next_id` is the bit pattern of an `int64`. No code closes a reply channel.
pub record Requests : Type 0 where
  pub next_id : ℕ
  pub pending : List (String × ℕ)
  pub replies : Heap Response
  pub sent : List Request

abbrev pub no_requests : Requests
no_requests = record { next_id = 0; pending = []; replies = []; sent = [] }

-- The new id, with the reply channel that is pending under it.
unfoldable pub register : Requests → Requests × String × ℕ
unfolding format_int make_chan assign
register s =
    let next = u64 (s.next_id + 1) in
    let id = format_int next in
    let (replies', ch) = make_chan 1 s.replies in
    (record s { next_id = next; pending = assign id ch s.pending; replies = replies' }, id, ch)

-- The deferred `delete(s.pending, id)`.
unfoldable pub retire : Requests → String → Requests
unfolding delete
retire s id = record s { pending = delete id s.pending }

unfoldable pub route_response : Requests → Response → Requests
unfolding lookup offer
route_response s resp = elim (lookup resp.id s.pending) [
  | none ↦ s
  | some ch ↦ record s { replies = offer resp s.replies ch }
]

abbrev pub connection_closed : String → Response
connection_closed id = record { id = id; content = ""; error = "connection closed" }

-- The loop of `failAllPending`.
unfoldable pub fail_each : List (String × ℕ) → Heap Response → Heap Response
unfolding offer
fail_each [] replies = replies
fail_each ((id, ch) ∷ pending) replies = fail_each pending (offer (connection_closed id) replies ch)

unfoldable pub fail_all_pending : Requests → Requests
unfolding fail_each
fail_all_pending s = record s { replies = fail_each s.pending s.replies; pending = [] }

-- What other goroutines do to what a waiting request shares.
pub data Other : Type 0 where
  routes : Response → Other
  fails_all : Other
  registers : Other
  retires : String → Other

unfoldable pub by_other : Requests → Other → Requests
unfolding route_response fail_all_pending register retire
by_other s (routes resp) = route_response s resp
by_other s fails_all = fail_all_pending s
by_other s registers = (register s).0
by_other s (retires id) = retire s id

unfoldable pub by_others : Requests → List Other → Requests
unfolding by_other
by_others s [] = s
by_others s (o ∷ os) = by_others (by_other s o) os

-- One call's surroundings. `connected` tells whether there is an active connection, and
-- `write_error` what its `WriteMessage` returns. The wait ends by a reply that has come, or by the
-- context, with the error `ctx_error`; if both are there `select` takes either: `ctx_first`.
pub record Network : Type 0 where
  pub connected : Bool
  pub write_error : Option String
  pub meanwhile : List Other
  pub ctx_first : Bool
  pub ctx_error : String

-- `writeMessage` (connection.go)
unfoldable pub write_message : Network → Option SendError
write_message net =
    if net.connected then (net.write_error >>= λ e. some (write_failed e)) else some not_connected

abbrev pub accept : Response → Result Response
accept resp = if resp.error == "" then ok resp else err (request_failed resp.error)

abbrev pub taken_or : Received Response → String → Result Response
taken_or (got resp) ctx_error = accept resp
taken_or drained ctx_error = err (context_done ctx_error)
taken_or waits ctx_error = err (context_done ctx_error)

-- `sendRequest` from the write on, with its deferred `delete`.
unfoldable pub exchange : Network → Requests → ℕ → Request → Requests × Result Response
unfolding write_message by_others receive retire
exchange net s ch request = elim (write_message net) [
  | some e ↦ (retire s request.id, err e)
  | none ↦
      let s' = by_others (record s { sent = request ∷ s.sent }) net.meanwhile in
      if net.ctx_first
      then (retire s' request.id, err (context_done net.ctx_error))
      else (let (replies', r) = receive s'.replies ch in
          (retire (record s' { replies = replies' }) request.id, taken_or r net.ctx_error))
]

unfoldable pub send_request : Network → Requests → String → Params → Requests × Result Response
unfolding register exchange
send_request net s method params =
    let (s', id, ch) = register s in
    exchange net s' ch (record { id = id; method = method; params = params })

-- `resp.Data`, or the error.
abbrev pub content_of : Requests × Result Response → Requests × Result String
content_of (s, ok resp) = (s, ok resp.content)
content_of (s, err e) = (s, err e)

unfoldable pub get_transaction : Network → Requests → String → Bool → Requests × Result String
unfolding send_request
get_transaction net s hash with_results =
    content_of (send_request net s "get_transaction" (transaction hash with_results))

unfoldable pub get_block : Network → Requests → GetBlockParams → Requests × Result String
unfolding send_request
get_block net s params = content_of (send_request net s "get_block" (block params))
