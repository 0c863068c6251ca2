-- ===== src/Broker/Sse.antt =====
-- web/broker/broker.go: `HandleSSE`, one goroutine for each request, which takes turns with the
-- others and with the broadcasts. A turn is what the goroutine does up to its next access to what
-- it shares: `sseCount`, the map of clients, its channel, the ring.
pub mod Counts
pub mod Live
pub mod Limit
pub mod Return
pub mod Order
use klever_subscriber.Base.{
  ℕ, zero, suc, ◌+◌, ◌-◌, String, Bool, true, false, not, ◌&&◌, List, [], ◌∷◌, ◌++◌, Option, none,
  some, ◌>>=◌, ◌==◌, nat_eq, ltb, get_elem?, set, if◌then◌else◌,
}
use klever_subscriber.Chan.{make_chan, receive, Received, got, drained, waits}
use klever_subscriber.Event.{Event, EventType}
use klever_subscriber.Broker.{
  Broker, SseFrame, Payload, of_stats, new, snapshot, broadcast, process_event,
  broadcast_subscription,
}

-- Where a goroutine of `HandleSSE` stands. `written` holds the frames written, the last first.
pub data Stage : Type 0 where
  arrived : Stage
  too_many : Stage
  no_flusher : Stage
  admitted : Stage
  registered : ℕ → Stage
  serving : ℕ → List SseFrame → Stage
  leaving : ℕ → Stage
  refused : ℕ → Stage
  finished : Stage

-- What the environment decides in a turn: whether the writer can flush, whether the `select`
-- takes the branch of the done context, what `isConnected` returns, and the second.
pub record Turn : Type 0 where
  pub flusher : Bool
  pub done : Bool
  pub connected : Bool
  pub now : ℕ

-- `delete(b.clients, c)`
unfoldable pub delete_client : List ℕ → ℕ → List ℕ
delete_client [] c = []
delete_client (d ∷ clients) c = (if d == c then [] else d ∷ []) ++ delete_client clients c

abbrev pub write_received : ℕ → List SseFrame → Received SseFrame → Stage
write_received c written (got f) = serving c (f ∷ written)
write_received c written drained = leaving c
write_received c written waits = serving c written

abbrev pub closes_stream : Received SseFrame → Bool
closes_stream drained = true
closes_stream (got f) = false
closes_stream waits = false

abbrev pub release : Broker → Broker
release b = record b { sse_count = b.sse_count - 1 }

unfoldable pub handle_sse : Broker → Stage → Turn → Broker × Stage
unfolding make_chan receive snapshot delete_client
handle_sse b arrived t = (
  record b { sse_count = b.sse_count + 1 },
  if ltb b.max_clients (b.sse_count + 1)
      then too_many
      else if t.flusher
      then admitted
      else no_flusher,
)
handle_sse b too_many t = (release b, refused 503)
handle_sse b no_flusher t = (release b, refused 500)
handle_sse b admitted t =
    let (frames', c) = make_chan 256 b.frames in
    (record b { frames = frames'; clients = b.clients ++ c ∷ [] }, registered c)
handle_sse b (registered c) t =
    let (b', stats) = snapshot b t.connected t.now in
    (b', serving c (record { event = "stats"; payload = of_stats stats } ∷ []))
handle_sse b (serving c written) t =
    if t.done
    then (release b, leaving c)
    else (let (frames', r) = receive b.frames c in
        (
          (if closes_stream r then release b else record b { frames = frames' }),
          write_received c written r,
        ))
handle_sse b (leaving c) t = (record b { clients = delete_client b.clients c }, finished)
handle_sse b (refused status) t = (b, refused status)
handle_sse b finished t = (b, finished)

pub record System : Type 0 where
  pub broker : Broker
  pub requests : List Stage

-- A request arrives, a request's goroutine takes a turn, or a frame is broadcast.
pub data Action : Type 0 where
  arrives : Action
  turns : ℕ → Turn → Action
  broadcasts : SseFrame → Action

unfoldable pub act : System → Action → Option System
unfolding handle_sse broadcast
act s arrives = some (record s { requests = s.requests ++ arrived ∷ [] })
act s (turns k t) = elim (get_elem? s.requests k) [
  | none ↦ some s
  | some stage ↦
      let (b, stage') = handle_sse s.broker stage t in
      some (record { broker = b; requests = set s.requests k stage' })
]
act s (broadcasts f) = broadcast s.broker f >>= λ b. some (record s { broker = b })

unfoldable pub run : System → List Action → Option System
unfolding act
run s [] = some s
run s (a ∷ as') = act s a >>= λ s'. run s' as'
