-- ===== src/Broker/Tests.antt =====
-- Runs of the broker.
use klever_subscriber.Broker.{Payload, new}
use klever_subscriber.Broker.Wire.{codes, is_one_line, body}
use klever_subscriber.Broker.Wire.Source.{messages}
use mathlib.Core.List.{Sublistᴰ}
use klever_subscriber.Base.{none, map}
use klever_subscriber.Broker.Sse.{serving}
use klever_subscriber.Broker.Sse.Order.{broadcasted}
use klever_subscriber.Broker.Wire.Dispatch.{message_of}
use klever_subscriber.Broker.Wire.Pages.{pages_follow_broadcasts}
use klever_subscriber.Base.{
  ℕ, ◌≡◌, refl, ◌≤◌, true, false, List, [], ◌∷◌, some, arith, contains, zero, suc, nat_eq,
}
use klever_subscriber.Event.{Event, null}
use klever_subscriber.Chan.{new_chan}
use klever_subscriber.Chan.Laws.{IsOpenAt}
use klever_subscriber.Broker.{Broker, SseFrame, of_subscription, no_counts, process_events}
use klever_subscriber.Broker.Counts.{Tallied}
use klever_subscriber.Broker.Fanout.{IsLive, types_onto, process_events-Tallied}
use klever_subscriber.Broker.Sse.{Turn, System, Action, arrives, turns, broadcasts, run}
use klever_subscriber.Broker.Sse.Counts.{count, is_served, is_counted}
use klever_subscriber.Broker.Sse.Limit.{started, sse_limit}
use klever_subscriber.Base.{get_elem?, inr, false}
use klever_subscriber.Broker.Sse.{Stage, arrived, act}
use klever_subscriber.Broker.Sse.Return.{has_returned, sse_returns}
use klever_subscriber.Broker.Stats.{StatsLoop, Tick}

abbrev frame : SseFrame
frame = record { event = "subscription"; payload = of_subscription ("blocks" ∷ []) [] }

abbrev turn : Turn
turn = record { flusher = true; done = false; connected = true; now = 100 }

abbrev last_turn : Turn
last_turn = record { flusher = true; done = true; connected = true; now = 101 }

-- Two requests at a limit of one: the second is turned away.
abbrev requests : List Action
requests =
    arrives
    ∷ arrives
    ∷ turns 0 turn
    ∷ turns 1 turn
    ∷ turns 0 turn
    ∷ turns 1 turn
    ∷ broadcasts frame
    ∷ turns 0 turn
    ∷ turns 0 last_turn
    ∷ turns 0 turn
    ∷ []

sse_limit_example :
    (s : System) × (run (started 1 "ws://node/subscribe") requests ≡ some s)
    × (s.broker.sse_count ≡ count is_counted s.requests)
    × (count is_served s.requests ≤ 1)
sse_limit_example = sse_limit 1 "ws://node/subscribe" requests

-- A broker with one dashboard.
abbrev one : Broker
one = record {
  max_clients = 10;
  url = "ws://node/subscribe";
  frames = new_chan 256 ∷ [];
  clients = 0 ∷ [];
  counters = no_counts;
  ring = record { rate_buckets = 0 ∷ 0 ∷ 0 ∷ 0 ∷ 0 ∷ 0 ∷ 0 ∷ 0 ∷ 0 ∷ 0 ∷ []; rate_anchor = 0 };
  sse_count = 1;
}

one-IsLive : IsLive one.frames one.clients
one-IsLive = record { distinct = (refl, tt); opened = λ c m. at_0 c m }
  where
    at_0 : (c : ℕ) → contains one.clients c ≡ true → IsOpenAt one.frames c
    at_0 zero m = (new_chan 256, refl, refl)
    at_0 (suc c) m = absurd (ground arith)

nothing_counted : Tallied [] no_counts
nothing_counted = record {
  all = refl;
  of_blocks = refl;
  of_txs = refl;
  of_user_txs = refl;
  of_accounts = refl;
  of_others = refl;
}

abbrev evts : List (Event × ℕ)
evts =
    (record { type = "blocks"; address = ""; hash = ""; payload = null; raw = "" }, 100)
    ∷ (record { type = "custom"; address = ""; hash = ""; payload = null; raw = "" }, 101)
    ∷ []

process_events-Tallied_example :
    (b : Broker) × (process_events one evts ≡ some b)
    × Tallied (types_onto evts []) b.counters
    × IsLive b.frames b.clients
process_events-Tallied_example = process_events-Tallied one evts [] one-IsLive nothing_counted

abbrev just_arrived : System
just_arrived = record (started 1 "ws://node/subscribe") { requests = arrived ∷ [] }

has_arrived : run (started 1 "ws://node/subscribe") (arrives ∷ []) ≡ some just_arrived
unfolding run act
has_arrived = refl

abbrev last_turns : List Action
last_turns =
    turns 0 last_turn
    ∷ turns 0 last_turn
    ∷ broadcasts frame
    ∷ turns 0 last_turn
    ∷ turns 0 last_turn
    ∷ turns 0 last_turn
    ∷ []

sse_returns_example :
    (s' : System) × (run just_arrived last_turns ≡ some s')
    × ((stage' : Stage) × (get_elem? s'.requests 0 ≡ some stage') × (has_returned stage' ≡ true))
sse_returns_example =
    sse_returns 1 "ws://node/subscribe" (arrives ∷ []) last_turns just_arrived 0 arrived has_arrived
      refl (inr refl, (inr refl, (tt, (inr refl, (inr refl, (inr refl, tt)))))) (omega arith)

abbrev pushed : StatsLoop
pushed = record { broker = one; last_connected = true; last_push = some 1000 }

abbrev gone : Tick
gone = record { now = 1001; connected = false; connected_then = false; unix = 100 }

abbrev braces : Payload → List ℕ
braces p = codes "{}"

-- A request is let in, writes the statistics, and then a frame that is broadcast.
abbrev one_page : List Action
one_page =
    arrives ∷ turns 0 turn ∷ turns 0 turn ∷ turns 0 turn ∷ broadcasts frame ∷ turns 0 turn ∷ []

abbrev paged : System
paged = elim (run (started 1 "ws://node/subscribe") one_page) [
  | none ↦ started 1 "ws://node/subscribe"
  | some s ↦ s
]

abbrev written_of : Stage → List SseFrame
written_of (serving c written) = written
written_of _ = []

abbrev page : List SseFrame
page = elim (get_elem? paged.requests 0) [ none ↦ [] | some stage ↦ written_of stage ]

page_runs :
    (run (started 1 "ws://node/subscribe") one_page ≡ some paged)
    × (get_elem? paged.requests 0 ≡ some (serving 0 page))
unfolding run act new
page_runs = (refl, refl)

pages_follow_broadcasts_example :
    (stats : SseFrame) × (later : List SseFrame) × (stats.event ≡ "stats")
    × Sublistᴰ later (broadcasted one_page)
    × (messages (body braces page) ≡ message_of braces stats ∷ map (message_of braces) later)
unfolding is_one_line codes broadcasted
pages_follow_broadcasts_example =
    pages_follow_broadcasts braces 1 "ws://node/subscribe" one_page paged 0 0 page (λ p. refl)
      (refl, tt) page_runs.0 page_runs.1

dispatched_run :
    messages (body braces (frame ∷ []))
    ≡ record { type = codes "subscription"; data' = codes "{}" } ∷ []
unfolding messages body codes
dispatched_run = refl
