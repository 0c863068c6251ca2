-- ===== src/Broker.antt =====
-- web/broker/broker.go and web/broker/stats.go: counters, frames to the dashboards, statistics.
-- A frame carries the value that `json.Marshal` writes out; marshalling these values cannot fail.
pub mod Counts
pub mod Fanout
pub mod Sse
pub mod Stats
pub mod Wire
pub mod Tests
use klever_subscriber.Base.{
  ℕ, zero, suc, ◌+◌, ◌-◌, ◌/◌, ◌%◌, String, Bool, true, false, not, ◌&&◌, ◌||◌, List, [], ◌∷◌, ◌++◌,
  Option, none, some, ◌>>=◌, ◌==◌, string_eq, nat_eq, leb, ltb, eqb, if◌then◌else◌,
}
use klever_subscriber.Event.{
  EventType, event_blocks, event_transactions, event_user_transactions, event_accounts, Event,
}
use klever_subscriber.Chan.{Heap, make_chan, send_or_skip, for_each}
use klever_subscriber.Rate.{Ring, u64, new_ring, bump_rate, rate_snapshot}

-- The atomic counters.
pub record Counters : Type 0 where
  pub total : ℕ
  pub blocks : ℕ
  pub txs : ℕ
  pub user_txs : ℕ
  pub accounts : ℕ
  pub other_count : ℕ

abbrev pub no_counts : Counters
no_counts = record { total = 0; blocks = 0; txs = 0; user_txs = 0; accounts = 0; other_count = 0 }

-- `Add(1)` on a `Uint64`
abbrev pub bump : ℕ → ℕ
bump n = u64 (n + 1)

-- The `switch` of `recordEvent`.
unfoldable pub count_type : Counters → EventType → Counters
count_type c t =
    if t == event_blocks
    then record c { blocks = bump c.blocks }
    else if t == event_transactions
    then record c { txs = bump c.txs }
    else if t == event_user_transactions
    then record c { user_txs = bump c.user_txs }
    else if t == event_accounts
    then record c { accounts = bump c.accounts }
    else record c { other_count = bump c.other_count }

-- `EventsPerSec` is `rate_count / 10` as a float; the quotient is left to the reader of the frame.
pub record StatsSnapshot : Type 0 where
  pub connected : Bool
  pub total : ℕ
  pub counts : List (EventType × ℕ)
  pub rate_count : ℕ
  pub url : String

pub data Payload : Type 0 where
  of_event : Event → Payload
  of_stats : StatsSnapshot → Payload
  of_subscription : List EventType → List String → Payload

pub record SseFrame : Type 0 where
  pub event : String
  pub payload : Payload

-- `clients` lists the channels of the connected dashboards; the map that holds them has no order.
-- A change of `sse_count` is atomic.
pub record Broker : Type 0 where
  pub max_clients : ℕ
  pub url : String
  pub frames : Heap SseFrame
  pub clients : List ℕ
  pub counters : Counters
  pub ring : Ring
  pub sse_count : ℕ

unfoldable pub new : ℕ → String → Broker
unfolding new_ring
new max_clients url = record {
  max_clients = max_clients;
  url = url;
  frames = [];
  clients = [];
  counters = no_counts;
  ring = new_ring;
  sse_count = 0;
}

-- `recordEvent`, at the second `now`.
unfoldable pub record_event : Broker → EventType → ℕ → Broker
unfolding count_type bump_rate
record_event b t now = record b {
  counters = count_type (record b.counters { total = bump b.counters.total }) t;
  ring = bump_rate b.ring now;
}

unfoldable pub broadcast : Broker → SseFrame → Option Broker
unfolding for_each send_or_skip
broadcast b f =
    for_each (send_or_skip f) b.clients b.frames >>= λ frames'. some (record b { frames = frames' })

-- One round of the loop of `ProcessEvents`.
unfoldable pub process_event : Broker → Event → ℕ → Option Broker
unfolding record_event broadcast
process_event b evt now =
    broadcast (record_event b evt.type now) (record { event = ""; payload = of_event evt })

unfoldable pub process_events : Broker → List (Event × ℕ) → Option Broker
unfolding process_event
process_events b [] = some b
process_events b ((evt, now) ∷ evts) = process_event b evt now >>= λ b'. process_events b' evts

unfoldable pub broadcast_subscription : Broker → List EventType → List String → Option Broker
unfolding broadcast
broadcast_subscription b types addresses =
    broadcast b (record { event = "subscription"; payload = of_subscription types addresses })

-- `snapshot`, where `connected` is what the callback `isConnected` returns.
unfoldable pub snapshot : Broker → Bool → ℕ → Broker × StatsSnapshot
unfolding rate_snapshot
snapshot b connected now =
    let (ring', rate) = rate_snapshot b.ring now in
    (
      record b { ring = ring' },
      record {
        connected = connected;
        total = b.counters.total;
        counts =
            (event_blocks, b.counters.blocks)
            ∷ (event_transactions, b.counters.txs)
            ∷ (event_user_transactions, b.counters.user_txs)
            ∷ (event_accounts, b.counters.accounts)
            ∷ [];
        rate_count = rate;
        url = b.url;
      },
    )
