-- ===== src/Broker/Stats.antt =====
-- web/broker/stats.go: `HandleStats`, and `StartStatsLoop`, which broadcasts the statistics on a
-- heartbeat and whenever the connection's state has changed. Durations and times are nanoseconds; a
-- heartbeat that is not positive is 0 here.
pub mod Fresh
use klever_subscriber.Base.{
  ℕ, ◌+◌, ◌-◌, ◌*◌, ◌/◌, Bool, true, false, not, ◌&&◌, ◌||◌, List, [], ◌∷◌, Option, none, some,
  ◌>>=◌, leb, ltb, eqb, if◌then◌else◌,
}
use klever_subscriber.Subscriber.{second}
use klever_subscriber.Broker.{Broker, StatsSnapshot, snapshot, broadcast, of_stats}

unfoldable pub handle_stats : Broker → Bool → ℕ → Broker × StatsSnapshot
unfolding snapshot
handle_stats b connected now = snapshot b connected now

abbrev pub default_heartbeat : ℕ → ℕ
default_heartbeat heartbeat = if eqb heartbeat 0 then 2 * second else heartbeat

-- The ticker's interval: a quarter of the heartbeat, 250 milliseconds at least.
unfoldable pub probe_interval : ℕ → ℕ
probe_interval heartbeat =
    let probe = default_heartbeat heartbeat / 4 in
    if ltb probe (second / 4) then second / 4 else probe

-- The variables of the loop; `last_push` is `none` for the zero time, which lies centuries back.
pub record StatsLoop : Type 0 where
  pub broker : Broker
  pub last_connected : Bool
  pub last_push : Option ℕ

-- What a tick reads: its time, what `isConnected` returns to the loop and then to `snapshot`, and
-- the second of the snapshot.
pub record Tick : Type 0 where
  pub now : ℕ
  pub connected : Bool
  pub connected_then : Bool
  pub unix : ℕ

unfoldable pub start_stats_loop : Broker → Bool → StatsLoop
start_stats_loop b connected = record { broker = b; last_connected = connected; last_push = none }

-- `now.Sub(lastPush) >= heartbeat`
abbrev pub heartbeat_due : ℕ → ℕ → Option ℕ → Bool
heartbeat_due heartbeat now none = true
heartbeat_due heartbeat now (some t) = leb heartbeat (now - t)

abbrev pub same : Bool → Bool → Bool
same true b = b
same false b = not b

unfoldable pub push_stats : StatsLoop → Tick → Option StatsLoop
unfolding snapshot broadcast
push_stats l t =
    let (b, stats) = snapshot l.broker t.connected_then t.unix in
    broadcast b (record { event = "stats"; payload = of_stats stats }) >>= λ b'.
    some (record { broker = b'; last_connected = t.connected; last_push = some t.now })

-- One round of the loop.
unfoldable pub on_tick : ℕ → StatsLoop → Tick → Option StatsLoop
unfolding push_stats
on_tick heartbeat l t =
    let pushed = push_stats l t in
    if same t.connected l.last_connected
      && not (heartbeat_due (default_heartbeat heartbeat) t.now l.last_push)
    then some l
    else pushed

unfoldable pub on_ticks : ℕ → StatsLoop → List Tick → Option StatsLoop
unfolding on_tick
on_ticks heartbeat l [] = some l
on_ticks heartbeat l (t ∷ ts) = on_tick heartbeat l t >>= λ l'. on_ticks heartbeat l' ts
