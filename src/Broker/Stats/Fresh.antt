-- ===== src/Broker/Stats/Fresh.antt =====
-- How far behind the dashboards can be.
use klever_subscriber.Base.{
  ℕ, ◌+◌, ◌<◌, ◌≡◌, refl, ◌∙◌, Bool, true, false, not, ◌&&◌, Option, none, some, arith, inl, inr,
  Bool-cases,
}
use klever_subscriber.Chan.{deliver}
use klever_subscriber.Chan.Laws.{ChangedAt}
use klever_subscriber.Broker.{Broker, SseFrame, StatsSnapshot, snapshot, of_stats}
use klever_subscriber.Broker.Fanout.{IsLive, Untouched, broadcast_lem}
use klever_subscriber.Broker.Stats.{
  default_heartbeat, StatsLoop, Tick, heartbeat_due, same, push_stats, on_tick,
}

abbrev pub stats_frame : StatsSnapshot → SseFrame
stats_frame stats = record { event = "stats"; payload = of_stats stats }

-- The loop is up to date with the time and the state of a tick.
pub record IsFresh (heartbeat : ℕ) (l : StatsLoop) (now : ℕ) (connected : Bool) : Type 0 where
  pub state : l.last_connected ≡ connected
  pub recent : (last : ℕ) × (l.last_push ≡ some last) × (now < last + default_heartbeat heartbeat)

default_heartbeat_pos : (heartbeat : ℕ) → 0 < default_heartbeat heartbeat
default_heartbeat_pos heartbeat = ground arith

same-eq : (a b : Bool) → same a b ≡ true → b ≡ a
same-eq true true h = refl
same-eq true false h = absurd (cc)
same-eq false true h = absurd (cc)
same-eq false false h = refl

not_due :
    (heartbeat now : ℕ) (last : Option ℕ)
    → heartbeat_due heartbeat now last ≡ false
    → (t : ℕ) × (last ≡ some t) × (now < t + heartbeat)
not_due heartbeat now none h = absurd (cc)
not_due heartbeat now (some t) h = (t, refl, ground arith)

-- A push offers a frame with the statistics to every dashboard, and touches no other channel.
push_stats_lem :
    (l : StatsLoop) (t : Tick)
    → IsLive l.broker.frames l.broker.clients
    → (b : Broker) × (stats : StatsSnapshot) × (push_stats l t
        ≡ some (record { broker = b; last_connected = t.connected; last_push = some t.now }))
      × IsLive b.frames b.clients
      × ChangedAt (deliver (stats_frame stats)) l.broker.clients l.broker.frames b.frames
      × (stats.connected ≡ t.connected_then)
      × Untouched l.broker b
unfolding push_stats snapshot
push_stats_lem l t v =
    let b = (snapshot l.broker t.connected_then t.unix).0 in
    let stats = (snapshot l.broker t.connected_then t.unix).1 in
    let (frames, runs, changed, live) = broadcast_lem b (stats_frame stats) v in
    (
      record b { frames = frames },
      stats,
      rw runs,
      live,
      changed,
      refl,
      record { same_counters = refl; same_clients = refl; same_count = refl; same_limit = refl },
    )

on_tick_pushes :
    (heartbeat : ℕ) (l : StatsLoop) (t : Tick)
    → (same t.connected l.last_connected
        && not (heartbeat_due (default_heartbeat heartbeat) t.now l.last_push))
      ≡ false
    → on_tick heartbeat l t ≡ push_stats l t
unfolding on_tick
on_tick_pushes heartbeat l t h = rw h

on_tick_waits :
    (heartbeat : ℕ) (l : StatsLoop) (t : Tick)
    → same t.connected l.last_connected ≡ true
    → heartbeat_due (default_heartbeat heartbeat) t.now l.last_push ≡ false
    → on_tick heartbeat l t ≡ some l
unfolding on_tick
on_tick_waits heartbeat l t h k = rw (h, k)

-- A tick at which the connection's state has changed offers to every dashboard a frame with the state
-- that `snapshot` reads then, whether or not the heartbeat is due, and records the new state.
on_tick-flips :
    (heartbeat : ℕ) (l : StatsLoop) (t : Tick)
    → IsLive l.broker.frames l.broker.clients
    → same t.connected l.last_connected ≡ false
    → (b : Broker) × (stats : StatsSnapshot) × (on_tick heartbeat l t
        ≡ some (record { broker = b; last_connected = t.connected; last_push = some t.now }))
      × IsLive b.frames b.clients
      × ChangedAt (deliver (stats_frame stats)) l.broker.clients l.broker.frames b.frames
      × (stats.connected ≡ t.connected_then)
on_tick-flips heartbeat l t v h =
    let (b, stats, runs, live, changed, state, _) = push_stats_lem l t v in
    let pushes = on_tick_pushes heartbeat l t (ground arith) in
    (b, stats, pushes ∙ runs, live, changed, state)

-- After a tick the loop is up to date with it.
pub on_tick-IsFresh :
    (heartbeat : ℕ) (l : StatsLoop) (t : Tick)
    → IsLive l.broker.frames l.broker.clients
    → (l' : StatsLoop) × (on_tick heartbeat l t ≡ some l')
      × IsLive l'.broker.frames l'.broker.clients
      × IsFresh heartbeat l' t.now t.connected
      × Untouched l.broker l'.broker
on_tick-IsFresh heartbeat l t v =
    let (b, stats, runs, live, _, _, untouched) = push_stats_lem l t v in
    let positive = default_heartbeat_pos heartbeat in
    elim (Bool-cases (
      same t.connected l.last_connected
      && not (heartbeat_due (default_heartbeat heartbeat) t.now l.last_push))) [
        | inr pushes ↦ (
          record { broker = b; last_connected = t.connected; last_push = some t.now },
          on_tick_pushes heartbeat l t pushes ∙ runs,
          live,
          record { state = refl; recent = (t.now, refl, omega arith) },
          untouched,
        )
        | inl waits ↦
            let steady : same t.connected l.last_connected ≡ true = ground arith in
            let early : heartbeat_due (default_heartbeat heartbeat) t.now l.last_push ≡ false =
              ground arith in
            (
              l,
              on_tick_waits heartbeat l t steady early,
              v,
              record {
                state = same-eq t.connected l.last_connected steady;
                recent = not_due (default_heartbeat heartbeat) t.now l.last_push early;
              },
              record {
                same_counters = refl;
                same_clients = refl;
                same_count = refl;
                same_limit = refl;
              },
            )
      ]
