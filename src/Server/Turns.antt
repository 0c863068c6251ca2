-- ===== src/Server/Turns.antt =====
-- Each step of the server is taken, keeps it sound, and counts what it takes.
use klever_subscriber.Base.{
  ℕ, ◌≡◌, refl, ◌∙◌, sym, subst, inl, inr, true, List, [], ◌∷◌, ◌&&◌, not, arith, Bool-cases,
  Option-cases, get_elem?, set,
}
use klever_subscriber.Event.{EventType}
use klever_subscriber.Hub.{Hub, Subscription}
use klever_subscriber.Hub as Channels
use klever_subscriber.Broker.{Broker}
use klever_subscriber.Broker.Counts.{Tallied}
use klever_subscriber.Broker.Stats.{Tick}
use klever_subscriber.Broker.Stats.Fresh.{on_tick-IsFresh}
use klever_subscriber.Broker.Sse.{Stage, Turn, handle_sse}
use klever_subscriber.Broker.Sse.Counts.{turn_counts, counted-get}
use klever_subscriber.Broker.Sse.Limit.{turn-IsLimited}
use klever_subscriber.Server.{heartbeat, Dashboard, with_broker}
use klever_subscriber.Server.Safety.{IsServing, serve_http-Serves}
use klever_subscriber.Hub.Delivery.{published}
use klever_subscriber.Server.Flow.{taken_by, offered_by, steady, channels-Flows, self-Sublistᴰ}
use klever_subscriber.Server.Steps.{
  Step, consumes, quits, ticks, stops_ticking, serves, streams_on, shuts_down, finishes,
  on_channels, connects, with_clients, stream_turn, step,
}
use klever_subscriber.Server.Counting.{Steps, do_channels-IsServing, consume-Steps}

handle_sse-counters :
    (b : Broker) (s : Stage) (t : Turn) → (handle_sse b s t).0.counters ≡ b.counters
unfolding handle_sse
handle_sse-counters b s t = ground arith

streams-Steps :
    (d : Dashboard) (k : ℕ) (t : Turn) (h : List EventType)
    → IsServing d
    → Tallied h d.stats.broker.counters
    → Steps d (streams_on k t) h
unfolding step stream_turn taken_by
streams-Steps d k t h v tallied = elim (Option-cases (get_elem? d.streams k)) [
  | inl gone ↦ record {
    next = d;
    runs = rw (gone, step, stream_turn) refl;
    serving = v;
    tallied = tallied;
    flows = steady d _ d refl refl refl;
  }
  | inr (old, at) ↦
      let u : Turn = record t { connected = d.client.connected } in
      let p = handle_sse d.stats.broker old u in
      record {
        next = with_broker p.0 (record d { streams = set d.streams k p.1 });
        runs = rw (at, step, stream_turn) refl;
        serving = record {
          sound = v.sound;
          limited =
              turn-IsLimited (record { broker = d.stats.broker; requests = d.streams }) k old u
                v.limited at;
          capped =
              (turn_counts d.stats.broker old u
                (omega (arith, v.limited.counted, counted-get d.streams k old at))).2
              ∙ v.capped;
        };
        tallied = subst (Tallied h) (sym (handle_sse-counters d.stats.broker old u)) tallied;
        flows = steady d _ _ refl refl refl;
      }
]

ticks-Steps :
    (d : Dashboard) (t : Tick) (h : List EventType)
    → IsServing d
    → Tallied h d.stats.broker.counters
    → Steps d (ticks t) h
unfolding step taken_by
ticks-Steps d t h v tallied = elim (Bool-cases d.ticking) [
  | inr off ↦ record {
    next = d;
    runs = rw off refl;
    serving = v;
    tallied = tallied;
    flows = steady d _ d refl refl refl;
  }
  | inl on ↦
      let u : Tick = record t { connected = d.client.connected } in
      let (l, runs, live, _, same) = on_tick-IsFresh heartbeat d.stats u v.limited.live in
      record {
        next = record d { stats = l };
        runs = rw (on, runs) refl;
        serving = record {
          sound = v.sound;
          limited = record {
            counted = same.same_count ∙ v.limited.counted;
            capped = omega (arith, v.limited.capped, same.same_limit);
            live = live;
          };
          capped = same.same_limit ∙ v.capped;
        };
        tallied = subst (Tallied h) (sym same.same_counters) tallied;
        flows = steady d _ _ refl refl refl;
      }
]

shuts-Steps :
    (d : Dashboard) (h : List EventType)
    → IsServing d
    → Tallied h d.stats.broker.counters
    → Steps d shuts_down h
unfolding step taken_by offered_by published
shuts-Steps d h v tallied = elim (Bool-cases (d.done && not d.shut)) [
  | inr early ↦ record {
    next = d;
    runs = ground (arith, early);
    serving = v;
    tallied = tallied;
    flows = steady d _ d refl refl refl;
  }
  | inl now ↦
      let (w, acts, serving, moved) = do_channels-IsServing d (Channels.closes d.own) v in
      record {
        next = record (with_clients w d) { shut = true };
        runs = ground (arith, now, acts);
        serving = record { sound = serving.sound; limited = v.limited; capped = v.capped };
        tallied = tallied;
        flows =
            channels-Flows d shuts_down _ (Channels.closes d.own) w v.sound moved refl refl
              (self-Sublistᴰ []) refl;
      }
]

pub step-Steps :
    (d : Dashboard) (a : Step) (h : List EventType)
    → IsServing d
    → Tallied h d.stats.broker.counters
    → Steps d a h
unfolding step taken_by offered_by
step-Steps d (consumes now) h v t = consume-Steps d now h v t
step-Steps d (streams_on k u) h v t = streams-Steps d k u h v t
step-Steps d (ticks u) h v t = ticks-Steps d u h v t
step-Steps d shuts_down h v t = shuts-Steps d h v t
step-Steps d (serves call) h v t =
    let (d', reply, runs, s) = serve_http-Serves d call v in
    record {
      next = d';
      runs = rw runs refl;
      serving = s.serving;
      tallied = subst (Tallied h) (sym s.same_counters) t;
      flows = steady d _ d' s.same_channel s.same_hub refl;
    }
step-Steps d (on_channels a) h v t =
    let (w, acts, serving, moved) = do_channels-IsServing d a v in
    record {
      next = with_clients w d;
      runs = acts;
      serving = serving;
      tallied = t;
      flows =
          channels-Flows d _ _ a w v.sound moved refl refl (self-Sublistᴰ (published (a ∷ [])))
            refl;
    }
step-Steps d quits h v t = record {
  next = _;
  runs = refl;
  serving = record { sound = v.sound; limited = v.limited; capped = v.capped };
  tallied = t;
  flows = steady d _ _ refl refl refl;
}
step-Steps d stops_ticking h v t = record {
  next = _;
  runs = refl;
  serving = record { sound = v.sound; limited = v.limited; capped = v.capped };
  tallied = t;
  flows = steady d _ _ refl refl refl;
}
step-Steps d finishes h v t = record {
  next = _;
  runs = refl;
  serving = record { sound = v.sound; limited = v.limited; capped = v.capped };
  tallied = t;
  flows = steady d _ _ refl refl refl;
}
step-Steps d (connects b) h v t = record {
  next = _;
  runs = refl;
  serving = record { sound = v.sound; limited = v.limited; capped = v.capped };
  tallied = t;
  flows = steady d _ _ refl refl refl;
}
