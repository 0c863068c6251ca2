-- ===== src/Server/Counting.antt =====
-- The server's goroutines in every interleaving, and what its counters count.
use klever_subscriber.Base.{
  ℕ, ◌≡◌, refl, ◌∙◌, inl, inr, true, false, List, [], ◌∷◌, ◌++◌, none, some, arith, Bool-cases,
}
use klever_subscriber.Event.{EventType, Event}
use klever_subscriber.Chan.{Received, got, drained, waits, receive}
use klever_subscriber.Hub.{Hub, Subscription}
use klever_subscriber.Hub as Channels
use klever_subscriber.Hub.Buffers.{value_of}
use klever_subscriber.Hub.Safety.{subscribe-IsSound}
use klever_subscriber.Hub.Safety as HubSafety
use klever_subscriber.Broker.Counts.{Tallied}
use klever_subscriber.Broker.Fanout.{process_event_lem}
use klever_subscriber.Server.{Dashboard, with_broker}
use klever_subscriber.Server.Safety.{IsServing}
use klever_subscriber.Server.Flow.{taken_by, Flows, steady, consumes-Flows}
use klever_subscriber.Server.Steps.{
  Step, consumes, clients_of, with_clients, do_channels, consumed, consume, step,
}

-- And in a run, in order.
unfoldable pub taken : Dashboard → List Step → List Event
taken d [] = []
taken d (a ∷ as') = taken_by d a ++ (elim (step d a) [ none ↦ [] | some d' ↦ taken d' as' ])

-- Their types, the last first, before those recorded earlier.
abbrev pub recorded : List Event → List EventType → List EventType
recorded [] h = h
recorded (evt ∷ evts) h = recorded evts (evt.type ∷ h)

pub recorded-append :
    (xs ys : List Event) (h : List EventType) → recorded (xs ++ ys) h ≡ recorded ys (recorded xs h)
recorded-append [] ys h = refl
recorded-append (x ∷ xs) ys h = recorded-append xs ys (x.type ∷ h)

-- A step is taken, leaves the server sound, and counts what it takes.
pub record Steps (d : Dashboard) (a : Step) (h : List EventType) : Type 0 where
  pub next : Dashboard
  pub runs : step d a ≡ some next
  pub serving : IsServing next
  pub tallied : Tallied (recorded (taken_by d a) h) next.stats.broker.counters
  pub flows : Flows d a next

-- What the client's channels do leaves the broker alone.
pub do_channels-IsServing :
    (d : Dashboard) (a : Channels.Action)
    → IsServing d
    → (w : Channels.Clients) × (do_channels d a ≡ some (with_clients w d))
      × IsServing (with_clients w d)
      × (Channels.act (clients_of d) a ≡ some w)
unfolding do_channels
do_channels-IsServing d a v =
    let (w, acts, sound) = HubSafety.act_total (clients_of d) a v.sound in
    (w, rw acts refl, record { sound = sound; limited = v.limited; capped = v.capped }, acts)

consumed-Steps :
    (d : Dashboard) (now : ℕ) (r : Received Event) (h : List EventType)
    → IsServing d
    → Tallied h d.stats.broker.counters
    → (d' : Dashboard) × (consumed d now r ≡ some d')
      × IsServing d'
      × Tallied (recorded (value_of r) h) d'.stats.broker.counters
      × (d'.client.hub ≡ d.client.hub)
      × (d'.channel ≡ d.channel)
consumed-Steps d now (got evt) h v t =
    let (b, runs, tallied, live, same, limit) =
      process_event_lem d.stats.broker evt now h v.limited.live t in
    (
      with_broker b d,
      rw runs refl,
      record {
        sound = v.sound;
        limited = record {
          counted = same ∙ v.limited.counted;
          capped = omega (arith, v.limited.capped, limit);
          live = live;
        };
        capped = limit ∙ v.capped;
      },
      tallied,
      refl,
      refl,
    )
consumed-Steps d now drained h v t =
    (_, refl, record { sound = v.sound; limited = v.limited; capped = v.capped }, t, refl, refl)
consumed-Steps d now waits h v t = (d, refl, v, t, refl, refl)

pub consume-on :
    (d : Dashboard) (now : ℕ) (w : Channels.Clients)
    → d.consuming ≡ true
    → do_channels d (Channels.receives d.channel) ≡ some (with_clients w d)
    → consume d now ≡ consumed (with_clients w d) now (receive d.client.hub.channels d.channel).1
unfolding consume
consume-on d now w on acts = ground (arith, on, acts)

pub consume-off : (d : Dashboard) (now : ℕ) → d.consuming ≡ false → consume d now ≡ some d
unfolding consume
consume-off d now off = ground (arith, off)

pub consume-Steps :
    (d : Dashboard) (now : ℕ) (h : List EventType)
    → IsServing d
    → Tallied h d.stats.broker.counters
    → Steps d (consumes now) h
unfolding step taken_by
consume-Steps d now h v t = elim (Bool-cases d.consuming) [
  | inr off ↦ record {
    next = d;
    runs = consume-off d now off;
    serving = v;
    tallied = rw off t;
    flows = steady d _ d refl refl (rw off refl);
  }
  | inl on ↦
      let (w, acts, serving, moved) = do_channels-IsServing d (Channels.receives d.channel) v in
      let r = (receive d.client.hub.channels d.channel).1 in
      let (d', runs, end, tallied, hub, channel) =
        consumed-Steps (with_clients w d) now r h serving t in
      record {
        next = d';
        runs = consume-on d now w on acts ∙ runs;
        serving = end;
        tallied = rw on tallied;
        flows = consumes-Flows d now d' w v.sound on moved channel hub;
      }
]
