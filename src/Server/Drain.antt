-- ===== src/Server/Drain.antt =====
-- The turns of `ProcessEvents` at a channel that has been closed.
use klever_subscriber.Base.{
  ℕ, ◌≡◌, refl, ◌∙◌, ap, Bool, true, false, not, ◌&&◌, List, [], ◌∷◌, some, nat_eq, get_elem?,
  get_elem?-set_self, get_elem?-lt, arith,
}
use klever_subscriber.Event.{EventType, Event}
use klever_subscriber.Chan.{Chan, got, drained, receive, take_first}
use klever_subscriber.Chan.Laws.{receive_runs, receive_value, taken}
use klever_subscriber.Hub.{Hub, Subscription}
use klever_subscriber.Hub as Channels
use klever_subscriber.Hub.Safety.{receive-IsSound}
use klever_subscriber.Broker.Counts.{Tallied}
use klever_subscriber.Broker.Fanout.{process_event_lem}
use klever_subscriber.Server.{Dashboard, with_broker}
use klever_subscriber.Server.Safety.{IsServing}
use klever_subscriber.Server.Steps.{
  Step, consumes, quits, clients_of, with_clients, do_channels, consumed, consume, step, run,
}
use klever_subscriber.Server.Counting.{recorded, consume-off}

-- Turns of `ProcessEvents` whose context is done: its `select` takes the channel where a mark is true,
-- and the context where it is false.
abbrev pub own_turns : ℕ → List Bool → List Step
own_turns now [] = []
own_turns now (true ∷ marks) = consumes now ∷ own_turns now marks
own_turns now (false ∷ marks) = quits ∷ own_turns now marks

-- The events taken in such turns of those that wait in a closed channel.
abbrev pub taken_in : List Bool → List Event → List Event
taken_in [] waiting = []
taken_in (false ∷ marks) waiting = []
taken_in (true ∷ marks) [] = []
taken_in (true ∷ marks) (evt ∷ waiting) = evt ∷ taken_in marks waiting

-- Whether the loop goes on after them.
abbrev pub goes_on : List Bool → List Event → Bool
goes_on [] waiting = true
goes_on (false ∷ marks) waiting = false
goes_on (true ∷ marks) [] = false
goes_on (true ∷ marks) (evt ∷ waiting) = goes_on marks waiting

-- The channel of the server's subscription, closed.
pub record IsEnding (d : Dashboard) (buffer : List Event) : Type 0 where
  pub ch : Chan Event
  pub at : get_elem? d.client.hub.channels d.channel ≡ some ch
  pub closed : ch.closed ≡ true
  pub waiting : ch.buffer ≡ buffer
  pub on : d.consuming ≡ true

-- What is left after a receive.
abbrev after_receive : Dashboard → Dashboard
after_receive d =
    with_clients
      (record (clients_of d) {
        hub = record d.client.hub { channels = (receive d.client.hub.channels d.channel).0 };
      })
      d

consume-receives :
    (d : Dashboard) (now : ℕ)
    → d.consuming ≡ true
    → consume d now ≡ consumed (after_receive d) now (receive d.client.hub.channels d.channel).1
unfolding consume Channels.act do_channels
consume-receives d now on = ground (arith, on)

receives-last :
    (d : Dashboard) → IsEnding d [] → (receive d.client.hub.channels d.channel).1 ≡ drained
unfolding receive
receives-last d e = ground (arith, e.at, e.closed, e.waiting)

receives-next :
    (d : Dashboard) (evt : Event) (evts : List Event)
    → IsEnding d (evt ∷ evts)
    → ((receive d.client.hub.channels d.channel).1 ≡ got evt) × IsEnding (after_receive d) evts
receives-next d evt evts e = (
  ground (arith, receive_value d.client.hub.channels d.channel e.ch e.at, e.waiting, e.closed),
  record {
    ch = taken e.ch;
    at = rw (receive_runs d.client.hub.channels d.channel e.ch e.at) (
        get_elem?-set_self d.client.hub.channels d.channel (taken e.ch)
          (get_elem?-lt d.client.hub.channels d.channel e.at));
    closed = e.closed;
    waiting = ap (λ l. (take_first l e.ch.closed).0) e.waiting;
    on = e.on;
  },
)

received-IsServing : (d : Dashboard) → IsServing d → IsServing (after_receive d)
received-IsServing d v = record {
  sound = receive-IsSound d.client.hub d.channel v.sound;
  limited = v.limited;
  capped = v.capped;
}

-- The loop has ended.
rests :
    (d : Dashboard) (now : ℕ) (marks : List Bool) (h : List EventType)
    → d.consuming ≡ false
    → Tallied h d.stats.broker.counters
    → (d' : Dashboard) × (run d (own_turns now marks) ≡ some d')
      × (d'.consuming ≡ false)
      × Tallied h d'.stats.broker.counters
unfolding run step
rests d now [] h off t = (d, refl, off, t)
rests d now (true ∷ marks) h off t =
    let (d', runs, still, counts) = rests d now marks h off t in
    (d', rw (consume-off d now off) runs, still, counts)
rests d now (false ∷ marks) h off t =
    rests (record d { consuming = d.consuming && not d.done }) now marks h (rw off refl) t

pub drains :
    (d : Dashboard) (now : ℕ) (marks : List Bool) (evts : List Event) (h : List EventType)
    → IsServing d
    → Tallied h d.stats.broker.counters
    → IsEnding d evts
    → d.done ≡ true
    → (d' : Dashboard) × (run d (own_turns now marks) ≡ some d')
      × (d'.consuming ≡ goes_on marks evts)
      × Tallied (recorded (taken_in marks evts) h) d'.stats.broker.counters
unfolding run step
drains d now [] evts h v t e done = (d, refl, e.on, t)
drains d now (false ∷ marks) evts h v t e done =
    rests (record d { consuming = d.consuming && not d.done }) now marks h (rw (e.on, done) refl) t
drains d now (true ∷ marks) [] h v t e done =
    let (d', runs, off, counts) =
      rests (record (after_receive d) { consuming = false }) now marks h refl t in
    (d', rw (consume-receives d now e.on, receives-last d e) runs, off, counts)
drains d now (true ∷ marks) (evt ∷ evts) h v t e done =
    let (got_it, e₁) = receives-next d evt evts e in
    let v₁ = received-IsServing d v in
    let (b, runs, tallied, live, count, limit) =
      process_event_lem d.stats.broker evt now h v.limited.live t in
    let v₂ : IsServing (with_broker b (after_receive d)) = record {
      sound = v₁.sound;
      limited = record {
        counted = count ∙ v.limited.counted;
        capped = omega (arith, v.limited.capped, limit);
        live = live;
      };
      capped = limit ∙ v.capped;
    } in
    let e₂ : IsEnding (with_broker b (after_receive d)) evts = record {
      ch = e₁.ch;
      at = e₁.at;
      closed = e₁.closed;
      waiting = e₁.waiting;
      on = e₁.on;
    } in
    let (d', rest, on, counts) =
      drains (with_broker b (after_receive d)) now marks evts (evt.type ∷ h) v₂ tallied e₂ done in
    (d', rw (consume-receives d now e.on, got_it, runs) rest, on, counts)
