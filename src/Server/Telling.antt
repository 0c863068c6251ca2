-- ===== src/Server/Telling.antt =====
-- What a step of the server broadcasts to the dashboards.
use mathlib.Core.List.{Sublistᴰ}
use mathlib.Core.List.Sublistᴰ.{slnil, cons, cons-cons}
use klever_subscriber.Base.{
  ℕ, All, Bool, ◌≡◌, refl, ◌∙◌, sym, subst, inl, inr, List, [], ◌∷◌, ◌++◌, some, ap, arith,
  Bool-cases, append-nil, append_assoc, ◌&&◌, not,
}
use klever_subscriber.Event.{Event}
use klever_subscriber.Broker.{
  Broker, SseFrame, Payload, of_event, of_stats, of_subscription, broadcast, record_event,
  process_event, snapshot,
}
use klever_subscriber.Broker.Fanout.{broadcast_lem, IsLive}
use klever_subscriber.Broker.Stats.{
  StatsLoop, Tick, on_tick, push_stats, same, heartbeat_due, default_heartbeat,
}
use klever_subscriber.Broker.Stats.Fresh.{stats_frame}
use klever_subscriber.Broker.Sse.{System}
use klever_subscriber.Broker.Sse.Order.{IsInOrder}
use klever_subscriber.Broker.Sse.Order.Runs.{broadcasts-IsInOrder, ChangedAt-length}
use klever_subscriber.Hub.Delivery.{Sublistᴰ-append}
use klever_subscriber.Server.Flow.{nil-Sublistᴰ, self-Sublistᴰ}
use klever_subscriber.Broker.Wire.{codes, is_one_line}
use klever_subscriber.Broker.Wire.Pages.{HasPlainName}
use klever_subscriber.Server.{Dashboard}

abbrev pub streaming : Dashboard → System
streaming d = record { broker = d.stats.broker; requests = d.streams }

abbrev pub event_of : Payload → List Event
event_of (of_event evt) = evt ∷ []
event_of (of_stats stats) = []
event_of (of_subscription types addresses) = []

-- The events among the frames.
unfoldable pub events_in : List SseFrame → List Event
events_in [] = []
events_in (f ∷ frames) = event_of f.payload ++ events_in frames

pub events_in-append : (xs ys : List SseFrame) → events_in (xs ++ ys) ≡ events_in xs ++ events_in ys
unfolding events_in
events_in-append [] ys = refl
events_in-append (x ∷ xs) ys =
    ap (◌++◌ (event_of x.payload)) (events_in-append xs ys)
    ∙ sym (append_assoc (event_of x.payload) (events_in xs) (events_in ys))

pub events_in-Sublistᴰ :
    {xs ys : List SseFrame} → Sublistᴰ xs ys → Sublistᴰ (events_in xs) (events_in ys)
unfolding events_in
events_in-Sublistᴰ slnil = slnil
events_in-Sublistᴰ (cons {a = y} s) =
    Sublistᴰ-append (nil-Sublistᴰ (event_of y.payload)) (events_in-Sublistᴰ s)
events_in-Sublistᴰ (cons-cons {a = x} {b = y} e s) =
    Sublistᴰ-append
      (subst (λ z. Sublistᴰ (event_of x.payload) (event_of z.payload)) e
        (self-Sublistᴰ (event_of x.payload)))
      (events_in-Sublistᴰ s)

-- A step broadcasts frames, of which the events are the ones given.
pub record Tells (s s' : System) (evts : List Event) : Type 0 where
  pub frames : List SseFrame
  pub events : events_in frames ≡ evts
  pub plain : All HasPlainName frames
  pub keeps : (history : List SseFrame) → IsInOrder history s → IsInOrder (history ++ frames) s'

pub silent-Tells :
    (s s' : System)
    → ((history : List SseFrame) → IsInOrder history s → IsInOrder history s')
    → Tells s s' []
unfolding events_in
silent-Tells s s' keeps = record {
  frames = [];
  events = refl;
  plain = tt;
  keeps = λ history o. rw (append-nil history) (keeps history o);
}

-- What only the frames and the requests decide.
pub alike-Tells :
    (b : Broker) (s : System) → b.frames ≡ s.broker.frames → Tells s (record s { broker = b }) []
alike-Tells b s same = silent-Tells s _ (λ history o. record {
  follows = λ k stage at. rw same (o.follows k stage at);
  apart = o.apart;
})

pub broadcast-Tells :
    (s : System) (b b' : Broker) (f : SseFrame)
    → b.frames ≡ s.broker.frames
    → IsLive b.frames b.clients
    → broadcast b f ≡ some b'
    → HasPlainName f
    → Tells s (record s { broker = b' }) (event_of f.payload)
unfolding events_in
broadcast-Tells s b b' f same v runs named =
    let (frames, runs', changed, _) = broadcast_lem b f v in
    let new : record b { frames = frames } ≡ b' = ground (arith, runs, runs') in
    record {
      frames = f ∷ [];
      events = append-nil (event_of f.payload);
      plain = (named, tt);
      keeps = λ history o.
          let o' : IsInOrder history (record s { broker = b }) = record {
            follows = λ k stage at. rw same (o.follows k stage at);
            apart = o.apart;
          } in
          subst (λ x. IsInOrder (history ++ f ∷ []) (record s { broker = x })) new
            (broadcasts-IsInOrder history (record s { broker = b }) o' f frames changed
              (ChangedAt-length f b.clients b.frames frames changed));
    }

pub process-Tells :
    (s : System) (evt : Event) (now : ℕ) (b' : Broker)
    → IsLive s.broker.frames s.broker.clients
    → process_event s.broker evt now ≡ some b'
    → Tells s (record s { broker = b' }) (evt ∷ [])
unfolding process_event record_event codes is_one_line
process-Tells s evt now b' v runs =
    broadcast-Tells s (record_event s.broker evt.type now) b' _ refl v runs refl

push_stats-Tells :
    (s : System) (l l' : StatsLoop) (t : Tick)
    → s.broker ≡ l.broker
    → IsLive l.broker.frames l.broker.clients
    → push_stats l t ≡ some l'
    → Tells s (record s { broker = l'.broker }) []
unfolding push_stats snapshot codes is_one_line
push_stats-Tells s l l' t same v runs =
    let p = snapshot l.broker t.connected_then t.unix in
    let (frames, sends, _, _) = broadcast_lem p.0 (stats_frame p.1) v in
    let b' = record p.0 { frames = frames } in
    let new : b' ≡ l'.broker = ground (arith, runs, sends) in
    subst (λ x. Tells s (record s { broker = x }) []) new
      (broadcast-Tells s p.0 b' (stats_frame p.1) (sym (ap (λ (x : Broker). x.frames) same)) v sends
        refl)

abbrev quiet : ℕ → StatsLoop → Tick → Bool
quiet beat l t =
    same t.connected l.last_connected
    && not (heartbeat_due (default_heartbeat beat) t.now l.last_push)

pub on_tick-Tells :
    (s : System) (beat : ℕ) (l l' : StatsLoop) (t : Tick)
    → s.broker ≡ l.broker
    → IsLive l.broker.frames l.broker.clients
    → on_tick beat l t ≡ some l'
    → Tells s (record s { broker = l'.broker }) []
unfolding on_tick
on_tick-Tells s beat l l' t eq v runs = elim (Bool-cases (quiet beat l t)) [
  | inl q ↦
      let new : l ≡ l' = ground (arith, runs, q) in
      alike-Tells l'.broker s
        (ap (λ (x : StatsLoop). x.broker.frames) (sym new) ∙ sym (ap (λ (x : Broker). x.frames) eq))
  | inr q ↦ push_stats-Tells s l l' t eq v (ground (arith, runs, q))
]
