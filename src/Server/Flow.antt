-- ===== src/Server/Flow.antt =====
-- The events on their way through the channel of the server's subscription.
use mathlib.Core.List.{Sublistᴰ}
use mathlib.Core.List.Sublistᴰ
use mathlib.Core.List.Sublistᴰ.{slnil, cons-cons, cons}
use klever_subscriber.Base.{
  ℕ, ◌≡◌, refl, ◌∙◌, sym, ap, true, List, [], ◌∷◌, ◌++◌, some, nat_eq, beq_refl, if◌then◌else◌,
}
use klever_subscriber.Event.{Event}
use klever_subscriber.Chan.{receive}
use klever_subscriber.Hub.{Hub}
use klever_subscriber.Hub as Channels
use klever_subscriber.Hub.Sound.{IsSound}
use klever_subscriber.Hub.Buffers.{buffer_at, value_of}
use klever_subscriber.Hub.Delivery.{published, received_by, act-Moves, still}
use klever_subscriber.Server.{Dashboard}
use klever_subscriber.Server.Steps.{
  Step, consumes, quits, ticks, stops_ticking, serves, streams_on, shuts_down, finishes,
  on_channels, connects, clients_of,
}

-- The events that `ProcessEvents` takes in a step.
unfoldable pub taken_by : Dashboard → Step → List Event
taken_by d (consumes now) =
    if d.consuming then value_of (receive d.client.hub.channels d.channel).1 else []
taken_by d quits = []
taken_by d (ticks t) = []
taken_by d stops_ticking = []
taken_by d (serves call) = []
taken_by d (streams_on k t) = []
taken_by d shuts_down = []
taken_by d finishes = []
taken_by d (on_channels a) = []
taken_by d (connects b) = []

-- The events that the client fans out in a step.
unfoldable pub offered_by : Step → List Event
unfolding published
offered_by (on_channels a) = published (a ∷ [])
offered_by (consumes now) = []
offered_by quits = []
offered_by (ticks t) = []
offered_by stops_ticking = []
offered_by (serves call) = []
offered_by (streams_on k t) = []
offered_by shuts_down = []
offered_by finishes = []
offered_by (connects b) = []

-- What a step does to the events of the server's channel: some leave at the front, those that
-- `ProcessEvents` takes among them, and at most those that are fanned out arrive at the end.
pub record Flows (d : Dashboard) (a : Step) (d' : Dashboard) : Type 0 where
  pub same_channel : d'.channel ≡ d.channel
  pub arriving : List Event
  pub departing : List Event
  pub from_client : Sublistᴰ arriving (offered_by a)
  pub to_broker : Sublistᴰ (taken_by d a) departing
  pub moves :
      buffer_at d.client.hub.channels d.channel ++ arriving
      ≡ departing ++ buffer_at d'.client.hub.channels d.channel

pub nil-Sublistᴰ {ℓ} : {A : Type ℓ} (xs : List A) → Sublistᴰ [] xs
nil-Sublistᴰ [] = slnil
nil-Sublistᴰ (x ∷ xs) = cons (nil-Sublistᴰ xs)

pub self-Sublistᴰ {ℓ} : {A : Type ℓ} (xs : List A) → Sublistᴰ xs xs
self-Sublistᴰ [] = slnil
self-Sublistᴰ (x ∷ xs) = cons-cons refl (self-Sublistᴰ xs)

-- A step that leaves the channels alone.
pub steady :
    (d : Dashboard) (a : Step) (d' : Dashboard)
    → d'.channel ≡ d.channel
    → d'.client.hub ≡ d.client.hub
    → taken_by d a ≡ []
    → Flows d a d'
steady d a d' channel same nothing = record {
  same_channel = channel;
  arriving = [];
  departing = [];
  from_client = nil-Sublistᴰ (offered_by a);
  to_broker = rw nothing slnil;
  moves = still _ _ (ap (λ (s : Hub). buffer_at s.channels d.channel) same);
}

-- A step of the channels by which `ProcessEvents` takes nothing.
pub channels-Flows :
    (d : Dashboard) (a : Step) (d' : Dashboard) (c : Channels.Action) (w : Channels.Clients)
    → IsSound d.client.hub
    → Channels.act (clients_of d) c ≡ some w
    → d'.channel ≡ d.channel
    → d'.client.hub ≡ w.hub
    → Sublistᴰ (published (c ∷ [])) (offered_by a)
    → taken_by d a ≡ []
    → Flows d a d'
channels-Flows d a d' c w v acts channel same offers nothing =
    let (new, sub, moved) = act-Moves (clients_of d) w d.channel c v acts in
    record {
      same_channel = channel;
      arriving = new;
      departing = received_by (clients_of d) d.channel c;
      from_client = Sublistᴰ.trans sub offers;
      to_broker = rw nothing (nil-Sublistᴰ _);
      moves =
          moved
          ∙ ap
              (λ (s : Hub).
                received_by (clients_of d) d.channel c ++ buffer_at s.channels d.channel)
              (sym same);
    }

-- The step of `ProcessEvents`.
pub consumes-Flows :
    (d : Dashboard) (now : ℕ) (d' : Dashboard) (w : Channels.Clients)
    → IsSound d.client.hub
    → d.consuming ≡ true
    → Channels.act (clients_of d) (Channels.receives d.channel) ≡ some w
    → d'.channel ≡ d.channel
    → d'.client.hub ≡ w.hub
    → Flows d (consumes now) d'
unfolding taken_by offered_by received_by published
consumes-Flows d now d' w v on acts channel same =
    let (new, sub, moved) =
      act-Moves (clients_of d) w d.channel (Channels.receives d.channel) v acts in
    record {
      same_channel = channel;
      arriving = new;
      departing = value_of (receive d.client.hub.channels d.channel).1;
      from_client = sub;
      to_broker = rw on (self-Sublistᴰ _);
      moves =
          (rw (beq_refl d.channel) at moved)
          ∙ ap
              (λ (s : Hub).
                value_of (receive d.client.hub.channels d.channel).1
                ++ buffer_at s.channels d.channel)
              (sym same);
    }
