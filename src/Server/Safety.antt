-- ===== src/Server/Safety.antt =====
-- The server in every interleaving of its goroutines.
use klever_subscriber.Base.{
  ◌≡◌, refl, ◌∙◌, sym, subst, ◌⊎◌, inl, inr, [], ◌∷◌, ◌++◌, some, eqb, arith, Bool-cases,
}
use klever_subscriber.Chan.{deliver}
use klever_subscriber.Chan.Laws.{ChangedAt}
use klever_subscriber.Hub.Sound.{IsSound}
use klever_subscriber.Subscriber.{Subscriber}
use klever_subscriber.Broker.{Broker, SseFrame, of_subscription, broadcast_subscription, snapshot}
use klever_subscriber.Broker.Fanout.{IsLive, Untouched, broadcast_lem}
use klever_subscriber.Broker.Stats.{handle_stats}
use klever_subscriber.Broker.Sse.{arrived}
use klever_subscriber.Broker.Sse.Counts.{is_served, is_counted, count-append}
use klever_subscriber.Broker.Sse.Limit.{IsLimited}
use klever_subscriber.Handler.{
  Handler, Answer, handle_subscription, handle_dynamic_subscribe, handle_dynamic_unsubscribe,
  handle_get_transaction, handle_get_block,
}
use klever_subscriber.Server.{
  default_max_clients, Dashboard, with_broker, Route, to_static_files, to_events, to_stats,
  to_subscription, to_subscribes, to_unsubscribes, to_transaction, to_block, route, Call, Content,
  api, answer, serve_route, Reply, security_headers, serve_http, request_of, subscription_handler,
  query_handler,
}
use klever_subscriber.Server.Handlers.{
  IsHonest, handle_subscription-IsHonest, handle_dynamic_subscribe-IsHonest,
  handle_dynamic_unsubscribe-IsHonest, handle_get_transaction-IsHonest, handle_get_block-IsHonest,
}

-- The channels of the client are sound, and the streams are counted and limited.
pub record IsServing (d : Dashboard) : Type 0 where
  pub sound : IsSound d.client.hub
  pub limited : IsLimited (record { broker = d.stats.broker; requests = d.streams })
  pub capped : d.stats.broker.max_clients ≡ default_max_clients

keep-IsServing :
    (d : Dashboard) (s : Subscriber) (b : Broker)
    → IsServing d
    → s.hub ≡ d.client.hub
    → Untouched d.stats.broker b
    → IsLive b.frames b.clients
    → IsServing (with_broker b (record d { client = s }))
keep-IsServing d s b v same u live = record {
  sound = subst IsSound (sym same) v.sound;
  limited = record {
    counted = u.same_count ∙ v.limited.counted;
    capped = omega (arith, v.limited.capped, u.same_limit);
    live = live;
  };
  capped = u.same_limit ∙ v.capped;
}

nothing_touched : (b : Broker) → Untouched b b
nothing_touched b = record {
  same_counters = refl;
  same_clients = refl;
  same_count = refl;
  same_limit = refl;
}

abbrev pub subscription_frame : Subscriber → SseFrame
subscription_frame s = record {
  event = "subscription";
  payload = of_subscription s.types s.addresses;
}

-- The client's subscription is as it was, or each dashboard has been offered the new one.
abbrev pub IsTold : Dashboard → Dashboard → Type 0
IsTold d d' =
    ((d'.client.types ≡ d.client.types) × (d'.client.addresses ≡ d.client.addresses))
    ⊎ ChangedAt (deliver (subscription_frame d'.client)) d.stats.broker.clients
        d.stats.broker.frames d'.stats.broker.frames

-- A step that serves a request.
pub record Serves (d d' : Dashboard) : Type 0 where
  pub serving : IsServing d'
  pub same_counters : d'.stats.broker.counters ≡ d.stats.broker.counters
  pub told : IsTold d d'
  pub same_hub : d'.client.hub ≡ d.client.hub
  pub same_channel : d'.channel ≡ d.channel

answer-Serves :
    (d : Dashboard) (h : Handler) (a : Answer)
    → IsServing d
    → IsHonest d.client h
    → (d' : Dashboard) × (answer d (h, a) ≡ some (d', api a)) × Serves d d'
unfolding answer broadcast_subscription
answer-Serves d h a v honest = elim (Bool-cases (eqb h.notified 0)) [
  | inl silent ↦ (
    record d { client = h.sub },
    rw silent refl,
    record {
      serving =
          keep-IsServing d h.sub d.stats.broker v honest.same_hub (nothing_touched d.stats.broker)
            v.limited.live;
      same_counters = refl;
      told = inl (honest.same_types silent, honest.same_addresses silent);
      same_hub = honest.same_hub;
      same_channel = refl;
    },
  )
  | inr calls ↦
      let (frames, runs, changed, live) =
        broadcast_lem d.stats.broker (subscription_frame h.sub) v.limited.live in
      let b = record d.stats.broker { frames = frames } in
      (
        with_broker b (record d { client = h.sub }),
        rw (calls, runs) refl,
        record {
          serving =
              keep-IsServing d h.sub b v honest.same_hub
                (record {
                  same_counters = refl;
                  same_clients = refl;
                  same_count = refl;
                  same_limit = refl;
                })
                live;
          same_counters = refl;
          told = inr changed;
          same_hub = honest.same_hub;
          same_channel = refl;
        },
      )
]

-- One more request for a stream.
arrived-IsServing :
    (d : Dashboard) → IsServing d → IsServing (record d { streams = d.streams ++ arrived ∷ [] })
arrived-IsServing d v = record {
  sound = v.sound;
  limited = record {
    counted = omega (arith, v.limited.counted, count-append is_counted d.streams (arrived ∷ []));
    capped = omega (arith, v.limited.capped, count-append is_served d.streams (arrived ∷ []));
    live = v.limited.live;
  };
  capped = v.capped;
}

answered :
    (d : Dashboard) (p : Handler × Answer)
    → IsServing d
    → IsHonest d.client p.0
    → (d' : Dashboard) × (content : Content) × (answer d p ≡ some (d', content)) × Serves d d'
answered d (h, a) v honest =
    let (d', runs, serves) = answer-Serves d h a v honest in (d', api a, runs, serves)

serve_route-Serves :
    (r : Route) (d : Dashboard) (call : Call)
    → IsServing d
    → (d' : Dashboard) × (content : Content) × (serve_route r d call ≡ some (d', content))
      × Serves d d'
unfolding serve_route handle_stats snapshot
serve_route-Serves to_static_files d call v = (
  d,
  _,
  refl,
  record {
    serving = v;
    same_counters = refl;
    told = inl (refl, refl);
    same_hub = refl;
    same_channel = refl;
  },
)
serve_route-Serves to_events d call v = (
  _,
  _,
  refl,
  record {
    serving = arrived-IsServing d v;
    same_counters = refl;
    told = inl (refl, refl);
    same_hub = refl;
    same_channel = refl;
  },
)
serve_route-Serves to_stats d call v =
    let b = (handle_stats d.stats.broker d.client.connected call.now).0 in
    (
      with_broker b d,
      _,
      refl,
      record {
        serving =
            keep-IsServing d d.client b v refl
              (record {
                same_counters = refl;
                same_clients = refl;
                same_count = refl;
                same_limit = refl;
              })
              v.limited.live;
        same_counters = refl;
        told = inl (refl, refl);
        same_hub = refl;
        same_channel = refl;
      },
    )
serve_route-Serves to_subscription d call v =
    let r = request_of call call.as_subscription in
    answered d (handle_subscription call.nets (subscription_handler d) r) v
      (handle_subscription-IsHonest call.nets d.client r)
serve_route-Serves to_subscribes d call v =
    let r = request_of call call.as_subscription in
    answered d (handle_dynamic_subscribe (call.nets 0) (subscription_handler d) r) v
      (handle_dynamic_subscribe-IsHonest (call.nets 0) d.client r)
serve_route-Serves to_unsubscribes d call v =
    let r = request_of call call.as_subscription in
    answered d (handle_dynamic_unsubscribe (call.nets 0) (subscription_handler d) r) v
      (handle_dynamic_unsubscribe-IsHonest (call.nets 0) d.client r)
serve_route-Serves to_transaction d call v =
    let r = request_of call call.as_transaction in
    answered d (handle_get_transaction (call.nets 0) (query_handler d) r) v
      (handle_get_transaction-IsHonest (call.nets 0) d.client r)
serve_route-Serves to_block d call v =
    let r = request_of call call.as_block in
    answered d (handle_get_block (call.nets 0) (query_handler d) r) v
      (handle_get_block-IsHonest (call.nets 0) d.client r)

pub serve_http-Serves :
    (d : Dashboard) (call : Call)
    → IsServing d
    → (d' : Dashboard) × (reply : Reply) × (serve_http d call ≡ some (d', reply)) × Serves d d'
unfolding serve_http
serve_http-Serves d call v =
    let (d', content, runs, serves) = serve_route-Serves (route call.path) d call v in
    (d', record { headers = security_headers []; content = content }, rw runs refl, serves)

-- If the channels are sound and the streams limited: every request is answered without a panic, on
-- every route and with whatever body; and it leaves the types and addresses of the client as they
-- were, or each dashboard has been offered a frame with the new ones.
pub changes_are_told :
    (d : Dashboard) (call : Call)
    → IsServing d
    → (d' : Dashboard) × (reply : Reply) × (serve_http d call ≡ some (d', reply)) × IsTold d d'
changes_are_told d call v =
    let (d', reply, runs, serves) = serve_http-Serves d call v in (d', reply, runs, serves.told)
