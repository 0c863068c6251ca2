-- ===== src/Server/Routes.antt =====
-- What a request to the server broadcasts to the dashboards.
use klever_subscriber.Base.{
  ◌>>=◌, ◌≡◌, refl, subst, inl, inr, [], ◌∷◌, ◌++◌, some, arith, Bool-cases, Option-cases, eqb,
}
use klever_subscriber.Broker.{snapshot, broadcast_subscription}
use klever_subscriber.Broker.Fanout.{broadcast_lem}
use klever_subscriber.Broker.Stats.{handle_stats}
use klever_subscriber.Broker.Sse.{arrived}
use klever_subscriber.Broker.Sse.Order.Runs.{arrives-IsInOrder}
use klever_subscriber.Broker.Wire.{codes, is_one_line}
use klever_subscriber.Handler.{
  Handler, Answer, handle_subscription, handle_dynamic_subscribe, handle_dynamic_unsubscribe,
  handle_get_transaction, handle_get_block,
}
use klever_subscriber.Server.{
  Dashboard, Call, Content, Route, to_static_files, to_events, to_stats, to_subscription,
  to_subscribes, to_unsubscribes, to_transaction, to_block, answer, serve_route, serve_http, route,
  with_broker, subscription_handler, query_handler, request_of,
}
use klever_subscriber.Server.Safety.{IsServing, subscription_frame}
use klever_subscriber.Server.Telling.{streaming, Tells, silent-Tells, alike-Tells, broadcast-Tells}

answer-Tells :
    (d d' : Dashboard) (p : Handler × Answer) (content : Content)
    → IsServing d
    → answer d p ≡ some (d', content)
    → Tells (streaming d) (streaming d') []
unfolding answer broadcast_subscription codes is_one_line
answer-Tells d d' (h, a) content v runs = elim (Bool-cases (eqb h.notified 0)) [
  | inl silent ↦
      let new : record d { client = h.sub } ≡ d' = ground (arith, runs, silent) in
      subst (λ x. Tells (streaming d) (streaming x) []) new
        (alike-Tells d.stats.broker (streaming d) refl)
  | inr calls ↦
      let (frames, sends, _, _) =
        broadcast_lem d.stats.broker (subscription_frame h.sub) v.limited.live in
      let b' = record d.stats.broker { frames = frames } in
      let new : with_broker b' (record d { client = h.sub }) ≡ d' =
        ground (arith, runs, calls, sends) in
      subst (λ x. Tells (streaming d) (streaming x) []) new
        (broadcast-Tells (streaming d) d.stats.broker b' (subscription_frame h.sub) refl
          v.limited.live sends refl)
]

serve_route-Tells :
    (r : Route) (d d' : Dashboard) (call : Call) (content : Content)
    → IsServing d
    → serve_route r d call ≡ some (d', content)
    → Tells (streaming d) (streaming d') []
unfolding serve_route handle_stats snapshot
serve_route-Tells to_static_files d d' call content v runs =
    let new : d ≡ d' = ground (arith, runs) in
    subst (λ x. Tells (streaming d) (streaming x) []) new
      (alike-Tells d.stats.broker (streaming d) refl)
serve_route-Tells to_events d d' call content v runs =
    let new : record d { streams = d.streams ++ arrived ∷ [] } ≡ d' = ground (arith, runs) in
    subst (λ x. Tells (streaming d) (streaming x) []) new
      (silent-Tells (streaming d) _ (λ history o. arrives-IsInOrder history (streaming d) o))
serve_route-Tells to_stats d d' call content v runs =
    let new : with_broker (handle_stats d.stats.broker d.client.connected call.now).0 d ≡ d' =
      ground (arith, runs) in
    subst (λ x. Tells (streaming d) (streaming x) []) new (alike-Tells _ (streaming d) refl)
serve_route-Tells to_subscription d d' call content v runs =
    answer-Tells d d'
      (handle_subscription call.nets (subscription_handler d)
        (request_of call call.as_subscription))
      content v runs
serve_route-Tells to_subscribes d d' call content v runs =
    answer-Tells d d'
      (handle_dynamic_subscribe (call.nets 0) (subscription_handler d)
        (request_of call call.as_subscription))
      content v runs
serve_route-Tells to_unsubscribes d d' call content v runs =
    answer-Tells d d'
      (handle_dynamic_unsubscribe (call.nets 0) (subscription_handler d)
        (request_of call call.as_subscription))
      content v runs
serve_route-Tells to_transaction d d' call content v runs =
    answer-Tells d d'
      (handle_get_transaction (call.nets 0) (query_handler d) (request_of call call.as_transaction))
      content v runs
serve_route-Tells to_block d d' call content v runs =
    answer-Tells d d'
      (handle_get_block (call.nets 0) (query_handler d) (request_of call call.as_block)) content v
      runs

pub serve_http-Tells :
    (d d' : Dashboard) (call : Call)
    → IsServing d
    → (serve_http d call >>= λ (d'', reply). some d'') ≡ some d'
    → Tells (streaming d) (streaming d') []
unfolding serve_http
serve_http-Tells d d' call v runs = elim (Option-cases (serve_route (route call.path) d call)) [
  | inl fails ↦ absurd (ground (arith, runs, fails))
  | inr ((d'', content), serves) ↦
      let new : d'' ≡ d' = ground (arith, runs, serves) in
      subst (λ x. Tells (streaming d) (streaming x) []) new
        (serve_route-Tells (route call.path) d d'' call content v serves)
]
