-- ===== src/Examples/Streams.antt =====
-- What examples/stream and examples/reconnect ask for and print.
use mathlib.Core.List.{Sublistᴰ}
use klever_subscriber.Base.{
  ℕ, ◌*◌, ◌≡◌, refl, ap, String, List, [], ◌∷◌, ◌++◌, some, map, inl, inr, Bool-cases, ◌==◌,
  string_eq, true, false,
}
use klever_subscriber.Event.{Event, event_blocks, event_transactions}
use klever_subscriber.Hub.{Action, Clients, run}
use klever_subscriber.Hub.Safety.{no_clients}
use klever_subscriber.Hub.Buffers.{buffer_at}
use klever_subscriber.Hub.Delivery.{published, received, received_in_order}
use klever_subscriber.Frame.Pipeline.{Sublistᴰ-map}
use klever_subscriber.Subscriber.{
  Subscriber, with_scheme, with_on_connect, with_on_disconnect, with_on_error,
  with_reconnect_interval, second,
}
use klever_subscriber.Subscriber.Construction.{any_bad, new_lem}
use klever_subscriber.Examples.{
  Environment, node_scheme, node_host, streaming_from, stream_main, reconnect_main, print_types,
}

print_types-map : (evts : List Event) → print_types evts ≡ map (λ (evt : Event). evt.type) evts
unfolding print_types
print_types-map [] = refl
print_types-map (evt ∷ evts) = ap (◌∷◌ evt.type) (print_types-map evts)

-- In every run from no subscription, the types that these programs have printed are those of events
-- that `fanOut` was given, in the order of publication, each as often.
pub printed_in_order :
    (as' : List Action) (w : Clients) (c : ℕ)
    → run no_clients as' ≡ some w
    → Sublistᴰ
        (print_types (received no_clients c as' ++ buffer_at w.hub.channels c))
        (map (λ (evt : Event). evt.type) (published as'))
printed_in_order as' w c ran =
    rw (print_types-map (received no_clients c as' ++ buffer_at w.hub.channels c))
      (Sublistᴰ-map (λ (evt : Event). evt.type) (received_in_order as' w c ran))

-- Whatever the environment, neither program panics in `New`, and their clients ask for blocks, and
-- the first for transactions as well.
pub examples_start :
    (env : Environment)
    → ((p : Subscriber × String) × (stream_main env ≡ some p)
        × (p.0.types ≡ event_blocks ∷ event_transactions ∷ []))
      × ((s : Subscriber) × (reconnect_main env ≡ some s) × (s.types ≡ event_blocks ∷ []))
unfolding stream_main reconnect_main
examples_start env =
    let ok : any_bad (with_scheme (node_scheme env) ∷ []) ≡ false =
      elim (Bool-cases (env "KLEVER_WSS" == "")) [ inl ws ↦ rw ws refl | inr wss ↦ rw wss refl ] in
    let (s, news, _, types, _, _, _, _, _) =
      new_lem (node_host env) (some (event_blocks ∷ event_transactions ∷ []))
        (with_scheme (node_scheme env) ∷ []) ok in
    let (s', news', _, types', _, _, _, _, _) =
      new_lem (node_host env) (some (event_blocks ∷ []))
        (with_scheme (node_scheme env)
          ∷ with_reconnect_interval (2 * second)
          ∷ with_on_connect true
          ∷ with_on_disconnect true
          ∷ with_on_error true
          ∷ [])
        ok in
    (((s, streaming_from s), rw (stream_main, news) refl, types), (s', news', types'))
