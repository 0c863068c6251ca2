-- ===== src/Subscription/Outcomes.antt =====
-- What AddSubscriptions and RemoveSubscriptions leave, by the reply of the node.
use klever_subscriber.Base.{
  subst, ◌+◌, ◌<◌, ◌^◌, ◌≡◌, ◌∙◌, ap, String, List, some, length, string_eq, arith,
}
use klever_subscriber.Event.{EventType}
use klever_subscriber.Request.{
  Slice, elems, Request, Requests, types_and_addresses, Network, send_request,
}
use klever_subscriber.Request.Reply.{IsForeign}
use klever_subscriber.Request.Outcome.{IsKnown, outcome, next_request, send_request_lem}
use klever_subscriber.Request.Sent.{and_sent, send_request-sent}
use klever_subscriber.Subscriber.{Subscriber}
use klever_subscriber.Subscription.{send, add_subscriptions, remove_subscriptions}
use klever_subscriber.Subscription.Holdings.{told, Gains, Loses, added-Gains, dropped-Loses}

module _ (net : Network) (s : Subscriber) (types : List EventType) (addresses : Slice String) where
  -- A request with the types and the addresses that goes out where the connection takes it.
  abbrev pub asking : String → List Request
  asking method =
      and_sent net
        (record {
          id = next_request s.requests;
          method = method;
          params = types_and_addresses types (some (elems addresses));
        })
        s.requests.sent

  module _ (known : IsKnown s.requests) where
    module _ (small : s.requests.next_id + 1 + length net.meanwhile < 2 ^ 63) where
      module _ (foreign : IsForeign (next_request s.requests) net.meanwhile) where
        -- `AddSubscriptions` sends one request with all the types and addresses, where the connection
        -- takes it. If the node's reply, the first under the request's id, is no error, the client
        -- holds these and what it held; also if there was no connection: then a token is left for the
        -- reconnect and the connection's context, if there is one, is cancelled. On any other error,
        -- which is returned, the client holds what it held. This holds if the channels of the map have
        -- been made, for fewer than 2 ^ 63 requests, and if no other goroutine retires this request.
        pub add_subscriptions_lem :
            let (s', error) = add_subscriptions net s types addresses in
            let result = outcome net (next_request s.requests) in
            (error ≡ told result)
            × Gains s result types (elems addresses) s'
            × (s'.requests.sent ≡ asking "subscribe")
        unfolding add_subscriptions send
        add_subscriptions_lem =
            let params = types_and_addresses types (some (elems addresses)) in
            let p = send_request net s.requests "subscribe" params in
            let (e, g, r) = added-Gains (record s { requests = p.0 }) p.1 types (elems addresses) in
            let same = send_request_lem net s.requests "subscribe" params known small foreign in
            (
              e ∙ ap told same,
              subst
                  (λ x.
                    Gains s x types (elems addresses) (add_subscriptions net s types addresses).0)
                  same
                  (record {
                    by_type = g.by_type;
                    by_address = g.by_address;
                    token = g.token;
                    contexts = g.contexts;
                  }),
              ap (λ (x : Requests). x.sent) r
                  ∙ send_request-sent net s.requests "subscribe" params (omega (arith, small)),
            )

        -- `RemoveSubscriptions` sends one request with all the types and addresses, where the
        -- connection takes it. If the node's reply, the first under the request's id, is no error, or
        -- if there was no connection, the client holds what it held without these. On any other error,
        -- which is returned, it holds what it held. It never leaves a token, and cancels no context.
        -- This holds if the channels of the map have been made, for fewer than 2 ^ 63 requests, and if
        -- no other goroutine retires this request.
        pub remove_subscriptions_lem :
            let (s', error) = remove_subscriptions net s types addresses in
            let result = outcome net (next_request s.requests) in
            (error ≡ told result)
            × Loses s result types (elems addresses) s'
            × (s'.requests.sent ≡ asking "unsubscribe")
        unfolding remove_subscriptions send
        remove_subscriptions_lem =
            let params = types_and_addresses types (some (elems addresses)) in
            let p = send_request net s.requests "unsubscribe" params in
            let (e, g, r) =
              dropped-Loses (record s { requests = p.0 }) p.1 types (elems addresses) in
            let same = send_request_lem net s.requests "unsubscribe" params known small foreign in
            (
              e ∙ ap told same,
              subst
                  (λ x.
                    Loses s x types (elems addresses)
                      (remove_subscriptions net s types addresses).0)
                  same
                  (record {
                    by_type = g.by_type;
                    by_address = g.by_address;
                    token = g.token;
                    contexts = g.contexts;
                  }),
              ap (λ (x : Requests). x.sent) r
                  ∙ send_request-sent net s.requests "unsubscribe" params (omega (arith, small)),
            )
