-- ===== src/Subscription/Node/Sent.antt =====
-- The requests that the fast path of `Reconfigure` sends, and what the node makes of them.
use klever_subscriber.Base.{
  ℕ, ◌≡◌, refl, ◌∙◌, ap, String, Bool, true, false, ◌&&◌, ◌∷◌, arith, inl, inr, Bool-cases,
  Option-cases, string_eq, ◌⊎◌,
}
use klever_subscriber.Chan.{receive}
use klever_subscriber.Request.{
  Params, Request, Requests, register, by_others, Network, write_message, exchange, send_request,
}
use klever_subscriber.Request.Sent.{by_others-sent, retire-sent}
use klever_subscriber.Subscriber.{Subscriber}
use klever_subscriber.Subscription.{is_ok, send, send_if}

register-sent : (s : Requests) → (register s).0.sent ≡ s.sent
unfolding register
register-sent s = refl

-- A call that succeeds has sent exactly its request.
exchange-sent :
    (net : Network) (s : Requests) (ch : ℕ) (request : Request)
    → is_ok (exchange net s ch request).1 ≡ true
    → (exchange net s ch request).0.sent ≡ request ∷ s.sent
unfolding exchange
exchange-sent net s ch request h =
    let asked = record s { sent = request ∷ s.sent } in
    elim (Option-cases (write_message net)) [
      | inr (e, fails) ↦ absurd (ground arith)
      | inl writes ↦ elim (Bool-cases net.ctx_first) [
        | inl ctx ↦ absurd (ground arith)
        | inr waited ↦ ground (
          arith,
          by_others-sent asked net.meanwhile,
          retire-sent
              (record (by_others asked net.meanwhile) {
                replies = (receive (by_others asked net.meanwhile).replies ch).0;
              })
              request.id,
        )
      ]
    ]

send-sent :
    (net : Network) (s : Subscriber) (method : String) (params : Params)
    → is_ok (send net s method params).1 ≡ true
    → (send net s method params).0.requests.sent
      ≡ record { id = (register s.requests).1; method = method; params = params } ∷ s.requests.sent
unfolding send send_request
send-sent net s method params h =
    let request : Request = record {
      id = (register s.requests).1;
      method = method;
      params = params;
    } in
    exchange-sent net (register s.requests).0 (register s.requests).2 request h
    ∙ ap (◌∷◌ request) (register-sent s.requests)

-- One step of the fast path that succeeds: nothing was needed, or the request was sent.
pub send_if-sent :
    (needed : Bool) (net : Network) (method : String) (params : Params) (p : Subscriber × Bool)
    → (send_if needed net method params p).1 ≡ true
    → let q = send_if needed net method params p in
      (p.1 ≡ true)
      × (((needed ≡ false) × (q.0.requests.sent ≡ p.0.requests.sent))
          ⊎ ((id : String) × (q.0.requests.sent
                ≡ record { id = id; method = method; params = params } ∷ p.0.requests.sent)))
unfolding send_if
send_if-sent needed net method params p h = elim (Bool-cases (p.1 && needed)) [
  | inl sends ↦ (
    ground arith,
    inr ((register p.0.requests).1, rw sends (send-sent net p.0 method params (rw sends at h))),
  )
  | inr skips ↦ (ground arith, inl (ground arith, ground arith))
]
