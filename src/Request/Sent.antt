-- ===== src/Request/Sent.antt =====
-- What a request puts on the connection.
use klever_subscriber.Base.{
  ℕ, ◌+◌, ◌<◌, ◌^◌, ◌≡◌, refl, ◌∙◌, ap, String, Bool, true, false, ◌&&◌, List, [], ◌∷◌, Option,
  none, some, if◌then◌else◌, arith, inl, inr, Bool-cases, Option-cases, string_eq,
}
use klever_subscriber.Chan.{receive}
use klever_subscriber.Request.{
  Params, Request, Requests, retire, lookup, route_response, Other, routes, fails_all, registers,
  retires, by_other, by_others, Network, write_message, exchange, send_request, no_requests,
}
use klever_subscriber.Decimal.{format_int}
use klever_subscriber.Request.Outcome.{next_request, register_lem}

by_other-sent : (s : Requests) (o : Other) → (by_other s o).sent ≡ s.sent
unfolding by_other
by_other-sent s (routes resp) = elim (Option-cases (lookup resp.id s.pending)) [
  | inl gone ↦ rw (gone, route_response)
  | inr (c, at) ↦ rw (at, route_response)
]
by_other-sent s fails_all = refl
by_other-sent s registers = refl
by_other-sent s (retires id) = refl

pub by_others-sent : (s : Requests) (os : List Other) → (by_others s os).sent ≡ s.sent
unfolding by_others
by_others-sent s [] = refl
by_others-sent s (o ∷ os) = by_others-sent (by_other s o) os ∙ by_other-sent s o

pub retire-sent : (s : Requests) (id : String) → (retire s id).sent ≡ s.sent
unfolding retire
retire-sent s id = refl

-- The connection takes what is written.
abbrev pub takes : Network → Bool
takes net = net.connected && elim net.write_error [ none ↦ true | some e ↦ false ]

abbrev pub and_sent : Network → Request → List Request → List Request
and_sent net request sent = if takes net then request ∷ sent else sent

write_message-takes :
    (net : Network) (e : Option String)
    → net.write_error ≡ e
    → elim (write_message net) [ none ↦ true | some x ↦ false ] ≡ takes net
unfolding write_message
write_message-takes net none h = elim (Bool-cases net.connected) [
  | inl up ↦ rw (up, h) refl
  | inr down ↦ rw down refl
]
write_message-takes net (some e) h = elim (Bool-cases net.connected) [
  | inl up ↦ rw (up, h) refl
  | inr down ↦ rw down refl
]

exchange-sent :
    (net : Network) (s : Requests) (ch : ℕ) (request : Request)
    → (exchange net s ch request).0.sent ≡ and_sent net request s.sent
unfolding exchange
exchange-sent net s ch request =
    let asked = record s { sent = request ∷ s.sent } in
    let same = write_message-takes net net.write_error refl in
    elim (Option-cases (write_message net)) [
      | inr (e, fails) ↦
          let off : takes net ≡ false = ground (arith, same, fails) in
          rw (fails, off, exchange) (retire-sent s request.id)
      | inl writes ↦
          let on : takes net ≡ true = ground (arith, same, writes) in
          elim (Bool-cases net.ctx_first) [
            | inl ctx ↦
                rw (writes, ctx, on, exchange)
                  (retire-sent (by_others asked net.meanwhile) request.id
                    ∙ by_others-sent asked net.meanwhile)
            | inr waited ↦
                rw (writes, waited, on, exchange)
                  (retire-sent
                      (record (by_others asked net.meanwhile) {
                        replies = (receive (by_others asked net.meanwhile).replies ch).0;
                      })
                      request.id
                    ∙ by_others-sent asked net.meanwhile)
          ]
    ]

-- A request goes out under the next id, if the connection takes it.
pub send_request-sent :
    (net : Network) (s : Requests) (method : String) (params : Params)
    → s.next_id + 1 < 2 ^ 63
    → (send_request net s method params).0.sent
      ≡ and_sent net (record { id = next_request s; method = method; params = params }) s.sent
unfolding send_request
send_request-sent net s method params small =
    ap
      (λ (r : Requests × String × ℕ).
        (exchange net r.0 r.2 (record { id = r.1; method = method; params = params })).0.sent)
      (register_lem s small)
    ∙ exchange-sent net _ _ _

-- What a program has sent that asks one thing once it is connected, unless its context is done before.
abbrev pub asked_once : Option String → Network → Request → List Request
asked_once none net request = and_sent net request []
asked_once (some e) net request = []

pub first_request-sent :
    (net : Network) (method : String) (params : Params)
    → (send_request net no_requests method params).0.sent
      ≡ and_sent net (record { id = "1"; method = method; params = params }) []
unfolding format_int
first_request-sent net method params = send_request-sent net no_requests method params (omega arith)
