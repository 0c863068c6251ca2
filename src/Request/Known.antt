-- ===== src/Request/Known.antt =====
-- What `sendRequest` and the goroutines beside it keep true of the map of pending requests.
use klever_subscriber.Base.{
  ℕ, ◌≡◌, ◌∙◌, String, List, [], ◌∷◌, none, string_eq, nat_eq, arith, inl, inr, Bool-cases,
  Option-cases, beq_refl, get_elem?, length, length-append, length-set,
}
use klever_subscriber.Chan.{Heap, new_chan, deliver, offer, receive}
use klever_subscriber.Chan.Laws.{receive_runs, receive-none}
use klever_subscriber.Request.{
  Params, Request, Response, lookup, Requests, register, retire, route_response, Other, routes,
  fails_all, registers, retires, by_other, by_others, Network, write_message, send_request,
  exchange,
}
use klever_subscriber.Request.Pending.{lookup-delete, All-assign, All-delete}
use klever_subscriber.Request.Outcome.{IsKnown, Known-mono}

length-offer :
    (resp : Response) (replies : Heap Response) (c : ℕ)
    → length (offer resp replies c) ≡ length replies
unfolding offer
length-offer resp replies c = elim (Option-cases (get_elem? replies c)) [
  | inl gone ↦ ground arith
  | inr (ch, at) ↦ ground (arith, length-set replies c (deliver resp ch))
]

length-receive : (replies : Heap Response) (c : ℕ) → length (receive replies c).0 ≡ length replies
length-receive replies c = elim (Option-cases (get_elem? replies c)) [
  | inl gone ↦ rw (receive-none replies c gone)
  | inr (ch, at) ↦ rw (receive_runs replies c ch at) (length-set replies c _)
]

by_other-IsKnown : (s : Requests) (o : Other) → IsKnown s → IsKnown (by_other s o)
unfolding by_other
by_other-IsKnown s (routes resp) k = elim (Option-cases (lookup resp.id s.pending)) [
  | inl gone ↦ rw (gone, route_response) k
  | inr (c, at) ↦ rw (at, route_response, length-offer resp s.replies c) k
]
by_other-IsKnown s fails_all k = tt
by_other-IsKnown s registers k =
    let more = length-append s.replies (new_chan 1 ∷ []) in
    All-assign _ _ (length s.replies) s.pending (omega arith)
      (Known-mono (length s.replies) _ s.pending (omega arith) k)
by_other-IsKnown s (retires id) k = All-delete _ id s.pending k

by_others-IsKnown : (s : Requests) (os : List Other) → IsKnown s → IsKnown (by_others s os)
unfolding by_others
by_others-IsKnown s [] k = k
by_others-IsKnown s (o ∷ os) k = by_others-IsKnown (by_other s o) os (by_other-IsKnown s o k)

retire-IsKnown : (s : Requests) (id : String) → IsKnown s → IsKnown (retire s id)
unfolding retire
retire-IsKnown s id k = All-delete _ id s.pending k

taken-IsKnown :
    (s : Requests) (ch : ℕ) → IsKnown s → IsKnown (record s { replies = (receive s.replies ch).0 })
taken-IsKnown s ch k = rw (length-receive s.replies ch) k

retired : (s : Requests) (id : String) → lookup id (retire s id).pending ≡ none
unfolding retire
retired s id = lookup-delete id id s.pending ∙ (rw (beq_refl id))

-- On every branch the exchange ends by its deferred `delete`.
exchange-retires :
    (net : Network) (s : Requests) (ch : ℕ) (request : Request)
    → IsKnown s
    → (s' : Requests) × ((exchange net s ch request).0 ≡ retire s' request.id) × IsKnown s'
unfolding exchange
exchange-retires net s ch request k =
    let asked = record s { sent = request ∷ s.sent } in
    let s' = by_others asked net.meanwhile in
    let known = by_others-IsKnown asked net.meanwhile k in
    elim (Option-cases (write_message net)) [
      | inr (e, fails) ↦ (s, ground arith, k)
      | inl writes ↦ elim (Bool-cases net.ctx_first) [
        | inl ctx ↦ (s', ground arith, known)
        | inr waited ↦ (
          record s' { replies = (receive s'.replies ch).0 },
          ground arith,
          taken-IsKnown s' ch known,
        )
      ]
    ]

-- If the map of pending requests names only channels that have been made, then whatever the network
-- does, when a request returns its id is no longer pending, and the map is still so.
pub send_request-cleans_up :
    (net : Network) (s : Requests) (method : String) (params : Params)
    → IsKnown s
    → let s' = (send_request net s method params).0 in
      (lookup (register s).1 s'.pending ≡ none) × IsKnown s'
unfolding send_request
send_request-cleans_up net s method params k =
    let known : IsKnown (register s).0 = unfold by_other in by_other-IsKnown s registers k in
    let id = (register s).1 in
    let request : Request = record { id = id; method = method; params = params } in
    let (s', eq, known') = exchange-retires net (register s).0 (register s).2 request known in
    rw eq (retired s' id, retire-IsKnown s' id known')
