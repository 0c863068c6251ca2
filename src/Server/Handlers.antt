-- ===== src/Server/Handlers.antt =====
-- What a call of the API changes of the client, and what the dashboards are told of it.
use klever_subscriber.Base.{
  ℕ, ◌≡◌, refl, ◌∙◌, ap, inl, inr, Bool, true, false, String, List, some, ◌==◌, ◌&&◌, string_eq,
  eqb, if◌then◌else◌, arith, Bool-cases, Option-cases,
}
use klever_subscriber.Event.{EventType}
use klever_subscriber.Request.{
  Slice, elems, GetBlockParams, Requests, Response, Result, ok, err, not_connected, write_failed,
  context_done, request_failed, Network, types_and_addresses,
}
use klever_subscriber.Subscriber.{Subscriber}
use klever_subscriber.Subscription.{
  send, send_changes, assign, bounce, reconfigure, added, dropped, add_subscriptions,
  remove_subscriptions,
}
use klever_subscriber.Subscription.Paths.{send_changes-SameBut}
use klever_subscriber.Handler.{
  SubscriptionPayload, GetTransactionRequest, Body, malformed, trailing, decoded, HttpRequest,
  Handler, Answer, decode, fetched, changed, notify, is_nil, handle_subscription,
  handle_dynamic_subscribe, handle_dynamic_unsubscribe, handle_get_transaction, handle_get_block,
}
use klever_subscriber.Handler.Checks.{refused_or_through}

-- The channels are as they were, and so is the subscription, unless `onChange` was called.
pub record IsHonest (s : Subscriber) (h : Handler) : Type 0 where
  pub same_hub : h.sub.hub ≡ s.hub
  pub same_types : eqb h.notified 0 ≡ true → h.sub.types ≡ s.types
  pub same_addresses : eqb h.notified 0 ≡ true → h.sub.addresses ≡ s.addresses

untouched : (h : Handler) → IsHonest h.sub h
untouched h = record { same_hub = refl; same_types = λ n. refl; same_addresses = λ n. refl }

-- After `onChange`.
told :
    (s s' : Subscriber)
    → s'.hub ≡ s.hub
    → IsHonest s (notify (record { sub = s'; on_change = true; notified = 0 }))
unfolding notify
told s s' same = record {
  same_hub = same;
  same_types = λ n. absurd (ground arith);
  same_addresses = λ n. absurd (ground arith);
}

bounce-hub : (s : Subscriber) → (bounce s).hub ≡ s.hub
unfolding bounce
bounce-hub s = elim (Option-cases s.conn_cancel) [
  | inl idle ↦ ground arith
  | inr (c, running) ↦ ground arith
]

-- The end of `Reconfigure`, on each of its paths.
settled-hub :
    (up success : Bool) (s s' : Subscriber) (types : List EventType) (addresses : List String)
    → s'.hub ≡ s.hub
    → (if up
        then (if success then assign s' types addresses else bounce (assign s' types addresses))
        else bounce (assign s types addresses)).hub
      ≡ s.hub
settled-hub true true s s' types addresses same = same
settled-hub true false s s' types addresses same = bounce-hub (assign s' types addresses) ∙ same
settled-hub false success s s' types addresses same = bounce-hub (assign s types addresses)

reconfigure-hub :
    (nets : ℕ → Network) (s : Subscriber) (types : List EventType) (addresses : Slice String)
    → (reconfigure nets s types addresses).hub ≡ s.hub
unfolding reconfigure
reconfigure-hub nets s types addresses =
    let (r, eq) = send_changes-SameBut nets s types addresses in
    settled-hub s.connected (send_changes nets s types addresses).1 s
      (send_changes nets s types addresses).0 types (elems addresses)
      (ap (λ (t : Subscriber). t.hub) eq)

abbrev fresh : Subscriber → Handler
fresh s = record { sub = s; on_change = true; notified = 0 }

-- Where an operation reports an error it has changed nothing.
failed-IsHonest :
    (s s' : Subscriber)
    → (s'.hub ≡ s.hub) × (s'.types ≡ s.types) × (s'.addresses ≡ s.addresses)
    → IsHonest s (fresh s')
failed-IsHonest s s' (hub, t, a) = record {
  same_hub = hub;
  same_types = λ n. t;
  same_addresses = λ n. a;
}

added-IsHonest :
    (s s' : Subscriber) (result : Result Response) (types : List EventType)
    (addresses : List String)
    → (s'.hub ≡ s.hub) × (s'.types ≡ s.types) × (s'.addresses ≡ s.addresses)
    → IsHonest s (changed (fresh s) (added (s', result) types addresses)).0
added-IsHonest s s' (ok resp) types addresses (hub, t, a) = told s _ hub
added-IsHonest s s' (err not_connected) types addresses (hub, t, a) = told s _ (bounce-hub _ ∙ hub)
added-IsHonest s s' (err (write_failed e)) types addresses (hub, t, a) =
    failed-IsHonest s s' (hub, t, a)
added-IsHonest s s' (err (context_done e)) types addresses (hub, t, a) =
    failed-IsHonest s s' (hub, t, a)
added-IsHonest s s' (err (request_failed e)) types addresses (hub, t, a) =
    failed-IsHonest s s' (hub, t, a)

dropped-IsHonest :
    (s s' : Subscriber) (result : Result Response) (types : List EventType)
    (addresses : List String)
    → (s'.hub ≡ s.hub) × (s'.types ≡ s.types) × (s'.addresses ≡ s.addresses)
    → IsHonest s (changed (fresh s) (dropped (s', result) types addresses)).0
dropped-IsHonest s s' (ok resp) types addresses (hub, t, a) = told s _ hub
dropped-IsHonest s s' (err not_connected) types addresses (hub, t, a) = told s _ hub
dropped-IsHonest s s' (err (write_failed e)) types addresses (hub, t, a) =
    failed-IsHonest s s' (hub, t, a)
dropped-IsHonest s s' (err (context_done e)) types addresses (hub, t, a) =
    failed-IsHonest s s' (hub, t, a)
dropped-IsHonest s s' (err (request_failed e)) types addresses (hub, t, a) =
    failed-IsHonest s s' (hub, t, a)

add-IsHonest :
    (net : Network) (s : Subscriber) (types : List EventType) (addresses : Slice String)
    → IsHonest s (changed (fresh s) (add_subscriptions net s types addresses)).0
unfolding add_subscriptions send
add-IsHonest net s types addresses =
    let p = send net s "subscribe" (types_and_addresses types (some (elems addresses))) in
    added-IsHonest s p.0 p.1 types (elems addresses) (refl, refl, refl)

remove-IsHonest :
    (net : Network) (s : Subscriber) (types : List EventType) (addresses : Slice String)
    → IsHonest s (changed (fresh s) (remove_subscriptions net s types addresses)).0
unfolding remove_subscriptions send
remove-IsHonest net s types addresses =
    let p = send net s "unsubscribe" (types_and_addresses types (some (elems addresses))) in
    dropped-IsHonest s p.0 p.1 types (elems addresses) (refl, refl, refl)

pub handle_subscription-IsHonest :
    (nets : ℕ → Network) (s : Subscriber) (r : HttpRequest SubscriptionPayload)
    → IsHonest s (handle_subscription nets (fresh s) r).0
unfolding handle_subscription
handle_subscription-IsHonest nets s r = elim (Bool-cases (r.method == "GET")) [
  | inl get ↦ rw get (untouched (fresh s))
  | inr other ↦ elim (Bool-cases (r.method == "POST")) [
    | inr neither ↦ rw (other, neither) (untouched (fresh s))
    | inl post ↦
        rw (other, post)
          (refused_or_through (λ p. IsHonest s p.0) r.body (fresh s) _ (λ why. untouched (fresh s))
            (λ req fine. told s _ (reconfigure-hub nets s (elems req.types) req.addresses)))
  ]
]

pub handle_dynamic_subscribe-IsHonest :
    (net : Network) (s : Subscriber) (r : HttpRequest SubscriptionPayload)
    → IsHonest s (handle_dynamic_subscribe net (fresh s) r).0
unfolding handle_dynamic_subscribe
handle_dynamic_subscribe-IsHonest net s r = elim (Bool-cases (r.method == "POST")) [
  | inr other ↦ rw other (untouched (fresh s))
  | inl post ↦ rw post (
      refused_or_through (λ p. IsHonest s p.0) r.body (fresh s) _ (λ why. untouched (fresh s))
        (λ req fine. add-IsHonest net s (elems req.types) req.addresses))
]

pub handle_dynamic_unsubscribe-IsHonest :
    (net : Network) (s : Subscriber) (r : HttpRequest SubscriptionPayload)
    → IsHonest s (handle_dynamic_unsubscribe net (fresh s) r).0
unfolding handle_dynamic_unsubscribe
handle_dynamic_unsubscribe-IsHonest net s r = elim (Bool-cases (r.method == "POST")) [
  | inr other ↦ rw other (untouched (fresh s))
  | inl post ↦ rw post (
      refused_or_through (λ p. IsHonest s p.0) r.body (fresh s) _ (λ why. untouched (fresh s))
        (λ req fine. remove-IsHonest net s (elems req.types) req.addresses))
]

abbrev querying : Subscriber → Handler
querying s = record { sub = s; on_change = false; notified = 0 }

fetched-IsHonest :
    (s : Subscriber) (p : Requests × Result String) → IsHonest s (fetched (querying s) p).0
fetched-IsHonest s (requests, ok content) = record {
  same_hub = refl;
  same_types = λ n. refl;
  same_addresses = λ n. refl;
}
fetched-IsHonest s (requests, err e) = record {
  same_hub = refl;
  same_types = λ n. refl;
  same_addresses = λ n. refl;
}

decoded-IsHonest {ℓ} :
    {P : Type ℓ} (s : Subscriber) (b : Body P) (next : P → Handler × Answer)
    → ((req : P) → IsHonest s (next req).0)
    → IsHonest s (decode b (querying s) next).0
decoded-IsHonest s (malformed e) next law = untouched (querying s)
decoded-IsHonest s trailing next law = untouched (querying s)
decoded-IsHonest s (decoded req) next law = law req

pub handle_get_transaction-IsHonest :
    (net : Network) (s : Subscriber) (r : HttpRequest GetTransactionRequest)
    → IsHonest s (handle_get_transaction net (querying s) r).0
unfolding handle_get_transaction
handle_get_transaction-IsHonest net s r = elim (Bool-cases (r.method == "POST")) [
  | inr other ↦ rw other (untouched (querying s))
  | inl post ↦ rw post (
      decoded-IsHonest s r.body _ (λ req. elim (Bool-cases (req.hash == "")) [
        | inl empty ↦ rw empty (untouched (querying s))
        | inr given ↦ rw given (fetched-IsHonest s _)
      ]))
]

pub handle_get_block-IsHonest :
    (net : Network) (s : Subscriber) (r : HttpRequest GetBlockParams)
    → IsHonest s (handle_get_block net (querying s) r).0
unfolding handle_get_block
handle_get_block-IsHonest net s r = elim (Bool-cases (r.method == "POST")) [
  | inr other ↦ rw other (untouched (querying s))
  | inl post ↦ rw post (
      decoded-IsHonest s r.body _ (λ req. elim (Bool-cases (is_nil req.nonce && req.hash == "")) [
        | inl empty ↦ rw empty (untouched (querying s))
        | inr given ↦ rw given (fetched-IsHonest s _)
      ]))
]
