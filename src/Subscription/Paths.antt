-- ===== src/Subscription/Paths.antt =====
-- What each operation leaves, on every branch.
use klever_subscriber.Base.{
  ℕ, ◌≡◌, refl, ◌∙◌, ap, String, Bool, true, false, ◌&&◌, List, Option, none, some, if◌then◌else◌,
  arith, inl, inr, Bool-cases, Option-cases, string_eq,
}
use klever_subscriber.Event.{EventType}
use klever_subscriber.Sets.{merge_types, merge_strings, remove_types, remove_strings}
use klever_subscriber.Sets.Order.{IsApart, remove-merge}
use klever_subscriber.Request.{
  Slice, elems, Params, types_and_addresses, Response, Result, ok, err, Requests, SendError,
  not_connected, write_failed, context_done, request_failed, Network, send_request,
}
use klever_subscriber.Subscriber.{Subscriber}
use klever_subscriber.Subscription.{
  send, send_if, send_changes, cancel, bounce, reconfigure, is_not_connected, added,
  add_subscriptions, dropped, remove_subscriptions,
}

-- A client as it was, but for its requests.
abbrev pub SameBut : Subscriber → Subscriber → Type 0
SameBut s s' = (r : Requests) × (s' ≡ record s { requests = r })

send-SameBut :
    (net : Network) (s : Subscriber) (method : String) (params : Params)
    → SameBut s (send net s method params).0
unfolding send
send-SameBut net s method params = ((send_request net s.requests method params).0, refl)

send_if-SameBut :
    (needed : Bool) (net : Network) (method : String) (params : Params) (s : Subscriber)
    (p : Subscriber × Bool)
    → SameBut s p.0
    → SameBut s (send_if needed net method params p).0
unfolding send_if
send_if-SameBut needed net method params s p same = elim (Bool-cases (p.1 && needed)) [
  | inl sends ↦
      let (r, eq) = send-SameBut net p.0 method params in
      (r, rw sends (eq ∙ ap (λ (t : Subscriber). record t { requests = r }) same.1))
  | inr skips ↦ rw skips same
]

pub send_changes-SameBut :
    (net : ℕ → Network) (s : Subscriber) (types : List EventType) (addresses : Slice String)
    → SameBut s (send_changes net s types addresses).0
unfolding send_changes
send_changes-SameBut net s types addresses = send_if-SameBut _ (net 2) _ _ s _ (
    send_if-SameBut _ (net 1) _ _ s _
      (send_if-SameBut _ (net 0) _ _ s (s, true) (s.requests, refl)))

pub reconfigure_paths :
    (net : ℕ → Network) (s : Subscriber) (types : List EventType) (addresses : Slice String)
    → let s' = reconfigure net s types addresses in
      let fast = s.connected && (send_changes net s types addresses).1 in
      (s'.types ≡ types)
      × (s'.addresses ≡ elems addresses)
      × (s'.reconnect_ch ≡ (if fast then s.reconnect_ch else true))
      × (s'.cancelled ≡ (if fast then s.cancelled else (cancel s s.conn_cancel).cancelled))
unfolding reconfigure bounce
reconfigure_paths net s types addresses =
    let (r, eq) = send_changes-SameBut net s types addresses in
    elim (Bool-cases s.connected) [
      | inr away ↦ elim (Option-cases s.conn_cancel) [
        | inl idle ↦ ground arith
        | inr (c, running) ↦ ground arith
      ]
      | inl up ↦ elim (Bool-cases (send_changes net s types addresses).1) [
        | inl fast ↦ ground arith
        | inr slow ↦ elim (Option-cases s.conn_cancel) [
          | inl idle ↦ ground arith
          | inr (c, running) ↦ ground arith
        ]
      ]
    ]

-- What the caller of `AddSubscriptions` and `RemoveSubscriptions` is told of a call.
abbrev pub reported : Result Response → Option SendError
reported (ok resp) = none
reported (err e) = if is_not_connected e then none else some e

abbrev lost : Result Response → Bool
lost (ok resp) = false
lost (err e) = is_not_connected e

abbrev pub on_success {ℓ} : {A : Type ℓ} → Result Response → A → A → A
on_success result new old = elim (reported result) [ none ↦ new | some e ↦ old ]

on_success_lem {ℓ} :
    {A : Type ℓ} (result : Result Response) (new old : A)
    → reported result ≡ none
    → on_success result new old ≡ new
on_success_lem result new old h = ground arith

remove_types-merge_types :
    (xs ys : List EventType) → IsApart xs ys → remove_types (merge_types xs ys) ys ≡ xs
unfolding remove_types merge_types
remove_types-merge_types xs ys h = remove-merge xs ys h

remove_strings-merge_strings :
    (xs ys : List String) → IsApart xs ys → remove_strings (merge_strings xs ys) ys ≡ xs
unfolding remove_strings merge_strings
remove_strings-merge_strings xs ys h = remove-merge xs ys h

added_paths :
    (s : Subscriber) (result : Result Response) (types : List EventType) (addresses : List String)
    → let (s', error) = added (s, result) types addresses in
      (error ≡ reported result)
      × (s'.types ≡ on_success result (merge_types s.types types) s.types)
      × (s'.addresses ≡ on_success result (merge_strings s.addresses addresses) s.addresses)
      × (s'.reconnect_ch ≡ (if lost result then true else s.reconnect_ch))
unfolding bounce
added_paths s (ok resp) types addresses = (refl, refl, refl, refl)
added_paths s (err not_connected) types addresses = elim (Option-cases s.conn_cancel) [
  | inl idle ↦ ground arith
  | inr (c, running) ↦ ground arith
]
added_paths s (err (write_failed e)) types addresses = (refl, refl, refl, refl)
added_paths s (err (context_done e)) types addresses = (refl, refl, refl, refl)
added_paths s (err (request_failed e)) types addresses = (refl, refl, refl, refl)

dropped_paths :
    (s : Subscriber) (result : Result Response) (types : List EventType) (addresses : List String)
    → let (s', error) = dropped (s, result) types addresses in
      (error ≡ reported result)
      × (s'.types ≡ on_success result (remove_types s.types types) s.types)
      × (s'.addresses ≡ on_success result (remove_strings s.addresses addresses) s.addresses)
      × (s'.reconnect_ch ≡ s.reconnect_ch)
dropped_paths s (ok resp) types addresses = (refl, refl, refl, refl)
dropped_paths s (err not_connected) types addresses = (refl, refl, refl, refl)
dropped_paths s (err (write_failed e)) types addresses = (refl, refl, refl, refl)
dropped_paths s (err (context_done e)) types addresses = (refl, refl, refl, refl)
dropped_paths s (err (request_failed e)) types addresses = (refl, refl, refl, refl)

-- The call that both operations make.
abbrev pub call : Network → Subscriber → String → List EventType → Slice String → Result Response
call net s method types addresses =
    (send net s method (types_and_addresses types (some (elems addresses)))).1

-- `AddSubscriptions` merges the new types and addresses if the node agreed, and also if there was no
-- connection: then it returns no error, and leaves a token for the reconnect. On any other error it
-- returns that, and the types, the addresses and the token stay as they were.
pub add_subscriptions_paths :
    (net : Network) (s : Subscriber) (types : List EventType) (addresses : Slice String)
    → let (s', error) = add_subscriptions net s types addresses in
      let result = call net s "subscribe" types addresses in
      (error ≡ reported result)
      × (s'.types ≡ on_success result (merge_types s.types types) s.types)
      × (s'.addresses ≡ on_success result (merge_strings s.addresses (elems addresses)) s.addresses)
      × (s'.reconnect_ch ≡ (if lost result then true else s.reconnect_ch))
unfolding add_subscriptions send
add_subscriptions_paths net s types addresses =
    added_paths (send net s "subscribe" (types_and_addresses types (some (elems addresses)))).0
      (call net s "subscribe" types addresses) types (elems addresses)

-- `RemoveSubscriptions` removes the types and addresses if the node agreed, and also if there was no
-- connection, with no error returned. On any other error it returns that and removes nothing. It
-- never asks for a reconnect.
pub remove_subscriptions_paths :
    (net : Network) (s : Subscriber) (types : List EventType) (addresses : Slice String)
    → let (s', error) = remove_subscriptions net s types addresses in
      let result = call net s "unsubscribe" types addresses in
      (error ≡ reported result)
      × (s'.types ≡ on_success result (remove_types s.types types) s.types)
      × (s'.addresses
          ≡ on_success result (remove_strings s.addresses (elems addresses)) s.addresses)
      × (s'.reconnect_ch ≡ s.reconnect_ch)
unfolding remove_subscriptions send
remove_subscriptions_paths net s types addresses =
    dropped_paths (send net s "unsubscribe" (types_and_addresses types (some (elems addresses)))).0
      (call net s "unsubscribe" types addresses) types (elems addresses)

-- Removing what was just added gives the subscriptions back, in their order, if both calls succeed
-- and nothing that was added was there before.
pub add_then_remove :
    (net net' : Network) (s : Subscriber) (types : List EventType) (addresses : Slice String)
    → IsApart s.types types
    → IsApart s.addresses (elems addresses)
    → reported (call net s "subscribe" types addresses) ≡ none
    → let s₁ = (add_subscriptions net s types addresses).0 in
      reported (call net' s₁ "unsubscribe" types addresses) ≡ none
      → let s₂ = (remove_subscriptions net' s₁ types addresses).0 in
        (s₂.types ≡ s.types) × (s₂.addresses ≡ s.addresses)
add_then_remove net net' s types addresses apart apart' agreed agreed' =
    let s₁ = (add_subscriptions net s types addresses).0 in
    let (_, added_types, added_addresses, _) = add_subscriptions_paths net s types addresses in
    let (_, kept_types, kept_addresses, _) = remove_subscriptions_paths net' s₁ types addresses in
    (
      kept_types
          ∙ on_success_lem (call net' s₁ "unsubscribe" types addresses) _ _ agreed'
          ∙ ap (λ ts. remove_types ts types)
              (added_types ∙ on_success_lem (call net s "subscribe" types addresses) _ _ agreed)
          ∙ remove_types-merge_types s.types types apart,
      kept_addresses
          ∙ on_success_lem (call net' s₁ "unsubscribe" types addresses) _ _ agreed'
          ∙ ap (λ as'. remove_strings as' (elems addresses))
              (added_addresses ∙ on_success_lem (call net s "subscribe" types addresses) _ _ agreed)
          ∙ remove_strings-merge_strings s.addresses (elems addresses) apart',
    )
