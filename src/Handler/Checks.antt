-- ===== src/Handler/Checks.antt =====
-- What the handlers let through.
use klever_subscriber.Base.{
  ℕ, nat_eq, ◌≡◌, refl, ◌∙◌, sym, ap, subst, Bool, true, false, ◌||◌, List, [], ◌∷◌, Option, none,
  some, ◌==◌, string_eq, arith, inl, inr, Bool-cases, Option-cases, contains, beq→eq, if◌then◌else◌,
}
use klever_subscriber.Event.{EventType, valid_event_types}
use klever_subscriber.Sets.{merge_types, remove_types}
use klever_subscriber.Sets.Members.{contains-merge, contains-remove}
use klever_subscriber.Request.{
  elems, Response, Result, ok, err, SendError, not_connected, write_failed, context_done,
  request_failed, Network,
}
use klever_subscriber.Subscriber.{Subscriber}
use klever_subscriber.Subscription.{reconfigure, add_subscriptions, remove_subscriptions}
use klever_subscriber.Subscription.Paths.{
  reconfigure_paths, add_subscriptions_paths, remove_subscriptions_paths, call, on_success,
}
use klever_subscriber.Handler.{
  SubscriptionPayload, Body, malformed, trailing, decoded, HttpRequest, Handler, Answer, Complaint,
  invalid_json, trailing_data, invalid, failed, subscription, bytes, first_unknown,
  validate_payload, notify, decode, validate, changed, handle_subscription,
  handle_dynamic_subscribe, handle_dynamic_unsubscribe,
}

-- Every type that the client holds is one of the four.
abbrev pub IsKnown : List EventType → Type 0
IsKnown types = (t : EventType) → contains types t ≡ true → valid_event_types t ≡ true

first_unknown-none : (types : List EventType) → first_unknown types ≡ none → IsKnown types
unfolding first_unknown
first_unknown-none [] h t m = absurd (cc)
first_unknown-none (x ∷ types) h t m = elim (Bool-cases (valid_event_types x)) [
  | inr bad ↦ absurd (ground arith)
  | inl good ↦ elim (Bool-cases (x == t)) [
    | inl same ↦ subst (λ y. valid_event_types y ≡ true) (beq→eq x t same) good
    | inr other ↦ first_unknown-none types (ground arith) t (ground arith)
  ]
]

validate_payload-IsKnown :
    (req : SubscriptionPayload) → validate_payload req ≡ none → IsKnown (elems req.types)
unfolding validate_payload
validate_payload-IsKnown req h = elim (Option-cases (first_unknown (elems req.types))) [
  | inl fine ↦ first_unknown-none (elems req.types) fine
  | inr (e, bad) ↦ absurd (ground arith)
]

notify-sub : (h : Handler) → (notify h).sub ≡ h.sub
unfolding notify
notify-sub h = ground arith

choice-IsKnown :
    (result : Result Response) (new old : List EventType)
    → IsKnown new
    → IsKnown old
    → IsKnown (on_success result new old)
choice-IsKnown (ok resp) new old n o = n
choice-IsKnown (err not_connected) new old n o = n
choice-IsKnown (err (write_failed e)) new old n o = o
choice-IsKnown (err (context_done e)) new old n o = o
choice-IsKnown (err (request_failed e)) new old n o = o

merge_types-IsKnown :
    (old add : List EventType) → IsKnown old → IsKnown add → IsKnown (merge_types old add)
unfolding merge_types
merge_types-IsKnown old add o a t m = ground (arith, contains-merge old add t, o t, a t)

remove_types-IsKnown : (old gone : List EventType) → IsKnown old → IsKnown (remove_types old gone)
unfolding remove_types
remove_types-IsKnown old gone o t m = ground (arith, contains-remove old gone t, o t)

changed-sub : (h : Handler) (p : Subscriber × Option SendError) → (changed h p).0.sub ≡ p.0
changed-sub h (sub, some e) = refl
changed-sub h (sub, none) = notify-sub (record h { sub = sub })

added-IsKnown :
    (net : Network) (s : Subscriber) (req : SubscriptionPayload)
    → IsKnown s.types
    → IsKnown (elems req.types)
    → IsKnown (add_subscriptions net s (elems req.types) req.addresses).0.types
added-IsKnown net s req o a =
    let (_, types, _, _) = add_subscriptions_paths net s (elems req.types) req.addresses in
    subst IsKnown (sym types) (
      choice-IsKnown (call net s "subscribe" (elems req.types) req.addresses) _ _
        (merge_types-IsKnown s.types (elems req.types) o a) o)

dropped-IsKnown :
    (net : Network) (s : Subscriber) (req : SubscriptionPayload)
    → IsKnown s.types
    → IsKnown (remove_subscriptions net s (elems req.types) req.addresses).0.types
dropped-IsKnown net s req o =
    let (_, types, _, _) = remove_subscriptions_paths net s (elems req.types) req.addresses in
    subst IsKnown (sym types) (
      choice-IsKnown (call net s "unsubscribe" (elems req.types) req.addresses) _ _
        (remove_types-IsKnown s.types (elems req.types) o) o)

-- A request is refused with 400 and the handler as it was, or its body is decoded and valid and
-- reaches the client's operation.
pub refused_or_through {ℓ} :
    (P : Handler × Answer → Type ℓ) (b : Body SubscriptionPayload) (h : Handler)
    (next : SubscriptionPayload → Handler × Answer)
    → ((why : Complaint) → P (h, failed 400 why))
    → ((req : SubscriptionPayload) → validate_payload req ≡ none → P (next req))
    → P (decode b h (λ req. validate (validate_payload req) h (next req)))
refused_or_through P (malformed e) h next refuses law = refuses (invalid_json e)
refused_or_through P trailing h next refuses law = refuses trailing_data
refused_or_through P (decoded req) h next refuses law = elim (Option-cases (validate_payload req)) [
  | inl fine ↦ rw fine (law req fine)
  | inr (e, bad) ↦ rw bad (refuses (invalid e))
]

through :
    (b : Body SubscriptionPayload) (h : Handler) (next : SubscriptionPayload → Handler × Answer)
    → IsKnown h.sub.types
    → ((req : SubscriptionPayload) → validate_payload req ≡ none → IsKnown (next req).0.sub.types)
    → IsKnown (decode b h (λ req. validate (validate_payload req) h (next req))).0.sub.types
through b h next k law = refused_or_through (λ p. IsKnown p.0.sub.types) b h next (λ why. k) law

handle_subscription-IsKnown :
    (nets : ℕ → Network) (h : Handler) (r : HttpRequest SubscriptionPayload)
    → IsKnown h.sub.types
    → IsKnown (handle_subscription nets h r).0.sub.types
unfolding handle_subscription
handle_subscription-IsKnown nets h r k = elim (Bool-cases (r.method == "GET")) [
  | inl get ↦ rw get k
  | inr other ↦ elim (Bool-cases (r.method == "POST")) [
    | inr neither ↦ rw (other, neither) k
    | inl post ↦
        rw (other, post)
          (through r.body h _ k (λ req fine.
            subst IsKnown
              (sym (
                ap (λ (s : Subscriber). s.types)
                  (notify-sub
                    (record h { sub = reconfigure nets h.sub (elems req.types) req.addresses }))
                ∙ (reconfigure_paths nets h.sub (elems req.types) req.addresses).0))
              (validate_payload-IsKnown req fine)))
  ]
]

handle_dynamic_subscribe-IsKnown :
    (net : Network) (h : Handler) (r : HttpRequest SubscriptionPayload)
    → IsKnown h.sub.types
    → IsKnown (handle_dynamic_subscribe net h r).0.sub.types
unfolding handle_dynamic_subscribe
handle_dynamic_subscribe-IsKnown net h r k = elim (Bool-cases (r.method == "POST")) [
  | inr other ↦ rw other k
  | inl post ↦ rw post (
      through r.body h _ k (λ req fine.
        subst IsKnown
          (sym (
            ap (λ (s : Subscriber). s.types)
              (changed-sub h (add_subscriptions net h.sub (elems req.types) req.addresses))))
          (added-IsKnown net h.sub req k (validate_payload-IsKnown req fine))))
]

handle_dynamic_unsubscribe-IsKnown :
    (net : Network) (h : Handler) (r : HttpRequest SubscriptionPayload)
    → IsKnown h.sub.types
    → IsKnown (handle_dynamic_unsubscribe net h r).0.sub.types
unfolding handle_dynamic_unsubscribe
handle_dynamic_unsubscribe-IsKnown net h r k = elim (Bool-cases (r.method == "POST")) [
  | inr other ↦ rw other k
  | inl post ↦ rw post (
      through r.body h _ k (λ req fine.
        subst IsKnown
          (sym (
            ap (λ (s : Subscriber). s.types)
              (changed-sub h (remove_subscriptions net h.sub (elems req.types) req.addresses))))
          (dropped-IsKnown net h.sub req k)))
]

-- Whatever the requests and the networks are: if the client holds known event types only, it does so
-- after each of the three handlers that change its subscription.
pub handlers-IsKnown :
    (net : Network) (nets : ℕ → Network) (h : Handler) (r : HttpRequest SubscriptionPayload)
    → IsKnown h.sub.types
    → IsKnown (handle_subscription nets h r).0.sub.types
      × IsKnown (handle_dynamic_subscribe net h r).0.sub.types
      × IsKnown (handle_dynamic_unsubscribe net h r).0.sub.types
handlers-IsKnown net nets h r k = (
  handle_subscription-IsKnown nets h r k,
  handle_dynamic_subscribe-IsKnown net h r k,
  handle_dynamic_unsubscribe-IsKnown net h r k,
)

-- A refusal of the request itself, before the client is asked.
abbrev pub is_refusal : Answer → Bool
is_refusal (failed status why) = status == 400 || status == 405
is_refusal (subscription req) = false
is_refusal (bytes data') = false

changed-accepts :
    (h : Handler) (p : Subscriber × Option SendError) → is_refusal (changed h p).1 ≡ false
changed-accepts h (sub, some e) = refl
changed-accepts h (sub, none) = refl

refusal-keeps :
    (b : Body SubscriptionPayload) (h : Handler) (next : SubscriptionPayload → Handler × Answer)
    → ((req : SubscriptionPayload) → is_refusal (next req).1 ≡ false)
    → let p = decode b h (λ req. validate (validate_payload req) h (next req)) in
      (if is_refusal p.1 then p.0 else h) ≡ h
refusal-keeps b h next law =
    refused_or_through (λ p. (if is_refusal p.1 then p.0 else h) ≡ h) b h next (λ why. refl)
      (λ req fine. rw (law req) refl)

subscription-keeps :
    (nets : ℕ → Network) (h : Handler) (r : HttpRequest SubscriptionPayload)
    → let p = handle_subscription nets h r in (if is_refusal p.1 then p.0 else h) ≡ h
unfolding handle_subscription
subscription-keeps nets h r = elim (Bool-cases (r.method == "GET")) [
  | inl get ↦ rw get refl
  | inr other ↦ elim (Bool-cases (r.method == "POST")) [
    | inr neither ↦ rw (other, neither) refl
    | inl post ↦ rw (other, post) (refusal-keeps r.body h _ (λ req. refl))
  ]
]

dynamic_subscribe-keeps :
    (net : Network) (h : Handler) (r : HttpRequest SubscriptionPayload)
    → let p = handle_dynamic_subscribe net h r in (if is_refusal p.1 then p.0 else h) ≡ h
unfolding handle_dynamic_subscribe
dynamic_subscribe-keeps net h r = elim (Bool-cases (r.method == "POST")) [
  | inr other ↦ rw other refl
  | inl post ↦ rw post (refusal-keeps r.body h _ (λ req. changed-accepts h _))
]

dynamic_unsubscribe-keeps :
    (net : Network) (h : Handler) (r : HttpRequest SubscriptionPayload)
    → let p = handle_dynamic_unsubscribe net h r in (if is_refusal p.1 then p.0 else h) ≡ h
unfolding handle_dynamic_unsubscribe
dynamic_unsubscribe-keeps net h r = elim (Bool-cases (r.method == "POST")) [
  | inr other ↦ rw other refl
  | inl post ↦ rw post (refusal-keeps r.body h _ (λ req. changed-accepts h _))
]

-- If one of the three handlers that change the subscription answers 400 or 405, nothing has changed:
-- the client has sent no request, and `onChange` was not called.
refusals_keep :
    (net : Network) (nets : ℕ → Network) (h : Handler) (r : HttpRequest SubscriptionPayload)
    → let p = handle_subscription nets h r in
      let q = handle_dynamic_subscribe net h r in
      let u = handle_dynamic_unsubscribe net h r in
      ((if is_refusal p.1 then p.0 else h) ≡ h)
      × ((if is_refusal q.1 then q.0 else h) ≡ h)
      × ((if is_refusal u.1 then u.0 else h) ≡ h)
refusals_keep net nets h r = (
  subscription-keeps nets h r,
  dynamic_subscribe-keeps net h r,
  dynamic_unsubscribe-keeps net h r,
)
