-- ===== src/Subscription/Tests.antt =====
-- Runs of the changes of a subscription, against a node that keeps two sets.
use klever_subscriber.Base.{
  beq_apart, ℕ, zero, suc, ◌≡◌, refl, String, Bool, true, false, not, ◌&&◌, ◌||◌, List, [], ◌∷◌,
  none, some, ◌==◌, string_eq, if◌then◌else◌, contains, arith,
}
use klever_subscriber.Event.{EventType}
use klever_subscriber.Chan.{make_chan, offer, receive}
use klever_subscriber.Decimal.{format_int}
use klever_subscriber.Sets.{diff_types, diff_strings, diff, keep_loop, set_keys}
use klever_subscriber.Sets.Order.{IsApart}
use klever_subscriber.Request.{
  elems, register, exchange, send_request, assign, write_message, by_others, by_other,
  route_response, lookup, retire, delete, Params, types_and_addresses, only_types, only_addresses,
  transaction, block, Network, routes,
}
use klever_subscriber.Subscriber.{Subscriber, defaults}
use klever_subscriber.Subscription.{
  send, send_if, send_changes, reconfigure, add_subscriptions, remove_subscriptions,
}
use klever_subscriber.Subscription.Holdings.{told, Gains, Loses}
use klever_subscriber.Subscription.Outcomes.{
  asking, add_subscriptions_lem, remove_subscriptions_lem,
}
use klever_subscriber.Request.Outcome.{outcome}
use klever_subscriber.Subscription.Paths.{add_then_remove, call, reported}
use klever_subscriber.Subscription.Node.{Node, InSync}
use klever_subscriber.Subscription.Node.Sync.{reconfigure-InSync}

abbrev Served : Type 0
Served = (EventType → Bool) × (String → Bool)

abbrev handle_params : Served → String → Params → Served
handle_params n method (types_and_addresses ts as') =
    if method == "subscribe"
    then ((λ t. n.0 t || contains ts t), (λ a. n.1 a || contains (elems as') a))
    else n
handle_params n method (only_types ts) =
    if method == "unsubscribe" then ((λ t. n.0 t && not (contains ts t)), n.1) else n
handle_params n method (only_addresses as') =
    if method == "unsubscribe" then (n.0, (λ a. n.1 a && not (contains as' a))) else n
handle_params n method (transaction hash with_results) = n
handle_params n method (block params) = n

-- A node that does what the source relies on.
abbrev sets_node : Node
sets_node = record {
  State = Served;
  serves_type = λ n. n.0;
  serves_address = λ n. n.1;
  handle = λ n request. handle_params n request.method request.params;
  subscribe_types = λ n id ts as' t. refl;
  subscribe_addresses = λ n id ts as' a. refl;
  drop_types = λ n id ts t. refl;
  drop_types_address = λ n id ts a. refl;
  drop_addresses = λ n id as' a. refl;
  drop_addresses_type = λ n id as' t. refl;
}

abbrev client : Subscriber
client =
    let s = defaults "node" (some ("blocks" ∷ "accounts" ∷ [])) in
    record s { connected = true; addresses = "klv1" ∷ []; conn_cancel = some 0 }

abbrev start : Served
start = (contains client.types, contains client.addresses)

abbrev answers : String → Network
answers id = record {
  connected = true;
  write_error = none;
  meanwhile = routes (record { id = id; content = "{}"; error = "" }) ∷ [];
  ctx_first = false;
  ctx_error = "context canceled";
}

abbrev nets : ℕ → Network
nets zero = answers "1"
nets (suc zero) = answers "2"
nets (suc (suc n)) = answers "3"

abbrev wanted : List EventType
wanted = "blocks" ∷ "transactions" ∷ []

start-InSync : InSync sets_node start client
start-InSync = record { by_type = λ t. refl; by_address = λ a. refl }

fast_path : (send_changes nets client wanted (some ("klv2" ∷ []))).1 ≡ true
unfolding send_changes send_if send send_request register exchange format_int make_chan assign
    write_message by_others by_other route_response lookup offer receive retire delete diff_types
    diff_strings diff keep_loop set_keys
fast_path = refl

reconfigure-InSync_example :
    InSync sets_node start (reconfigure nets client wanted (some ("klv2" ∷ [])))
reconfigure-InSync_example =
    reconfigure-InSync sets_node start nets client wanted (some ("klv2" ∷ [])) start-InSync refl
      fast_path

add_subscriptions_lem_example :
    let (s', error) = add_subscriptions (answers "1") client wanted none in
    let result = outcome (answers "1") "1" in
    (error ≡ told result)
    × Gains client result wanted [] s'
    × (s'.requests.sent ≡ asking (answers "1") client wanted none "subscribe")
unfolding format_int
add_subscriptions_lem_example =
    add_subscriptions_lem (answers "1") client wanted none tt (omega arith) tt

remove_subscriptions_lem_example :
    let (s', error) = remove_subscriptions (answers "1") client wanted none in
    let result = outcome (answers "1") "1" in
    (error ≡ told result)
    × Loses client result wanted [] s'
    × (s'.requests.sent ≡ asking (answers "1") client wanted none "unsubscribe")
unfolding format_int
remove_subscriptions_lem_example =
    remove_subscriptions_lem (answers "1") client wanted none tt (omega arith) tt

no_transactions : IsApart client.types ("transactions" ∷ [])
no_transactions a h =
    ground
      (arith, beq_apart "blocks" "transactions" a refl, beq_apart "accounts" "transactions" a refl)

no_address : IsApart client.addresses []
no_address a h = refl

agreed : reported (call (answers "1") client "subscribe" ("transactions" ∷ []) none) ≡ none
unfolding send send_request register exchange format_int make_chan assign write_message by_others
    by_other route_response lookup offer receive retire delete
agreed = refl

abbrev grown : Subscriber
grown = (add_subscriptions (answers "1") client ("transactions" ∷ []) none).0

agreed_again : reported (call (answers "2") grown "unsubscribe" ("transactions" ∷ []) none) ≡ none
unfolding add_subscriptions send send_request register exchange format_int make_chan assign
    write_message by_others by_other route_response lookup offer receive retire delete
agreed_again = refl

add_then_remove_example :
    let s₂ = (remove_subscriptions (answers "2") grown ("transactions" ∷ []) none).0 in
    (s₂.types ≡ client.types) × (s₂.addresses ≡ client.addresses)
add_then_remove_example =
    add_then_remove (answers "1") (answers "2") client ("transactions" ∷ []) none no_transactions
      no_address agreed agreed_again
