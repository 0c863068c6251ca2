-- ===== src/Handler/Tests.antt =====
-- Runs of the handlers.
use klever_subscriber.Base.{
  ◌≡◌, refl, true, false, [], ◌∷◌, none, some, string_eq, ◌==◌, arith, Bool-cases, inl, inr, subst,
  beq→eq,
}
use klever_subscriber.Event.{valid_event_types}
use klever_subscriber.Request.{Network}
use klever_subscriber.Subscriber.{defaults}
use klever_subscriber.Handler.{
  SubscriptionPayload, decoded, HttpRequest, Handler, failed, invalid, unknown_type,
  validate_payload, first_unknown, first_bad, handle_subscription, handle_dynamic_subscribe,
  handle_dynamic_unsubscribe,
}
use klever_subscriber.Request.{routes, fails_all, GetBlockParams, get_transaction}
use klever_subscriber.Decimal.{format_int}
use klever_subscriber.Handler.{
  GetTransactionRequest, handle_get_transaction, handle_get_block, bytes,
}
use klever_subscriber.Handler.Queries.{answer_to, lacks_hash, lacks_both, reply, query_handlers_lem}
use klever_subscriber.Handler.Checks.{IsKnown, handlers-IsKnown}

abbrev handler : Handler
handler = record { sub = defaults "node" (some ("blocks" ∷ [])); on_change = true; notified = 0 }

abbrev post : SubscriptionPayload → HttpRequest SubscriptionPayload
post req = record { method = "POST"; body = decoded req }

abbrev offline : Network
offline = record {
  connected = false;
  write_error = none;
  meanwhile = [];
  ctx_first = false;
  ctx_error = "";
}

abbrev wanted : SubscriptionPayload
wanted = record { types = some ("accounts" ∷ []); addresses = some ("klv1" ∷ []) }

abbrev misspelt : SubscriptionPayload
misspelt = record { types = some ("user_transaction" ∷ []); addresses = none }

refused :
    handle_dynamic_subscribe offline handler (post misspelt)
    ≡ (handler, failed 400 (invalid (unknown_type "user_transaction")))
unfolding handle_dynamic_subscribe validate_payload first_unknown first_bad valid_event_types
refused = refl

blocks-IsKnown : IsKnown ("blocks" ∷ [])
unfolding valid_event_types
blocks-IsKnown t m = elim (Bool-cases ("blocks" == t)) [
  | inl same ↦ subst (λ y. valid_event_types y ≡ true) (beq→eq "blocks" t same) refl
  | inr other ↦ absurd (ground arith)
]

handlers-IsKnown_example :
    IsKnown (handle_subscription (λ n. offline) handler (post wanted)).0.sub.types
    × IsKnown (handle_dynamic_subscribe offline handler (post wanted)).0.sub.types
    × IsKnown (handle_dynamic_unsubscribe offline handler (post wanted)).0.sub.types
handlers-IsKnown_example =
    handlers-IsKnown offline (λ n. offline) handler (post wanted) blocks-IsKnown

-- The node replies, and then the connection closes.
abbrev online : Network
online = record {
  connected = true;
  write_error = none;
  meanwhile = routes (record { id = "1"; content = "{}"; error = "" }) ∷ fails_all ∷ [];
  ctx_first = false;
  ctx_error = "context deadline exceeded";
}

abbrev a_hash : HttpRequest GetTransactionRequest
a_hash = record { method = "POST"; body = decoded (record { hash = "0x02"; with_results = true }) }

abbrev no_block : HttpRequest GetBlockParams
no_block = record {
  method = "POST";
  body = decoded (record { nonce = none; hash = ""; with_txs = false });
}

query_handlers_lem_example :
    ((handle_get_transaction online handler a_hash).1
      ≡ answer_to a_hash lacks_hash (reply online handler))
    × ((handle_get_block online handler no_block).1
        ≡ answer_to no_block lacks_both (reply online handler))
query_handlers_lem_example = query_handlers_lem online handler tt (omega arith) tt a_hash no_block

the_transaction : (handle_get_transaction online handler a_hash).1 ≡ bytes "{}"
unfolding handle_get_transaction get_transaction format_int
the_transaction = refl
