-- ===== src/Request/Tests.antt =====
-- Runs of the requests.
use klever_subscriber.Base.{ℕ, ◌≡◌, refl, String, true, false, [], ◌∷◌, none, arith}
use klever_subscriber.Decimal.{format_int, format_int_inj}
use klever_subscriber.Request.{
  Network, Response, ok, no_requests, routes, registers, fails_all, transaction, send_request,
  register, lookup, write_message,
}
use klever_subscriber.Request.Outcome.{IsKnown, next_request, outcome, send_request_lem}
use klever_subscriber.Request.Reply.{first_reply}
use klever_subscriber.Request.Known.{send_request-cleans_up}

abbrev reply : String → Response
reply id = record { id = id; content = "{}"; error = "" }

-- While the request waits, another is registered, its reply comes, then that of this request.
abbrev net : Network
net = record {
  connected = true;
  write_error = none;
  meanwhile = registers ∷ routes (reply "2") ∷ routes (reply "1") ∷ fails_all ∷ [];
  ctx_first = false;
  ctx_error = "context canceled";
}

send_request_lem_example :
    (send_request net no_requests "get_transaction" (transaction "0x01" true)).1
    ≡ outcome net (next_request no_requests)
send_request_lem_example =
    send_request_lem net no_requests "get_transaction" (transaction "0x01" true) tt (omega arith) tt

outcome_run : outcome net (next_request no_requests) ≡ ok (reply "1")
unfolding first_reply format_int write_message
outcome_run = refl

send_request-cleans_up_example :
    let s' = (send_request net no_requests "get_transaction" (transaction "0x01" true)).0 in
    (lookup (register no_requests).1 s'.pending ≡ none) × IsKnown s'
send_request-cleans_up_example =
    send_request-cleans_up net no_requests "get_transaction" (transaction "0x01" true) tt

format_int_inj_example : ◌≡◌ {A = ℕ} 12 12
format_int_inj_example = format_int_inj 12 12 (omega arith) (omega arith) refl
