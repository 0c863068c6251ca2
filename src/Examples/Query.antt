-- ===== src/Examples/Query.antt =====
-- What examples/query ends with.
use klever_subscriber.Base.{
  ◌+◌, ◌^◌, ◌<◌, ◌≡◌, refl, ◌∙◌, ap, inl, inr, String, false, List, [], ◌&&◌, Option, none, some,
  ◌==◌, string_eq, length, Bool-cases, eqb, if◌then◌else◌,
}
use klever_subscriber.Request.{
  Params, Request, Requests, Response, Result, ok, err, transaction, block, Network, get_block,
  get_transaction, no_requests, send_request, content_of,
}
use klever_subscriber.Request.Reply.{IsForeign}
use klever_subscriber.Request.Outcome.{outcome, first_request}
use klever_subscriber.Request.Sent.{asked_once, first_request-sent}
use klever_subscriber.Subscriber.Construction.{any_bad, new_then}
use klever_subscriber.Examples.{
  Environment, QueryFlags, QueryEnd, usage, connect_timeout, query_failed, prints, query_settings,
  query_node, query_end, after_connect, node_host, query_main,
}

query_settings-any_bad : (env : Environment) → any_bad (query_settings env) ≡ false
query_settings-any_bad env = elim (Bool-cases (env "KLEVER_WSS" == "")) [
  | inl ws ↦ rw ws refl
  | inr wss ↦ rw wss refl
]

-- How the program ends, by its context and by the node's reply.
abbrev pub ending : Option String → Result Response → QueryEnd
ending (some e) reply = connect_timeout e
ending none (ok resp) = prints resp.content
ending none (err e) = query_failed e

-- How the program ends, and what it has sent.
abbrev pub EndsWith : Option (Requests × QueryEnd) → QueryEnd → List Request → Type 0
EndsWith run end sent = (s : Requests) × (run ≡ some (s, end)) × (s.sent ≡ sent)

-- The request that the flags say.
abbrev pub query_request : QueryFlags → Request
query_request flags =
    if flags.tx_hash == ""
    then record {
      id = "1";
      method = "get_block";
      params = block (record { nonce = some flags.block_nonce; hash = ""; with_txs = false });
    }
    else record {
      id = "1";
      method = "get_transaction";
      params = transaction flags.tx_hash flags.with_results;
    }

query_end-content :
    (s : Requests) (r : Result Response) → query_end (content_of (s, r)) ≡ (s, ending none r)
query_end-content s (ok resp) = refl
query_end-content s (err e) = refl

asks :
    (timeout : Option String) (net : Network) (method : String) (params : Params)
    → 1 + length net.meanwhile < 2 ^ 63
    → IsForeign "1" net.meanwhile
    → EndsWith
        (some (
          after_connect timeout no_requests
            (query_end (content_of (send_request net no_requests method params)))))
        (ending timeout (outcome net "1"))
        (asked_once timeout net (record { id = "1"; method = method; params = params }))
asks (some e) net method params small f = (no_requests, refl, refl)
asks none net method params small f =
    let p = send_request net no_requests method params in
    (
      p.0,
      ap some (
          query_end-content p.0 p.1
          ∙ ap (λ r. (p.0, ending none r)) (first_request net method params small f)),
      first_request-sent net method params,
    )

query_node-EndsWith :
    (flags : QueryFlags) (timeout : Option String) (net : Network)
    → 1 + length net.meanwhile < 2 ^ 63
    → IsForeign "1" net.meanwhile
    → EndsWith
        (some (after_connect timeout no_requests (query_end (query_node flags net no_requests))))
        (ending timeout (outcome net "1"))
        (asked_once timeout net (query_request flags))
unfolding query_node get_transaction get_block
query_node-EndsWith flags timeout net small f = elim (Bool-cases (flags.tx_hash == "")) [
  | inl no_hash ↦ rw (query_node, no_hash) (asks timeout net "get_block" _ small f)
  | inr hash ↦ rw (query_node, hash) (asks timeout net "get_transaction" _ small f)
]

-- The program does not panic, whatever the environment. With neither a hash nor a nonce other than 0
-- it exits with the usage and sends nothing. If the context is done before the connection is up, it
-- ends with the error of that and sends nothing. Else it sends a request for the transaction, or for
-- the block if there is no hash, where the connection takes it, and ends with what its first request
-- returns: the data of the first reply under the id 1, as it came, or the error. This holds if fewer
-- than 2 ^ 63 actions of other goroutines come between, none of which retires that request.
pub query_main_lem :
    (env : Environment) (flags : QueryFlags) (timeout : Option String) (net : Network)
    → 1 + length net.meanwhile < 2 ^ 63
    → IsForeign "1" net.meanwhile
    → let nothing = flags.tx_hash == "" && eqb flags.block_nonce 0 in
      EndsWith
        (query_main env flags timeout net)
        (if nothing then usage else ending timeout (outcome net "1"))
        (if nothing then [] else asked_once timeout net (query_request flags))
unfolding query_main
query_main_lem env flags timeout net small f =
    let made =
      new_then (node_host env) none (query_settings env)
        (λ r. after_connect timeout r (query_end (query_node flags net r)))
        (query_settings-any_bad env) in
    let (s, ends, sent) = query_node-EndsWith flags timeout net small f in
    elim (Bool-cases (flags.tx_hash == "" && eqb flags.block_nonce 0)) [
      | inl nothing ↦ rw (query_main, nothing) (no_requests, refl, refl)
      | inr given ↦ rw (query_main, given) (s, made ∙ ends, sent)
    ]
