-- ===== src/Handler/Queries.antt =====
-- What the two handlers of web/handler/query.go answer.
use klever_subscriber.Base.{
  ◌+◌, ◌^◌, ◌<◌, ◌≡◌, refl, ◌∙◌, ap, inl, inr, String, Bool, true, false, not, ◌&&◌, Option, none,
  some, ◌==◌, string_eq, length, Bool-cases, if◌then◌else◌,
}
use klever_subscriber.Request.{
  Params, transaction, block, GetBlockParams, Requests, Response, Result, ok, err, Network,
  send_request, get_block, get_transaction, content_of,
}
use klever_subscriber.Request.Reply.{IsForeign}
use klever_subscriber.Request.Outcome.{IsKnown, outcome, next_request, send_request_lem}
use klever_subscriber.Handler.{
  GetTransactionRequest, Body, malformed, trailing, decoded, HttpRequest, Complaint,
  method_not_allowed, invalid_json, trailing_data, hash_required, nonce_or_hash_required, upstream,
  Answer, failed, bytes, Handler, decode, fetched, is_nil, handle_get_transaction, handle_get_block,
}

-- What is wrong with a body, where `missing` tells what a value lacks.
abbrev pub bad_body {ℓ} : {P : Type ℓ} → Body P → (P → Option Complaint) → Option Complaint
bad_body (malformed e) missing = some (invalid_json e)
bad_body trailing missing = some trailing_data
bad_body (decoded req) missing = missing req

abbrev pub lacks_hash : GetTransactionRequest → Option Complaint
lacks_hash req = if req.hash == "" then some hash_required else none

abbrev pub lacks_both : GetBlockParams → Option Complaint
lacks_both req = if is_nil req.nonce && req.hash == "" then some nonce_or_hash_required else none

abbrev pub unless_bad : Option Complaint → Answer → Answer
unless_bad none answer = answer
unless_bad (some complaint) answer = failed 400 complaint

-- The answer to a request: 405 for another method than POST, 400 for a bad body, or else what the
-- node said.
abbrev pub answer_to {ℓ} : {P : Type ℓ} → HttpRequest P → (P → Option Complaint) → Answer → Answer
answer_to r missing answer =
    if r.method == "POST"
    then unless_bad (bad_body r.body missing) answer
    else failed 405 method_not_allowed

-- The node's reply as an answer.
abbrev pub reply_answer : Result Response → Answer
reply_answer (ok resp) = bytes resp.content
reply_answer (err e) = failed 502 (upstream e)

module _ {ℓ} {P : Type ℓ} where
  answer-decode :
      (h : Handler) (next : P → Handler × Answer) (missing : P → Option Complaint) (answer : Answer)
      → ((req : P) → (next req).1 ≡ unless_bad (missing req) answer)
      → (body : Body P) → (decode body h next).1 ≡ unless_bad (bad_body body missing) answer
  answer-decode h next missing answer same (malformed e) = refl
  answer-decode h next missing answer same trailing = refl
  answer-decode h next missing answer same (decoded req) = same req

  posted :
      (h : Handler) (r : HttpRequest P) (next : P → Handler × Answer)
      (missing : P → Option Complaint) (answer : Answer)
      → ((req : P) → (next req).1 ≡ unless_bad (missing req) answer)
      → (if not (r.method == "POST")
          then (h, failed 405 method_not_allowed)
          else decode r.body h next).1
        ≡ answer_to r missing answer
  posted h r next missing answer same = elim (Bool-cases (r.method == "POST")) [
    | inr other ↦ rw other refl
    | inl post ↦ rw post (answer-decode h next missing answer same r.body)
  ]

unless_missing :
    (h : Handler) (lacks : Bool) (c : Complaint) (p : Handler × Answer) (answer : Answer)
    → p.1 ≡ answer
    → (if lacks then (h, failed 400 c) else p).1
      ≡ unless_bad (if lacks then some c else none) answer
unless_missing h true c p answer same = refl
unless_missing h false c p answer same = same

fetched-content :
    (h : Handler) (r : Result Response) (s : Requests)
    → (fetched h (content_of (s, r))).1 ≡ reply_answer r
fetched-content h (ok resp) s = refl
fetched-content h (err e) s = refl

module _ (net : Network) (h : Handler) where
  -- What the node's reply to the handler's request becomes.
  abbrev pub reply : Answer
  reply = reply_answer (outcome net (next_request h.sub.requests))

  module _ (known : IsKnown h.sub.requests) where
    module _ (small : h.sub.requests.next_id + 1 + length net.meanwhile < 2 ^ 63) where
      module _ (foreign : IsForeign (next_request h.sub.requests) net.meanwhile) where
        fetched-reply :
            (method : String) (params : Params)
            → (fetched h (content_of (send_request net h.sub.requests method params))).1 ≡ reply
        fetched-reply method params =
            let p = send_request net h.sub.requests method params in
            fetched-content h p.1 p.0
            ∙ ap reply_answer
                (send_request_lem net h.sub.requests method params known small foreign)

        -- Each handler answers 405 to another method than POST; 400 to a body that is
        -- no JSON value, has something after it, or names no hash (for a block, no nonce either); 502
        -- with the error that sendRequest returns; and else the data of the first reply that came
        -- under the id of its request. This holds if the channels of the map have been made, for
        -- fewer than 2 ^ 63 requests, and if no other goroutine retires this request.
        pub query_handlers_lem :
            (tx : HttpRequest GetTransactionRequest) (blk : HttpRequest GetBlockParams)
            → ((handle_get_transaction net h tx).1 ≡ answer_to tx lacks_hash reply)
              × ((handle_get_block net h blk).1 ≡ answer_to blk lacks_both reply)
        unfolding handle_get_transaction get_transaction handle_get_block get_block
        query_handlers_lem tx blk = (
          posted h tx _ lacks_hash reply (λ req.
              unless_missing h (req.hash == "") hash_required _ reply
                (fetched-reply "get_transaction" (transaction req.hash req.with_results))),
          posted h blk _ lacks_both reply (λ req.
              unless_missing h (is_nil req.nonce && req.hash == "") nonce_or_hash_required _ reply
                (fetched-reply "get_block" (block req))),
        )
