-- ===== src/Command/Answers.antt =====
-- What get-block and get-tx end with.
use klever_subscriber.Base.{
  ◌+◌, ◌^◌, ◌<◌, ◌≡◌, refl, ◌∙◌, ap, inl, inr, String, Bool, true, false, List, [], not, ◌&&◌,
  Option, none, some, ◌==◌, string_eq, length, Bool-cases, if◌then◌else◌,
}
use klever_subscriber.Request.{
  Params, Request, transaction, block, Requests, Response, Result, ok, err, Network, send_request,
  get_block, get_transaction, no_requests, content_of,
}
use klever_subscriber.Request.Reply.{IsForeign}
use klever_subscriber.Request.Outcome.{outcome, first_request}
use klever_subscriber.Request.Sent.{asked_once, first_request-sent}
use klever_subscriber.Frame.{Parsed, bad, parsed}
use klever_subscriber.Subscriber.Construction.{any_bad, new_then}
use klever_subscriber.Command.{Flags, Encoders, indented, print_json}
use klever_subscriber.Command.Query.{
  BlockFlags, Ending, complains, prints, nonce_or_hash_required, asking, timed_out, query_options,
  shown, once_connected, block_params, get_block_cmd, get_tx_cmd,
}

abbrev pub indented_or : String → Parsed String → String
indented_or content (bad e) = content
indented_or content (parsed output) = output

-- How a command ends, by its context and by the node's reply.
abbrev pub ending : Encoders → Bool → Option String → Result Response → Ending
ending enc pretty (some e) reply = complains (timed_out e)
ending enc pretty none (ok resp) =
    prints (if pretty then indented_or resp.content (enc.indent resp.content) else resp.content)
ending enc pretty none (err e) = complains (asking e)

-- How the command ends, and what it has sent.
abbrev pub EndsWith : Option (Requests × Ending) → Ending → List Request → Type 0
EndsWith run end sent = (s : Requests) × (run ≡ some (s, end)) × (s.sent ≡ sent)

indented-or : (content : String) (r : Parsed String) → indented r content ≡ indented_or content r
indented-or content (bad e) = refl
indented-or content (parsed output) = refl

print_json_lem :
    (enc : Encoders) (pretty : Bool) (content : String)
    → print_json enc pretty content
      ≡ (if pretty then indented_or content (enc.indent content) else content)
unfolding print_json
print_json_lem enc true content = indented-or content (enc.indent content)
print_json_lem enc false content = refl

query_options-any_bad : (flags : Flags) → any_bad (query_options flags) ≡ false
query_options-any_bad flags = elim (Bool-cases flags.use_wss) [
  | inl wss ↦ rw wss refl
  | inr ws ↦ rw ws refl
]

shown-content :
    (enc : Encoders) (pretty : Bool) (s : Requests) (r : Result Response)
    → shown enc pretty (content_of (s, r)) ≡ (s, ending enc pretty none r)
shown-content enc pretty s (ok resp) =
    ap (λ line. (s, prints line)) (print_json_lem enc pretty resp.content)
shown-content enc pretty s (err e) = refl

asks :
    (enc : Encoders) (pretty : Bool) (timeout : Option String) (net : Network) (method : String)
    (params : Params)
    → 1 + length net.meanwhile < 2 ^ 63
    → IsForeign "1" net.meanwhile
    → EndsWith
        (some (
          once_connected timeout no_requests
            (shown enc pretty (content_of (send_request net no_requests method params)))))
        (ending enc pretty timeout (outcome net "1"))
        (asked_once timeout net (record { id = "1"; method = method; params = params }))
asks enc pretty (some e) net method params small f = (no_requests, refl, refl)
asks enc pretty none net method params small f =
    let p = send_request net no_requests method params in
    (
      p.0,
      ap some (
          shown-content enc pretty p.0 p.1
          ∙ ap (λ r. (p.0, ending enc pretty none r)) (first_request net method params small f)),
      first_request-sent net method params,
    )

-- The two commands do not panic. get-block with neither a nonce nor a hash complains of that and
-- sends nothing. Otherwise, and get-tx always: they complain of the error of the context and send
-- nothing, if it is done before the connection is up. Else they send the request that their flags
-- say, where the connection takes it, and end with what `sendRequest` returns for the first request
-- of a client: its error, or the data of the first reply under the id 1, as bytes, or indented under
-- --pretty if it can be. This holds if fewer than 2 ^ 63 actions of other goroutines come between,
-- none of which retires that request.
pub query_commands_lem :
    (enc : Encoders) (flags : Flags) (b : BlockFlags) (hash : String) (with_results : Bool)
    (timeout : Option String) (net : Network)
    → 1 + length net.meanwhile < 2 ^ 63
    → IsForeign "1" net.meanwhile
    → let nothing = not b.nonce_set && b.hash == "" in
      let end = ending enc flags.pretty timeout (outcome net "1") in
      EndsWith
        (get_block_cmd enc flags b timeout net)
        (if nothing then complains nonce_or_hash_required else end)
        (if nothing
          then []
          else asked_once timeout net (record {
            id = "1";
            method = "get_block";
            params = block (record {
              nonce = if b.nonce_set then some b.nonce else none;
              hash = b.hash;
              with_txs = b.with_txs;
            });
          }))
      × EndsWith (get_tx_cmd enc flags hash with_results timeout net) end (
          asked_once timeout net (record {
            id = "1";
            method = "get_transaction";
            params = transaction hash with_results;
          }))
unfolding get_block_cmd get_tx_cmd get_block get_transaction
query_commands_lem enc flags b hash with_results timeout net small f =
    let of_block =
      new_then flags.node_url none (query_options flags)
        (λ r. once_connected timeout r (shown enc flags.pretty (get_block net r (block_params b))))
        (query_options-any_bad flags) in
    let of_tx =
      new_then flags.node_url none (query_options flags)
        (λ r.
          once_connected timeout r
            (shown enc flags.pretty (get_transaction net r hash with_results)))
        (query_options-any_bad flags) in
    let (s, replied, sent) =
      asks enc flags.pretty timeout net "get_block" (block (block_params b)) small f in
    let (s', replied', sent') =
      asks enc flags.pretty timeout net "get_transaction" (transaction hash with_results) small f in
    (
      elim (Bool-cases (not b.nonce_set && b.hash == "")) [
        | inl neither ↦ rw neither (no_requests, refl, refl)
        | inr given ↦ rw given (s, of_block ∙ replied, sent)
      ],
      (s', of_tx ∙ replied', sent'),
    )
