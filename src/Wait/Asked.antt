-- ===== src/Wait/Asked.antt =====
-- What the flags of examples/wait-for-event/main.go ask for, and what a reply leads to.
use klever_subscriber.Base.{
  eqb, Bool, ◌&&◌, ◌||◌, ◌+◌, ◌^◌, ◌<◌, ◌≡◌, refl, ◌∙◌, ap, inl, inr, String, true, false, List, [],
  ◌∷◌, Option, none, some, ◌==◌, string_eq, length, Bool-cases, arith, if◌then◌else◌,
}
use klever_subscriber.Request.{
  Params, Request, Requests, Response, Result, ok, err, not_connected, write_failed, context_done,
  request_failed, transaction, block, Network, no_requests, send_request, content_of,
}
use klever_subscriber.Request.Reply.{IsForeign}
use klever_subscriber.Request.Outcome.{outcome, first_request}
use klever_subscriber.Request.Sent.{asked_once, first_request-sent}
use klever_subscriber.Frame.{Parsed, bad, parsed}
use klever_subscriber.Event.{Event}
use klever_subscriber.Wait.{
  Libraries, BlockData, any_folds, decode_tx_hashes, Target, Exit, connect_timeout, lookup_failed,
  timed_out, stream_closed, prints, Input, arrives, closes, expires, pretty_or_raw, wait_events,
  looked_up, once_connected, Wanted,
}
use klever_subscriber.Wait.Finding.{is_wanted}

abbrev decoded_or : String → Parsed String → String
decoded_or content (bad e) = content
decoded_or content (parsed output) = output

-- How the program ends, by its context, the node's reply, and what the wait for events ends with.
abbrev pub ending : Libraries → Option String → Result Response → Option Exit → Option Exit
ending lib (some e) reply waiting = some (connect_timeout e)
ending lib none (ok resp) waiting =
    some (prints (decoded_or resp.content (lib.pretty resp.content)))
ending lib none (err (request_failed e)) waiting = waiting
ending lib none (err not_connected) waiting = some (lookup_failed not_connected)
ending lib none (err (write_failed e)) waiting = some (lookup_failed (write_failed e))
ending lib none (err (context_done e)) waiting = some (lookup_failed (context_done e))

-- The block of an event, if it can be decoded, passes a test.
abbrev pub of_block : (BlockData → Bool) → Parsed BlockData → Bool
of_block test (bad e) = false
of_block test (parsed found) = test found

-- An event that the flags ask for: of the block with the nonce, if that is set, or else of the block
-- with the hash, or else of transactions, of which one has the hash.
abbrev pub asked_for : Libraries → Wanted → Event → Bool
asked_for lib w evt =
    if w.nonce_set
    then evt.type == "blocks"
      && of_block (λ found. eqb found.nonce w.nonce) (lib.block_data evt.raw)
    else if w.block_hash == ""
    then evt.type == "transactions"
      && (lib.equal_fold evt.hash (lib.to_lower w.tx_hash)
          || any_folds lib (lib.to_lower w.tx_hash) (decode_tx_hashes lib evt.raw))
    else evt.type == "blocks"
      && of_block (λ found. lib.equal_fold found.hash (lib.to_lower w.block_hash))
          (lib.block_data evt.raw)

-- What a wait for an event that passes a test ends with.
abbrev pub wait_end : Libraries → (Event → Bool) → List Input → Option Exit
wait_end lib test [] = none
wait_end lib test (expires e ∷ inputs) = some (timed_out e)
wait_end lib test (closes ∷ inputs) = some stream_closed
wait_end lib test (arrives evt ∷ inputs) =
    if test evt
    then some (prints (decoded_or evt.raw (lib.marshal_indent evt)))
    else wait_end lib test inputs

-- The requests that a program sends by its flags: for a block by its nonce, if that is set, or else by
-- its hash, or else for a transaction.
abbrev pub lookups : Wanted → Option String → Network → List Request
lookups w timeout net =
    if w.nonce_set
    then asked_once timeout net (record {
      id = "1";
      method = "get_block";
      params = block (record { nonce = some w.nonce; hash = ""; with_txs = false });
    })
    else if w.block_hash == ""
    then (if w.tx_hash == ""
        then []
        else asked_once timeout net
            (record { id = "1"; method = "get_transaction"; params = transaction w.tx_hash false }))
    else asked_once timeout net (record {
      id = "1";
      method = "get_block";
      params = block (record { nonce = none; hash = w.block_hash; with_txs = false });
    })

-- How the program ends, and what it has sent.
abbrev pub EndsWith : Option (Requests × Option Exit) → Option Exit → List Request → Type 0
EndsWith run end sent = (s : Requests) × (run ≡ some (s, end)) × (s.sent ≡ sent)

decoded-or : (content : String) (r : Parsed String) → pretty_or_raw r content ≡ decoded_or content r
decoded-or content (bad e) = refl
decoded-or content (parsed output) = refl

looked_up-content :
    (lib : Libraries) (waiting : Option Exit) (s : Requests) (r : Result Response)
    → looked_up lib (content_of (s, r)) waiting ≡ (s, ending lib none r waiting)
looked_up-content lib waiting s (ok resp) =
    ap (λ line. (s, some (prints line))) (decoded-or resp.content (lib.pretty resp.content))
looked_up-content lib waiting s (err not_connected) = refl
looked_up-content lib waiting s (err (write_failed e)) = refl
looked_up-content lib waiting s (err (context_done e)) = refl
looked_up-content lib waiting s (err (request_failed e)) = refl

pub asks :
    (lib : Libraries) (waiting : Option Exit) (timeout : Option String) (net : Network)
    (method : String) (params : Params)
    → 1 + length net.meanwhile < 2 ^ 63
    → IsForeign "1" net.meanwhile
    → EndsWith
        (some (
          once_connected timeout no_requests
            (looked_up lib (content_of (send_request net no_requests method params)) waiting)))
        (ending lib timeout (outcome net "1") waiting)
        (asked_once timeout net (record { id = "1"; method = method; params = params }))
asks lib waiting (some e) net method params small f = (no_requests, refl, refl)
asks lib waiting none net method params small f =
    let p = send_request net no_requests method params in
    (
      p.0,
      ap some (
          looked_up-content lib waiting p.0 p.1
          ∙ ap (λ r. (p.0, ending lib none r waiting)) (first_request net method params small f)),
      first_request-sent net method params,
    )

pub wait_events-wait_end :
    (lib : Libraries) (t : Target) (test : Event → Bool) (inputs : List Input)
    → ((evt : Event) → is_wanted t evt ≡ test evt)
    → wait_events lib t inputs ≡ wait_end lib test inputs
unfolding wait_events
wait_events-wait_end lib t test [] same = refl
wait_events-wait_end lib t test (expires e ∷ inputs) same = refl
wait_events-wait_end lib t test (closes ∷ inputs) same = refl
wait_events-wait_end lib t test (arrives evt ∷ inputs) same =
    let rest = wait_events-wait_end lib t test inputs same in
    let line = decoded-or evt.raw (lib.marshal_indent evt) in
    elim (Bool-cases (test evt)) [
      | inl hit ↦
          let both : is_wanted t evt ≡ true = same evt ∙ hit in
          rw hit (ground (arith, both) ∙ ap (λ l. some (prints l)) line)
      | inr miss ↦
          let either : is_wanted t evt ≡ false = same evt ∙ miss in
          rw miss (ground (arith, either) ∙ rest)
    ]
