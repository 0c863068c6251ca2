-- ===== src/Wait/Lookup.antt =====
-- How examples/wait-for-event/main.go ends, by what its client is asked for and what the node replies.
use klever_subscriber.Base.{
  Bool, not, ◌&&◌, ◌+◌, ◌^◌, ◌<◌, ◌≡◌, refl, sym, ◌∙◌, ap, subst, inl, inr, String, true, false,
  List, [], ◌∷◌, Option, none, some, ◌==◌, string_eq, length, Bool-cases, Option-cases, arith,
  if◌then◌else◌,
}
use klever_subscriber.Request.{
  Params, Request, Requests, Network, get_block, get_transaction, no_requests, send_request,
  content_of,
}
use klever_subscriber.Request.Reply.{IsForeign}
use klever_subscriber.Request.Outcome.{outcome}
use klever_subscriber.Request.Sent.{asked_once}
use klever_subscriber.Subscriber.{Setting, with_scheme, with_on_connect, with_on_error}
use klever_subscriber.Subscriber.Construction.{any_bad, new_then}
use klever_subscriber.Frame.{Parsed, bad, parsed}
use klever_subscriber.Event.{Event}
use klever_subscriber.Wait.{
  Libraries, BlockData, decoded_and, Target, nonce_target, block_target, tx_target, pick_target,
  Exit, usage, Input, wait_events, looked_up, once_connected, Wanted, main,
}
use klever_subscriber.Wait.Finding.{is_wanted}
use klever_subscriber.Wait.Asked.{
  ending, of_block, asked_for, wait_end, lookups, EndsWith, asks, wait_events-wait_end,
}

module _ (lib : Libraries) (w : Wanted) (timeout : Option String) (net : Network) where
  module _ (inputs : List Input) where
    -- What the lookup of a target leads to.
    abbrev AsksFor : Target → Type 0
    AsksFor t =
        EndsWith
          (some (
            once_connected timeout no_requests
              (looked_up lib (t.lookup net no_requests) (wait_events lib t inputs))))
          (ending lib timeout (outcome net "1") (wait_end lib (asked_for lib w) inputs))
          (lookups w timeout net)

    asks_for :
        (t : Target) (method : String) (params : Params)
        → ((evt : Event) → is_wanted t evt ≡ asked_for lib w evt)
        → 1 + length net.meanwhile < 2 ^ 63
        → IsForeign "1" net.meanwhile
        → EndsWith
            (some (
              once_connected timeout no_requests (
                looked_up lib
                  (content_of (send_request net no_requests method params))
                  (wait_events lib t inputs))))
            (ending lib timeout (outcome net "1") (wait_end lib (asked_for lib w) inputs))
            (asked_once timeout net (record { id = "1"; method = method; params = params }))
    asks_for t method params same small f =
        subst
          (λ x.
            EndsWith
              (some (
                once_connected timeout no_requests
                  (looked_up lib (content_of (send_request net no_requests method params)) x)))
              (ending lib timeout (outcome net "1") (wait_end lib (asked_for lib w) inputs))
              (asked_once timeout net (record { id = "1"; method = method; params = params })))
          (sym (wait_events-wait_end lib t (asked_for lib w) inputs same))
          (asks lib (wait_end lib (asked_for lib w) inputs) timeout net method params small f)

of_block-decoded_and :
    (test : BlockData → Bool) (p : Parsed BlockData) → decoded_and p test ≡ of_block test p
of_block-decoded_and test (bad e) = refl
of_block-decoded_and test (parsed found) = refl

asked_for-nonce :
    (lib : Libraries) (w : Wanted) (evt : Event)
    → w.nonce_set ≡ true
    → is_wanted (nonce_target lib w.nonce) evt ≡ asked_for lib w evt
asked_for-nonce lib w evt nonce =
    rw nonce (ap (λ b. evt.type == "blocks" && b) (of_block-decoded_and _ (lib.block_data evt.raw)))

asked_for-hash :
    (lib : Libraries) (w : Wanted) (evt : Event)
    → w.nonce_set ≡ false
    → (w.block_hash == "") ≡ false
    → is_wanted (block_target lib w.block_hash) evt ≡ asked_for lib w evt
asked_for-hash lib w evt no_nonce hash =
    rw (no_nonce, hash)
      (ap (λ b. evt.type == "blocks" && b) (of_block-decoded_and _ (lib.block_data evt.raw)))

asked_for-tx :
    (lib : Libraries) (w : Wanted) (evt : Event)
    → w.nonce_set ≡ false
    → (w.block_hash == "") ≡ true
    → is_wanted (tx_target lib w.tx_hash) evt ≡ asked_for lib w evt
asked_for-tx lib w evt no_nonce no_hash = rw (no_nonce, no_hash) refl

pick_target-AsksFor :
    (lib : Libraries) (w : Wanted) (timeout : Option String) (net : Network) (inputs : List Input)
    (t : Target)
    → 1 + length net.meanwhile < 2 ^ 63
    → IsForeign "1" net.meanwhile
    → pick_target lib w.nonce_set w.nonce w.block_hash w.tx_hash ≡ some t
    → AsksFor lib w timeout net inputs t
unfolding pick_target get_block get_transaction
pick_target-AsksFor lib w timeout net inputs t small f picks = elim (Bool-cases w.nonce_set) [
  | inl nonce ↦
      let same : nonce_target lib w.nonce ≡ t = ground (arith, picks, nonce) in
      subst (AsksFor lib w timeout net inputs) same (
        sending _ _ _ _ (rw nonce refl) (
          asks_for lib w timeout net inputs (nonce_target lib w.nonce) "get_block" _
            (λ evt. asked_for-nonce lib w evt nonce) small f))
  | inr no_nonce ↦ elim (Bool-cases (w.block_hash == "")) [
    | inr hash ↦
        let same : block_target lib w.block_hash ≡ t = ground (arith, picks, no_nonce, hash) in
        subst (AsksFor lib w timeout net inputs) same (
          sending _ _ _ _ (rw (no_nonce, hash) refl) (
            asks_for lib w timeout net inputs (block_target lib w.block_hash) "get_block" _
              (λ evt. asked_for-hash lib w evt no_nonce hash) small f))
    | inl no_hash ↦ elim (Bool-cases (w.tx_hash == "")) [
      | inr hash ↦
          let same : tx_target lib w.tx_hash ≡ t = ground (arith, picks, no_nonce, no_hash, hash) in
          subst (AsksFor lib w timeout net inputs) same (
            sending _ _ _ _ (rw (no_nonce, no_hash, hash) refl) (
              asks_for lib w timeout net inputs (tx_target lib w.tx_hash) "get_transaction" _
                (λ evt. asked_for-tx lib w evt no_nonce no_hash) small f))
      | inl nothing ↦ absurd (ground (arith, picks, no_nonce, no_hash, nothing))
    ]
  ]
]
  where
    sending :
        (run : Option (Requests × Option Exit)) (end : Option Exit) (sent sent' : List Request)
        → sent ≡ sent'
        → EndsWith run end sent
        → EndsWith run end sent'
    sending run end sent sent' same (s, runs, all) = (s, runs, all ∙ same)

abbrev is_bare : Wanted → Bool
is_bare w = not w.nonce_set && w.block_hash == "" && w.tx_hash == ""

no_target :
    (lib : Libraries) (w : Wanted) (timeout : Option String) (net : Network)
    → pick_target lib w.nonce_set w.nonce w.block_hash w.tx_hash ≡ none
    → (is_bare w ≡ true) × (lookups w timeout net ≡ [])
unfolding pick_target
no_target lib w timeout net picks = elim (Bool-cases w.nonce_set) [
  | inl nonce ↦ absurd (ground (arith, picks, nonce))
  | inr no_nonce ↦ elim (Bool-cases (w.block_hash == "")) [
    | inr hash ↦ absurd (ground (arith, picks, no_nonce, hash))
    | inl no_hash ↦ elim (Bool-cases (w.tx_hash == "")) [
      | inr hash ↦ absurd (ground (arith, picks, no_nonce, no_hash, hash))
      | inl nothing ↦ rw (no_nonce, no_hash, nothing) (refl, refl)
    ]
  ]
]

some_target :
    (lib : Libraries) (w : Wanted) (t : Target)
    → pick_target lib w.nonce_set w.nonce w.block_hash w.tx_hash ≡ some t
    → is_bare w ≡ false
unfolding pick_target
some_target lib w t picks = ground (arith, picks)

abbrev wait_options : Wanted → List Setting
wait_options w =
    with_scheme (if w.use_wss then "wss" else "ws") ∷ with_on_connect true ∷ with_on_error true ∷ []

wait_options-any_bad : (w : Wanted) → any_bad (wait_options w) ≡ false
wait_options-any_bad w = elim (Bool-cases w.use_wss) [ inl wss ↦ rw wss refl | inr ws ↦ rw ws refl ]

-- The program does not panic. With no target it exits with the usage and sends nothing. With one: if
-- the context is done before the connection is up, it exits with the error of that and sends nothing.
-- Else it sends a request for the block with the nonce, or with the hash, or for the transaction, by
-- what is given first, where the connection takes it. The data of the first reply under the id 1 is
-- printed, indented if it can be; an error sent by the node, or the notice that the connection closed,
-- makes it wait, until an event comes of that block or that transaction, which is printed, or the
-- channel or the context ends; and any other error ends it. This holds if fewer than 2 ^ 63 actions of
-- other goroutines come between, none of which retires that request.
pub main_lem :
    (lib : Libraries) (w : Wanted) (timeout : Option String) (net : Network) (inputs : List Input)
    → 1 + length net.meanwhile < 2 ^ 63
    → IsForeign "1" net.meanwhile
    → let nothing = not w.nonce_set && w.block_hash == "" && w.tx_hash == "" in
      EndsWith
        (main lib w timeout net inputs)
        (if nothing
          then some usage
          else ending lib timeout (outcome net "1") (wait_end lib (asked_for lib w) inputs))
        (lookups w timeout net)
unfolding main
main_lem lib w timeout net inputs small f =
    elim (Option-cases (pick_target lib w.nonce_set w.nonce w.block_hash w.tx_hash)) [
      | inl nothing ↦
          let (bare, unsent) = no_target lib w timeout net nothing in
          rw (nothing, bare, main) (no_requests, refl, sym unsent)
      | inr (t, picks) ↦
          let (s, ends, sent) = pick_target-AsksFor lib w timeout net inputs t small f picks in
          rw (picks, some_target lib w t picks, main)
            (
              s,
              new_then w.host (some (t.event_type ∷ [])) (wait_options w)
                    (λ r.
                      once_connected timeout r
                        (looked_up lib (t.lookup net r) (wait_events lib t inputs)))
                    (wait_options-any_bad w)
                  ∙ ends,
              sent,
            )
    ]
