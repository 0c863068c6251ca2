-- ===== src/Wait.antt =====
-- examples/wait-for-event/main.go: a program that waits until a block or a transaction is on chain.
-- What encoding/json makes of bytes and events is an argument, and so is `strings.EqualFold`.
pub mod Finding
pub mod Asked
pub mod Lookup
pub mod Tests
use klever_subscriber.Base.{
  ℕ, String, Bool, true, false, not, ◌&&◌, ◌||◌, List, [], ◌∷◌, ◌++◌, Option, none, some, ◌>>=◌,
  ◌==◌, string_eq, eqb, if◌then◌else◌,
}
use klever_subscriber.Event.{EventType, Event, event_blocks, event_transactions}
use klever_subscriber.Request.{
  Requests, no_requests, Result, ok, err, SendError, not_connected, write_failed, context_done,
  request_failed, Network, get_transaction, get_block,
}
use klever_subscriber.Subscriber.{Setting, with_scheme, with_on_connect, with_on_error, new}
use klever_subscriber.Frame.{Parsed, bad, parsed}

pub record BlockData : Type 0 where
  pub hash : String
  pub nonce : ℕ

-- The struct by which `decodeTxHashes` probes; `content` is raw JSON.
pub record TxProbe : Type 0 where
  pub hash : String
  pub content : String

-- `block_data` is `json.Unmarshal` into a struct with the field `data`; `hashes` and `single` decode
-- the field `hash` of an array's objects and of one object; `pretty` decodes and indents.
pub record Libraries : Type 0 where
  pub block_data : String → Parsed BlockData
  pub tx_probe : String → Parsed TxProbe
  pub hashes : String → Parsed (List String)
  pub single : String → Parsed String
  pub pretty : String → Parsed String
  pub marshal_indent : Event → Parsed String
  pub to_lower : String → String
  pub equal_fold : String → String → Bool

-- `label` is left out: it is only printed.
pub record Target : Type 0 where
  pub event_type : EventType
  pub matches : Event → Bool
  pub lookup : Network → Requests → Requests × Result String

abbrev pub non_empty : List String → List String
non_empty [] = []
non_empty (h ∷ hs) = (if h == "" then [] else h ∷ []) ++ non_empty hs

-- The array shape, or else the shape of a single object.
abbrev pub inner_hashes : Parsed (List String) → Parsed String → List String
inner_hashes (parsed hs) single = non_empty hs
inner_hashes (bad e) (parsed h) = non_empty (h ∷ [])
inner_hashes (bad e) (bad e') = []

unfoldable pub decode_tx_hashes : Libraries → String → List String
decode_tx_hashes lib raw = elim (lib.tx_probe raw) [
  | bad e ↦ []
  | parsed probe ↦
      non_empty (probe.hash ∷ [])
      ++ (if probe.content == ""
          then []
          else inner_hashes (lib.hashes probe.content) (lib.single probe.content))
]

-- `err == nil && test(probe)`
abbrev pub decoded_and : Parsed BlockData → (BlockData → Bool) → Bool
decoded_and (bad e) test = false
decoded_and (parsed probe) test = test probe

abbrev pub any_folds : Libraries → String → List String → Bool
any_folds lib want [] = false
any_folds lib want (h ∷ hs) = lib.equal_fold h want || any_folds lib want hs

abbrev pub nonce_target : Libraries → ℕ → Target
nonce_target lib want = record {
  event_type = event_blocks;
  matches = λ evt. decoded_and (lib.block_data evt.raw) (λ probe. eqb probe.nonce want);
  lookup = λ net s. get_block net s (record { nonce = some want; hash = ""; with_txs = false });
}

abbrev pub block_target : Libraries → String → Target
block_target lib block_hash = record {
  event_type = event_blocks;
  matches = λ evt.
      decoded_and (lib.block_data evt.raw)
        (λ probe. lib.equal_fold probe.hash (lib.to_lower block_hash));
  lookup = λ net s. get_block net s (record { nonce = none; hash = block_hash; with_txs = false });
}

abbrev pub tx_target : Libraries → String → Target
tx_target lib tx_hash = record {
  event_type = event_transactions;
  matches = λ evt.
      lib.equal_fold evt.hash (lib.to_lower tx_hash)
      || any_folds lib (lib.to_lower tx_hash) (decode_tx_hashes lib evt.raw);
  lookup = λ net s. get_transaction net s tx_hash false;
}

unfoldable pub pick_target : Libraries → Bool → ℕ → String → String → Option Target
unfolding decode_tx_hashes get_block get_transaction
pick_target lib nonce_set nonce block_hash tx_hash =
    if nonce_set
    then some (nonce_target lib nonce)
    else if not (block_hash == "")
    then some (block_target lib block_hash)
    else if not (tx_hash == "")
    then some (tx_target lib tx_hash)
    else none

-- How the program ends: its status is 0 if it has printed what it waited for, else 1 or 2.
pub data Exit : Type 0 where
  usage : Exit
  connect_timeout : String → Exit
  lookup_failed : SendError → Exit
  timed_out : String → Exit
  stream_closed : Exit
  prints : String → Exit

-- What the `select` of the loop takes: an event, the end of the channel, or the context's error.
pub data Input : Type 0 where
  arrives : Event → Input
  closes : Input
  expires : String → Input

abbrev pub pretty_or_raw : Parsed String → String → String
pretty_or_raw (bad e) raw = raw
pretty_or_raw (parsed output) raw = output

-- The loop; `none` while it still waits.
unfoldable pub wait_events : Libraries → Target → List Input → Option Exit
wait_events lib t [] = none
wait_events lib t (expires e ∷ inputs) = some (timed_out e)
wait_events lib t (closes ∷ inputs) = some stream_closed
wait_events lib t (arrives evt ∷ inputs) =
    let rest = wait_events lib t inputs in
    if not (evt.type == t.event_type) || not (t.matches evt)
    then rest
    else some (prints (pretty_or_raw (lib.marshal_indent evt) evt.raw))

-- `errors.Is(err, subscriber.ErrRequestFailed)`
abbrev pub is_request_failed : SendError → Bool
is_request_failed not_connected = false
is_request_failed (write_failed e) = false
is_request_failed (context_done e) = false
is_request_failed (request_failed e) = true

-- `printJSON`
abbrev pub json_line : Libraries → String → String
json_line lib content = pretty_or_raw (lib.pretty content) content

-- What follows the lookup.
abbrev pub looked_up : Libraries → Requests × Result String → Option Exit → Requests × Option Exit
looked_up lib (s, ok content) next = (s, some (prints (json_line lib content)))
looked_up lib (s, err e) next = (s, if is_request_failed e then next else some (lookup_failed e))

abbrev pub once_connected :
    Option String → Requests → Requests × Option Exit → Requests × Option Exit
once_connected none s next = next
once_connected (some e) s next = (s, some (connect_timeout e))

-- The command's flags, with the environment: `host` and whether to use wss.
pub record Wanted : Type 0 where
  pub nonce_set : Bool
  pub nonce : ℕ
  pub block_hash : String
  pub tx_hash : String
  pub host : String
  pub use_wss : Bool

-- The requests of the client at the end, and how the program ends. `New` is called with the type of the
-- target and options that cannot panic; an outer `none` is a panic, an inner one the wait for more
-- input.
unfoldable pub main :
    Libraries → Wanted → Option String → Network → List Input → Option (Requests × Option Exit)
unfolding pick_target wait_events new
main lib w timeout net inputs = elim (pick_target lib w.nonce_set w.nonce w.block_hash w.tx_hash) [
  | none ↦ some (no_requests, some usage)
  | some t ↦
      new w.host (some (t.event_type ∷ [])) (
        with_scheme (if w.use_wss then "wss" else "ws")
        ∷ with_on_connect true
        ∷ with_on_error true
        ∷ [])
      >>= λ sub. some (
          once_connected timeout sub.requests
            (looked_up lib (t.lookup net sub.requests) (wait_events lib t inputs)))
]
