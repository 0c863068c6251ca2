-- ===== src/Command/Query.antt =====
-- cmd/subscriber/get_block.go and get_tx.go: the commands that ask the node one thing.
use klever_subscriber.Base.{
  ℕ, String, Bool, true, not, ◌&&◌, List, [], ◌∷◌, Option, none, some, ◌>>=◌, ◌==◌, string_eq,
  if◌then◌else◌,
}
use klever_subscriber.Request.{
  GetBlockParams, Requests, no_requests, Result, ok, err, SendError, Network, get_transaction,
  get_block,
}
use klever_subscriber.Subscriber.{Setting, with_scheme, with_query_only, with_on_connect, new}
use klever_subscriber.Command.{Flags, Encoders, scheme_of, print_json}

-- The flags of get-block; `nonce_set` is `cmd.Flags().Changed("nonce")`.
pub record BlockFlags : Type 0 where
  pub nonce_set : Bool
  pub nonce : ℕ
  pub hash : String
  pub with_txs : Bool

pub data CommandError : Type 0 where
  nonce_or_hash_required : CommandError
  timed_out : String → CommandError
  asking : SendError → CommandError

-- What a command ends with: an error, or a line.
pub data Ending : Type 0 where
  complains : CommandError → Ending
  prints : String → Ending

abbrev pub query_options : Flags → List Setting
query_options flags =
    with_scheme (scheme_of flags.use_wss) ∷ with_query_only ∷ with_on_connect true ∷ []

-- `if err != nil { return err }; return printJSON(data)`
abbrev pub shown : Encoders → Bool → Requests × Result String → Requests × Ending
shown enc pretty (s, ok content) = (s, prints (print_json enc pretty content))
shown enc pretty (s, err e) = (s, complains (asking e))

-- The `select` after `go sub.Start(ctx)`: an error is that of the context.
abbrev pub once_connected : Option String → Requests → Requests × Ending → Requests × Ending
once_connected none s next = next
once_connected (some e) s next = (s, complains (timed_out e))

abbrev pub block_params : BlockFlags → GetBlockParams
block_params b = record {
  nonce = if b.nonce_set then some b.nonce else none;
  hash = b.hash;
  with_txs = b.with_txs;
}

-- `RunE` of get-block: the requests of its client at the end, and how it ends; `none` is a panic.
-- The client's requests are those of a new client, as this command sends no other.
unfoldable pub get_block_cmd :
    Encoders → Flags → BlockFlags → Option String → Network → Option (Requests × Ending)
unfolding new get_block print_json
get_block_cmd enc flags b timeout net =
    let asked = new flags.node_url none (query_options flags) >>= λ sub. some (
      once_connected timeout sub.requests
        (shown enc flags.pretty (get_block net sub.requests (block_params b)))) in
    if not b.nonce_set && b.hash == ""
    then some (no_requests, complains nonce_or_hash_required)
    else asked

-- `RunE` of get-tx, for its one argument.
unfoldable pub get_tx_cmd :
    Encoders → Flags → String → Bool → Option String → Network → Option (Requests × Ending)
unfolding new get_transaction print_json
get_tx_cmd enc flags hash with_results timeout net =
    new flags.node_url none (query_options flags) >>= λ sub. some (
      once_connected timeout sub.requests
        (shown enc flags.pretty (get_transaction net sub.requests hash with_results)))
