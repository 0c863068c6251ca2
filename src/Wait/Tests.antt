-- ===== src/Wait/Tests.antt =====
-- Runs of the program.
use klever_subscriber.Base.{
  ◌≡◌, refl, String, true, false, List, [], ◌∷◌, ◌++◌, none, some, ◌==◌, string_eq, map, arith,
  if◌then◌else◌,
}
use klever_subscriber.Event.{Event, null}
use klever_subscriber.Request.{Network, routes}
use klever_subscriber.Request.Outcome.{outcome}
use klever_subscriber.Frame.{bad, parsed}
use klever_subscriber.Wait.{
  Libraries, nonce_target, decode_tx_hashes, prints, Input, arrives, closes, wait_events,
  pretty_or_raw, Wanted, main,
}
use klever_subscriber.Wait.Asked.{ending, wait_end, asked_for, lookups, EndsWith}
use klever_subscriber.Wait.Lookup.{main_lem}
use klever_subscriber.Wait.Finding.{FirstWanted, wait_events-FirstWanted}

-- Block 7 is in the frame "BLOCK 7" and no other; no event can be encoded.
abbrev libraries : Libraries
libraries = record {
  block_data = λ raw. parsed (record { hash = "0x0a"; nonce = if raw == "BLOCK 7" then 7 else 6 });
  tx_probe = λ raw. parsed (record { hash = ""; content = "[...]" });
  hashes = λ content. parsed ("" ∷ "0x0b" ∷ []);
  single = λ content. bad "json: cannot unmarshal array";
  pretty = λ content. parsed content;
  marshal_indent = λ evt. bad "json: unsupported value";
  to_lower = λ s. s;
  equal_fold = λ s t. s == t;
}

abbrev block : String → Event
block raw = record { type = "blocks"; address = ""; hash = ""; payload = null; raw = raw }

-- The hashes of a transactions event, without the empty ones.
hashes_of_array : decode_tx_hashes libraries "TRANSACTIONS" ≡ "0x0b" ∷ []
unfolding decode_tx_hashes
hashes_of_array = refl

wait_events-FirstWanted_example :
    (f : FirstWanted (nonce_target libraries 7) (block "BLOCK 6" ∷ block "BLOCK 7" ∷ []))
    × (wait_events libraries
          (nonce_target libraries 7)
          (map arrives (block "BLOCK 6" ∷ block "BLOCK 7" ∷ []) ++ closes ∷ [])
        ≡ some (prints (pretty_or_raw (bad "json: unsupported value") f.found.raw)))
wait_events-FirstWanted_example =
    wait_events-FirstWanted libraries (nonce_target libraries 7)
      (block "BLOCK 6" ∷ block "BLOCK 7" ∷ []) (closes ∷ []) refl

abbrev wanted : Wanted
wanted = record {
  nonce_set = true;
  nonce = 7;
  block_hash = "";
  tx_hash = "";
  host = "localhost:8080";
  use_wss = false;
}

-- The node does not have the block yet.
abbrev network : Network
network = record {
  connected = true;
  write_error = none;
  meanwhile = routes (record { id = "1"; content = ""; error = "not found" }) ∷ [];
  ctx_first = false;
  ctx_error = "context deadline exceeded";
}

abbrev inputs : List Input
inputs = arrives (block "BLOCK 6") ∷ arrives (block "BLOCK 7") ∷ []

main_lem_example :
    EndsWith
      (main libraries wanted none network inputs)
      (ending libraries none
        (outcome network "1")
        (wait_end libraries (asked_for libraries wanted) inputs))
      (lookups wanted none network)
main_lem_example = main_lem libraries wanted none network inputs (omega arith) tt
