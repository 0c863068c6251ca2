-- ===== src/Examples/Tests.antt =====
-- Runs of the programs.
use klever_subscriber.Base.{
  ◌≡◌, refl, true, false, [], ◌∷◌, none, some, ◌==◌, string_eq, arith, if◌then◌else◌,
}
use klever_subscriber.Request.{Network, no_requests, routes, fails_all}
use klever_subscriber.Request.Outcome.{outcome}
use klever_subscriber.Request.Sent.{asked_once}
use klever_subscriber.Examples.{Environment, QueryFlags, usage, query_main}
use klever_subscriber.Examples.Query.{ending, EndsWith, query_request, query_main_lem}

abbrev secure : Environment
secure key = if key == "KLEVER_WSS" then "1" else ""

abbrev by_hash : QueryFlags
by_hash = record { tx_hash = "0x02"; block_nonce = 0; with_results = true }

abbrev network : Network
network = record {
  connected = true;
  write_error = none;
  meanwhile = routes (record { id = "1"; content = "{}"; error = "" }) ∷ fails_all ∷ [];
  ctx_first = false;
  ctx_error = "context deadline exceeded";
}

query_main_lem_example :
    EndsWith
      (query_main secure by_hash none network)
      (ending none (outcome network "1"))
      (asked_once none network (query_request by_hash))
query_main_lem_example = query_main_lem secure by_hash none network (omega arith) tt

-- The first block cannot be asked for.
block_zero :
    query_main secure (record by_hash { tx_hash = "" }) none network ≡ some (no_requests, usage)
unfolding query_main
block_zero = refl
