-- ===== src/Connection/Tests.antt =====
-- Runs of `Start`.
use klever_subscriber.Base.{
  ◌≡◌, refl, true, false, ◌&&◌, List, [], ◌∷◌, some, map, arith, if◌then◌else◌,
}
use klever_subscriber.Chan.{make_chan}
use klever_subscriber.Hub.{subscribe}
use klever_subscriber.Subscriber.{
  Subscriber, Setting, with_on_error, apply, apply_all, defaults, with_events, new,
}
use klever_subscriber.Connection.{
  stopped, Ready, by_ctx, by_timer, by_peer, Turn, Loop, Step, turns, finishes, step, run,
}
use klever_subscriber.Connection.Runs.{started}
use klever_subscriber.Connection.Moves.{is_recovered}
use klever_subscriber.Connection.Reports.{start_reports_panics}
use klever_subscriber.Request.{fail_all_pending, fail_each}
use klever_subscriber.Connection.{bounces, recovered, advance}
use klever_subscriber.Subscriber.{with_on_connect}
use klever_subscriber.Connection.Crash.{connect_panic_lem}
use klever_subscriber.Base.{none}
use klever_subscriber.Connection.Stop.{start_returns}

abbrev settings : List Setting
settings = with_on_error true ∷ []

abbrev client : Subscriber
client =
    let s = defaults "node" (some ("blocks" ∷ [])) in
    with_events (record s { config = record s.config { on_error = true } })

client_made : new "node" (some ("blocks" ∷ [])) settings ≡ some client
unfolding new apply_all apply subscribe make_chan
client_made = refl

abbrev turn : Ready → Turn
turn r = record {
  dial_error = false;
  deadline_error = false;
  write_error = false;
  panics = false;
  ready = r;
}

abbrev no_dial : Turn
no_dial = record {
  dial_error = true;
  deadline_error = false;
  write_error = false;
  panics = false;
  ready = by_timer;
}

-- A dial fails; after the pause the next one is answered, and then the peer goes away.
abbrev steps : List Step
steps =
    turns (turn by_timer)
    ∷ turns (turn by_timer)
    ∷ turns (turn by_timer)
    ∷ turns (turn by_timer)
    ∷ turns no_dial
    ∷ turns (turn by_timer)
    ∷ turns (turn by_timer)
    ∷ turns (turn by_timer)
    ∷ turns (turn by_timer)
    ∷ turns (turn by_timer)
    ∷ turns (turn by_timer)
    ∷ turns (turn by_timer)
    ∷ turns (turn by_timer)
    ∷ turns (turn by_timer)
    ∷ turns (turn by_peer)
    ∷ []

start_reports_panics_example :
    (s' : Loop) × (run (started client) steps ≡ some s')
    × (s'.reports ≡ 0)
    × (s'.recoveries ≡ (if is_recovered s'.stage && s'.client.on_error then 1 else 0))
start_reports_panics_example =
    start_reports_panics "node" (some ("blocks" ∷ [])) settings client steps client_made

abbrev last_turns : List Turn
last_turns =
    turn by_ctx
    ∷ turn by_ctx
    ∷ turn by_ctx
    ∷ turn by_ctx
    ∷ turn by_ctx
    ∷ turn by_ctx
    ∷ turn by_ctx
    ∷ turn by_ctx
    ∷ turn by_ctx
    ∷ turn by_ctx
    ∷ []

abbrev told : Loop
told = let s = started client in record s { done = true }

told_runs : run (started client) (finishes ∷ []) ≡ some told
unfolding run step
told_runs = refl

start_returns_example :
    (s' : Loop) × (run told (map turns last_turns) ≡ some s')
    × (s'.stage ≡ stopped)
    × (s'.client.hub.subscribers ≡ [])
start_returns_example =
    start_returns "node" (some ("blocks" ∷ [])) settings client (finishes ∷ []) told last_turns
      client_made told_runs refl refl refl
      (
        (refl, refl),
        (
          (refl, refl),
          (
            (refl, refl),
            (
              (refl, refl),
              (
                (refl, refl),
                ((refl, refl), ((refl, refl), ((refl, refl), ((refl, refl), ((refl, refl), tt))))),
              ),
            ),
          ),
        ),
      )
      (omega arith)

-- The callback of `WithOnConnect` panics, as one does that closes a channel on its second call.
abbrev bad_turn : Turn
bad_turn = record {
  dial_error = false;
  deadline_error = false;
  write_error = false;
  panics = true;
  ready = by_timer;
}

abbrev listener : List Setting
listener = with_on_connect true ∷ []

abbrev listening : Subscriber
listening =
    let s = defaults "node" (some ("blocks" ∷ [])) in
    with_events (record s { config = record s.config { on_connect = true } })

listening_made : new "node" (some ("blocks" ∷ [])) listener ≡ some listening
unfolding new apply_all apply subscribe make_chan
listening_made = refl

abbrev crash : List Step
crash =
    turns bad_turn
    ∷ turns bad_turn
    ∷ turns bad_turn
    ∷ turns bad_turn
    ∷ turns bad_turn
    ∷ turns bad_turn
    ∷ turns bad_turn
    ∷ []

abbrev crashed : Loop
crashed =
    let s = started listening in
    record s {
      client = record listening { connected = true; conn_cancel = some 0 };
      stage = recovered 0 true;
      next_ctx = 1;
      handshakes = ("blocks" ∷ [], []) ∷ [];
    }

crash_runs : run (started listening) crash ≡ some crashed
unfolding run step advance fail_all_pending fail_each
crash_runs = refl

connect_panic_lem_example :
    (s' : Loop) × (run crashed (bounces ("accounts" ∷ []) [] ∷ []) ≡ some s')
    × (s'.client.connected ≡ true)
    × (s'.active ≡ none)
connect_panic_lem_example =
    connect_panic_lem "node" (some ("blocks" ∷ [])) listener listening crash crashed 0
      (bounces ("accounts" ∷ []) [] ∷ []) listening_made crash_runs refl
