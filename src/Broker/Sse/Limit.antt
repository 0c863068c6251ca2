-- ===== src/Broker/Sse/Limit.antt =====
-- The limit on dashboards holds in every interleaving of the requests.
use klever_subscriber.Base.{
  ℕ, ◌≤◌, ◌≡◌, refl, ◌∙◌, String, List, [], ◌∷◌, ◌++◌, some, nat_eq, get_elem?, set, arith, inl,
  inr, Option-cases,
}
use klever_subscriber.Broker.{new}
use klever_subscriber.Broker.Fanout.{IsLive, broadcast_lem}
use klever_subscriber.Broker.Sse.{
  Stage, arrived, Turn, handle_sse, System, Action, arrives, turns, broadcasts, act, run,
}
use klever_subscriber.Broker.Sse.Counts.{
  count, is_served, is_counted, count-append, count-set, served-le-counted, turn_counts, bit_le,
  counted-get,
}
use klever_subscriber.Broker.Sse.Live.{turn-IsLive}

-- The counter counts exactly the requests in these stages, and no more are let in than the limit.
pub record IsLimited (s : System) : Type 0 where
  pub counted : s.broker.sse_count ≡ count is_counted s.requests
  pub capped : count is_served s.requests ≤ s.broker.max_clients
  pub live : IsLive s.broker.frames s.broker.clients

pub turn-IsLimited :
    (s : System) (k : ℕ) (old : Stage) (t : Turn)
    → IsLimited s
    → get_elem? s.requests k ≡ some old
    → IsLimited (record {
      broker = (handle_sse s.broker old t).0;
      requests = set s.requests k (handle_sse s.broker old t).1;
    })
turn-IsLimited s k old t v at =
    let new = (handle_sse s.broker old t).1 in
    let (counts, serves, same) =
      turn_counts s.broker old t (omega (arith, v.counted, counted-get s.requests k old at)) in
    let counted' = count-set is_counted s.requests k old new at in
    let served' = count-set is_served s.requests k old new at in
    let within = served-le-counted s.requests in
    record {
      counted = omega (arith, v.counted);
      capped = elim serves [
        | inl no_more ↦ omega (arith, v.capped)
        | inr below ↦ omega (arith, v.counted, bit_le (is_served new))
      ];
      live = turn-IsLive s.broker old t v.live;
    }

-- Every action keeps the limit, and none of them panics.
pub act_total :
    (s : System) (a : Action)
    → IsLimited s
    → (s' : System) × (act s a ≡ some s')
      × IsLimited s'
      × (s'.broker.max_clients ≡ s.broker.max_clients)
unfolding act
act_total s arrives v = (
  record s { requests = s.requests ++ arrived ∷ [] },
  refl,
  record {
    counted = omega (arith, v.counted, count-append is_counted s.requests (arrived ∷ []));
    capped = omega (arith, v.capped, count-append is_served s.requests (arrived ∷ []));
    live = v.live;
  },
  refl,
)
act_total s (turns k t) v = elim (Option-cases (get_elem? s.requests k)) [
  | inl gone ↦ (s, rw (gone, act), v, refl)
  | inr (old, at) ↦ (
    _,
    rw (at, act),
    turn-IsLimited s k old t v at,
    (turn_counts s.broker old t (omega (arith, v.counted, counted-get s.requests k old at))).2,
  )
]
act_total s (broadcasts f) v =
    let (frames, runs, _, live) = broadcast_lem s.broker f v.live in
    (
      record s { broker = record s.broker { frames = frames } },
      ground arith,
      record { counted = v.counted; capped = v.capped; live = live },
      refl,
    )

pub run_total :
    (s : System) (as' : List Action)
    → IsLimited s
    → (s' : System) × (run s as' ≡ some s')
      × IsLimited s'
      × (s'.broker.max_clients ≡ s.broker.max_clients)
unfolding run
run_total s [] v = (s, refl, v, refl)
run_total s (a ∷ as') v =
    let (s₁, acts, limited, same) = act_total s a v in
    let (s', runs, end, same') = run_total s₁ as' limited in (s', rw acts runs, end, same' ∙ same)

abbrev pub started : ℕ → String → System
started max_clients url = record { broker = new max_clients url; requests = [] }

pub started-IsLimited : (max_clients : ℕ) (url : String) → IsLimited (started max_clients url)
unfolding new
started-IsLimited max_clients url = record {
  counted = refl;
  capped = omega arith;
  live = record { distinct = tt; opened = λ c m. absurd (cc) };
}

-- From a new broker, in every interleaving of requests and broadcasts: nothing panics, `sseCount` is
-- the number of requests between its two changes, and no more than `maxClients` are served at once.
pub sse_limit :
    (max_clients : ℕ) (url : String) (as' : List Action)
    → (s : System) × (run (started max_clients url) as' ≡ some s)
      × (s.broker.sse_count ≡ count is_counted s.requests)
      × (count is_served s.requests ≤ max_clients)
unfolding new
sse_limit max_clients url as' =
    let (s, runs, limited, same) =
      run_total (started max_clients url) as' (started-IsLimited max_clients url) in
    (s, runs, limited.counted, omega (arith, limited.capped, same))
