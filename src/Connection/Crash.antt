-- ===== src/Connection/Crash.antt =====
-- A panic in a callback: `recover` ends `Start`.
use klever_subscriber.Base.{
  ℕ, Bool, ◌≡◌, refl, ◌∙◌, String, true, List, [], ◌∷◌, none, some, inl, inr, arith, nat_eq,
  Option-cases,
}
use klever_subscriber.Event.{EventType}
use klever_subscriber.Hub as Channels
use klever_subscriber.Subscription.{bounce}
use klever_subscriber.Connection.{
  recovered, Turn, Loop, Step, turns, finishes, on_channels, on_requests, assigns, bounces, advance,
  step, run,
}
use klever_subscriber.Request.{Slice}
use klever_subscriber.Subscriber.{Subscriber, Setting, new}
use klever_subscriber.Connection.Runs.{started, run-IsCoherent, reached-IsCoherent}

-- No step leads away from the end.
step-recovered :
    (s s' : Loop) (c : ℕ) (b : Bool) (a : Step)
    → s.stage ≡ recovered c b
    → step s a ≡ some s'
    → s'.stage ≡ recovered c b
unfolding step advance bounce
step-recovered s s' c b (turns t) q h = let same : s' ≡ s = ground (arith, stay s t) in rw same q
  where
    stay : (s : Loop) (t : Turn) → advance (recovered c b) s t ≡ some s
    stay s t = refl
step-recovered s s' c b finishes q h = ground arith
step-recovered s s' c b (on_channels a) q h =
    elim (Option-cases (Channels.act (record { hub = s.client.hub; handles = s.handles }) a)) [
      | inl panics ↦ absurd (ground arith)
      | inr (w, acts) ↦ ground arith
    ]
step-recovered s s' c b (on_requests o) q h = ground arith
step-recovered s s' c b (assigns types addresses) q h = ground arith
step-recovered s s' c b (bounces types addresses) q h = elim (Option-cases s.client.conn_cancel) [
  | inl idle ↦ ground arith
  | inr (d, running) ↦ ground arith
]

run-recovered :
    (as' : List Step) (s s' : Loop) (c : ℕ) (b : Bool)
    → s.stage ≡ recovered c b
    → run s as' ≡ some s'
    → s'.stage ≡ recovered c b
unfolding run
run-recovered [] s s' c b q h = ground arith
run-recovered (a ∷ as') s s' c b q h = elim (Option-cases (step s a)) [
  | inl panics ↦ absurd (ground arith)
  | inr (s₁, steps) ↦ run-recovered as' s₁ s' c b (step-recovered s s₁ c b a q steps) (ground arith)
]

-- Once `onConnect` has panicked and `Start` has recovered, on a client that `New` returned, then for
-- good, whatever the other goroutines do: `connected` is true, and there is no connection.
pub connect_panic_lem :
    (host : String) (types : Slice EventType) (opts : List Setting) (client : Subscriber)
    (before : List Step) (s : Loop) (c : ℕ) (as' : List Step)
    → new host types opts ≡ some client
    → run (started client) before ≡ some s
    → s.stage ≡ recovered c true
    → (s' : Loop) × (run s as' ≡ some s') × (s'.client.connected ≡ true) × (s'.active ≡ none)
connect_panic_lem host types opts client before s c as' made ran q =
    let coherent = reached-IsCoherent host types opts client before s made ran in
    let (s', runs, v) = run-IsCoherent s as' coherent in
    let ended = run-recovered as' s s' c true q runs in
    (s', runs, v.connected ∙ (rw ended refl), v.socket ∙ (rw ended refl))
