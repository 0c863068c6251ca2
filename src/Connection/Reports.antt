-- ===== src/Connection/Reports.antt =====
-- The calls of `onError` by `Start`.
use klever_subscriber.Base.{
  ◌≡◌, refl, ◌∙◌, sym, ap, subst, String, true, ◌&&◌, List, [], ◌∷◌, some, arith, inl, inr,
  Bool-cases, Option-cases, if◌then◌else◌,
}
use klever_subscriber.Event.{EventType}
use klever_subscriber.Hub.{Hub, close_subscribers}
use klever_subscriber.Hub as Channels
use klever_subscriber.Request.{Slice, by_other}
use klever_subscriber.Subscriber.{Subscriber, Setting, new}
use klever_subscriber.Subscription.{bounce, assign}
use klever_subscriber.Connection.{
  Stage, unwinding, recovered, Turn, Loop, Step, turns, finishes, on_channels, on_requests, assigns,
  bounces, advance, step, run,
}
use klever_subscriber.Connection.Runs.{started, run-IsCoherent, started-IsCoherent}
use klever_subscriber.Connection.Moves.{
  is_recovered, called, IsCounted, moved-IsCounted, advance-Moves,
}

turn-IsCounted :
    (stage : Stage) (s s' : Loop) (t : Turn)
    → s.stage ≡ stage
    → advance stage s t ≡ some s'
    → IsCounted s
    → IsCounted s'
unfolding advance
turn-IsCounted (unwinding c b) s s' t q h v =
    let zero_before : s.recoveries ≡ 0 = v ∙ (rw q refl) in
    elim (Bool-cases s.client.on_error) [
      | inl on ↦ ground (arith, h, zero_before, on)
      | inr off ↦ ground (arith, h, zero_before, off)
    ]
turn-IsCounted (recovered c b) s s' t q h v =
    let same : s ≡ s' = ground (arith, h) in subst IsCounted same v
turn-IsCounted stage s s' t q h v =
    moved-IsCounted s s' (rw q refl) (advance-Moves stage s s' t q refl refl h) v

bounce-callback : (s : Subscriber) → (bounce s).on_error ≡ s.on_error
unfolding bounce
bounce-callback s = elim (Option-cases s.conn_cancel) [
  | inl without ↦ ground arith
  | inr (c, running) ↦ ground arith
]

step-IsCounted : (s s' : Loop) (a : Step) → step s a ≡ some s' → IsCounted s → IsCounted s'
unfolding step
step-IsCounted s s' (turns t) h v = turn-IsCounted s.stage s s' t refl h v
step-IsCounted s s' finishes h v =
    let same : record s { done = true } ≡ s' = ground (arith, h) in subst IsCounted same v
step-IsCounted s s' (on_channels a) h v =
    elim (Option-cases (Channels.act (record { hub = s.client.hub; handles = s.handles }) a)) [
      | inl panics ↦ absurd (ground (arith, h, panics))
      | inr (w, acts) ↦
          let same : record s { client = record s.client { hub = w.hub }; handles = w.handles }
              ≡ s' =
            ground (arith, h, acts) in
          subst IsCounted same v
    ]
step-IsCounted s s' (on_requests o) h v =
    let same : record s { client = record s.client { requests = by_other s.client.requests o } }
        ≡ s' =
      ground (arith, h) in
    subst IsCounted same v
step-IsCounted s s' (assigns types addresses) h v =
    let same : record s { client = assign s.client types addresses } ≡ s' = ground (arith, h) in
    subst IsCounted same v
step-IsCounted s s' (bounces types addresses) h v =
    let same : record s { client = bounce (assign s.client types addresses) } ≡ s' =
      ground (arith, h) in
    subst IsCounted same
      (v ∙ ap (called s.stage) (sym (bounce-callback (assign s.client types addresses))))

run-IsCounted : (as' : List Step) (s s' : Loop) → run s as' ≡ some s' → IsCounted s → IsCounted s'
unfolding run
run-IsCounted [] s s' h v = let same : s ≡ s' = ground (arith, h) in subst IsCounted same v
run-IsCounted (a ∷ as') s s' h v = elim (Option-cases (step s a)) [
  | inl panics ↦ absurd (ground (arith, h, panics))
  | inr (s₁, steps) ↦
      run-IsCounted as' s₁ s' (ground (arith, h, steps)) (step-IsCounted s s₁ a steps v)
]

-- `Start` on a client that `New` returned, in every interleaving with the other goroutines: its loop
-- never calls `onError`, as the connection's context, on which the call depends, is cancelled before
-- the test. The deferred `recover` alone does, if there is a callback: once after a panic of another
-- callback has ended the loop, and not before.
pub start_reports_panics :
    (host : String) (types : Slice EventType) (opts : List Setting) (s : Subscriber)
    (as' : List Step)
    → new host types opts ≡ some s
    → (s' : Loop) × (run (started s) as' ≡ some s')
      × (s'.reports ≡ 0)
      × (s'.recoveries ≡ (if is_recovered s'.stage && s'.client.on_error then 1 else 0))
start_reports_panics host types opts s as' h =
    let (s', runs, v) = run-IsCoherent (started s) as' (started-IsCoherent host types opts s h) in
    (s', runs, v.quiet, run-IsCounted as' (started s) s' runs refl)
