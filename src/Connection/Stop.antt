-- ===== src/Connection/Stop.antt =====
-- `Start` returns after its context is done.
use klever_subscriber.Base.{
  ℕ, Bool, ◌+◌, ◌≤◌, ◌≡◌, refl, ◌∙◌, ap, ◌⊎◌, String, true, false, List, [], ◌∷◌, some, inl, inr,
  arith, nat_eq, Option-cases, All, length, map,
}
use klever_subscriber.Event.{EventType}
use klever_subscriber.Chan.{for_each, close_chan}
use klever_subscriber.Hub.{close_subscribers}
use klever_subscriber.Request.{Slice}
use klever_subscriber.Subscriber.{Subscriber, Setting, new}
use klever_subscriber.Connection.{
  Stage, top, checking, idle, opening, reading, dialing, subscribing, online, closing, hanging_up,
  returned, settled, pausing, stopped, unwinding, recovered, by_ctx, Turn, Loop, Step, turns, stop,
  wait, serve, advance, step, run,
}
use klever_subscriber.Connection.Invariant.{is_stopped, IsCoherent}
use klever_subscriber.Connection.Turns.{advance-IsCoherent}
use klever_subscriber.Connection.Runs.{started, reached-IsCoherent}

-- How many turns are left at most, once the context is done.
abbrev pub turns_left : Stage → ℕ
turns_left stopped = 0
turns_left (returned c) = 2
turns_left (hanging_up c) = 3
turns_left (closing c) = 4
turns_left (online c) = 5
turns_left (subscribing c types addresses) = 6
turns_left (dialing c types addresses) = 7
turns_left (reading c) = 8
turns_left opening = 9
turns_left checking = 10
turns_left _ = 1

-- A callback has panicked.
abbrev pub is_crashed : Stage → Bool
is_crashed (unwinding c b) = true
is_crashed (recovered c b) = true
is_crashed _ = false

-- The turn takes the branch of the context, and no callback panics in it.
abbrev pub IsLast : Turn → Type 0
IsLast t = (t.ready ≡ by_ctx) × (t.panics ≡ false)

-- The loop is on its way out, and has closed the channels if it is there.
record IsEnding (s : Loop) : Type 0 where
  alive : is_crashed s.stage ≡ false
  over : s.done ≡ true
  closed : is_stopped s.stage ≡ true → s.client.hub.subscribers ≡ []

stop_lem :
    (s s' : Loop)
    → stop s ≡ some s'
    → (s'.stage ≡ stopped) × (s'.done ≡ s.done) × (s'.client.hub.subscribers ≡ [])
unfolding stop close_subscribers
stop_lem s s' h =
    elim (Option-cases (for_each close_chan s.client.hub.subscribers s.client.hub.channels)) [
      | inl panics ↦ absurd (ground arith)
      | inr (heap, runs) ↦ ground arith
    ]

-- Each turn that takes the branch of the context is one of those left.
advance_down :
    (stage : Stage) (s s' : Loop) (t : Turn)
    → IsEnding s
    → s.stage ≡ stage
    → IsLast t
    → advance stage s t ≡ some s'
    → IsEnding s' × ((turns_left s'.stage + 1 ≤ turns_left stage) ⊎ (turns_left s'.stage ≡ 0))
unfolding advance wait serve
advance_down top s s' t v q r h =
    let (a, b, c) = stop_lem s s' (ground (arith, v.over)) in
    (record { alive = rw a refl; over = b ∙ v.over; closed = λ _. c }, inr (rw a refl))
advance_down idle s s' t v q r h =
    let (a, b, c) = stop_lem s s' (ground (arith, v.over)) in
    (record { alive = rw a refl; over = b ∙ v.over; closed = λ _. c }, inr (rw a refl))
advance_down (settled d) s s' t v q r h =
    let (a, b, c) = stop_lem s s' (ground (arith, v.over)) in
    (record { alive = rw a refl; over = b ∙ v.over; closed = λ _. c }, inr (rw a refl))
advance_down pausing s s' t v q r h =
    let (a, b, c) = stop_lem s s' (ground (arith, v.over)) in
    (record { alive = rw a refl; over = b ∙ v.over; closed = λ _. c }, inr (rw a refl))
advance_down stopped s s' t v q r h =
    (ground (arith, v.over, v.closed, v.alive), inr (ground arith))
advance_down (unwinding d b) s s' t v q r h = let alive = v.alive in absurd (cc)
advance_down (recovered d b) s s' t v q r h = let alive = v.alive in absurd (cc)
advance_down stage s s' t v q (r, p) h =
    (ground (arith, v.over, v.closed, v.alive), inl (ground (arith, v.over)))

run_down :
    (ts : List Turn) (s : Loop)
    → IsCoherent s
    → IsEnding s
    → All IsLast ts
    → turns_left s.stage ≤ length ts
    → (s' : Loop) × (run s (map turns ts) ≡ some s') × (turns_left s'.stage ≡ 0) × IsEnding s'
unfolding run step
run_down [] s v e r h = (s, refl, omega arith, e)
run_down (t ∷ ts) s v e r h =
    let (s₁, runs, v₁) = advance-IsCoherent s.stage s t v refl in
    let (e₁, down) = advance_down s.stage s s₁ t e refl r.0 runs in
    let (s', rest, ended, e') =
      run_down ts s₁ v₁ e₁ r.1
        (elim down [ inl less ↦ omega arith | inr none_left ↦ omega arith ]) in
    (s', rw runs rest, ended, e')

stopped_of : (stage : Stage) → turns_left stage ≡ 0 → stage ≡ stopped
stopped_of stopped h = refl
stopped_of (returned c) h = absurd (omega arith)
stopped_of (hanging_up c) h = absurd (omega arith)
stopped_of (closing c) h = absurd (omega arith)
stopped_of (online c) h = absurd (omega arith)
stopped_of (subscribing c types addresses) h = absurd (omega arith)
stopped_of (dialing c types addresses) h = absurd (omega arith)
stopped_of (reading c) h = absurd (omega arith)
stopped_of opening h = absurd (omega arith)
stopped_of checking h = absurd (omega arith)
stopped_of stage h = absurd (omega arith)

turns_left-le : (stage : Stage) → turns_left stage ≤ 10
turns_left-le stopped = omega arith
turns_left-le stage = omega arith

-- Whatever has happened before on a client that `New` returned, if `Start` has not returned yet and no
-- callback panics: once its context is done,
-- ten turns that see it are enough for `Start` to close every listed channel and return, whatever
-- the network does in them.
pub start_returns :
    (host : String) (types : Slice EventType) (opts : List Setting) (s : Subscriber)
    (as' : List Step) (s₁ : Loop) (ts : List Turn)
    → new host types opts ≡ some s
    → run (started s) as' ≡ some s₁
    → is_stopped s₁.stage ≡ false
    → is_crashed s₁.stage ≡ false
    → s₁.done ≡ true
    → All IsLast ts
    → 10 ≤ length ts
    → (s' : Loop) × (run s₁ (map turns ts) ≡ some s')
      × (s'.stage ≡ stopped)
      × (s'.client.hub.subscribers ≡ [])
start_returns host types opts s as' s₁ ts made ran going alive over sees enough =
    let coherent = reached-IsCoherent host types opts s as' s₁ made ran in
    let (s', rest, ended, e) =
      run_down ts s₁ coherent (record { alive = alive; over = over; closed = λ h. absurd (cc) })
        sees (omega (arith, turns_left-le s₁.stage)) in
    let at_end = stopped_of s'.stage ended in (s', rest, at_end, e.closed (ap is_stopped at_end))
