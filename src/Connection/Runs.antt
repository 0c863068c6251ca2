-- ===== src/Connection/Runs.antt =====
-- Every run of `Start` among the other goroutines.
use klever_subscriber.Base.{
  ℕ, ◌≡◌, refl, ◌∙◌, sym, subst, String, true, false, List, [], ◌∷◌, none, some, nat_eq, arith, inl,
  inr, Bool-cases, Option-cases,
}
use klever_subscriber.Event.{EventType}
use klever_subscriber.Hub.Safety.{act_total}
use klever_subscriber.Request.{Slice}
use klever_subscriber.Subscriber.{Subscriber, Setting, new}
use klever_subscriber.Subscriber.Construction.{any_bad, new_lem, new_panics}
use klever_subscriber.Subscription.{bounce, assign}
use klever_subscriber.Connection.{
  Stage, settled, top, Loop, Step, turns, finishes, on_channels, on_requests, assigns, bounces,
  step, run,
}
use klever_subscriber.Connection.Invariant.{settles, IsTyped, IsCoherent}
use klever_subscriber.Connection.Selects.{Kept}
use klever_subscriber.Connection.Turns.{advance-IsCoherent}

-- `Start` on a client, before its first turn.
abbrev pub started : Subscriber → Loop
started s = record {
  client = s;
  handles = [];
  done = false;
  stage = top;
  active = none;
  next_ctx = 0;
  handshakes = [];
  reports = 0;
  recoveries = 0;
}

-- A context stays cancelled.
settles-cons :
    (stage : Stage) (c : ℕ) (cancelled : List ℕ)
    → settles stage cancelled ≡ true
    → settles stage (c ∷ cancelled) ≡ true
settles-cons (settled d) c cancelled h = ground arith
settles-cons stage c cancelled h = refl

bounce-IsCoherent :
    (s : Loop) (types : List EventType) (addresses : List String)
    → IsCoherent s
    → IsCoherent (record s { client = bounce (assign s.client types addresses) })
unfolding bounce
bounce-IsCoherent s types addresses v = elim (Option-cases s.client.conn_cancel) [
  | inl idle ↦ rw idle (record {
    sound = v.sound;
    context = sym idle ∙ v.context;
    socket = v.socket;
    connected = v.connected;
    settling = v.settling;
    ended = v.ended;
    typed = v.typed;
    quiet = v.quiet;
  })
  | inr (c, running) ↦ rw running (record {
    sound = v.sound;
    context = sym running ∙ v.context;
    socket = v.socket;
    connected = v.connected;
    settling = settles-cons s.stage c s.client.cancelled v.settling;
    ended = v.ended;
    typed = v.typed;
    quiet = v.quiet;
  })
]

step-IsCoherent : (s : Loop) (a : Step) → IsCoherent s → Kept (step s a)
unfolding step
step-IsCoherent s (turns t) v = advance-IsCoherent s.stage s t v refl
step-IsCoherent s finishes v = (
  _,
  refl,
  record {
    sound = v.sound;
    context = v.context;
    socket = v.socket;
    connected = v.connected;
    settling = v.settling;
    ended = λ _. refl;
    typed = v.typed;
    quiet = v.quiet;
  },
)
step-IsCoherent s (on_channels a) v =
    let (w, acts, sound) =
      act_total (record { hub = s.client.hub; handles = s.handles }) a v.sound in
    (
      record s { client = record s.client { hub = w.hub }; handles = w.handles },
      rw acts,
      record {
        sound = sound;
        context = v.context;
        socket = v.socket;
        connected = v.connected;
        settling = v.settling;
        ended = v.ended;
        typed = v.typed;
        quiet = v.quiet;
      },
    )
step-IsCoherent s (on_requests o) v = (
  _,
  refl,
  record {
    sound = v.sound;
    context = v.context;
    socket = v.socket;
    connected = v.connected;
    settling = v.settling;
    ended = v.ended;
    typed = v.typed;
    quiet = v.quiet;
  },
)
step-IsCoherent s (assigns types addresses) v = (
  _,
  refl,
  record {
    sound = v.sound;
    context = v.context;
    socket = v.socket;
    connected = v.connected;
    settling = v.settling;
    ended = v.ended;
    typed = v.typed;
    quiet = v.quiet;
  },
)
step-IsCoherent s (bounces types addresses) v = (_, refl, bounce-IsCoherent s types addresses v)

pub run-IsCoherent : (s : Loop) (as' : List Step) → IsCoherent s → Kept (run s as')
unfolding run
run-IsCoherent s [] v = (s, refl, v)
run-IsCoherent s (a ∷ as') v =
    let (s₁, steps, v₁) = step-IsCoherent s a v in
    let (s', runs, v') = run-IsCoherent s₁ as' v₁ in (s', rw steps runs, v')

pub started-IsCoherent :
    (host : String) (types : Slice EventType) (opts : List Setting) (s : Subscriber)
    → new host types opts ≡ some s
    → IsCoherent (started s)
started-IsCoherent host types opts s h = elim (Bool-cases (any_bad opts)) [
  | inl bad ↦ let panics = new_panics host types opts bad in absurd (cc)
  | inr good ↦
      let (s', runs, _, _, connected, undialled, _, sound, _) = new_lem host types opts good in
      let same : s' ≡ s = ground arith in
      subst (λ c. IsCoherent (started c)) same
        (record {
          sound = sound;
          context = undialled;
          socket = refl;
          connected = connected;
          settling = refl;
          ended = λ e. absurd (cc);
          typed = tt;
          quiet = refl;
        })
]

-- Every state that a client of `New` gets to is coherent.
pub reached-IsCoherent :
    (host : String) (types : Slice EventType) (opts : List Setting) (s : Subscriber)
    (as' : List Step) (s' : Loop)
    → new host types opts ≡ some s
    → run (started s) as' ≡ some s'
    → IsCoherent s'
reached-IsCoherent host types opts s as' s' made ran =
    let (s₂, runs, v) =
      run-IsCoherent (started s) as' (started-IsCoherent host types opts s made) in
    let same : s₂ ≡ s' = ground arith in subst IsCoherent same v

-- In every run each handshake sent names at least one type, also that of a client without types.
handshakes-IsTyped :
    (host : String) (types : Slice EventType) (opts : List Setting) (s : Subscriber)
    (as' : List Step)
    → new host types opts ≡ some s
    → (s' : Loop) × (run (started s) as' ≡ some s') × IsTyped s'.handshakes
handshakes-IsTyped host types opts s as' h =
    let (s', runs, v) = run-IsCoherent (started s) as' (started-IsCoherent host types opts s h) in
    (s', runs, v.typed)
