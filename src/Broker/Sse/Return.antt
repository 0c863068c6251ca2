-- ===== src/Broker/Sse/Return.antt =====
-- `HandleSSE` returns after its request's context is done.
use klever_subscriber.Base.{
  ℕ, ◌+◌, ◌≤◌, ◌≡◌, refl, ◌∙◌, sym, subst, String, Bool, true, false, not, List, [], ◌∷◌, some,
  ◌==◌, nat_eq, ltb, get_elem?, set, if◌then◌else◌, arith, All, inl, inr, Bool-cases, Option-cases,
  beq→eq, get_elem?-set_self, get_elem?-set_ne, get_elem?-lt, get_elem?-append_left, beq-ne, ◌⊎◌,
}
use klever_subscriber.Broker.{Broker, broadcast}
use klever_subscriber.Broker.Sse.{
  Stage, arrived, too_many, no_flusher, admitted, registered, serving, leaving, refused, finished,
  Turn, handle_sse, System, Action, arrives, turns, broadcasts, act, run,
}
use klever_subscriber.Broker.Sse.Limit.{started, IsLimited, started-IsLimited, run_total}

-- How many turns of its own a request has left at most, once its context is done.
abbrev pub turns_left : Stage → ℕ
turns_left arrived = 5
turns_left admitted = 4
turns_left (registered c) = 3
turns_left (serving c written) = 2
turns_left too_many = 1
turns_left no_flusher = 1
turns_left (leaving c) = 1
turns_left (refused status) = 0
turns_left finished = 0

-- How many turns a request has among the actions.
abbrev pub turns_at : ℕ → List Action → ℕ
turns_at k [] = 0
turns_at k (turns j t ∷ as') = (if j == k then 1 else 0) + turns_at k as'
turns_at k (arrives ∷ as') = turns_at k as'
turns_at k (broadcasts f ∷ as') = turns_at k as'

-- Each turn of the request sees its context done.
abbrev pub SeesDone : ℕ → Action → Type 0
SeesDone k (turns j t) = (not (j == k)) ≡ true ⊎ (t.done ≡ true)
SeesDone k arrives = Unit
SeesDone k (broadcasts f) = Unit

-- A step of the bound: either it covers what is still to come, or the handler has returned.
abbrev Within : Stage → ℕ → ℕ → Type 0
Within stage spent bound = (turns_left stage + spent ≤ bound) ⊎ (turns_left stage ≡ 0)

turn_down :
    (b : Broker) (stage : Stage) (t : Turn)
    → t.done ≡ true
    → Within (handle_sse b stage t).1 1 (turns_left stage)
      × (turns_left stage ≡ 0 → turns_left (handle_sse b stage t).1 ≡ 0)
unfolding handle_sse
turn_down b arrived t h = elim (Bool-cases (ltb b.max_clients (b.sse_count + 1))) [
  | inl full ↦ (inl (rw full (omega arith)), λ z. absurd (omega (arith, z)))
  | inr room ↦ elim (Bool-cases t.flusher) [
    | inl f ↦ (inl (rw (room, f) (omega arith)), λ z. absurd (omega (arith, z)))
    | inr f ↦ (inl (rw (room, f) (omega arith)), λ z. absurd (omega (arith, z)))
  ]
]
turn_down b too_many t h = (inl (omega arith), λ z. refl)
turn_down b no_flusher t h = (inl (omega arith), λ z. refl)
turn_down b admitted t h = (inl (omega arith), λ z. absurd (omega (arith, z)))
turn_down b (registered c) t h = (inl (omega arith), λ z. absurd (omega (arith, z)))
turn_down b (serving c written) t h = rw h (inl (omega arith), λ z. absurd (omega (arith, z)))
turn_down b (leaving c) t h = (inl (omega arith), λ z. refl)
turn_down b (refused status) t h = (inr refl, λ z. refl)
turn_down b finished t h = (inr refl, λ z. refl)

abbrev turned : System → ℕ → Stage → Turn → System
turned s k stage t = record {
  broker = (handle_sse s.broker stage t).0;
  requests = set s.requests k (handle_sse s.broker stage t).1;
}

act-turn :
    (s : System) (k : ℕ) (stage : Stage) (t : Turn)
    → get_elem? s.requests k ≡ some stage
    → act s (turns k t) ≡ some (turned s k stage t)
unfolding act
act-turn s k stage t at = rw (at, act)

act-other :
    (s s' : System) (j k : ℕ) (t : Turn)
    → (j == k) ≡ false
    → act s (turns j t) ≡ some s'
    → get_elem? s'.requests k ≡ get_elem? s.requests k
unfolding act
act-other s s' j k t other h = elim (Option-cases (get_elem? s.requests j)) [
  | inl gone ↦ cc
  | inr (old, at) ↦
      let moved : some (turned s j old t) ≡ some s' = sym (act-turn s j old t at) ∙ h in
      ground
        (arith, moved, get_elem?-set_ne s.requests (handle_sse s.broker old t).1 (beq-ne j k other))
]

-- A turn that sees the context done.
turn-down :
    (s s' : System) (k : ℕ) (t : Turn) (stage : Stage)
    → t.done ≡ true
    → act s (turns k t) ≡ some s'
    → get_elem? s.requests k ≡ some stage
    → get_elem? s'.requests k ≡ some (handle_sse s.broker stage t).1
turn-down s s' k t stage d h at =
    let moved : some (turned s k stage t) ≡ some s' = sym (act-turn s k stage t at) ∙ h in
    ground (
      arith,
      moved,
      get_elem?-set_self s.requests k (handle_sse s.broker stage t).1
          (get_elem?-lt s.requests k at),
    )

act_down :
    (s s' : System) (a : Action) (k : ℕ) (stage : Stage)
    → SeesDone k a
    → act s a ≡ some s'
    → get_elem? s.requests k ≡ some stage
    → (stage' : Stage) × (get_elem? s'.requests k ≡ some stage')
      × Within stage' (turns_at k (a ∷ [])) (turns_left stage)
      × (turns_left stage ≡ 0 → turns_left stage' ≡ 0)
unfolding act
act_down s s' arrives k stage d h at = (
  stage,
  ground (arith, get_elem?-append_left s.requests (arrived ∷ []) k (get_elem?-lt s.requests k at)),
  inl (omega arith),
  λ z. z,
)
act_down s s' (broadcasts f) k stage d h at = elim (Option-cases (broadcast s.broker f)) [
  | inl panics ↦ absurd (ground arith)
  | inr (b, runs) ↦ (stage, ground arith, inl (omega arith), λ z. z)
]
act_down s s' (turns j t) k stage d h at = elim (Bool-cases (j == k)) [
  | inl mine ↦
      let same : j ≡ k = beq→eq j k mine in
      let done : t.done ≡ true = elim d [ inl apart ↦ absurd (ground arith) | inr done ↦ done ] in
      let (down, stays) = turn_down s.broker stage t done in
      (
        (handle_sse s.broker stage t).1,
        turn-down s s' k t stage done (subst (λ i. act s (turns i t) ≡ some s') same h) at,
        rw mine down,
        stays,
      )
  | inr other ↦ (stage, act-other s s' j k t other h ∙ at, inl (rw other (omega arith)), λ z. z)
]

turns_left_le : (stage : Stage) → turns_left stage ≤ 5
turns_left_le arrived = omega arith
turns_left_le too_many = omega arith
turns_left_le no_flusher = omega arith
turns_left_le admitted = omega arith
turns_left_le (registered c) = omega arith
turns_left_le (serving c written) = omega arith
turns_left_le (leaving c) = omega arith
turns_left_le (refused status) = omega arith
turns_left_le finished = omega arith

turns_at_cons :
    (k : ℕ) (a : Action) (as' : List Action)
    → turns_at k (a ∷ as') ≡ turns_at k (a ∷ []) + turns_at k as'
turns_at_cons k (turns j t) as' = omega arith
turns_at_cons k arrives as' = omega arith
turns_at_cons k (broadcasts f) as' = omega arith

-- The handler's function has ended, with an error status or after its stream.
abbrev pub has_returned : Stage → Bool
has_returned (refused status) = true
has_returned finished = true
has_returned stage = false

none_left : (stage : Stage) → turns_left stage ≡ 0 → has_returned stage ≡ true
none_left (refused status) z = refl
none_left finished z = refl
none_left stage z = absurd (omega (arith, z))

run_down :
    (s s' : System) (as' : List Action) (k : ℕ) (stage : Stage)
    → All (SeesDone k) as'
    → run s as' ≡ some s'
    → get_elem? s.requests k ≡ some stage
    → (stage' : Stage) × (get_elem? s'.requests k ≡ some stage')
      × Within stage' (turns_at k as') (turns_left stage)
      × (turns_left stage ≡ 0 → turns_left stage' ≡ 0)
unfolding run
run_down s s' [] k stage d h at = (stage, ground arith, inl (omega arith), λ z. z)
run_down s s' (a ∷ as') k stage (d, ds) h at = elim (Option-cases (act s a)) [
  | inl panics ↦ absurd (ground arith)
  | inr (s₁, acts) ↦
      let (stage₁, at₁, down, stays) = act_down s s₁ a k stage d acts at in
      let (stage', at', downs, stays') = run_down s₁ s' as' k stage₁ ds (ground arith) at₁ in
      (
        stage',
        at',
        elim down [
          | inr z ↦ inr (stays' z)
          | inl now ↦ elim downs [
            | inr z ↦ inr z
            | inl later ↦ inl (omega (arith, turns_at_cons k a as'))
          ]
        ],
        λ z. stays' (stays z),
      )
]

-- `HandleSSE` returns. From a new broker, in every interleaving: a request that takes at least five
-- turns after its context is done, whose `select`s then take that branch, has returned.
pub sse_returns :
    (max_clients : ℕ) (url : String) (before after : List Action) (s : System) (k : ℕ)
    (stage : Stage)
    → run (started max_clients url) before ≡ some s
    → get_elem? s.requests k ≡ some stage
    → All (SeesDone k) after
    → 5 ≤ turns_at k after
    → (s' : System) × (run s after ≡ some s')
      × ((stage' : Stage) × (get_elem? s'.requests k ≡ some stage') × (has_returned stage' ≡ true))
sse_returns max_clients url before after s k stage ran at d enough =
    let (s₀, ran₀, limited, _) =
      run_total (started max_clients url) before (started-IsLimited max_clients url) in
    let same : s₀ ≡ s = ground (arith, ran₀, ran) in
    let (s', runs, _, _) = run_total s after (subst IsLimited same limited) in
    let (stage', at', down, _) = run_down s s' after k stage d runs at in
    (
      s',
      runs,
      (
        stage',
        at',
        elim down [
          | inl bounded ↦ none_left stage' (omega (arith, turns_left_le stage))
          | inr z ↦ none_left stage' z
        ],
      ),
    )
