-- ===== src/Hub/Delivery.antt =====
-- What a subscription delivers: a consumer's events against the events fanned out.
use mathlib.Core.List.{Sublistᴰ}
use mathlib.Core.List.Sublistᴰ.{slnil, cons-cons, cons}
use klever_subscriber.Base.{
  ap, ℕ, ◌≡◌, refl, ◌∙◌, inl, inr, List, [], ◌∷◌, ◌++◌, none, some, arith, nat_eq, ◌==◌, beq→eq,
  Bool-cases, Option-cases, get_elem?, if◌then◌else◌, append_assoc, append-nil, sym, subst,
}
use klever_subscriber.Event.{Event}
use klever_subscriber.Chan.{receive}
use klever_subscriber.Hub.{
  subscribe, close, Action, subscribes, closes, fans_out, closes_all, receives, Clients, act, run,
}
use klever_subscriber.Hub.Sound.{IsSound, fan_out_lem, close_subscribers_lem}
use klever_subscriber.Hub.Safety.{no_clients, act_total, no_subscribers-IsSound}
use klever_subscriber.Hub.Buffers.{
  buffer_at, value_of, receive-front, receive-others, close-buffer, buffer_at-snoc, shut-buffer,
  offered-buffer,
}

-- The events that a sequence of actions fans out.
unfoldable pub published : List Action → List Event
published [] = []
published (fans_out evt ∷ as') = evt ∷ published as'
published (subscribes ∷ as') = published as'
published (closes k ∷ as') = published as'
published (closes_all ∷ as') = published as'
published (receives x ∷ as') = published as'

-- The events that one action receives on a channel.
unfoldable pub received_by : Clients → ℕ → Action → List Event
received_by w c (receives x) = if x == c then value_of (receive w.hub.channels x).1 else []
received_by w c subscribes = []
received_by w c (closes k) = []
received_by w c (fans_out evt) = []
received_by w c closes_all = []

-- The events that a run receives on a channel, in order.
unfoldable pub received : Clients → ℕ → List Action → List Event
received w c [] = []
received w c (a ∷ as') =
    received_by w c a ++ (elim (act w a) [ none ↦ [] | some w' ↦ received w' c as' ])

-- What one action does to the events of a channel: some leave at the front, to the consumer, and
-- at most the event that is fanned out arrives at the end.
abbrev pub Moves : Clients → Clients → ℕ → Action → Type 0
Moves w w' c a =
    (new : List Event) × Sublistᴰ new (published (a ∷ []))
    × (buffer_at w.hub.channels c ++ new ≡ received_by w c a ++ buffer_at w'.hub.channels c)

pub still : (xs ys : List Event) → ys ≡ xs → xs ++ [] ≡ [] ++ ys
still xs ys h = append-nil xs ∙ sym h

subscribe-Moves : (w w' : Clients) (c : ℕ) → act w subscribes ≡ some w' → Moves w w' c subscribes
unfolding act subscribe published received_by
subscribe-Moves w w' c h = ([], slnil, still _ _ (ground (arith, buffer_at-snoc w.hub.channels c)))

closes-Moves : (w w' : Clients) (c k : ℕ) → act w (closes k) ≡ some w' → Moves w w' c (closes k)
unfolding act published received_by
closes-Moves w w' c k h = elim (Option-cases (get_elem? w.handles k)) [
  | inl gone ↦ ([], slnil, still _ _ (ground arith))
  | inr (sub, at) ↦ elim (Option-cases (close w.hub sub)) [
    | inl panics ↦ absurd (ground arith)
    | inr ((s, sub'), runs) ↦
        ([], slnil, still _ _ (ground (arith, close-buffer w.hub s sub sub' c runs)))
  ]
]

fans_out-Moves :
    (w w' : Clients) (c : ℕ) (evt : Event)
    → IsSound w.hub
    → act w (fans_out evt) ≡ some w'
    → Moves w w' c (fans_out evt)
unfolding act published received_by
fans_out-Moves w w' c evt v h =
    let (heap, runs, changed) = fan_out_lem w.hub evt v in
    let (new, sub, eq) = offered-buffer evt w.hub.subscribers w.hub.channels heap c changed in
    (new, sub, ground (arith, eq))

closes_all-Moves :
    (w w' : Clients) (c : ℕ) → IsSound w.hub → act w closes_all ≡ some w' → Moves w w' c closes_all
unfolding act published received_by
closes_all-Moves w w' c v h =
    let (heap, runs, changed) = close_subscribers_lem w.hub v in
    ([], slnil, still _ _ (ground (arith, shut-buffer w.hub heap c changed)))

receives-Moves :
    (w w' : Clients) (c x : ℕ) → act w (receives x) ≡ some w' → Moves w w' c (receives x)
unfolding act published received_by
receives-Moves w w' c x h = elim (Bool-cases (x == c)) [
  | inl q ↦
      let same = beq→eq x c q in
      (
        [],
        slnil,
        ground (arith, receive-front w.hub.channels x, append-nil (buffer_at w.hub.channels c)),
      )
  | inr n ↦ (
    [],
    slnil,
    ground (arith, receive-others w.hub.channels x c n, append-nil (buffer_at w.hub.channels c)),
  )
]

pub act-Moves :
    (w w' : Clients) (c : ℕ) (a : Action) → IsSound w.hub → act w a ≡ some w' → Moves w w' c a
act-Moves w w' c subscribes v h = subscribe-Moves w w' c h
act-Moves w w' c (closes k) v h = closes-Moves w w' c k h
act-Moves w w' c (fans_out evt) v h = fans_out-Moves w w' c evt v h
act-Moves w w' c closes_all v h = closes_all-Moves w w' c v h
act-Moves w w' c (receives x) v h = receives-Moves w w' c x h

published-cons :
    (a : Action) (as' : List Action) → published (a ∷ as') ≡ published (a ∷ []) ++ published as'
unfolding published
published-cons (fans_out evt) as' = refl
published-cons subscribes as' = refl
published-cons (closes k) as' = refl
published-cons closes_all as' = refl
published-cons (receives x) as' = refl

pub Sublistᴰ-append {ℓ} :
    {A : Type ℓ} {xs ys : List A} {us vs : List A}
    → Sublistᴰ xs ys
    → Sublistᴰ us vs
    → Sublistᴰ (xs ++ us) (ys ++ vs)
Sublistᴰ-append slnil t = t
Sublistᴰ-append (cons s) t = cons (Sublistᴰ-append s t)
Sublistᴰ-append (cons-cons e s) t = cons-cons e (Sublistᴰ-append s t)

run-cons :
    (w w₁ : Clients) (a : Action) (as' : List Action)
    → act w a ≡ some w₁
    → run w (a ∷ as') ≡ run w₁ as'
unfolding run
run-cons w w₁ a as' h = rw h

received-cons :
    (w w₁ : Clients) (c : ℕ) (a : Action) (as' : List Action)
    → act w a ≡ some w₁
    → received w c (a ∷ as') ≡ received_by w c a ++ received w₁ c as'
unfolding received
received-cons w w₁ c a as' h = ground arith

pub regroup {ℓ} :
    {A : Type ℓ} (xs new r ys later q zs : List A)
    → xs ++ new ≡ r ++ ys
    → ys ++ later ≡ q ++ zs
    → xs ++ (new ++ later) ≡ (r ++ q) ++ zs
regroup xs new r ys later q zs h k =
    sym (append_assoc xs new later)
    ∙ ap (λ l. l ++ later) h
    ∙ append_assoc r ys later
    ∙ ap (◌++◌ r) k
    ∙ sym (append_assoc r q zs)

run_delivers :
    (w w' : Clients) (c : ℕ) (as' : List Action)
    → IsSound w.hub
    → run w as' ≡ some w'
    → (new : List Event) × Sublistᴰ new (published as')
      × (buffer_at w.hub.channels c ++ new ≡ received w c as' ++ buffer_at w'.hub.channels c)
run_delivers w w' c [] v h =
    ([], unfold published in slnil, unfold received run in still _ _ (ground arith))
run_delivers w w' c (a ∷ as') v h =
    let (w₁, acts, sound) = act_total w a v in
    let (new, sub, moves) = act-Moves w w₁ c a v acts in
    let (later, subs, moves') =
      run_delivers w₁ w' c as' sound (sym (run-cons w w₁ a as' acts) ∙ h) in
    (
      new ++ later,
      rw (published-cons a as') (Sublistᴰ-append sub subs),
      rw (received-cons w w₁ c a as' acts) (
          regroup (buffer_at w.hub.channels c) new (received_by w c a) (buffer_at w₁.hub.channels c)
            later (received w₁ c as') (buffer_at w'.hub.channels c) moves moves'),
    )

-- In every run from no subscription: the events that a consumer has received on a channel, with
-- those that wait in its buffer, are
-- events that `fanOut` was given, in the order of publication, each as often: some may be missing,
-- but none is made up, repeated or moved.
pub received_in_order :
    (as' : List Action) (w : Clients) (c : ℕ)
    → run no_clients as' ≡ some w
    → Sublistᴰ (received no_clients c as' ++ buffer_at w.hub.channels c) (published as')
received_in_order as' w c h =
    let (new, sub, eq) = run_delivers no_clients w c as' no_subscribers-IsSound h in
    subst (λ l. Sublistᴰ l (published as')) eq sub
