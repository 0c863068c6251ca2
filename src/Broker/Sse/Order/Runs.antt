-- ===== src/Broker/Sse/Order/Runs.antt =====
-- In every interleaving the dashboards are sent what is broadcast, in order.
use klever_subscriber.Base.{
  ℕ, ◌<◌, ◌≤◌, ◌≡◌, ◌≢◌, refl, String, List, [], ◌∷◌, ◌++◌, some, length, get_elem?, set, subst,
  arith, inl, inr, ◌⊎◌, sym, ◌∙◌, append_assoc, append-nil, Bool-cases, Option-cases, beq→eq,
  beq-ne, nat_eq, ◌==◌, get_elem?-set, get_elem?-snoc, get_elem?-lt, get_elem?-some, leb, contains,
}
use klever_subscriber.Chan.{Heap, deliver}
use klever_subscriber.Chan.Laws.{ChangedAt}
use klever_subscriber.Broker.{SseFrame}
use klever_subscriber.Broker.Fanout.{broadcast_lem}
use klever_subscriber.Broker.Sse.{
  Stage, registered, serving, arrived, too_many, no_flusher, admitted, leaving, refused, finished,
  Turn, handle_sse, System, Action, arrives, turns, broadcasts, act, run,
}
use klever_subscriber.Broker.Sse.Limit.{IsLimited, act_total, started, started-IsLimited}
use klever_subscriber.Broker.Sse.Order.{IsFed, Follows, owned, IsInOrder, broadcasted}
use klever_subscriber.Broker.Sse.Order.Turns.{Follows-kept, Follows-broadcast, turn-Keeps}

-- The channel of a stage has been made.
owned-made :
    (history : List SseFrame) (heap : Heap SseFrame) (stage : Stage) (c : ℕ)
    → Follows history heap stage
    → owned stage ≡ some c
    → c < length heap
owned-made history heap (registered d) c h own =
    let same : d ≡ c = ground (arith, own) in rw (← same) h.0
owned-made history heap (serving d written) c h own =
    let same : d ≡ c = ground (arith, own) in rw (← same) h.made
owned-made history heap arrived c h own = absurd (cc)
owned-made history heap too_many c h own = absurd (cc)
owned-made history heap no_flusher c h own = absurd (cc)
owned-made history heap admitted c h own = absurd (cc)
owned-made history heap (leaving d) c h own = absurd (cc)
owned-made history heap (refused status) c h own = absurd (cc)
owned-made history heap finished c h own = absurd (cc)

module _ (history : List SseFrame) (s : System) (o : IsInOrder history s) where
  pub arrives-IsInOrder : IsInOrder history (record s { requests = s.requests ++ arrived ∷ [] })
  arrives-IsInOrder = record {
    follows = λ k stage at. elim (get_elem?-snoc s.requests arrived k at) [
      | inl old ↦ o.follows k stage old
      | inr (q, new) ↦ subst (Follows history s.broker.frames) (sym new) tt
    ];
    apart = λ j k a b c far at over own. elim (get_elem?-snoc s.requests arrived j at) [
      | inl old ↦ elim (get_elem?-snoc s.requests arrived k over) [
        | inl old' ↦ o.apart j k a b c far old old' own
        | inr (q, new) ↦ λ own'. absurd (ground (arith, new, own'))
      ]
      | inr (q, new) ↦ absurd (ground (arith, new, own))
    ];
  }

  pub broadcasts-IsInOrder :
      (f : SseFrame) (frames : Heap SseFrame)
      → ChangedAt (deliver f) s.broker.clients s.broker.frames frames
      → length s.broker.frames ≤ length frames
      → IsInOrder (history ++ f ∷ []) (record s { broker = record s.broker { frames = frames } })
  broadcasts-IsInOrder f frames changed longer = record {
    follows = λ k stage at.
        Follows-broadcast history f s.broker.clients s.broker.frames frames stage changed longer
          (o.follows k stage at);
    apart = o.apart;
  }

  module _ (k : ℕ) (old : Stage) (at : get_elem? s.requests k ≡ some old) (t : Turn) where
    abbrev pub turned : System
    turned = record {
      broker = (handle_sse s.broker old t).0;
      requests = set s.requests k (handle_sse s.broker old t).1;
    }

    stage_before :
        (j : ℕ) (stage : Stage)
        → get_elem? turned.requests j ≡ some stage
        → ((j ≡ k) × (stage ≡ (handle_sse s.broker old t).1))
          ⊎ ((j ≢ k) × (get_elem? s.requests j ≡ some stage))
    stage_before j stage there =
        let seen = get_elem?-set s.requests k j (handle_sse s.broker old t).1 at in
        elim (Bool-cases (k == j)) [
          | inl q ↦ inl (sym (beq→eq k j q), ground (arith, seen))
          | inr n ↦ inr ((λ p. beq-ne k j n (sym p)), ground (arith, seen))
        ]

    pub turned-IsInOrder : IsInOrder history turned
    turned-IsInOrder =
        let kept = turn-Keeps s.broker old t in
        record {
          follows = λ j stage there. elim (stage_before j stage there) [
            | inl (q, new) ↦
                subst (Follows history turned.broker.frames) (sym new)
                  (kept.own history (o.follows k old at))
            | inr (far, before) ↦
                Follows-kept history s.broker.frames turned.broker.frames stage kept.longer
                  (λ c made own. kept.others c made (o.apart j k stage old c far before at own))
                  (o.follows j stage before)
          ];
          apart = λ i j a b c far there over own. elim (stage_before i a there) [
            | inl (q, new) ↦ elim (stage_before j b over) [
              | inl (q', new') ↦ absurd (far (q ∙ sym q'))
              | inr (other, before) ↦ λ own'.
                  absurd (clash j b c other before own' (subst (λ x. owned x ≡ some c) new own))
            ]
            | inr (other, before) ↦ elim (stage_before j b over) [
              | inl (q, new) ↦ λ own'.
                  absurd (clash i a c other before own (subst (λ x. owned x ≡ some c) new own'))
              | inr (other', before') ↦ o.apart i j a b c far before before' own
            ]
          ];
        }
      where
        clash :
            (j : ℕ) (b : Stage) (c : ℕ)
            → j ≢ k
            → get_elem? s.requests j ≡ some b
            → owned b ≡ some c
            → owned (handle_sse s.broker old t).1 ≢ some c
        clash j b c other before own own' = elim ((turn-Keeps s.broker old t).owner c own') [
          | inl mine ↦ o.apart j k b old c other before at own mine
          | inr new ↦
              absurd
                (omega (arith, owned-made history s.broker.frames b c (o.follows j b before) own))
        ]

-- A loop over channels makes no heap shorter.
pub ChangedAt-length :
    (f : SseFrame) (clients : List ℕ) (heap heap' : Heap SseFrame)
    → ChangedAt (deliver f) clients heap heap'
    → length heap ≤ length heap'
ChangedAt-length f clients heap heap' changed =
    elim (Bool-cases (leb (length heap) (length heap'))) [
      | inl longer ↦ ground (arith, longer)
      | inr shorter ↦
          let n = length heap' in
          let (ch, at) = get_elem?-some heap n (ground (arith, shorter)) in
          let (ch', at') : (ch' : _) × (get_elem? heap' n ≡ some ch') =
            elim (Bool-cases (contains clients n)) [
              | inl listed ↦ (deliver f ch, ground (arith, changed n))
              | inr other ↦ (ch, ground (arith, changed n))
            ] in
          absurd (omega (arith, get_elem?-lt heap' n at'))
    ]

act-IsInOrder :
    (history : List SseFrame) (s s' : System) (a : Action)
    → IsLimited s
    → IsInOrder history s
    → act s a ≡ some s'
    → IsInOrder (history ++ broadcasted (a ∷ [])) s'
unfolding act broadcasted
act-IsInOrder history s s' arrives v o h =
    let same : record s { requests = s.requests ++ arrived ∷ [] } ≡ s' = ground (arith, h) in
    rw (append-nil history) (subst (IsInOrder history) same (arrives-IsInOrder history s o))
act-IsInOrder history s s' (turns k t) v o h = elim (Option-cases (get_elem? s.requests k)) [
  | inl gone ↦
      let same : s ≡ s' = ground (arith, h, gone) in
      rw (append-nil history) (subst (IsInOrder history) same o)
  | inr (old, at) ↦
      let same : turned history s o k old at t ≡ s' = ground (arith, h, at) in
      rw (append-nil history)
        (subst (IsInOrder history) same (turned-IsInOrder history s o k old at t))
]
act-IsInOrder history s s' (broadcasts f) v o h =
    let (frames, runs, changed, _) = broadcast_lem s.broker f v.live in
    let same : record s { broker = record s.broker { frames = frames } } ≡ s' =
      ground (arith, h, runs) in
    subst (IsInOrder (history ++ f ∷ [])) same (
      broadcasts-IsInOrder history s o f frames changed
        (ChangedAt-length f s.broker.clients s.broker.frames frames changed))

broadcasted-cons :
    (a : Action) (as' : List Action)
    → broadcasted (a ∷ as') ≡ broadcasted (a ∷ []) ++ broadcasted as'
unfolding broadcasted
broadcasted-cons arrives as' = refl
broadcasted-cons (turns k t) as' = refl
broadcasted-cons (broadcasts f) as' = refl

run-IsInOrder :
    (history : List SseFrame) (s s' : System) (as' : List Action)
    → IsLimited s
    → IsInOrder history s
    → run s as' ≡ some s'
    → IsInOrder (history ++ broadcasted as') s'
unfolding run broadcasted
run-IsInOrder history s s' [] v o h =
    let same : s ≡ s' = ground (arith, h) in
    rw (append-nil history) (subst (IsInOrder history) same o)
run-IsInOrder history s s' (a ∷ as') v o h =
    let (s₁, acts, limited, _) = act_total s a v in
    let rest : run s₁ as' ≡ some s' = (rw acts at h) in
    rw (broadcasted-cons a as', ← append_assoc history (broadcasted (a ∷ [])) (broadcasted as'))
      (run-IsInOrder (history ++ broadcasted (a ∷ [])) s₁ s' as' limited
        (act-IsInOrder history s s₁ a v o acts) rest)

pub started-IsInOrder : (max_clients : ℕ) (url : String) → IsInOrder [] (started max_clients url)
started-IsInOrder max_clients url = record {
  follows = λ k stage at. absurd (cc);
  apart = λ j k a b c far at over own. absurd (cc);
}

-- In every interleaving of requests and broadcasts from a new broker, a request that is served has
-- written the statistics and then frames that were broadcast, and frames that were broadcast wait for
-- it: all of them in the order of the broadcasts, each as often; some may be missing.
pub streams_follow_broadcasts :
    (max_clients : ℕ) (url : String) (as' : List Action) (s : System) (k c : ℕ)
    (written : List SseFrame)
    → run (started max_clients url) as' ≡ some s
    → get_elem? s.requests k ≡ some (serving c written)
    → IsFed (broadcasted as') (s.broker.frames, c) written
streams_follow_broadcasts max_clients url as' s k c written ran at =
    (run-IsInOrder [] (started max_clients url) s as' (started-IsLimited max_clients url)
        (started-IsInOrder max_clients url) ran).follows
      k (serving c written) at
