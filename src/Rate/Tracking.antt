-- ===== src/Rate/Tracking.antt =====
-- One event and one reading of the rate, on a ring that holds the window of a history.
use klever_subscriber.Base.{
  ℕ, zero, suc, ◌+◌, ◌-◌, ◌^◌, ◌≤◌, ◌<◌, ◌≡◌, refl, sym, ap, ◌∙◌, List, [], ◌∷◌, leb, eqb,
  if◌then◌else◌, arith, All, length, inl, inr, Bool-cases,
}
use klever_subscriber.Rate.{
  Ring, rate_window_seconds, clear, shifts, new_ring, bump_rate, bump_last, sum_buckets,
  rate_snapshot,
}
use klever_subscriber.Rate.Window.{
  window, recent, All-le, shifts-window, clear-window, bump_last-window, sum_buckets-window,
  recent-le,
}

-- The ring holds the window that ends with its anchor, of events that are not later than that.
pub record Tracks (b : Ring) (ts : List ℕ) : Type 0 where
  pub past : All (λ t. t ≤ b.rate_anchor) ts
  pub buckets : b.rate_buckets ≡ window rate_window_seconds ts b.rate_anchor
  pub unset : b.rate_anchor ≡ 0 → ts ≡ []

pub new_ring-Tracks : Tracks new_ring []
unfolding new_ring
new_ring-Tracks = record { past = tt; buckets = refl; unset = λ _. refl }

-- What both operations do first: the ring of an earlier second becomes that of `now`.
abbrev pub aged : Ring → ℕ → List ℕ
aged b now =
    if leb rate_window_seconds (now - b.rate_anchor)
    then clear b.rate_buckets
    else shifts (now - b.rate_anchor) b.rate_buckets

aged-window :
    (b : Ring) (ts : List ℕ) (now : ℕ)
    → Tracks b ts
    → b.rate_anchor ≤ now
    → aged b now ≡ window rate_window_seconds ts now
aged-window b ts now v h = elim (Bool-cases (leb 10 (now - b.rate_anchor))) [
  | inl far ↦ rw (far, v.buckets) (clear-window 10 ts b.rate_anchor now v.past (ground arith))
  | inr near ↦
      rw (near, v.buckets)
        (shifts-window (now - b.rate_anchor) 9 ts b.rate_anchor v.past
          ∙ ap (window 10 ts) (omega arith))
]

bump_rate_lem :
    (b : Ring) (now : ℕ)
    → 0 < b.rate_anchor
    → bump_rate b now ≡ record { rate_buckets = bump_last (aged b now); rate_anchor = now }
unfolding bump_rate
bump_rate_lem b now h = ground arith

bump_rate_first :
    (b : Ring) (now : ℕ)
    → b.rate_anchor ≡ 0
    → bump_rate b now ≡ record { rate_buckets = bump_last b.rate_buckets; rate_anchor = now }
unfolding bump_rate
bump_rate_first b now h = let none_passed : now - now ≡ 0 = omega arith in rw (h, none_passed)

window_empty : (n now : ℕ) → window n [] now ≡ window n [] 0
window_empty zero now = refl
window_empty (suc n) now = ap (◌∷◌ 0) (window_empty n now)

-- A counted event joins the window.
pub bump_rate-Tracks :
    (b : Ring) (ts : List ℕ) (now : ℕ)
    → Tracks b ts
    → b.rate_anchor ≤ now
    → 0 < now
    → length ts + 1 < 2 ^ 64
    → Tracks (bump_rate b now) (now ∷ ts)
bump_rate-Tracks b ts now v h p small = elim (Bool-cases (eqb b.rate_anchor 0)) [
  | inl unset ↦
      let zero_anchor : b.rate_anchor ≡ 0 = ground arith in
      let none_yet = v.unset zero_anchor in
      rw (bump_rate_first b now zero_anchor) (record {
        past = (omega arith, All-le ts b.rate_anchor now h v.past);
        buckets =
            ap bump_last (v.buckets ∙ same_window zero_anchor none_yet)
            ∙ bump_last-window 9 ts now small;
        unset = λ q. absurd (omega arith);
      })
  | inr isset ↦ rw (bump_rate_lem b now (ground arith)) (record {
    past = (omega arith, All-le ts b.rate_anchor now h v.past);
    buckets = ap bump_last (aged-window b ts now v h) ∙ bump_last-window 9 ts now small;
    unset = λ q. absurd (omega arith);
  })
]
  where
    same_window :
        b.rate_anchor ≡ 0
        → ts ≡ []
        → window rate_window_seconds ts b.rate_anchor ≡ window rate_window_seconds ts now
    same_window z e = rw e (window_empty 10 b.rate_anchor ∙ sym (window_empty 10 now))

snapshot_unset : (b : Ring) (now : ℕ) → b.rate_anchor ≡ 0 → rate_snapshot b now ≡ (b, 0)
unfolding rate_snapshot
snapshot_unset b now h = ground arith

snapshot_set :
    (b : Ring) (now : ℕ)
    → 0 < b.rate_anchor
    → rate_snapshot b now ≡ (
      record { rate_buckets = aged b now; rate_anchor = now },
      (if leb rate_window_seconds (now - b.rate_anchor) then 0 else sum_buckets 0 (aged b now)),
    )
unfolding rate_snapshot
snapshot_set b now h = ground arith

recent_none :
    (n : ℕ) (ts : List ℕ) (last now : ℕ)
    → All (λ t. t ≤ last) ts
    → last + n ≤ now
    → recent n ts now ≡ 0
recent_none n [] last now h lt = refl
recent_none n (t ∷ ts) last now h lt = ground (arith, recent_none n ts last now h.1)

-- Reading the rate ages the ring, and forgets no event of the window.
pub rate_snapshot-Tracks :
    (b : Ring) (ts : List ℕ) (now : ℕ)
    → Tracks b ts
    → b.rate_anchor ≤ now
    → 0 < now
    → Tracks (rate_snapshot b now).0 ts
rate_snapshot-Tracks b ts now v h p = elim (Bool-cases (eqb b.rate_anchor 0)) [
  | inl unset ↦ rw (snapshot_unset b now (ground arith)) v
  | inr isset ↦ rw (snapshot_set b now (ground arith)) (record {
    past = All-le ts b.rate_anchor now h v.past;
    buckets = aged-window b ts now v h;
    unset = λ q. absurd (omega arith);
  })
]

sum_aged :
    (b : Ring) (ts : List ℕ) (now : ℕ)
    → Tracks b ts
    → b.rate_anchor ≤ now
    → length ts < 2 ^ 64
    → sum_buckets 0 (aged b now) ≡ recent rate_window_seconds ts now
sum_aged b ts now v h small =
    ap (sum_buckets 0) (aged-window b ts now v h)
    ∙ sum_buckets-window 10 0 ts now (omega (arith, recent-le 10 ts now))
    ∙ omega arith

pub bump_rate-anchor : (b : Ring) (now : ℕ) → (bump_rate b now).rate_anchor ≤ now
unfolding bump_rate
bump_rate-anchor b now = omega arith

pub rate_snapshot-anchor :
    (b : Ring) (now : ℕ) → b.rate_anchor ≤ now → (rate_snapshot b now).0.rate_anchor ≤ now
unfolding rate_snapshot
rate_snapshot-anchor b now h = ground arith

pub new_ring-anchor : new_ring.rate_anchor ≤ 0
unfolding new_ring
new_ring-anchor = omega arith

-- The value read is the number of events in the window that ends now.
pub rate_snapshot_counts :
    (b : Ring) (ts : List ℕ) (now : ℕ)
    → Tracks b ts
    → b.rate_anchor ≤ now
    → length ts < 2 ^ 64
    → (rate_snapshot b now).1 ≡ recent rate_window_seconds ts now
rate_snapshot_counts b ts now v h small = elim (Bool-cases (eqb b.rate_anchor 0)) [
  | inl unset ↦
      let zero_anchor : b.rate_anchor ≡ 0 = ground arith in
      rw (snapshot_unset b now zero_anchor, v.unset zero_anchor)
  | inr isset ↦
      rw (snapshot_set b now (ground arith)) (elim (Bool-cases (leb 10 (now - b.rate_anchor))) [
        | inl far ↦ rw far (sym (recent_none 10 ts b.rate_anchor now v.past (ground arith)))
        | inr near ↦ ground (arith, sum_aged b ts now v h small)
      ])
]
