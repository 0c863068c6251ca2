-- ===== src/Rate/Trailing.antt =====
-- The ring against the history of the events that it has counted.
use klever_subscriber.Base.{ℕ, ◌+◌, ◌^◌, ◌≤◌, ◌<◌, ◌≡◌, List, [], ◌∷◌, arith, length}
use klever_subscriber.Rate.{Ring, rate_window_seconds, new_ring, bump_rate, rate_snapshot}
use klever_subscriber.Rate.Window.{recent}
use klever_subscriber.Rate.Tracking.{
  Tracks, new_ring-Tracks, bump_rate-Tracks, rate_snapshot-Tracks, bump_rate-anchor,
  rate_snapshot-anchor, new_ring-anchor, rate_snapshot_counts,
}

-- What the callers do with the ring, each at a time.
pub data Call : Type 0 where
  bumps : ℕ → Call
  reads : ℕ → Call

abbrev pub time : Call → ℕ
time (bumps t) = t
time (reads t) = t

unfoldable pub after : Ring → List Call → Ring
after b [] = b
after b (bumps t ∷ cs) = after (bump_rate b t) cs
after b (reads t ∷ cs) = after (rate_snapshot b t).0 cs

-- The times of the events counted, on top of those counted before.
unfoldable pub counted : List ℕ → List Call → List ℕ
counted ts [] = ts
counted ts (bumps t ∷ cs) = counted (t ∷ ts) cs
counted ts (reads t ∷ cs) = counted ts cs

-- The clock does not go back, and has left 0.
abbrev pub IsForward : ℕ → List Call → ℕ → Type 0
IsForward last [] now = last ≤ now
IsForward last (c ∷ cs) now = (last ≤ time c) × (0 < time c) × IsForward (time c) cs now

after-Tracks :
    (b : Ring) (ts : List ℕ) (last : ℕ) (cs : List Call) (now : ℕ)
    → Tracks b ts
    → b.rate_anchor ≤ last
    → IsForward last cs now
    → length ts + length cs < 2 ^ 64
    → Tracks (after b cs) (counted ts cs)
      × ((after b cs).rate_anchor ≤ now)
      × (length (counted ts cs) ≤ length ts + length cs)
unfolding after counted
after-Tracks b ts last [] now v h f small = (v, omega arith, omega arith)
after-Tracks b ts last (bumps t ∷ cs) now v h f small =
    let (tracks, anchor, size) =
      after-Tracks (bump_rate b t) (t ∷ ts) t cs now
        (bump_rate-Tracks b ts t v (omega arith) f.1 (omega arith)) (bump_rate-anchor b t) f.2
        (omega arith) in
    (tracks, anchor, omega arith)
after-Tracks b ts last (reads t ∷ cs) now v h f small =
    let (tracks, anchor, size) =
      after-Tracks (rate_snapshot b t).0 ts t cs now
        (rate_snapshot-Tracks b ts t v (omega arith) f.1) (rate_snapshot-anchor b t (omega arith))
        f.2 (omega arith) in
    (tracks, anchor, omega arith)

-- However the events and the readings of the rate follow one another, on a clock that has left 0 and
-- does not go back, and for fewer than 2 ^ 64 calls: the value read at `now` is the number of events
-- in the ten seconds that end with `now`.
pub rate_counts_trailing_window :
    (cs : List Call) (now : ℕ)
    → IsForward 0 cs now
    → length cs < 2 ^ 64
    → (rate_snapshot (after new_ring cs) now).1 ≡ recent rate_window_seconds (counted [] cs) now
rate_counts_trailing_window cs now f small =
    let (tracks, anchor, size) =
      after-Tracks new_ring [] 0 cs now new_ring-Tracks new_ring-anchor f (omega arith) in
    rate_snapshot_counts (after new_ring cs) (counted [] cs) now tracks anchor (omega arith)
