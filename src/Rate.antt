-- ===== src/Rate.antt =====
-- web/broker/broker.go: the ring of buckets from which the dashboard's event rate is read.
-- Times are Unix seconds, which are not negative, so a subtraction that stops at 0 is the source's
-- `delta` with its negative values taken as 0: `bumpRate` does that by a test, and in `rateSnapshot`
-- a negative `delta` runs no round of the loop.
pub mod Window
pub mod Tracking
pub mod Trailing
pub mod Tests
use klever_subscriber.Base.{
  ℕ, zero, suc, ◌+◌, ◌-◌, ◌%◌, ◌^◌, List, [], ◌∷◌, ◌++◌, leb, eqb, if◌then◌else◌,
}

abbrev pub rate_window_seconds : ℕ
rate_window_seconds = 10

abbrev pub u64 : ℕ → ℕ
u64 n = n % 2 ^ 64

-- The fields of `Broker` under `rateMu`; `rate_buckets` is an array of `rate_window_seconds` cells.
pub record Ring : Type 0 where
  pub rate_buckets : List ℕ
  pub rate_anchor : ℕ

-- `b.rateBuckets[i] = 0` for every `i`
unfoldable pub clear : List ℕ → List ℕ
clear [] = []
clear (v ∷ vs) = 0 ∷ clear vs

-- `copy(b.rateBuckets[:], b.rateBuckets[1:])`, and 0 in the last cell.
unfoldable pub shift : List ℕ → List ℕ
shift [] = []
shift (v ∷ vs) = vs ++ 0 ∷ []

-- The loop of `delta` shifts.
unfoldable pub shifts : ℕ → List ℕ → List ℕ
unfolding shift
shifts zero buckets = buckets
shifts (suc i) buckets = shifts i (shift buckets)

-- `b.rateBuckets[len(b.rateBuckets)-1]++`
unfoldable pub bump_last : List ℕ → List ℕ
bump_last [] = []
bump_last (v ∷ []) = u64 (v + 1) ∷ []
bump_last (v ∷ w ∷ vs) = v ∷ bump_last (w ∷ vs)

unfoldable pub new_ring : Ring
new_ring = record { rate_buckets = 0 ∷ 0 ∷ 0 ∷ 0 ∷ 0 ∷ 0 ∷ 0 ∷ 0 ∷ 0 ∷ 0 ∷ []; rate_anchor = 0 }

unfoldable pub bump_rate : Ring → ℕ → Ring
unfolding clear shifts bump_last
bump_rate b now =
    let anchor = if eqb b.rate_anchor 0 then now else b.rate_anchor in
    let delta = now - anchor in
    let aged =
      if leb rate_window_seconds delta then clear b.rate_buckets else shifts delta b.rate_buckets in
    record { rate_buckets = bump_last aged; rate_anchor = now }

-- `sum += v` over the buckets
unfoldable pub sum_buckets : ℕ → List ℕ → ℕ
sum_buckets acc [] = acc
sum_buckets acc (v ∷ vs) = sum_buckets (u64 (acc + v)) vs

unfoldable pub rate_snapshot : Ring → ℕ → Ring × ℕ
unfolding clear shifts sum_buckets
rate_snapshot b now =
    let delta = now - b.rate_anchor in
    if eqb b.rate_anchor 0
    then (b, 0)
    else if leb rate_window_seconds delta
    then (record { rate_buckets = clear b.rate_buckets; rate_anchor = now }, 0)
    else (let aged = shifts delta b.rate_buckets in
        (record { rate_buckets = aged; rate_anchor = now }, sum_buckets 0 aged))
