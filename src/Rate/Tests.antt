-- ===== src/Rate/Tests.antt =====
-- Runs of the ring of buckets.
use klever_subscriber.Base.{◌≡◌, refl, List, [], ◌∷◌, arith}
use klever_subscriber.Rate.{
  new_ring, rate_snapshot, bump_rate, clear, shift, shifts, bump_last, sum_buckets,
  rate_window_seconds,
}
use klever_subscriber.Rate.Window.{recent}
use klever_subscriber.Rate.Trailing.{
  Call, bumps, reads, after, counted, IsForward, rate_counts_trailing_window,
}

-- Two events, a reading, a third event, and one that comes ten seconds later.
abbrev calls : List Call
calls = bumps 100 ∷ bumps 100 ∷ reads 103 ∷ bumps 105 ∷ bumps 109 ∷ []

forward : IsForward 0 calls 110
forward = omega arith

rate_run : (rate_snapshot (after new_ring calls) 110).1 ≡ 2
unfolding rate_snapshot after new_ring bump_rate clear shift shifts bump_last sum_buckets
rate_run = refl

rate_counts_trailing_window_example :
    (rate_snapshot (after new_ring calls) 110).1 ≡ recent rate_window_seconds (counted [] calls) 110
rate_counts_trailing_window_example = rate_counts_trailing_window calls 110 forward (omega arith)
