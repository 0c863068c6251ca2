-- ===== src/Broker/Sse/Order.antt =====
-- What a dashboard is sent, against the frames that are broadcast.
pub mod Turns
pub mod Runs
use mathlib.Core.List.{Sublistᴰ}
use klever_subscriber.Base.{
  ℕ, ◌<◌, ◌≤◌, ◌≡◌, ◌≢◌, refl, List, [], ◌∷◌, ◌++◌, String, Option, none, some, length, get_elem?,
  subst, arith, inl, inr, ◌⊎◌, ap, sym, ◌∙◌, append_assoc,
}
use klever_subscriber.Chan.{Heap}
use klever_subscriber.Chan.Buffers.{buffer_at}
use klever_subscriber.Broker.{SseFrame}
use klever_subscriber.Broker.Sse.{
  Stage, registered, serving, arrived, too_many, no_flusher, admitted, leaving, refused, finished,
  System, Action, arrives, turns, broadcasts,
}

-- The frames that a sequence of actions broadcasts.
unfoldable pub broadcasted : List Action → List SseFrame
broadcasted [] = []
broadcasted (arrives ∷ as') = broadcasted as'
broadcasted (turns k t ∷ as') = broadcasted as'
broadcasted (broadcasts f ∷ as') = f ∷ broadcasted as'

-- The frames written, in the order of writing.
unfoldable pub oldest_first : List SseFrame → List SseFrame
oldest_first [] = []
oldest_first (f ∷ written) = oldest_first written ++ f ∷ []

-- A stream has written the statistics and then frames that were broadcast, in their order, and so are
-- those that wait for it.
pub record IsFed (history : List SseFrame) (w : Heap SseFrame × ℕ) (written : List SseFrame)
    : Type 0 where
  pub made : w.1 < length w.0
  pub stats : SseFrame
  pub later : List SseFrame
  pub wrote : oldest_first written ≡ stats ∷ later
  pub first : stats.event ≡ "stats"
  pub in_order : Sublistᴰ (later ++ buffer_at w.0 w.1) history

abbrev pub Follows : List SseFrame → Heap SseFrame → Stage → Type 0
Follows history heap (registered c) = (c < length heap) × Sublistᴰ (buffer_at heap c) history
Follows history heap (serving c written) = IsFed history (heap, c) written
Follows history heap _ = Unit

-- The channel that a stage receives from, or will.
abbrev pub owned : Stage → Option ℕ
owned (registered c) = some c
owned (serving c written) = some c
owned _ = none

pub record IsInOrder (history : List SseFrame) (s : System) : Type 0 where
  pub follows :
      (k : ℕ) (stage : Stage)
      → get_elem? s.requests k ≡ some stage
      → Follows history s.broker.frames stage
  pub apart :
      (j k : ℕ) (a b : Stage) (c : ℕ)
      → j ≢ k
      → get_elem? s.requests j ≡ some a
      → get_elem? s.requests k ≡ some b
      → owned a ≡ some c
      → owned b ≢ some c
