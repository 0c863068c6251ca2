-- ===== src/Chan.antt =====
-- The channels of Go as the program uses them: buffered, shared, and closed at most once.
-- A heap holds the channels of one element type; a channel is named by its index, and none is freed.
pub mod Laws
pub mod Buffers
use klever_subscriber.Base.{
  ℕ, zero, suc, ◌+◌, Bool, true, false, List, [], ◌∷◌, ◌++◌, Option, none, some, ◌>>=◌, ltb, length,
  get_elem?, set, if◌then◌else◌,
}

pub record Chan {ℓ} (A : Type ℓ) : Type ℓ where
  pub buffer : List A
  pub capacity : ℕ
  pub closed : Bool

abbrev pub Heap {ℓ} : Type ℓ → Type ℓ
Heap A = List (Chan A)

-- `v, ok := <-ch`: a value, `ok` false, or no progress.
pub data Received {ℓ} (A : Type ℓ) : Type ℓ where
  got : A → Received A
  drained : Received A
  waits : Received A

module _ {ℓ} {A : Type ℓ} where
  abbrev pub new_chan : ℕ → Chan A
  new_chan n = record { buffer = []; capacity = n; closed = false }

  -- `make(chan A, n)`: the heap with the new channel, and its name.
  unfoldable pub make_chan : ℕ → Heap A → Heap A × ℕ
  make_chan n heap = (heap ++ new_chan n ∷ [], length heap)

  -- The channel after a send that does not wait: the value is dropped where there is no room.
  abbrev pub deliver : A → Chan A → Chan A
  deliver v ch =
      if ltb (length ch.buffer) ch.capacity then record ch { buffer = ch.buffer ++ v ∷ [] } else ch

  -- `select { case ch <- v: default: }`; a send on a closed channel panics.
  unfoldable pub send_or_skip : A → Heap A → ℕ → Option (Heap A)
  send_or_skip v heap c = elim (get_elem? heap c) [
    | none ↦ some heap
    | some ch ↦ if ch.closed then none else some (set heap c (deliver v ch))
  ]

  -- The same on a channel that no code closes, where it cannot panic.
  unfoldable pub offer : A → Heap A → ℕ → Heap A
  offer v heap c = elim (get_elem? heap c) [ none ↦ heap | some ch ↦ set heap c (deliver v ch) ]

  abbrev pub shut : Chan A → Chan A
  shut ch = record ch { closed = true }

  -- `close(ch)`: the second close of a channel panics.
  unfoldable pub close_chan : Heap A → ℕ → Option (Heap A)
  close_chan heap c = elim (get_elem? heap c) [
    | none ↦ none
    | some ch ↦ if ch.closed then none else some (set heap c (shut ch))
  ]

  abbrev pub take_first : List A → Bool → List A × Received A
  take_first (v ∷ rest) closed = (rest, got v)
  take_first [] true = ([], drained)
  take_first [] false = ([], waits)

  unfoldable pub receive : Heap A → ℕ → Heap A × Received A
  receive heap c = elim (get_elem? heap c) [
    | none ↦ (heap, waits)
    | some ch ↦
        let (rest, r) = take_first ch.buffer ch.closed in
        (set heap c (record ch { buffer = rest }), r)
  ]

  -- `for _, ch := range chans { … }`, where each round may panic.
  unfoldable pub for_each : (Heap A → ℕ → Option (Heap A)) → List ℕ → Heap A → Option (Heap A)
  for_each body [] heap = some heap
  for_each body (c ∷ cs) heap = body heap c >>= λ heap'. for_each body cs heap'
