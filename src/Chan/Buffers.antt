-- ===== src/Chan/Buffers.antt =====
-- The values that wait in a channel, and what a send or a receive does to them.
use mathlib.Core.List.{Sublistᴰ}
use mathlib.Core.List.Sublistᴰ.{slnil, cons-cons, cons}
use klever_subscriber.Base.{
  zero, ltb, ℕ, suc, ◌≡◌, refl, Bool, true, false, ◌&&◌, inl, inr, List, [], ◌∷◌, ◌++◌, none, some,
  arith, nat_eq, ◌==◌, beq-ne, Bool-cases, Option-cases, length, get_elem?, set, contains,
  append-nil, get_elem?-lt, get_elem?-set_self, get_elem?-set_ne,
}
use klever_subscriber.Chan.{
  take_first, Chan, Heap, deliver, new_chan, receive, Received, got, drained, waits,
}
use klever_subscriber.Chan.Laws.{
  ChangedAt, taken, receive-none, receive-none_value, receive_value, receive_runs,
}

module _ {ℓ} {A : Type ℓ} where
  -- The values that wait in a channel; none in one that is not made yet.
  abbrev pub buffer_at : Heap A → ℕ → List A
  buffer_at heap c = elim (get_elem? heap c) [ none ↦ [] | some ch ↦ ch.buffer ]

  abbrev pub value_of : Received A → List A
  value_of (got v) = v ∷ []
  value_of drained = []
  value_of waits = []

  take_first-front :
      (xs : List A) (closed : Bool)
      → xs ≡ value_of (take_first xs closed).1 ++ (take_first xs closed).0
  take_first-front [] true = refl
  take_first-front [] false = refl
  take_first-front (x ∷ xs) closed = refl

  buffer_at-some :
      (heap : Heap A) (c : ℕ) (ch : Chan A)
      → get_elem? heap c ≡ some ch
      → buffer_at heap c ≡ ch.buffer
  buffer_at-some heap c ch at = ground arith

  -- Two heaps with the same cell at `c` have the same values there.
  buffer_at-same :
      (heap heap' : Heap A) (c : ℕ)
      → get_elem? heap' c ≡ get_elem? heap c
      → buffer_at heap' c ≡ buffer_at heap c
  buffer_at-same heap heap' c h = ground arith

  -- A receive takes the value at the front of its channel.
  pub receive-front :
      (heap : Heap A) (c : ℕ)
      → buffer_at heap c ≡ value_of (receive heap c).1 ++ buffer_at (receive heap c).0 c
  receive-front heap c = elim (Option-cases (get_elem? heap c)) [
    | inl gone ↦ rw (receive-none_value heap c gone, receive-none heap c gone)
    | inr (ch, at) ↦
        rw
          (
            receive_value heap c ch at,
            receive_runs heap c ch at,
            buffer_at-some (set heap c (taken ch)) c (taken ch)
                (get_elem?-set_self heap c (taken ch) (get_elem?-lt heap c at)),
            buffer_at-some heap c ch at,
          )
          (take_first-front ch.buffer ch.closed)
  ]

  pub receive-others :
      (heap : Heap A) (x c : ℕ)
      → (x == c) ≡ false
      → buffer_at (receive heap x).0 c ≡ buffer_at heap c
  receive-others heap x c n = elim (Option-cases (get_elem? heap x)) [
    | inl gone ↦ rw (receive-none heap x gone)
    | inr (ch, at) ↦
        rw (receive_runs heap x ch at)
          (buffer_at-same heap _ c (get_elem?-set_ne heap (taken ch) (beq-ne x c n)))
  ]

  pub buffer_at-snoc :
      (heap : Heap A) (c : ℕ) → buffer_at (heap ++ new_chan 256 ∷ []) c ≡ buffer_at heap c
  buffer_at-snoc [] zero = refl
  buffer_at-snoc [] (suc c) = refl
  buffer_at-snoc (x ∷ heap) zero = refl
  buffer_at-snoc (x ∷ heap) (suc c) = buffer_at-snoc heap c

  -- An offer adds the value at the end of a listed channel with room, and nothing anywhere else.
  pub offered-buffer :
      (v : A) (cs : List ℕ) (heap heap' : Heap A) (c : ℕ)
      → ChangedAt (deliver v) cs heap heap'
      → (new : List A) × Sublistᴰ new (v ∷ []) × (buffer_at heap c ++ new ≡ buffer_at heap' c)
  offered-buffer v cs heap heap' c changed = elim (Option-cases (get_elem? heap c)) [
    | inl gone ↦ ([], cons slnil, ground (arith, changed c))
    | inr (ch, at) ↦ elim (Bool-cases (contains cs c && ltb (length ch.buffer) ch.capacity)) [
      | inl room ↦ (v ∷ [], cons-cons refl slnil, ground (arith, changed c))
      | inr full ↦ ([], cons slnil, ground (arith, changed c, append-nil (buffer_at heap c)))
    ]
  ]
