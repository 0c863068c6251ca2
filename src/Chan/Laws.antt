-- ===== src/Chan/Laws.antt =====
-- How the operations on channels change a heap, channel by channel.
use mathlib.Core.Option.{map as map_option}
use klever_subscriber.Base.{
  ℕ, ◌≡◌, ◌≤◌, ◌==◌, Bool, none, Bool-cases, beq→eq, subst, refl, Option-cases, inl, inr, ◌∙◌, true,
  false, List, [], ◌∷◌, Option, some, arith, nat_eq, length, length-set, get_elem?, set,
  get_elem?-set, contains, IsDistinct, if◌then◌else◌,
}
use klever_subscriber.Chan.{
  waits, receive, take_first, Chan, Heap, deliver, send_or_skip, shut, close_chan, for_each,
}

module _ {ℓ} {A : Type ℓ} where
  -- A channel that is there and not closed.
  abbrev pub IsOpenAt : Heap A → ℕ → Type ℓ
  IsOpenAt heap c = (ch : Chan A) × (get_elem? heap c ≡ some ch) × (ch.closed ≡ false)

  pub send_or_skip_lem :
      (v : A) (heap : Heap A) (c : ℕ) (ch : Chan A)
      → get_elem? heap c ≡ some ch
      → ch.closed ≡ false
      → send_or_skip v heap c ≡ some (set heap c (deliver v ch))
  unfolding send_or_skip
  send_or_skip_lem v heap c ch h o = ground arith

  pub close_chan_lem :
      (heap : Heap A) (c : ℕ) (ch : Chan A)
      → get_elem? heap c ≡ some ch
      → ch.closed ≡ false
      → close_chan heap c ≡ some (set heap c (shut ch))
  unfolding close_chan
  close_chan_lem heap c ch h o = ground arith

  -- A heap in which the channels of a list have been changed by `f`, and no other.
  abbrev pub ChangedAt : (Chan A → Chan A) → List ℕ → Heap A → Heap A → Type ℓ
  ChangedAt f cs heap heap' =
      (c : ℕ)
      → get_elem? heap' c
        ≡ (if contains cs c then map_option f (get_elem? heap c) else get_elem? heap c)

  stays_open :
      (cs : List ℕ) (heap : Heap A) (x : ℕ) (v : Chan A) {old : Chan A}
      → get_elem? heap x ≡ some old
      → contains cs x ≡ false
      → ((c : ℕ) → contains cs c ≡ true → IsOpenAt heap c)
      → (c : ℕ) → contains cs c ≡ true
      → IsOpenAt (set heap x v) c
  stays_open cs heap x v at apart o c m =
      let (ch, here, opened) = o c m in (ch, ground (arith, get_elem?-set heap x c v at), opened)

  changed_twice :
      (f : Chan A → Chan A) (cs : List ℕ) (heap : Heap A) (x : ℕ) (ch : Chan A)
      → get_elem? heap x ≡ some ch
      → contains cs x ≡ false
      → (c : ℕ)
      → (if contains cs c
          then map_option f (get_elem? (set heap x (f ch)) c)
          else get_elem? (set heap x (f ch)) c)
        ≡ (if contains (x ∷ cs) c then map_option f (get_elem? heap c) else get_elem? heap c)
  changed_twice f cs heap x ch at apart c = ground (arith, get_elem?-set heap x c (f ch) at)

  -- A loop over distinct open channels does not panic, and changes each of them once.
  pub for_each_lem :
      (f : Chan A → Chan A) (body : Heap A → ℕ → Option (Heap A))
      → ((heap : Heap A) (c : ℕ) (ch : Chan A)
          → get_elem? heap c ≡ some ch
          → ch.closed ≡ false
          → body heap c ≡ some (set heap c (f ch)))
      → (cs : List ℕ) (heap : Heap A) → IsDistinct cs
      → ((c : ℕ) → contains cs c ≡ true → IsOpenAt heap c)
      → (heap' : Heap A) × (for_each body cs heap ≡ some heap')
        × ChangedAt f cs heap heap'
        × (length heap' ≡ length heap)
  unfolding for_each
  for_each_lem f body law [] heap d o = (heap, refl, λ c. refl, refl)
  for_each_lem f body law (x ∷ cs) heap d o =
      let (ch, at, opened) = o x (ground arith) in
      let heap₁ = set heap x (f ch) in
      let (heap', runs, changed, size) =
        for_each_lem f body law cs heap₁ d.1
          (stays_open cs heap x (f ch) at d.0 (λ c m. o c (ground arith))) in
      (
        heap',
        rw (law heap x ch at opened) runs,
        λ c. changed c ∙ changed_twice f cs heap x ch at d.0 c,
        size ∙ length-set heap x (f ch),
      )

  -- Read backwards: what is in the changed heap was in the first, changed where it is listed.
  pub ChangedAt-some :
      (f : Chan A → Chan A) (cs : List ℕ) (heap heap' : Heap A)
      → ChangedAt f cs heap heap'
      → (c : ℕ) (ch' : Chan A) → get_elem? heap' c ≡ some ch'
      → (ch : Chan A) × (get_elem? heap c ≡ some ch) × (ch' ≡ (if contains cs c then f ch else ch))
  ChangedAt-some f cs heap heap' changed c ch' at = elim (Option-cases (get_elem? heap c)) [
    | inl gone ↦ absurd (ground (arith, changed c))
    | inr (ch, here) ↦ (ch, here, ground (arith, changed c))
  ]

  -- The channel that a receive leaves.
  abbrev pub taken : Chan A → Chan A
  taken ch = record ch { buffer = (take_first ch.buffer ch.closed).0 }

  taken-length : (xs : List A) (closed : Bool) → length (take_first xs closed).0 ≤ length xs
  taken-length [] true = omega arith
  taken-length [] false = omega arith
  taken-length (x ∷ xs) closed = omega arith

  pub receive_runs :
      (heap : Heap A) (x : ℕ) (ch : Chan A)
      → get_elem? heap x ≡ some ch
      → (receive heap x).0 ≡ set heap x (taken ch)
  unfolding receive
  receive_runs heap x ch at = ground arith

  pub receive_value :
      (heap : Heap A) (x : ℕ) (ch : Chan A)
      → get_elem? heap x ≡ some ch
      → (receive heap x).1 ≡ (take_first ch.buffer ch.closed).1
  unfolding receive
  receive_value heap x ch at = ground arith

  pub receive-none_value :
      (heap : Heap A) (x : ℕ) → get_elem? heap x ≡ none → (receive heap x).1 ≡ waits
  unfolding receive
  receive-none_value heap x gone = ground arith

  pub receive-none : (heap : Heap A) (x : ℕ) → get_elem? heap x ≡ none → (receive heap x).0 ≡ heap
  unfolding receive
  receive-none heap x gone = ground arith

  -- A receive changes the buffer of its channel only, and makes it no longer.
  pub receive_lem :
      (heap : Heap A) (x : ℕ) (c : ℕ) (ch' : Chan A)
      → get_elem? (receive heap x).0 c ≡ some ch'
      → (ch : Chan A) × (get_elem? heap c ≡ some ch)
        × (ch'.closed ≡ ch.closed)
        × (ch'.capacity ≡ ch.capacity)
        × (length ch'.buffer ≤ length ch.buffer)
  receive_lem heap x c ch' at = elim (Option-cases (get_elem? heap x)) [
    | inl gone ↦ (ch', rw (receive-none heap x gone) at at, refl, refl, omega arith)
    | inr (old, here) ↦
        let at' =
          rw (receive_runs heap x old here, get_elem?-set heap x c (taken old) here) at at in
        elim (Bool-cases (x == c)) [
          | inl q ↦ (
            old,
            subst (λ i. get_elem? heap i ≡ some old) (beq→eq x c q) here,
            ground arith,
            ground arith,
            ground (arith, taken-length old.buffer old.closed),
          )
          | inr n ↦ (ch', ground arith, refl, refl, omega arith)
        ]
  ]

  pub receive_keeps :
      (heap : Heap A) (x : ℕ) (c : ℕ) (ch : Chan A)
      → get_elem? heap c ≡ some ch
      → (ch' : Chan A) × (get_elem? (receive heap x).0 c ≡ some ch') × (ch'.closed ≡ ch.closed)
  receive_keeps heap x c ch at = elim (Option-cases (get_elem? heap x)) [
    | inl gone ↦ (ch, rw (receive-none heap x gone) at, refl)
    | inr (old, here) ↦ elim (Bool-cases (x == c)) [
      | inl q ↦ (
        taken old,
        rw (receive_runs heap x old here, get_elem?-set heap x c (taken old) here, q),
        ground (arith, beq→eq x c q),
      )
      | inr n ↦ (
        ch,
        rw (receive_runs heap x old here, get_elem?-set heap x c (taken old) here, n) at,
        refl,
      )
    ]
  ]

  -- A change that leaves the mark alone keeps an open channel open.
  pub ChangedAt-open :
      (f : Chan A → Chan A)
      → ((ch : Chan A) → (f ch).closed ≡ ch.closed)
      → (cs : List ℕ) (heap heap' : Heap A) → ChangedAt f cs heap heap'
      → (c : ℕ) → IsOpenAt heap c
      → IsOpenAt heap' c
  ChangedAt-open f law cs heap heap' changed c o =
      let (ch, at, opened) = o in
      ((if contains cs c then f ch else ch), ground (arith, changed c), ground (arith, law ch))
