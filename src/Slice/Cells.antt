-- ===== src/Slice/Cells.antt =====
-- What writes into an array change, and what they leave.
use klever_subscriber.Base.{
  ℕ, zero, suc, ◌+◌, ◌≤◌, ◌<◌, ◌≡◌, ◌≢◌, refl, List, [], ◌∷◌, ◌++◌, length, arith, ◌⊎◌, inl, inr,
  ap, ap₂, ◌∙◌, nat_eq, beq_of_ne, beq_refl,
}
use klever_subscriber.Slice.{Arrays, Slice, elements, read, write, write_all, allocate}

-- A part of an array that the cells from `i` to `i + n` of the array `a` have nothing of.
abbrev pub IsApart : Slice → ℕ → ℕ → ℕ → Type 0
IsApart t a i n = (t.array ≢ a) ⊎ ((t.offset + t.len ≤ i) ⊎ (i + n ≤ t.offset))

module _ {ℓ} {A : Type ℓ} where
  pub elements-append :
      (h : Arrays A) (a i m n : ℕ)
      → elements h a i (m + n) ≡ elements h a i m ++ elements h a (i + m) n
  unfolding elements
  elements-append h a i zero n =
      let here : i ≡ i + 0 = omega arith in
      let all : 0 + n ≡ n = omega arith in ap₂ (elements h a) here all
  elements-append h a i (suc m) n =
      let count : suc m + n ≡ suc (m + n) = omega arith in
      let there : suc i + m ≡ i + suc m = omega arith in
      rw (count, ← there) (ap (◌∷◌ (h.cells a i)) (elements-append h a (suc i) m n))

  pub length-elements : (h : Arrays A) (a i n : ℕ) → length (elements h a i n) ≡ n
  unfolding elements
  length-elements h a i zero = refl
  length-elements h a i (suc n) = ap suc (length-elements h a (suc i) n)

  pub write_all-next : (h : Arrays A) (a i : ℕ) (xs : List A) → (write_all h a i xs).next ≡ h.next
  unfolding write_all write
  write_all-next h a i [] = refl
  write_all-next h a i (x ∷ xs) = write_all-next (write h a i x) a (suc i) xs

  cells-write_out :
      (h : Arrays A) (a i : ℕ) (x : A) (b j : ℕ)
      → (b ≢ a) ⊎ (j ≢ i)
      → (write h a i x).cells b j ≡ h.cells b j
  unfolding write
  cells-write_out h a i x b j (inl n) = rw (beq_of_ne b a n) refl
  cells-write_out h a i x b j (inr n) = ground (arith, beq_of_ne j i n)

  cells-write_at : (h : Arrays A) (a i : ℕ) (x : A) → (write h a i x).cells a i ≡ x
  unfolding write
  cells-write_at h a i x = rw (beq_refl a, beq_refl i) refl

  -- A cell out of the range written keeps its value.
  cells-write_all_out :
      (h : Arrays A) (a i : ℕ) (xs : List A) (b j : ℕ)
      → (b ≢ a) ⊎ ((j < i) ⊎ (i + length xs ≤ j))
      → (write_all h a i xs).cells b j ≡ h.cells b j
  unfolding write_all write
  cells-write_all_out h a i [] b j o = refl
  cells-write_all_out h a i (x ∷ xs) b j o =
      cells-write_all_out (write h a i x) a (suc i) xs b j (within o)
      ∙ cells-write_out h a i x b j (apart o)
    where
      within :
          (b ≢ a) ⊎ ((j < i) ⊎ (i + length (x ∷ xs) ≤ j))
          → (b ≢ a) ⊎ ((j < suc i) ⊎ (suc i + length xs ≤ j))
      within (inl n) = inl n
      within (inr r) = inr (omega arith)

      apart : (b ≢ a) ⊎ ((j < i) ⊎ (i + length (x ∷ xs) ≤ j)) → (b ≢ a) ⊎ (j ≢ i)
      apart (inl n) = inl n
      apart (inr r) = inr (λ q. omega arith)

  -- The cells that agree give the same elements.
  elements-agree :
      (h k : Arrays A) (a i n : ℕ)
      → ((j : ℕ) → i ≤ j → j < i + n → h.cells a j ≡ k.cells a j)
      → elements h a i n ≡ elements k a i n
  unfolding elements
  elements-agree h k a i zero e = refl
  elements-agree h k a i (suc n) e =
      ap₂ (◌∷◌) (e i (omega arith) (omega arith))
        (elements-agree h k a (suc i) n (λ j above below. e j (omega arith) (omega arith)))

  -- What was written is read.
  pub elements-write_all :
      (h : Arrays A) (a i : ℕ) (xs : List A) → elements (write_all h a i xs) a i (length xs) ≡ xs
  unfolding elements write_all
  elements-write_all h a i [] = refl
  elements-write_all h a i (x ∷ xs) =
      ap₂ (◌∷◌)
        (cells-write_all_out (write h a i x) a (suc i) xs a i (inr (inl (omega arith)))
          ∙ cells-write_at h a i x)
        (elements-write_all (write h a i x) a (suc i) xs)

  pub read-write_all :
      (h : Arrays A) (a i : ℕ) (xs : List A) (t : Slice)
      → IsApart t a i (length xs)
      → read (write_all h a i xs) t ≡ read h t
  unfolding read
  read-write_all h a i xs t o =
      elements-agree (write_all h a i xs) h t.array t.offset t.len
        (λ j above below. cells-write_all_out h a i xs t.array j (out j above below o))
    where
      out :
          (j : ℕ)
          → t.offset ≤ j
          → j < t.offset + t.len
          → IsApart t a i (length xs)
          → (t.array ≢ a) ⊎ ((j < i) ⊎ (i + length xs ≤ j))
      out j above below (inl n) = inl n
      out j above below (inr (inl before)) = inr (inl (omega arith))
      out j above below (inr (inr after)) = inr (inr (omega arith))

  -- The arrays that there are keep their cells when one is made.
  pub read-allocate :
      (blank : A) (h : Arrays A) (t : Slice)
      → t.array < h.next
      → read (allocate blank h) t ≡ read h t
  unfolding read allocate
  read-allocate blank h t old =
      elements-agree (allocate blank h) h t.array t.offset t.len
        (λ j above below. rw (beq_of_ne t.array h.next (λ q. omega arith)) refl)

  -- Elements written at the end of what is read.
  pub elements-extend :
      (h : Arrays A) (a i : ℕ) (n : ℕ) (xs : List A)
      → elements (write_all h a (i + n) xs) a i (n + length xs) ≡ elements h a i n ++ xs
  elements-extend h a i n xs =
      elements-append (write_all h a (i + n) xs) a i n (length xs)
      ∙ ap₂ (◌++◌)
          (elements-agree (write_all h a (i + n) xs) h a i n
            (λ j above below. cells-write_all_out h a (i + n) xs a j (inr (inl below))))
          (elements-write_all h a (i + n) xs)

  pub read-write :
      (h : Arrays A) (a i : ℕ) (x : A) (t : Slice)
      → IsApart t a i 1
      → read (write h a i x) t ≡ read h t
  unfolding write_all
  read-write h a i x t o = read-write_all h a i (x ∷ []) t o
