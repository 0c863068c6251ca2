-- ===== src/Slice/Append.antt =====
-- `append` on slices: what it returns, and what it leaves to the other slices.
use klever_subscriber.Base.{
  ℕ, suc, ◌+◌, ◌≤◌, ◌<◌, ◌≡◌, ◌≢◌, List, ◌++◌, length, arith, ◌⊎◌, inl, inr, Bool-cases, leb, ap,
  ◌∙◌,
}
use klever_subscriber.Slice.{
  Arrays, Slice, elements, read, write_all, allocate, clone, append, IsLargeEnough,
}
use klever_subscriber.Slice.Cells.{
  length-elements, write_all-next, elements-extend, elements-write_all, read-write_all,
  read-allocate, IsApart,
}

-- The elements of `t` have nothing of the room that `s` has left in its array.
abbrev pub IsSpared : Slice → Slice → Type 0
IsSpared s t =
    (t.array ≢ s.array) ⊎ ((t.offset + t.len ≤ s.offset + s.len) ⊎ (s.offset + s.cap ≤ t.offset))

-- The two slices have no cell in common, their rooms included.
abbrev pub IsSeparate : Slice → Slice → Type 0
IsSeparate s t =
    (s.array ≢ t.array) ⊎ ((s.offset + s.cap ≤ t.offset) ⊎ (t.offset + t.cap ≤ s.offset))

pub IsSeparate-sym : (s t : Slice) → IsSeparate s t → IsSeparate t s
IsSeparate-sym s t (inl n) = inl (λ q. omega arith)
IsSeparate-sym s t (inr (inl before)) = inr (inr before)
IsSeparate-sym s t (inr (inr after)) = inr (inl after)

pub IsSeparate→IsSpared : (s t : Slice) → t.len ≤ t.cap → IsSeparate s t → IsSpared s t
IsSeparate→IsSpared s t h (inl n) = inl (λ q. omega arith)
IsSeparate→IsSpared s t h (inr (inl before)) = inr (inr before)
IsSeparate→IsSpared s t h (inr (inr after)) = inr (inl (omega arith))

module _ {ℓ} {A : Type ℓ} where
  -- A slice that a program can hold: within its room, in an array that there is.
  abbrev pub IsValid : Arrays A → Slice → Type 0
  IsValid h s = (s.len ≤ s.cap) × (s.array < h.next)

  elements-moved :
      (h : Arrays A) (a : ℕ) (xs ys : List A) {n : ℕ}
      → length xs ≡ n
      → elements (write_all (write_all h a 0 xs) a n ys) a 0 (n + length ys) ≡ xs ++ ys
  elements-moved h a xs ys {n = n} q =
      let start : 0 + n ≡ n = omega arith in
      let there = elements-extend (write_all h a 0 xs) a 0 n ys in
      let first = elements-write_all h a 0 xs in
      (rw start at there) ∙ ap (λ es. es ++ ys) (rw q at first)

  module _ (grow : ℕ → ℕ → ℕ) (blank : A) where
    pub read-append :
        (h : Arrays A) (s : Slice) (xs : List A)
        → read (append grow blank h s xs).0 (append grow blank h s xs).1 ≡ read h s ++ xs
    unfolding append read
    read-append h s xs = elim (Bool-cases (leb (s.len + length xs) s.cap)) [
      | inl fits ↦ rw fits (elements-extend h s.array s.offset s.len xs)
      | inr full ↦ rw full (
          elements-moved (allocate blank h) h.next (read h s) xs
            (length-elements h s.array s.offset s.len))
    ]

    -- The slices that `append` cannot reach keep their elements.
    pub read-append_kept :
        (h : Arrays A) (s t : Slice) (xs : List A)
        → t.array < h.next
        → IsSpared s t
        → read (append grow blank h s xs).0 t ≡ read h t
    unfolding append
    read-append_kept h s t xs old o = elim (Bool-cases (leb (s.len + length xs) s.cap)) [
      | inl fits ↦ rw fits (read-write_all h s.array (s.offset + s.len) xs t (out (ground arith) o))
      | inr full ↦ rw full (
          read-write_all (write_all (allocate blank h) h.next 0 (read h s)) h.next s.len xs t
            (inl new)
          ∙ read-write_all (allocate blank h) h.next 0 (read h s) t (inl new)
          ∙ read-allocate blank h t old)
    ]
      where
        new : t.array ≢ h.next
        new q = omega arith

        out :
            s.len + length xs ≤ s.cap
            → IsSpared s t
            → IsApart t s.array (s.offset + s.len) (length xs)
        out fits (inl n) = inl n
        out fits (inr (inl before)) = inr (inl before)
        out fits (inr (inr after)) = inr (inr (omega arith))

    pub append-next :
        (h : Arrays A) (s : Slice) (xs : List A) → h.next ≤ (append grow blank h s xs).0.next
    unfolding append allocate
    append-next h s xs = elim (Bool-cases (leb (s.len + length xs) s.cap)) [
      | inl fits ↦ rw (fits, write_all-next h s.array (s.offset + s.len) xs) (omega arith)
      | inr full ↦
          rw
            (
              full,
              write_all-next (write_all (allocate blank h) h.next 0 (read h s)) h.next s.len xs,
              write_all-next (allocate blank h) h.next 0 (read h s),
            )
            (omega arith)
    ]

    pub append-IsValid :
        (h : Arrays A) (s : Slice) (xs : List A)
        → IsLargeEnough grow
        → IsValid h s
        → IsValid (append grow blank h s xs).0 (append grow blank h s xs).1
    unfolding append allocate
    append-IsValid h s xs enough v = elim (Bool-cases (leb (s.len + length xs) s.cap)) [
      | inl fits ↦ rw (fits, write_all-next h s.array (s.offset + s.len) xs) (ground arith, v.1)
      | inr full ↦
          rw
            (
              full,
              write_all-next (write_all (allocate blank h) h.next 0 (read h s)) h.next s.len xs,
              write_all-next (allocate blank h) h.next 0 (read h s),
            )
            (enough s.cap (s.len + length xs), omega arith)
    ]

    -- A slice apart from another stays so when it is appended to.
    pub append-IsSeparate :
        (h : Arrays A) (s t : Slice) (xs : List A)
        → t.array < h.next
        → IsSeparate s t
        → IsSeparate (append grow blank h s xs).1 t
    unfolding append
    append-IsSeparate h s t xs old o = elim (Bool-cases (leb (s.len + length xs) s.cap)) [
      | inl fits ↦ rw fits o
      | inr full ↦ rw full (inl (λ q. omega arith))
    ]

    pub append-IsSpared :
        (h : Arrays A) (s t : Slice) (xs : List A)
        → t.array < h.next
        → IsSpared s t
        → IsSpared (append grow blank h s xs).1 t
    unfolding append
    append-IsSpared h s t xs old o = elim (Bool-cases (leb (s.len + length xs) s.cap)) [
      | inl fits ↦ rw fits (later o)
      | inr full ↦ rw full (inl (λ q. omega arith))
    ]
      where
        later : IsSpared s t → IsSpared (record s { len = s.len + length xs }) t
        later (inl n) = inl n
        later (inr (inl before)) = inr (inl (omega arith))
        later (inr (inr after)) = inr (inr after)

  -- A copy has the elements, in an array of its own, and nothing else changes.
  module _ (blank : A) where
    pub read-clone :
        (h : Arrays A) (xs : List A) → read (clone blank h xs).0 (clone blank h xs).1 ≡ xs
    unfolding clone read
    read-clone h xs = elements-write_all (allocate blank h) h.next 0 xs

    pub read-clone_kept :
        (h : Arrays A) (t : Slice) (xs : List A)
        → t.array < h.next
        → read (clone blank h xs).0 t ≡ read h t
    unfolding clone
    read-clone_kept h t xs old =
        read-write_all (allocate blank h) h.next 0 xs t (inl (λ q. omega arith))
        ∙ read-allocate blank h t old

    pub clone-next : (h : Arrays A) (xs : List A) → (clone blank h xs).0.next ≡ suc h.next
    unfolding clone allocate
    clone-next h xs = write_all-next (allocate blank h) h.next 0 xs

    pub clone-IsValid :
        (h : Arrays A) (xs : List A) → IsValid (clone blank h xs).0 (clone blank h xs).1
    unfolding clone allocate
    clone-IsValid h xs =
        (omega arith, rw (write_all-next (allocate blank h) h.next 0 xs) (omega arith))

    pub clone-IsSeparate :
        (h : Arrays A) (t : Slice) (xs : List A)
        → t.array < h.next
        → IsSeparate (clone blank h xs).1 t
    unfolding clone
    clone-IsSeparate h t xs old = inl (λ q. omega arith)
