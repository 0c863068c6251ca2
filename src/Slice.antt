-- ===== src/Slice.antt =====
-- Slices of Go, as far as subscriber/helpers.go and subscriber/subscriber.go use them: a slice is a
-- part of an array, several slices can share an array, and `append` writes into it in place.
-- How much room `append` makes when it moves a slice to a new array is the runtime's choice, the
-- parameter `grow`, of which Go documents that the new array is large enough.
pub mod Cells
pub mod Append
pub mod Sets
pub mod Extend
pub mod Merge
pub mod Clients
pub mod Replace
pub mod Owned
pub mod Held
pub mod Runs
pub mod Shared
pub mod Tests
use klever_subscriber.Base.{
  ℕ, zero, suc, ◌+◌, ◌≤◌, Bool, ◌&&◌, List, [], ◌∷◌, ◌==◌, nat_eq, length, leb, if◌then◌else◌,
}

-- The arrays, each under a number below `next`, with their cells.
pub record Arrays {ℓ} (A : Type ℓ) : Type ℓ where
  pub next : ℕ
  pub cells : ℕ → ℕ → A

pub record Slice : Type 0 where
  pub array : ℕ
  pub offset : ℕ
  pub len : ℕ
  pub cap : ℕ

-- The array 0 is the one of `nil`, which has no cell that a slice can reach.
abbrev pub nil_slice : Slice
nil_slice = record { array = 0; offset = 0; len = 0; cap = 0 }

abbrev pub no_arrays {ℓ} : {A : Type ℓ} → A → Arrays A
no_arrays blank = record { next = 1; cells = λ b j. blank }

-- "a new, sufficiently large underlying array": the old capacity and the length needed.
abbrev pub IsLargeEnough : (ℕ → ℕ → ℕ) → Type 0
IsLargeEnough grow = (cap needed : ℕ) → needed ≤ grow cap needed

module _ {ℓ} {A : Type ℓ} where
  -- `n` cells of an array from the index `i` on.
  unfoldable pub elements : Arrays A → ℕ → ℕ → ℕ → List A
  elements h a i zero = []
  elements h a i (suc n) = h.cells a i ∷ elements h a (suc i) n

  unfoldable pub read : Arrays A → Slice → List A
  unfolding elements
  read h s = elements h s.array s.offset s.len

  -- `s[i] = x`, at the cell `i` of the array.
  unfoldable pub write : Arrays A → ℕ → ℕ → A → Arrays A
  write h a i x = record h { cells = λ b j. if (b == a) && (j == i) then x else h.cells b j }

  unfoldable pub write_all : Arrays A → ℕ → ℕ → List A → Arrays A
  unfolding write
  write_all h a i [] = h
  write_all h a i (x ∷ xs) = write_all (write h a i x) a (suc i) xs

  -- A new array, all of it zero values.
  unfoldable pub allocate : A → Arrays A → Arrays A
  allocate blank h = record {
    next = suc h.next;
    cells = λ b j. if b == h.next then blank else h.cells b j;
  }

  -- `make([]T, n)` for a slice of that length, and `copy` of the elements into it.
  unfoldable pub clone : A → Arrays A → List A → Arrays A × Slice
  unfolding allocate write_all
  clone blank h xs = (
    write_all (allocate blank h) h.next 0 xs,
    record { array = h.next; offset = 0; len = length xs; cap = length xs },
  )

  -- `append(s, xs...)`, whose operands are read before anything is written.
  unfoldable pub append : (ℕ → ℕ → ℕ) → A → Arrays A → Slice → List A → Arrays A × Slice
  unfolding write_all allocate read
  append grow blank h s xs =
      if leb (s.len + length xs) s.cap
      then (write_all h s.array (s.offset + s.len) xs, record s { len = s.len + length xs })
      else (
        write_all (write_all (allocate blank h) h.next 0 (read h s)) h.next s.len xs,
        record {
          array = h.next;
          offset = 0;
          len = s.len + length xs;
          cap = grow s.cap (s.len + length xs);
        },
      )
