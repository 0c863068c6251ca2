-- ===== src/Slice/Sets.antt =====
-- subscriber/helpers.go, with the slices that it works on: `mergeTypes` and `mergeStrings` append to
-- the slice they are given, and `removeTypes`, `removeStrings`, `diffTypes` and `diffStrings` to a
-- slice of their own that starts as nil. A loop over a slice reads an element when it comes to it.
use klever_subscriber.Base.{ℕ, zero, suc, [], ◌∷◌, Comparable, if◌then◌else◌}
use klever_subscriber.Sets.{KeySet, no_keys, set_key, set_keys}
use klever_subscriber.Slice.{Arrays, Slice, read, append, nil_slice}

module _ {ℓ} {A : Type ℓ} ⦃e : Comparable A⦄ (grow : ℕ → ℕ → ℕ) (blank : A) where
  -- `if !set[t] { existing = append(existing, t) }`
  unfoldable pub append_new : KeySet A → A → Arrays A × Slice → Arrays A × Slice
  unfolding append
  append_new set t (h, existing) =
      if set t then (h, existing) else append grow blank h existing (t ∷ [])

  -- The second loop of a merge, with `n` elements of the array `a` left, from the index `i` on.
  unfoldable pub merge_rest : KeySet A → Arrays A × Slice → ℕ → ℕ → ℕ → Arrays A × Slice
  unfolding append_new
  merge_rest set w a i zero = w
  merge_rest set w a i (suc n) =
      let t = w.0.cells a i in
      merge_rest (if set t then set else set_key t set) (append_new set t w) a (suc i) n

  unfoldable pub merge_slices : Arrays A → Slice → Slice → Arrays A × Slice
  unfolding merge_rest read set_keys
  merge_slices h existing add =
      merge_rest (set_keys no_keys (read h existing)) (h, existing) add.array add.offset add.len

  -- The second loop of a removal and of a difference.
  unfoldable pub keep_rest : KeySet A → Arrays A × Slice → ℕ → ℕ → ℕ → Arrays A × Slice
  unfolding append_new
  keep_rest set w a i zero = w
  keep_rest set w a i (suc n) = keep_rest set (append_new set (w.0.cells a i) w) a (suc i) n

  unfoldable pub remove_slices : Arrays A → Slice → Slice → Arrays A × Slice
  unfolding keep_rest read set_keys
  remove_slices h existing gone =
      keep_rest (set_keys no_keys (read h gone)) (h, nil_slice) existing.array existing.offset
        existing.len
