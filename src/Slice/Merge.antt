-- ===== src/Slice/Merge.antt =====
-- A merge and a removal on slices, next to the same operations on lists.
use klever_subscriber.Base.{
  ℕ, zero, suc, ◌<◌, ◌≡◌, refl, [], ◌∷◌, ◌++◌, arith, inl, inr, Bool-cases, Comparable, ap₂, ◌∙◌,
  if◌then◌else◌,
}
use klever_subscriber.Sets.{
  KeySet, set_key, set_keys, no_keys, merge_loop, merge, keep_loop, remove,
}
use klever_subscriber.Slice.{Arrays, Slice, read, elements, IsLargeEnough, nil_slice}
use klever_subscriber.Slice.Append.{IsSpared, read-append}
use klever_subscriber.Slice.Extend.{
  Growing, IsSafe, Extends, append_new-Extends, merge_rest-Extends, keep_rest-Extends,
}
use klever_subscriber.Slice.Sets.{append_new, merge_rest, merge_slices, keep_rest, remove_slices}

-- The `n` cells of the array `a` from `i` on, as a slice.
abbrev part : ℕ → ℕ → ℕ → Slice
part a i n = record { array = a; offset = i; len = n; cap = n }

module _ {ℓ} {A : Type ℓ} ⦃e : Comparable A⦄ where
  module _ (grow : ℕ → ℕ → ℕ) (blank : A) (enough : IsLargeEnough grow) where
    read-append_new :
        (set : KeySet A) (x : A) (w : Growing A)
        → let w' = append_new grow blank set x w in
          read w'.0 w'.1 ≡ (if set x then read w.0 w.1 else read w.0 w.1 ++ x ∷ [])
    unfolding append_new
    read-append_new set x w = elim (Bool-cases (set x)) [
      | inl old ↦ rw old refl
      | inr new ↦ rw new (read-append grow blank w.0 w.1 (x ∷ []))
    ]

    part-IsSafe_tail :
        (w : Growing A) (a i n : ℕ) → IsSafe w (part a i (suc n)) → IsSafe w (part a (suc i) n)
    part-IsSafe_tail w a i n (old, inl apart) = (old, inl apart)
    part-IsSafe_tail w a i n (old, inr (inl before)) = (old, inr (inl (omega arith)))
    part-IsSafe_tail w a i n (old, inr (inr after)) = (old, inr (inr (omega arith)))

    -- What an append leaves of the cells still to be read.
    elements-append_new :
        (set : KeySet A) (x : A) (w : Growing A) (a i n : ℕ)
        → IsSafe w (part a i n)
        → elements (append_new grow blank set x w).0 a i n ≡ elements w.0 a i n
    unfolding read
    elements-append_new set x w a i n safe =
        (append_new-Extends grow blank enough set x w).read_stays (part a i n) safe

    read-merge_rest :
        (set : KeySet A) (w : Growing A) (a i n : ℕ)
        → IsSafe w (part a i n)
        → let w' = merge_rest grow blank set w a i n in
          read w'.0 w'.1 ≡ merge_loop (read w.0 w.1) set (elements w.0 a i n)
    unfolding merge_rest merge_loop elements
    read-merge_rest set w a i zero safe = refl
    read-merge_rest set w a i (suc n) safe =
        let t = w.0.cells a i in
        let w' = append_new grow blank set t w in
        let set' = if set t then set else set_key t set in
        let tail = part-IsSafe_tail w a i n safe in
        let later =
          (append_new-Extends grow blank enough set t w).safe_stays (part a (suc i) n) tail in
        read-merge_rest set' w' a (suc i) n later
        ∙ ap₂ (λ held left. merge_loop held set' left) (read-append_new set t w)
            (elements-append_new set t w a (suc i) n tail)

    read-keep_rest :
        (set : KeySet A) (w : Growing A) (a i n : ℕ)
        → IsSafe w (part a i n)
        → let w' = keep_rest grow blank set w a i n in
          read w'.0 w'.1 ≡ keep_loop (read w.0 w.1) set (elements w.0 a i n)
    unfolding keep_rest keep_loop elements
    read-keep_rest set w a i zero safe = refl
    read-keep_rest set w a i (suc n) safe =
        let t = w.0.cells a i in
        let w' = append_new grow blank set t w in
        let tail = part-IsSafe_tail w a i n safe in
        let later =
          (append_new-Extends grow blank enough set t w).safe_stays (part a (suc i) n) tail in
        read-keep_rest set w' a (suc i) n later
        ∙ ap₂ (λ held left. keep_loop held set left) (read-append_new set t w)
            (elements-append_new set t w a (suc i) n tail)

    -- A merge of two slices returns a slice with the merge of their elements, provided that the
    -- second has nothing of the room left in the array of the first.
    pub read-merge_slices :
        (h : Arrays A) (existing add : Slice)
        → add.array < h.next
        → IsSpared existing add
        → let w' = merge_slices grow blank h existing add in
          read w'.0 w'.1 ≡ merge (read h existing) (read h add)
    unfolding merge_slices merge read
    read-merge_slices h existing add old spared =
        read-merge_rest (set_keys no_keys (read h existing)) (h, existing) add.array add.offset
          add.len (old, spared)

    pub merge_slices-Extends :
        (h : Arrays A) (existing add : Slice)
        → Extends (h, existing) (merge_slices grow blank h existing add)
    unfolding merge_slices
    merge_slices-Extends h existing add =
        merge_rest-Extends grow blank enough (set_keys no_keys (read h existing)) (h, existing)
          add.array add.offset add.len

    nil-IsSpared : (t : Slice) → IsSpared nil_slice t
    nil-IsSpared t = inr (inr (omega arith))

    -- A removal returns a slice with what is left.
    pub read-remove_slices :
        (h : Arrays A) (existing gone : Slice)
        → existing.array < h.next
        → let w' = remove_slices grow blank h existing gone in
          read w'.0 w'.1 ≡ remove (read h existing) (read h gone)
    unfolding remove_slices remove read elements
    read-remove_slices h existing gone old =
        read-keep_rest (set_keys no_keys (read h gone)) (h, nil_slice) existing.array
          existing.offset existing.len (old, nil-IsSpared existing)

    pub remove_slices-Extends :
        (h : Arrays A) (existing gone : Slice)
        → Extends (h, nil_slice) (remove_slices grow blank h existing gone)
    unfolding remove_slices
    remove_slices-Extends h existing gone =
        keep_rest-Extends grow blank enough (set_keys no_keys (read h gone)) (h, nil_slice)
          existing.array existing.offset existing.len
