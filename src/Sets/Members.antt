-- ===== src/Sets/Members.antt =====
-- What the operations of subscriber/helpers.go do to the elements of a list, its order left aside.
use klever_subscriber.Base.{
  ◌≡◌, refl, true, false, not, ◌&&◌, ◌||◌, inl, inr, List, [], ◌∷◌, ◌++◌, Comparable, ◌==◌, arith,
  Bool-cases, contains, contains-append, if◌then◌else◌, beq→eq, beq_refl, IsDistinct, ◌∙◌,
  append-nil, append_assoc, sym, ap, fun_ext,
}
use klever_subscriber.Sets.{
  KeySet, no_keys, set_key, set_keys, merge_loop, merge, keep_loop, remove, diff,
}

module _ {ℓ} {A : Type ℓ} ⦃e : Comparable A⦄ where
  -- The set built by the first loop of each operation.
  pub set_keys_lem :
      (set : KeySet A) (xs : List A) (a : A) → set_keys set xs a ≡ (contains xs a || set a)
  unfolding set_keys
  set_keys_lem set [] a = refl
  set_keys_lem set (x ∷ xs) a = ground (arith, set_keys_lem (set_key x set) xs a)

  -- Equal keys are in a set together.
  keys_agree : (set : KeySet A) (x a : A) → (x == a) ≡ true → set x ≡ set a
  keys_agree set x a h = ap set (beq→eq x a h)

  -- What a merge appends: the first occurrence of each key that the set lacks.
  unfoldable pub fresh : KeySet A → List A → List A
  fresh set [] = []
  fresh set (y ∷ ys) =
      (if set y then [] else y ∷ []) ++ fresh (if set y then set else set_key y set) ys

  pub merge_loop_lem :
      (xs : List A) (set : KeySet A) (ys : List A) → merge_loop xs set ys ≡ xs ++ fresh set ys
  unfolding merge_loop fresh
  merge_loop_lem xs set [] = sym (append-nil xs)
  merge_loop_lem xs set (y ∷ ys) = elim (Bool-cases (set y)) [
    | inl old ↦ rw old (merge_loop_lem xs set ys)
    | inr new ↦
        rw new (merge_loop_lem (xs ++ y ∷ []) (set_key y set) ys ∙ append_assoc xs (y ∷ []) _)
  ]

  pub contains-fresh :
      (set : KeySet A) (ys : List A) (a : A)
      → contains (fresh set ys) a ≡ (contains ys a && not (set a))
  unfolding fresh
  contains-fresh set [] a = refl
  contains-fresh set (y ∷ ys) a = elim (Bool-cases (set y)) [
    | inl old ↦ rw old (ground (arith, contains-fresh set ys a, keys_agree set y a))
    | inr new ↦ rw new (ground (arith, contains-fresh (set_key y set) ys a, keys_agree set y a))
  ]

  pub fresh-IsDistinct : (set : KeySet A) (ys : List A) → IsDistinct (fresh set ys)
  unfolding fresh
  fresh-IsDistinct set [] = tt
  fresh-IsDistinct set (y ∷ ys) = elim (Bool-cases (set y)) [
    | inl old ↦ rw old (fresh-IsDistinct set ys)
    | inr new ↦ rw new (
      ground (arith, contains-fresh (set_key y set) ys y, beq_refl y),
      fresh-IsDistinct (set_key y set) ys,
    )
  ]

  -- Keeping the elements that the set lacks, as a plain recursion.
  unfoldable pub keep : KeySet A → List A → List A
  keep set [] = []
  keep set (x ∷ xs) = (if set x then [] else x ∷ []) ++ keep set xs

  pub keep_loop_lem :
      (out : List A) (set : KeySet A) (xs : List A) → keep_loop out set xs ≡ out ++ keep set xs
  unfolding keep_loop keep
  keep_loop_lem out set [] = sym (append-nil out)
  keep_loop_lem out set (x ∷ xs) = elim (Bool-cases (set x)) [
    | inl old ↦ rw old (keep_loop_lem out set xs)
    | inr new ↦ rw new (keep_loop_lem (out ++ x ∷ []) set xs ∙ append_assoc out (x ∷ []) _)
  ]

  pub contains-keep :
      (set : KeySet A) (xs : List A) (a : A)
      → contains (keep set xs) a ≡ (contains xs a && not (set a))
  unfolding keep
  contains-keep set [] a = refl
  contains-keep set (x ∷ xs) a = ground (arith, contains-keep set xs a, keys_agree set x a)

  abbrev pub keys_of : List A → KeySet A
  keys_of xs = λ a. contains xs a || false

  set_keys-keys_of : (xs : List A) → set_keys no_keys xs ≡ keys_of xs
  set_keys-keys_of xs = fun_ext (set_keys_lem no_keys xs)

  pub merge_lem : (xs ys : List A) → merge xs ys ≡ xs ++ fresh (keys_of xs) ys
  unfolding merge
  merge_lem xs ys = rw (← set_keys-keys_of xs) (merge_loop_lem xs (set_keys no_keys xs) ys)

  pub remove_lem : (xs ys : List A) → remove xs ys ≡ keep (keys_of ys) xs
  unfolding remove
  remove_lem xs ys = rw (← set_keys-keys_of ys) (keep_loop_lem [] (set_keys no_keys ys) xs)

  pub diff_lem : (xs ys : List A) → diff xs ys ≡ keep (keys_of ys) xs
  unfolding diff
  diff_lem xs ys = rw (← set_keys-keys_of ys) (keep_loop_lem [] (set_keys no_keys ys) xs)

  -- An element is in a merge exactly if it is in one of the two lists.
  pub contains-merge :
      (xs ys : List A) (a : A) → contains (merge xs ys) a ≡ (contains xs a || contains ys a)
  contains-merge xs ys a =
      rw
        (
          merge_lem xs ys,
          contains-append xs (fresh (keys_of xs) ys) a,
          contains-fresh (keys_of xs) ys a,
        )
        (ground arith)

  -- An element is left by a removal exactly if it was there and is not among what is removed.
  pub contains-remove :
      (xs ys : List A) (a : A) → contains (remove xs ys) a ≡ (contains xs a && not (contains ys a))
  contains-remove xs ys a = rw (remove_lem xs ys, contains-keep (keys_of ys) xs a) (ground arith)

  -- An element is in a difference exactly if it is in the first list and not in the second.
  pub contains-diff :
      (xs ys : List A) (a : A) → contains (diff xs ys) a ≡ (contains xs a && not (contains ys a))
  contains-diff xs ys a = rw (diff_lem xs ys, contains-keep (keys_of ys) xs a) (ground arith)
