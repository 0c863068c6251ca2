-- ===== src/Sets/Order.antt =====
-- The operations of subscriber/helpers.go as operations on lists: order, duplicates, inverses.
use klever_subscriber.Base.{
  ◌≡◌, refl, true, false, inl, inr, List, [], ◌∷◌, ◌++◌, Comparable, arith, Bool-cases, contains,
  contains-append, append-nil, beq_refl, IsDistinct, ◌∙◌, ap,
}
use klever_subscriber.Sets.{KeySet, merge, remove, diff}
use klever_subscriber.Sets.Members.{
  fresh, contains-fresh, fresh-IsDistinct, keep, contains-keep, keys_of, merge_lem, remove_lem,
  diff_lem, contains-merge,
}

module _ {ℓ} {A : Type ℓ} ⦃e : Comparable A⦄ where
  -- Every element of the one list is an element of the other.
  abbrev pub IsWithin : List A → List A → Type ℓ
  IsWithin xs ys = (a : A) → contains xs a ≡ true → contains ys a ≡ true

  -- The two lists have no element in common.
  abbrev pub IsApart : List A → List A → Type ℓ
  IsApart xs ys = (a : A) → contains xs a ≡ true → contains ys a ≡ false

  IsWithin-tail : (x : A) (xs ys : List A) → IsWithin (x ∷ xs) ys → IsWithin xs ys
  IsWithin-tail x xs ys h a c = h a (ground arith)

  IsDistinct-append :
      (xs ys : List A) → IsDistinct xs → IsDistinct ys → IsApart xs ys → IsDistinct (xs ++ ys)
  IsDistinct-append [] ys hx hy h = hy
  IsDistinct-append (x ∷ xs) ys hx hy h = (
    ground (arith, contains-append xs ys x, h x, beq_refl x),
    IsDistinct-append xs ys hx.1 hy (λ a c. h a (ground arith)),
  )

  fresh_none :
      (set : KeySet A) (ys : List A)
      → ((a : A) → contains ys a ≡ true → set a ≡ true)
      → fresh set ys ≡ []
  unfolding fresh
  fresh_none set [] h = refl
  fresh_none set (y ∷ ys) h =
      rw (h y (ground (arith, beq_refl y))) (fresh_none set ys (λ a c. h a (ground arith)))

  keep_all :
      (set : KeySet A) (xs : List A)
      → ((a : A) → contains xs a ≡ true → set a ≡ false)
      → keep set xs ≡ xs
  unfolding keep
  keep_all set [] h = refl
  keep_all set (x ∷ xs) h =
      rw (h x (ground (arith, beq_refl x)))
        (ap (◌∷◌ x) (keep_all set xs (λ a c. h a (ground arith))))

  keep_none :
      (set : KeySet A) (xs : List A)
      → ((a : A) → contains xs a ≡ true → set a ≡ true)
      → keep set xs ≡ []
  unfolding keep
  keep_none set [] h = refl
  keep_none set (x ∷ xs) h =
      rw (h x (ground (arith, beq_refl x))) (keep_none set xs (λ a c. h a (ground arith)))

  keep-append : (set : KeySet A) (xs ys : List A) → keep set (xs ++ ys) ≡ keep set xs ++ keep set ys
  unfolding keep
  keep-append set [] ys = refl
  keep-append set (x ∷ xs) ys = elim (Bool-cases (set x)) [
    | inl old ↦ rw old (keep-append set xs ys)
    | inr new ↦ rw new (ap (◌∷◌ x) (keep-append set xs ys))
  ]

  keep-IsDistinct : (set : KeySet A) (xs : List A) → IsDistinct xs → IsDistinct (keep set xs)
  unfolding keep
  keep-IsDistinct set [] h = tt
  keep-IsDistinct set (x ∷ xs) h = elim (Bool-cases (set x)) [
    | inl old ↦ rw old (keep-IsDistinct set xs h.1)
    | inr new ↦ rw new (ground (arith, contains-keep set xs x), keep-IsDistinct set xs h.1)
  ]

  -- A merge leaves what was there in place, in order, and appends new elements, each once.
  pub merge-prefix :
      (xs ys : List A)
      → (new : List A) × (merge xs ys ≡ xs ++ new)
        × IsDistinct new
        × IsApart xs new
        × IsWithin new ys
  merge-prefix xs ys = (
    fresh (keys_of xs) ys,
    merge_lem xs ys,
    fresh-IsDistinct (keys_of xs) ys,
    λ a c. ground (arith, contains-fresh (keys_of xs) ys a),
    λ a c. ground (arith, contains-fresh (keys_of xs) ys a),
  )

  pub merge-IsDistinct : (xs ys : List A) → IsDistinct xs → IsDistinct (merge xs ys)
  merge-IsDistinct xs ys h =
      let (new, eq, distinct, apart, _) = merge-prefix xs ys in
      rw eq (IsDistinct-append xs new h distinct apart)

  -- Merging the same elements again changes nothing.
  pub merge_idem : (xs ys : List A) → merge (merge xs ys) ys ≡ merge xs ys
  merge_idem xs ys =
      merge_lem (merge xs ys) ys
      ∙ (rw (fresh_none (keys_of (merge xs ys)) ys λ a c. ground (arith, contains-merge xs ys a))
          (append-nil (merge xs ys)))

  pub remove-IsDistinct : (xs ys : List A) → IsDistinct xs → IsDistinct (remove xs ys)
  remove-IsDistinct xs ys h = rw (remove_lem xs ys) (keep-IsDistinct (keys_of ys) xs h)

  -- Removing what a merge added gives the list back, in its order, if none of it was there before.
  pub remove-merge : (xs ys : List A) → IsApart xs ys → remove (merge xs ys) ys ≡ xs
  remove-merge xs ys h =
      rw
        (
          remove_lem (merge xs ys) ys,
          merge_lem xs ys,
          keep-append (keys_of ys) xs (fresh (keys_of xs) ys),
          keep_all (keys_of ys) xs (λ a c. ground (arith, h a)),
          keep_none (keys_of ys) (fresh (keys_of xs) ys)
              (λ a c. ground (arith, contains-fresh (keys_of xs) ys a)),
        )
        (append-nil xs)

  -- A difference is empty where nothing is missing.
  pub diff-eq-nil : (xs ys : List A) → IsWithin xs ys → diff xs ys ≡ []
  diff-eq-nil xs ys h = rw (diff_lem xs ys) (keep_none (keys_of ys) xs λ a c. ground (arith, h a))
