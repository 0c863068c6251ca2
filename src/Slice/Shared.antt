-- ===== src/Slice/Shared.antt =====
-- Two clients made from one slice with room left: what the second adds replaces what the first did.
use klever_subscriber.Base.{
  ℕ, ◌+◌, ◌<◌, ◌≡◌, refl, List, [], ◌∷◌, ◌++◌, arith, inl, inr, true, false, Comparable, ap, ◌∙◌,
  contains, leb, sym, ◌||◌,
}
use klever_subscriber.Sets.{KeySet, merge, set_keys, no_keys}
use klever_subscriber.Sets.Members.{merge_lem, fresh, set_keys_lem}
use klever_subscriber.Slice.{Arrays, Slice, read, append, clone, IsLargeEnough}
use klever_subscriber.Slice.Append.{IsValid, read-clone_kept, clone-next}
use klever_subscriber.Slice.Sets.{append_new, merge_rest, merge_slices}
use klever_subscriber.Slice.Merge.{merge_slices-Extends}
use klever_subscriber.Slice.Clients.{add_to}
use klever_subscriber.Slice.Replace.{add_to-Replaces, read-add_to}

module _ {ℓ} {A : Type ℓ} ⦃e : Comparable A⦄ where
  merge_new : (xs : List A) (x : A) → contains xs x ≡ false → merge xs (x ∷ []) ≡ xs ++ x ∷ []
  unfolding fresh
  merge_new xs x out = merge_lem xs (x ∷ []) ∙ ap (λ ys. xs ++ ys) (rw (fresh, out) refl)

  module _ (grow : ℕ → ℕ → ℕ) (blank : A) (enough : IsLargeEnough grow) where
    -- The one element of a slice that was written in the call.
    cells-clone : (h : Arrays A) (x : A) → (clone blank h (x ∷ [])).0.cells h.next 0 ≡ x
    unfolding clone
    cells-clone h x = ground arith

    -- The elements of a slice that is merged into stay where they are.
    read-add_to_self :
        (h : Arrays A) (s : Slice) (xs : List A)
        → IsValid h s
        → read (add_to grow blank h s xs).0 s ≡ read h s
    unfolding add_to
    read-add_to_self h s xs valid =
        let (h', types) = clone blank h xs in
        (merge_slices-Extends grow blank enough h' s types).read_stays s
          (omega (arith, clone-next blank h xs, valid.1), inr (inl (omega arith)))
        ∙ read-clone_kept blank h s xs valid.1

    append_new-in_place :
        (set : KeySet A) (x : A) (w : Arrays A × Slice)
        → set x ≡ false
        → w.1.len < w.1.cap
        → (append_new grow blank set x w).1 ≡ record w.1 { len = w.1.len + 1 }
    unfolding append_new append
    append_new-in_place set x w new room =
        let fits : leb (w.1.len + 1) w.1.cap ≡ true = ground arith in
        rw (append_new, append, new, fits) refl

    add_to-in_place :
        (h : Arrays A) (s : Slice) (x : A)
        → IsValid h s
        → s.len < s.cap
        → contains (read h s) x ≡ false
        → (add_to grow blank h s (x ∷ [])).1 ≡ record s { len = s.len + 1 }
    unfolding add_to merge_slices merge_rest append_new append clone
    add_to-in_place h s x valid room out =
        let (h', types) = clone blank h (x ∷ []) in
        let set = set_keys no_keys (read h' s) in
        let new =
          set_keys_lem no_keys (read h' s) x
          ∙ ap (λ xs. contains xs x || false) (read-clone_kept blank h s (x ∷ []) valid.1)
          ∙ ap (λ b. b || false) out in
        append_new-in_place set (h'.cells h.next 0) (h', s) (ap set (cells-clone h x) ∙ new) room

    -- Two clients that New made from one slice with room left in its array: if the first adds a new
    -- type and then the second another, the first holds the second's in place of its own.
    pub shared_field_overwritten :
        (h : Arrays A) (s : Slice) (x y : A)
        → IsValid h s
        → s.len < s.cap
        → contains (read h s) x ≡ false
        → contains (read h s) y ≡ false
        → let w1 = add_to grow blank h s (x ∷ []) in
          let w2 = add_to grow blank w1.0 s (y ∷ []) in
          (read w1.0 w1.1 ≡ read h s ++ x ∷ []) × (read w2.0 w1.1 ≡ read h s ++ y ∷ [])
    shared_field_overwritten h s x y valid room out_x out_y =
        let w1 = add_to grow blank h s (x ∷ []) in
        let w2 = add_to grow blank w1.0 s (y ∷ []) in
        let same = read-add_to_self h s (x ∷ []) valid in
        let made = (add_to-Replaces grow blank enough h s (x ∷ []) valid).next_grows in
        let valid1 : IsValid w1.0 s = (valid.0, omega (arith, made, valid.1)) in
        let out1 = ap (λ xs. contains xs y) same ∙ out_y in
        (
          read-add_to grow blank enough h s (x ∷ []) valid ∙ merge_new (read h s) x out_x,
          ap (read w2.0) (
                add_to-in_place h s x valid room out_x
                ∙ sym (add_to-in_place w1.0 s y valid1 room out1))
              ∙ read-add_to grow blank enough w1.0 s (y ∷ []) valid1
              ∙ ap (λ xs. merge xs (y ∷ [])) same
              ∙ merge_new (read h s) y out_y,
        )
