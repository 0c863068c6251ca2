-- ===== src/Slice/Replace.antt =====
-- An operation that replaces the slice of one client, and what it leaves to the others.
use klever_subscriber.Base.{ℕ, ◌≤◌, ◌≡◌, List, arith, inl, inr, Comparable, ap₂, ◌∙◌}
use klever_subscriber.Sets.{merge, remove}
use klever_subscriber.Slice.{Arrays, Slice, read, clone, IsLargeEnough, nil_slice}
use klever_subscriber.Slice.Append.{
  IsSeparate, IsValid, IsSeparate-sym, IsSeparate→IsSpared, read-clone, read-clone_kept, clone-next,
  clone-IsValid, clone-IsSeparate,
}
use klever_subscriber.Slice.Extend.{Extends}
use klever_subscriber.Slice.Merge.{
  read-merge_slices, merge_slices-Extends, read-remove_slices, remove_slices-Extends,
}
use klever_subscriber.Slice.Sets.{merge_slices, remove_slices}
use klever_subscriber.Slice.Clients.{add_to, remove_from}

-- The slice of `w'` takes the place of that of `w`: whatever the latter had nothing in common with
-- keeps its elements and has nothing in common with the former.
pub record Replaces {ℓ} {A : Type ℓ} (w w' : Arrays A × Slice) : Type ℓ where
  pub next_grows : w.0.next ≤ w'.0.next
  pub valid_new : IsValid w'.0 w'.1
  pub apart_new : (t : Slice) → IsValid w.0 t → IsSeparate w.1 t → IsSeparate w'.1 t
  pub read_old : (t : Slice) → IsValid w.0 t → IsSeparate w.1 t → read w'.0 t ≡ read w.0 t

module _ {ℓ} {A : Type ℓ} (blank : A) where
  pub clone-Replaces : (w : Arrays A × Slice) (xs : List A) → Replaces w (clone blank w.0 xs)
  clone-Replaces w xs = record {
    next_grows = omega (arith, clone-next blank w.0 xs);
    valid_new = clone-IsValid blank w.0 xs;
    apart_new = λ t v o. clone-IsSeparate blank w.0 t xs v.1;
    read_old = λ t v o. read-clone_kept blank w.0 t xs v.1;
  }

module _ {ℓ} {A : Type ℓ} where
  -- A chain of appends to a slice that replaces it, after arrays have been made.
  Replaces-Extends : (u v w : Arrays A × Slice) → Replaces u v → Extends v w → Replaces u w
  Replaces-Extends u v w r x = record {
    next_grows = omega (arith, r.next_grows, x.next_grows);
    valid_new = x.valid_stays r.valid_new;
    apart_new = λ t valid o.
        x.separate_stays t (omega (arith, r.next_grows, valid.1)) (r.apart_new t valid o);
    read_old = λ t valid o.
        x.read_stays t (
          omega (arith, r.next_grows, valid.1),
          IsSeparate→IsSpared v.1 t valid.0 (r.apart_new t valid o),
        )
        ∙ r.read_old t valid o;
  }

  -- Arrays are made, and the slice is still the same.
  clone_beside :
      (blank : A) (h : Arrays A) (s : Slice) (xs : List A)
      → IsValid h s
      → Replaces (h, s) ((clone blank h xs).0, s)
  clone_beside blank h s xs valid = record {
    next_grows = omega (arith, clone-next blank h xs);
    valid_new = (valid.0, omega (arith, clone-next blank h xs, valid.1));
    apart_new = λ t v o. o;
    read_old = λ t v o. read-clone_kept blank h t xs v.1;
  }

  nil_beside :
      (blank : A) (h : Arrays A) (s : Slice) (xs : List A)
      → Replaces (h, s) ((clone blank h xs).0, nil_slice)
  nil_beside blank h s xs = record {
    next_grows = omega (arith, clone-next blank h xs);
    valid_new = (omega arith, omega (arith, clone-next blank h xs));
    apart_new = λ t v o. inr (inl (omega arith));
    read_old = λ t v o. read-clone_kept blank h t xs v.1;
  }

module _ {ℓ} {A : Type ℓ} ⦃e : Comparable A⦄ where
  module _ (grow : ℕ → ℕ → ℕ) (blank : A) (enough : IsLargeEnough grow) where
    pub add_to-Replaces :
        (h : Arrays A) (s : Slice) (xs : List A)
        → IsValid h s
        → Replaces (h, s) (add_to grow blank h s xs)
    unfolding add_to
    add_to-Replaces h s xs valid =
        let (h', types) = clone blank h xs in
        Replaces-Extends (h, s) (h', s) (merge_slices grow blank h' s types)
          (clone_beside blank h s xs valid) (merge_slices-Extends grow blank enough h' s types)

    pub read-add_to :
        (h : Arrays A) (s : Slice) (xs : List A)
        → IsValid h s
        → read (add_to grow blank h s xs).0 (add_to grow blank h s xs).1 ≡ merge (read h s) xs
    unfolding add_to
    read-add_to h s xs valid =
        let (h', types) = clone blank h xs in
        read-merge_slices grow blank enough h' s types (clone-IsValid blank h xs).1 (
          IsSeparate→IsSpared s types (clone-IsValid blank h xs).0
            (IsSeparate-sym types s (clone-IsSeparate blank h s xs valid.1)))
        ∙ ap₂ merge (read-clone_kept blank h s xs valid.1) (read-clone blank h xs)

    pub remove_from-Replaces :
        (h : Arrays A) (s : Slice) (xs : List A) → Replaces (h, s) (remove_from grow blank h s xs)
    unfolding remove_from
    remove_from-Replaces h s xs =
        let (h', types) = clone blank h xs in
        Replaces-Extends (h, s) (h', nil_slice) (remove_slices grow blank h' s types)
          (nil_beside blank h s xs) (remove_slices-Extends grow blank enough h' s types)

    pub read-remove_from :
        (h : Arrays A) (s : Slice) (xs : List A)
        → IsValid h s
        → read (remove_from grow blank h s xs).0 (remove_from grow blank h s xs).1
          ≡ remove (read h s) xs
    unfolding remove_from
    read-remove_from h s xs valid =
        let (h', types) = clone blank h xs in
        read-remove_slices grow blank enough h' s types
          (omega (arith, clone-next blank h xs, valid.1))
        ∙ ap₂ remove (read-clone_kept blank h s xs valid.1) (read-clone blank h xs)
