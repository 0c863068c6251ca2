-- ===== src/Slice/Held.antt =====
-- Slices that come to be held, and assignments to those that `Types` returned.
use klever_subscriber.Base.{
  ℕ, ◌+◌, ◌<◌, ◌≡◌, refl, List, [], ◌∷◌, ◌++◌, some, arith, inl, inr, get_elem?, map, ap, subst,
  ◌∙◌, get_elem?-snoc, sym,
}
use klever_subscriber.Slice.{Arrays, Slice, read, write, nil_slice}
use klever_subscriber.Slice.Cells.{read-write, IsApart}
use klever_subscriber.Slice.Append.{IsSeparate, IsValid, IsSeparate-sym}
use klever_subscriber.Slice.Clients.{Clients, no_clients}
use klever_subscriber.Slice.Replace.{Replaces}
use klever_subscriber.Slice.Owned.{IsOwned, held_lists, map-agree, still_valid}

nil-IsSeparate : (t : Slice) → IsSeparate nil_slice t
nil-IsSeparate t = inr (inl (omega arith))

module _ {ℓ} {A : Type ℓ} where
  pub no_clients-IsOwned : (blank : A) → IsOwned (no_clients blank)
  no_clients-IsOwned blank = record {
    field_valid = λ i s at. cc;
    returned_valid = λ i s at. cc;
    fields_apart = λ i j s t far at over. cc;
    returned_apart = λ i j s t at over. cc;
  }

  map-snoc :
      (f : Slice → List A) (xs : List Slice) (x : Slice)
      → map f (xs ++ x ∷ []) ≡ map f xs ++ f x ∷ []
  map-snoc f [] x = refl
  map-snoc f (y ∷ xs) x = ap (◌∷◌ (f y)) (map-snoc f xs x)

  module _ (w : Clients A) (o : IsOwned w) where
    module _ (w' : Arrays A × Slice) (r : Replaces (w.memory, nil_slice) w') where
      abbrev with_field : Clients A
      with_field = record w { memory = w'.0; fields = w.fields ++ w'.1 ∷ [] }

      abbrev with_returned : Clients A
      with_returned = record w { memory = w'.0; returned = w.returned ++ w'.1 ∷ [] }

      pub kept_lists : map (read w'.0) w.fields ≡ held_lists w
      kept_lists =
          map-agree w.memory w'.0 w.fields
            (λ i t at. r.read_old t (o.field_valid i t at) (nil-IsSeparate t))

      pub with_field-held : held_lists with_field ≡ held_lists w ++ read w'.0 w'.1 ∷ []
      with_field-held =
          map-snoc (read w'.0) w.fields w'.1 ∙ ap (λ held. held ++ read w'.0 w'.1 ∷ []) kept_lists

      apart_old : (i : ℕ) (t : Slice) → IsValid w.memory t → IsSeparate w'.1 t
      apart_old i t v = r.apart_new t v (nil-IsSeparate t)

      keeps_valid : (t : Slice) → IsValid w.memory t → IsValid w'.0 t
      keeps_valid t = still_valid (w.memory, nil_slice) w' t r

      pub with_field-IsOwned : IsOwned with_field
      with_field-IsOwned = record {
        field_valid = λ i t at. elim (get_elem?-snoc w.fields w'.1 i at) [
          | inl old ↦ keeps_valid t (o.field_valid i t old)
          | inr (q, new) ↦ subst (IsValid w'.0) (sym new) r.valid_new
        ];
        returned_valid = λ i t at. keeps_valid t (o.returned_valid i t at);
        fields_apart = λ i j t u far at over. elim (get_elem?-snoc w.fields w'.1 i at) [
          | inl old ↦ elim (get_elem?-snoc w.fields w'.1 j over) [
            | inl old' ↦ o.fields_apart i j t u far old old'
            | inr (q, new) ↦
                subst (IsSeparate t) (sym new)
                  (IsSeparate-sym w'.1 t (apart_old i t (o.field_valid i t old)))
          ]
          | inr (q, new) ↦ elim (get_elem?-snoc w.fields w'.1 j over) [
            | inl old ↦
                subst (λ x. IsSeparate x u) (sym new) (apart_old j u (o.field_valid j u old))
            | inr (q', new') ↦ absurd (far (q ∙ sym q'))
          ]
        ];
        returned_apart = λ i j t u at over. elim (get_elem?-snoc w.fields w'.1 i at) [
          | inl old ↦ o.returned_apart i j t u old over
          | inr (q, new) ↦
              subst (λ x. IsSeparate x u) (sym new) (apart_old j u (o.returned_valid j u over))
        ];
      }

      pub with_returned-IsOwned : IsOwned with_returned
      with_returned-IsOwned = record {
        field_valid = λ i t at. keeps_valid t (o.field_valid i t at);
        returned_valid = λ i t at. elim (get_elem?-snoc w.returned w'.1 i at) [
          | inl old ↦ keeps_valid t (o.returned_valid i t old)
          | inr (q, new) ↦ subst (IsValid w'.0) (sym new) r.valid_new
        ];
        fields_apart = λ i j t u. o.fields_apart i j t u;
        returned_apart = λ i j t u at over. elim (get_elem?-snoc w.returned w'.1 j over) [
          | inl old ↦ o.returned_apart i j t u at old
          | inr (q, new) ↦
              subst (IsSeparate t) (sym new)
                (IsSeparate-sym w'.1 t (apart_old i t (o.field_valid i t at)))
        ];
      }

    -- An assignment to an element of a slice that was returned.
    module _ (n : ℕ) (s : Slice) (at : get_elem? w.returned n ≡ some s) (pos : ℕ) (x : A)
        (within : pos < s.len) where
      abbrev assigned : Clients A
      assigned = record w { memory = write w.memory s.array (s.offset + pos) x }

      pub assigned-held : held_lists assigned ≡ held_lists w
      assigned-held = map-agree w.memory assigned.memory w.fields (λ i t there.
          read-write w.memory s.array (s.offset + pos) x t
            (out t (o.field_valid i t there) (o.returned_apart i n t s there at)))
        where
          out :
              (t : Slice)
              → IsValid w.memory t
              → IsSeparate t s
              → IsApart t s.array (s.offset + pos) 1
          out t v (inl far) = inl far
          out t v (inr (inl before)) = inr (inl (omega arith))
          out t v (inr (inr after)) = inr (inr (omega (arith, o.returned_valid n s at)))

      pub assigned-IsOwned : IsOwned assigned
      unfolding write
      assigned-IsOwned = record {
        field_valid = o.field_valid;
        returned_valid = o.returned_valid;
        fields_apart = o.fields_apart;
        returned_apart = o.returned_apart;
      }
