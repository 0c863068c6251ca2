-- ===== src/Slice/Runs.antt =====
-- Programs in which nobody else holds the slices of the clients.
use klever_subscriber.Base.{
  ℕ, ◌≡◌, refl, List, [], ◌∷◌, ◌++◌, arith, inl, inr, Comparable, get_elem?, ap, ◌∙◌, Option-cases,
  Bool-cases, ltb,
}
use klever_subscriber.Sets.{merge, remove}
use klever_subscriber.Slice.{read, IsLargeEnough, nil_slice}
use klever_subscriber.Slice.Append.{read-clone}
use klever_subscriber.Slice.Clients.{
  Clients, Action, creates, adds, removes, reconfigures, asks, assigns, add_to, remove_from,
  keep_slice, get_types, act_on, act_all, change, act_on_lists, act_on_lists_all, no_clients,
}
use klever_subscriber.Slice.Replace.{
  clone-Replaces, add_to-Replaces, read-add_to, remove_from-Replaces, read-remove_from,
}
use klever_subscriber.Slice.Owned.{IsOwned, held_lists}
use klever_subscriber.Slice.Owned.{at_field-IsOwned, at_field-held}
use klever_subscriber.Slice.Held.{
  no_clients-IsOwned, with_field-held, with_field-IsOwned, with_returned-IsOwned, assigned-held,
  assigned-IsOwned, kept_lists,
}

module _ {ℓ} {A : Type ℓ} ⦃e : Comparable A⦄ where
  module _ (grow : ℕ → ℕ → ℕ) (blank : A) (enough : IsLargeEnough grow) where
    act_on-IsOwned : (w : Clients A) (a : Action A) → IsOwned w → IsOwned (act_on grow blank w a)
    unfolding act_on keep_slice get_types
    act_on-IsOwned w (creates xs) o =
        with_field-IsOwned w o (keep_slice blank w.memory xs)
          (clone-Replaces blank (w.memory, nil_slice) xs)
    act_on-IsOwned w (adds k xs) o =
        at_field-IsOwned w o k (λ s. add_to grow blank w.memory s xs)
          (λ s at. add_to-Replaces grow blank enough w.memory s xs (o.field_valid k s at))
    act_on-IsOwned w (removes k xs) o =
        at_field-IsOwned w o k (λ s. remove_from grow blank w.memory s xs)
          (λ s at. remove_from-Replaces grow blank enough w.memory s xs)
    act_on-IsOwned w (reconfigures k xs) o =
        at_field-IsOwned w o k (λ s. keep_slice blank w.memory xs)
          (λ s at. clone-Replaces blank (w.memory, s) xs)
    act_on-IsOwned w (asks k) o = elim (Option-cases (get_elem? w.fields k)) [
      | inl none_there ↦ rw (act_on, none_there) o
      | inr (s, at) ↦
          rw (act_on, at)
            (with_returned-IsOwned w o (get_types blank w.memory s)
              (clone-Replaces blank (w.memory, nil_slice) (read w.memory s)))
    ]
    act_on-IsOwned w (assigns n pos x) o = elim (Option-cases (get_elem? w.returned n)) [
      | inl none_there ↦ rw (act_on, none_there) o
      | inr (s, at) ↦ elim (Bool-cases (ltb pos s.len)) [
        | inl within ↦ rw (act_on, at, within) (assigned-IsOwned w o n s at pos x (ground arith))
        | inr out ↦ rw (act_on, at, out) o
      ]
    ]

    act_on-held :
        (w : Clients A) (a : Action A)
        → IsOwned w
        → held_lists (act_on grow blank w a) ≡ act_on_lists (held_lists w) a
    unfolding act_on act_on_lists change keep_slice get_types
    act_on-held w (creates xs) o =
        with_field-held w o (keep_slice blank w.memory xs)
          (clone-Replaces blank (w.memory, nil_slice) xs)
        ∙ ap (λ ys. held_lists w ++ ys ∷ []) (read-clone blank w.memory xs)
    act_on-held w (adds k xs) o =
        at_field-held w o k (λ s. add_to grow blank w.memory s xs) (λ types. merge types xs)
          (λ s at. add_to-Replaces grow blank enough w.memory s xs (o.field_valid k s at))
          (λ s at. read-add_to grow blank enough w.memory s xs (o.field_valid k s at))
    act_on-held w (removes k xs) o =
        at_field-held w o k (λ s. remove_from grow blank w.memory s xs) (λ types. remove types xs)
          (λ s at. remove_from-Replaces grow blank enough w.memory s xs)
          (λ s at. read-remove_from grow blank enough w.memory s xs (o.field_valid k s at))
    act_on-held w (reconfigures k xs) o =
        at_field-held w o k (λ s. keep_slice blank w.memory xs) (λ types. xs)
          (λ s at. clone-Replaces blank (w.memory, s) xs) (λ s at. read-clone blank w.memory xs)
    act_on-held w (asks k) o = elim (Option-cases (get_elem? w.fields k)) [
      | inl none_there ↦ rw (act_on, none_there) refl
      | inr (s, at) ↦
          rw (act_on, at)
            (kept_lists w o (get_types blank w.memory s)
              (clone-Replaces blank (w.memory, nil_slice) (read w.memory s)))
    ]
    act_on-held w (assigns n pos x) o = elim (Option-cases (get_elem? w.returned n)) [
      | inl none_there ↦ rw (act_on, none_there) refl
      | inr (s, at) ↦ elim (Bool-cases (ltb pos s.len)) [
        | inl within ↦ rw (act_on, at, within) (assigned-held w o n s at pos x (ground arith))
        | inr out ↦ rw (act_on, at, out) refl
      ]
    ]

    act_all-held :
        (w : Clients A) (as' : List (Action A))
        → IsOwned w
        → held_lists (act_all grow blank w as') ≡ act_on_lists_all (held_lists w) as'
    unfolding act_all act_on_lists_all
    act_all-held w [] o = refl
    act_all-held w (a ∷ as') o =
        act_all-held (act_on grow blank w a) as' (act_on-IsOwned w a o)
        ∙ ap (λ held. act_on_lists_all held as') (act_on-held w a o)

    -- In a program that writes the slices of its calls where it calls and assigns at will to the
    -- elements of those that Types returned, every client holds exactly what a client with a list
    -- of its own would hold: no client sees a change of another, nor an assignment of a caller.
    pub lists_are_private :
        (as' : List (Action A))
        → held_lists (act_all grow blank (no_clients blank) as') ≡ act_on_lists_all [] as'
    lists_are_private as' = act_all-held (no_clients blank) as' (no_clients-IsOwned blank)
