-- ===== src/Slice/Clients.antt =====
-- subscriber/subscriber.go, subscriber/subscription.go: the slices that clients hold in their field
-- `types`, and those that `Types` hands out. The field `addresses` has arrays of another type, so
-- that it never shares one with `types`, and the same operations: this is the model of either.
use klever_subscriber.Base.{
  ℕ, ◌+◌, List, [], ◌∷◌, ◌++◌, none, some, Comparable, get_elem?, set, ltb, if◌then◌else◌,
}
use klever_subscriber.Sets.{merge, remove}
use klever_subscriber.Slice.{Arrays, Slice, read, write, clone, no_arrays}
use klever_subscriber.Slice.Sets.{merge_slices, remove_slices}

-- The field of each client, and the slices that `Types` has returned to the callers.
pub record Clients {ℓ} (A : Type ℓ) : Type ℓ where
  pub memory : Arrays A
  pub fields : List Slice
  pub returned : List Slice

abbrev pub no_clients {ℓ} : {A : Type ℓ} → A → Clients A
no_clients blank = record { memory = no_arrays blank; fields = []; returned = [] }

-- What a program does that writes the slices of its calls where it calls, as in
-- `AddSubscriptions(ctx, []EventType{…}, nil)`, and assigns to elements of those it was returned.
pub data Action {ℓ} (A : Type ℓ) : Type ℓ where
  creates : List A → Action A
  adds : ℕ → List A → Action A
  removes : ℕ → List A → Action A
  reconfigures : ℕ → List A → Action A
  asks : ℕ → Action A
  assigns : ℕ → ℕ → A → Action A

abbrev pub put_field {ℓ} : {A : Type ℓ} → Clients A → ℕ → Arrays A × Slice → Clients A
put_field w k (h, field) = record w { memory = h; fields = set w.fields k field }

-- A client's field takes the slice that an operation on it returns.
unfoldable pub at_field {ℓ} : {A : Type ℓ} → Clients A → ℕ → (Slice → Arrays A × Slice) → Clients A
at_field w k f = elim (get_elem? w.fields k) [ none ↦ w | some field ↦ put_field w k (f field) ]

module _ {ℓ} {A : Type ℓ} (blank : A) where
  -- `New` and the end of `Reconfigure` keep the slice of the call.
  unfoldable pub keep_slice : Arrays A → List A → Arrays A × Slice
  unfolding clone
  keep_slice h xs = clone blank h xs

  -- `Types`
  unfoldable pub get_types : Arrays A → Slice → Arrays A × Slice
  unfolding clone read
  get_types h field = clone blank h (read h field)

module _ {ℓ} {A : Type ℓ} ⦃e : Comparable A⦄ (grow : ℕ → ℕ → ℕ) (blank : A) where
  -- `s.types = mergeTypes(s.types, types)`
  unfoldable pub add_to : Arrays A → Slice → List A → Arrays A × Slice
  unfolding clone merge_slices
  add_to h field xs = let (h', types) = clone blank h xs in merge_slices grow blank h' field types

  -- `s.types = removeTypes(s.types, types)`
  unfoldable pub remove_from : Arrays A → Slice → List A → Arrays A × Slice
  unfolding clone remove_slices
  remove_from h field xs =
      let (h', types) = clone blank h xs in remove_slices grow blank h' field types

  unfoldable pub act_on : Clients A → Action A → Clients A
  unfolding at_field add_to remove_from keep_slice get_types write
  act_on w (creates xs) =
      let (h, field) = keep_slice blank w.memory xs in
      record w { memory = h; fields = w.fields ++ field ∷ [] }
  act_on w (adds k xs) = at_field w k (λ field. add_to w.memory field xs)
  act_on w (removes k xs) = at_field w k (λ field. remove_from w.memory field xs)
  act_on w (reconfigures k xs) = at_field w k (λ field. keep_slice blank w.memory xs)
  act_on w (asks k) = elim (get_elem? w.fields k) [
    | none ↦ w
    | some field ↦
        let (h, types) = get_types blank w.memory field in
        record w { memory = h; returned = w.returned ++ types ∷ [] }
  ]
  act_on w (assigns n pos x) = elim (get_elem? w.returned n) [
    | none ↦ w
    | some types ↦
        if ltb pos types.len
        then record w { memory = write w.memory types.array (types.offset + pos) x }
        else w
  ]

  unfoldable pub act_all : Clients A → List (Action A) → Clients A
  unfolding act_on
  act_all w [] = w
  act_all w (a ∷ as') = act_all (act_on w a) as'

-- An operation on the list of one client.
unfoldable pub change {ℓ} : {A : Type ℓ} → (List A → List A) → List (List A) → ℕ → List (List A)
change f held k = elim (get_elem? held k) [ none ↦ held | some xs ↦ set held k (f xs) ]

-- The same actions where each client holds a list.
module _ {ℓ} {A : Type ℓ} ⦃e : Comparable A⦄ where
  unfoldable pub act_on_lists : List (List A) → Action A → List (List A)
  unfolding change
  act_on_lists held (creates xs) = held ++ xs ∷ []
  act_on_lists held (adds k xs) = change (λ types. merge types xs) held k
  act_on_lists held (removes k xs) = change (λ types. remove types xs) held k
  act_on_lists held (reconfigures k xs) = change (λ types. xs) held k
  act_on_lists held (asks k) = held
  act_on_lists held (assigns n pos x) = held

  unfoldable pub act_on_lists_all : List (List A) → List (Action A) → List (List A)
  unfolding act_on_lists
  act_on_lists_all held [] = held
  act_on_lists_all held (a ∷ as') = act_on_lists_all (act_on_lists held a) as'
