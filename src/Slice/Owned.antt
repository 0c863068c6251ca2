-- ===== src/Slice/Owned.antt =====
-- Clients whose slices nobody else holds: each behaves as one that holds a list.
use mathlib.Core.Option
use klever_subscriber.Base.{
  Option-cases, ◌⊎◌, ℕ, zero, suc, ◌≡◌, ◌≢◌, refl, List, [], ◌∷◌, some, arith, inl, inr, get_elem?,
  set, map, ap, ap₂, subst, ◌∙◌, beq→eq, beq-ne, get_elem?-set, Bool-cases, ◌==◌, nat_eq, sym,
}
use klever_subscriber.Slice.{Arrays, Slice, read}
use klever_subscriber.Slice.Append.{IsSeparate, IsValid, IsSeparate-sym}
use klever_subscriber.Slice.Clients.{at_field, change, Clients, put_field}
use klever_subscriber.Slice.Replace.{Replaces}

-- No two fields have a cell in common, nor has a field one with a slice that `Types` returned.
pub record IsOwned {ℓ} {A : Type ℓ} (w : Clients A) : Type ℓ where
  pub field_valid : (i : ℕ) (s : Slice) → get_elem? w.fields i ≡ some s → IsValid w.memory s
  pub returned_valid : (i : ℕ) (s : Slice) → get_elem? w.returned i ≡ some s → IsValid w.memory s
  pub fields_apart :
      (i j : ℕ) (s t : Slice)
      → i ≢ j
      → get_elem? w.fields i ≡ some s
      → get_elem? w.fields j ≡ some t
      → IsSeparate s t
  pub returned_apart :
      (i j : ℕ) (s t : Slice)
      → get_elem? w.fields i ≡ some s
      → get_elem? w.returned j ≡ some t
      → IsSeparate s t

-- What the clients' fields read as.
abbrev pub held_lists {ℓ} : {A : Type ℓ} → Clients A → List (List A)
held_lists w = map (read w.memory) w.fields

module _ {ℓ} {A : Type ℓ} where
  pub map-agree :
      (h h' : Arrays A) (xs : List Slice)
      → ((i : ℕ) (t : Slice) → get_elem? xs i ≡ some t → read h' t ≡ read h t)
      → map (read h') xs ≡ map (read h) xs
  map-agree h h' [] same = refl
  map-agree h h' (x ∷ xs) same =
      ap₂ (◌∷◌) (same 0 x refl) (map-agree h h' xs (λ i t at. same (suc i) t at))

  map-put :
      (h h' : Arrays A) (xs : List Slice) (k : ℕ) (s' : Slice)
      → ((i : ℕ) (t : Slice) → i ≢ k → get_elem? xs i ≡ some t → read h' t ≡ read h t)
      → map (read h') (set xs k s') ≡ set (map (read h) xs) k (read h' s')
  map-put h h' [] k s' same = refl
  map-put h h' (x ∷ xs) zero s' same =
      ap (◌∷◌ (read h' s')) (map-agree h h' xs (λ i t at. same (suc i) t (λ q. omega arith) at))
  map-put h h' (x ∷ xs) (suc k) s' same =
      ap₂ (◌∷◌) (same 0 x (λ q. omega arith) refl)
        (map-put h h' xs k s' (λ i t far at. same (suc i) t (λ q. far (omega arith)) at))

  -- A valid slice stays so when another is replaced.
  pub still_valid :
      (w w' : Arrays A × Slice) (t : Slice) → Replaces w w' → IsValid w.0 t → IsValid w'.0 t
  still_valid w w' t r v = (v.0, omega (arith, v.1, r.next_grows))

  module _ (w : Clients A) (o : IsOwned w) where
    module _ (k : ℕ) (s : Slice) (at : get_elem? w.fields k ≡ some s) (w' : Arrays A × Slice)
        (r : Replaces (w.memory, s) w') where
      pub put_field-held : held_lists (put_field w k w') ≡ set (held_lists w) k (read w'.0 w'.1)
      put_field-held = map-put w.memory w'.0 w.fields k w'.1 (λ i t far there.
          r.read_old t (o.field_valid i t there)
            (o.fields_apart k i s t (λ q. far (sym q)) at there))

      -- A field of the clients after the change, before it.
      field_before :
          (i : ℕ) (t : Slice)
          → get_elem? (set w.fields k w'.1) i ≡ some t
          → ((i ≡ k) × (t ≡ w'.1)) ⊎ ((i ≢ k) × (get_elem? w.fields i ≡ some t))
      field_before i t there =
          let seen = get_elem?-set w.fields k i w'.1 at in
          elim (Bool-cases (k == i)) [
            | inl q ↦ inl (sym (beq→eq k i q), ground (arith, seen))
            | inr n ↦ inr (λ p. beq-ne k i n (sym p), ground (arith, seen))
          ]

      pub put_field-IsOwned : IsOwned (put_field w k w')
      put_field-IsOwned = record {
        field_valid = λ i t there. elim (field_before i t there) [
          | inl (q, new) ↦ subst (IsValid w'.0) (sym new) r.valid_new
          | inr (far, old) ↦ still_valid (w.memory, s) w' t r (o.field_valid i t old)
        ];
        returned_valid = λ i t there. still_valid (w.memory, s) w' t r (o.returned_valid i t there);
        fields_apart = λ i j t u far there over. elim (field_before i t there) [
          | inl (q, new) ↦ elim (field_before j u over) [
            | inl (q', new') ↦ absurd (far (q ∙ sym q'))
            | inr (other, old) ↦
                subst (λ x. IsSeparate x u) (sym new)
                  (r.apart_new u (o.field_valid j u old)
                    (o.fields_apart k j s u (λ p. other (sym p)) at old))
          ]
          | inr (other, old) ↦ elim (field_before j u over) [
            | inl (q, new) ↦ subst (IsSeparate t) (sym new) (
                IsSeparate-sym w'.1 t (
                  r.apart_new t (o.field_valid i t old)
                    (o.fields_apart k i s t (λ p. other (sym p)) at old)))
            | inr (other', old') ↦ o.fields_apart i j t u far old old'
          ]
        ];
        returned_apart = λ i j t u there over. elim (field_before i t there) [
          | inl (q, new) ↦
              subst (λ x. IsSeparate x u) (sym new)
                (r.apart_new u (o.returned_valid j u over) (o.returned_apart k j s u at over))
          | inr (other, old) ↦ o.returned_apart i j t u old over
        ];
      }

  get_elem?-map :
      (f : Slice → List A) (xs : List Slice) (k : ℕ)
      → get_elem? (map f xs) k ≡ Option.map f (get_elem? xs k)
  get_elem?-map f [] k = refl
  get_elem?-map f (x ∷ xs) zero = refl
  get_elem?-map f (x ∷ xs) (suc k) = get_elem?-map f xs k

  module _ (w : Clients A) (o : IsOwned w) (k : ℕ) (f : Slice → Arrays A × Slice) where
    pub at_field-IsOwned :
        ((s : Slice) → get_elem? w.fields k ≡ some s → Replaces (w.memory, s) (f s))
        → IsOwned (at_field w k f)
    unfolding at_field
    at_field-IsOwned r = elim (Option-cases (get_elem? w.fields k)) [
      | inl out ↦ rw (at_field, out) o
      | inr (s, at) ↦ rw (at_field, at) (put_field-IsOwned w o k s at (f s) (r s at))
    ]

    pub at_field-held :
        (g : List A → List A)
        → ((s : Slice) → get_elem? w.fields k ≡ some s → Replaces (w.memory, s) (f s))
        → ((s : Slice) → get_elem? w.fields k ≡ some s → read (f s).0 (f s).1 ≡ g (read w.memory s))
        → held_lists (at_field w k f) ≡ change g (held_lists w) k
    unfolding at_field change
    at_field-held g r same = elim (Option-cases (get_elem? w.fields k)) [
      | inl out ↦ rw (at_field, change, out, get_elem?-map (read w.memory) w.fields k, out) refl
      | inr (s, at) ↦
          rw (at_field, change, at, get_elem?-map (read w.memory) w.fields k, at)
            (put_field-held w o k s at (f s) (r s at) ∙ ap (set (held_lists w) k) (same s at))
    ]
