-- ===== src/Slice/Extend.antt =====
-- What a chain of `append`s to one slice leaves to the others.
use klever_subscriber.Base.{
  ℕ, zero, suc, ◌≤◌, ◌<◌, ◌≡◌, refl, [], ◌∷◌, arith, inl, inr, Bool-cases, Comparable, ◌∙◌,
  if◌then◌else◌,
}
use klever_subscriber.Sets.{KeySet, set_key}
use klever_subscriber.Slice.{Arrays, Slice, read, append, IsLargeEnough}
use klever_subscriber.Slice.Append.{
  IsSpared, IsSeparate, IsValid, read-append_kept, append-IsValid, append-IsSpared, append-next,
  append-IsSeparate,
}
use klever_subscriber.Slice.Sets.{append_new, merge_rest, keep_rest}

-- The arrays, with the slice that is appended to.
abbrev pub Growing {ℓ} : Type ℓ → Type ℓ
Growing A = Arrays A × Slice

-- A slice that appending leaves alone, in an array that there is.
abbrev pub IsSafe {ℓ} : {A : Type ℓ} → Growing A → Slice → Type 0
IsSafe w t = (t.array < w.0.next) × IsSpared w.1 t

pub record Extends {ℓ} {A : Type ℓ} (w w' : Growing A) : Type ℓ where
  pub next_grows : w.0.next ≤ w'.0.next
  pub valid_stays : IsValid w.0 w.1 → IsValid w'.0 w'.1
  pub safe_stays : (t : Slice) → IsSafe w t → IsSafe w' t
  pub separate_stays : (t : Slice) → t.array < w.0.next → IsSeparate w.1 t → IsSeparate w'.1 t
  pub read_stays : (t : Slice) → IsSafe w t → read w'.0 t ≡ read w.0 t

module _ {ℓ} {A : Type ℓ} where
  Extends-refl : (w : Growing A) → Extends w w
  Extends-refl w = record {
    next_grows = omega arith;
    valid_stays = λ v. v;
    safe_stays = λ t s. s;
    separate_stays = λ t old s. s;
    read_stays = λ t s. refl;
  }

  Extends-trans : (u v w : Growing A) → Extends u v → Extends v w → Extends u w
  Extends-trans u v w f g = record {
    next_grows = omega (arith, f.next_grows, g.next_grows);
    valid_stays = λ h. g.valid_stays (f.valid_stays h);
    safe_stays = λ t h. g.safe_stays t (f.safe_stays t h);
    separate_stays =
        λ t old h. g.separate_stays t (omega (arith, f.next_grows)) (f.separate_stays t old h);
    read_stays = λ t h. g.read_stays t (f.safe_stays t h) ∙ f.read_stays t h;
  }

  module _ (grow : ℕ → ℕ → ℕ) (blank : A) (enough : IsLargeEnough grow) where
    append-Extends : (w : Growing A) (x : A) → Extends w (append grow blank w.0 w.1 (x ∷ []))
    append-Extends w x = record {
      next_grows = append-next grow blank w.0 w.1 (x ∷ []);
      valid_stays = append-IsValid grow blank w.0 w.1 (x ∷ []) enough;
      safe_stays = λ t h. (
        omega (arith, append-next grow blank w.0 w.1 (x ∷ []), h.0),
        append-IsSpared grow blank w.0 w.1 t (x ∷ []) h.0 h.1,
      );
      separate_stays = λ t. append-IsSeparate grow blank w.0 w.1 t (x ∷ []);
      read_stays = λ t h. read-append_kept grow blank w.0 w.1 t (x ∷ []) h.0 h.1;
    }

    module _ ⦃e : Comparable A⦄ where
      pub append_new-Extends :
          (set : KeySet A) (x : A) (w : Growing A) → Extends w (append_new grow blank set x w)
      unfolding append_new
      append_new-Extends set x w = elim (Bool-cases (set x)) [
        | inl old ↦ rw old (Extends-refl w)
        | inr new ↦ rw new (append-Extends w x)
      ]

      pub merge_rest-Extends :
          (set : KeySet A) (w : Growing A) (a i n : ℕ)
          → Extends w (merge_rest grow blank set w a i n)
      unfolding merge_rest
      merge_rest-Extends set w a i zero = Extends-refl w
      merge_rest-Extends set w a i (suc n) =
          let t = w.0.cells a i in
          let w' = append_new grow blank set t w in
          let set' = if set t then set else set_key t set in
          Extends-trans w w' (merge_rest grow blank set' w' a (suc i) n)
            (append_new-Extends set t w) (merge_rest-Extends set' w' a (suc i) n)

      pub keep_rest-Extends :
          (set : KeySet A) (w : Growing A) (a i n : ℕ)
          → Extends w (keep_rest grow blank set w a i n)
      unfolding keep_rest
      keep_rest-Extends set w a i zero = Extends-refl w
      keep_rest-Extends set w a i (suc n) =
          let t = w.0.cells a i in
          let w' = append_new grow blank set t w in
          Extends-trans w w' (keep_rest grow blank set w' a (suc i) n) (append_new-Extends set t w)
            (keep_rest-Extends set w' a (suc i) n)
