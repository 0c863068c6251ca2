-- ===== src/Rate/Window.antt =====
-- The ring's buckets as counts: the bucket `k` places from the end counts the events of age `k`.
use klever_subscriber.Base.{
  ℕ, zero, suc, ◌+◌, ◌^◌, ◌≤◌, ◌<◌, ◌≡◌, refl, sym, ap, ap₂, ◌∙◌, List, [], ◌∷◌, ◌++◌, ◌&&◌, leb,
  ltb, eqb, if◌then◌else◌, arith, All, length,
}
use native.Mathlib.Nat.{mod-eq_of_lt}
use klever_subscriber.Rate.{clear, shift, shifts, bump_last, sum_buckets}

-- How many of the times lie exactly `k` seconds before `now`.
abbrev pub age_count : List ℕ → ℕ → ℕ → ℕ
age_count [] now k = 0
age_count (t ∷ ts) now k = (if eqb (t + k) now then 1 else 0) + age_count ts now k

-- The counts for the ages `n - 1` to 0, in this order.
abbrev pub window : ℕ → List ℕ → ℕ → List ℕ
window zero ts now = []
window (suc n) ts now = age_count ts now n ∷ window n ts now

-- How many of the times lie in the `n` seconds that end with `now`.
abbrev pub recent : ℕ → List ℕ → ℕ → ℕ
recent n [] now = 0
recent n (t ∷ ts) now = (if leb t now && ltb now (t + n) then 1 else 0) + recent n ts now

age_count-suc : (ts : List ℕ) (now k : ℕ) → age_count ts (suc now) (suc k) ≡ age_count ts now k
age_count-suc [] now k = refl
age_count-suc (t ∷ ts) now k = ground (arith, age_count-suc ts now k)

-- No time after `now` is that old.
age_count_none :
    (ts : List ℕ) (last now k : ℕ)
    → All (λ t. t ≤ last) ts
    → last + k < now
    → age_count ts now k ≡ 0
age_count_none [] last now k h lt = refl
age_count_none (t ∷ ts) last now k h lt = ground (arith, age_count_none ts last now k h.1)

age_count-le : (ts : List ℕ) (now k : ℕ) → age_count ts now k ≤ length ts
age_count-le [] now k = omega arith
age_count-le (t ∷ ts) now k = ground (arith, age_count-le ts now k)

window-suc :
    (n : ℕ) (ts : List ℕ) (now : ℕ)
    → window (suc n) ts (suc now) ≡ window n ts now ++ age_count ts (suc now) 0 ∷ []
window-suc zero ts now = refl
window-suc (suc n) ts now = ap₂ ◌∷◌ (age_count-suc ts now n) (window-suc n ts now)

-- One second passes: the buckets move up, and the newest is empty.
shift-window :
    (n : ℕ) (ts : List ℕ) (now : ℕ)
    → All (λ t. t ≤ now) ts
    → shift (window (suc n) ts now) ≡ window (suc n) ts (suc now)
unfolding shift
shift-window n ts now h = sym (
    window-suc n ts now
    ∙ ap (λ v. window n ts now ++ v ∷ []) (age_count_none ts now (suc now) 0 h (omega arith)))

pub All-le : (ts : List ℕ) (m n : ℕ) → m ≤ n → All (λ t. t ≤ m) ts → All (λ t. t ≤ n) ts
All-le [] m n h a = tt
All-le (t ∷ ts) m n h a = (omega arith, All-le ts m n h a.1)

pub shifts-window :
    (d n : ℕ) (ts : List ℕ) (now : ℕ)
    → All (λ t. t ≤ now) ts
    → shifts d (window (suc n) ts now) ≡ window (suc n) ts (now + d)
unfolding shifts
shifts-window zero n ts now h = ap (window (suc n) ts) (omega arith)
shifts-window (suc d) n ts now h = rw (shift-window n ts now h) (
    shifts-window d n ts (suc now) (All-le ts now (suc now) (omega arith) h)
    ∙ ap (window (suc n) ts) (omega arith))

pub clear-window :
    (n : ℕ) (ts : List ℕ) (last now : ℕ)
    → All (λ t. t ≤ last) ts
    → last + n ≤ now
    → clear (window n ts last) ≡ window n ts now
unfolding clear
clear-window zero ts last now h lt = refl
clear-window (suc n) ts last now h lt =
    rw (age_count_none ts last now n h (omega arith))
      (ap (◌∷◌ 0) (clear-window n ts last now h (omega arith)))

pub bump_last-window :
    (n : ℕ) (ts : List ℕ) (now : ℕ)
    → length ts + 1 < 2 ^ 64
    → bump_last (window (suc n) ts now) ≡ window (suc n) (now ∷ ts) now
unfolding bump_last
bump_last-window zero ts now h = ground (arith, age_count-le ts now 0)
bump_last-window (suc n) ts now h = ap₂ ◌∷◌ (ground arith) (bump_last-window n ts now h)

recent-zero : (ts : List ℕ) (now : ℕ) → recent 0 ts now ≡ 0
recent-zero [] now = refl
recent-zero (t ∷ ts) now = ground (arith, recent-zero ts now)

recent-suc :
    (n : ℕ) (ts : List ℕ) (now : ℕ) → recent (suc n) ts now ≡ age_count ts now n + recent n ts now
recent-suc n [] now = refl
recent-suc n (t ∷ ts) now = ground (arith, recent-suc n ts now)

pub recent-le : (n : ℕ) (ts : List ℕ) (now : ℕ) → recent n ts now ≤ length ts
recent-le n [] now = omega arith
recent-le n (t ∷ ts) now = ground (arith, recent-le n ts now)

sum_step :
    (acc v : ℕ) (vs : List ℕ)
    → acc + v < 2 ^ 64
    → sum_buckets acc (v ∷ vs) ≡ sum_buckets (acc + v) vs
unfolding sum_buckets
sum_step acc v vs h = ap (λ n. sum_buckets n vs) (mod-eq_of_lt h)

pub sum_buckets-window :
    (n acc : ℕ) (ts : List ℕ) (now : ℕ)
    → acc + recent n ts now < 2 ^ 64
    → sum_buckets acc (window n ts now) ≡ acc + recent n ts now
unfolding sum_buckets
sum_buckets-window zero acc ts now h = omega (arith, recent-zero ts now)
sum_buckets-window (suc n) acc ts now h =
    let parts = recent-suc n ts now in
    sum_step acc (age_count ts now n) (window n ts now) (omega arith)
    ∙ sum_buckets-window n (acc + age_count ts now n) ts now (omega arith)
    ∙ omega arith
