-- ===== src/Broker/Sse/Counts.antt =====
-- What a turn of `HandleSSE` does to `sseCount`, against the stages of the requests.
use klever_subscriber.Base.{
  ℕ, zero, suc, ◌+◌, ◌≤◌, ◌<◌, ◌≡◌, Bool, true, false, List, [], ◌∷◌, ◌++◌, some, ◌⊎◌, nat_eq,
  get_elem?, set, arith,
}
use klever_subscriber.Broker.{Broker, new}
use klever_subscriber.Broker.Sse.{
  Stage, arrived, too_many, no_flusher, admitted, registered, serving, Turn, handle_sse,
}

-- The requests that `sseCount` counts, and among them those that are let in.
abbrev pub is_served : Stage → Bool
is_served admitted = true
is_served (registered c) = true
is_served (serving c written) = true
is_served _ = false

abbrev pub is_counted : Stage → Bool
is_counted too_many = true
is_counted no_flusher = true
is_counted admitted = true
is_counted (registered c) = true
is_counted (serving c written) = true
is_counted _ = false

abbrev pub bit : Bool → ℕ
bit true = 1
bit false = 0

abbrev pub count : (Stage → Bool) → List Stage → ℕ
count p [] = 0
count p (s ∷ ss) = bit (p s) + count p ss

pub count-append :
    (p : Stage → Bool) (xs ys : List Stage) → count p (xs ++ ys) ≡ count p xs + count p ys
count-append p [] ys = omega arith
count-append p (x ∷ xs) ys = omega (arith, count-append p xs ys)

pub count-set :
    (p : Stage → Bool) (xs : List Stage) (k : ℕ) (old new : Stage)
    → get_elem? xs k ≡ some old
    → count p (set xs k new) + bit (p old) ≡ count p xs + bit (p new)
count-set p [] k old new h = absurd (cc)
count-set p (x ∷ xs) zero old new h = let same : x ≡ old = ground arith in rw same (omega arith)
count-set p (x ∷ xs) (suc k) old new h = omega (arith, count-set p xs k old new h)

pub served-le-counted : (xs : List Stage) → count is_served xs ≤ count is_counted xs
served-le-counted [] = omega arith
served-le-counted (arrived ∷ xs) = omega (arith, served-le-counted xs)
served-le-counted (s ∷ xs) = omega (arith, served-le-counted xs)

-- One turn changes `sseCount` by what it changes in the stage, and lets a request in only below the
-- limit.
pub turn_counts :
    (b : Broker) (s : Stage) (t : Turn)
    → bit (is_counted s) ≤ b.sse_count
    → ((handle_sse b s t).0.sse_count + bit (is_counted s)
        ≡ b.sse_count + bit (is_counted (handle_sse b s t).1))
      × ((bit (is_served (handle_sse b s t).1) ≤ bit (is_served s)) ⊎ (b.sse_count < b.max_clients))
      × ((handle_sse b s t).0.max_clients ≡ b.max_clients)
unfolding handle_sse
turn_counts b arrived t h = ground arith
turn_counts b s t h = ground arith

pub bit_le : (b : Bool) → bit b ≤ 1
bit_le true = omega arith
bit_le false = omega arith

pub counted-get :
    (xs : List Stage) (k : ℕ) (s : Stage)
    → get_elem? xs k ≡ some s
    → bit (is_counted s) ≤ count is_counted xs
counted-get [] k s h = absurd (cc)
counted-get (x ∷ xs) zero s h = let same : x ≡ s = ground arith in rw (← same) (omega arith)
counted-get (x ∷ xs) (suc k) s h = omega (arith, counted-get xs k s h)
