-- ===== src/Request/Pending.antt =====
-- The map of pending requests and their reply channels.
use mathlib.Core.Option.{map as map_option}
use klever_subscriber.Base.{
  ℕ, ◌≡◌, refl, ap₂, subst, String, true, false, List, [], ◌∷◌, none, some, ◌==◌, string_eq, nat_eq,
  if◌then◌else◌, arith, All, inl, inr, Bool-cases, Option-cases, beq→eq, beq_refl, get_elem?,
  get_elem?-set,
}
use klever_subscriber.Chan.{Chan, Heap, new_chan, deliver, offer}
use klever_subscriber.Request.{Response, lookup, assign, delete, connection_closed, fail_each}

module _ {ℓ} {V : Type ℓ} where
  pub lookup-assign :
      (k j : String) (v : V) (m : List (String × V))
      → lookup j (assign k v m) ≡ (if k == j then some v else lookup j m)
  unfolding lookup assign
  lookup-assign k j v [] = refl
  lookup-assign k j v ((i, w) ∷ m) =
      ground (arith, beq→eq i k, beq→eq k j, beq→eq i j, beq_refl k, lookup-assign k j v m)

  pub lookup-delete :
      (k j : String) (m : List (String × V))
      → lookup j (delete k m) ≡ (if k == j then none else lookup j m)
  unfolding lookup delete
  lookup-delete k j [] = ground arith
  lookup-delete k j ((i, w) ∷ m) = ground (
    arith,
    string_eq.equals_iff i k,
    string_eq.equals_iff k j,
    string_eq.equals_iff i j,
    lookup-delete k j m,
  )

  pub All-assign {κ} :
      (P : String × V → Type κ) (k : String) (v : V) (m : List (String × V))
      → P (k, v)
      → All P m
      → All P (assign k v m)
  unfolding assign
  All-assign P k v [] p h = (p, tt)
  All-assign P k v ((i, w) ∷ m) p h = elim (Bool-cases (i == k)) [
    | inl here ↦ rw here (p, h.1)
    | inr on ↦ rw on (h.0, All-assign P k v m p h.1)
  ]

  pub All-delete {κ} :
      (P : String × V → Type κ) (k : String) (m : List (String × V)) → All P m → All P (delete k m)
  unfolding delete
  All-delete P k [] h = tt
  All-delete P k ((i, w) ∷ m) h = elim (Bool-cases (i == k)) [
    | inl here ↦ rw here (All-delete P k m h.1)
    | inr on ↦ rw on (h.0, All-delete P k m h.1)
  ]

  pub All-lookup {κ} :
      (P : String × V → Type κ) (k : String) (m : List (String × V)) {v : V}
      → lookup k m ≡ some v
      → All P m
      → P (k, v)
  unfolding lookup
  All-lookup P k [] e h = absurd (cc)
  All-lookup P k ((i, w) ∷ m) {v} e h = elim (Bool-cases (i == k)) [
    | inl here ↦ subst P (ap₂ (λ (a : String) (b : V). (a, b)) (beq→eq i k here) (ground arith)) h.0
    | inr on ↦ All-lookup P k m (ground arith) h.1
  ]

-- The channel with one reply in it, which takes no other.
abbrev pub answered : Response → Chan Response
answered resp = record { buffer = resp ∷ []; capacity = 1; closed = false }

pub offer_lem :
    (resp : Response) (replies : Heap Response) (c d : ℕ)
    → get_elem? (offer resp replies c) d
      ≡ (if c == d then map_option (deliver resp) (get_elem? replies d) else get_elem? replies d)
unfolding offer
offer_lem resp replies c d = elim (Option-cases (get_elem? replies c)) [
  | inl gone ↦ elim (Bool-cases (c == d)) [
    | inl same ↦ rw (← beq→eq c d same) (ground arith)
    | inr differ ↦ ground arith
  ]
  | inr (ch, at) ↦ elim (Bool-cases (c == d)) [
    | inl same ↦
        rw (← beq→eq c d same) (ground (arith, get_elem?-set replies c c (deliver resp ch) at))
    | inr differ ↦ ground (arith, get_elem?-set replies c d (deliver resp ch) at)
  ]
]

-- A channel that has its reply keeps it.
pub offer-answered :
    (resp new : Response) (replies : Heap Response) (c d : ℕ)
    → get_elem? replies d ≡ some (answered resp)
    → get_elem? (offer new replies c) d ≡ some (answered resp)
offer-answered resp new replies c d h = ground (arith, offer_lem new replies c d)

pub fail_each-answered :
    (resp : Response) (pending : List (String × ℕ)) (replies : Heap Response) (d : ℕ)
    → get_elem? replies d ≡ some (answered resp)
    → get_elem? (fail_each pending replies) d ≡ some (answered resp)
unfolding fail_each
fail_each-answered resp [] replies d h = h
fail_each-answered resp ((id, ch) ∷ pending) replies d h =
    fail_each-answered resp pending (offer (connection_closed id) replies ch) d
      (offer-answered resp (connection_closed id) replies ch d h)

-- A waiting channel is told by the loop of `failAllPending`, under its own id.
pub fail_each-tells :
    (id : String) (d : ℕ) (pending : List (String × ℕ)) (replies : Heap Response)
    → lookup id pending ≡ some d
    → All (λ p. (p.1 == d) ≡ true → p.0 ≡ id) pending
    → get_elem? replies d ≡ some (new_chan 1)
    → get_elem? (fail_each pending replies) d ≡ some (answered (connection_closed id))
unfolding fail_each lookup
fail_each-tells id d [] replies m only h = absurd (cc)
fail_each-tells id d ((k, c) ∷ pending) replies m only h = elim (Bool-cases (c == d)) [
  | inl mine ↦
      fail_each-answered (connection_closed id) pending (offer (connection_closed k) replies c) d
        (rw (only.0 mine) (ground (arith, offer_lem (connection_closed id) replies c d)))
  | inr others ↦
      fail_each-tells id d pending (offer (connection_closed k) replies c) (ground arith) only.1
        (ground (arith, offer_lem (connection_closed k) replies c d))
]
