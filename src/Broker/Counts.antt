-- ===== src/Broker/Counts.antt =====
-- The counters against the events recorded.
use klever_subscriber.Base.{
  ℕ, ◌+◌, ◌≡◌, refl, List, [], ◌∷◌, ◌==◌, string_eq, if◌then◌else◌, arith, length, beq_one,
}
use klever_subscriber.Event.{
  EventType, event_blocks, event_transactions, event_user_transactions, event_accounts,
  valid_event_types,
}
use klever_subscriber.Rate.{u64}
use klever_subscriber.Broker.{Counters, bump, count_type}

-- How often a type stands among those recorded, and how many are of no known type.
abbrev pub times : EventType → List EventType → ℕ
times t [] = 0
times t (x ∷ xs) = (if x == t then 1 else 0) + times t xs

abbrev pub unknown : List EventType → ℕ
unknown [] = 0
unknown (x ∷ xs) = (if valid_event_types x then 0 else 1) + unknown xs

-- Each counter holds the number of events of its type, and the total that of all, as far as 64 bits
-- go.
pub record Tallied (h : List EventType) (c : Counters) : Type 0 where
  pub all : c.total ≡ u64 (length h)
  pub of_blocks : c.blocks ≡ u64 (times event_blocks h)
  pub of_txs : c.txs ≡ u64 (times event_transactions h)
  pub of_user_txs : c.user_txs ≡ u64 (times event_user_transactions h)
  pub of_accounts : c.accounts ≡ u64 (times event_accounts h)
  pub of_others : c.other_count ≡ u64 (unknown h)

pub count_type-Tallied :
    (h : List EventType) (c : Counters) (t : EventType)
    → Tallied h c
    → Tallied (t ∷ h) (count_type (record c { total = bump c.total }) t)
unfolding count_type valid_event_types
count_type-Tallied h c t v = ground (
  arith,
  beq_one t event_blocks event_transactions refl,
  beq_one t event_blocks event_user_transactions refl,
  beq_one t event_blocks event_accounts refl,
  beq_one t event_transactions event_user_transactions refl,
  beq_one t event_transactions event_accounts refl,
  beq_one t event_user_transactions event_accounts refl,
)
