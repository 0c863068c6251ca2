-- ===== src/Sets.antt =====
-- subscriber/helpers.go: the list operations on event types and on addresses.
-- The source writes each operation twice, for `EventType` and for `string`; both are strings here.
pub mod Members
pub mod Order
pub mod Tests
use klever_subscriber.Base.{
  String, Bool, true, false, ◌||◌, List, [], ◌∷◌, ◌++◌, Comparable, ◌==◌, string_eq, if◌then◌else◌,
}
use klever_subscriber.Event.{EventType}

-- A `map[T]bool`, of which the source reads `set[t]` only.
abbrev pub KeySet {ℓ} : Type ℓ → Type ℓ
KeySet A = A → Bool

module _ {ℓ} {A : Type ℓ} ⦃e : Comparable A⦄ where
  abbrev pub no_keys : KeySet A
  no_keys = λ x. false

  abbrev pub set_key : A → KeySet A → KeySet A
  set_key a set = λ x. a == x || set x

  -- `for _, t := range xs { set[t] = true }`
  unfoldable pub set_keys : KeySet A → List A → KeySet A
  set_keys set [] = set
  set_keys set (x ∷ xs) = set_keys (set_key x set) xs

  -- The second loop of a merge, over what is to be added.
  unfoldable pub merge_loop : List A → KeySet A → List A → List A
  merge_loop existing set [] = existing
  merge_loop existing set (t ∷ add) =
      merge_loop (if set t then existing else existing ++ t ∷ [])
        (if set t then set else set_key t set) add

  unfoldable pub merge : List A → List A → List A
  unfolding merge_loop set_keys
  merge existing add = merge_loop existing (set_keys no_keys existing) add

  -- The second loop of a removal and of a difference: what is not in the set stays, in order.
  unfoldable pub keep_loop : List A → KeySet A → List A → List A
  keep_loop result set [] = result
  keep_loop result set (t ∷ existing) =
      keep_loop (if set t then result else result ++ t ∷ []) set existing

  unfoldable pub remove : List A → List A → List A
  unfolding keep_loop set_keys
  remove existing gone = keep_loop [] (set_keys no_keys gone) existing

  unfoldable pub diff : List A → List A → List A
  unfolding keep_loop set_keys
  diff a b = keep_loop [] (set_keys no_keys b) a

unfoldable pub merge_types : List EventType → List EventType → List EventType
unfolding merge
merge_types existing add = merge existing add

unfoldable pub merge_strings : List String → List String → List String
unfolding merge
merge_strings existing add = merge existing add

unfoldable pub remove_types : List EventType → List EventType → List EventType
unfolding remove
remove_types existing gone = remove existing gone

unfoldable pub remove_strings : List String → List String → List String
unfolding remove
remove_strings existing gone = remove existing gone

unfoldable pub diff_types : List EventType → List EventType → List EventType
unfolding diff
diff_types a b = diff a b

unfoldable pub diff_strings : List String → List String → List String
unfolding diff
diff_strings a b = diff a b
