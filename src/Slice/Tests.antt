-- ===== src/Slice/Tests.antt =====
-- Runs of the operations on slices.
use klever_subscriber.Base.{ℕ, ◌+◌, ◌≡◌, refl, String, List, [], ◌∷◌, ◌++◌, string_eq, arith}
use klever_subscriber.Slice.{Arrays, Slice, read, clone, IsLargeEnough, no_arrays}
use klever_subscriber.Slice.Clients.{
  Action, creates, adds, removes, reconfigures, asks, assigns, act_all, act_on_lists_all,
  no_clients, add_to,
}
use klever_subscriber.Slice.Owned.{held_lists}
use klever_subscriber.Slice.Runs.{lists_are_private}
use klever_subscriber.Slice.Shared.{shared_field_overwritten}

abbrev doubled : ℕ → ℕ → ℕ
doubled cap needed = needed + needed

doubled_enough : IsLargeEnough doubled
doubled_enough cap needed = omega arith

-- An array of three cells, of which a slice has the first.
abbrev three : Arrays String × Slice
three = clone "" (no_arrays "") ("accounts" ∷ "" ∷ "" ∷ [])

abbrev first : Slice
first = record three.1 { len = 1 }

abbrev to_add : Arrays String × Slice
to_add = clone "" three.0 ("blocks" ∷ "accounts" ∷ "blocks" ∷ [])

shared_field_overwritten_example :
    let w1 = add_to doubled "" three.0 first ("blocks" ∷ []) in
    let w2 = add_to doubled "" w1.0 first ("transactions" ∷ []) in
    (read w1.0 w1.1 ≡ read three.0 first ++ "blocks" ∷ [])
    × (read w2.0 w1.1 ≡ read three.0 first ++ "transactions" ∷ [])
unfolding clone read
shared_field_overwritten_example =
    shared_field_overwritten doubled "" doubled_enough three.0 first "blocks" "transactions"
      (omega arith, omega arith) (omega arith) refl refl

abbrev two_clients : List (Action String)
two_clients =
    creates ("blocks" ∷ [])
    ∷ creates ("accounts" ∷ [])
    ∷ adds 0 ("accounts" ∷ "blocks" ∷ [])
    ∷ asks 0
    ∷ assigns 0 1 "transactions"
    ∷ adds 0 ("transactions" ∷ [])
    ∷ removes 1 ("accounts" ∷ [])
    ∷ reconfigures 1 ("user_transactions" ∷ [])
    ∷ []

lists_are_private_example :
    held_lists (act_all doubled "" (no_clients "") two_clients) ≡ act_on_lists_all [] two_clients
lists_are_private_example = lists_are_private doubled "" doubled_enough two_clients

two_clients_end :
    held_lists (act_all doubled "" (no_clients "") two_clients)
    ≡ ("blocks" ∷ "accounts" ∷ "transactions" ∷ []) ∷ ("user_transactions" ∷ []) ∷ []
unfolding act_all read
two_clients_end = refl
