-- ===== src/Subscriber/Tests.antt =====
-- Runs of the constructor.
use klever_subscriber.Base.{◌≡◌, refl, List, [], ◌∷◌, none, some}
use klever_subscriber.Hub.{subscribe}
use klever_subscriber.Chan.{make_chan}
use klever_subscriber.Subscriber.{
  apply, apply_all, Subscriber, Setting, with_scheme, with_addresses, with_query_only, new,
}

abbrev settings : List Setting
settings = with_scheme "wss" ∷ with_addresses (some ("klv1" ∷ [])) ∷ with_query_only ∷ []

-- The client of these options.
made : (s : Subscriber) × (new "node" (some ("blocks" ∷ [])) settings ≡ some s) × (s.scheme ≡ "wss")
unfolding new apply_all apply subscribe make_chan
made = (_, refl, refl)

-- A scheme that is neither ws nor wss makes `New` panic.
panics : new "node" none (with_query_only ∷ with_scheme "http" ∷ []) ≡ none
unfolding new apply_all apply
panics = refl
