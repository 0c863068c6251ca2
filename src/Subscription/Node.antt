-- ===== src/Subscription/Node.antt =====
-- `Reconfigure` against the node: what the node delivers follows the client's types and addresses.
-- The node is not part of this repository. It is a parameter, with what the source relies on: the
-- comments in `Reconfigure` say what an `unsubscribe` of one dimension does, and that one with both
-- is ambiguous, so nothing is assumed of that.
pub mod Sent
pub mod Sync
use klever_subscriber.Base.{
  ℕ, zero, suc, ◌≡◌, refl, ◌∙◌, sym, ap, ap₂, String, Bool, true, false, not, ◌&&◌, ◌||◌, List, [],
  ◌∷◌, Option, none, some, if◌then◌else◌, arith, inl, inr, Bool-cases, Option-cases, string_eq,
  contains, ◌⊎◌,
}
use klever_subscriber.Event.{EventType}
use klever_subscriber.Request.{
  Slice, elems, Params, types_and_addresses, only_types, only_addresses, Request,
}
use klever_subscriber.Subscriber.{Subscriber}

pub record Node : Type 1 where
  pub State : Type 0
  pub serves_type : State → EventType → Bool
  pub serves_address : State → String → Bool
  pub handle : State → Request → State
  -- A `subscribe` adds both dimensions.
  pub subscribe_types :
      (n : State) (id : String) (ts : List EventType) (as' : Slice String) (t : EventType)
      → serves_type
          (handle n (record { id = id; method = "subscribe"; params = types_and_addresses ts as' }))
          t
        ≡ (serves_type n t || contains ts t)
  pub subscribe_addresses :
      (n : State) (id : String) (ts : List EventType) (as' : Slice String) (a : String)
      → serves_address
          (handle n (record { id = id; method = "subscribe"; params = types_and_addresses ts as' }))
          a
        ≡ (serves_address n a || contains (elems as') a)
  -- An `unsubscribe` of one dimension takes from that one.
  pub drop_types :
      (n : State) (id : String) (ts : List EventType) (t : EventType)
      → serves_type
          (handle n (record { id = id; method = "unsubscribe"; params = only_types ts }))
          t
        ≡ (serves_type n t && not (contains ts t))
  pub drop_types_address :
      (n : State) (id : String) (ts : List EventType) (a : String)
      → serves_address
          (handle n (record { id = id; method = "unsubscribe"; params = only_types ts }))
          a
        ≡ serves_address n a
  pub drop_addresses :
      (n : State) (id : String) (as' : List String) (a : String)
      → serves_address
          (handle n (record { id = id; method = "unsubscribe"; params = only_addresses as' }))
          a
        ≡ (serves_address n a && not (contains as' a))
  pub drop_addresses_type :
      (n : State) (id : String) (as' : List String) (t : EventType)
      → serves_type
          (handle n (record { id = id; method = "unsubscribe"; params = only_addresses as' }))
          t
        ≡ serves_type n t

module _ (node : Node) where
  -- The node after the requests of a log, the last first.
  abbrev pub heard : node.State → List Request → node.State
  heard n [] = n
  heard n (request ∷ sent) = node.handle (heard n sent) request

-- The node serves these types and addresses.
pub record Serves (node : Node) (n : node.State) (types : EventType → Bool)
    (addresses : String → Bool) : Type 0 where
  pub by_type : (t : EventType) → node.serves_type n t ≡ types t
  pub by_address : (a : String) → node.serves_address n a ≡ addresses a

-- The node, having handled the requests that the client sent, serves what the client holds.
abbrev pub InSync : (node : Node) → node.State → Subscriber → Type 0
InSync node start s =
    Serves node (heard node start s.requests.sent) (contains s.types) (contains s.addresses)
