-- ===== src/Event.antt =====
-- subscriber/event.go: the event types and the decoded event.
-- Go strings and byte slices are both `String` here.
use klever_subscriber.Base.{String, Bool, ◌||◌, ◌==◌, string_eq}

-- `type EventType string`
abbrev pub EventType : Type 0
EventType = String

abbrev pub event_blocks : EventType
event_blocks = "blocks"

abbrev pub event_transactions : EventType
event_transactions = "transactions"

abbrev pub event_user_transactions : EventType
event_user_transactions = "user_transactions"

abbrev pub event_accounts : EventType
event_accounts = "accounts"

-- `ValidEventTypes()[t]`: the map has four keys, each with the value true.
unfoldable pub valid_event_types : EventType → Bool
valid_event_types t =
    t == event_blocks
    || t == event_transactions
    || t == event_user_transactions
    || t == event_accounts

-- A value of encoding/json: what `any` holds after `Unmarshal`. A number is its literal.
mutual
  pub data Json : Type 0 where
    null : Json
    bool : Bool → Json
    number : String → Json
    text : String → Json
    array : Items → Json
    object : Fields → Json

  pub data Items : Type 0 where
    end_items : Items
    item : Json → Items → Items

  pub data Fields : Type 0 where
    end_fields : Fields
    field : String → Json → Fields → Fields

-- `Data` holds a decoded value, or the bytes as a string.
pub record Event : Type 0 where
  pub type : EventType
  pub address : String
  pub hash : String
  pub payload : Json
  pub raw : String
