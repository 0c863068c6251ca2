-- ===== src/Broker/Wire/Source.antt =====
-- How an EventSource of a browser reads a stream: lines, which end with a line feed, with a carriage
-- return or with both; a field and its value in each; an empty line dispatches what was gathered.
use klever_subscriber.Base.{
  ℕ, Bool, true, false, ◌&&◌, List, [], ◌∷◌, ◌++◌, Option, none, some, eqb, if◌then◌else◌,
}
use klever_subscriber.Broker.Wire.{codes, line_feed, carriage_return}

-- The event type and the data.
pub record Message : Type 0 where
  pub type : List ℕ
  pub data' : List ℕ

-- The buffers of the reader, and what it has dispatched.
pub record Reader : Type 0 where
  pub event : List ℕ
  pub gathered : List ℕ
  pub dispatched : List Message

abbrev pub ready : List Message → Reader
ready messages = record { event = []; gathered = []; dispatched = messages }

-- `after_cr` tells that the last character was a carriage return, to which a line feed belongs; an
-- unfinished line is dropped.
unfoldable pub lines : Bool → List ℕ → List ℕ → List (List ℕ)
lines after_cr line [] = []
lines after_cr line (c ∷ s) = elim (eqb c line_feed) [
  | true ↦ if after_cr then lines false [] s else line ∷ lines false [] s
  | false ↦ elim (eqb c carriage_return) [
    | true ↦ line ∷ lines true [] s
    | false ↦ lines false (line ++ c ∷ []) s
  ]
]

abbrev pub colon : ℕ
colon = 58

abbrev pub space : ℕ
space = 32

unfoldable pub field_of : List ℕ → List ℕ
field_of [] = []
field_of (c ∷ s) = if eqb c colon then [] else c ∷ field_of s

abbrev pub without_space : List ℕ → List ℕ
without_space [] = []
without_space (c ∷ s) = if eqb c space then s else c ∷ s

unfoldable pub value_of : List ℕ → List ℕ
value_of [] = []
value_of (c ∷ s) = if eqb c colon then without_space s else value_of s

abbrev pub same_text : List ℕ → List ℕ → Bool
same_text [] [] = true
same_text [] (d ∷ t) = false
same_text (c ∷ s) [] = false
same_text (c ∷ s) (d ∷ t) = eqb c d && same_text s t

-- All but the last character; `none` of an empty text.
unfoldable pub without_last : List ℕ → Option (List ℕ)
without_last [] = none
without_last (c ∷ s) = elim (without_last s) [ none ↦ some [] | some t ↦ some (c ∷ t) ]

abbrev pub type_or_message : List ℕ → List ℕ
type_or_message [] = codes "message"
type_or_message (c ∷ s) = c ∷ s

unfoldable pub dispatch : Reader → Reader
unfolding without_last codes
dispatch r = elim (without_last r.gathered) [
  | none ↦ ready r.dispatched
  | some text ↦ ready (r.dispatched ++ record { type = type_or_message r.event; data' = text } ∷ [])
]

-- Other fields than these two change no message.
unfoldable pub take_field : List ℕ → List ℕ → Reader → Reader
unfolding codes
take_field field value r =
    if same_text field (codes "event")
    then record r { event = value }
    else if same_text field (codes "data")
    then record r { gathered = r.gathered ++ value ++ line_feed ∷ [] }
    else r

unfoldable pub take_line : List ℕ → Reader → Reader
unfolding dispatch take_field field_of value_of
take_line [] r = dispatch r
take_line (c ∷ s) r = take_field (field_of (c ∷ s)) (value_of (c ∷ s)) r

unfoldable pub take_lines : List (List ℕ) → Reader → Reader
unfolding take_line
take_lines [] r = r
take_lines (l ∷ ls) r = take_lines ls (take_line l r)

-- What a stream of that text dispatches.
unfoldable pub messages : List ℕ → List Message
unfolding lines take_lines
messages s = (take_lines (lines false [] s) (ready [])).dispatched
