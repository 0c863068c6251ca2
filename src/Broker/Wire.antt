-- ===== src/Broker/Wire.antt =====
-- web/broker/broker.go: what `HandleSSE` writes to a dashboard, `writeFrame` with the hint before it.
-- A text is the list of its characters, by their numbers; what `json.Marshal` makes of a payload is
-- the parameter `marshal`.
pub mod Source
pub mod Dispatch
pub mod Pages
use Prim.Native.Char.{code}
use klever_subscriber.Base.{
  ℕ, Bool, true, false, not, ◌&&◌, String, List, [], ◌∷◌, ◌++◌, ◌==◌, string_eq, eqb, ◌≡◌,
  if◌then◌else◌,
}
use klever_subscriber.Broker.{SseFrame, Payload}

unfoldable pub codes : String → List ℕ
codes String.[] = []
codes (String.◌∷◌ c s) = code c ∷ codes s

abbrev pub line_feed : ℕ
line_feed = 10

abbrev pub carriage_return : ℕ
carriage_return = 13

-- No character ends a line.
unfoldable pub is_one_line : List ℕ → Bool
is_one_line [] = true
is_one_line (c ∷ s) = not (eqb c line_feed) && (not (eqb c carriage_return) && is_one_line s)

-- "json.Marshal" writes no white space between its tokens and escapes control characters.
abbrev pub IsOneLined : (Payload → List ℕ) → Type 0
IsOneLined marshal = (p : Payload) → is_one_line (marshal p) ≡ true

module _ (marshal : Payload → List ℕ) where
  unfoldable pub write_frame : SseFrame → List ℕ
  unfolding codes
  write_frame f =
      (if not (f.event == "") then codes "event: " ++ codes f.event ++ line_feed ∷ [] else [])
      ++ (codes "data: " ++ marshal f.payload ++ line_feed ∷ line_feed ∷ [])

  -- All that a request has written, where `written` lists its frames, the last first.
  unfoldable pub body : List SseFrame → List ℕ
  unfolding codes write_frame
  body [] = codes "retry: 3000" ++ line_feed ∷ line_feed ∷ []
  body (f ∷ written) = body written ++ write_frame f
