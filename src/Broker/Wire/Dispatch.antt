-- ===== src/Broker/Wire/Dispatch.antt =====
-- A dashboard receives the frames that were written for it.
use klever_subscriber.Base.{
  ℕ, ◌≡◌, refl, true, false, inl, inr, List, [], ◌∷◌, ◌++◌, some, arith, ap, ◌∙◌, sym, All,
  append_assoc, append-nil, Bool-cases, beq→eq, ◌==◌, string_eq, eqb,
}
use klever_subscriber.Broker.{SseFrame, Payload}
use klever_subscriber.Broker.Wire.{
  codes, is_one_line, IsOneLined, write_frame, body, line_feed, carriage_return,
}
use klever_subscriber.Broker.Wire.Source.{
  Message, Reader, ready, lines, without_last, type_or_message, dispatch, take_line, take_lines,
  messages,
}

-- A text without a line end is read up to the line feed behind it.
lines-append :
    (line s rest : List ℕ)
    → is_one_line s ≡ true
    → lines false line (s ++ line_feed ∷ rest) ≡ (line ++ s) ∷ lines false [] rest
unfolding lines is_one_line
lines-append line [] rest h = ap (λ l. l ∷ lines false [] rest) (sym (append-nil line))
lines-append line (c ∷ s) rest h =
    let lf : eqb c line_feed ≡ false = ground (arith, h) in
    let cr : eqb c carriage_return ≡ false = ground (arith, h) in
    let others : is_one_line s ≡ true = ground (arith, h) in
    rw (lines, lf, cr)
      (lines-append (line ++ c ∷ []) s rest others
        ∙ ap (λ l. l ∷ lines false [] rest) (append_assoc line (c ∷ []) s))

without_last-snoc : (s : List ℕ) (c : ℕ) → without_last (s ++ c ∷ []) ≡ some s
unfolding without_last
without_last-snoc [] c = refl
without_last-snoc (d ∷ s) c = rw (without_last-snoc s c) refl

-- An event line sets the event, a data line gathers its text.
take_line-event :
    (x : List ℕ) (r : Reader) → take_line (codes "event: " ++ x) r ≡ record r { event = x }
unfolding take_line codes
take_line-event x r = refl

take_line-data :
    (x : List ℕ) (r : Reader)
    → take_line (codes "data: " ++ x) r ≡ record r { gathered = r.gathered ++ x ++ line_feed ∷ [] }
unfolding take_line codes
take_line-data x r = refl

-- What a frame is to the page: its data, under its event or as a plain message.
abbrev pub message_of : (Payload → List ℕ) → SseFrame → Message
message_of marshal f = record { type = type_or_message (codes f.event); data' = marshal f.payload }

-- The messages of the frames that were written, where `written` lists the last first.
unfoldable pub sent : (Payload → List ℕ) → List SseFrame → List Message
unfolding codes
sent marshal [] = []
sent marshal (f ∷ written) = sent marshal written ++ message_of marshal f ∷ []

-- After a frame the buffers are empty again and its message is dispatched.
module _ (marshal : Payload → List ℕ) (one_lined : IsOneLined marshal) where
  dispatches :
      (e : List ℕ) (got : List Message) (m : List ℕ) (ls : List (List ℕ))
      → take_lines ls
          (dispatch (record { event = e; gathered = m ++ line_feed ∷ []; dispatched = got }))
        ≡ take_lines ls (ready (got ++ record { type = type_or_message e; data' = m } ∷ []))
  unfolding dispatch
  dispatches e got m ls = rw (dispatch, without_last-snoc m line_feed) refl

  take_data :
      (e : List ℕ) (got : List Message) (p : Payload) (rest : List ℕ)
      → take_lines
          (lines false [] ((codes "data: " ++ marshal p ++ line_feed ∷ line_feed ∷ []) ++ rest))
          (record { event = e; gathered = []; dispatched = got })
        ≡ take_lines
            (lines false [] rest)
            (ready (got ++ record { type = type_or_message e; data' = marshal p } ∷ []))
  unfolding lines take_lines take_line dispatch codes is_one_line
  take_data e got p rest =
      let r : Reader = record { event = e; gathered = []; dispatched = got } in
      let text = codes "data: " ++ marshal p in
      ap (λ t. take_lines (lines false [] (codes "data: " ++ t)) r)
        (append_assoc (marshal p) (line_feed ∷ line_feed ∷ []) rest)
      ∙ ap (λ ls. take_lines ls r) (lines-append [] text (line_feed ∷ rest) (one_lined p))
      ∙ dispatches e got (marshal p) (lines false [] rest)

  named_line :
      (name data' rest : List ℕ)
      → ((codes "event: " ++ name ++ line_feed ∷ []) ++ data') ++ rest
        ≡ (codes "event: " ++ name) ++ line_feed ∷ (data' ++ rest)
  unfolding codes
  named_line name data' rest =
      append_assoc (codes "event: " ++ name ++ line_feed ∷ []) data' rest
      ∙ append_assoc (codes "event: " ++ name) (line_feed ∷ []) (data' ++ rest)

  named_frame :
      (got : List Message) (f : SseFrame) (rest : List ℕ)
      → is_one_line (codes f.event) ≡ true
      → take_lines
          (lines false [] (
            ((codes "event: " ++ codes f.event ++ line_feed ∷ [])
              ++ (codes "data: " ++ marshal f.payload ++ line_feed ∷ line_feed ∷ []))
            ++ rest))
          (ready got)
        ≡ take_lines (lines false [] rest) (ready (got ++ message_of marshal f ∷ []))
  unfolding take_lines take_line codes is_one_line
  named_frame got f rest h =
      let data' = codes "data: " ++ marshal f.payload ++ line_feed ∷ line_feed ∷ [] in
      ap (λ t. take_lines (lines false [] t) (ready got)) (named_line (codes f.event) data' rest)
      ∙ ap (λ ls. take_lines ls (ready got))
          (lines-append [] (codes "event: " ++ codes f.event) (data' ++ rest) h)
      ∙ take_data (codes f.event) got f.payload rest

  take_frame :
      (got : List Message) (f : SseFrame) (rest : List ℕ)
      → is_one_line (codes f.event) ≡ true
      → take_lines (lines false [] (write_frame marshal f ++ rest)) (ready got)
        ≡ take_lines (lines false [] rest) (ready (got ++ message_of marshal f ∷ []))
  unfolding write_frame take_lines take_line codes is_one_line
  take_frame got f rest h = elim (Bool-cases (f.event == "")) [
    | inl plain ↦
        rw (write_frame, plain)
          (take_data [] got f.payload rest
            ∙ ap
                (λ e. take_lines (lines false [] rest) (
                  ready
                    (got ++ record { type = type_or_message e; data' = marshal f.payload } ∷ [])))
                (sym (ap codes (beq→eq f.event "" plain))))
    | inr named ↦ rw (write_frame, named) (named_frame got f rest h)
  ]

  -- The body read up to its end, with more of it to come.
  take_body :
      (written : List SseFrame) (rest : List ℕ)
      → All (λ f. is_one_line (codes f.event) ≡ true) written
      → take_lines (lines false [] (body marshal written ++ rest)) (ready [])
        ≡ take_lines (lines false [] rest) (ready (sent marshal written))
  unfolding body sent lines take_lines take_line codes
  take_body [] rest h = refl
  take_body (f ∷ written) rest h =
      ap (λ t. take_lines (lines false [] t) (ready []))
        (append_assoc (body marshal written) (write_frame marshal f) rest)
      ∙ take_body written (write_frame marshal f ++ rest) h.1
      ∙ take_frame (sent marshal written) f rest h.0

  -- What a request writes is read back by the page: it dispatches the frames that were written, each
  -- once and in order, with its data and under its event, provided that no line ends inside what
  -- json.Marshal returns or inside an event's name.
  pub stream_is_dispatched :
      (written : List SseFrame)
      → All (λ f. is_one_line (codes f.event) ≡ true) written
      → messages (body marshal written) ≡ sent marshal written
  unfolding messages lines take_lines
  stream_is_dispatched written h =
      ap (λ t. (take_lines (lines false [] t) (ready [])).dispatched)
        (sym (append-nil (body marshal written)))
      ∙ ap (λ r. r.dispatched) (take_body written [] h)
