-- ===== src/Frame/Pipeline.antt =====
-- From the frames of a connection to a consumer of `Subscribe`.
use mathlib.Core.List.{Sublistᴰ}
use mathlib.Core.List.Sublistᴰ
use mathlib.Core.List.Sublistᴰ.{slnil, cons-cons, cons}
use klever_subscriber.Base.{
  ℕ, ◌≡◌, refl, ap, subst, true, false, String, List, [], ◌∷◌, ◌++◌, some, ◌==◌, string_eq, map,
  inl, inr, Bool-cases,
}
use klever_subscriber.Event.{Event}
use klever_subscriber.Request.{Response}
use klever_subscriber.Hub.{Action, Clients, run}
use klever_subscriber.Hub.Safety.{no_clients}
use klever_subscriber.Hub.Buffers.{buffer_at}
use klever_subscriber.Hub.Delivery.{published, received, received_in_order}
use klever_subscriber.Frame.{
  Parsed, bad, parsed, Probe, RawEvent, Decoders, Incoming, message, broken, decode_event,
  event_or_plain,
}
use klever_subscriber.Frame.Effects.{Effect, replied, effect_of, effects, events_of}

-- The messages read, up to the first error.
abbrev pub frames : List Incoming → List String
frames [] = []
frames (message frame ∷ rest) = frame ∷ frames rest
frames (broken unexpected e ∷ rest) = []

event_or_plain-raw :
    (dec : Decoders) (frame : String) (r : Parsed RawEvent)
    → dec.raw_event frame ≡ r
    → (event_or_plain (decode_event dec frame) frame).raw ≡ frame
unfolding decode_event
event_or_plain-raw dec frame (bad e) h = rw (h, event_or_plain) refl
event_or_plain-raw dec frame (parsed r) h = rw (h, event_or_plain) refl

abbrev pub raws : List Effect → List String
raws es = map (λ (evt : Event). evt.raw) (events_of es)

replied-raws :
    (id : String) (r : Parsed Response) (es : List Effect) → raws (replied id r ∷ es) ≡ raws es
replied-raws id (bad e) es = refl
replied-raws id (parsed resp) es = refl

-- A frame becomes at most one event, whose raw bytes it is.
frame-raw :
    (dec : Decoders) (frame : String) (p : Parsed Probe) (es : List Effect) (rest : List String)
    → Sublistᴰ (raws es) rest
    → Sublistᴰ (raws (effect_of dec frame p ∷ es)) (frame ∷ rest)
frame-raw dec frame (bad e) es rest s = cons s
frame-raw dec frame (parsed p) es rest s = elim (Bool-cases (p.id == "")) [
  | inr reply ↦ rw (reply, replied-raws p.id (dec.response frame) es) (cons s)
  | inl none_id ↦ elim (Bool-cases (p.error == "")) [
    | inr error ↦ rw (none_id, error) (cons s)
    | inl fine ↦ elim (Bool-cases (p.type == "")) [
      | inr typed ↦
          rw (none_id, fine, typed)
            (cons-cons (event_or_plain-raw dec frame (dec.raw_event frame) refl) s)
      | inl plain ↦ rw (none_id, fine, plain) (cons-cons refl s)
    ]
  ]
]

pub raws-frames :
    (dec : Decoders) (incoming : List Incoming)
    → Sublistᴰ (raws (effects dec incoming)) (frames incoming)
raws-frames dec [] = slnil
raws-frames dec (message frame ∷ rest) =
    frame-raw dec frame (dec.probe frame) (effects dec rest) (frames rest) (raws-frames dec rest)
raws-frames dec (broken true e ∷ rest) = slnil
raws-frames dec (broken false e ∷ rest) = slnil

pub Sublistᴰ-map {ℓ κ} :
    {A : Type ℓ} {B : Type κ} (f : A → B) {xs ys : List A}
    → Sublistᴰ xs ys
    → Sublistᴰ (map f xs) (map f ys)
Sublistᴰ-map f slnil = slnil
Sublistᴰ-map f (cons s) = cons (Sublistᴰ-map f s)
Sublistᴰ-map f (cons-cons e s) = cons-cons (ap f e) (Sublistᴰ-map f s)

-- In every run that fans out the events of a connection's frames: the raw bytes of the events that a
-- consumer has received, and of those that wait for it, are frames of the connection, in the order of
-- arrival, each as often.
pub consumers_follow_frames :
    (dec : Decoders) (incoming : List Incoming) (as' : List Action) (w : Clients) (c : ℕ)
    → published as' ≡ events_of (effects dec incoming)
    → run no_clients as' ≡ some w
    → Sublistᴰ
        (map (λ (evt : Event). evt.raw) (received no_clients c as' ++ buffer_at w.hub.channels c))
        (frames incoming)
consumers_follow_frames dec incoming as' w c q ran =
    Sublistᴰ.trans
      (Sublistᴰ-map (λ (evt : Event). evt.raw)
        (subst (λ l. Sublistᴰ (received no_clients c as' ++ buffer_at w.hub.channels c) l) q
          (received_in_order as' w c ran)))
      (raws-frames dec incoming)
