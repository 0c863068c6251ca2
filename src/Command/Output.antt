-- ===== src/Command/Output.antt =====
-- What the command prints.
use mathlib.Core.List.{Sublistᴰ}
use mathlib.Core.List.Sublistᴰ
use klever_subscriber.Base.{
  ℕ, ap, some, if◌then◌else◌, ◌≡◌, refl, inl, inr, String, true, false, List, [], ◌∷◌, ◌==◌,
  string_eq, All, map, length, length-append, arith, Bool-cases,
}
use klever_subscriber.Event.{Event}
use klever_subscriber.Frame.{Parsed, bad, parsed, Decoders, Incoming}
use klever_subscriber.Frame.Effects.{effects, events_of}
use klever_subscriber.Frame.Pipeline.{frames, Sublistᴰ-map, consumers_follow_frames}
use klever_subscriber.Hub.{Action, Clients, run}
use klever_subscriber.Hub.Safety.{no_clients}
use klever_subscriber.Hub.Buffers.{buffer_at}
use klever_subscriber.Hub.Delivery.{published, received}
use klever_subscriber.Broker.Wire.Pages.{prefix-Sublistᴰ}
use klever_subscriber.Command.{Flags, Encoders, encoded_line, print_event, print_events}

-- The lines that are not empty.
abbrev pub non_blank : List String → List String
non_blank [] = []
non_blank (line ∷ lines) = if line == "" then non_blank lines else line ∷ non_blank lines

raw_lines :
    (enc : Encoders) (flags : Flags) (evts : List Event)
    → flags.raw ≡ true
    → print_events enc flags evts ≡ non_blank (map (λ (evt : Event). evt.raw) evts)
unfolding print_events print_event
raw_lines enc flags [] raw = refl
raw_lines enc flags (evt ∷ evts) raw = elim (Bool-cases (evt.raw == "")) [
  | inl empty ↦ rw (raw, empty) (raw_lines enc flags evts raw)
  | inr line ↦ rw (raw, line) (ap (◌∷◌ evt.raw) (raw_lines enc flags evts raw))
]

-- With the flag `--raw`, in every run that fans out the events of a connection's frames: of each event
-- that the command has received its raw bytes are printed, as one line and in the order of receipt,
-- unless they are empty; and these bytes are frames of the connection, in the order of arrival, each
-- as often.
pub raw_output_follows_frames :
    (enc : Encoders) (dec : Decoders) (flags : Flags) (incoming : List Incoming) (as' : List Action)
    (w : Clients) (c : ℕ)
    → flags.raw ≡ true
    → published as' ≡ events_of (effects dec incoming)
    → run no_clients as' ≡ some w
    → let raws = map (λ (evt : Event). evt.raw) (received no_clients c as') in
      (print_events enc flags (received no_clients c as') ≡ non_blank raws)
      × Sublistᴰ raws (frames incoming)
raw_output_follows_frames enc dec flags incoming as' w c raw fans ran = (
  raw_lines enc flags (received no_clients c as') raw,
  Sublistᴰ.trans
      (Sublistᴰ-map (λ (evt : Event). evt.raw)
        (prefix-Sublistᴰ (received no_clients c as') (buffer_at w.hub.channels c)))
      (consumers_follow_frames dec incoming as' w c fans ran),
)

abbrev pub HasRaw : Event → Type 0
HasRaw evt = (evt.raw == "") ≡ false

encoded_one : (p : Parsed String) (evt : Event) → HasRaw evt → length (encoded_line p evt) ≡ 1
encoded_one (bad e) evt h = rw h refl
encoded_one (parsed output) evt h = refl

print_event_one :
    (enc : Encoders) (flags : Flags) (evt : Event)
    → HasRaw evt
    → length (print_event enc flags evt) ≡ 1
unfolding print_event
print_event_one enc flags evt h = elim (Bool-cases flags.raw) [
  | inl raw ↦ rw (raw, h) refl
  | inr decoded ↦ elim (Bool-cases flags.pretty) [
    | inl pretty ↦ rw (decoded, pretty) (encoded_one (enc.marshal_indent evt) evt h)
    | inr plain ↦ rw (decoded, plain) (encoded_one (enc.marshal evt) evt h)
  ]
]

-- Of events that have raw bytes exactly one line is printed each, under all flags, and also where an
-- event cannot be encoded.
prints_every_event :
    (enc : Encoders) (flags : Flags) (evts : List Event)
    → All HasRaw evts
    → length (print_events enc flags evts) ≡ length evts
unfolding print_events
prints_every_event enc flags [] h = refl
prints_every_event enc flags (evt ∷ evts) (h, hs) = omega (
  arith,
  length-append (print_event enc flags evt) (print_events enc flags evts),
  print_event_one enc flags evt h,
  prints_every_event enc flags evts hs,
)
