-- ===== src/Frame/Effects.antt =====
-- What a connection's frames do: to the channels, to the requests, and to `onError`.
use klever_subscriber.Base.{
  ◌≡◌, refl, ◌∙◌, true, false, String, List, [], ◌∷◌, ◌++◌, Option, some, ◌==◌, string_eq,
  if◌then◌else◌, arith, inl, inr, Bool-cases, map, append-nil, append_assoc,
}
use klever_subscriber.Event.{Event}
use klever_subscriber.Hub.{fans_out, run, act}
use klever_subscriber.Hub.Sound.{IsSound, fan_out_lem, offered-IsSound}
use klever_subscriber.Request.{Response, route_response, routes, by_others, by_other}
use klever_subscriber.Frame.{
  Parsed, bad, parsed, Probe, Decoders, ReadError, read_failed, bad_frame, bad_response,
  server_error, Reader, Incoming, message, broken, decode_event, plain_event, event_or_plain,
  report, publish, respond, handle_probed, handle_frame, read_loop,
}

-- A frame is a reply, an error or an event, and nothing else.
pub data Effect : Type 0 where
  replies : Response → Effect
  fails : ReadError → Effect
  publishes : Event → Effect

abbrev pub replied : String → Parsed Response → Effect
replied id (bad e) = fails (bad_response id e)
replied id (parsed resp) = replies resp

-- The order of the tests: an id before an error before a type.
abbrev pub effect_of : Decoders → String → Parsed Probe → Effect
effect_of dec frame (bad e) = fails (bad_frame e)
effect_of dec frame (parsed p) =
    if p.id == ""
    then (if p.error == ""
        then publishes (
            if p.type == ""
            then plain_event frame
            else event_or_plain (decode_event dec frame) frame)
        else fails (server_error p.error))
    else replied p.id (dec.response frame)

-- The effects of what is read, up to the first error of `ReadMessage`.
abbrev pub effects : Decoders → List Incoming → List Effect
effects dec [] = []
effects dec (message frame ∷ rest) = effect_of dec frame (dec.probe frame) ∷ effects dec rest
effects dec (broken true e ∷ rest) = fails (read_failed e) ∷ []
effects dec (broken false e ∷ rest) = []

abbrev pub events_of : List Effect → List Event
events_of [] = []
events_of (publishes evt ∷ es) = evt ∷ events_of es
events_of (replies resp ∷ es) = events_of es
events_of (fails e ∷ es) = events_of es

abbrev pub replies_of : List Effect → List Response
replies_of [] = []
replies_of (replies resp ∷ es) = resp ∷ replies_of es
replies_of (publishes evt ∷ es) = replies_of es
replies_of (fails e ∷ es) = replies_of es

abbrev pub errors_of : List Effect → List ReadError
errors_of [] = []
errors_of (fails e ∷ es) = e ∷ errors_of es
errors_of (replies resp ∷ es) = errors_of es
errors_of (publishes evt ∷ es) = errors_of es

-- What an effect does.
abbrev pub perform : Effect → Reader → Option Reader
perform (replies resp) s =
    some
      (record s { client = record s.client { requests = route_response s.client.requests resp } })
perform (fails e) s = some (report e s)
perform (publishes evt) s = publish evt s

responds :
    (id : String) (r : Parsed Response) (s : Reader)
    → some (respond id r s) ≡ perform (replied id r) s
responds id (bad e) s = refl
responds id (parsed resp) s = refl

probed_lem :
    (dec : Decoders) (s : Reader) (frame : String) (p : Probe)
    → handle_probed dec s frame p ≡ perform (effect_of dec frame (parsed p)) s
unfolding handle_probed
probed_lem dec s frame p = elim (Bool-cases (p.id == "")) [
  | inr reply ↦ rw reply (responds p.id (dec.response frame) s)
  | inl none_id ↦ elim (Bool-cases (p.error == "")) [
    | inr error ↦ rw (none_id, error) refl
    | inl fine ↦ elim (Bool-cases (p.type == "")) [
      | inr typed ↦ rw (none_id, fine, typed) refl
      | inl plain ↦ rw (none_id, fine, plain) refl
    ]
  ]
]

pub handle_frame_lem :
    (dec : Decoders) (s : Reader) (frame : String) (p : Parsed Probe)
    → dec.probe frame ≡ p
    → handle_frame dec s frame ≡ perform (effect_of dec frame p) s
unfolding handle_frame
handle_frame_lem dec s frame (bad e) h = ground arith
handle_frame_lem dec s frame (parsed p) h = rw (h, handle_frame) (probed_lem dec s frame p)

-- A connection as a run of the channels and of the requests: the events are fanned out in order, the
-- replies are routed in order, the errors are reported in order, and nothing else changes.
pub record Performs (s s' : Reader) (es : List Effect) : Type 0 where
  pub channels :
      run (record { hub = s.client.hub; handles = [] }) (map fans_out (events_of es))
      ≡ some (record { hub = s'.client.hub; handles = [] })
  pub requests : s'.client.requests ≡ by_others s.client.requests (map routes (replies_of es))
  pub reports : s'.reports ≡ (if s.client.on_error then s.reports ++ errors_of es else s.reports)
  pub others : s'.client ≡ record s.client { hub = s'.client.hub; requests = s'.client.requests }

fails-Performs :
    (e : ReadError) (es : List Effect) (s : Reader)
    → IsSound s.client.hub
    → (s₁ : Reader) × (some (report e s) ≡ some s₁)
      × IsSound s₁.client.hub
      × ((s' : Reader) → Performs s₁ s' es → Performs s s' (fails e ∷ es))
fails-Performs e es s v = elim (Bool-cases s.client.on_error) [
  | inl told ↦ (
    record s { reports = s.reports ++ e ∷ [] },
    rw told refl,
    v,
    λ s' q. record {
      channels = q.channels;
      requests = q.requests;
      reports = ground (arith, q.reports, append_assoc s.reports (e ∷ []) (errors_of es));
      others = q.others;
    },
  )
  | inr silent ↦ (
    s,
    rw silent refl,
    v,
    λ s' q. record {
      channels = q.channels;
      requests = q.requests;
      reports = ground (arith, q.reports);
      others = q.others;
    },
  )
]

pub perform-Performs :
    (e : Effect) (es : List Effect) (s : Reader)
    → IsSound s.client.hub
    → (s₁ : Reader) × (perform e s ≡ some s₁)
      × IsSound s₁.client.hub
      × ((s' : Reader) → Performs s₁ s' es → Performs s s' (e ∷ es))
unfolding publish run act by_others by_other
perform-Performs (replies resp) es s v = (
  record s { client = record s.client { requests = route_response s.client.requests resp } },
  refl,
  v,
  λ s' q. record {
    channels = q.channels;
    requests = q.requests;
    reports = q.reports;
    others = q.others;
  },
)
perform-Performs (fails e) es s v = fails-Performs e es s v
perform-Performs (publishes evt) es s v =
    let (heap, runs, changed) = fan_out_lem s.client.hub evt v in
    (
      record s { client = record s.client { hub = record s.client.hub { channels = heap } } },
      rw runs,
      offered-IsSound evt s.client.hub heap v changed,
      λ s' q. record {
        channels = rw runs q.channels;
        requests = q.requests;
        reports = q.reports;
        others = q.others;
      },
    )

done-Performs : (s : Reader) → Performs s s []
unfolding run by_others
done-Performs s = record {
  channels = refl;
  requests = refl;
  reports = ground (arith, append-nil s.reports);
  others = refl;
}

-- The read loop does not panic on a sound hub, and what it does are the effects of the frames: the
-- events are fanned out in order, the replies are routed in order, the errors are reported in order
-- if `onError` is set, up to the first error of `ReadMessage`, and nothing else of the client changes.
pub read_loop_lem :
    (dec : Decoders) (incoming : List Incoming) (s : Reader)
    → IsSound s.client.hub
    → (s' : Reader) × (read_loop dec s incoming ≡ some s') × Performs s s' (effects dec incoming)
unfolding read_loop
read_loop_lem dec [] s v = (s, refl, done-Performs s)
read_loop_lem dec (message frame ∷ rest) s v =
    let e = effect_of dec frame (dec.probe frame) in
    let (s₁, performs, v₁, then_all) = perform-Performs e (effects dec rest) s v in
    let (s', runs, q) = read_loop_lem dec rest s₁ v₁ in
    (s', rw (handle_frame_lem dec s frame (dec.probe frame) refl ∙ performs) runs, then_all s' q)
read_loop_lem dec (broken true e ∷ rest) s v =
    let (s₁, performs, v₁, then_all) = fails-Performs (read_failed e) [] s v in
    (s₁, performs, then_all s₁ (done-Performs s₁))
read_loop_lem dec (broken false e ∷ rest) s v = (s, refl, done-Performs s)
