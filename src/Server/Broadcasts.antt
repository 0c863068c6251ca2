-- ===== src/Server/Broadcasts.antt =====
-- What each step of the server broadcasts to the dashboards.
use klever_subscriber.Base.{
  ℕ, true, false, ◌≡◌, refl, ◌∙◌, sym, subst, inl, inr, [], ◌∷◌, some, get_elem?, arith, Bool-cases,
  Option-cases, not, ◌&&◌,
}
use klever_subscriber.Event.{Event}
use klever_subscriber.Chan.{Received, got, drained, waits, receive}
use klever_subscriber.Hub.{Subscription}
use klever_subscriber.Hub as Channels
use klever_subscriber.Hub.Buffers.{value_of}
use klever_subscriber.Broker.{process_event, new}
use klever_subscriber.Broker.Stats.{Tick, on_tick}
use klever_subscriber.Broker.Sse.{Turn}
use klever_subscriber.Broker.Sse.Order.Runs.{turned-IsInOrder}
use klever_subscriber.Server.{heartbeat, Dashboard, with_broker}
use klever_subscriber.Server.Safety.{IsServing}
use klever_subscriber.Server.Steps.{
  Step, consumes, quits, ticks, stops_ticking, serves, streams_on, shuts_down, finishes,
  on_channels, connects, with_clients, consumed, consume, stream_turn, step,
}
use klever_subscriber.Server.Flow.{taken_by}
use klever_subscriber.Server.Counting.{do_channels-IsServing, consume-on, consume-off}
use klever_subscriber.Server.Routes.{serve_http-Tells}
use klever_subscriber.Server.Telling.{
  streaming, Tells, silent-Tells, alike-Tells, process-Tells, on_tick-Tells,
}

-- A step that leaves the broker and the streams as they are.
resting :
    (d d' d'' : Dashboard)
    → streaming d'' ≡ streaming d
    → d'' ≡ d'
    → Tells (streaming d) (streaming d') []
resting d d' d'' same new =
    subst (λ x. Tells (streaming d) (streaming x) []) new
      (subst (λ x. Tells (streaming d) x []) (sym same)
        (alike-Tells d.stats.broker (streaming d) refl))

consumed-Tells :
    (d d' : Dashboard) (now : ℕ) (r : Received Event)
    → IsServing d
    → consumed d now r ≡ some d'
    → Tells (streaming d) (streaming d') (value_of r)
consumed-Tells d d' now (got evt) v runs =
    elim (Option-cases (process_event d.stats.broker evt now)) [
      | inl fails ↦ absurd (ground (arith, runs, fails))
      | inr (b, sends) ↦
          let new : with_broker b d ≡ d' = ground (arith, runs, sends) in
          subst (λ x. Tells (streaming d) (streaming x) (evt ∷ [])) new
            (process-Tells (streaming d) evt now b v.limited.live sends)
    ]
consumed-Tells d d' now drained v runs =
    resting d d' (record d { consuming = false }) refl (ground (arith, runs))
consumed-Tells d d' now waits v runs = resting d d' d refl (ground (arith, runs))

consume-Tells :
    (d d' : Dashboard) (now : ℕ)
    → IsServing d
    → consume d now ≡ some d'
    → Tells (streaming d) (streaming d') (taken_by d (consumes now))
unfolding taken_by
consume-Tells d d' now v runs = elim (Bool-cases d.consuming) [
  | inr off ↦
      let same = sym (consume-off d now off) ∙ runs in
      rw off (resting d d' d refl (ground (arith, same)))
  | inl on ↦
      let (w, acts, sound, moved) = do_channels-IsServing d (Channels.receives d.channel) v in
      rw on (
        consumed-Tells (with_clients w d) d' now (receive d.client.hub.channels d.channel).1 sound
          (sym (consume-on d now w on acts) ∙ runs))
]

stream_turn-Tells :
    (d : Dashboard) (k : ℕ) (t : Turn) → Tells (streaming d) (streaming (stream_turn d k t)) []
unfolding stream_turn
stream_turn-Tells d k t = elim (Option-cases (get_elem? d.streams k)) [
  | inl gone ↦ rw (gone, stream_turn) (alike-Tells d.stats.broker (streaming d) refl)
  | inr (old, at) ↦
      let u : Turn = record t { connected = d.client.connected } in
      rw (at, stream_turn)
        (silent-Tells (streaming d) _
          (λ history o. turned-IsInOrder history (streaming d) o k old at u))
]

tick-Tells :
    (d d' : Dashboard) (t : Tick)
    → IsServing d
    → step d (ticks t) ≡ some d'
    → Tells (streaming d) (streaming d') []
unfolding step
tick-Tells d d' t v runs = elim (Bool-cases d.ticking) [
  | inr off ↦ resting d d' d refl (ground (arith, runs, off))
  | inl on ↦
      let u : Tick = record t { connected = d.client.connected } in
      elim (Option-cases (on_tick heartbeat d.stats u)) [
        | inl fails ↦ absurd (ground (arith, runs, on, fails))
        | inr (l, pushed) ↦
            let new : record d { stats = l } ≡ d' = ground (arith, runs, on, pushed) in
            subst (λ x. Tells (streaming d) (streaming x) []) new
              (on_tick-Tells (streaming d) heartbeat d.stats l u refl v.limited.live pushed)
      ]
]

shut-Tells :
    (d d' : Dashboard)
    → IsServing d
    → step d shuts_down ≡ some d'
    → Tells (streaming d) (streaming d') []
unfolding step
shut-Tells d d' v runs = elim (Bool-cases (d.done && not d.shut)) [
  | inr early ↦ resting d d' d refl (ground (arith, runs, early))
  | inl now ↦
      let (w, acts, _, _) = do_channels-IsServing d (Channels.closes d.own) v in
      resting d d' (record (with_clients w d) { shut = true }) refl
        (ground (arith, runs, now, acts))
]

pub step-Tells :
    (d d' : Dashboard) (a : Step)
    → IsServing d
    → step d a ≡ some d'
    → Tells (streaming d) (streaming d') (taken_by d a)
unfolding step taken_by
step-Tells d d' (consumes now) v runs = consume-Tells d d' now v runs
step-Tells d d' (ticks t) v runs = tick-Tells d d' t v runs
step-Tells d d' shuts_down v runs = shut-Tells d d' v runs
step-Tells d d' (serves call) v runs = serve_http-Tells d d' call v runs
step-Tells d d' (streams_on k t) v runs =
    let new : stream_turn d k t ≡ d' = ground (arith, runs) in
    subst (λ x. Tells (streaming d) (streaming x) []) new (stream_turn-Tells d k t)
step-Tells d d' (on_channels a) v runs =
    let (w, acts, _, _) = do_channels-IsServing d a v in
    resting d d' (with_clients w d) refl (ground (arith, runs, acts))
step-Tells d d' quits v runs =
    resting d d' (record d { consuming = d.consuming && not d.done }) refl (ground (arith, runs))
step-Tells d d' stops_ticking v runs =
    resting d d' (record d { ticking = d.ticking && not d.done }) refl (ground (arith, runs))
step-Tells d d' finishes v runs =
    resting d d' (record d { done = true }) refl (ground (arith, runs))
step-Tells d d' (connects b) v runs =
    resting d d' (record d { client = record d.client { connected = b } }) refl
      (ground (arith, runs))
