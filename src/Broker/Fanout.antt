-- ===== src/Broker/Fanout.antt =====
-- Frames to the dashboards: `broadcast` and the loop of `ProcessEvents`.
use klever_subscriber.Base.{
  ℕ, ◌≡◌, refl, ◌∙◌, true, List, [], ◌∷◌, some, arith, nat_eq, contains, IsDistinct,
}
use klever_subscriber.Event.{EventType, Event}
use klever_subscriber.Chan.{Heap, Chan, deliver, send_or_skip}
use klever_subscriber.Chan.Laws.{
  IsOpenAt, ChangedAt, for_each_lem, send_or_skip_lem, ChangedAt-open,
}
use klever_subscriber.Broker.{
  Broker, SseFrame, of_event, record_event, broadcast, process_event, process_events,
}
use klever_subscriber.Broker.Counts.{Tallied, count_type-Tallied}

-- Each dashboard is listed once, and its channel is there and open.
pub record IsLive (frames : Heap SseFrame) (clients : List ℕ) : Type 0 where
  pub distinct : IsDistinct clients
  pub opened : (c : ℕ) → contains clients c ≡ true → IsOpenAt frames c

-- The counters, the dashboards and their number are as they were.
pub record Untouched (b b' : Broker) : Type 0 where
  pub same_counters : b'.counters ≡ b.counters
  pub same_clients : b'.clients ≡ b.clients
  pub same_count : b'.sse_count ≡ b.sse_count
  pub same_limit : b'.max_clients ≡ b.max_clients

-- If the dashboards are listed once and their channels are open, a broadcast does not panic. It
-- offers the frame to each of them, touches nothing else, and leaves them so.
pub broadcast_lem :
    (b : Broker) (f : SseFrame)
    → IsLive b.frames b.clients
    → (frames : Heap SseFrame) × (broadcast b f ≡ some (record b { frames = frames }))
      × ChangedAt (deliver f) b.clients b.frames frames
      × IsLive frames b.clients
unfolding broadcast
broadcast_lem b f v =
    let (frames, runs, changed, _) =
      for_each_lem (deliver f) (send_or_skip f) (send_or_skip_lem f) b.clients b.frames v.distinct
        v.opened in
    (
      frames,
      rw runs,
      changed,
      record {
        distinct = v.distinct;
        opened = λ c m.
            ChangedAt-open (deliver f) (deliver-closed f) b.clients b.frames frames changed c
              (v.opened c m);
      },
    )
  where
    deliver-closed : (f : SseFrame) (ch : Chan SseFrame) → (deliver f ch).closed ≡ ch.closed
    deliver-closed f ch = ground arith

-- The types of the events, the last first, before those recorded earlier.
abbrev pub types_onto : List (Event × ℕ) → List EventType → List EventType
types_onto [] h = h
types_onto ((evt, now) ∷ evts) h = types_onto evts (evt.type ∷ h)

record_event-counters :
    (b : Broker) (t : EventType) (now : ℕ) (h : List EventType)
    → Tallied h b.counters
    → Tallied (t ∷ h) (record_event b t now).counters
unfolding record_event
record_event-counters b t now h v = count_type-Tallied h b.counters t v

-- `ProcessEvents` at one event.
pub process_event_lem :
    (b : Broker) (evt : Event) (now : ℕ) (h : List EventType)
    → IsLive b.frames b.clients
    → Tallied h b.counters
    → (b' : Broker) × (process_event b evt now ≡ some b')
      × Tallied (evt.type ∷ h) b'.counters
      × IsLive b'.frames b'.clients
      × (b'.sse_count ≡ b.sse_count)
      × (b'.max_clients ≡ b.max_clients)
unfolding process_event record_event
process_event_lem b evt now h v t =
    let b₁ = record_event b evt.type now in
    let (frames, runs, _, live) =
      broadcast_lem b₁ (record { event = ""; payload = of_event evt }) v in
    (
      record b₁ { frames = frames },
      runs,
      record_event-counters b evt.type now h t,
      live,
      refl,
      refl,
    )

process_events-cons :
    (b : Broker) (evt : Event) (now : ℕ) (evts : List (Event × ℕ)) (b₁ : Broker)
    → process_event b evt now ≡ some b₁
    → process_events b ((evt, now) ∷ evts) ≡ process_events b₁ evts
unfolding process_events
process_events-cons b evt now evts b₁ h = ground arith

-- If the dashboards are listed once and their channels are open, and the counters hold the counts of
-- a history, then after `ProcessEvents` has taken more events, without a panic, they hold the counts
-- of the longer history, modulo 2 ^ 64, whether or not a dashboard had room.
pub process_events-Tallied :
    (b : Broker) (evts : List (Event × ℕ)) (h : List EventType)
    → IsLive b.frames b.clients
    → Tallied h b.counters
    → (b' : Broker) × (process_events b evts ≡ some b')
      × Tallied (types_onto evts h) b'.counters
      × IsLive b'.frames b'.clients
unfolding process_events
process_events-Tallied b [] h v t = (b, refl, t, v)
process_events-Tallied b ((evt, now) ∷ evts) h v t =
    let (b₁, runs, tallied, live, _, _) = process_event_lem b evt now h v t in
    let (b', rest, tallied', live') = process_events-Tallied b₁ evts (evt.type ∷ h) live tallied in
    (b', process_events-cons b evt now evts b₁ runs ∙ rest, tallied', live')
