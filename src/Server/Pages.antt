-- ===== src/Server/Pages.antt =====
-- What the dashboards are sent, against the events that the client fans out.
pub mod Tests
use mathlib.Core.List.{Sublistᴰ}
use mathlib.Core.List.Sublistᴰ
use mathlib.Core.List.Sublistᴰ.{slnil, cons, cons-cons}
use klever_subscriber.Base.{
  ℕ, All, All-append, map, true, false, ◌≡◌, refl, ◌∙◌, sym, ap, subst, inl, inr, String, List, [],
  ◌∷◌, ◌++◌, some, get_elem?, arith, Bool-cases, Option-cases, append_assoc, append-nil, not, ◌&&◌,
}
use klever_subscriber.Event.{Event, EventType}
use klever_subscriber.Chan.{Received, got, drained, waits, receive}
use klever_subscriber.Hub.{Subscription}
use klever_subscriber.Hub as Channels
use klever_subscriber.Hub.Sound.{IsSound}
use klever_subscriber.Hub.Buffers.{value_of}
use klever_subscriber.Chan.Buffers.{buffer_at}
use klever_subscriber.Hub.Delivery.{Sublistᴰ-append}
use klever_subscriber.Subscriber.{Subscriber, url}
use klever_subscriber.Broker.{Broker, SseFrame, Payload, process_event, new}
use klever_subscriber.Broker.Counts.{Tallied}
use klever_subscriber.Broker.Stats.{StatsLoop, Tick, on_tick}
use klever_subscriber.Broker.Sse.{Turn, serving}
use klever_subscriber.Broker.Sse.Order.{IsInOrder, oldest_first}
use klever_subscriber.Broker.Sse.Order.Runs.{turned, turned-IsInOrder, started-IsInOrder}
use klever_subscriber.Broker.Wire.Pages.{prefix-Sublistᴰ, HasPlainName, fed_page}
use klever_subscriber.Server.{
  heartbeat, default_max_clients, Dashboard, new_server, start, with_broker,
}
use klever_subscriber.Server.Safety.{IsServing}
use klever_subscriber.Server.Steps.{
  Step, consumes, quits, ticks, stops_ticking, serves, streams_on, shuts_down, finishes,
  on_channels, connects, with_clients, do_channels, consumed, consume, stream_turn, step, run,
}
use klever_subscriber.Server.Flow.{taken_by, nil-Sublistᴰ}
use klever_subscriber.Server.Counting.{
  taken, recorded, do_channels-IsServing, consume-on, consume-off,
}
use klever_subscriber.Server.Turns.{step-Steps}
use klever_subscriber.Server.Whole.{opened, opened-IsServing, nothing_counted, taken-cons}
use klever_subscriber.Server.Broadcasts.{step-Tells}
use klever_subscriber.Server.Order.{offered, counted_in_order}
use klever_subscriber.Server.Routes.{serve_http-Tells}
use klever_subscriber.Broker.Wire.{body, IsOneLined}
use klever_subscriber.Broker.Wire.Source.{messages}
use klever_subscriber.Broker.Wire.Dispatch.{message_of}
use klever_subscriber.Server.Telling.{
  streaming, event_of, events_in, events_in-append, events_in-Sublistᴰ, Tells, silent-Tells,
  alike-Tells, process-Tells, on_tick-Tells,
}

run_tells :
    (d d' : Dashboard) (as' : List Step) (h : List EventType) (history : List SseFrame)
    → IsServing d
    → Tallied h d.stats.broker.counters
    → IsInOrder history (streaming d)
    → run d as' ≡ some d'
    → (new : List SseFrame) × (events_in new ≡ taken d as')
      × All HasPlainName new
      × IsInOrder (history ++ new) (streaming d')
unfolding run taken events_in
run_tells d d' [] h history v t o ran =
    let same : d ≡ d' = ground (arith, ran) in
    ([], refl, tt, rw (append-nil history) (subst (λ x. IsInOrder history (streaming x)) same o))
run_tells d d' (a ∷ as') h history v t o ran =
    let s = step-Steps d a h v t in
    let told = step-Tells d s.next a v s.runs in
    let rest : run s.next as' ≡ some d' = sym (rw s.runs refl) ∙ ran in
    let (new, events, plain, o') =
      run_tells s.next d' as' (recorded (taken_by d a) h) (history ++ told.frames) s.serving
        s.tallied (told.keeps history o) rest in
    (
      told.frames ++ new,
      events_in-append told.frames new
          ∙ ap (λ l. l ++ events_in new) told.events
          ∙ ap (◌++◌ (taken_by d a)) events
          ∙ sym (taken-cons d s.next a as' s.runs),
      All-append HasPlainName told.frames new told.plain plain,
      subst (λ l. IsInOrder l (streaming d')) (append_assoc history told.frames new) o',
    )

-- In every run of a server that is started on a client whose channels are sound, if no line ends
-- inside what json.Marshal returns: the page of a dashboard that is served has dispatched one message
-- with the statistics and then the messages of further frames, each with its data under its event; and
-- the events in these, with those in the frames that wait for the dashboard, are a subsequence of the
-- events that the client has fanned out.
pub dashboards_follow_client :
    (marshal : Payload → List ℕ) (addr : String) (sub : Subscriber) (handles : List Subscription)
    (as' : List Step) (d : Dashboard) (k c : ℕ) (written : List SseFrame)
    → IsOneLined marshal
    → IsSound sub.hub
    → run (opened addr sub handles) as' ≡ some d
    → get_elem? d.streams k ≡ some (serving c written)
    → (stats : SseFrame) × (later : List SseFrame) × (stats.event ≡ "stats")
      × (messages (body marshal written)
          ≡ message_of marshal stats ∷ map (message_of marshal) later)
      × Sublistᴰ (events_in (later ++ buffer_at d.stats.broker.frames c)) (offered as')
unfolding start new_server new
dashboards_follow_client marshal addr sub handles as' d k c written one_lined v ran at =
    let w = opened addr sub handles in
    let (history, events, plain, o) =
      run_tells w d as' [] [] (opened-IsServing addr sub handles v) nothing_counted
        (started-IsInOrder default_max_clients (url sub)) ran in
    let fed = o.follows k (serving c written) at in
    (
      fed.stats,
      fed.later,
      fed.first,
      fed_page marshal history (d.stats.broker.frames, c) written one_lined plain fed,
      Sublistᴰ.trans (subst (Sublistᴰ _) events (events_in-Sublistᴰ fed.in_order)) (
          Sublistᴰ.trans (prefix-Sublistᴰ (taken w as') _)
            (counted_in_order addr sub handles as' d v ran)),
    )
