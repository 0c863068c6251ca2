-- ===== src/Server/Order.antt =====
-- The events that the broker counts against those that the client fans out.
use mathlib.Core.List.{Sublistᴰ}
use mathlib.Core.List.Sublistᴰ
use mathlib.Core.List.Sublistᴰ.{slnil}
use klever_subscriber.Base.{
  ◌≡◌, refl, ◌∙◌, sym, ap, subst, String, List, [], ◌∷◌, ◌++◌, some, length, append-nil, arith,
}
use klever_subscriber.Event.{EventType, Event}
use klever_subscriber.Chan.{Heap, make_chan}
use klever_subscriber.Hub.{Subscription, subscribe}
use klever_subscriber.Hub.Sound.{IsSound}
use klever_subscriber.Hub.Buffers.{buffer_at, buffer_at-snoc}
use klever_subscriber.Hub.Delivery.{Sublistᴰ-append, regroup}
use klever_subscriber.Subscriber.{Subscriber}
use klever_subscriber.Broker.{new}
use klever_subscriber.Broker.Counts.{Tallied}
use klever_subscriber.Server.{Dashboard, new_server, start}
use klever_subscriber.Server.Safety.{IsServing}
use klever_subscriber.Server.Steps.{Step, run}
use klever_subscriber.Server.Flow.{taken_by, offered_by, self-Sublistᴰ}
use klever_subscriber.Server.Turns.{step-Steps}
use klever_subscriber.Server.Counting.{taken, recorded}
use klever_subscriber.Server.Whole.{opened, opened-IsServing, nothing_counted, taken-cons}

-- The events that the client fans out in a run.
abbrev pub offered : List Step → List Event
offered [] = []
offered (a ∷ as') = offered_by a ++ offered as'

buffer_at-past : (heap : Heap Event) → buffer_at heap (length heap) ≡ []
buffer_at-past [] = refl
buffer_at-past (ch ∷ heap) = buffer_at-past heap

opened-buffer :
    (addr : String) (sub : Subscriber) (handles : List Subscription)
    → let d = opened addr sub handles in buffer_at d.client.hub.channels d.channel ≡ []
unfolding start subscribe make_chan new_server
opened-buffer addr sub handles =
    buffer_at-snoc sub.hub.channels (length sub.hub.channels) ∙ buffer_at-past sub.hub.channels

run_flows :
    (d d' : Dashboard) (as' : List Step) (h : List EventType)
    → IsServing d
    → Tallied h d.stats.broker.counters
    → run d as' ≡ some d'
    → (new : List Event) × (out : List Event) × Sublistᴰ new (offered as')
      × Sublistᴰ (taken d as') out
      × (buffer_at d.client.hub.channels d.channel ++ new
          ≡ out ++ buffer_at d'.client.hub.channels d.channel)
unfolding run
run_flows d d' [] h v t ran = (
  [],
  [],
  slnil,
  unfold taken in slnil,
  ground (arith, append-nil (buffer_at d.client.hub.channels d.channel)),
)
run_flows d d' (a ∷ as') h v t ran =
    let s = step-Steps d a h v t in
    let f = s.flows in
    let rest : run s.next as' ≡ some d' = sym (rw s.runs refl) ∙ ran in
    let (new, out, from, to, moves) =
      run_flows s.next d' as' (recorded (taken_by d a) h) s.serving s.tallied rest in
    (
      f.arriving ++ new,
      f.departing ++ out,
      Sublistᴰ-append f.from_client from,
      rw (taken-cons d s.next a as' s.runs) (Sublistᴰ-append f.to_broker to),
      regroup (buffer_at d.client.hub.channels d.channel) f.arriving f.departing
          (buffer_at s.next.client.hub.channels d.channel) new out
          (buffer_at d'.client.hub.channels d.channel) f.moves
          (subst
            (λ c.
              buffer_at s.next.client.hub.channels c ++ new
              ≡ out ++ buffer_at d'.client.hub.channels c)
            f.same_channel moves),
    )

-- In every run of a server that is started on a client whose channels are sound: the events that
-- `ProcessEvents` has taken, with those that wait for it, are a subsequence of the events that the
-- client has fanned out.
pub counted_in_order :
    (addr : String) (sub : Subscriber) (handles : List Subscription) (as' : List Step)
    (d : Dashboard)
    → IsSound sub.hub
    → run (opened addr sub handles) as' ≡ some d
    → Sublistᴰ
        (taken (opened addr sub handles) as'
          ++ buffer_at d.client.hub.channels (opened addr sub handles).channel)
        (offered as')
unfolding start new_server new
counted_in_order addr sub handles as' d v ran =
    let w = opened addr sub handles in
    let (new, out, from, to, moves) =
      run_flows w d as' [] (opened-IsServing addr sub handles v) nothing_counted ran in
    let all : new ≡ out ++ buffer_at d.client.hub.channels w.channel =
      sym (ap (λ (l : List Event). l ++ new) (opened-buffer addr sub handles)) ∙ moves in
    Sublistᴰ.trans (Sublistᴰ-append to (self-Sublistᴰ (buffer_at d.client.hub.channels w.channel)))
      (subst (λ l. Sublistᴰ l (offered as')) all from)
