-- ===== src/Server/Whole.antt =====
-- The server from its start: what holds after every run of its goroutines.
use klever_subscriber.Base.{
  ◌≤◌, ◌≡◌, refl, ◌∙◌, sym, ap, subst, String, List, [], ◌∷◌, ◌++◌, some, arith,
}
use klever_subscriber.Event.{EventType}
use klever_subscriber.Hub.{Subscription}
use klever_subscriber.Hub.Sound.{IsSound}
use klever_subscriber.Hub.Safety.{subscribe-IsSound}
use klever_subscriber.Subscriber.{Subscriber, url}
use klever_subscriber.Broker.{new, no_counts}
use klever_subscriber.Broker.Counts.{Tallied}
use klever_subscriber.Broker.Sse.Counts.{count, is_served}
use klever_subscriber.Broker.Sse.Limit.{started-IsLimited}
use klever_subscriber.Server.{default_max_clients, Dashboard, new_server, start}
use klever_subscriber.Server.Safety.{IsServing}
use klever_subscriber.Server.Steps.{Step, step, run}
use klever_subscriber.Server.Flow.{taken_by}
use klever_subscriber.Server.Turns.{step-Steps}
use klever_subscriber.Server.Counting.{taken, recorded, recorded-append}

abbrev pub opened : String → Subscriber → List Subscription → Dashboard
opened addr sub handles = start (new_server addr sub) handles

pub opened-IsServing :
    (addr : String) (sub : Subscriber) (handles : List Subscription)
    → IsSound sub.hub
    → IsServing (opened addr sub handles)
unfolding start new_server new
opened-IsServing addr sub handles v = record {
  sound = subscribe-IsSound sub.hub v;
  limited = started-IsLimited default_max_clients (url sub);
  capped = refl;
}

pub nothing_counted : Tallied [] no_counts
nothing_counted = record {
  all = refl;
  of_blocks = refl;
  of_txs = refl;
  of_user_txs = refl;
  of_accounts = refl;
  of_others = refl;
}

pub taken-cons :
    (d d₁ : Dashboard) (a : Step) (as' : List Step)
    → step d a ≡ some d₁
    → taken d (a ∷ as') ≡ taken_by d a ++ taken d₁ as'
unfolding taken
taken-cons d d₁ a as' h = ground arith

run_total :
    (d : Dashboard) (as' : List Step) (h : List EventType)
    → IsServing d
    → Tallied h d.stats.broker.counters
    → (d' : Dashboard) × (run d as' ≡ some d')
      × IsServing d'
      × Tallied (recorded (taken d as') h) d'.stats.broker.counters
unfolding run
run_total d [] h v t = (d, refl, v, unfold taken in t)
run_total d (a ∷ as') h v t =
    let s = step-Steps d a h v t in
    let (d', runs, serving, tallied) =
      run_total s.next as' (recorded (taken_by d a) h) s.serving s.tallied in
    (
      d',
      rw s.runs runs,
      serving,
      subst (λ l. Tallied l d'.stats.broker.counters)
          (sym (
            ap (λ l. recorded l h) (taken-cons d s.next a as' s.runs)
            ∙ recorded-append (taken_by d a) (taken s.next as') h))
          tallied,
    )

-- A server that is started on a client whose channels are sound, in every interleaving of its
-- goroutines with those of the client: nothing panics, the channels of the client stay sound, at
-- most `DefaultMaxClients` streams are served at once, and the counters hold the counts of the
-- events that `ProcessEvents` has taken, modulo 2 ^ 64.
pub server_runs :
    (addr : String) (sub : Subscriber) (handles : List Subscription) (as' : List Step)
    → IsSound sub.hub
    → (d : Dashboard) × (run (opened addr sub handles) as' ≡ some d)
      × IsSound d.client.hub
      × (count is_served d.streams ≤ 100)
      × Tallied (recorded (taken (opened addr sub handles) as') []) d.stats.broker.counters
unfolding start new_server new
server_runs addr sub handles as' v =
    let (d, runs, serving, tallied) =
      run_total (opened addr sub handles) as' [] (opened-IsServing addr sub handles v)
        nothing_counted in
    (d, runs, serving.sound, omega (arith, serving.limited.capped, serving.capped), tallied)
