-- ===== src/Server/Shutdown.antt =====
-- The end of `ProcessEvents` after the server's subscription has been closed.
use klever_subscriber.Base.{
  ℕ, ◌≡◌, refl, sym, subst, Bool, true, false, List, ◌∷◌, some, nat_eq, contains, get_elem?, set,
  get_elem?-set_self, get_elem?-lt,
}
use klever_subscriber.Event.{EventType, Event}
use klever_subscriber.Chan.{Chan, shut}
use klever_subscriber.Hub.{Hub, Subscription}
use klever_subscriber.Hub as Channels
use klever_subscriber.Chan.Laws.{close_chan_lem}
use klever_subscriber.Hub.Safety.{remove_sub_runs, cut_out-some, removed-IsSound}
use klever_subscriber.Hub.Sound.{IsSound}
use klever_subscriber.Hub.Buffers.{buffer_at}
use klever_subscriber.Broker.Counts.{Tallied}
use klever_subscriber.Server.{Dashboard}
use klever_subscriber.Server.Safety.{IsServing}
use klever_subscriber.Server.Steps.{shuts_down, clients_of, with_clients, do_channels, step, run}
use klever_subscriber.Server.Counting.{recorded}
use klever_subscriber.Server.Drain.{own_turns, taken_in, goes_on, IsEnding, drains}

-- The server's subscription is open, and its channel is the one that `ProcessEvents` reads.
pub record IsHeld (d : Dashboard) : Type 0 where
  pub sub : Subscription
  pub held : get_elem? d.handles d.own ≡ some sub
  pub same : sub.ch ≡ d.channel
  pub unclosed : sub.closed ≡ false
  pub listed : contains d.client.hub.subscribers d.channel ≡ true

-- The closing of a subscription that is open.
closes_open :
    (s : Hub) (sub : Subscription)
    → IsSound s
    → sub.closed ≡ false
    → contains s.subscribers sub.ch ≡ true
    → (old : Chan Event) × (kept : List ℕ) × (get_elem? s.channels sub.ch ≡ some old)
      × (Channels.close s sub
          ≡ some (
            record { channels = set s.channels sub.ch (shut old); subscribers = kept },
            record sub { closed = true },
          ))
      × IsSound (record { channels = set s.channels sub.ch (shut old); subscribers = kept })
unfolding Channels.close
closes_open s sub v unclosed listed =
    let (kept, cuts, distinct, members) = cut_out-some s.subscribers sub.ch v.distinct listed in
    let (old, at, opened) = v.opened sub.ch listed in
    let runs =
      remove_sub_runs s sub.ch kept _ cuts (close_chan_lem s.channels sub.ch old at opened) in
    (
      old,
      kept,
      at,
      rw (unclosed, runs) refl,
      removed-IsSound s sub.ch kept old v at distinct members,
    )

act-closes :
    (w : Channels.Clients) (k : ℕ) (sub sub' : Subscription) (s : Hub)
    → get_elem? w.handles k ≡ some sub
    → Channels.close w.hub sub ≡ some (s, sub')
    → Channels.act w (Channels.closes k) ≡ some (record { hub = s; handles = set w.handles k sub' })
unfolding Channels.act
act-closes w k sub sub' s held closes = rw (held, Channels.act, closes) refl

abbrev closed_by : Dashboard → Hub → Subscription → Dashboard
closed_by d s sub' =
    record (with_clients (record { hub = s; handles = set d.handles d.own sub' }) d) { shut = true }

closes_held :
    (d : Dashboard) (sub : Subscription) (s : Hub) (sub' : Subscription)
    → get_elem? d.handles d.own ≡ some sub
    → Channels.close d.client.hub sub ≡ some (s, sub')
    → d.done ≡ true
    → d.shut ≡ false
    → step d shuts_down ≡ some (closed_by d s sub')
unfolding step do_channels
closes_held d sub s sub' held closes done fresh =
    rw (done, fresh, act-closes (clients_of d) d.own sub sub' s held closes) refl

-- The shutdown of a server whose context is done, whose subscription is open and whose `ProcessEvents`
-- still runs: after the turn that closes the subscription, on every schedule of the turns of
-- `ProcessEvents`, with no other goroutine between, it takes and counts without a panic a beginning of
-- the events that wait, in order, one in each turn in which its `select` takes the channel. It goes on
-- until its `select` takes the context, which leaves the rest uncounted, or until all that waits is
-- taken, and ends at the next turn.
pub shutdown_drains :
    (d : Dashboard) (now : ℕ) (marks : List Bool) (h : List EventType)
    → IsServing d
    → Tallied h d.stats.broker.counters
    → IsHeld d
    → d.consuming ≡ true
    → d.done ≡ true
    → d.shut ≡ false
    → let waiting = buffer_at d.client.hub.channels d.channel in
      (d' : Dashboard) × (run d (shuts_down ∷ own_turns now marks) ≡ some d')
      × (d'.consuming ≡ goes_on marks waiting)
      × Tallied (recorded (taken_in marks waiting) h) d'.stats.broker.counters
unfolding run
shutdown_drains d now marks h v t held on done fresh =
    let sub = held.sub in
    let listed : contains d.client.hub.subscribers sub.ch ≡ true = rw held.same held.listed in
    let (old, kept, at, closes, sound) =
      closes_open d.client.hub sub v.sound held.unclosed listed in
    let s : Hub = record {
      channels = set d.client.hub.channels sub.ch (shut old);
      subscribers = kept;
    } in
    let sub' : Subscription = record sub { closed = true } in
    let v₁ : IsServing (closed_by d s sub') = record {
      sound = sound;
      limited = v.limited;
      capped = v.capped;
    } in
    let at' : get_elem? d.client.hub.channels d.channel ≡ some old =
      subst (λ c. get_elem? d.client.hub.channels c ≡ some old) held.same at in
    let e : IsEnding (closed_by d s sub') (buffer_at d.client.hub.channels d.channel) = record {
      ch = shut old;
      at =
          subst
            (λ c. get_elem? (set d.client.hub.channels c (shut old)) d.channel ≡ some (shut old))
            (sym held.same)
            (get_elem?-set_self d.client.hub.channels d.channel (shut old)
              (get_elem?-lt d.client.hub.channels d.channel at'));
      closed = refl;
      waiting = rw (at', buffer_at) refl;
      on = on;
    } in
    let (d', runs, off, counts) =
      drains (closed_by d s sub') now marks (buffer_at d.client.hub.channels d.channel) h v₁ t e
        done in
    (d', rw (closes_held d sub s sub' held.held closes done fresh) runs, off, counts)
