-- ===== src/Connection.antt =====
-- subscriber/connection.go: the loop of `Start` with the connection that `connect` keeps, in turns
-- of its goroutine. A turn is what it does up to its next access to what it shares, or up to a
-- `select`. The frames that the read loop takes are steps of other goroutines: replies that are
-- routed, events that are fanned out.
pub mod Invariant
pub mod Selects
pub mod Turns
pub mod Runs
pub mod Stop
pub mod Crash
pub mod Moves
pub mod Reports
pub mod Alive
pub mod Tests
use klever_subscriber.Base.{
  ℕ, ◌+◌, Bool, true, false, not, ◌&&◌, ◌||◌, String, List, [], ◌∷◌, Option, none, some, ◌>>=◌,
  nat_eq, contains, if◌then◌else◌,
}
use klever_subscriber.Event.{EventType, event_accounts}
use klever_subscriber.Hub.{Subscription, Clients, close_subscribers}
use klever_subscriber.Hub as Channels
use klever_subscriber.Request.{Other, by_other, fail_all_pending}
use klever_subscriber.Subscriber.{Subscriber}
use klever_subscriber.Subscription.{is_some_list, cancel, bounce, assign}

-- Where the goroutine stands. A number names the context of a connection. After a panic in a callback
-- it unwinds, and `recover` ends the loop; the flag is what `connected` was then.
pub data Stage : Type 0 where
  top : Stage
  checking : Stage
  idle : Stage
  opening : Stage
  reading : ℕ → Stage
  dialing : ℕ → List EventType → List String → Stage
  subscribing : ℕ → List EventType → List String → Stage
  online : ℕ → Stage
  closing : ℕ → Stage
  hanging_up : ℕ → Stage
  returned : ℕ → Stage
  settled : ℕ → Stage
  pausing : Stage
  stopped : Stage
  unwinding : ℕ → Bool → Stage
  recovered : ℕ → Bool → Stage

-- The branch of a `select` that is taken if it is ready: the context, the reconnect channel, the
-- timer, or the end of the read loop.
pub data Ready : Type 0 where
  by_ctx : Ready
  by_token : Ready
  by_timer : Ready
  by_peer : Ready

-- What the environment decides in a turn. `panics` tells whether `onConnect` or `onDisconnect` does
-- where it is called; `onError` is taken not to.
pub record Turn : Type 0 where
  pub dial_error : Bool
  pub deadline_error : Bool
  pub write_error : Bool
  pub panics : Bool
  pub ready : Ready

-- `done` tells whether the context of `Start` is; `active` is `activeConn`; `handshakes` lists the
-- subscriptions sent at the start of a connection; `reports` counts the calls of `onError` in the
-- loop of `Start`, and `recoveries` that in its deferred `recover`.
pub record Loop : Type 0 where
  pub client : Subscriber
  pub handles : List Subscription
  pub done : Bool
  pub stage : Stage
  pub active : Option ℕ
  pub next_ctx : ℕ
  pub handshakes : List (List EventType × List String)
  pub reports : ℕ
  pub recoveries : ℕ

-- `connCtx.Err() != nil`
abbrev pub ctx_done : Loop → ℕ → Bool
ctx_done s c = s.done || contains s.client.cancelled c

abbrev pub to : Stage → Loop → Loop
to stage s = record s { stage = stage }

abbrev pub set_connected : Bool → Loop → Loop
set_connected b s = record s { client = record s.client { connected = b } }

-- `<-s.reconnectCh`
abbrev pub take_token : Loop → Loop
take_token s = record s { client = record s.client { reconnect_ch = false } }

-- `s.closeSubscribers(); return`
unfoldable pub stop : Loop → Option Loop
unfolding close_subscribers
stop s = close_subscribers s.client.hub >>= λ hub'.
    some (record s { client = record s.client { hub = hub' }; stage = stopped })

-- The branches of a `select` on the context and the reconnect channel.
unfoldable pub wait : Ready → Loop → Option Loop
unfolding stop
wait by_ctx s = let ends = stop s in if s.done then ends else some s
wait by_token s = some (if s.client.reconnect_ch then to top (take_token s) else s)
wait by_timer s = some s
wait by_peer s = some s

-- The types of the handshake: a placeholder if there are none.
abbrev pub or_accounts : List EventType → List EventType
or_accounts [] = event_accounts ∷ []
or_accounts (t ∷ ts) = t ∷ ts

-- Where a connection goes after `onDisconnect`.
abbrev pub after_disconnect : Bool → ℕ → Loop → Stage
after_disconnect panics c s =
    if s.client.on_disconnect && panics then unwinding c false else hanging_up c

abbrev pub disconnect : Bool → ℕ → Loop → Loop
disconnect panics c s = to (after_disconnect panics c s) (set_connected false s)

-- The `select` at the end of `connect`.
unfoldable pub serve : Ready → Bool → ℕ → Loop → Loop
serve by_peer panics c s = disconnect panics c s
serve by_ctx panics c s = if ctx_done s c then to (closing c) s else s
serve by_token panics c s = s
serve by_timer panics c s = s

unfoldable pub advance : Stage → Loop → Turn → Option Loop
unfolding stop wait serve fail_all_pending
advance top s t = let ends = stop s in if s.done then ends else some (to checking s)
advance checking s t =
    some (to (if is_some_list s.client.types || s.client.query_only then opening else idle) s)
advance idle s t = wait t.ready s
advance opening s t = some (record s {
  client = record s.client { conn_cancel = some s.next_ctx };
  next_ctx = s.next_ctx + 1;
  stage = reading s.next_ctx;
})
advance (reading c) s t = some (to (dialing c s.client.types s.client.addresses) s)
advance (dialing c types addresses) s t = some (
    if t.dial_error then to (returned c) s else record s {
      active = some c;
      stage = if t.deadline_error then hanging_up c else subscribing c types addresses;
    })
advance (subscribing c types addresses) s t = some (
    if t.write_error then to (hanging_up c) s else record s {
      client = record s.client { connected = true };
      handshakes = (or_accounts types, addresses) ∷ s.handshakes;
      stage = if s.client.on_connect && t.panics then unwinding c true else online c;
    })
advance (online c) s t = some (serve t.ready t.panics c s)
advance (closing c) s t = some (disconnect t.panics c s)
advance (hanging_up c) s t = some (record s {
  client = record s.client { requests = fail_all_pending s.client.requests };
  active = none;
  stage = returned c;
})
advance (returned c) s t = some (record s {
  client = record (cancel s.client (some c)) { conn_cancel = none };
  stage = settled c;
})
advance (settled c) s t =
    let ends = stop s in
    if s.done
    then ends
    else some (record s {
      reports = if s.client.on_error && not (ctx_done s c) then s.reports + 1 else s.reports;
      stage = pausing;
    })
advance pausing s t = elim t.ready [ by_timer ↦ some (to top s) | r ↦ wait r s ]
advance stopped s t = some s
advance (unwinding c b) s t = some (record s {
  client = record s.client { requests = fail_all_pending s.client.requests };
  active = none;
  recoveries = if s.client.on_error then s.recoveries + 1 else s.recoveries;
  stage = recovered c b;
})
advance (recovered c b) s t = some s

-- A turn of `Start`; the end of its context; what other goroutines do with the channels, with the
-- requests, and with the types and addresses, on the fast path and on the slow one.
pub data Step : Type 0 where
  turns : Turn → Step
  finishes : Step
  on_channels : Channels.Action → Step
  on_requests : Other → Step
  assigns : List EventType → List String → Step
  bounces : List EventType → List String → Step

unfoldable pub step : Loop → Step → Option Loop
unfolding advance Channels.act by_other bounce
step s (turns t) = advance s.stage s t
step s finishes = some (record s { done = true })
step s (on_channels a) =
    Channels.act (record { hub = s.client.hub; handles = s.handles }) a >>= λ w.
    some (record s { client = record s.client { hub = w.hub }; handles = w.handles })
step s (on_requests o) =
    some (record s { client = record s.client { requests = by_other s.client.requests o } })
step s (assigns types addresses) = some (record s { client = assign s.client types addresses })
step s (bounces types addresses) =
    some (record s { client = bounce (assign s.client types addresses) })

unfoldable pub run : Loop → List Step → Option Loop
unfolding step
run s [] = some s
run s (a ∷ as') = step s a >>= λ s'. run s' as'
