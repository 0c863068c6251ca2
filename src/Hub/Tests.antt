-- ===== src/Hub/Tests.antt =====
-- Runs of the operations on the channels.
use mathlib.Core.List.{Sublistᴰ}
use klever_subscriber.Base.{◌≡◌, refl, true, false, List, [], ◌∷◌, ◌++◌, some, nat_eq}
use klever_subscriber.Event.{Event, null}
use klever_subscriber.Chan.{make_chan, send_or_skip, close_chan, receive, for_each}
use klever_subscriber.Hub.{
  Hub, no_subscribers, Action, Clients, subscribes, closes, fans_out, closes_all, receives,
  subscribe, remove_sub, cut_out, close, close_subscribers, fan_out, act, run,
}
use klever_subscriber.Hub.Sound.{IsSound}
use klever_subscriber.Hub.Safety.{
  no_clients, no_subscribers-IsSound, subscribe-IsSound, run_never_panics,
}
use klever_subscriber.Hub.Fanout.{fan_out_delivers}
use klever_subscriber.Hub.Buffers.{buffer_at}
use klever_subscriber.Hub.Delivery.{published, received_by, received, received_in_order}

abbrev block : Event
block = record { type = "blocks"; address = ""; hash = "0x01"; payload = null; raw = "" }

abbrev account : Event
account = record { type = "accounts"; address = "klv1"; hash = ""; payload = null; raw = "" }

-- Two subscriptions; the first is closed twice, and once more after a shutdown.
abbrev session : List Action
session =
    subscribes
    ∷ subscribes
    ∷ fans_out block
    ∷ closes 0
    ∷ closes 0
    ∷ fans_out account
    ∷ receives 0
    ∷ receives 1
    ∷ closes_all
    ∷ closes 1
    ∷ []

abbrev two : Hub
two = (subscribe (subscribe no_subscribers).0).0

two-IsSound : IsSound two
two-IsSound =
    subscribe-IsSound (subscribe no_subscribers).0
      (subscribe-IsSound no_subscribers no_subscribers-IsSound)

run_never_panics_example : (w : Clients) × (run no_clients session ≡ some w) × IsSound w.hub
run_never_panics_example = run_never_panics session

abbrev after_session : Clients
after_session = record {
  hub = record {
    channels =
        record { buffer = []; capacity = 256; closed = true }
        ∷ record { buffer = account ∷ []; capacity = 256; closed = true }
        ∷ [];
    subscribers = [];
  };
  handles = record { ch = 0; closed = true } ∷ record { ch = 1; closed = true } ∷ [];
}

session_runs : run no_clients session ≡ some after_session
unfolding run act subscribe make_chan fan_out for_each send_or_skip close remove_sub cut_out
    close_chan close_subscribers receive
session_runs = refl

receives_account : received no_clients 1 session ≡ block ∷ []
unfolding received received_by run act subscribe make_chan fan_out for_each send_or_skip close
    remove_sub cut_out close_chan close_subscribers receive
receives_account = refl

received_in_order_example :
    Sublistᴰ
      (received no_clients 1 session ++ buffer_at after_session.hub.channels 1)
      (published session)
received_in_order_example = received_in_order session after_session 1 session_runs

-- The first of two subscriptions is closed.
abbrev one_left : List Action
one_left = subscribes ∷ subscribes ∷ closes 0 ∷ fans_out block ∷ []

abbrev after_one : Clients
after_one = record {
  hub = record {
    channels =
        record { buffer = []; capacity = 256; closed = true }
        ∷ record { buffer = block ∷ []; capacity = 256; closed = false }
        ∷ [];
    subscribers = 1 ∷ [];
  };
  handles = record { ch = 0; closed = true } ∷ record { ch = 1; closed = false } ∷ [];
}

one_left_runs : run no_clients one_left ≡ some after_one
unfolding run act subscribe make_chan fan_out for_each send_or_skip close remove_sub cut_out
    close_chan
one_left_runs = refl

fan_out_delivers_example :
    (s : Hub) × (fan_out after_one.hub account ≡ some s)
    × (s.subscribers ≡ 1 ∷ [])
    × (buffer_at s.channels 1 ≡ block ∷ account ∷ [])
fan_out_delivers_example = fan_out_delivers one_left after_one account 1 one_left_runs
