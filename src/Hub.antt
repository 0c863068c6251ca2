-- ===== src/Hub.antt =====
-- subscriber/subscriber.go: the event channels of the subscriptions, made by `Subscribe`, closed by
-- `Close` and by `closeSubscribers`, and filled by `fanOut`. Each operation runs under `s.mu`.
pub mod Sound
pub mod Safety
pub mod Fanout
pub mod Buffers
pub mod Delivery
pub mod Tests
use klever_subscriber.Base.{
  ℕ, Bool, true, false, List, [], ◌∷◌, ◌++◌, Option, none, some, ◌>>=◌, ◌==◌, nat_eq, get_elem?,
  set, if◌then◌else◌,
}
use klever_subscriber.Event.{Event}
use klever_subscriber.Chan.{Heap, make_chan, send_or_skip, close_chan, receive, for_each}

-- The fields of `Subscriber` that hold its channels; `subscribers` names channels of the heap.
pub record Hub : Type 0 where
  pub channels : Heap Event
  pub subscribers : List ℕ

abbrev pub no_subscribers : Hub
no_subscribers = record { channels = []; subscribers = [] }

-- `closed` is the `sync.Once`.
pub record Subscription : Type 0 where
  pub ch : ℕ
  pub closed : Bool

unfoldable pub subscribe : Hub → Hub × Subscription
unfolding make_chan
subscribe s =
    let (channels', ch) = make_chan 256 s.channels in
    (
      record s { channels = channels'; subscribers = s.subscribers ++ ch ∷ [] },
      record { ch = ch; closed = false },
    )

-- `append(xs[:i], xs[i+1:]...)` at the first `i` with `xs[i] == ch`; `none` where there is none.
unfoldable pub cut_out : List ℕ → ℕ → Option (List ℕ)
cut_out [] ch = none
cut_out (sub ∷ subs) ch =
    let rest = cut_out subs ch in
    if sub == ch then some subs else (rest >>= λ kept. some (sub ∷ kept))

unfoldable pub remove_sub : Hub → ℕ → Option Hub
unfolding cut_out close_chan
remove_sub s ch = elim (cut_out s.subscribers ch) [
  | none ↦ some s
  | some kept ↦ close_chan s.channels ch >>= λ channels'.
      some (record { channels = channels'; subscribers = kept })
]

-- `(*Subscription).Close`
unfoldable pub close : Hub → Subscription → Option (Hub × Subscription)
unfolding remove_sub
close s sub =
    if sub.closed
    then some (s, sub)
    else (remove_sub s sub.ch >>= λ s'. some (s', record sub { closed = true }))

unfoldable pub close_subscribers : Hub → Option Hub
unfolding for_each close_chan
close_subscribers s = for_each close_chan s.subscribers s.channels >>= λ channels'.
    some (record { channels = channels'; subscribers = [] })

unfoldable pub fan_out : Hub → Event → Option Hub
unfolding for_each send_or_skip
fan_out s evt = for_each (send_or_skip evt) s.subscribers s.channels >>= λ channels'.
    some (record s { channels = channels' })

-- What goroutines do to the channels, in the order in which they do it.
pub data Action : Type 0 where
  subscribes : Action
  closes : ℕ → Action
  fans_out : Event → Action
  closes_all : Action
  receives : ℕ → Action

-- The channels, with every `*Subscription` that `Subscribe` has returned, closed or not.
pub record Clients : Type 0 where
  pub hub : Hub
  pub handles : List Subscription

unfoldable pub act : Clients → Action → Option Clients
unfolding subscribe close fan_out close_subscribers receive
act w subscribes =
    let (s', sub) = subscribe w.hub in some (record { hub = s'; handles = w.handles ++ sub ∷ [] })
act w (closes k) = elim (get_elem? w.handles k) [
  | none ↦ some w
  | some sub ↦
      close w.hub sub >>= λ (s', sub'). some (record { hub = s'; handles = set w.handles k sub' })
]
act w (fans_out evt) = fan_out w.hub evt >>= λ s'. some (record w { hub = s' })
act w closes_all = close_subscribers w.hub >>= λ s'. some (record w { hub = s' })
act w (receives ch) =
    some (record w { hub = record w.hub { channels = (receive w.hub.channels ch).0 } })

unfoldable pub run : Clients → List Action → Option Clients
unfolding act
run w [] = some w
run w (a ∷ as') = act w a >>= λ w'. run w' as'
