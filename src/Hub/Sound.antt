-- ===== src/Hub/Sound.antt =====
-- The channels of a hub are open exactly while they are listed, so no operation panics.
use klever_subscriber.Base.{
  ℕ, ◌≤◌, ◌≡◌, ◌∙◌, true, false, inl, inr, [], ◌∷◌, some, arith, nat_eq, Bool-cases, length,
  length-append, get_elem?, contains, IsDistinct,
}
use klever_subscriber.Event.{Event}
use klever_subscriber.Chan.{Chan, Heap, deliver, send_or_skip, shut, close_chan}
use klever_subscriber.Chan.Laws.{
  IsOpenAt, ChangedAt, for_each_lem, send_or_skip_lem, close_chan_lem, ChangedAt-some,
}
use klever_subscriber.Hub.{Hub, close_subscribers, fan_out}

-- No channel is listed twice; a listed channel is open, and any other is closed; and no buffer
-- holds more than its capacity, which is 256.
pub record IsSound (s : Hub) : Type 0 where
  pub distinct : IsDistinct s.subscribers
  pub opened : (c : ℕ) → contains s.subscribers c ≡ true → IsOpenAt s.channels c
  pub others :
      (c : ℕ) (ch : Chan Event)
      → get_elem? s.channels c ≡ some ch
      → contains s.subscribers c ≡ false
      → ch.closed ≡ true
  pub bounded :
      (c : ℕ) (ch : Chan Event) → get_elem? s.channels c ≡ some ch → length ch.buffer ≤ ch.capacity
  pub sized : (c : ℕ) (ch : Chan Event) → get_elem? s.channels c ≡ some ch → ch.capacity ≡ 256

abbrev with_channels : Hub → Heap Event → Hub
with_channels s heap = record s { channels = heap }

-- From a sound hub `fanOut` does not panic. It offers the event to every listed channel, which takes
-- it if there is room, and touches no other channel and no list.
pub fan_out_lem :
    (s : Hub) (evt : Event)
    → IsSound s
    → (heap : Heap Event) × (fan_out s evt ≡ some (record s { channels = heap }))
      × ChangedAt (deliver evt) s.subscribers s.channels heap
unfolding fan_out
fan_out_lem s evt v =
    let (heap, runs, changed, _) =
      for_each_lem (deliver evt) (send_or_skip evt) (send_or_skip_lem evt) s.subscribers s.channels
        v.distinct v.opened in
    (heap, rw runs, changed)

-- From a sound hub `closeSubscribers` does not panic. It closes every listed channel, touches no
-- other, and empties the list.
pub close_subscribers_lem :
    (s : Hub)
    → IsSound s
    → (heap : Heap Event) × (close_subscribers s
        ≡ some (record { channels = heap; subscribers = [] }))
      × ChangedAt shut s.subscribers s.channels heap
unfolding close_subscribers
close_subscribers_lem s v =
    let (heap, runs, changed, _) =
      for_each_lem shut close_chan close_chan_lem s.subscribers s.channels v.distinct v.opened in
    (heap, rw runs, changed)

deliver_bounded :
    (evt : Event) (ch : Chan Event)
    → length ch.buffer ≤ ch.capacity
    → length (deliver evt ch).buffer ≤ (deliver evt ch).capacity
deliver_bounded evt ch h = ground (arith, length-append ch.buffer (evt ∷ []))

deliver-closed : (evt : Event) (ch : Chan Event) → (deliver evt ch).closed ≡ ch.closed
deliver-closed evt ch = ground arith

deliver-capacity : (evt : Event) (ch : Chan Event) → (deliver evt ch).capacity ≡ ch.capacity
deliver-capacity evt ch = ground arith

pub offered-IsSound :
    (evt : Event) (s : Hub) (heap : Heap Event)
    → IsSound s
    → ChangedAt (deliver evt) s.subscribers s.channels heap
    → IsSound (record s { channels = heap })
offered-IsSound evt s heap v changed = record {
  distinct = v.distinct;
  opened = λ c m.
      let (ch, at, opened) = v.opened c m in
      (deliver evt ch, ground (arith, changed c), deliver-closed evt ch ∙ opened);
  others = λ c ch' at out.
      let (ch, was, eq) =
        ChangedAt-some (deliver evt) s.subscribers s.channels heap changed c ch' at in
      ground (arith, v.others c ch was out);
  bounded = λ c ch' at.
      let (ch, was, eq) =
        ChangedAt-some (deliver evt) s.subscribers s.channels heap changed c ch' at in
      elim (Bool-cases (contains s.subscribers c)) [
        | inl listed ↦ ground (arith, v.bounded c ch was, deliver_bounded evt ch)
        | inr out ↦ ground (arith, v.bounded c ch was)
      ];
  sized = λ c ch' at.
      let (ch, was, eq) =
        ChangedAt-some (deliver evt) s.subscribers s.channels heap changed c ch' at in
      elim (Bool-cases (contains s.subscribers c)) [
        | inl listed ↦ ground (arith, v.sized c ch was, deliver-capacity evt ch)
        | inr out ↦ ground (arith, v.sized c ch was)
      ];
}

pub shut-IsSound :
    (s : Hub) (heap : Heap Event)
    → IsSound s
    → ChangedAt shut s.subscribers s.channels heap
    → IsSound (record { channels = heap; subscribers = [] })
shut-IsSound s heap v changed = record {
  distinct = tt;
  opened = λ c m. absurd (cc);
  others = λ c ch' at out.
      let (ch, was, eq) = ChangedAt-some shut s.subscribers s.channels heap changed c ch' at in
      ground (arith, v.others c ch was);
  bounded = λ c ch' at.
      let (ch, was, eq) = ChangedAt-some shut s.subscribers s.channels heap changed c ch' at in
      ground (arith, v.bounded c ch was);
  sized = λ c ch' at.
      let (ch, was, eq) = ChangedAt-some shut s.subscribers s.channels heap changed c ch' at in
      ground (arith, v.sized c ch was);
}
