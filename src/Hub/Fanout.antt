-- ===== src/Hub/Fanout.antt =====
-- What `fanOut` does to each channel.
use klever_subscriber.Base.{
  ℕ, ◌≡◌, refl, subst, ◌&&◌, inl, inr, List, [], ◌∷◌, ◌++◌, some, arith, nat_eq, ltb, Bool-cases,
  Option-cases, length, get_elem?, contains, if◌then◌else◌,
}
use klever_subscriber.Event.{Event}
use klever_subscriber.Chan.{Heap, deliver}
use klever_subscriber.Chan.Laws.{ChangedAt}
use klever_subscriber.Hub.{Hub, Action, Clients, fan_out, run}
use klever_subscriber.Hub.Sound.{IsSound, fan_out_lem}
use klever_subscriber.Hub.Safety.{no_clients, run_never_panics}
use klever_subscriber.Hub.Buffers.{buffer_at}

delivered :
    (evt : Event) (s : Hub) (heap : Heap Event) (c : ℕ)
    → IsSound s
    → ChangedAt (deliver evt) s.subscribers s.channels heap
    → buffer_at heap c ≡ (
        if contains s.subscribers c && ltb (length (buffer_at s.channels c)) 256
        then buffer_at s.channels c ++ evt ∷ []
        else buffer_at s.channels c)
delivered evt s heap c v changed = elim (Option-cases (get_elem? s.channels c)) [
  | inl gone ↦ elim (Bool-cases (contains s.subscribers c)) [
    | inl listed ↦ let (ch, at, _) = v.opened c listed in absurd (ground (arith, at, gone))
    | inr other ↦ ground (arith, changed c, gone, other)
  ]
  | inr (ch, at) ↦
      let size = v.sized c ch at in
      elim (Bool-cases (contains s.subscribers c)) [
        | inr other ↦ ground (arith, changed c, at, other)
        | inl listed ↦ elim (Bool-cases (ltb (length ch.buffer) 256)) [
          | inl room ↦ ground (arith, changed c, at, listed, room, size)
          | inr full ↦ ground (arith, changed c, at, listed, full, size)
        ]
      ]
]

-- After every run from no subscription `fanOut` returns: the channel of every subscription that is
-- listed takes the event at the end of its buffer, unless 256 events wait there; no other buffer
-- changes, and neither do those that are full.
pub fan_out_delivers :
    (as' : List Action) (w : Clients) (evt : Event) (c : ℕ)
    → run no_clients as' ≡ some w
    → (s : Hub) × (fan_out w.hub evt ≡ some s)
      × (s.subscribers ≡ w.hub.subscribers)
      × (buffer_at s.channels c ≡ (
          if contains w.hub.subscribers c && ltb (length (buffer_at w.hub.channels c)) 256
          then buffer_at w.hub.channels c ++ evt ∷ []
          else buffer_at w.hub.channels c))
fan_out_delivers as' w evt c ran =
    let (w', runs, sound) = run_never_panics as' in
    let same : w' ≡ w = ground (arith, runs, ran) in
    let v : IsSound w.hub = subst (λ (x : Clients). IsSound x.hub) same sound in
    let (heap, fans, changed) = fan_out_lem w.hub evt v in
    (record w.hub { channels = heap }, fans, refl, delivered evt w.hub heap c v changed)
