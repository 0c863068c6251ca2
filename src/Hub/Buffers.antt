-- ===== src/Hub/Buffers.antt =====
-- What each operation on the channels does to the events that wait in one of them.
use klever_subscriber.Base.{
  ℕ, ◌≡◌, inl, inr, some, arith, nat_eq, beq→eq, Bool-cases, Option-cases, get_elem?, get_elem?-set,
}
use klever_subscriber.Event.{Event}
pub use klever_subscriber.Chan.Buffers.{
  buffer_at, value_of, receive-front, receive-others, buffer_at-snoc, offered-buffer,
}
use klever_subscriber.Chan.{Heap, shut, close_chan}
use klever_subscriber.Chan.Laws.{ChangedAt}
use klever_subscriber.Hub.{Hub, Subscription, cut_out, remove_sub, close}

close_chan-buffer :
    (heap heap' : Heap Event) (x c : ℕ)
    → close_chan heap x ≡ some heap'
    → buffer_at heap' c ≡ buffer_at heap c
unfolding close_chan
close_chan-buffer heap heap' x c h = elim (Option-cases (get_elem? heap x)) [
  | inl gone ↦ absurd (ground arith)
  | inr (ch, at) ↦ ground (arith, get_elem?-set heap x c (shut ch) at, beq→eq x c)
]

remove_sub-buffer :
    (s s' : Hub) (x c : ℕ)
    → remove_sub s x ≡ some s'
    → buffer_at s'.channels c ≡ buffer_at s.channels c
unfolding remove_sub
remove_sub-buffer s s' x c h = elim (Option-cases (cut_out s.subscribers x)) [
  | inl gone ↦ ground arith
  | inr (kept, cuts) ↦ elim (Option-cases (close_chan s.channels x)) [
    | inl panics ↦ absurd (ground arith)
    | inr (heap, runs) ↦ ground (arith, close_chan-buffer s.channels heap x c runs)
  ]
]

pub close-buffer :
    (s s' : Hub) (sub sub' : Subscription) (c : ℕ)
    → close s sub ≡ some (s', sub')
    → buffer_at s'.channels c ≡ buffer_at s.channels c
unfolding close
close-buffer s s' sub sub' c h = elim (Bool-cases sub.closed) [
  | inl done ↦ ground arith
  | inr first ↦ elim (Option-cases (remove_sub s sub.ch)) [
    | inl panics ↦ absurd (ground arith)
    | inr (s₁, runs) ↦ ground (arith, remove_sub-buffer s s₁ sub.ch c runs)
  ]
]

pub shut-buffer :
    (s : Hub) (heap : Heap Event) (c : ℕ)
    → ChangedAt shut s.subscribers s.channels heap
    → buffer_at heap c ≡ buffer_at s.channels c
shut-buffer s heap c changed = elim (Option-cases (get_elem? s.channels c)) [
  | inl gone ↦ ground (arith, changed c)
  | inr (ch, at) ↦ ground (arith, changed c)
]
