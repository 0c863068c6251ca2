-- ===== src/Broker/Sse/Order/Turns.antt =====
-- What a turn of a request, or a broadcast, does to the streams.
use mathlib.Core.List.{Sublistᴰ}
use mathlib.Core.List.Sublistᴰ.{slnil, cons}
use klever_subscriber.Base.{
  ℕ, ◌+◌, ◌<◌, ◌≤◌, ◌≡◌, ◌≢◌, refl, true, List, [], ◌∷◌, ◌++◌, none, some, length, get_elem?, subst,
  arith, inl, inr, ◌⊎◌, ap, sym, ◌∙◌, append_assoc, Bool-cases, Option-cases, length-append,
  length-set, beq_of_ne, nat_eq, get_elem?-append_last, ltb,
}
use klever_subscriber.Chan.{
  Heap, new_chan, deliver, receive, Received, got, drained, waits, make_chan,
}
use klever_subscriber.Chan.Laws.{ChangedAt, receive-none, receive_runs, taken}
use klever_subscriber.Chan.Buffers.{
  buffer_at, value_of, receive-front, receive-others, buffer_at-snoc, offered-buffer,
}
use klever_subscriber.Hub.Delivery.{Sublistᴰ-append}
use klever_subscriber.Broker.{Broker, SseFrame, snapshot}
use klever_subscriber.Broker.Sse.{
  Stage, registered, serving, arrived, too_many, no_flusher, admitted, leaving, refused, finished,
  Turn, handle_sse, write_received, closes_stream,
}
use klever_subscriber.Broker.Sse.Order.{oldest_first, Follows, owned}

length-receive : (heap : Heap SseFrame) (c : ℕ) → length (receive heap c).0 ≡ length heap
length-receive heap c = elim (Option-cases (get_elem? heap c)) [
  | inl gone ↦ ap length (receive-none heap c gone)
  | inr (ch, at) ↦ ap length (receive_runs heap c ch at) ∙ length-set heap c (taken ch)
]

-- A stage whose channel keeps its frames.
pub Follows-kept :
    (history : List SseFrame) (heap heap' : Heap SseFrame) (stage : Stage)
    → length heap ≤ length heap'
    → ((c : ℕ) → c < length heap → owned stage ≡ some c → buffer_at heap' c ≡ buffer_at heap c)
    → Follows history heap stage
    → Follows history heap' stage
Follows-kept history heap heap' (registered c) longer same (made, sub) =
    (omega arith, subst (λ l. Sublistᴰ l history) (sym (same c made refl)) sub)
Follows-kept history heap heap' (serving c written) longer same fed = record {
  made = omega (arith, fed.made);
  stats = fed.stats;
  later = fed.later;
  wrote = fed.wrote;
  first = fed.first;
  in_order =
      subst (λ l. Sublistᴰ (fed.later ++ l) history) (sym (same c fed.made refl)) fed.in_order;
}
Follows-kept history heap heap' arrived longer same h = tt
Follows-kept history heap heap' too_many longer same h = tt
Follows-kept history heap heap' no_flusher longer same h = tt
Follows-kept history heap heap' admitted longer same h = tt
Follows-kept history heap heap' (leaving c) longer same h = tt
Follows-kept history heap heap' (refused status) longer same h = tt
Follows-kept history heap heap' finished longer same h = tt

-- A broadcast adds at most its frame to what waits for a stream.
pub Follows-broadcast :
    (history : List SseFrame) (f : SseFrame) (clients : List ℕ) (heap heap' : Heap SseFrame)
    (stage : Stage)
    → ChangedAt (deliver f) clients heap heap'
    → length heap ≤ length heap'
    → Follows history heap stage
    → Follows (history ++ f ∷ []) heap' stage
Follows-broadcast history f clients heap heap' (registered c) changed longer (made, sub) =
    let (new, fresh, eq) = offered-buffer f clients heap heap' c changed in
    (omega arith, subst (λ l. Sublistᴰ l (history ++ f ∷ [])) eq (Sublistᴰ-append sub fresh))
Follows-broadcast history f clients heap heap' (serving c written) changed longer fed =
    let (new, fresh, eq) = offered-buffer f clients heap heap' c changed in
    record {
      made = omega (arith, fed.made);
      stats = fed.stats;
      later = fed.later;
      wrote = fed.wrote;
      first = fed.first;
      in_order =
          subst (λ l. Sublistᴰ l (history ++ f ∷ []))
            (append_assoc fed.later (buffer_at heap c) new ∙ ap (λ l. fed.later ++ l) eq)
            (Sublistᴰ-append fed.in_order fresh);
    }
Follows-broadcast history f clients heap heap' arrived changed longer h = tt
Follows-broadcast history f clients heap heap' too_many changed longer h = tt
Follows-broadcast history f clients heap heap' no_flusher changed longer h = tt
Follows-broadcast history f clients heap heap' admitted changed longer h = tt
Follows-broadcast history f clients heap heap' (leaving c) changed longer h = tt
Follows-broadcast history f clients heap heap' (refused status) changed longer h = tt
Follows-broadcast history f clients heap heap' finished changed longer h = tt

-- The stage after a receive.
received_next :
    (history : List SseFrame) (heap : Heap SseFrame) (c : ℕ) (written : List SseFrame)
    (r : Received SseFrame)
    → (later : List SseFrame) (stats : SseFrame) → oldest_first written ≡ stats ∷ later
    → stats.event ≡ "stats"
    → c < length heap
    → Sublistᴰ (later ++ (value_of r ++ buffer_at heap c)) history
    → Follows history heap (write_received c written r)
unfolding oldest_first
received_next history heap c written (got f) later stats wrote first made sub = record {
  made = made;
  stats = stats;
  later = later ++ f ∷ [];
  wrote = ap (λ l. l ++ f ∷ []) wrote;
  first = first;
  in_order =
      subst (λ l. Sublistᴰ l history) (sym (append_assoc later (f ∷ []) (buffer_at heap c))) sub;
}
received_next history heap c written drained later stats wrote first made sub = tt
received_next history heap c written waits later stats wrote first made sub = record {
  made = made;
  stats = stats;
  later = later;
  wrote = wrote;
  first = first;
  in_order = sub;
}

-- What a turn leaves: the channels of the other stages, the order of its own, and no channel but its
-- own or a new one.
pub record Keeps (w w' : Heap SseFrame × Stage) : Type 0 where
  pub longer : length w.0 ≤ length w'.0
  pub others : (c : ℕ) → c < length w.0 → owned w.1 ≢ some c → buffer_at w'.0 c ≡ buffer_at w.0 c
  pub own : (history : List SseFrame) → Follows history w.0 w.1 → Follows history w'.0 w'.1
  pub owner : (c : ℕ) → owned w'.1 ≡ some c → (owned w.1 ≡ some c) ⊎ (length w.0 ≤ c)

-- A turn that ends without a channel and leaves the heap alone.
still :
    (heap : Heap SseFrame) (old new : Stage)
    → owned new ≡ none
    → ((history : List SseFrame) → Follows history heap new)
    → Keeps (heap, old) (heap, new)
still heap old new nothing free = record {
  longer = omega arith;
  others = λ c made far. refl;
  own = λ history h. free history;
  owner = λ c own. absurd (ground (arith, nothing, own));
}

buffer_at-new : (heap : Heap SseFrame) → buffer_at (heap ++ new_chan 256 ∷ []) (length heap) ≡ []
buffer_at-new heap = rw (buffer_at, get_elem?-append_last heap (new_chan 256)) refl

nothing_in : (history : List SseFrame) → Sublistᴰ [] history
nothing_in [] = slnil
nothing_in (f ∷ history) = cons (nothing_in history)

admitted-Keeps :
    (heap : Heap SseFrame)
    → Keeps (heap, admitted) (heap ++ new_chan 256 ∷ [], registered (length heap))
admitted-Keeps heap = record {
  longer = omega (arith, length-append heap (new_chan 256 ∷ []));
  others = λ c made far. buffer_at-snoc heap c;
  own = λ history h. (
    omega (arith, length-append heap (new_chan 256 ∷ [])),
    rw (buffer_at-new heap) (nothing_in history),
  );
  owner = λ c own. inr (ground (arith, own));
}

registered-Keeps :
    (heap : Heap SseFrame) (c : ℕ) (f : SseFrame)
    → f.event ≡ "stats"
    → Keeps (heap, registered c) (heap, serving c (f ∷ []))
unfolding oldest_first
registered-Keeps heap c f first = record {
  longer = omega arith;
  others = λ d made far. refl;
  own = λ history h. record {
    made = h.0;
    stats = f;
    later = [];
    wrote = refl;
    first = first;
    in_order = h.1;
  };
  owner = λ d own. inl own;
}

-- A stream that takes what its channel gives.
receives-Keeps :
    (heap : Heap SseFrame) (c : ℕ) (written : List SseFrame)
    → Keeps
        (heap, serving c written)
        ((receive heap c).0, write_received c written (receive heap c).1)
receives-Keeps heap c written = record {
  longer = omega (arith, length-receive heap c);
  others = λ d made far. receive-others heap c d (beq_of_ne c d (λ q. far (ap some q)));
  own = λ history fed.
      received_next history (receive heap c).0 c written (receive heap c).1 fed.later fed.stats
        fed.wrote fed.first (omega (arith, length-receive heap c, fed.made))
        (subst (λ l. Sublistᴰ (fed.later ++ l) history) (receive-front heap c) fed.in_order);
  owner = λ d own. inl (owner_written (receive heap c).1 d own);
}
  where
    owner_written :
        (r : Received SseFrame) (d : ℕ)
        → owned (write_received c written r) ≡ some d
        → some c ≡ some d
    owner_written (got f) d own = own
    owner_written drained d own = absurd (cc)
    owner_written waits d own = own

closes-leaving :
    (c : ℕ) (written : List SseFrame) (r : Received SseFrame)
    → closes_stream r ≡ true
    → write_received c written r ≡ leaving c
closes-leaving c written (got f) h = absurd (ground arith)
closes-leaving c written drained h = refl
closes-leaving c written waits h = absurd (ground arith)

pub turn-Keeps :
    (b : Broker) (old : Stage) (t : Turn)
    → Keeps (b.frames, old) ((handle_sse b old t).0.frames, (handle_sse b old t).1)
unfolding handle_sse make_chan snapshot
turn-Keeps b arrived t = elim (Bool-cases (ltb b.max_clients (b.sse_count + 1))) [
  | inl full ↦ rw (handle_sse, full) (still b.frames arrived too_many refl (λ history. tt))
  | inr room ↦ elim (Bool-cases t.flusher) [
    | inl flushes ↦
        rw (handle_sse, room, flushes) (still b.frames arrived admitted refl (λ history. tt))
    | inr fails ↦
        rw (handle_sse, room, fails) (still b.frames arrived no_flusher refl (λ history. tt))
  ]
]
turn-Keeps b too_many t = still b.frames too_many (refused 503) refl (λ history. tt)
turn-Keeps b no_flusher t = still b.frames no_flusher (refused 500) refl (λ history. tt)
turn-Keeps b admitted t = admitted-Keeps b.frames
turn-Keeps b (registered c) t = registered-Keeps b.frames c _ refl
turn-Keeps b (serving c written) t = elim (Bool-cases t.done) [
  | inl done ↦
      rw (handle_sse, done) (still b.frames (serving c written) (leaving c) refl (λ history. tt))
  | inr on ↦ elim (Bool-cases (closes_stream (receive b.frames c).1)) [
    | inl ends ↦
        rw (handle_sse, on, ends, closes-leaving c written (receive b.frames c).1 ends)
          (still b.frames (serving c written) (leaving c) refl (λ history. tt))
    | inr goes ↦ rw (handle_sse, on, goes) (receives-Keeps b.frames c written)
  ]
]
turn-Keeps b (leaving c) t = still b.frames (leaving c) finished refl (λ history. tt)
turn-Keeps b (refused status) t =
    still b.frames (refused status) (refused status) refl (λ history. tt)
turn-Keeps b finished t = still b.frames finished finished refl (λ history. tt)
