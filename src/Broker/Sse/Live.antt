-- ===== src/Broker/Sse/Live.antt =====
-- The channels of the registered clients stay open through every turn of `HandleSSE`.
use klever_subscriber.Base.{
  ℕ, ◌≡◌, refl, ◌∙◌, false, not, ◌&&◌, List, [], ◌∷◌, ◌++◌, ◌==◌, nat_eq, arith, contains,
  contains-append, IsDistinct, IsDistinct-snoc, inl, inr, Bool-cases, length, beq→eq,
  get_elem?-append_left, get_elem?-append_last, get_elem?-lt,
}
use klever_subscriber.Chan.{Heap, new_chan, receive}
use klever_subscriber.Chan.Laws.{receive_keeps}
use klever_subscriber.Broker.{Broker, SseFrame}
use klever_subscriber.Broker.Fanout.{IsLive}
use klever_subscriber.Broker.Sse.{
  Stage, arrived, too_many, no_flusher, admitted, registered, serving, leaving, refused, finished,
  Turn, delete_client, handle_sse, closes_stream,
}

fresh_client :
    (frames : Heap SseFrame) (clients : List ℕ)
    → IsLive frames clients
    → contains clients (length frames) ≡ false
fresh_client frames clients v = elim (Bool-cases (contains clients (length frames))) [
  | inl listed ↦
      let (ch, at, _) = v.opened (length frames) listed in
      absurd (omega (arith, get_elem?-lt frames (length frames) at))
  | inr out ↦ out
]

register-IsLive :
    (frames : Heap SseFrame) (clients : List ℕ)
    → IsLive frames clients
    → IsLive (frames ++ new_chan 256 ∷ []) (clients ++ length frames ∷ [])
register-IsLive frames clients v = record {
  distinct = IsDistinct-snoc clients (length frames) v.distinct (fresh_client frames clients v);
  opened = λ c m. elim (Bool-cases (contains clients c)) [
    | inl listed ↦
        let (ch, at, opened) = v.opened c listed in
        (ch, get_elem?-append_left frames _ c (get_elem?-lt frames c at) ∙ at, opened)
    | inr out ↦ (
      new_chan 256,
      rw
          (← beq→eq (length frames) c
            (ground (arith, contains-append clients (length frames ∷ []) c)))
          (get_elem?-append_last frames (new_chan 256)),
      refl,
    )
  ];
}

contains-delete_client :
    (clients : List ℕ) (c d : ℕ)
    → contains (delete_client clients c) d ≡ (contains clients d && not (c == d))
unfolding delete_client
contains-delete_client [] c d = refl
contains-delete_client (x ∷ clients) c d = ground (arith, contains-delete_client clients c d)

delete_client-IsDistinct :
    (clients : List ℕ) (c : ℕ) → IsDistinct clients → IsDistinct (delete_client clients c)
unfolding delete_client
delete_client-IsDistinct [] c h = tt
delete_client-IsDistinct (x ∷ clients) c h =
    ground (arith, contains-delete_client clients c x, delete_client-IsDistinct clients c h.1)

delete-IsLive :
    (frames : Heap SseFrame) (clients : List ℕ) (c : ℕ)
    → IsLive frames clients
    → IsLive frames (delete_client clients c)
delete-IsLive frames clients c v = record {
  distinct = delete_client-IsDistinct clients c v.distinct;
  opened = λ d m. v.opened d (ground (arith, contains-delete_client clients c d));
}

receive-IsLive :
    (frames : Heap SseFrame) (clients : List ℕ) (x : ℕ)
    → IsLive frames clients
    → IsLive (receive frames x).0 clients
receive-IsLive frames clients x v = record {
  distinct = v.distinct;
  opened = λ c m.
      let (ch, at, opened) = v.opened c m in
      let (ch', here, same) = receive_keeps frames x c ch at in (ch', here, same ∙ opened);
}

pub turn-IsLive :
    (b : Broker) (s : Stage) (t : Turn)
    → IsLive b.frames b.clients
    → IsLive (handle_sse b s t).0.frames (handle_sse b s t).0.clients
unfolding handle_sse
turn-IsLive b arrived t v = v
turn-IsLive b too_many t v = v
turn-IsLive b no_flusher t v = v
turn-IsLive b admitted t v = register-IsLive b.frames b.clients v
turn-IsLive b (registered c) t v = v
turn-IsLive b (serving c written) t v = elim (Bool-cases t.done) [
  | inl done ↦ rw done v
  | inr on ↦ rw on (elim (Bool-cases (closes_stream (receive b.frames c).1)) [
    | inl ends ↦ rw ends v
    | inr goes ↦ rw goes (receive-IsLive b.frames b.clients c v)
  ])
]
turn-IsLive b (leaving c) t v = delete-IsLive b.frames b.clients c v
turn-IsLive b (refused status) t v = v
turn-IsLive b finished t v = v
