-- ===== src/Request/Outcome.antt =====
-- `sendRequest` as a whole: its result, and the map that it leaves.
use klever_subscriber.Base.{
  ℕ, ◌+◌, ◌<◌, ◌≤◌, ◌^◌, ◌≡◌, refl, ◌∙◌, ap, String, true, List, [], ◌∷◌, ◌++◌, Option, none, some,
  ◌==◌, string_eq, nat_eq, if◌then◌else◌, arith, All, inl, inr, Bool-cases, Option-cases, beq→eq,
  beq_refl, length, get_elem?-append_last,
}
use klever_subscriber.Rate.{u64}
use klever_subscriber.Chan.{new_chan, receive}
use klever_subscriber.Chan.Laws.{receive_value}
use klever_subscriber.Decimal.{format_int}
use klever_subscriber.Request.{
  Params, Request, Response, context_done, Result, err, assign, Requests, register, by_others,
  Network, write_message, accept, taken_or, send_request, exchange, no_requests,
}
use klever_subscriber.Request.Pending.{lookup-assign, All-assign, answered}
use klever_subscriber.Request.Reply.{first_reply, IsForeign, IsWaiting, Holds, by_others-Holds}

-- The channels of the map have been made.
abbrev pub IsKnown : Requests → Type 0
IsKnown s = All (λ p. p.1 < length s.replies) s.pending

pub Known-mono :
    (m n : ℕ) (pending : List (String × ℕ))
    → m ≤ n
    → All (λ p. p.1 < m) pending
    → All (λ p. p.1 < n) pending
Known-mono m n [] h k = tt
Known-mono m n (p ∷ pending) h k = (omega arith, Known-mono m n pending h k.1)

-- The id that the next request gets.
abbrev pub next_request : Requests → String
next_request s = format_int (s.next_id + 1)

pub register_lem :
    (s : Requests)
    → s.next_id + 1 < 2 ^ 63
    → register s ≡ (
      record s {
        next_id = s.next_id + 1;
        pending = assign (next_request s) (length s.replies) s.pending;
        replies = s.replies ++ new_chan 1 ∷ [];
      },
      next_request s,
      length s.replies,
    )
unfolding register
register_lem s h = let plain : u64 (s.next_id + 1) ≡ s.next_id + 1 = omega arith in rw plain

only_new :
    (n : ℕ) (pending : List (String × ℕ)) (id : String)
    → All (λ p. p.1 < n) pending
    → All (λ p. (p.1 == n) ≡ true → p.0 ≡ id) pending
only_new n [] id h = tt
only_new n (p ∷ pending) id h =
    ((λ e. absurd (omega (arith, beq→eq p.1 n e, h.0))), only_new n pending id h.1)

-- A request that has just been registered waits.
register-waits :
    (s : Requests) (sent : List Request)
    → IsKnown s
    → IsWaiting
        (record s {
          next_id = s.next_id + 1;
          pending = assign (next_request s) (length s.replies) s.pending;
          replies = s.replies ++ new_chan 1 ∷ [];
          sent = sent;
        })
        (s.next_id + 1)
        (length s.replies)
register-waits s sent k = record {
  mine =
      lookup-assign (next_request s) (next_request s) (length s.replies) s.pending
      ∙ (rw (beq_refl (next_request s)));
  only =
      All-assign (λ p. (p.1 == length s.replies) ≡ true → p.0 ≡ next_request s) (next_request s)
        (length s.replies) s.pending (λ _. refl)
        (only_new (length s.replies) s.pending (next_request s) k);
  empty = get_elem?-append_last s.replies (new_chan 1);
  issued = omega arith;
}

-- What a reply becomes for the caller, or the lack of one.
abbrev pub reply_or : Option Response → String → Result Response
reply_or none ctx_error = err (context_done ctx_error)
reply_or (some resp) ctx_error = accept resp

-- The result as the caller may read it, with no channel and no map: a write that fails is the
-- result; a context that is taken first, or that ends the wait for want of a reply, gives its error;
-- and otherwise the reply is the first that came under the request's own id.
abbrev pub outcome : Network → String → Result Response
outcome net id = elim (write_message net) [
  | some e ↦ err e
  | none ↦
      if net.ctx_first
      then err (context_done net.ctx_error)
      else reply_or (first_reply id net.meanwhile) net.ctx_error
]

received_reply :
    (s : Requests) (ch : ℕ) (o : Option Response) (e : String)
    → Holds s ch o
    → taken_or (receive s.replies ch).1 e ≡ reply_or o e
received_reply s ch none e h = rw (receive_value s.replies ch (new_chan 1) h)
received_reply s ch (some resp) e h = rw (receive_value s.replies ch (answered resp) h)

exchange_lem :
    (net : Network) (s : Requests) (n ch : ℕ) (request : Request)
    → request.id ≡ format_int n
    → IsWaiting s n ch
    → s.next_id + length net.meanwhile < 2 ^ 63
    → IsForeign (format_int n) net.meanwhile
    → (exchange net s ch request).1 ≡ outcome net (format_int n)
unfolding exchange
exchange_lem net s n ch request q w small f = elim (Option-cases (write_message net)) [
  | inr (e, fails) ↦ ground arith
  | inl writes ↦ elim (Bool-cases net.ctx_first) [
    | inl ctx ↦ ground arith
    | inr waited ↦ ground (
      arith,
      received_reply (by_others (record s { sent = request ∷ s.sent }) net.meanwhile) ch
          (first_reply (format_int n) net.meanwhile) net.ctx_error
          (by_others-Holds (record s { sent = request ∷ s.sent }) n ch net.meanwhile
            (record { mine = w.mine; only = w.only; empty = w.empty; issued = w.issued }) small f),
    )
  ]
]

-- A request gets the first reply sent under its own id while it waits, or the notice that the
-- connection closed, whichever comes first, and never another request's reply; an error of the
-- write, of the context, or in the reply is returned as such. This holds if the channels of the map
-- have been made, for fewer than 2 ^ 63 requests, and if no other goroutine retires this request.
pub send_request_lem :
    (net : Network) (s : Requests) (method : String) (params : Params)
    → IsKnown s
    → s.next_id + 1 + length net.meanwhile < 2 ^ 63
    → IsForeign (next_request s) net.meanwhile
    → (send_request net s method params).1 ≡ outcome net (next_request s)
unfolding send_request
send_request_lem net s method params k small f =
    ap
      (λ (r : Requests × String × ℕ).
        (exchange net r.0 r.2 (record { id = r.1; method = method; params = params })).1)
      (register_lem s (omega arith))
    ∙ exchange_lem net _ (s.next_id + 1) (length s.replies) _ refl (register-waits s s.sent k) small
        f

-- The first request of a client goes under the id 1.
pub first_request :
    (net : Network) (method : String) (params : Params)
    → 1 + length net.meanwhile < 2 ^ 63
    → IsForeign "1" net.meanwhile
    → (send_request net no_requests method params).1 ≡ outcome net "1"
unfolding format_int
first_request net method params small f =
    send_request_lem net no_requests method params tt (omega arith) f
