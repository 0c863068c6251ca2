-- ===== src/Request/Reply.antt =====
-- What `sendRequest` returns, as a function of what the other goroutines do while it waits.
use klever_subscriber.Base.{
  ℕ, suc, ◌+◌, ◌<◌, ◌≤◌, ◌^◌, ◌≡◌, ◌∙◌, String, true, false, List, [], ◌∷◌, Option, none, some,
  ◌==◌, string_eq, nat_eq, if◌then◌else◌, arith, All, inl, inr, Bool-cases, Option-cases, beq→eq,
  beq-ne, beq_of_ne, get_elem?, length, get_elem?-append_left, get_elem?-lt,
}
use klever_subscriber.Rate.{u64}
use klever_subscriber.Chan.{new_chan}
use klever_subscriber.Decimal.{format_int, format_int_inj}
use klever_subscriber.Request.{
  Response, lookup, connection_closed, Requests, route_response, Other, routes, fails_all,
  registers, retires, by_other, by_others,
}
use klever_subscriber.Request.Pending.{
  lookup-assign, lookup-delete, All-assign, All-delete, All-lookup, answered, offer_lem,
  offer-answered, fail_each-answered, fail_each-tells,
}

-- The reply that a request is given: the first that the node sends under its id, or the notice that
-- the connection closed, whichever is first.
unfoldable pub first_reply : String → List Other → Option Response
first_reply id [] = none
first_reply id (routes resp ∷ os) =
    let rest = first_reply id os in if resp.id == id then some resp else rest
first_reply id (fails_all ∷ os) = some (connection_closed id)
first_reply id (registers ∷ os) = first_reply id os
first_reply id (retires k ∷ os) = first_reply id os

-- No other goroutine retires this id: each retires the one that it registered.
abbrev pub IsForeign : String → List Other → Type 0
IsForeign id [] = Unit
IsForeign id (retires k ∷ os) = ((k == id) ≡ false) × IsForeign id os
IsForeign id (routes resp ∷ os) = IsForeign id os
IsForeign id (fails_all ∷ os) = IsForeign id os
IsForeign id (registers ∷ os) = IsForeign id os

-- The request number `n` waits on its channel, and no other id has that channel.
pub record IsWaiting (s : Requests) (n ch : ℕ) : Type 0 where
  pub mine : lookup (format_int n) s.pending ≡ some ch
  pub only : All (λ p. (p.1 == ch) ≡ true → p.0 ≡ format_int n) s.pending
  pub empty : get_elem? s.replies ch ≡ some (new_chan 1)
  pub issued : n ≤ s.next_id

abbrev pub IsAnswered : Requests → ℕ → Response → Type 0
IsAnswered s ch resp = get_elem? s.replies ch ≡ some (answered resp)

by_other-IsAnswered :
    (s : Requests) (ch : ℕ) (resp : Response) (o : Other)
    → IsAnswered s ch resp
    → IsAnswered (by_other s o) ch resp
unfolding by_other
by_other-IsAnswered s ch resp (routes new) h = elim (Option-cases (lookup new.id s.pending)) [
  | inl gone ↦ ground arith
  | inr (c, at) ↦ ground (arith, offer-answered resp new s.replies c ch h)
]
by_other-IsAnswered s ch resp fails_all h = fail_each-answered resp s.pending s.replies ch h
by_other-IsAnswered s ch resp registers h =
    get_elem?-append_left s.replies _ ch (get_elem?-lt s.replies ch h) ∙ h
by_other-IsAnswered s ch resp (retires k) h = h

by_others-IsAnswered :
    (s : Requests) (ch : ℕ) (resp : Response) (os : List Other)
    → IsAnswered s ch resp
    → IsAnswered (by_others s os) ch resp
unfolding by_others
by_others-IsAnswered s ch resp [] h = h
by_others-IsAnswered s ch resp (o ∷ os) h =
    by_others-IsAnswered (by_other s o) ch resp os (by_other-IsAnswered s ch resp o h)

-- A reply under the id reaches the channel.
routes-mine :
    (s : Requests) (n ch : ℕ) (resp : Response)
    → IsWaiting s n ch
    → (resp.id == format_int n) ≡ true
    → IsAnswered (by_other s (routes resp)) ch resp
unfolding by_other
routes-mine s n ch resp w e =
    let found : lookup resp.id s.pending ≡ some ch = rw (beq→eq resp.id (format_int n) e) w.mine in
    ground (arith, w.empty, offer_lem resp s.replies ch ch)

-- A reply under another id does not.
routes-other :
    (s : Requests) (n ch : ℕ) (resp : Response)
    → IsWaiting s n ch
    → (resp.id == format_int n) ≡ false
    → IsWaiting (by_other s (routes resp)) n ch
unfolding by_other
routes-other s n ch resp w e = elim (Option-cases (lookup resp.id s.pending)) [
  | inl gone ↦ rw (gone, route_response) w
  | inr (c, at) ↦
      rw (at, route_response)
        (record {
          mine = w.mine;
          only = w.only;
          empty = elim (Bool-cases (c == ch)) [
            | inl same ↦ absurd (
                beq-ne resp.id (format_int n) e (
                  All-lookup (λ p. (p.1 == ch) ≡ true → p.0 ≡ format_int n) resp.id s.pending at
                    w.only same))
            | inr differ ↦ ground (arith, offer_lem resp s.replies c ch, w.empty)
          ];
          issued = w.issued;
        })
]

-- A new request takes another id and another channel.
registers-waits :
    (s : Requests) (n ch : ℕ)
    → IsWaiting s n ch
    → s.next_id + 1 < 2 ^ 63
    → IsWaiting (by_other s registers) n ch
unfolding by_other
registers-waits s n ch w small =
    let next = s.next_id + 1 in
    let plain : u64 next ≡ next = omega arith in
    let other : (format_int next == format_int n) ≡ false =
      beq_of_ne (format_int next) (format_int n) (λ e.
        absurd
          (omega (arith, format_int_inj next n small (omega (arith, w.issued)) e, w.issued))) in
    let fresh : (length s.replies == ch) ≡ false =
      beq_of_ne (length s.replies) ch
        (λ e. absurd (omega (arith, get_elem?-lt s.replies ch w.empty))) in
    rw plain (record {
      mine =
          lookup-assign (format_int next) (format_int n) (length s.replies) s.pending
          ∙ (rw other w.mine);
      only =
          All-assign (λ p. (p.1 == ch) ≡ true → p.0 ≡ format_int n) (format_int next)
            (length s.replies) s.pending (λ e. cc) w.only;
      empty = get_elem?-append_left s.replies _ ch (get_elem?-lt s.replies ch w.empty) ∙ w.empty;
      issued = omega (arith, w.issued);
    })

retires-waits :
    (s : Requests) (n ch : ℕ) (k : String)
    → IsWaiting s n ch
    → (k == format_int n) ≡ false
    → IsWaiting (by_other s (retires k)) n ch
unfolding by_other
retires-waits s n ch k w e = record {
  mine = lookup-delete k (format_int n) s.pending ∙ (rw e w.mine);
  only = All-delete (λ p. (p.1 == ch) ≡ true → p.0 ≡ format_int n) k s.pending w.only;
  empty = w.empty;
  issued = w.issued;
}

fails_all-tells :
    (s : Requests) (n ch : ℕ)
    → IsWaiting s n ch
    → IsAnswered (by_other s fails_all) ch (connection_closed (format_int n))
unfolding by_other
fails_all-tells s n ch w =
    fail_each-tells (format_int n) ch s.pending s.replies w.mine w.only w.empty

next_id_same :
    (s : Requests) (resp : Response) (m : ℕ)
    → s.next_id + suc m < 2 ^ 63
    → (by_other s (routes resp)).next_id + m < 2 ^ 63
unfolding by_other
next_id_same s resp m h = elim (Option-cases (lookup resp.id s.pending)) [
  | inl gone ↦ rw (gone, route_response) (omega arith)
  | inr (c, at) ↦ rw (at, route_response) (omega arith)
]

next_id_up :
    (s : Requests) (m : ℕ)
    → s.next_id + suc m < 2 ^ 63
    → (by_other s registers).next_id + m < 2 ^ 63
unfolding by_other
next_id_up s m h = omega arith

next_id_kept :
    (s : Requests) (k : String) (m : ℕ)
    → s.next_id + suc m < 2 ^ 63
    → (by_other s (retires k)).next_id + m < 2 ^ 63
unfolding by_other
next_id_kept s k m h = omega arith

-- The channel after the others have acted: it holds the first reply, or nothing.
abbrev pub Holds : Requests → ℕ → Option Response → Type 0
Holds s ch none = get_elem? s.replies ch ≡ some (new_chan 1)
Holds s ch (some resp) = IsAnswered s ch resp

pub by_others-Holds :
    (s : Requests) (n ch : ℕ) (os : List Other)
    → IsWaiting s n ch
    → s.next_id + length os < 2 ^ 63
    → IsForeign (format_int n) os
    → Holds (by_others s os) ch (first_reply (format_int n) os)
unfolding by_others first_reply
by_others-Holds s n ch [] w small f = w.empty
by_others-Holds s n ch (routes resp ∷ os) w small f = elim (Bool-cases (resp.id == format_int n)) [
  | inl mine ↦
      rw mine (
        by_others-IsAnswered (by_other s (routes resp)) ch resp os (routes-mine s n ch resp w mine))
  | inr other ↦ rw other (
      by_others-Holds (by_other s (routes resp)) n ch os (routes-other s n ch resp w other)
        (next_id_same s resp (length os) small) f)
]
by_others-Holds s n ch (fails_all ∷ os) w small f =
    by_others-IsAnswered (by_other s fails_all) ch (connection_closed (format_int n)) os
      (fails_all-tells s n ch w)
by_others-Holds s n ch (registers ∷ os) w small f =
    by_others-Holds (by_other s registers) n ch os (registers-waits s n ch w (omega arith))
      (next_id_up s (length os) small) f
by_others-Holds s n ch (retires k ∷ os) w small f =
    by_others-Holds (by_other s (retires k)) n ch os (retires-waits s n ch k w f.0)
      (next_id_kept s k (length os) small) f.1
