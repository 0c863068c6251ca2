-- ===== src/Connection/Alive/Gaps.antt =====
-- When a connection times out.
use klever_subscriber.Base.{
  ℕ, ◌+◌, ◌≤◌, ◌<◌, ◌≡◌, refl, ◌↔◌, Bool, true, false, List, [], ◌∷◌, arith, inl, inr, leb,
  Bool-cases, if◌then◌else◌,
}
use klever_subscriber.Connection.Alive.{
  message, pong, ping, Arrival, time_of, deadline_from, read_timeout, renewed, Reading, waits_until,
  timed_out_at, read_until, connection_at,
}

-- The times at which the deadline is renewed.
unfoldable pub renewals : List Arrival → List ℕ
renewals [] = []
renewals (message t ∷ arrivals) = t ∷ renewals arrivals
renewals (pong t ∷ arrivals) = t ∷ renewals arrivals
renewals (ping t ∷ arrivals) = renewals arrivals

-- From `t` to `now` no two of the times that follow each other are `bound` apart or more.
abbrev pub HasNoGap : ℕ → ℕ → List ℕ → ℕ → Type 0
HasNoGap bound t [] now = now < t + bound
HasNoGap bound t (u ∷ times) now = (u < t + bound) × HasNoGap bound u times now

-- The arrivals are in order of time, between `t` and `now`.
abbrev pub IsOrdered : ℕ → List Arrival → ℕ → Type 0
IsOrdered t [] now = t ≤ now
IsOrdered t (a ∷ arrivals) now = (t ≤ time_of a) × IsOrdered (time_of a) arrivals now

abbrev pub is_waiting : Reading → Bool
is_waiting (waits_until deadline) = true
is_waiting (timed_out_at deadline) = false

-- A gap that is already too wide is not closed by what comes after it.
no_gap_late :
    (bound t s : ℕ) (arrivals : List Arrival) (now : ℕ)
    → t + bound ≤ s
    → IsOrdered s arrivals now
    → HasNoGap bound t (renewals arrivals) now
    → 1 ≤ 0
unfolding renewals
no_gap_late bound t s [] now late o g = omega arith
no_gap_late bound t s (message u ∷ arrivals) now late o g = omega arith
no_gap_late bound t s (pong u ∷ arrivals) now late o g = omega arith
no_gap_late bound t s (ping u ∷ arrivals) now late o g =
    no_gap_late bound t u arrivals now (omega arith) o.1 g

before_deadline :
    (interval t u : ℕ) (rest : Reading) (P : Type 0)
    → ((is_waiting rest ≡ true) ↔ P)
    → (is_waiting (
          if leb (deadline_from interval t) u
          then timed_out_at (deadline_from interval t)
          else rest)
        ≡ true)
      ↔ ((u < t + read_timeout interval) × P)
before_deadline interval t u rest P h = elim (Bool-cases (leb (deadline_from interval t) u)) [
  | inl late ↦ rw late (λ w. absurd (ground arith), λ g. absurd (ground arith))
  | inr early ↦ rw early (λ w. (ground arith, h.0 w), λ g. h.1 g.1)
]

read_until-HasNoGap :
    (interval t s : ℕ) (arrivals : List Arrival) (now : ℕ)
    → IsOrdered s arrivals now
    → (is_waiting (read_until interval (deadline_from interval t) arrivals now) ≡ true)
      ↔ HasNoGap (read_timeout interval) t (renewals arrivals) now
unfolding read_until renewals renewed
read_until-HasNoGap interval t s [] now o = (λ w. ground arith, λ g. ground arith)
read_until-HasNoGap interval t s (message u ∷ arrivals) now o =
    before_deadline interval t u _ _ (read_until-HasNoGap interval u u arrivals now o.1)
read_until-HasNoGap interval t s (pong u ∷ arrivals) now o =
    before_deadline interval t u _ _ (read_until-HasNoGap interval u u arrivals now o.1)
read_until-HasNoGap interval t s (ping u ∷ arrivals) now o =
    elim (Bool-cases (leb (deadline_from interval t) u)) [
      | inl late ↦ rw late (
        λ w. absurd (ground arith),
        λ g. absurd (
            omega
              (arith, no_gap_late (read_timeout interval) t u arrivals now (ground arith) o.1 g)),
      )
      | inr early ↦ rw early (read_until-HasNoGap interval t u arrivals now o.1)
    ]

-- The read loop of a connection waits at a time if and only if the connection is younger than two
-- ping intervals or, from its start to that time, messages and pongs have come less than two ping
-- intervals apart; what else has come does not matter.
pub waits_iff_no_gap :
    (interval start : ℕ) (arrivals : List Arrival) (now : ℕ)
    → IsOrdered start arrivals now
    → (is_waiting (connection_at interval start arrivals now) ≡ true)
      ↔ HasNoGap (read_timeout interval) start (renewals arrivals) now
unfolding connection_at
waits_iff_no_gap interval start arrivals now o =
    read_until-HasNoGap interval start start arrivals now o

-- Each of the arrivals is a pong that answers the next of the pings, within an interval of it.
abbrev pub IsAnswered : ℕ → List ℕ → List Arrival → Type 0
IsAnswered interval pings [] = Unit
IsAnswered interval [] (a ∷ arrivals) = false ≡ true
IsAnswered interval (p ∷ pings) (message u ∷ arrivals) = false ≡ true
IsAnswered interval (p ∷ pings) (ping u ∷ arrivals) = false ≡ true
IsAnswered interval (p ∷ pings) (pong u ∷ arrivals) =
    (p ≤ u) × (u < p + interval) × IsAnswered interval pings arrivals

-- The last ping that is answered, or the start.
abbrev pub last_answered : ℕ → List ℕ → List Arrival → ℕ
last_answered t pings [] = t
last_answered t [] (a ∷ arrivals) = t
last_answered t (p ∷ pings) (a ∷ arrivals) = last_answered p pings arrivals

silent :
    (interval deadline : ℕ) (arrivals : List Arrival) (now : ℕ)
    → renewals arrivals ≡ []
    → deadline ≤ now
    → read_until interval deadline arrivals now ≡ timed_out_at deadline
unfolding read_until renewals renewed
silent interval deadline [] now quiet late = ground arith
silent interval deadline (message u ∷ arrivals) now quiet late = absurd (cc)
silent interval deadline (pong u ∷ arrivals) now quiet late = absurd (cc)
silent interval deadline (ping u ∷ arrivals) now quiet late = elim (Bool-cases (leb deadline u)) [
  | inl ends ↦ rw (read_until, ends) refl
  | inr goes ↦ rw (read_until, goes) (silent interval deadline arrivals now quiet late)
]

-- After two intervals in which nothing has come but pings of the peer, the read has timed out, at the
-- end of the two intervals.
pub silence_times_out :
    (interval start : ℕ) (arrivals : List Arrival) (now : ℕ)
    → renewals arrivals ≡ []
    → start + read_timeout interval ≤ now
    → connection_at interval start arrivals now ≡ timed_out_at (start + read_timeout interval)
unfolding connection_at
silence_times_out interval start arrivals now quiet late =
    silent interval (start + read_timeout interval) arrivals now quiet late
