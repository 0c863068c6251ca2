-- ===== src/Connection/Alive.antt =====
-- subscriber/connection.go: how a silent connection is noticed. `connect` sets a read deadline, which
-- the read loop renews at each message and the handler of pongs at each pong, and one goroutine sends
-- pings. Times and durations are nanoseconds; an interval that is not positive is 0 here.
pub mod Gaps
pub mod Tests
use klever_subscriber.Base.{
  ℕ, ◌+◌, ◌*◌, Bool, true, false, List, [], ◌∷◌, Option, none, some, leb, eqb, if◌then◌else◌,
}

-- What comes from the peer, and when. A ping of its own is answered by the library and renews nothing.
pub data Arrival : Type 0 where
  message : ℕ → Arrival
  pong : ℕ → Arrival
  ping : ℕ → Arrival

abbrev pub time_of : Arrival → ℕ
time_of (message t) = t
time_of (pong t) = t
time_of (ping t) = t

abbrev pub read_timeout : ℕ → ℕ
read_timeout interval = 2 * interval

-- `conn.SetReadDeadline(time.Now().Add(readTimeout))`
abbrev pub deadline_from : ℕ → ℕ → ℕ
deadline_from interval now = now + read_timeout interval

-- The deadline after something has come before it.
unfoldable pub renewed : ℕ → ℕ → Arrival → ℕ
renewed interval deadline (message t) = deadline_from interval t
renewed interval deadline (pong t) = deadline_from interval t
renewed interval deadline (ping t) = deadline

-- The read loop at some time: it waits, up to a deadline, or has ended at one.
pub data Reading : Type 0 where
  waits_until : ℕ → Reading
  timed_out_at : ℕ → Reading

abbrev pub check : ℕ → ℕ → Reading
check deadline now = if leb deadline now then timed_out_at deadline else waits_until deadline

-- The read loop at the time `now`, where `arrivals` lists what has come by then. After a timeout all
-- reads fail.
unfoldable pub read_until : ℕ → ℕ → List Arrival → ℕ → Reading
unfolding renewed
read_until interval deadline [] now = check deadline now
read_until interval deadline (a ∷ arrivals) now =
    let rest = read_until interval (renewed interval deadline a) arrivals now in
    if leb deadline (time_of a) then timed_out_at deadline else rest

-- A connection that was made at the time `start`.
unfoldable pub connection_at : ℕ → ℕ → List Arrival → ℕ → Reading
unfolding read_until
connection_at interval start arrivals now =
    read_until interval (deadline_from interval start) arrivals now

-- The times of the pings, one at each tick until a write fails or the connection ends; the list says
-- of each tick whether its write fails.
unfoldable pub ping_times : ℕ → ℕ → List Bool → List ℕ
ping_times interval t [] = []
ping_times interval t (fails ∷ writes) =
    let rest = ping_times interval (t + interval) writes in
    if fails then [] else (t + interval) ∷ rest

-- The goroutine that sends them: `time.NewTicker` panics for an interval that is not positive, which
-- is `none`.
unfoldable pub send_pings : ℕ → ℕ → List Bool → Option (List ℕ)
unfolding ping_times
send_pings interval start writes =
    if eqb interval 0 then none else some (ping_times interval start writes)
