-- ===== src/Connection/Alive/Tests.antt =====
-- Runs of the pings and of the read deadline.
use klever_subscriber.Base.{◌≡◌, refl, ◌↔◌, true, List, [], ◌∷◌, none, arith}
use klever_subscriber.Connection.Alive.{
  Arrival, message, pong, ping, read_timeout, timed_out_at, connection_at, read_until, renewed,
  send_pings,
}
use klever_subscriber.Connection.Alive.Gaps.{renewals, HasNoGap, is_waiting, waits_iff_no_gap}

-- With an interval of three: an event, a pong, a ping of the peer.
abbrev arrivals : List Arrival
arrivals = message 2 ∷ pong 7 ∷ ping 12 ∷ []

waits_iff_no_gap_example :
    (is_waiting (connection_at 3 0 arrivals 12) ≡ true)
    ↔ HasNoGap (read_timeout 3) 0 (renewals arrivals) 12
waits_iff_no_gap_example =
    waits_iff_no_gap 3 0 arrivals 12 (omega arith, (omega arith, (omega arith, omega arith)))

peer_pings_renew_nothing : connection_at 3 0 arrivals 13 ≡ timed_out_at 13
unfolding connection_at read_until renewed
peer_pings_renew_nothing = refl

no_interval : send_pings 0 0 [] ≡ none
unfolding send_pings
no_interval = refl
