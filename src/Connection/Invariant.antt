-- ===== src/Connection/Invariant.antt =====
-- What the loop of `Start` keeps true, whatever the other goroutines do.
use klever_subscriber.Base.{
  ℕ, ◌≡◌, refl, ◌∙◌, Bool, true, false, String, List, [], ◌∷◌, Option, none, some, nat_eq, contains,
  All,
}
use klever_subscriber.Event.{EventType}
use klever_subscriber.Hub.Sound.{IsSound, close_subscribers_lem, shut-IsSound}
use klever_subscriber.Subscription.{is_some_list}
use klever_subscriber.Connection.{
  Stage, top, checking, idle, opening, reading, dialing, subscribing, online, closing, hanging_up,
  returned, settled, pausing, stopped, unwinding, recovered, Loop, or_accounts, stop,
}

-- What `connCancel`, `activeConn` and `connected` are in each stage.
abbrev pub context_of : Stage → Option ℕ
context_of (reading c) = some c
context_of (dialing c types addresses) = some c
context_of (subscribing c types addresses) = some c
context_of (online c) = some c
context_of (closing c) = some c
context_of (hanging_up c) = some c
context_of (returned c) = some c
context_of (unwinding c b) = some c
context_of (recovered c b) = some c
context_of _ = none

abbrev pub socket_of : Stage → Option ℕ
socket_of (subscribing c types addresses) = some c
socket_of (online c) = some c
socket_of (closing c) = some c
socket_of (hanging_up c) = some c
socket_of (unwinding c b) = some c
socket_of _ = none

abbrev pub is_online : Stage → Bool
is_online (online c) = true
is_online (closing c) = true
is_online (unwinding c b) = b
is_online (recovered c b) = b
is_online _ = false

abbrev pub is_stopped : Stage → Bool
is_stopped stopped = true
is_stopped _ = false

-- The context of a connection that has ended is cancelled.
abbrev pub settles : Stage → List ℕ → Bool
settles (settled c) cancelled = contains cancelled c
settles _ cancelled = true

abbrev pub IsTyped : List (List EventType × List String) → Type 0
IsTyped handshakes = All (λ h. is_some_list h.0 ≡ true) handshakes

-- Beside the channels, `connCancel` is set, `activeConn` is, and `connected` is true in the stages
-- that these functions name and in no other; the loop has ended only after its context; no
-- handshake was without a type; and the loop has
-- reported no error.
pub record IsCoherentAt (stage : Stage) (s : Loop) : Type 0 where
  pub sound : IsSound s.client.hub
  pub context : s.client.conn_cancel ≡ context_of stage
  pub socket : s.active ≡ socket_of stage
  pub connected : s.client.connected ≡ is_online stage
  pub settling : settles stage s.client.cancelled ≡ true
  pub ended : is_stopped stage ≡ true → s.done ≡ true
  pub typed : IsTyped s.handshakes
  pub quiet : s.reports ≡ 0

abbrev pub IsCoherent : Loop → Type 0
IsCoherent s = IsCoherentAt s.stage s

pub or_accounts-some : (types : List EventType) → is_some_list (or_accounts types) ≡ true
or_accounts-some [] = refl
or_accounts-some (t ∷ types) = refl

-- The stages without a connection, from which the loop may end.
abbrev pub is_away : Stage → Bool
is_away top = true
is_away checking = true
is_away idle = true
is_away opening = true
is_away (settled c) = true
is_away pausing = true
is_away stopped = true
is_away _ = false

pub away_lem :
    (stage : Stage)
    → is_away stage ≡ true
    → (context_of stage ≡ none) × (socket_of stage ≡ none) × (is_online stage ≡ false)
away_lem (reading c) h = absurd (cc)
away_lem (dialing c types addresses) h = absurd (cc)
away_lem (subscribing c types addresses) h = absurd (cc)
away_lem (online c) h = absurd (cc)
away_lem (closing c) h = absurd (cc)
away_lem (hanging_up c) h = absurd (cc)
away_lem (returned c) h = absurd (cc)
away_lem (unwinding c b) h = absurd (cc)
away_lem (recovered c b) h = absurd (cc)
away_lem stage h = (refl, refl, refl)

-- The end of the loop.
pub stop-IsCoherent :
    (stage : Stage) (s : Loop)
    → IsCoherentAt stage s
    → s.done ≡ true
    → is_away stage ≡ true
    → (s' : Loop) × (stop s ≡ some s')
      × IsCoherent s'
      × (s'.stage ≡ stopped)
      × (s'.client.hub.subscribers ≡ [])
unfolding stop
stop-IsCoherent stage s v d h =
    let (heap, runs, changed) = close_subscribers_lem s.client.hub v.sound in
    let (c, a, o) = away_lem stage h in
    (
      record s {
        client = record s.client { hub = record { channels = heap; subscribers = [] } };
        stage = stopped;
      },
      rw runs,
      record {
        sound = shut-IsSound s.client.hub heap v.sound changed;
        context = v.context ∙ c;
        socket = v.socket ∙ a;
        connected = v.connected ∙ o;
        settling = refl;
        ended = λ _. d;
        typed = v.typed;
        quiet = v.quiet;
      },
      refl,
      refl,
    )
