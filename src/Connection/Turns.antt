-- ===== src/Connection/Turns.antt =====
-- One turn of `Start` keeps the loop coherent, from each stage.
use klever_subscriber.Base.{
  ℕ, String, List, some, ◌≡◌, refl, ◌∙◌, sym, true, false, ◌||◌, ◌&&◌, if◌then◌else◌, ◌∷◌, nat_eq,
  beq_refl, arith, inl, inr, Bool-cases,
}
use klever_subscriber.Event.{EventType}
use klever_subscriber.Subscription.{is_some_list}
use klever_subscriber.Connection.{
  Stage, top, checking, idle, opening, reading, dialing, subscribing, online, closing, hanging_up,
  returned, settled, pausing, stopped, unwinding, recovered, Turn, Loop, to, or_accounts, advance,
}
use klever_subscriber.Connection.Invariant.{
  context_of, socket_of, is_online, is_stopped, settles, IsCoherent, IsCoherentAt, or_accounts-some,
}
use klever_subscriber.Connection.Selects.{
  Kept, move, stop-Kept, stay, wait-IsCoherent, disconnect-IsCoherent, serve-IsCoherent,
  settled-IsCoherent, pausing-IsCoherent, dialled, dialled-IsCoherent,
}

-- The handshake has been sent.
accepted :
    (c : ℕ) (types : List EventType) (addresses : List String) (s : Loop)
    → IsCoherentAt (subscribing c types addresses) s
    → (new : Stage) → context_of new ≡ some c
    → socket_of new ≡ some c
    → is_online new ≡ true
    → settles new s.client.cancelled ≡ true
    → is_stopped new ≡ false
    → IsCoherent (record s {
      client = record s.client { connected = true };
      handshakes = (or_accounts types, addresses) ∷ s.handshakes;
      stage = new;
    })
accepted c types addresses s v new c' a o settled_new on = record {
  sound = v.sound;
  context = v.context ∙ sym c';
  socket = v.socket ∙ sym a;
  connected = sym o;
  settling = settled_new;
  ended = λ e. absurd (cc);
  typed = (or_accounts-some types, v.typed);
  quiet = v.quiet;
}

-- A turn does not panic, and keeps the loop coherent.
pub advance-IsCoherent :
    (stage : Stage) (s : Loop) (t : Turn)
    → IsCoherentAt stage s
    → s.stage ≡ stage
    → Kept (advance stage s t)
unfolding advance
advance-IsCoherent top s t v q = elim (Bool-cases s.done) [
  | inl d ↦ let (s', runs, v') = stop-Kept top s v d refl in (s', ground arith, v')
  | inr n ↦ (to checking s, ground arith, move top checking s v refl refl refl refl refl)
]
advance-IsCoherent checking s t v q =
    elim (Bool-cases (is_some_list s.client.types || s.client.query_only)) [
      | inl has ↦ (to opening s, ground arith, move checking opening s v refl refl refl refl refl)
      | inr none_yet ↦ (to idle s, ground arith, move checking idle s v refl refl refl refl refl)
    ]
advance-IsCoherent idle s t v q = wait-IsCoherent t.ready idle s v q refl
advance-IsCoherent opening s t v q = (
  _,
  refl,
  record {
    sound = v.sound;
    context = refl;
    socket = v.socket;
    connected = v.connected;
    settling = refl;
    ended = λ e. absurd (cc);
    typed = v.typed;
    quiet = v.quiet;
  },
)
advance-IsCoherent (reading c) s t v q =
    (_, refl, move (reading c) (dialing c _ _) s v refl refl refl refl refl)
advance-IsCoherent (dialing c types addresses) s t v q = elim (Bool-cases t.dial_error) [
  | inl fails ↦ (
    to (returned c) s,
    ground arith,
    move (dialing c types addresses) (returned c) s v refl refl refl refl refl,
  )
  | inr dials ↦ elim (Bool-cases t.deadline_error) [
    | inl fails ↦ (
      to (hanging_up c) (dialled c s),
      ground arith,
      dialled-IsCoherent c s (dialing c types addresses) (hanging_up c) v refl refl refl refl refl,
    )
    | inr sets ↦ (
      to (subscribing c types addresses) (dialled c s),
      ground arith,
      dialled-IsCoherent c s (dialing c types addresses) (subscribing c types addresses) v refl refl
          refl refl refl,
    )
  ]
]
advance-IsCoherent (subscribing c types addresses) s t v q = elim (Bool-cases t.write_error) [
  | inl fails ↦ (
    to (hanging_up c) s,
    ground arith,
    move (subscribing c types addresses) (hanging_up c) s v refl refl refl refl refl,
  )
  | inr writes ↦ (
    record s {
      client = record s.client { connected = true };
      handshakes = (or_accounts types, addresses) ∷ s.handshakes;
      stage = if s.client.on_connect && t.panics then unwinding c true else online c;
    },
    rw writes,
    elim (Bool-cases (s.client.on_connect && t.panics)) [
      | inl panic ↦
          rw panic (accepted c types addresses s v (unwinding c true) refl refl refl refl refl)
      | inr fine ↦ rw fine (accepted c types addresses s v (online c) refl refl refl refl refl)
    ],
  )
]
advance-IsCoherent (online c) s t v q = (_, refl, serve-IsCoherent t.ready t.panics c s v q)
advance-IsCoherent (closing c) s t v q =
    (_, refl, disconnect-IsCoherent t.panics c s (closing c) v refl refl)
advance-IsCoherent (hanging_up c) s t v q = (
  _,
  refl,
  record {
    sound = v.sound;
    context = v.context;
    socket = refl;
    connected = v.connected;
    settling = refl;
    ended = λ e. absurd (cc);
    typed = v.typed;
    quiet = v.quiet;
  },
)
advance-IsCoherent (returned c) s t v q = (
  _,
  refl,
  record {
    sound = v.sound;
    context = refl;
    socket = v.socket;
    connected = v.connected;
    settling = ground (arith, beq_refl c);
    ended = λ e. absurd (cc);
    typed = v.typed;
    quiet = v.quiet;
  },
)
advance-IsCoherent (settled c) s t v q = settled-IsCoherent c s t v
advance-IsCoherent pausing s t v q = pausing-IsCoherent t.ready s t refl v q
advance-IsCoherent stopped s t v q = (s, refl, stay stopped s q v)
advance-IsCoherent (unwinding c b) s t v q = (
  _,
  refl,
  record {
    sound = v.sound;
    context = v.context;
    socket = refl;
    connected = v.connected;
    settling = refl;
    ended = λ e. absurd (cc);
    typed = v.typed;
    quiet = v.quiet;
  },
)
advance-IsCoherent (recovered c b) s t v q = (s, refl, stay (recovered c b) s q v)
