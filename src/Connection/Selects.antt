-- ===== src/Connection/Selects.antt =====
-- The branches of the `select`s of `Start` and `connect`, and the moves between stages.
use klever_subscriber.Base.{
  ℕ, ◌≡◌, refl, ◌∙◌, sym, subst, Bool, true, false, not, ◌&&◌, ◌||◌, Option, some, nat_eq, contains,
  arith, inl, inr, Bool-cases,
}
use klever_subscriber.Subscriber.{new}
use klever_subscriber.Connection.{
  Stage, top, online, closing, hanging_up, settled, pausing, unwinding, Ready, by_ctx, by_token,
  by_timer, by_peer, Turn, Loop, ctx_done, to, take_token, set_connected, disconnect, stop, wait,
  serve, advance,
}
use klever_subscriber.Connection.Invariant.{
  context_of, socket_of, is_online, is_stopped, settles, IsCoherentAt, IsCoherent, is_away,
  away_lem, stop-IsCoherent,
}

abbrev pub Kept : Option Loop → Type 0
Kept o = (s' : Loop) × (o ≡ some s') × IsCoherent s'

pub stay : (stage : Stage) (s : Loop) → s.stage ≡ stage → IsCoherentAt stage s → IsCoherent s
stay stage s q v = subst (λ g. IsCoherentAt g s) (sym q) v

-- A move to a stage with the same connection, which is not the end.
pub move :
    (old new : Stage) (s : Loop)
    → IsCoherentAt old s
    → context_of old ≡ context_of new
    → socket_of old ≡ socket_of new
    → is_online old ≡ is_online new
    → settles new s.client.cancelled ≡ true
    → is_stopped new ≡ false
    → IsCoherent (to new s)
move old new s v c a o settled_new on = record {
  sound = v.sound;
  context = v.context ∙ c;
  socket = v.socket ∙ a;
  connected = v.connected ∙ o;
  settling = settled_new;
  ended = λ e. absurd (cc);
  typed = v.typed;
  quiet = v.quiet;
}

pub stop-Kept :
    (stage : Stage) (s : Loop)
    → IsCoherentAt stage s
    → s.done ≡ true
    → is_away stage ≡ true
    → Kept (stop s)
stop-Kept stage s v d h = let (s', runs, v', _, _) = stop-IsCoherent stage s v d h in (s', runs, v')

token_taken : (s : Loop) → IsCoherent (to top s) → IsCoherent (to top (take_token s))
token_taken s v = record {
  sound = v.sound;
  context = v.context;
  socket = v.socket;
  connected = v.connected;
  settling = refl;
  ended = λ e. absurd (cc);
  typed = v.typed;
  quiet = v.quiet;
}

pub wait-IsCoherent :
    (r : Ready) (stage : Stage) (s : Loop)
    → IsCoherentAt stage s
    → s.stage ≡ stage
    → is_away stage ≡ true
    → Kept (wait r s)
unfolding wait
wait-IsCoherent by_ctx stage s v q h = elim (Bool-cases s.done) [
  | inl d ↦ let (s', runs, v') = stop-Kept stage s v d h in (s', ground arith, v')
  | inr n ↦ (s, ground arith, stay stage s q v)
]
wait-IsCoherent by_token stage s v q h = elim (Bool-cases s.client.reconnect_ch) [
  | inl token ↦
      let (c, a, o) = away_lem stage h in
      let v' = move stage top s v c a o refl refl in
      (to top (take_token s), ground arith, token_taken s v')
  | inr empty ↦ (s, ground arith, stay stage s q v)
]
wait-IsCoherent by_timer stage s v q h = (s, refl, stay stage s q v)
wait-IsCoherent by_peer stage s v q h = (s, refl, stay stage s q v)

pub disconnect-IsCoherent :
    (panics : Bool) (c : ℕ) (s : Loop) (stage : Stage)
    → IsCoherentAt stage s
    → context_of stage ≡ some c
    → socket_of stage ≡ some c
    → IsCoherent (disconnect panics c s)
disconnect-IsCoherent panics c s stage v q r =
    elim (Bool-cases (s.client.on_disconnect && panics)) [
      | inl panic ↦ rw panic (at_end (unwinding c false) refl refl refl refl refl)
      | inr fine ↦ rw fine (at_end (hanging_up c) refl refl refl refl refl)
    ]
  where
    at_end :
        (new : Stage)
        → context_of new ≡ some c
        → socket_of new ≡ some c
        → is_online new ≡ false
        → settles new s.client.cancelled ≡ true
        → is_stopped new ≡ false
        → IsCoherent (to new (set_connected false s))
    at_end new c' a o settled_new on = record {
      sound = v.sound;
      context = v.context ∙ q ∙ sym c';
      socket = v.socket ∙ r ∙ sym a;
      connected = sym o;
      settling = settled_new;
      ended = λ e. absurd (cc);
      typed = v.typed;
      quiet = v.quiet;
    }

pub serve-IsCoherent :
    (r : Ready) (panics : Bool) (c : ℕ) (s : Loop)
    → IsCoherentAt (online c) s
    → s.stage ≡ online c
    → IsCoherent (serve r panics c s)
unfolding serve
serve-IsCoherent by_peer panics c s v q = disconnect-IsCoherent panics c s (online c) v refl refl
serve-IsCoherent by_ctx panics c s v q = elim (Bool-cases (ctx_done s c)) [
  | inl over ↦ rw over (move (online c) (closing c) s v refl refl refl refl refl)
  | inr on ↦ rw on (stay (online c) s q v)
]
serve-IsCoherent by_token panics c s v q = stay (online c) s q v
serve-IsCoherent by_timer panics c s v q = stay (online c) s q v

-- A context that is cancelled does not report an error.
no_report :
    (on_error done cancelled : Bool)
    → cancelled ≡ true
    → (on_error && not (done || cancelled)) ≡ false
no_report on_error done cancelled h = ground arith

pub settled-IsCoherent :
    (c : ℕ) (s : Loop) (t : Turn) → IsCoherentAt (settled c) s → Kept (advance (settled c) s t)
unfolding advance
settled-IsCoherent c s t v = elim (Bool-cases s.done) [
  | inl d ↦ let (s', runs, v') = stop-Kept (settled c) s v d refl in (s', ground arith, v')
  | inr n ↦ (
    to pausing s,
    ground (arith, no_report s.client.on_error s.done (contains s.client.cancelled c) v.settling),
    move (settled c) pausing s v refl refl refl refl refl,
  )
]

pub pausing-IsCoherent :
    (r : Ready) (s : Loop) (t : Turn)
    → t.ready ≡ r
    → IsCoherentAt pausing s
    → s.stage ≡ pausing
    → Kept (advance pausing s t)
unfolding advance
pausing-IsCoherent by_timer s t h v q =
    (to top s, rw h refl, move pausing top s v refl refl refl refl refl)
pausing-IsCoherent by_ctx s t h v q = rw h (wait-IsCoherent by_ctx pausing s v q refl)
pausing-IsCoherent by_token s t h v q = rw h (wait-IsCoherent by_token pausing s v q refl)
pausing-IsCoherent by_peer s t h v q = rw h (wait-IsCoherent by_peer pausing s v q refl)

abbrev pub dialled : ℕ → Loop → Loop
dialled c s = record s { active = some c }

pub dialled-IsCoherent :
    (c : ℕ) (s : Loop) (old new : Stage)
    → IsCoherentAt old s
    → context_of old ≡ context_of new
    → socket_of new ≡ some c
    → is_online old ≡ is_online new
    → settles new s.client.cancelled ≡ true
    → is_stopped new ≡ false
    → IsCoherent (to new (dialled c s))
dialled-IsCoherent c s old new v c' a o settled_new on = record {
  sound = v.sound;
  context = v.context ∙ c';
  socket = sym a;
  connected = v.connected ∙ o;
  settling = settled_new;
  ended = λ e. absurd (cc);
  typed = v.typed;
  quiet = v.quiet;
}
