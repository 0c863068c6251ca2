-- ===== src/Connection/Moves.antt =====
-- The turns of `Start` that are not the recovery leave the count of its reports.
use klever_subscriber.Base.{
  ℕ, ◌≡◌, refl, ◌∙◌, Bool, true, false, ◌&&◌, some, arith, inl, inr, Bool-cases, Option-cases,
  if◌then◌else◌,
}
use klever_subscriber.Hub.{close_subscribers}
use klever_subscriber.Connection.{
  Stage, top, checking, idle, opening, reading, dialing, subscribing, online, closing, hanging_up,
  returned, settled, pausing, stopped, unwinding, recovered, Ready, by_ctx, by_token, by_timer,
  by_peer, Turn, Loop, ctx_done, advance, stop, wait, serve, to,
}

abbrev pub is_recovered : Stage → Bool
is_recovered (recovered c b) = true
is_recovered _ = false

-- A step that is not the recovery.
pub record Moves (s s' : Loop) : Type 0 where
  pub count : s'.recoveries ≡ s.recoveries
  pub callback : s'.client.on_error ≡ s.client.on_error
  pub elsewhere : is_recovered s'.stage ≡ false

stop-Moves : (s s' : Loop) → stop s ≡ some s' → Moves s s'
unfolding stop
stop-Moves s s' h = elim (Option-cases (close_subscribers s.client.hub)) [
  | inl panics ↦ absurd (ground (arith, h, panics))
  | inr (hub', closes) ↦ record {
    count = ground (arith, h, closes);
    callback = ground (arith, h, closes);
    elsewhere = ground (arith, h, closes);
  }
]

abbrev pub called : Stage → Bool → ℕ
called stage on_error = if is_recovered stage && on_error then 1 else 0

abbrev pub IsCounted : Loop → Type 0
IsCounted s = s.recoveries ≡ called s.stage s.client.on_error

pub moved-IsCounted :
    (s s' : Loop) → is_recovered s.stage ≡ false → Moves s s' → IsCounted s → IsCounted s'
moved-IsCounted s s' away m v = m.count ∙ v ∙ (rw (away, m.elsewhere) refl)

wait-Moves :
    (r : Ready) (s s' : Loop) → is_recovered s.stage ≡ false → wait r s ≡ some s' → Moves s s'
unfolding wait
wait-Moves by_ctx s s' away h = elim (Bool-cases s.done) [
  | inl d ↦ stop-Moves s s' (ground (arith, h, d))
  | inr n ↦ record {
    count = ground (arith, h, n);
    callback = ground (arith, h, n);
    elsewhere = ground (arith, h, n, away);
  }
]
wait-Moves by_token s s' away h = elim (Bool-cases s.client.reconnect_ch) [
  | inl d ↦ record {
    count = ground (arith, h, d);
    callback = ground (arith, h, d);
    elsewhere = ground (arith, h, d);
  }
  | inr n ↦ record {
    count = ground (arith, h, n);
    callback = ground (arith, h, n);
    elsewhere = ground (arith, h, n, away);
  }
]
wait-Moves by_timer s s' away h = record {
  count = ground (arith, h);
  callback = ground (arith, h);
  elsewhere = ground (arith, h, away);
}
wait-Moves by_peer s s' away h = record {
  count = ground (arith, h);
  callback = ground (arith, h);
  elsewhere = ground (arith, h, away);
}

serve-Moves :
    (r : Ready) (panics : Bool) (c : ℕ) (s s' : Loop)
    → is_recovered s.stage ≡ false
    → some (serve r panics c s) ≡ some s'
    → Moves s s'
unfolding serve
serve-Moves by_ctx panics c s s' away h = elim (Bool-cases (ctx_done s c)) [
  | inl d ↦ record {
    count = ground (arith, h, d);
    callback = ground (arith, h, d);
    elsewhere = ground (arith, h, d);
  }
  | inr n ↦ record {
    count = ground (arith, h, n, away);
    callback = ground (arith, h, n, away);
    elsewhere = ground (arith, h, n, away);
  }
]
serve-Moves by_token panics c s s' away h = record {
  count = ground (arith, h, away);
  callback = ground (arith, h, away);
  elsewhere = ground (arith, h, away);
}
serve-Moves by_timer panics c s s' away h = record {
  count = ground (arith, h, away);
  callback = ground (arith, h, away);
  elsewhere = ground (arith, h, away);
}
serve-Moves by_peer panics c s s' away h = record {
  count = ground (arith, h);
  callback = ground (arith, h);
  elsewhere = ground (arith, h);
}

pausing-Moves :
    (r : Ready) (s s' : Loop)
    → is_recovered s.stage ≡ false
    → (elim r [ by_timer ↦ some (to top s) | r ↦ wait r s ]) ≡ some s'
    → Moves s s'
pausing-Moves by_timer s s' away h = record {
  count = ground (arith, h);
  callback = ground (arith, h);
  elsewhere = ground (arith, h);
}
pausing-Moves by_ctx s s' away h = wait-Moves by_ctx s s' away h
pausing-Moves by_token s s' away h = wait-Moves by_token s s' away h
pausing-Moves by_peer s s' away h = wait-Moves by_peer s s' away h

abbrev is_unwinding : Stage → Bool
is_unwinding (unwinding c b) = true
is_unwinding _ = false

-- A turn that does not unwind.
pub advance-Moves :
    (stage : Stage) (s s' : Loop) (t : Turn)
    → s.stage ≡ stage
    → is_recovered stage ≡ false
    → is_unwinding stage ≡ false
    → advance stage s t ≡ some s'
    → Moves s s'
unfolding advance serve
advance-Moves top s s' t q away on h = elim (Bool-cases s.done) [
  | inl d ↦ stop-Moves s s' (ground (arith, h, d))
  | inr n ↦ record {
    count = ground (arith, h, n);
    callback = ground (arith, h, n);
    elsewhere = ground (arith, h, n);
  }
]
advance-Moves checking s s' t q away on h = record {
  count = ground (arith, h);
  callback = ground (arith, h);
  elsewhere = ground (arith, h);
}
advance-Moves idle s s' t q away on h = wait-Moves t.ready s s' (rw q refl) h
advance-Moves opening s s' t q away on h = record {
  count = ground (arith, h);
  callback = ground (arith, h);
  elsewhere = ground (arith, h);
}
advance-Moves (reading c) s s' t q away on h = record {
  count = ground (arith, h);
  callback = ground (arith, h);
  elsewhere = ground (arith, h);
}
advance-Moves (dialing c types addresses) s s' t q away on h = record {
  count = ground (arith, h);
  callback = ground (arith, h);
  elsewhere = ground (arith, h);
}
advance-Moves (subscribing c types addresses) s s' t q away on h = record {
  count = ground (arith, h);
  callback = ground (arith, h);
  elsewhere = ground (arith, h);
}
advance-Moves (online c) s s' t q away on h = serve-Moves t.ready t.panics c s s' (rw q refl) h
advance-Moves (closing c) s s' t q away on h = record {
  count = ground (arith, h);
  callback = ground (arith, h);
  elsewhere = ground (arith, h);
}
advance-Moves (hanging_up c) s s' t q away on h = record {
  count = ground (arith, h);
  callback = ground (arith, h);
  elsewhere = ground (arith, h);
}
advance-Moves (returned c) s s' t q away on h = record {
  count = ground (arith, h);
  callback = ground (arith, h);
  elsewhere = ground (arith, h);
}
advance-Moves (settled c) s s' t q away on h = elim (Bool-cases s.done) [
  | inl d ↦ stop-Moves s s' (ground (arith, h, d))
  | inr n ↦ record {
    count = ground (arith, h, n);
    callback = ground (arith, h, n);
    elsewhere = ground (arith, h, n);
  }
]
advance-Moves pausing s s' t q away on h = pausing-Moves t.ready s s' (rw q refl) h
advance-Moves stopped s s' t q away on h = record {
  count = ground (arith, h, q);
  callback = ground (arith, h, q);
  elsewhere = ground (arith, h, q);
}
advance-Moves (unwinding c b) s s' t q away on h = absurd (cc)
advance-Moves (recovered c b) s s' t q away on h = absurd (cc)
