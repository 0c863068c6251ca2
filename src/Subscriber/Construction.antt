-- ===== src/Subscriber/Construction.antt =====
-- What `New` gives for every list of options.
use klever_subscriber.Base.{
  ◌≡◌, refl, ◌⊎◌, String, Bool, true, false, not, ◌&&◌, ◌||◌, List, [], ◌∷◌, none, some, ◌>>=◌, ap,
  ◌==◌, string_eq, arith, inl, inr, Bool-cases,
}
use klever_subscriber.Event.{EventType}
use klever_subscriber.Hub.{no_subscribers}
use klever_subscriber.Hub.Sound.{IsSound}
use klever_subscriber.Hub.Safety.{subscribe-IsSound, no_subscribers-IsSound}
use klever_subscriber.Request.{Slice, elems, Requests, no_requests}
use klever_subscriber.Subscriber.{
  Subscriber, Setting, with_scheme, with_addresses, with_reconnect_interval, with_ping_interval,
  with_on_connect, with_on_disconnect, with_on_error, with_query_only, apply, apply_all, defaults,
  with_events, new, configure,
}

-- What the options leave alone, and what they ensure of the scheme.
record IsFresh (types : List EventType) (s : Subscriber) : Type 0 where
  secure : (s.scheme ≡ "ws") ⊎ (s.scheme ≡ "wss")
  same_types : s.types ≡ types
  no_hub : s.hub ≡ no_subscribers
  idle : s.connected ≡ false
  undialled : s.conn_cancel ≡ none
  quiet : s.requests ≡ no_requests

apply-IsFresh :
    (types : List EventType) (opt : Setting) (s s' : Subscriber)
    → IsFresh types s
    → apply opt s ≡ some s'
    → IsFresh types s'
unfolding apply
apply-IsFresh types (with_scheme scheme) s s' v h =
    ground (arith, string_eq.equals_iff scheme "ws", string_eq.equals_iff scheme "wss")
apply-IsFresh types opt s s' v h = ground arith

-- An option that panics.
abbrev pub is_bad : Setting → Bool
is_bad (with_scheme scheme) = not (scheme == "ws") && not (scheme == "wss")
is_bad _ = false

abbrev pub any_bad : List Setting → Bool
any_bad [] = false
any_bad (opt ∷ opts) = is_bad opt || any_bad opts

apply_good :
    (opt : Setting) (s : Subscriber)
    → is_bad opt ≡ false
    → (s' : Subscriber) × (apply opt s ≡ some s')
unfolding apply
apply_good (with_scheme scheme) s h =
    (configure s (record s.config { scheme = scheme }), ground arith)
apply_good (with_addresses addresses) s h = (_, refl)
apply_good (with_reconnect_interval d) s h = (_, refl)
apply_good (with_ping_interval d) s h = (_, refl)
apply_good (with_on_connect fn) s h = (_, refl)
apply_good (with_on_disconnect fn) s h = (_, refl)
apply_good (with_on_error fn) s h = (_, refl)
apply_good with_query_only s h = (_, refl)

apply_all-IsFresh :
    (types : List EventType) (opts : List Setting) (s : Subscriber)
    → IsFresh types s
    → any_bad opts ≡ false
    → (s' : Subscriber) × (apply_all opts s ≡ some s') × IsFresh types s'
unfolding apply_all
apply_all-IsFresh types [] s v h = (s, refl, v)
apply_all-IsFresh types (opt ∷ opts) s v h =
    let (s₁, applies) = apply_good opt s (ground arith) in
    let (s', rest, fresh) =
      apply_all-IsFresh types opts s₁ (apply-IsFresh types opt s s₁ v applies) (ground arith) in
    (s', rw applies rest, fresh)

-- Unless a scheme other than ws and wss is asked for, `New` returns a client that has one of these
-- schemes, the given types, no connection and no request, and whose hub is sound and lists exactly
-- the channel of `Events`.
pub new_lem :
    (host : String) (types : Slice EventType) (opts : List Setting)
    → any_bad opts ≡ false
    → (s : Subscriber) × (new host types opts ≡ some s)
      × ((s.scheme ≡ "ws") ⊎ (s.scheme ≡ "wss"))
      × (s.types ≡ elems types)
      × (s.connected ≡ false)
      × (s.conn_cancel ≡ none)
      × (s.requests ≡ no_requests)
      × IsSound s.hub
      × (s.hub.subscribers ≡ s.events ∷ [])
unfolding new
new_lem host types opts h =
    let (s, applies, v) =
      apply_all-IsFresh (elems types) opts (defaults host types)
        (record {
          secure = inl refl;
          same_types = refl;
          no_hub = refl;
          idle = refl;
          undialled = refl;
          quiet = refl;
        })
        h in
    (
      with_events s,
      rw applies,
      v.secure,
      v.same_types,
      v.idle,
      v.undialled,
      v.quiet,
      subscribe-IsSound s.hub (rw v.no_hub no_subscribers-IsSound),
      rw v.no_hub,
    )

-- A use of the requests of the client that `New` returns.
pub new_then {ℓ} :
    {A : Type ℓ} (host : String) (types : Slice EventType) (opts : List Setting)
    (next : Requests → A)
    → any_bad opts ≡ false
    → (new host types opts >>= λ sub. some (next sub.requests)) ≡ some (next no_requests)
new_then host types opts next good =
    let (s, news, _, _, _, _, fresh, _, _) = new_lem host types opts good in
    rw news (ap (λ (r : Requests). some (next r)) fresh)

-- An option that asks for a scheme other than ws and wss makes `New` panic, wherever it stands among
-- the options.
pub new_panics :
    (host : String) (types : Slice EventType) (opts : List Setting)
    → any_bad opts ≡ true
    → new host types opts ≡ none
unfolding new
new_panics host types opts h = rw (apply_all_panics opts (defaults host types) h)
  where
    apply_bad : (opt : Setting) (s : Subscriber) → is_bad opt ≡ true → apply opt s ≡ none
    apply_bad (with_scheme scheme) s h = ground arith
    apply_bad opt s h = absurd (ground arith)

    apply_all_panics :
        (opts : List Setting) (s : Subscriber) → any_bad opts ≡ true → apply_all opts s ≡ none
    apply_all_panics [] s h = absurd (cc)
    apply_all_panics (opt ∷ opts) s h = elim (Bool-cases (is_bad opt)) [
      | inl bad ↦ rw (apply_bad opt s bad)
      | inr good ↦
          let (s₁, applies) = apply_good opt s good in
          rw applies (apply_all_panics opts s₁ (ground arith))
    ]
