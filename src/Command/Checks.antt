-- ===== src/Command/Checks.antt =====
-- What the command makes of its flags.
use klever_subscriber.Base.{
  ◌≡◌, refl, ◌∙◌, sym, ap, subst, inl, inr, String, Bool, true, false, List, [], ◌∷◌, ◌++◌, none,
  some, ◌==◌, string_eq, All, arith, Bool-cases, if◌then◌else◌,
}
use klever_subscriber.Event.{EventType, valid_event_types}
use klever_subscriber.Hub.Sound.{IsSound}
use klever_subscriber.Subscriber.{Subscriber, Setting, apply, apply_all, defaults, with_events, new}
use klever_subscriber.Subscriber.Construction.{any_bad, new_lem}
use klever_subscriber.Subscription.{is_some_list}
use klever_subscriber.Server.{new_server}
use klever_subscriber.Command.{Flags, scheme_of, options, is_quiet, banner, Launch, run}

abbrev pub IsValid : EventType → Type 0
IsValid t = valid_event_types t ≡ true

-- The first of the types that is not valid.
pub record FirstUnknown (ts : List EventType) : Type 0 where
  pub known : List EventType
  pub bad : EventType
  pub rest : List EventType
  pub split : ts ≡ known ++ bad ∷ rest
  pub before : All IsValid known
  pub invalid : valid_event_types bad ≡ false

options-any_bad : (flags : Flags) → any_bad (options flags) ≡ false
unfolding options
options-any_bad flags = elim (Bool-cases flags.use_wss) [
  | inl wss ↦ elim (Bool-cases (is_some_list flags.addresses)) [
    | inl some_addresses ↦ rw (wss, some_addresses) refl
    | inr no_addresses ↦ rw (wss, no_addresses) refl
  ]
  | inr ws ↦ elim (Bool-cases (is_some_list flags.addresses)) [
    | inl some_addresses ↦ rw (ws, some_addresses) refl
    | inr no_addresses ↦ rw (ws, no_addresses) refl
  ]
]

-- The client that the options give, before the channel of `Events` is made.
record IsConfigured (flags : Flags) (s s' : Subscriber) : Type 0 where
  applied : apply_all (options flags) s ≡ some s'
  same_scheme : s'.scheme ≡ scheme_of flags.use_wss
  same_addresses : s'.addresses ≡ flags.addresses
  same_query_only : s'.query_only ≡ s.query_only

configured :
    (flags : Flags) (wss : Bool) (addresses : List String) (s : Subscriber)
    → s.addresses ≡ []
    → (s' : Subscriber) × IsConfigured (record flags { use_wss = wss; addresses = addresses }) s s'
unfolding options apply_all apply
configured flags true [] s none_yet = (
  _,
  record { applied = refl; same_scheme = refl; same_addresses = none_yet; same_query_only = refl },
)
configured flags false [] s none_yet = (
  _,
  record { applied = refl; same_scheme = refl; same_addresses = none_yet; same_query_only = refl },
)
configured flags true (x ∷ xs) s none_yet = (
  _,
  record { applied = refl; same_scheme = refl; same_addresses = refl; same_query_only = refl },
)
configured flags false (x ∷ xs) s none_yet = (
  _,
  record { applied = refl; same_scheme = refl; same_addresses = refl; same_query_only = refl },
)

new_runs :
    (host : String) (types : List EventType) (opts : List Setting) (s s' : Subscriber)
    → apply_all opts (defaults host (some types)) ≡ some s
    → new host (some types) opts ≡ some s'
    → s' ≡ with_events s
unfolding new
new_runs host types opts s s' applied news = ground (arith, applied, news)

-- `run` does not panic, whatever the flags are. Its client asks for the types and addresses that the
-- command was given, by the scheme that its flag chooses, is no query client, and has a sound hub;
-- there is a server, at the given address, unless the flag for it is empty.
run_lem :
    (flags : Flags) (event_types : List EventType)
    → (l : Launch) × (run flags event_types ≡ some l)
      × (l.sub.types ≡ event_types)
      × (l.sub.addresses ≡ flags.addresses)
      × (l.sub.scheme ≡ scheme_of flags.use_wss)
      × (l.sub.query_only ≡ false)
      × IsSound l.sub.hub
      × (l.server ≡ (if flags.web_addr == "" then none else some (new_server flags.web_addr l.sub)))
unfolding run new
run_lem flags event_types =
    let start = defaults flags.node_url (some event_types) in
    let (s, c) = configured flags flags.use_wss flags.addresses start refl in
    let (s', news, _, types, _, _, _, sound, _) =
      new_lem flags.node_url (some event_types) (options flags) (options-any_bad flags) in
    let same : s' ≡ with_events s =
      new_runs flags.node_url event_types (options flags) s s' c.applied news in
    (
      record {
        sub = with_events s;
        server =
            if flags.web_addr == "" then none else some (new_server flags.web_addr (with_events s));
        quiet = is_quiet flags event_types;
        lines = banner flags event_types (with_events s);
      },
      rw c.applied refl,
      ap (λ (t : Subscriber). t.types) (sym same) ∙ types,
      c.same_addresses,
      c.same_scheme,
      c.same_query_only,
      subst (λ (t : Subscriber). IsSound t.hub) same sound,
      refl,
    )
