-- ===== src/Hub/Safety.antt =====
-- Every operation on the channels keeps the hub sound, and none of them panics.
use klever_subscriber.Base.{
  ℕ, ◌≡◌, refl, ◌∙◌, true, false, not, ◌&&◌, inl, inr, List, [], ◌∷◌, none, some, arith, nat_eq,
  ◌==◌, beq→eq, Bool-cases, Option-cases, length, get_elem?, set, get_elem?-set, get_elem?-lt,
  contains, IsDistinct, contains-append, IsDistinct-snoc, get_elem?-append_left,
  get_elem?-append_last, get_elem?-snoc,
}
use klever_subscriber.Event.{Event}
use klever_subscriber.Chan.{Chan, Heap, new_chan, shut, close_chan, receive}
use klever_subscriber.Chan.Laws.{close_chan_lem, receive_lem, receive_keeps}
use klever_subscriber.Hub.{
  Hub, no_subscribers, Subscription, subscribe, cut_out, remove_sub, close, Action, subscribes,
  closes, fans_out, closes_all, receives, Clients, act, run,
}
use klever_subscriber.Hub.Sound.{
  IsSound, fan_out_lem, offered-IsSound, close_subscribers_lem, shut-IsSound,
}

-- A new channel has a name that is not listed.
fresh_name : (s : Hub) → IsSound s → contains s.subscribers (length s.channels) ≡ false
fresh_name s v = elim (Bool-cases (contains s.subscribers (length s.channels))) [
  | inl listed ↦
      let (ch, at, _) = v.opened (length s.channels) listed in
      absurd (omega (arith, get_elem?-lt s.channels (length s.channels) at))
  | inr out ↦ out
]

pub subscribe-IsSound : (s : Hub) → IsSound s → IsSound (subscribe s).0
unfolding subscribe
subscribe-IsSound s v = record {
  distinct = IsDistinct-snoc s.subscribers (length s.channels) v.distinct (fresh_name s v);
  opened = λ c m. elim (Bool-cases (contains s.subscribers c)) [
    | inl listed ↦
        let (ch, at, opened) = v.opened c listed in
        (ch, get_elem?-append_left s.channels _ c (get_elem?-lt s.channels c at) ∙ at, opened)
    | inr out ↦ (
      new_chan 256,
      rw
          (← beq→eq (length s.channels) c
            (ground (arith, contains-append s.subscribers (length s.channels ∷ []) c)))
          (get_elem?-append_last s.channels (new_chan 256)),
      refl,
    )
  ];
  others = λ c ch at out. elim (get_elem?-snoc s.channels (new_chan 256) c at) [
    | inl was ↦
        v.others c ch was (ground (arith, contains-append s.subscribers (length s.channels ∷ []) c))
    | inr (q, _) ↦ absurd (ground (arith, contains-append s.subscribers (length s.channels ∷ []) c))
  ];
  bounded = λ c ch at. elim (get_elem?-snoc s.channels (new_chan 256) c at) [
    | inl was ↦ v.bounded c ch was
    | inr (_, q) ↦ ground arith
  ];
  sized = λ c ch at. elim (get_elem?-snoc s.channels (new_chan 256) c at) [
    | inl was ↦ v.sized c ch was
    | inr (_, q) ↦ ground arith
  ];
}

-- The list without the channel, which stands in it once.
pub cut_out-some :
    (subs : List ℕ) (ch : ℕ)
    → IsDistinct subs
    → contains subs ch ≡ true
    → (kept : List ℕ) × (cut_out subs ch ≡ some kept)
      × IsDistinct kept
      × ((c : ℕ) → contains kept c ≡ (contains subs c && not (ch == c)))
unfolding cut_out
cut_out-some [] ch d m = absurd (cc)
cut_out-some (sub ∷ subs) ch d m = elim (Bool-cases (sub == ch)) [
  | inl here ↦ (subs, rw here, d.1, λ c. ground arith)
  | inr on ↦
      let (kept, runs, distinct, members) = cut_out-some subs ch d.1 (ground arith) in
      (
        sub ∷ kept,
        rw (on, runs),
        (ground (arith, members sub), distinct),
        λ c. ground (arith, members c),
      )
]

cut_out-none : (subs : List ℕ) (ch : ℕ) → contains subs ch ≡ false → cut_out subs ch ≡ none
unfolding cut_out
cut_out-none [] ch m = refl
cut_out-none (sub ∷ subs) ch m = ground (arith, cut_out-none subs ch)

pub removed-IsSound :
    (s : Hub) (ch : ℕ) (kept : List ℕ) (old : Chan Event)
    → IsSound s
    → get_elem? s.channels ch ≡ some old
    → IsDistinct kept
    → ((c : ℕ) → contains kept c ≡ (contains s.subscribers c && not (ch == c)))
    → IsSound (record { channels = set s.channels ch (shut old); subscribers = kept })
removed-IsSound s ch kept old v at distinct members = record {
  distinct = distinct;
  opened = λ c m.
      let (ch', here, opened) = v.opened c (ground (arith, members c)) in
      (ch', ground (arith, members c, get_elem?-set s.channels ch c (shut old) at), opened);
  others = λ c ch' here out.
      ground (arith, members c, get_elem?-set s.channels ch c (shut old) at, v.others c ch');
  bounded = λ c ch' here.
      ground
        (arith, get_elem?-set s.channels ch c (shut old) at, v.bounded ch old, v.bounded c ch');
  sized = λ c ch' here.
      ground (arith, get_elem?-set s.channels ch c (shut old) at, v.sized ch old, v.sized c ch');
}

pub remove_sub_runs :
    (s : Hub) (ch : ℕ) (kept : List ℕ) (heap : Heap Event)
    → cut_out s.subscribers ch ≡ some kept
    → close_chan s.channels ch ≡ some heap
    → remove_sub s ch ≡ some (record { channels = heap; subscribers = kept })
unfolding remove_sub
remove_sub_runs s ch kept heap p q = ground arith

-- From a sound hub `removeSub` does not panic, also on a channel that is not listed. It leaves the
-- hub sound, and takes that one channel from the list.
remove_sub-IsSound :
    (s : Hub) (ch : ℕ)
    → IsSound s
    → (s' : Hub) × (remove_sub s ch ≡ some s')
      × IsSound s'
      × ((c : ℕ) → contains s'.subscribers c ≡ (contains s.subscribers c && not (ch == c)))
unfolding remove_sub
remove_sub-IsSound s ch v = elim (Bool-cases (contains s.subscribers ch)) [
  | inr out ↦
      (s, rw (cut_out-none s.subscribers ch out, remove_sub), v, λ c. ground (arith, beq→eq ch c))
  | inl listed ↦
      let (kept, cuts, distinct, members) = cut_out-some s.subscribers ch v.distinct listed in
      let (old, at, opened) = v.opened ch listed in
      (
        record { channels = set s.channels ch (shut old); subscribers = kept },
        remove_sub_runs s ch kept _ cuts (close_chan_lem s.channels ch old at opened),
        removed-IsSound s ch kept old v at distinct members,
        members,
      )
]

-- The second `Close` of a subscription, and one after `closeSubscribers`, do nothing.
close-IsSound :
    (s : Hub) (sub : Subscription)
    → IsSound s
    → (s' : Hub) × (sub' : Subscription) × (close s sub ≡ some (s', sub')) × IsSound s'
unfolding close
close-IsSound s sub v =
    let (s', runs, sound, _) = remove_sub-IsSound s sub.ch v in
    elim (Bool-cases sub.closed) [
      | inl done ↦ (s, sub, rw done, v)
      | inr first ↦ (s', record sub { closed = true }, ground arith, sound)
    ]

pub receive-IsSound :
    (s : Hub) (ch : ℕ) → IsSound s → IsSound (record s { channels = (receive s.channels ch).0 })
receive-IsSound s x v = record {
  distinct = v.distinct;
  opened = λ c m.
      let (ch, at, opened) = v.opened c m in
      let (ch', here, q) = receive_keeps s.channels x c ch at in (ch', here, q ∙ opened);
  others = λ c ch' at out.
      let (ch, was, closed, _, _) = receive_lem s.channels x c ch' at in
      closed ∙ v.others c ch was out;
  bounded = λ c ch' at.
      let (ch, was, _, capacity, size) = receive_lem s.channels x c ch' at in
      omega (arith, v.bounded c ch was);
  sized = λ c ch' at.
      let (ch, was, _, capacity, _) = receive_lem s.channels x c ch' at in
      capacity ∙ v.sized c ch was;
}

-- Each action is taken without a panic, and leaves the hub sound.
pub act_total :
    (w : Clients) (a : Action)
    → IsSound w.hub
    → (w' : Clients) × (act w a ≡ some w') × IsSound w'.hub
unfolding act
act_total w subscribes v = (_, refl, subscribe-IsSound w.hub v)
act_total w (closes k) v = elim (Option-cases (get_elem? w.handles k)) [
  | inl gone ↦ (w, rw (gone, act), v)
  | inr (sub, at) ↦
      let (s', sub', runs, sound) = close-IsSound w.hub sub v in
      (record { hub = s'; handles = set w.handles k sub' }, ground arith, sound)
]
act_total w (fans_out evt) v =
    let (heap, runs, changed) = fan_out_lem w.hub evt v in
    (
      record w { hub = record w.hub { channels = heap } },
      ground arith,
      offered-IsSound evt w.hub heap v changed,
    )
act_total w closes_all v =
    let (heap, runs, changed) = close_subscribers_lem w.hub v in
    (
      record w { hub = record { channels = heap; subscribers = [] } },
      ground arith,
      shut-IsSound w.hub heap v changed,
    )
act_total w (receives ch) v = (_, refl, receive-IsSound w.hub ch v)

run_total :
    (w : Clients) (as' : List Action)
    → IsSound w.hub
    → (w' : Clients) × (run w as' ≡ some w') × IsSound w'.hub
unfolding run
run_total w [] v = (w, refl, v)
run_total w (a ∷ as') v =
    let (w₁, acts, sound) = act_total w a v in
    let (w', runs, end) = run_total w₁ as' sound in (w', rw acts runs, end)

pub no_subscribers-IsSound : IsSound no_subscribers
no_subscribers-IsSound = record {
  distinct = tt;
  opened = λ c m. absurd (cc);
  others = λ c ch at out. absurd (cc);
  bounded = λ c ch at. absurd (cc);
  sized = λ c ch at. absurd (cc);
}

abbrev pub no_clients : Clients
no_clients = record { hub = no_subscribers; handles = [] }

-- Whatever goroutines subscribe, close, fan out, receive and shut down, in any order and as often
-- as they like: nothing panics, so that no channel is closed twice or sent on after its close, and
-- the hub is sound after it.
pub run_never_panics :
    (as' : List Action) → (w' : Clients) × (run no_clients as' ≡ some w') × IsSound w'.hub
run_never_panics as' = run_total no_clients as' no_subscribers-IsSound
