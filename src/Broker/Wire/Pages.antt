-- ===== src/Broker/Wire/Pages.antt =====
-- The pages of the dashboards, against the frames that are broadcast.
use mathlib.Core.List.{Sublistᴰ}
use mathlib.Core.List.Sublistᴰ
use mathlib.Core.List.Sublistᴰ.{slnil, cons, cons-cons}
use klever_subscriber.Base.{
  ℕ, ◌≡◌, refl, true, String, List, [], ◌∷◌, ◌++◌, some, ap, ◌∙◌, sym, subst, All, map, get_elem?,
}
use klever_subscriber.Chan.{Heap}
use klever_subscriber.Broker.{SseFrame, Payload}
use klever_subscriber.Broker.Sse.{System, Action, serving, run}
use klever_subscriber.Broker.Sse.Limit.{started}
use klever_subscriber.Broker.Sse.Order.{oldest_first, broadcasted, IsFed}
use klever_subscriber.Broker.Sse.Order.Runs.{streams_follow_broadcasts}
use klever_subscriber.Broker.Wire.{codes, is_one_line, IsOneLined, body}
use klever_subscriber.Broker.Wire.Source.{messages}
use klever_subscriber.Broker.Wire.Dispatch.{message_of, sent, stream_is_dispatched}

module _ {ℓ} {A : Type ℓ} where
  pub prefix-Sublistᴰ : (xs ys : List A) → Sublistᴰ xs (xs ++ ys)
  prefix-Sublistᴰ [] [] = slnil
  prefix-Sublistᴰ [] (y ∷ ys) = cons (prefix-Sublistᴰ [] ys)
  prefix-Sublistᴰ (x ∷ xs) ys = cons-cons refl (prefix-Sublistᴰ xs ys)

  module _ {κ} (P : A → Type κ) where
    All-Sublistᴰ : {xs ys : List A} → Sublistᴰ xs ys → All P ys → All P xs
    All-Sublistᴰ slnil h = tt
    All-Sublistᴰ (cons s) h = All-Sublistᴰ s h.1
    All-Sublistᴰ (cons-cons e s) h = (subst P (sym e) h.0, All-Sublistᴰ s h.1)

    All-front : (xs ys : List A) → All P (xs ++ ys) → All P xs
    All-front [] ys h = tt
    All-front (x ∷ xs) ys h = (h.0, All-front xs ys h.1)

    All-last : (xs : List A) (y : A) → All P (xs ++ y ∷ []) → P y
    All-last [] y h = h.0
    All-last (x ∷ xs) y h = All-last xs y h.1

map-snoc {ℓ κ} :
    {A : Type ℓ} {B : Type κ} (f : A → B) (xs : List A) (y : A)
    → map f (xs ++ y ∷ []) ≡ map f xs ++ f y ∷ []
map-snoc f [] y = refl
map-snoc f (x ∷ xs) y = ap (◌∷◌ (f x)) (map-snoc f xs y)

All-oldest_first :
    (P : SseFrame → Type 0) (written : List SseFrame) → All P (oldest_first written) → All P written
unfolding oldest_first
All-oldest_first P [] h = tt
All-oldest_first P (f ∷ written) h = (
  All-last P (oldest_first written) f h,
  All-oldest_first P written (All-front P (oldest_first written) (f ∷ []) h),
)

sent-oldest_first :
    (marshal : Payload → List ℕ) (written : List SseFrame)
    → sent marshal written ≡ map (message_of marshal) (oldest_first written)
unfolding sent oldest_first
sent-oldest_first marshal [] = refl
sent-oldest_first marshal (f ∷ written) =
    ap (λ ms. ms ++ message_of marshal f ∷ []) (sent-oldest_first marshal written)
    ∙ sym (map-snoc (message_of marshal) (oldest_first written) f)

-- The name of a frame's event has no line end.
abbrev pub HasPlainName : SseFrame → Type 0
HasPlainName f = is_one_line (codes f.event) ≡ true

-- The page of a stream that is fed from a history of frames with plain names.
pub fed_page :
    (marshal : Payload → List ℕ) (history : List SseFrame) (w : Heap SseFrame × ℕ)
    (written : List SseFrame)
    → IsOneLined marshal
    → All HasPlainName history
    → (fed : IsFed history w written)
    → messages (body marshal written)
      ≡ message_of marshal fed.stats ∷ map (message_of marshal) fed.later
unfolding codes is_one_line
fed_page marshal history w written one_lined plain fed =
    let follows = Sublistᴰ.trans (prefix-Sublistᴰ fed.later _) fed.in_order in
    let stats_plain : HasPlainName fed.stats =
      subst (λ name. is_one_line (codes name) ≡ true) (sym fed.first) refl in
    let all_plain = All-oldest_first HasPlainName written (
      subst (All HasPlainName) (sym fed.wrote)
        (stats_plain, All-Sublistᴰ HasPlainName follows plain)) in
    stream_is_dispatched marshal one_lined written all_plain
    ∙ sent-oldest_first marshal written
    ∙ ap (map (message_of marshal)) fed.wrote

-- In every interleaving of requests and broadcasts from a new broker, the page of a request that is
-- served has dispatched one message with the statistics and then messages of frames that were
-- broadcast, in the order of the broadcasts, each as often and with its data under its event; some
-- may be missing. This holds if no line ends inside what json.Marshal returns or inside the name of
-- an event that is broadcast.
pub pages_follow_broadcasts :
    (marshal : Payload → List ℕ) (max_clients : ℕ) (url : String) (as' : List Action) (s : System)
    (k c : ℕ) (written : List SseFrame)
    → IsOneLined marshal
    → All HasPlainName (broadcasted as')
    → run (started max_clients url) as' ≡ some s
    → get_elem? s.requests k ≡ some (serving c written)
    → (stats : SseFrame) × (later : List SseFrame) × (stats.event ≡ "stats")
      × Sublistᴰ later (broadcasted as')
      × (messages (body marshal written)
          ≡ message_of marshal stats ∷ map (message_of marshal) later)
pages_follow_broadcasts marshal max_clients url as' s k c written one_lined plain ran at =
    let fed = streams_follow_broadcasts max_clients url as' s k c written ran at in
    (
      fed.stats,
      fed.later,
      fed.first,
      Sublistᴰ.trans (prefix-Sublistᴰ fed.later _) fed.in_order,
      fed_page marshal (broadcasted as') (s.broker.frames, c) written one_lined plain fed,
    )
