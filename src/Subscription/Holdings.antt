-- ===== src/Subscription/Holdings.antt =====
-- What a client holds after a call that adds or removes, by the result of its request.
use klever_subscriber.Base.{
  ℕ, ◌≡◌, refl, ◌∙◌, ap, String, Bool, true, false, not, ◌&&◌, ◌||◌, List, ◌∷◌, Option, none, some,
  contains, string_eq, if◌then◌else◌,
}
use klever_subscriber.Event.{EventType}
use klever_subscriber.Sets.{merge_types, merge_strings, remove_types, remove_strings}
use klever_subscriber.Sets.Members.{contains-merge, contains-remove}
use klever_subscriber.Request.{
  Response, Result, ok, err, SendError, not_connected, write_failed, context_done, request_failed,
}
use klever_subscriber.Subscriber.{Subscriber}
use klever_subscriber.Subscription.{merged, cancel, added, dropped, bounce}

-- The error that the caller sees.
abbrev pub told : Result Response → Option SendError
told (ok resp) = none
told (err not_connected) = none
told (err (write_failed e)) = some (write_failed e)
told (err (context_done e)) = some (context_done e)
told (err (request_failed e)) = some (request_failed e)

-- The node agreed, or there was no connection.
abbrev goes_through : Result Response → Bool
goes_through (ok resp) = true
goes_through (err not_connected) = true
goes_through (err (write_failed e)) = false
goes_through (err (context_done e)) = false
goes_through (err (request_failed e)) = false

abbrev is_offline : Result Response → Bool
is_offline (ok resp) = false
is_offline (err not_connected) = true
is_offline (err (write_failed e)) = false
is_offline (err (context_done e)) = false
is_offline (err (request_failed e)) = false

abbrev and_context : Option ℕ → List ℕ → List ℕ
and_context none cancelled = cancelled
and_context (some c) cancelled = c ∷ cancelled

contains-merge_types :
    (xs ys : List EventType) (t : EventType)
    → contains (merge_types xs ys) t ≡ (contains xs t || contains ys t)
unfolding merge_types
contains-merge_types xs ys t = contains-merge xs ys t

contains-merge_strings :
    (xs ys : List String) (a : String)
    → contains (merge_strings xs ys) a ≡ (contains xs a || contains ys a)
unfolding merge_strings
contains-merge_strings xs ys a = contains-merge xs ys a

contains-remove_types :
    (xs ys : List EventType) (t : EventType)
    → contains (remove_types xs ys) t ≡ (contains xs t && not (contains ys t))
unfolding remove_types
contains-remove_types xs ys t = contains-remove xs ys t

contains-remove_strings :
    (xs ys : List String) (a : String)
    → contains (remove_strings xs ys) a ≡ (contains xs a && not (contains ys a))
unfolding remove_strings
contains-remove_strings xs ys a = contains-remove xs ys a

-- The client holds what it held and what was added, if the call went through; it asks for a reconnect,
-- and cancels the context of its connection, if there was no connection.
pub record Gains (s : Subscriber) (result : Result Response) (types : List EventType)
    (addresses : List String) (s' : Subscriber) : Type 0 where
  pub by_type :
      (t : EventType)
      → contains s'.types t ≡ (contains s.types t || goes_through result && contains types t)
  pub by_address :
      (a : String)
      → contains s'.addresses a
        ≡ (contains s.addresses a || goes_through result && contains addresses a)
  pub token : s'.reconnect_ch ≡ (s.reconnect_ch || is_offline result)
  pub contexts :
      s'.cancelled
      ≡ (if is_offline result then and_context s.conn_cancel s.cancelled else s.cancelled)

-- The client holds what it held without what was removed, if the call went through, and nothing asks
-- for a reconnect.
pub record Loses (s : Subscriber) (result : Result Response) (types : List EventType)
    (addresses : List String) (s' : Subscriber) : Type 0 where
  pub by_type :
      (t : EventType)
      → contains s'.types t ≡ (contains s.types t && not (goes_through result && contains types t))
  pub by_address :
      (a : String)
      → contains s'.addresses a
        ≡ (contains s.addresses a && not (goes_through result && contains addresses a))
  pub token : s'.reconnect_ch ≡ s.reconnect_ch
  pub contexts : s'.cancelled ≡ s.cancelled

pub kept : (b : Bool) → b ≡ (b || false)
kept true = refl
kept false = refl

kept_all : (b : Bool) → b ≡ (b && true)
kept_all true = refl
kept_all false = refl

or_true : (b : Bool) → true ≡ (b || true)
or_true true = refl
or_true false = refl

refused-Gains :
    (s : Subscriber) (result : Result Response) (types : List EventType) (addresses : List String)
    → goes_through result ≡ false
    → is_offline result ≡ false
    → Gains s result types addresses s
refused-Gains s result types addresses denied on = record {
  by_type = λ t. rw denied (kept (contains s.types t));
  by_address = λ a. rw denied (kept (contains s.addresses a));
  token = rw on (kept s.reconnect_ch);
  contexts = rw on refl;
}

refused-Loses :
    (s : Subscriber) (result : Result Response) (types : List EventType) (addresses : List String)
    → goes_through result ≡ false
    → Loses s result types addresses s
refused-Loses s result types addresses denied = record {
  by_type = λ t. rw denied (kept_all (contains s.types t));
  by_address = λ a. rw denied (kept_all (contains s.addresses a));
  token = refl;
  contexts = refl;
}

cancel-contexts :
    (s : Subscriber) (ctx : Option ℕ)
    → cancel s ctx ≡ record s { cancelled = and_context ctx s.cancelled }
cancel-contexts s none = refl
cancel-contexts s (some c) = refl

pub added-Gains :
    (s : Subscriber) (result : Result Response) (types : List EventType) (addresses : List String)
    → let (s', error) = added (s, result) types addresses in
      (error ≡ told result) × Gains s result types addresses s' × (s'.requests ≡ s.requests)
unfolding bounce
added-Gains s (ok resp) types addresses = (
  refl,
  record {
    by_type = contains-merge_types s.types types;
    by_address = contains-merge_strings s.addresses addresses;
    token = kept s.reconnect_ch;
    contexts = refl;
  },
  refl,
)
added-Gains s (err not_connected) types addresses =
    let m = merged s types addresses in
    let same = cancel-contexts m s.conn_cancel in
    (
      refl,
      record {
        by_type = λ t.
            ap (λ (x : Subscriber). contains x.types t) same ∙ contains-merge_types s.types types t;
        by_address = λ a.
            ap (λ (x : Subscriber). contains x.addresses a) same
            ∙ contains-merge_strings s.addresses addresses a;
        token = or_true s.reconnect_ch;
        contexts = ap (λ (x : Subscriber). x.cancelled) same;
      },
      ap (λ (x : Subscriber). x.requests) same,
    )
added-Gains s (err (write_failed e)) types addresses =
    (refl, refused-Gains s _ types addresses refl refl, refl)
added-Gains s (err (context_done e)) types addresses =
    (refl, refused-Gains s _ types addresses refl refl, refl)
added-Gains s (err (request_failed e)) types addresses =
    (refl, refused-Gains s _ types addresses refl refl, refl)

pub dropped-Loses :
    (s : Subscriber) (result : Result Response) (types : List EventType) (addresses : List String)
    → let (s', error) = dropped (s, result) types addresses in
      (error ≡ told result) × Loses s result types addresses s' × (s'.requests ≡ s.requests)
dropped-Loses s (ok resp) types addresses = (
  refl,
  record {
    by_type = contains-remove_types s.types types;
    by_address = contains-remove_strings s.addresses addresses;
    token = refl;
    contexts = refl;
  },
  refl,
)
dropped-Loses s (err not_connected) types addresses = (
  refl,
  record {
    by_type = contains-remove_types s.types types;
    by_address = contains-remove_strings s.addresses addresses;
    token = refl;
    contexts = refl;
  },
  refl,
)
dropped-Loses s (err (write_failed e)) types addresses =
    (refl, refused-Loses s _ types addresses refl, refl)
dropped-Loses s (err (context_done e)) types addresses =
    (refl, refused-Loses s _ types addresses refl, refl)
dropped-Loses s (err (request_failed e)) types addresses =
    (refl, refused-Loses s _ types addresses refl, refl)
