-- ===== src/Subscription/Node/Sync.antt =====
-- A node that was in step with the client is in step with it after the fast path of `Reconfigure`.
use klever_subscriber.Base.{
  ℕ, ◌≡◌, refl, ◌∙◌, sym, ap, String, Bool, true, false, not, ◌&&◌, ◌||◌, List, [], ◌∷◌, arith, inl,
  inr, string_eq, contains,
}
use klever_subscriber.Event.{EventType}
use klever_subscriber.Sets.{diff_types, diff_strings}
use klever_subscriber.Sets.Members.{contains-diff}
use klever_subscriber.Request.{
  Slice, elems, types_and_addresses, only_types, only_addresses, Network,
}
use klever_subscriber.Subscriber.{Subscriber}
use klever_subscriber.Subscription.{is_some_list, send_if, send_changes, reconfigure, assign}
use klever_subscriber.Subscription.Node.{Node, heard, Serves, InSync}
use klever_subscriber.Subscription.Node.Sent.{send_if-sent}

module _ (node : Node) (start : node.State) where
  -- What the node serves after the client's log.
  abbrev View : Subscriber → (EventType → Bool) → (String → Bool) → Type 0
  View s types addresses = Serves node (heard node start s.requests.sent) types addresses

  none-contains {ℓ} : {A : Type ℓ} (xs : List A) → is_some_list xs ≡ false → xs ≡ []
  none-contains [] h = refl
  none-contains (x ∷ xs) h = absurd (cc)

  -- The three steps of the fast path, on a node that serves `ts` and `as'`.
  subscribed :
      (needed : Bool) (net : Network) (types : List EventType) (addresses : Slice String)
      (p : Subscriber × Bool) (ts : EventType → Bool) (as' : String → Bool)
      → (needed ≡ false
          → ((t : EventType) → (ts t || contains types t) ≡ ts t)
            × ((a : String) → (as' a || contains (elems addresses) a) ≡ as' a))
      → View p.0 ts as'
      → let q = send_if needed net "subscribe" (types_and_addresses types addresses) p in
        q.1 ≡ true
        → (p.1 ≡ true)
          × View q.0 (λ t. ts t || contains types t) (λ a. as' a || contains (elems addresses) a)
  subscribed needed net types addresses p ts as' idle v h =
      let (success, sent) =
        send_if-sent needed net "subscribe" (types_and_addresses types addresses) p h in
      (
        success,
        elim sent [
          | inl (none_needed, same) ↦
              let (no_types, no_addresses) = idle none_needed in
              rw same (record {
                by_type = λ t. v.by_type t ∙ sym (no_types t);
                by_address = λ a. v.by_address a ∙ sym (no_addresses a);
              })
          | inr (id, more) ↦ rw more (record {
            by_type = λ t.
                node.subscribe_types _ id types addresses t
                ∙ ap (λ b. b || contains types t) (v.by_type t);
            by_address = λ a.
                node.subscribe_addresses _ id types addresses a
                ∙ ap (λ b. b || contains (elems addresses) a) (v.by_address a);
          })
        ],
      )

  dropped_addresses :
      (net : Network) (gone : List String) (p : Subscriber × Bool) (ts : EventType → Bool)
      (as' : String → Bool)
      → View p.0 ts as'
      → let q = send_if (is_some_list gone) net "unsubscribe" (only_addresses gone) p in
        q.1 ≡ true → (p.1 ≡ true) × View q.0 ts (λ a. as' a && not (contains gone a))
  dropped_addresses net gone p ts as' v h =
      let (success, sent) =
        send_if-sent (is_some_list gone) net "unsubscribe" (only_addresses gone) p h in
      (
        success,
        elim sent [
          | inl (none_needed, same) ↦
              rw (same, none-contains gone none_needed)
                (record { by_type = v.by_type; by_address = λ a. v.by_address a ∙ ground arith })
          | inr (id, more) ↦ rw more (record {
            by_type = λ t. node.drop_addresses_type _ id gone t ∙ v.by_type t;
            by_address = λ a.
                node.drop_addresses _ id gone a
                ∙ ap (λ b. b && not (contains gone a)) (v.by_address a);
          })
        ],
      )

  dropped_types :
      (net : Network) (gone : List EventType) (p : Subscriber × Bool) (ts : EventType → Bool)
      (as' : String → Bool)
      → View p.0 ts as'
      → let q = send_if (is_some_list gone) net "unsubscribe" (only_types gone) p in
        q.1 ≡ true → (p.1 ≡ true) × View q.0 (λ t. ts t && not (contains gone t)) as'
  dropped_types net gone p ts as' v h =
      let (success, sent) =
        send_if-sent (is_some_list gone) net "unsubscribe" (only_types gone) p h in
      (
        success,
        elim sent [
          | inl (none_needed, same) ↦
              rw (same, none-contains gone none_needed)
                (record { by_type = λ t. v.by_type t ∙ ground arith; by_address = v.by_address })
          | inr (id, more) ↦ rw more (record {
            by_type = λ t.
                node.drop_types _ id gone t ∙ ap (λ b. b && not (contains gone t)) (v.by_type t);
            by_address = λ a. node.drop_types_address _ id gone a ∙ v.by_address a;
          })
        ],
      )

contains-diff_types :
    (xs ys : List EventType) (t : EventType)
    → contains (diff_types xs ys) t ≡ (contains xs t && not (contains ys t))
unfolding diff_types
contains-diff_types xs ys t = contains-diff xs ys t

contains-diff_strings :
    (xs ys : List String) (a : String)
    → contains (diff_strings xs ys) a ≡ (contains xs a && not (contains ys a))
unfolding diff_strings
contains-diff_strings xs ys a = contains-diff xs ys a

-- Adding the new set and then taking away what is only in the old one leaves the new one.
new_set :
    (old new gone : List String) (a : String)
    → contains gone a ≡ (contains old a && not (contains new a))
    → ((contains old a || contains new a) && not (contains gone a)) ≡ contains new a
new_set old new gone a law = ground arith

none_missing :
    (old new missing : List String) (a : String)
    → contains missing a ≡ (contains new a && not (contains old a))
    → is_some_list missing ≡ false
    → (contains old a || contains new a) ≡ contains old a
none_missing old new [] a law h = ground arith
none_missing old new (x ∷ missing) a law h = absurd (cc)

-- If the fast path succeeds, the node serves what was asked for.
send_changes-Serves :
    (node : Node) (start : node.State) (net : ℕ → Network) (s : Subscriber) (types : List EventType)
    (addresses : Slice String)
    → InSync node start s
    → (send_changes net s types addresses).1 ≡ true
    → Serves node
        (heard node start (send_changes net s types addresses).0.requests.sent)
        (contains types)
        (contains (elems addresses))
unfolding send_changes
send_changes-Serves node start net s types addresses v h =
    let add_t = diff_types types s.types in
    let gone_t = diff_types s.types types in
    let add_a = diff_strings (elems addresses) s.addresses in
    let gone_a = diff_strings s.addresses (elems addresses) in
    let needed = is_some_list add_t || is_some_list add_a in
    let p₁ = send_if needed (net 0) "subscribe" (types_and_addresses types addresses) (s, true) in
    let p₂ = send_if (is_some_list gone_a) (net 1) "unsubscribe" (only_addresses gone_a) p₁ in
    let h₂ =
      (send_if-sent (is_some_list gone_t) (net 2) "unsubscribe" (only_types gone_t) p₂ h).0 in
    let h₁ =
      (send_if-sent (is_some_list gone_a) (net 1) "unsubscribe" (only_addresses gone_a) p₁ h₂).0 in
    let (_, v₁) =
      subscribed node start needed (net 0) types addresses (s, true) (contains s.types)
        (contains s.addresses)
        (λ none_needed. (
          λ t.
              none_missing s.types types add_t t (contains-diff_types types s.types t)
                (ground arith),
          λ a.
              none_missing s.addresses (elems addresses) add_a a
                (contains-diff_strings (elems addresses) s.addresses a) (ground arith),
        ))
        v h₁ in
    let (_, v₂) = dropped_addresses node start (net 1) gone_a p₁ _ _ v₁ h₂ in
    let (_, v₃) = dropped_types node start (net 2) gone_t p₂ _ _ v₂ h in
    record {
      by_type =
          λ t. v₃.by_type t ∙ new_set s.types types gone_t t (contains-diff_types s.types types t);
      by_address = λ a.
          v₃.by_address a
          ∙ new_set s.addresses (elems addresses) gone_a a
              (contains-diff_strings s.addresses (elems addresses) a);
    }

reconfigure_fast :
    (net : ℕ → Network) (s : Subscriber) (types : List EventType) (addresses : Slice String)
    → s.connected ≡ true
    → (send_changes net s types addresses).1 ≡ true
    → reconfigure net s types addresses
      ≡ assign (send_changes net s types addresses).0 types (elems addresses)
unfolding reconfigure
reconfigure_fast net s types addresses up success = ground arith

rearrange :
    (node : Node) (start : node.State) (s : Subscriber) (types : List EventType)
    (addresses : List String)
    → Serves node (heard node start s.requests.sent) (contains types) (contains addresses)
    → InSync node start (assign s types addresses)
rearrange node start s types addresses v = v

-- If the node serves what the client holds, and `Reconfigure` finds the client connected and no
-- request of its fast path fails, then after it the node serves what the client then holds, which is
-- what was asked for.
pub reconfigure-InSync :
    (node : Node) (start : node.State) (net : ℕ → Network) (s : Subscriber) (types : List EventType)
    (addresses : Slice String)
    → InSync node start s
    → s.connected ≡ true
    → (send_changes net s types addresses).1 ≡ true
    → InSync node start (reconfigure net s types addresses)
reconfigure-InSync node start net s types addresses v up success =
    rw (reconfigure_fast net s types addresses up success) (
      rearrange node start (send_changes net s types addresses).0 types (elems addresses)
        (send_changes-Serves node start net s types addresses v success))
