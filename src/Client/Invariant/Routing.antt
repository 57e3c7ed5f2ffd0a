-- ===== src/Client/Invariant/Routing.antt =====
-- `_route_message` in a consistent state: no message makes it raise.
use aiotruenas.Base.{ℕ, true, ◌≡◌, refl, Option, none, some, List, arith}
use aiotruenas.Value.{Value, str, Fields}
use aiotruenas.Client.State.{Client}
use aiotruenas.Client.Messages.{
  Routed, routed, field_of, get_matching_queues, deliver_second, notify_update, deliver_first,
  update_collection, handle_collection_notification, route_by_text, route_by_id, route_message,
}
use aiotruenas.Client.Invariant.{IsConsistent, is_some}
use aiotruenas.Client.Invariant.Messages.{
  matching-is_some, queues-IsConsistent, handle_rpc_response-IsConsistent,
  handle_subscription_notification-IsConsistent,
}

-- The code returns, in a consistent state.
abbrev pub Succeeds : Routed → Type 0
Succeeds o = (t : Client) × (o ≡ routed t) × IsConsistent t

module _ {s : Client} (c : IsConsistent s) (w : ℕ) where
  get_matching_queues-is_some : (v : Value) → is_some (get_matching_queues w v s) ≡ true
  unfolding get_matching_queues
  get_matching_queues-is_some (str collection) = ground (
    arith,
    matching-is_some collection s.subscription_events s.subscriptions
        (λ id e. ground (arith, c.same_ids id)),
  )
  get_matching_queues-is_some _ = refl

  deliver_second-Succeeds :
      (candidate : Fields) (first : List ℕ) (o : Option (List ℕ))
      → is_some o ≡ true
      → Succeeds (deliver_second candidate first o s)
  unfolding deliver_second
  deliver_second-Succeeds candidate first none h = cc
  deliver_second-Succeeds candidate first (some second) h = (_, refl, queues-IsConsistent c _)

module _ (w : ℕ) (meanwhile : Client → Client)
    (keeps : (s : Client) → IsConsistent s → IsConsistent (meanwhile s)) where
  notify_update-Succeeds :
      (candidate : Fields) (first : List ℕ) (v : Value) {s : Client}
      → IsConsistent s
      → Succeeds (notify_update w candidate first v meanwhile s)
  unfolding notify_update
  notify_update-Succeeds candidate first (str collection) {s} c =
      deliver_second-Succeeds (keeps s c) w candidate first _
        (get_matching_queues-is_some (keeps s c) w (str collection))
  notify_update-Succeeds candidate first _ {s} c = (s, refl, c)

  deliver_first-Succeeds :
      (candidate : Fields) (o : Option (List ℕ)) {s : Client}
      → IsConsistent s
      → is_some o ≡ true
      → Succeeds (deliver_first w candidate o meanwhile s)
  unfolding deliver_first
  deliver_first-Succeeds candidate none c h = cc
  deliver_first-Succeeds candidate (some first) c h =
      notify_update-Succeeds candidate first (update_collection candidate) (queues-IsConsistent c _)

  handle_collection-Succeeds :
      (candidate : Fields) {s : Client}
      → IsConsistent s
      → Succeeds (handle_collection_notification w candidate meanwhile s)
  unfolding handle_collection_notification
  handle_collection-Succeeds candidate c =
      deliver_first-Succeeds candidate _ c
        (get_matching_queues-is_some c w (field_of candidate "collection"))

  route_by_text-Succeeds :
      (v : Value) (candidate : Fields) {s : Client}
      → IsConsistent s
      → Succeeds (route_by_text w v candidate meanwhile s)
  unfolding route_by_text
  route_by_text-Succeeds (str id) candidate c =
      (_, refl, handle_subscription_notification-IsConsistent c w id candidate)
  route_by_text-Succeeds _ candidate c = handle_collection-Succeeds candidate c

  route_by_id-Succeeds :
      (id : Option (Option ℕ)) (candidate : Fields) {s : Client}
      → IsConsistent s
      → Succeeds (route_by_id w id candidate meanwhile s)
  unfolding route_by_id
  route_by_id-Succeeds (some (some n)) candidate c =
      (_, refl, handle_rpc_response-IsConsistent c w n candidate)
  route_by_id-Succeeds (some none) candidate {s} c = (s, refl, c)
  route_by_id-Succeeds none candidate c = route_by_text-Succeeds _ candidate c

  -- Whatever message of whatever connection is routed, and whatever the other tasks do while the
  -- reader waits for the lock, as long as they keep the tables consistent: no lookup of the routing
  -- fails, and the tables are consistent after it.
  pub route_message-Succeeds :
      (candidate : Fields) {s : Client}
      → IsConsistent s
      → Succeeds (route_message w candidate meanwhile s)
  unfolding route_message
  route_message-Succeeds candidate c = route_by_id-Succeeds _ candidate c
