-- ===== src/Client/Messages/Notifying.antt =====
-- A notification right after the reply to `subscribe`, and messages of an older connection.
use aiotruenas.Base.{
  ℕ, String, true, false, ◌≡◌, refl, Option, none, some, [], ◌∷◌, ◌++◌, arith, nat_eq, string_eq,
}
use aiotruenas.Base.Assoc.{lookup, lookup-insert_self}
use aiotruenas.Value.{Value, str, Fields}
use aiotruenas.Client.State.{Client, message, Hook, future, done, items, is_current, contains}
use aiotruenas.Client.Connection.Ending.{items-enqueue}
use aiotruenas.Client.Calls.{unregister_call}
use aiotruenas.Client.Messages.{
  routed, field_of, hook_on, run_hook, set_result, handle_rpc_response, deliver,
  handle_subscription_notification, get_matching_queues, notify, notify_each, deliver_second,
  notify_update, deliver_first, handle_collection_notification, route_by_text, route_by_id,
  route_message,
}

deliver-items :
    (o : Option ℕ) (q : ℕ) (note : Fields) (s : Client)
    → o ≡ some q
    → items (deliver o note s).queues q ≡ items s.queues q ++ message note ∷ []
unfolding deliver
deliver-items none q note s h = cc
deliver-items (some p) q note s h = ground (arith, items-enqueue q p (message note) s.queues)

subscribed :
    (w n : ℕ) (h : Hook) (id : String) (reply : Fields) (s : Client)
    → is_current s.ws w ≡ true
    → contains n s.pending_calls ≡ true
    → done (future s.futures n) ≡ false
    → lookup n s.reply_hooks ≡ some h
    → field_of reply "result" ≡ str id
    → handle_rpc_response w n reply s
      ≡ set_result n reply (hook_on h (str id) (unregister_call n s))
unfolding handle_rpc_response run_hook
subscribed w n h id reply s current pending waits hooked result = ground arith

-- When the reply of a `subscribe` call that waits on the current connection is routed, and then a
-- notification for the subscription id of the reply, the notification is put behind what the queue
-- of that call holds.
pub handle_subscription_notification-subscribed :
    (w n : ℕ) (h : Hook) (id : String) (reply note : Fields) (s : Client)
    → is_current s.ws w ≡ true
    → contains n s.pending_calls ≡ true
    → done (future s.futures n) ≡ false
    → lookup n s.reply_hooks ≡ some h
    → field_of reply "result" ≡ str id
    → items
        (handle_subscription_notification w id note (handle_rpc_response w n reply s)).queues
        h.queue
      ≡ items s.queues h.queue ++ message note ∷ []
unfolding handle_subscription_notification set_result hook_on unregister_call
handle_subscription_notification-subscribed w n h id reply note s current pending waits hooked
      result =
    rw (subscribed w n h id reply s current pending waits hooked result, current)
      (deliver-items _ h.queue note _ (lookup-insert_self id h.queue s.subscriptions))

module _ (w : ℕ) (s : Client) (stale : is_current s.ws w ≡ false) where
  no_queues : (v : Value) → get_matching_queues w v s ≡ some []
  unfolding get_matching_queues
  no_queues (str collection) = rw stale refl
  no_queues _ = refl

  notify_update-stale :
      (candidate : Fields) (v : Value) → notify_update w candidate [] v (λ t. t) s ≡ routed s
  unfolding notify_update deliver_second notify
  notify_update-stale candidate (str collection) = rw (no_queues (str collection)) refl
  notify_update-stale candidate _ = refl

  collection-stale :
      (candidate : Fields) → handle_collection_notification w candidate (λ t. t) s ≡ routed s
  unfolding handle_collection_notification deliver_first notify_each
  collection-stale candidate =
      rw (no_queues (field_of candidate "collection")) (notify_update-stale candidate _)

  route_by_text-stale :
      (v : Value) (candidate : Fields) → route_by_text w v candidate (λ t. t) s ≡ routed s
  unfolding route_by_text handle_subscription_notification
  route_by_text-stale (str id) candidate = rw stale refl
  route_by_text-stale _ candidate = collection-stale candidate

  route_by_id-stale :
      (id : Option (Option ℕ)) (candidate : Fields)
      → route_by_id w id candidate (λ t. t) s ≡ routed s
  unfolding route_by_id handle_rpc_response
  route_by_id-stale (some (some n)) candidate = rw stale refl
  route_by_id-stale (some none) candidate = refl
  route_by_id-stale none candidate = route_by_text-stale _ candidate

  -- A message of a connection that is not the current one changes nothing, if no other task runs
  -- meanwhile.
  pub route_message-stale : (candidate : Fields) → route_message w candidate (λ t. t) s ≡ routed s
  unfolding route_message
  route_message-stale candidate = route_by_id-stale _ candidate
