-- ===== src/Client/Messages.antt =====
-- The reader: `_route_message` and the handlers that it calls.
pub mod Notifying
use aiotruenas.Base.{
  ℕ, String, Bool, true, false, not, ◌&&◌, ◌||◌, Option, none, some, List, [], ◌∷◌, ◌==◌, string_eq,
  nat_eq, if◌then◌else◌,
}
use aiotruenas.Base.Int.{pos, negsuc}
use aiotruenas.Base.Assoc.{Dict, lookup, insert}
use aiotruenas.Value.{Value, null, bool, int, str, obj, Fields}
use aiotruenas.Value.Text
use aiotruenas.Errors.Classify.{member_of}
use aiotruenas.Client.Calls.{unregister_call}
use aiotruenas.Client.State.{
  replied, Envelope, message, Hook, Client, future, done, enqueue, is_current, contains,
}

-- `candidate.get(name)`
abbrev pub field_of : Fields → String → Value
field_of candidate name = member_of (obj candidate) name

-- `register` of `subscribe`, on the reply's result.
unfoldable pub hook_on : Hook → Value → Client → Client
unfolding nat_eq string_eq
hook_on h (str id) s = record s {
  subscriptions = insert id h.queue s.subscriptions;
  subscription_events = insert id h.event s.subscription_events;
  registered = insert h.queue id s.registered;
}
hook_on h _ s = s

-- The only reply hook is that of `subscribe`.
unfoldable pub run_hook : Option Hook → Fields → Client → Client
run_hook none reply s = s
run_hook (some h) reply s = hook_on h (field_of reply "result") s

unfoldable pub set_result : ℕ → Fields → Client → Client
set_result n candidate s = record s { futures = insert n (replied candidate) s.futures }

-- `_handle_rpc_response`: the call is unregistered, and its future is set unless it is done.
unfoldable pub handle_rpc_response : ℕ → ℕ → Fields → Client → Client
handle_rpc_response w n candidate s =
    if not (is_current s.ws w)
    then s
    else (let popped = unregister_call n s in
        if not (contains n s.pending_calls) || done (future s.futures n)
        then popped
        else set_result n candidate (run_hook (lookup n s.reply_hooks) candidate popped))

unfoldable pub deliver : Option ℕ → Fields → Client → Client
deliver none candidate s = s
deliver (some q) candidate s = record s { queues = enqueue q (message candidate) s.queues }

-- `_handle_subscription_notification`
unfoldable pub handle_subscription_notification : ℕ → String → Fields → Client → Client
unfolding deliver
handle_subscription_notification w id candidate s =
    if not (is_current s.ws w) then s else deliver (lookup id s.subscriptions) candidate s

-- `_matches_subscription`
unfoldable pub matches_subscription : String → String → Bool
unfolding Text.has_char Text.split string_eq
matches_subscription collection event =
    collection == event
    || (Text.has_char b':' collection && (Text.split b':' collection).0 == event)

-- The queues of the subscriptions to a collection. `none` is the KeyError of a subscription that
-- has an event but no queue.
unfoldable pub matching : String → Dict String String → Dict String ℕ → Option (List ℕ)
matching collection [] subs = some []
matching collection ((id, event) ∷ events) subs =
    let rest = matching collection events subs in
    if matches_subscription collection event
    then elim (lookup id subs) [
      | none ↦ none
      | some q ↦ elim rest [ none ↦ none | some qs ↦ some (q ∷ qs) ]
    ]
    else rest

-- `_get_matching_queues`
unfoldable pub get_matching_queues : ℕ → Value → Client → Option (List ℕ)
get_matching_queues w (str collection) s =
    if is_current s.ws w then matching collection s.subscription_events s.subscriptions else some []
get_matching_queues w _ s = some []

-- One loop of `_handle_collection_notification`: queues that were notified before are skipped.
unfoldable pub notify : Fields → List ℕ → List ℕ → Dict ℕ (List Envelope) → Dict ℕ (List Envelope)
notify candidate notified [] qs = qs
notify candidate notified (q ∷ rest) qs =
    notify candidate (q ∷ notified) rest
      (if contains q notified then qs else enqueue q (message candidate) qs)

-- The first loop, which skips none.
unfoldable pub notify_each : Fields → List ℕ → Dict ℕ (List Envelope) → Dict ℕ (List Envelope)
notify_each candidate [] qs = qs
notify_each candidate (q ∷ rest) qs = notify_each candidate rest (enqueue q (message candidate) qs)

-- The collection that the second part of `_handle_collection_notification` looks for.
unfoldable pub update_collection : Fields → Value
unfolding string_eq member_of
update_collection candidate = elim (field_of candidate "method") [
  | str method ↦
      if method == "collection_update"
      then member_of (field_of candidate "params") "collection"
      else null
  | _ ↦ null
]

-- How a routing ends, and the state that it leaves: `key_error` is the KeyError of a subscription
-- that has an event but no queue.
pub data Routed : Type 0 where
  routed : Client → Routed
  key_error : Client → Routed

unfoldable pub deliver_second : Fields → List ℕ → Option (List ℕ) → Client → Routed
deliver_second candidate first none s = key_error s
deliver_second candidate first (some second) s =
    routed (record s { queues = notify candidate first second s.queues })

-- The second part, which takes the lock again: `meanwhile` is what other tasks do before it has it.
unfoldable pub notify_update : ℕ → Fields → List ℕ → Value → (Client → Client) → Client → Routed
notify_update w candidate first (str collection) meanwhile s =
    let later = meanwhile s in
    deliver_second candidate first (get_matching_queues w (str collection) later) later
notify_update w candidate first _ meanwhile s = routed s

unfoldable pub deliver_first : ℕ → Fields → Option (List ℕ) → (Client → Client) → Client → Routed
deliver_first w candidate none meanwhile s = key_error s
deliver_first w candidate (some first) meanwhile s =
    notify_update w candidate first (update_collection candidate) meanwhile
      (record s { queues = notify_each candidate first s.queues })

-- `_handle_collection_notification`
unfoldable pub handle_collection_notification : ℕ → Fields → (Client → Client) → Client → Routed
handle_collection_notification w candidate meanwhile s =
    deliver_first w candidate (get_matching_queues w (field_of candidate "collection") s) meanwhile
      s

-- An id that is an `int`: a bool is one too. No pending call has a negative id.
unfoldable pub rpc_id : Value → Option (Option ℕ)
rpc_id (int (pos n)) = some (some n)
rpc_id (int (negsuc n)) = some none
rpc_id (bool true) = some (some 1)
rpc_id (bool false) = some (some 0)
rpc_id _ = none

unfoldable pub route_by_text : ℕ → Value → Fields → (Client → Client) → Client → Routed
route_by_text w (str id) candidate meanwhile s =
    routed (handle_subscription_notification w id candidate s)
route_by_text w _ candidate meanwhile s = handle_collection_notification w candidate meanwhile s

unfoldable pub route_by_id : ℕ → Option (Option ℕ) → Fields → (Client → Client) → Client → Routed
route_by_id w (some (some n)) candidate meanwhile s = routed (handle_rpc_response w n candidate s)
route_by_id w (some none) candidate meanwhile s = routed s
route_by_id w none candidate meanwhile s =
    route_by_text w (field_of candidate "id") candidate meanwhile s

-- `_route_message`
unfoldable pub route_message : ℕ → Fields → (Client → Client) → Client → Routed
route_message w candidate meanwhile s =
    route_by_id w (rpc_id (field_of candidate "id")) candidate meanwhile s
