-- ===== src/Client/Subscriptions.antt =====
-- `subscribe`, `unsubscribe` and the readers of a subscription queue.
pub mod Draining
use aiotruenas.Base.{
  ℕ, ◌+◌, String, Bool, true, false, Option, none, some, List, [], ◌∷◌, ◌==◌, nat_eq, string_eq,
  if◌then◌else◌,
}
use Prim.Native.String.{◌++◌ as ◌<>◌}
use aiotruenas.Base.Assoc.{lookup, insert, erase}
use aiotruenas.Value.{Value, str, Fields}
use aiotruenas.Errors.Exceptions.{ClientError, plain, closed, malformed_response, Phase}
use aiotruenas.Client.State.{Envelope, message, terminator, Client, items, enqueue, is_current}
use aiotruenas.Client.Calls.{Outcome, returned, raised, stopped}

-- The queue of a new `subscribe` call.
unfoldable pub new_queue : Client → ℕ × Client
new_queue s = (s.next_queue, record s { next_queue = s.next_queue + 1 })

unfoldable pub is_queue : Option ℕ → ℕ → Bool
unfolding nat_eq
is_queue none q = false
is_queue (some p) q = p == q

unfoldable pub untrack_id : ℕ → Option String → Client → Client
unfolding is_queue
untrack_id q none s = s
untrack_id q (some id) s =
    if is_queue (lookup id s.subscriptions) q
    then record s {
      subscriptions = erase id s.subscriptions;
      subscription_events = erase id s.subscription_events;
    }
    else s

-- The cleanup of a `subscribe` that raises: its own subscription is untracked.
unfoldable pub untrack : ℕ → Client → Client
untrack q s = untrack_id q (lookup q s.registered) s

-- What `subscribe` does with its call's outcome, on the connection `w` of the call. `repr` and `repr_value` are Python's `repr` of a text and of any value.
module _ (repr : String → String) (repr_value : Value → String) where
  unfoldable pub subscription_outcome : String → ℕ → Outcome → Client → Outcome
  subscription_outcome event w (returned (str id)) s =
      if is_current s.ws w
      then returned (str id)
      else raised (closed ("connection closed while subscribing to " <> repr event) Phase.call)
  subscription_outcome event w (returned v) s = raised (
      plain malformed_response
        ("core.subscribe returned non-string subscription id: " <> repr_value v))
  subscription_outcome event w (raised e) s = raised e
  subscription_outcome event w stopped s = stopped

  abbrev settle : ℕ → Outcome → Client → Outcome × Client
  settle q (returned v) s = (returned v, s)
  settle q o s = (o, untrack q s)

  unfoldable pub finish_subscribe : String → ℕ → ℕ → Outcome → Client → Outcome × Client
  finish_subscribe event w q o s = settle q (subscription_outcome event w o s) s

-- The test of `unsubscribe` under the lock: the connection to unsubscribe on.
unfoldable pub begin_unsubscribe : String → Client → Option (Option ℕ)
unfolding lookup string_eq
begin_unsubscribe id s = elim (lookup id s.subscriptions) [ none ↦ none | some q ↦ some s.ws ]

abbrev pub same_connection : Option ℕ → Option ℕ → Bool
same_connection none none = true
same_connection (some w) v = is_current v w
same_connection _ _ = false

unfoldable pub forget_queue : String → Option ℕ → Client → Client
forget_queue id none s = record s {
  subscriptions = erase id s.subscriptions;
  subscription_events = erase id s.subscription_events;
}
forget_queue id (some q) s = record s {
  subscriptions = erase id s.subscriptions;
  subscription_events = erase id s.subscription_events;
  queues = enqueue q terminator s.queues;
}

-- `_forget_subscription`
unfoldable pub forget_subscription : Option ℕ → String → Client → Client
unfolding string_eq
forget_subscription w id s =
    if same_connection w s.ws then forget_queue id (lookup id s.subscriptions) s else s

-- The end of `unsubscribe`: a rejected request leaves the subscription tracked.
abbrev is_call_error : Outcome → Bool
is_call_error (raised (ClientError.call_error _ _ _ _ _)) = true
is_call_error o = false

unfoldable pub finish_unsubscribe : Option ℕ → String → Outcome → Client → Client
finish_unsubscribe w id o s = if is_call_error o then s else forget_subscription w id s

-- `is_subscribed`
unfoldable pub is_subscribed : String → Client → Bool
unfolding string_eq
is_subscribed id s = elim (lookup id s.subscriptions) [ none ↦ false | some q ↦ true ]

-- `_drain_events`: the messages before the terminator or the end, and what stays in the queue.
unfoldable pub drain_events : List Envelope → List Fields × List Envelope
drain_events [] = ([], [])
drain_events (terminator ∷ rest) = ([], rest)
drain_events (message m ∷ rest) = let (ms, left) = drain_events rest in (m ∷ ms, left)

-- What `get_subscription_events` takes from a queue, with a timeout or not. With one, it waits for an item; `[]`
-- at once is the timeout of that wait.
unfoldable pub take_events : Bool → List Envelope → List Fields × List Envelope
take_events timed [] = ([], [])
take_events true (terminator ∷ rest) = ([], rest)
take_events true (message m ∷ rest) = let (ms, left) = drain_events rest in (m ∷ ms, left)
take_events false (e ∷ rest) = drain_events (e ∷ rest)

unfoldable pub read_queue : Bool → Option ℕ → Client → Option (List Fields × Client)
read_queue timed none s = none
read_queue timed (some q) s =
    let (events, left) = take_events timed (items s.queues q) in
    some (events, record s { queues = insert q left s.queues })

-- `get_subscription_events`. `none` is the KeyError of an id that is not tracked.
unfoldable pub get_subscription_events : String → Bool → Client → Option (List Fields × Client)
unfolding lookup string_eq
get_subscription_events id timed s = read_queue timed (lookup id s.subscriptions) s
