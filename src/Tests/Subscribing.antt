-- ===== src/Tests/Subscribing.antt =====
-- Tracked calls, subscriptions and jobs.
use aiotruenas.Base.Assoc.{lookup}
use aiotruenas.Client.Job.Laws.{goes_on, poll-decided}
use aiotruenas.Client.Subscriptions.{drain_events, take_events}
use aiotruenas.Errors.Classify.{member_of}
use aiotruenas.Base.{String, true, ◌≡◌, refl, none, [], ◌∷◌, ◌++◌, nat_eq}
use aiotruenas.Base.Int.{pos}
use aiotruenas.Value.{text, Value, str, arr, obj, nil, cons, Fields, end, field}
use aiotruenas.Client.State.{
  is_current, Client, Future, message, terminator, future, items, contains,
}
use aiotruenas.Client.Connection.{teardown_connection}
use aiotruenas.Client.Messages.{
  routed, handle_rpc_response, handle_subscription_notification, route_message,
}
use aiotruenas.Client.Messages.Notifying.{
  handle_subscription_notification-subscribed, route_message-stale,
}
use aiotruenas.Client.Subscriptions.Draining.{take_events-Splits, Splits}
use aiotruenas.Client.Job.{decide, returned, poll}
use aiotruenas.Client.Steps.{Reach, loses, next, here}
use aiotruenas.Client.Steps.Tracked.{Reach-tracked}
use aiotruenas.Client.Steps.Tracked.Parts.{is_tracked}
use aiotruenas.Tests.Connections.{quote, show, reply, online, calling, call_begun}

abbrev lost_state : Client
lost_state = teardown_connection 7 none calling

connection_lost : Reach quote calling lost_state
connection_lost = next here (loses 7 none refl)

Reach-tracked_example : is_tracked 1 lost_state ≡ true
unfolding contains nat_eq connection_lost
Reach-tracked_example = Reach-tracked quote 1 call_begun refl connection_lost (tt, tt)

abbrev subscribing : Client
subscribing = record online {
  next_id_value = 2;
  pending_calls = 1 ∷ [];
  futures = (1, Future.waiting) ∷ [];
  reply_hooks = (1, record { queue = 0; event = "alert.list" }) ∷ [];
  next_queue = 1;
}

abbrev alert : Fields
alert = field (text "id") (str "pong") end

handle_subscription_notification-subscribed_example :
    items
      (handle_subscription_notification 7 "pong" alert
        (handle_rpc_response 7 1 reply subscribing)).queues
      0
    ≡ items subscribing.queues 0 ++ message alert ∷ []
unfolding is_current contains future lookup member_of
handle_subscription_notification-subscribed_example =
    handle_subscription_notification-subscribed 7 1 (record { queue = 0; event = "alert.list" })
      "pong" reply alert subscribing refl refl refl refl refl

route_message-stale_example : route_message 3 reply (λ t. t) subscribing ≡ routed subscribing
unfolding is_current
route_message-stale_example = route_message-stale 3 subscribing refl reply

take_events-Splits_example :
    Splits (message alert ∷ message reply ∷ terminator ∷ []) (alert ∷ reply ∷ [], [])
unfolding take_events drain_events
take_events-Splits_example =
    take_events-Splits true (message alert ∷ message reply ∷ terminator ∷ [])

abbrev job : String → Value
job state =
    arr (cons (obj (field (text "state") (str state) (field (text "result") (str "done") end))) nil)

poll-decided_example :
    poll show (pos 9) (arr nil ∷ job "RUNNING" ∷ job "SUCCESS" ∷ []) 0 ≡ returned (str "done")
unfolding decide goes_on
poll-decided_example =
    poll-decided show (pos 9) (arr nil ∷ job "RUNNING" ∷ []) 0 (job "SUCCESS") [] refl refl refl
