-- ===== src/Client/Steps.antt =====
-- The client as a transition system: each step is a part of a method that runs without a suspension,
-- and the event loop takes the steps of its tasks in any order.
pub mod Tracked
use aiotruenas.Base.{ℕ, ◌<◌, String, Bool, ◌≡◌, Option, List}
use aiotruenas.Base.Assoc.{Dict}
use aiotruenas.Value.{Value, Fields}
use aiotruenas.Client.State.{next_id, Client, Envelope, Hook, init}
use aiotruenas.Client.Connection.{
  connected, close, close_websocket, teardown_connection, private_methods_reply,
  want_private_methods, option_sent,
}
use aiotruenas.Client.Messages.{handle_rpc_response, handle_subscription_notification}
use aiotruenas.Client.Calls.{Sent, Waited, begin_call, finish_send, end_wait, unregister_call}
use aiotruenas.Client.Subscriptions.{new_queue, untrack, forget_subscription}
use aiotruenas.Client.Invariant.{
  IsConsistent, IsConsistent-init, connected-IsConsistent, close-IsConsistent,
  teardown_connection-IsConsistent, close_websocket-IsConsistent, unregister_call-IsConsistent,
}
use aiotruenas.Client.Invariant.Messages.{
  queues-IsConsistent, handle_rpc_response-IsConsistent,
  handle_subscription_notification-IsConsistent,
}
use aiotruenas.Client.Invariant.Calls.{
  begin_call-IsConsistent, finish_send-IsConsistent, end_wait-IsConsistent, untrack-IsConsistent,
  forget_subscription-IsConsistent, want_private_methods-IsConsistent, option_sent-IsConsistent,
  private_methods_reply-IsConsistent, new_queue-IsConsistent, next_id-IsConsistent,
}

module _ (repr : String → String) where
  -- `s` becomes `t`. A queue changes when the reader puts a notification into it, and when a caller
  -- takes events out of it.
  pub data Step (s : Client) (t : Client) : Type 0 where
    connects : (w : ℕ) → t ≡ connected w s → Step s t
    -- A request of `connect` before the reader runs: only its id is shared with other calls.
    logs_in : t ≡ (next_id s).1 → Step s t
    closes : t ≡ close s → Step s t
    loses : (w : ℕ) (cause : Option String) → t ≡ teardown_connection w cause s → Step s t
    answers : (w n : ℕ) (reply : Fields) → t ≡ handle_rpc_response w n reply s → Step s t
    notifies :
        (w : ℕ) (id : String) (note : Fields)
        → t ≡ handle_subscription_notification w id note s
        → Step s t
    queues_change : (qs : Dict ℕ (List Envelope)) → t ≡ record s { queues = qs } → Step s t
    begins :
        (method : String) (expected : Option ℕ) (serializable : Bool) (hook : Option Hook)
        → t ≡ (begin_call repr method expected serializable hook s).1
        → Step s t
    sends : (w n : ℕ) (o : Sent) → t ≡ (finish_send w n o s).1 → Step s t
    -- A call after its wait: the future is cancelled, the connection closed, the call unregistered,
    -- with suspensions in between.
    stops_waiting : (n : ℕ) (o : Waited) → n < s.next_id_value → t ≡ end_wait n o s → Step s t
    closes_failed : (w : ℕ) (why : String) → t ≡ close_websocket w why s → Step s t
    unregisters : (n : ℕ) → t ≡ unregister_call n s → Step s t
    subscribes : t ≡ (new_queue s).1 → Step s t
    untracks : (q : ℕ) → t ≡ untrack q s → Step s t
    forgets : (w : Option ℕ) (id : String) → t ≡ forget_subscription w id s → Step s t
    wants_option : t ≡ want_private_methods s → Step s t
    option_answered : (reply : Fields) → t ≡ private_methods_reply reply s → Step s t
    option_settled : (w : ℕ) → t ≡ option_sent w s → Step s t

  -- `t` is reached from `s`.
  pub data Reach (s : Client) : Client → Type 0 where
    here : Reach s s
    next : {t u : Client} → Reach s t → Step t u → Reach s u

  pub Step-IsConsistent : {s t : Client} → Step s t → IsConsistent s → IsConsistent t
  Step-IsConsistent (connects w e) c = rw e (connected-IsConsistent c w)
  Step-IsConsistent (logs_in e) c = rw e (next_id-IsConsistent c)
  Step-IsConsistent (closes e) c = rw e (close-IsConsistent c)
  Step-IsConsistent (loses w cause e) c = rw e (teardown_connection-IsConsistent c w cause)
  Step-IsConsistent (answers w n reply e) c = rw e (handle_rpc_response-IsConsistent c w n reply)
  Step-IsConsistent (notifies w id note e) c =
      rw e (handle_subscription_notification-IsConsistent c w id note)
  Step-IsConsistent (queues_change qs e) c = rw e (queues-IsConsistent c qs)
  Step-IsConsistent (begins method expected serializable hook e) c =
      rw e (begin_call-IsConsistent repr c method expected serializable hook)
  Step-IsConsistent (sends w n o e) c = rw e (finish_send-IsConsistent c w n o)
  Step-IsConsistent (stops_waiting n o old e) c = rw e (end_wait-IsConsistent c n o old)
  Step-IsConsistent (closes_failed w why e) c = rw e (close_websocket-IsConsistent c w why)
  Step-IsConsistent (unregisters n e) c = rw e (unregister_call-IsConsistent c n)
  Step-IsConsistent (subscribes e) c = rw e (new_queue-IsConsistent c)
  Step-IsConsistent (untracks q e) c = rw e (untrack-IsConsistent c q)
  Step-IsConsistent (forgets w id e) c = rw e (forget_subscription-IsConsistent c w id)
  Step-IsConsistent (wants_option e) c = rw e (want_private_methods-IsConsistent c)
  Step-IsConsistent (option_answered reply e) c = rw e (private_methods_reply-IsConsistent c reply)
  Step-IsConsistent (option_settled w e) c = rw e (option_sent-IsConsistent c w)

  -- In every order of the steps of connects, closes, replies, notifications, calls and
  -- subscriptions, a new client's tables stay consistent.
  pub Reach-IsConsistent : {t : Client} → Reach init t → IsConsistent t
  Reach-IsConsistent here = IsConsistent-init
  Reach-IsConsistent (next r step) = Step-IsConsistent step (Reach-IsConsistent r)
