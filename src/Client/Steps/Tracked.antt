-- ===== src/Client/Steps/Tracked.antt =====
-- The caller of a pending call is not forgotten.
pub mod Parts
use aiotruenas.Base.{
  ℕ, String, Bool, true, false, not, ◌||◌, ◌≡◌, refl, Option, none, some, arith, nat_eq, ◌==◌,
  string_eq, if◌then◌else◌, Bool-cases, inl, inr,
}
use aiotruenas.Base.Assoc.{lookup}
use aiotruenas.Value.{Value, str, obj, Fields, text, truthy}
use aiotruenas.Value.Dict.{has}
use aiotruenas.Errors.Classify.{member_of}
use aiotruenas.Client.State.{
  next_id, init, Client, replied, waiting, cancelled, Hook, future, done, is_current, contains,
}
use aiotruenas.Client.Connection.{
  detach_connection, teardown_connection, close_websocket, close, close_on, connected, connected_on,
  private_methods_reply, log_private_methods_failure, want_private_methods, option_sent,
}
use aiotruenas.Client.Connection.Ending.{future-insert, future-fail_all}
use aiotruenas.Client.Messages.{
  hook_on, run_hook, set_result, handle_rpc_response, deliver, handle_subscription_notification,
}
use aiotruenas.Client.Calls.{
  Sent, sent, send_failed, aborted, Waited, timed_out, interrupted, unregister_call, start_on,
  start_call, begin_call, other_connection, finish_send, cancel_future, end_wait,
}
use aiotruenas.Client.Subscriptions.{
  new_queue, untrack, untrack_id, is_queue, forget_queue, forget_subscription, same_connection,
}
use aiotruenas.Client.Invariant.{IsConsistent, contains-without}
use aiotruenas.Client.Steps.{
  Step, connects, logs_in, closes, loses, answers, notifies, queues_change, begins, sends,
  stops_waiting, closes_failed, unregisters, subscribes, untracks, forgets, wants_option,
  option_answered, option_settled, Reach, here, next, Step-IsConsistent, Reach-IsConsistent,
}
use aiotruenas.Client.Steps.Tracked.Parts.{
  is_tracked, close_websocket-tracked, close_on-tracked, teardown-tracked, connected_on-tracked,
  unregister-tracked, end_wait-tracked, notification-tracked, untrack_id-tracked,
  forget_subscription-tracked, private_methods_reply-tracked, option_sent-tracked,
  finish_send-tracked, begin_call-tracked, handle_rpc_response-tracked,
}

-- A step other than the end of this call by the call itself.
abbrev pub Spares : {repr : String → String} {s t : Client} → ℕ → Step repr s t → Type 0
Spares n (unregisters m e) = n == m ≡ false
Spares n (sends w m o e) = n == m ≡ false
Spares n _ = Unit

abbrev pub AllSpare : {repr : String → String} {s t : Client} → ℕ → Reach repr s t → Type 0
AllSpare n here = Unit
AllSpare n (next r step) = AllSpare n r × Spares n step

module _ (repr : String → String) where
  Step-tracked :
      {s t : Client} (n : ℕ) (step : Step repr s t)
      → Spares n step
      → IsConsistent s
      → is_tracked n s ≡ true
      → is_tracked n t ≡ true
  unfolding next_id connected close untrack new_queue want_private_methods
  Step-tracked {s} n (connects w e) spares c h = rw e (connected_on-tracked n s h s.ws w)
  Step-tracked n (logs_in e) spares c h = rw e h
  Step-tracked {s} n (closes e) spares c h = rw e (close_on-tracked n s h s.ws)
  Step-tracked {s} n (loses w cause e) spares c h = rw e (teardown-tracked n s h w cause)
  Step-tracked {s} n (answers w m reply e) spares c h =
      rw e (handle_rpc_response-tracked n s h w m reply)
  Step-tracked {s} n (notifies w id note e) spares c h = rw e (notification-tracked n s h w id note)
  Step-tracked n (queues_change qs e) spares c h = rw e h
  Step-tracked {s} n (begins method expected serializable hook e) spares c h =
      rw e (begin_call-tracked n s h repr method expected serializable hook c)
  Step-tracked {s} n (sends w m o e) spares c h = rw e (finish_send-tracked n s h w m o spares)
  Step-tracked {s} n (stops_waiting m o old e) spares c h = rw e (end_wait-tracked n s h m o)
  Step-tracked {s} n (closes_failed w why e) spares c h = rw e (close_websocket-tracked n s h w why)
  Step-tracked {s} n (unregisters m e) spares c h = rw e (unregister-tracked n s h m spares)
  Step-tracked n (subscribes e) spares c h = rw e h
  Step-tracked {s} n (untracks q e) spares c h = rw e (untrack_id-tracked n s h q _)
  Step-tracked {s} n (forgets w id e) spares c h = rw e (forget_subscription-tracked n s h w id)
  Step-tracked n (wants_option e) spares c h = rw e h
  Step-tracked {s} n (option_answered reply e) spares c h =
      rw e (private_methods_reply-tracked n s h reply)
  Step-tracked {s} n (option_settled w e) spares c h = rw e (option_sent-tracked n s h w)

  -- A call that is pending in a state that a new client reaches is still pending, or its future is
  -- done, in every state reached from there without an end of the call by itself.
  pub Reach-tracked :
      {s t : Client} (n : ℕ)
      → Reach repr init s
      → contains n s.pending_calls ≡ true
      → (later : Reach repr s t) → AllSpare n later
      → is_tracked n t ≡ true
  Reach-tracked {s = s} n start pending later spare = (go later spare).1
    where
      go :
          {u : Client} (r : Reach repr s u)
          → AllSpare n r
          → IsConsistent u × (is_tracked n u ≡ true)
      go here spare = (Reach-IsConsistent repr start, ground arith)
      go (next r step) (before, spares) =
          let (c, h) = go r before in
          (Step-IsConsistent repr step c, Step-tracked n step spares c h)
