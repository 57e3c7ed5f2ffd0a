-- ===== src/Client/Steps/Tracked/Parts.antt =====
-- What one part of a method does to a call that is pending, or whose future is done.
use aiotruenas.Base.{
  ℕ, String, Bool, true, false, not, ◌||◌, ◌≡◌, refl, Option, none, some, arith, nat_eq, ◌==◌,
  string_eq, if◌then◌else◌, Bool-cases, inl, inr,
}
use aiotruenas.Base.Assoc.{lookup}
use aiotruenas.Value.{Value, str, obj, Fields, text, truthy}
use aiotruenas.Value.Dict.{has}
use aiotruenas.Errors.Classify.{member_of}
use aiotruenas.Client.State.{
  Client, replied, waiting, cancelled, Hook, future, done, is_current, contains,
}
use aiotruenas.Client.Connection.{
  detach_connection, teardown_connection, close_websocket, close_on, connected_on,
  private_methods_reply, log_private_methods_failure, option_sent,
}
use aiotruenas.Client.Connection.Ending.{future-insert, future-fail_all}
use aiotruenas.Client.Messages.{
  hook_on, run_hook, set_result, handle_rpc_response, deliver, handle_subscription_notification,
}
use aiotruenas.Client.Calls.{
  Sent, sent, send_failed, aborted, Waited, timed_out, interrupted, unregister_call, start_on,
  start_call, begin_call, other_connection, finish_send, cancel_future, end_wait,
}
use aiotruenas.Client.Subscriptions.{
  untrack_id, is_queue, forget_queue, forget_subscription, same_connection,
}
use aiotruenas.Client.Invariant.{IsConsistent, contains-without}

-- The call is pending, or its future has a result, an error or a cancellation.
abbrev pub is_tracked : ℕ → Client → Bool
is_tracked n s = contains n s.pending_calls || done (future s.futures n)

if-tracked :
    (n : ℕ) (b : Bool) (t u : Client)
    → is_tracked n t ≡ true
    → (b ≡ false → is_tracked n u ≡ true)
    → is_tracked n (if b then t else u) ≡ true
if-tracked n true t u h i = h
if-tracked n false t u h i = i refl

module _ (n : ℕ) (s : Client) (h : is_tracked n s ≡ true) where
  detach-tracked : (why : String) → is_tracked n (detach_connection why s) ≡ true
  unfolding detach_connection
  detach-tracked why = ground (arith, future-fail_all n why s.pending_calls s.futures)

  pub close_websocket-tracked :
      (w : ℕ) (why : String) → is_tracked n (close_websocket w why s) ≡ true
  unfolding close_websocket
  close_websocket-tracked w why =
      if-tracked n (is_current s.ws w) _ _ (detach-tracked why) (λ other. h)

  pub close_on-tracked : (o : Option ℕ) → is_tracked n (close_on o s) ≡ true
  unfolding close_on
  close_on-tracked none = h
  close_on-tracked (some w) = detach-tracked _

  pub teardown-tracked :
      (w : ℕ) (cause : Option String) → is_tracked n (teardown_connection w cause s) ≡ true
  unfolding teardown_connection
  teardown-tracked w cause = if-tracked n (is_current s.ws w) _ _ (detach-tracked _) (λ other. h)

  pub connected_on-tracked : (o : Option ℕ) (w : ℕ) → is_tracked n (connected_on o w s) ≡ true
  unfolding connected_on
  connected_on-tracked none w = h
  connected_on-tracked (some v) w = h

  pub unregister-tracked : (m : ℕ) → n == m ≡ false → is_tracked n (unregister_call m s) ≡ true
  unfolding unregister_call
  unregister-tracked m other = ground (arith, contains-without n m s.pending_calls)

  cancel_future-tracked : (m : ℕ) → is_tracked n (cancel_future m s) ≡ true
  unfolding cancel_future
  cancel_future-tracked m =
      if-tracked n (done (future s.futures m)) _ _ h
        (λ waits. ground (arith, future-insert n m cancelled s.futures))

  pub end_wait-tracked : (m : ℕ) (o : Waited) → is_tracked n (end_wait m o s) ≡ true
  unfolding end_wait
  end_wait-tracked m timed_out = cancel_future-tracked m
  end_wait-tracked m interrupted = cancel_future-tracked m
  end_wait-tracked m _ = h

  hook_on-tracked : (k : Hook) (v : Value) → is_tracked n (hook_on k v s) ≡ true
  unfolding hook_on
  hook_on-tracked k (str id) = h
  hook_on-tracked k _ = h

  deliver-tracked : (o : Option ℕ) (note : Fields) → is_tracked n (deliver o note s) ≡ true
  unfolding deliver
  deliver-tracked none note = h
  deliver-tracked (some q) note = h

  pub notification-tracked :
      (w : ℕ) (id : String) (note : Fields)
      → is_tracked n (handle_subscription_notification w id note s) ≡ true
  unfolding handle_subscription_notification
  notification-tracked w id note =
      if-tracked n (not (is_current s.ws w)) _ _ h (λ current. deliver-tracked _ note)

  pub untrack_id-tracked : (q : ℕ) (o : Option String) → is_tracked n (untrack_id q o s) ≡ true
  unfolding untrack_id
  untrack_id-tracked q none = h
  untrack_id-tracked q (some id) =
      if-tracked n (is_queue (lookup id s.subscriptions) q) _ _ h (λ other. h)

  forget_queue-tracked : (id : String) (o : Option ℕ) → is_tracked n (forget_queue id o s) ≡ true
  unfolding forget_queue
  forget_queue-tracked id none = h
  forget_queue-tracked id (some q) = h

  pub forget_subscription-tracked :
      (w : Option ℕ) (id : String) → is_tracked n (forget_subscription w id s) ≡ true
  unfolding forget_subscription
  forget_subscription-tracked w id =
      if-tracked n (same_connection w s.ws) _ _ (forget_queue-tracked id _) (λ other. h)

  pub private_methods_reply-tracked :
      (reply : Fields) → is_tracked n (private_methods_reply reply s) ≡ true
  unfolding private_methods_reply log_private_methods_failure
  private_methods_reply-tracked reply =
      if-tracked n (truthy (member_of (obj reply) "error")) _ _ h λ accepted.
        if-tracked n (has (text "result") reply) s (log_private_methods_failure s) h
          (λ malformed. h)

  pub option_sent-tracked : (w : ℕ) → is_tracked n (option_sent w s) ≡ true
  unfolding option_sent
  option_sent-tracked w = if-tracked n (is_current s.ws w) _ _ h (λ other. h)

module _ (n : ℕ) (s : Client) (h : is_tracked n s ≡ true) where
  pub finish_send-tracked :
      (w m : ℕ) (o : Sent) → n == m ≡ false → is_tracked n (finish_send w m o s).1 ≡ true
  unfolding finish_send
  finish_send-tracked w m sent other = h
  finish_send-tracked w m (send_failed why) other =
      close_websocket-tracked n (unregister_call m s) (unregister-tracked n s h m other) w why
  finish_send-tracked w m aborted other = unregister-tracked n s h m other

  start_on-tracked :
      (w : ℕ) (serializable : Bool) (hook : Option Hook)
      → IsConsistent s
      → is_tracked n (start_on w serializable hook s).1 ≡ true
  unfolding start_on contains
  start_on-tracked w false hook c = h
  start_on-tracked w true hook c = ground (arith, future-insert n s.next_id_value waiting s.futures)

  start_call-tracked :
      (o : Option ℕ) (serializable : Bool) (hook : Option Hook)
      → IsConsistent s
      → is_tracked n (start_call o serializable hook s).1 ≡ true
  unfolding start_call
  start_call-tracked none serializable hook c = h
  start_call-tracked (some w) serializable hook c = start_on-tracked w serializable hook c

  pub begin_call-tracked :
      (repr : String → String) (method : String) (expected : Option ℕ) (serializable : Bool)
      (hook : Option Hook)
      → IsConsistent s
      → is_tracked n (begin_call repr method expected serializable hook s).1 ≡ true
  unfolding begin_call
  begin_call-tracked repr method expected serializable hook c =
      elim (Bool-cases (other_connection expected s.ws)) [
        | inl other ↦ rw other h
        | inr same ↦ rw same (start_call-tracked s.ws serializable hook c)
      ]

  hook_result-tracked :
      (m : ℕ) (k : Hook) (v : Value) (reply : Fields)
      → is_tracked n (set_result m reply (hook_on k v (unregister_call m s))) ≡ true
  unfolding set_result hook_on unregister_call
  hook_result-tracked m k (str id) reply =
      ground
        (arith, contains-without n m s.pending_calls, future-insert n m (replied reply) s.futures)
  hook_result-tracked m k _ reply =
      ground
        (arith, contains-without n m s.pending_calls, future-insert n m (replied reply) s.futures)

  -- The reply of this call sets its future; that of another leaves it pending.
  set_result-tracked :
      (m : ℕ) (hook : Option Hook) (reply : Fields)
      → is_tracked n (set_result m reply (run_hook hook reply (unregister_call m s))) ≡ true
  unfolding set_result run_hook unregister_call
  set_result-tracked m none reply =
      ground
        (arith, contains-without n m s.pending_calls, future-insert n m (replied reply) s.futures)
  set_result-tracked m (some k) reply = hook_result-tracked m k _ reply

  -- An ended call that is unregistered is not this one, or its future is done.
  pub handle_rpc_response-tracked :
      (w m : ℕ) (reply : Fields) → is_tracked n (handle_rpc_response w m reply s) ≡ true
  unfolding handle_rpc_response
  handle_rpc_response-tracked w m reply = if-tracked n (not (is_current s.ws w)) _ _ h λ current.
      elim (Bool-cases (not (contains m s.pending_calls) || done (future s.futures m))) [
        | inl ended ↦
            rw ended
              (unfold unregister_call in ground (arith, contains-without n m s.pending_calls))
        | inr waits ↦ rw waits (set_result-tracked m (lookup m s.reply_hooks) reply)
      ]
