-- ===== src/Client/Invariant/Calls.antt =====
-- Calls and subscriptions keep the tables consistent.
use aiotruenas.Base.{
  ℕ, ◌<◌, String, Bool, true, false, ◌≡◌, refl, ap, Option, none, some, arith, string_eq, nat_eq,
  if◌then◌else◌,
}
use aiotruenas.Base.Assoc.{lookup, erase, lookup-erase}
use aiotruenas.Value.{Fields, text, truthy, obj}
use aiotruenas.Value.Dict.{has}
use aiotruenas.Errors.Classify.{member_of}
use aiotruenas.Client.State.{next_id, Client, Hook, cancelled, future, done, is_current}
use aiotruenas.Client.Connection.{
  private_methods_reply, log_private_methods_failure, want_private_methods, option_sent,
}
use aiotruenas.Client.Calls.{
  Begun, Sent, sent, send_failed, aborted, Waited, timed_out, interrupted, cancel_future,
  begin_call, finish_send, end_wait, other_connection, start_call,
}
use aiotruenas.Client.Subscriptions.{
  new_queue, untrack, untrack_id, is_queue, forget_queue, forget_subscription, same_connection,
}
use aiotruenas.Client.Invariant.{
  IsConsistent, unregister_call-IsConsistent, close_websocket-IsConsistent, start_on-IsConsistent,
}
use aiotruenas.Client.Invariant.Messages.{queues-IsConsistent, futures-IsConsistent, by_cases}

module _ {s : Client} (c : IsConsistent s) where
  untracked-IsConsistent :
      (id : String)
      → IsConsistent (record s {
        subscriptions = erase id s.subscriptions;
        subscription_events = erase id s.subscription_events;
      })
  unfolding erase
  untracked-IsConsistent id = record {
    same_ids = λ k. ground (
      arith,
      c.same_ids k,
      lookup-erase k id s.subscriptions,
      lookup-erase k id s.subscription_events,
    );
    idle = λ e.
        let (pending, hooks, subs, events) = c.idle e in
        (pending, hooks, ap (erase id) subs, ap (erase id) events);
    option_current = c.option_current;
    reader_current = c.reader_current;
    done_old = c.done_old;
    pending_old = c.pending_old;
    hooks_pending = c.hooks_pending;
  }

  untrack_id-IsConsistent : (q : ℕ) (o : Option String) → IsConsistent (untrack_id q o s)
  unfolding untrack_id
  untrack_id-IsConsistent q none = c
  untrack_id-IsConsistent q (some id) =
      by_cases (is_queue (lookup id s.subscriptions) q) _ _ (λ own. untracked-IsConsistent id)
        (λ other. c)

  pub untrack-IsConsistent : (q : ℕ) → IsConsistent (untrack q s)
  unfolding untrack
  untrack-IsConsistent q = untrack_id-IsConsistent q _

  forget_on : (id : String) (o : Option ℕ) → IsConsistent (forget_queue id o s)
  unfolding forget_queue
  forget_on id none = untracked-IsConsistent id
  forget_on id (some q) = queues-IsConsistent (untracked-IsConsistent id) _

  pub forget_subscription-IsConsistent :
      (w : Option ℕ) (id : String) → IsConsistent (forget_subscription w id s)
  unfolding forget_subscription
  forget_subscription-IsConsistent w id =
      by_cases (same_connection w s.ws) _ _ (λ same. forget_on id _) (λ other. c)

  cancel_future-IsConsistent : (n : ℕ) → n < s.next_id_value → IsConsistent (cancel_future n s)
  unfolding cancel_future
  cancel_future-IsConsistent n old =
      by_cases (done (future s.futures n)) _ _ (λ over. c)
        (λ waits. futures-IsConsistent c n cancelled old)

  -- The wait of a call whose id was given out.
  pub end_wait-IsConsistent :
      (n : ℕ) (o : Waited) → n < s.next_id_value → IsConsistent (end_wait n o s)
  unfolding end_wait
  end_wait-IsConsistent n timed_out old = cancel_future-IsConsistent n old
  end_wait-IsConsistent n interrupted old = cancel_future-IsConsistent n old
  end_wait-IsConsistent n _ old = c

  start_call-IsConsistent :
      (o : Option ℕ) (serializable : Bool) (hook : Option Hook)
      → s.ws ≡ o
      → IsConsistent (start_call o serializable hook s).1
  unfolding start_call
  start_call-IsConsistent none serializable hook e = c
  start_call-IsConsistent (some w) serializable hook e =
      start_on-IsConsistent c w serializable hook e

  pub finish_send-IsConsistent : (w n : ℕ) (o : Sent) → IsConsistent (finish_send w n o s).1
  unfolding finish_send
  finish_send-IsConsistent w n sent = c
  finish_send-IsConsistent w n (send_failed why) =
      close_websocket-IsConsistent (unregister_call-IsConsistent c n) w why
  finish_send-IsConsistent w n aborted = unregister_call-IsConsistent c n

pick :
    (b : Bool) (t u : Begun × Client)
    → IsConsistent t.1
    → IsConsistent u.1
    → IsConsistent (if b then t else u).1
pick true t u ht hu = ht
pick false t u ht hu = hu

module _ (repr : String → String) {s : Client} (c : IsConsistent s) where
  pub begin_call-IsConsistent :
      (method : String) (expected : Option ℕ) (serializable : Bool) (hook : Option Hook)
      → IsConsistent (begin_call repr method expected serializable hook s).1
  unfolding begin_call
  begin_call-IsConsistent method expected serializable hook =
      pick (other_connection expected s.ws) _ _ c
        (start_call-IsConsistent c s.ws serializable hook refl)

current_of : (o : Option ℕ) (w v : ℕ) → is_current o w ≡ true → some w ≡ some v → o ≡ some v
unfolding is_current nat_eq
current_of none w v h e = cc
current_of (some u) w v h e = ground arith

module _ {s : Client} (c : IsConsistent s) where
  pub new_queue-IsConsistent : IsConsistent (new_queue s).1
  unfolding new_queue
  new_queue-IsConsistent = record {
    same_ids = c.same_ids;
    idle = c.idle;
    option_current = c.option_current;
    reader_current = c.reader_current;
    done_old = c.done_old;
    pending_old = c.pending_old;
    hooks_pending = c.hooks_pending;
  }

  pub next_id-IsConsistent : IsConsistent (next_id s).1
  unfolding next_id
  next_id-IsConsistent = record {
    same_ids = c.same_ids;
    idle = c.idle;
    option_current = c.option_current;
    reader_current = c.reader_current;
    done_old = λ n h. omega (arith, c.done_old n h);
    pending_old = λ n h. omega (arith, c.pending_old n h);
    hooks_pending = c.hooks_pending;
  }

  -- The two flags of the option do not matter.
  pub options-IsConsistent :
      (wanted warned : Bool)
      → IsConsistent (record s { private_methods = wanted; private_methods_warned = warned })
  options-IsConsistent wanted warned = record {
    same_ids = c.same_ids;
    idle = c.idle;
    option_current = c.option_current;
    reader_current = c.reader_current;
    done_old = c.done_old;
    pending_old = c.pending_old;
    hooks_pending = c.hooks_pending;
  }

  pub want_private_methods-IsConsistent : IsConsistent (want_private_methods s)
  unfolding want_private_methods
  want_private_methods-IsConsistent = options-IsConsistent true s.private_methods_warned

  warned-IsConsistent : IsConsistent (log_private_methods_failure s)
  unfolding log_private_methods_failure
  warned-IsConsistent = options-IsConsistent s.private_methods true

  pub private_methods_reply-IsConsistent :
      (reply : Fields) → IsConsistent (private_methods_reply reply s)
  unfolding private_methods_reply
  private_methods_reply-IsConsistent reply =
      by_cases (truthy (member_of (obj reply) "error")) (log_private_methods_failure s)
        (if has (text "result") reply then s else log_private_methods_failure s)
        (λ rejected. warned-IsConsistent)
        λ accepted.
          by_cases (has (text "result") reply) s (log_private_methods_failure s) (λ done. c)
            (λ malformed. warned-IsConsistent)

  pub option_sent-IsConsistent : (w : ℕ) → IsConsistent (option_sent w s)
  unfolding option_sent
  option_sent-IsConsistent w =
      by_cases (is_current s.ws w) _ _
        (λ current. record {
          same_ids = c.same_ids;
          idle = c.idle;
          option_current = λ v e. current_of s.ws w v current e;
          reader_current = c.reader_current;
          done_old = c.done_old;
          pending_old = c.pending_old;
          hooks_pending = c.hooks_pending;
        })
        (λ other. c)
