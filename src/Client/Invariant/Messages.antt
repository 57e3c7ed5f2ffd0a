-- ===== src/Client/Invariant/Messages.antt =====
-- The reader's operations keep the tables consistent, and never meet a missing queue.
use aiotruenas.Base.{
  ℕ, ◌<◌, String, Bool, true, false, not, ◌||◌, ◌≡◌, ◌≢◌, refl, Option, none, some, List, [], ◌∷◌,
  arith, string_eq, nat_eq, if◌then◌else◌,
}
use aiotruenas.Base.Assoc.{Dict, lookup, insert, lookup-insert}
use aiotruenas.Value.{Value, str, Fields}
use aiotruenas.Client.State.{
  Client, Envelope, Hook, Future, replied, future, done, is_current, contains,
}
use aiotruenas.Client.Connection.Ending.{future-insert}
use aiotruenas.Client.Messages.{
  deliver, field_of, hook_on, run_hook, set_result, handle_rpc_response,
  handle_subscription_notification, matching,
}
use aiotruenas.Client.Calls.{unregister_call}
use aiotruenas.Client.Invariant.{IsConsistent, is_some, unregister_call-IsConsistent}

module _ {s : Client} (c : IsConsistent s) where
  -- Only queues change.
  pub queues-IsConsistent : (qs : Dict ℕ (List Envelope)) → IsConsistent (record s { queues = qs })
  queues-IsConsistent qs = record {
    same_ids = c.same_ids;
    idle = c.idle;
    option_current = c.option_current;
    reader_current = c.reader_current;
    done_old = c.done_old;
    pending_old = c.pending_old;
    hooks_pending = c.hooks_pending;
  }

  -- A future that ends its wait, of an id that was given out.
  pub futures-IsConsistent :
      (n : ℕ) (f : Future)
      → n < s.next_id_value
      → IsConsistent (record s { futures = insert n f s.futures })
  futures-IsConsistent n f old = record {
    same_ids = c.same_ids;
    idle = c.idle;
    option_current = c.option_current;
    reader_current = c.reader_current;
    done_old = λ m h. ground (arith, c.done_old m, future-insert m n f s.futures);
    pending_old = c.pending_old;
    hooks_pending = c.hooks_pending;
  }

  track-IsConsistent :
      (id event : String) (q : ℕ) (reg : Dict ℕ String)
      → s.ws ≢ none
      → IsConsistent (record s {
        subscriptions = insert id q s.subscriptions;
        subscription_events = insert id event s.subscription_events;
        registered = reg;
      })
  track-IsConsistent id event q reg open_on = record {
    same_ids = λ k. ground (
      arith,
      c.same_ids k,
      lookup-insert k id q s.subscriptions,
      lookup-insert k id event s.subscription_events,
    );
    idle = λ h. absurd (open_on h);
    option_current = c.option_current;
    reader_current = c.reader_current;
    done_old = c.done_old;
    pending_old = c.pending_old;
    hooks_pending = c.hooks_pending;
  }

  hook_value : (h : Hook) (v : Value) → s.ws ≢ none → IsConsistent (hook_on h v s)
  unfolding hook_on
  hook_value h (str id) open_on = track-IsConsistent id h.event h.queue _ open_on
  hook_value h _ open_on = c

  run_hook-IsConsistent :
      (hook : Option Hook) (reply : Fields) → s.ws ≢ none → IsConsistent (run_hook hook reply s)
  unfolding run_hook
  run_hook-IsConsistent none reply open_on = c
  run_hook-IsConsistent (some h) reply open_on = hook_value h (field_of reply "result") open_on

-- Running a hook leaves the ids as they are.
next_id-hook_on :
    (h : Hook) (v : Value) (s : Client) → (hook_on h v s).next_id_value ≡ s.next_id_value
unfolding hook_on
next_id-hook_on h (str id) s = refl
next_id-hook_on h _ s = refl

next_id-run_hook :
    (hook : Option Hook) (reply : Fields) (s : Client)
    → (run_hook hook reply s).next_id_value ≡ s.next_id_value
unfolding run_hook
next_id-run_hook none reply s = refl
next_id-run_hook (some h) reply s = next_id-hook_on h (field_of reply "result") s

pub by_cases :
    (b : Bool) (t u : Client)
    → (b ≡ true → IsConsistent t)
    → (b ≡ false → IsConsistent u)
    → IsConsistent (if b then t else u)
by_cases true t u ht hu = ht refl
by_cases false t u ht hu = hu refl

pub open_of_current : (o : Option ℕ) (w : ℕ) → not (is_current o w) ≡ false → o ≢ none
unfolding is_current
open_of_current none w h = cc
open_of_current (some v) w h = λ e. cc

module _ {s : Client} (c : IsConsistent s) (w : ℕ) where
  set_result-IsConsistent :
      (n : ℕ) (candidate : Fields) → n < s.next_id_value → IsConsistent (set_result n candidate s)
  unfolding set_result
  set_result-IsConsistent n candidate old = futures-IsConsistent c n (replied candidate) old

module _ {s : Client} (c : IsConsistent s) (w : ℕ) where
  set_after_hook :
      (hook : Option Hook) (n : ℕ) (candidate : Fields)
      → s.ws ≢ none
      → n < s.next_id_value
      → IsConsistent (set_result n candidate (run_hook hook candidate s))
  set_after_hook hook n candidate open_on old =
      set_result-IsConsistent (run_hook-IsConsistent c hook candidate open_on) w n candidate
        (rw next_id-run_hook old)

module _ {s : Client} (c : IsConsistent s) (w : ℕ) where
  pub handle_rpc_response-IsConsistent :
      (n : ℕ) (candidate : Fields) → IsConsistent (handle_rpc_response w n candidate s)
  unfolding handle_rpc_response
  handle_rpc_response-IsConsistent n candidate =
      by_cases (not (is_current s.ws w)) _ _ (λ stale. c)
        λ current.
          by_cases (not (contains n s.pending_calls) || done (future s.futures n)) _ _
            (λ ended. unregister_call-IsConsistent c n)
            (λ waits.
              set_after_hook (unregister_call-IsConsistent c n) w (lookup n s.reply_hooks) n
                candidate (unfold unregister_call in open_of_current s.ws w current)
                (unfold unregister_call in c.pending_old n (ground arith)))

  pub handle_subscription_notification-IsConsistent :
      (id : String) (candidate : Fields)
      → IsConsistent (handle_subscription_notification w id candidate s)
  unfolding handle_subscription_notification
  handle_subscription_notification-IsConsistent id candidate =
      by_cases (not (is_current s.ws w)) _ _ (λ stale. c)
        (λ current. deliver_to (lookup id s.subscriptions))
    where
      deliver_to : (o : Option ℕ) → IsConsistent (deliver o candidate s)
      deliver_to none = c
      deliver_to (some q) = queues-IsConsistent c _

-- Every subscription with an event has its queue, so the lookup of matching queues succeeds.
pub matching-is_some :
    (collection : String) (events : Dict String String) (subs : Dict String ℕ)
    → ((id : String) → is_some (lookup id events) ≡ true → is_some (lookup id subs) ≡ true)
    → is_some (matching collection events subs) ≡ true
unfolding matching lookup
matching-is_some collection [] subs h = refl
matching-is_some collection ((id, event) ∷ events) subs h =
    ground (arith, matching-is_some collection events subs (λ k e. h k (ground arith)), h id)
