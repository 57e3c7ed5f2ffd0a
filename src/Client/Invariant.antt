-- ===== src/Client/Invariant.antt =====
-- The consistency of a client's tables, kept by every operation.
pub mod Messages
pub mod Routing
pub mod Calls
use mathlib.Core.Bool.{false≢true}
use aiotruenas.Base.{
  ℕ, ◌+◌, ◌<◌, String, Bool, true, false, not, ◌||◌, ◌≡◌, ◌≢◌, refl, ap, ◌∙◌, Option, none, some,
  List, [], ◌∷◌, arith, ◌==◌, string_eq, nat_eq, if◌then◌else◌, Bool-cases, Option-cases, inl, inr,
}
use aiotruenas.Base.Assoc.{lookup, insert, erase, lookup-insert, lookup-erase}
use aiotruenas.Value.{Value, str, Fields}
use aiotruenas.Client.Connection.Ending.{future-insert, future-fail_all}
use aiotruenas.Client.State.{
  done, future, waiting, Client, Hook, Future, init, is_current, contains, without,
}
use aiotruenas.Client.Connection.{
  detach_connection, teardown_connection, close_websocket, close_on, close, connected_on, connected,
  private_methods_reply, log_private_methods_failure, want_private_methods, option_sent,
}
use aiotruenas.Client.Messages.{
  run_hook, handle_rpc_response, handle_subscription_notification, field_of,
}
use aiotruenas.Client.Calls.{
  Begun, Waited, unregister_call, register_call, begin_call, start_on, finish_send, cancel_future,
}
use aiotruenas.Client.Subscriptions.{new_queue, untrack, forget_subscription}

abbrev pub is_some {ℓ} : {A : Type ℓ} → Option A → Bool
is_some none = false
is_some (some a) = true

pub record IsConsistent (s : Client) : Type 0 where
  -- A subscription is tracked with its queue and its event.
  pub same_ids :
      (id : String)
      → is_some (lookup id s.subscriptions) ≡ is_some (lookup id s.subscription_events)
  -- Without a connection nothing is pending and nothing is tracked.
  pub idle :
      s.ws ≡ none
      → (s.pending_calls ≡ [])
        × (s.reply_hooks ≡ [])
        × (s.subscriptions ≡ [])
        × (s.subscription_events ≡ [])
  -- The option and the reader belong to the current connection.
  pub option_current : (w : ℕ) → s.private_methods_ws ≡ some w → s.ws ≡ some w
  pub reader_current : s.reader_task ≡ s.ws
  -- A call whose wait has ended had its id given out before.
  pub done_old : (n : ℕ) → done (future s.futures n) ≡ true → n < s.next_id_value
  -- Ids in use were given out before, and a hook belongs to a pending call.
  pub pending_old : (n : ℕ) → contains n s.pending_calls ≡ true → n < s.next_id_value
  pub hooks_pending :
      (n : ℕ) → is_some (lookup n s.reply_hooks) ≡ true → contains n s.pending_calls ≡ true

pub IsConsistent-init : IsConsistent init
unfolding lookup contains future
IsConsistent-init = record {
  same_ids = λ id. refl;
  idle = λ e. (refl, refl, refl, refl);
  option_current = λ w e. cc;
  done_old = λ n h. cc;
  reader_current = refl;
  pending_old = λ n e. cc;
  hooks_pending = λ n e. cc;
}

pub contains-without :
    (n m : ℕ) (ms : List ℕ) → contains n (without m ms) ≡ (if n == m then false else contains n ms)
unfolding contains without
contains-without n m [] = ground arith
contains-without n m (k ∷ ms) = ground (arith, contains-without n m ms)

pub detach_connection-IsConsistent :
    (why : String) {s : Client} → IsConsistent s → IsConsistent (detach_connection why s)
unfolding detach_connection lookup contains
detach_connection-IsConsistent why {s} c = record {
  same_ids = λ id. refl;
  idle = λ e. (refl, refl, refl, refl);
  option_current = λ w e. cc;
  done_old = λ n h.
      ground
        (arith, future-fail_all n why s.pending_calls s.futures, c.done_old n, c.pending_old n);
  reader_current = refl;
  pending_old = λ n e. cc;
  hooks_pending = λ n e. cc;
}

module _ {s : Client} (c : IsConsistent s) where
  keep_if : (b : Bool) (t : Client) → IsConsistent t → IsConsistent (if b then t else s)
  keep_if true t h = h
  keep_if false t h = c

  pub teardown_connection-IsConsistent :
      (w : ℕ) (cause : Option String) → IsConsistent (teardown_connection w cause s)
  unfolding teardown_connection
  teardown_connection-IsConsistent w cause =
      keep_if (is_current s.ws w) _ (detach_connection-IsConsistent _ c)

  pub close_websocket-IsConsistent : (w : ℕ) (why : String) → IsConsistent (close_websocket w why s)
  unfolding close_websocket
  close_websocket-IsConsistent w why =
      keep_if (is_current s.ws w) _ (detach_connection-IsConsistent why c)

  close_on-IsConsistent : (o : Option ℕ) → IsConsistent (close_on o s)
  unfolding close_on
  close_on-IsConsistent none = c
  close_on-IsConsistent (some w) = detach_connection-IsConsistent _ c

  pub close-IsConsistent : IsConsistent (close s)
  unfolding close
  close-IsConsistent = close_on-IsConsistent s.ws

  connected_on-IsConsistent : (o : Option ℕ) (w : ℕ) → s.ws ≡ o → IsConsistent (connected_on o w s)
  unfolding connected_on
  connected_on-IsConsistent (some v) w e = c
  connected_on-IsConsistent none w e = record {
    same_ids = c.same_ids;
    idle = λ h. cc;
    option_current = λ v h. ground (arith, c.option_current v);
    done_old = c.done_old;
    reader_current = refl;
    pending_old = c.pending_old;
    hooks_pending = c.hooks_pending;
  }

  pub connected-IsConsistent : (w : ℕ) → IsConsistent (connected w s)
  unfolding connected
  connected-IsConsistent w = connected_on-IsConsistent s.ws w refl

  pub unregister_call-IsConsistent : (n : ℕ) → IsConsistent (unregister_call n s)
  unfolding unregister_call without erase
  unregister_call-IsConsistent n = record {
    same_ids = c.same_ids;
    idle = λ e.
        let (pending, hooks, subs, events) = c.idle e in
        (ap (without n) pending, ap (erase n) hooks, subs, events);
    option_current = c.option_current;
    done_old = c.done_old;
    reader_current = c.reader_current;
    pending_old = λ m h. c.pending_old m (ground (arith, contains-without m n s.pending_calls));
    hooks_pending = λ m h. ground (
      arith,
      contains-without m n s.pending_calls,
      lookup-erase m n s.reply_hooks,
      c.hooks_pending m,
    );
  }

  -- A new call, with the id that the client gives out next.
  start_on-IsConsistent :
      (w : ℕ) (serializable : Bool) (hook : Option Hook)
      → s.ws ≡ some w
      → IsConsistent (start_on w serializable hook s).1
  unfolding start_on contains
  start_on-IsConsistent w true none e = record {
    same_ids = c.same_ids;
    idle = λ h. cc;
    option_current = c.option_current;
    done_old =
        λ n h. ground (arith, c.done_old n, future-insert n s.next_id_value waiting s.futures);
    reader_current = c.reader_current;
    pending_old = λ n h. ground (arith, c.pending_old n);
    hooks_pending = λ n h. ground (arith, c.hooks_pending n);
  }
  start_on-IsConsistent w true (some k) e = record {
    same_ids = c.same_ids;
    idle = λ h. cc;
    option_current = c.option_current;
    done_old =
        λ n h. ground (arith, c.done_old n, future-insert n s.next_id_value waiting s.futures);
    reader_current = c.reader_current;
    pending_old = λ n h. ground (arith, c.pending_old n);
    hooks_pending =
        λ n h. ground (arith, c.hooks_pending n, lookup-insert n s.next_id_value k s.reply_hooks);
  }
  start_on-IsConsistent w false hook e = record {
    same_ids = c.same_ids;
    idle = λ h. cc;
    option_current = c.option_current;
    done_old = λ n h. omega (arith, c.done_old n h);
    reader_current = c.reader_current;
    pending_old = λ n h. omega (arith, c.pending_old n h);
    hooks_pending = c.hooks_pending;
  }
