-- ===== src/Client/Connection.antt =====
-- The life of a connection: `connect` once it is logged in, the reader's teardown, `close`, and the
-- close of a connection on which a call failed.
pub mod Ending
use aiotruenas.Base.{
  ℕ, String, Bool, true, false, not, ◌&&◌, Option, none, some, List, [], ◌∷◌, nat_eq, if◌then◌else◌,
}
use aiotruenas.Base.Assoc.{Dict, lookup, insert}
use aiotruenas.Value.{text, Value, bool, obj, Fields, truthy, get}
use aiotruenas.Value.Dict.{has}
use aiotruenas.Errors.Exceptions.{ClientError, plain, closed, disconnect, authentication}
use aiotruenas.Errors.Classify.{member_of, build_call_error}
use aiotruenas.Client.State.{
  Future, failed, Envelope, terminator, Client, future, done, enqueue, is_current,
}

-- The loop of `_detach_connection_locked` over the pending futures.
unfoldable pub fail_all : String → List ℕ → Dict ℕ Future → Dict ℕ Future
unfolding future
fail_all why [] fs = fs
fail_all why (n ∷ ns) fs =
    fail_all why ns
      (if done (future fs n) then fs else insert n (failed (closed why disconnect)) fs)

-- Its loop over the subscription queues.
unfoldable pub end_all : Dict String ℕ → Dict ℕ (List Envelope) → Dict ℕ (List Envelope)
unfolding enqueue
end_all [] qs = qs
end_all ((sub_id, q) ∷ subs) qs = end_all subs (enqueue q terminator qs)

-- `_detach_connection_locked`
unfoldable pub detach_connection : String → Client → Client
detach_connection why s = record s {
  ws = none;
  private_methods_ws = none;
  reader_task = none;
  futures = fail_all why s.pending_calls s.futures;
  pending_calls = [];
  reply_hooks = [];
  queues = end_all s.subscriptions s.queues;
  subscriptions = [];
  subscription_events = [];
}

-- `_teardown_connection`, with `str(cause)`
unfoldable pub teardown_connection : ℕ → Option String → Client → Client
teardown_connection w cause s =
    if is_current s.ws w
    then detach_connection (elim cause [ none ↦ "connection lost" | some why ↦ why ]) s
    else s

-- `_close_websocket_locked`, and what `_close_failed_call_connection` does when it is cancelled.
unfoldable pub close_websocket : ℕ → String → Client → Client
close_websocket w why s = if is_current s.ws w then detach_connection why s else s

unfoldable pub close_on : Option ℕ → Client → Client
close_on none s = s
close_on (some w) s = detach_connection "connection closed by the client" s

-- `close`, up to the wait for the reader.
unfoldable pub close : Client → Client
unfolding close_on
close s = close_on s.ws s

unfoldable pub connected_on : Option ℕ → ℕ → Client → Client
connected_on (some v) w s = s
connected_on none w s = record s {
  ws = some w;
  private_methods_ws = if s.private_methods then some w else s.private_methods_ws;
  reader_task = some w;
}

-- The end of `connect`, for a connection that was opened and logged in under the lock.
unfoldable pub connected : ℕ → Client → Client
unfolding connected_on
connected w s = connected_on s.ws w s

abbrev is_true : Value → Bool
is_true (bool true) = true
is_true _ = false

-- `_login` on its response: the error to raise, if any.
unfoldable pub login_error : (Value → String) → Fields → Option ClientError
unfolding member_of truthy
login_error format response =
    let error = member_of (obj response) "error" in
    if truthy error
    then some (build_call_error format error)
    else if is_true (member_of (obj response) "result")
    then none
    else some (plain authentication "TrueNAS rejected the API key")

-- `_send_private_methods_option` on its response, and `enable_private_methods` on a rejected call:
-- a failure is logged as a warning once.
unfoldable pub log_private_methods_failure : Client → Client
log_private_methods_failure s = record s { private_methods_warned = true }

unfoldable pub private_methods_reply : Fields → Client → Client
unfolding member_of truthy has
private_methods_reply response s =
    if truthy (member_of (obj response) "error")
    then log_private_methods_failure s
    else if has (text "result") response
    then s
    else log_private_methods_failure s

-- The first line of `enable_private_methods`.
unfoldable pub want_private_methods : Client → Client
want_private_methods s = record s { private_methods = true }

-- Its test under the lock: the connection to send the option on, if it was not sent there yet.
unfoldable pub option_target : Client → Option ℕ
option_target s = elim s.ws [
  | none ↦ none
  | some w ↦ if is_current s.private_methods_ws w then none else some w
]

-- Its end, after the option was sent on `w`.
unfoldable pub option_sent : ℕ → Client → Client
option_sent w s = if is_current s.ws w then record s { private_methods_ws = some w } else s
