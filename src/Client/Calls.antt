-- ===== src/Client/Calls.antt =====
-- A call: the parts of `_call_on_connection` between its suspensions, and `_unregister_call`.
use aiotruenas.Base.{ℕ, String, Bool, false, not, Option, none, some, ◌∷◌, nat_eq, if◌then◌else◌}
use Prim.Native.String.{◌++◌ as ◌<>◌}
use aiotruenas.Base.Assoc.{insert, erase}
use aiotruenas.Value.{text, Value, obj, Fields, truthy, get}
use aiotruenas.Errors.Exceptions.{
  ClientError, plain, closed, connection, malformed_response, call_timeout, Phase,
}
use aiotruenas.Errors.Classify.{member_of, build_call_error}
use aiotruenas.Client.State.{
  next_id, waiting, cancelled, Hook, Client, future, done, is_current, without,
}
use aiotruenas.Client.Connection.{close_websocket}

-- `_unregister_call`
unfoldable pub unregister_call : ℕ → Client → Client
unfolding nat_eq
unregister_call n s = record s {
  pending_calls = without n s.pending_calls;
  reply_hooks = erase n s.reply_hooks;
}

-- The call before its message is sent: refused, with params that `json.dumps` refuses, or on its way
-- on a connection under an id.
pub data Begun : Type 0 where
  refused : ClientError → Begun
  unserializable : Begun
  sending : ℕ → ℕ → Begun

-- What became of `ws.send`: an error of the connection is one that the code catches; `aborted` is a
-- cancellation or any other exception.
pub data Sent : Type 0 where
  sent : Sent
  send_failed : String → Sent
  aborted : Sent

-- How the wait for the future ended. `lost` is an OSError or the like; `failed_with` is the
-- future's own error.
pub data Waited : Type 0 where
  answered : Fields → Waited
  timed_out : Waited
  lost : String → Waited
  failed_with : ClientError → Waited
  interrupted : Waited

-- What a call returns, raises or passes on of its caller's cancellation.
pub data Outcome : Type 0 where
  returned : Value → Outcome
  raised : ClientError → Outcome
  stopped : Outcome

-- `expected_ws is not None and ws is not expected_ws`
abbrev pub other_connection : Option ℕ → Option ℕ → Bool
other_connection none w = false
other_connection (some expected) w = not (is_current w expected)

unfoldable pub register_call : Option Hook → ℕ → Client → Client
unfolding nat_eq
register_call hook n s = record s {
  pending_calls = n ∷ s.pending_calls;
  futures = insert n waiting s.futures;
  reply_hooks = elim hook [ none ↦ s.reply_hooks | some h ↦ insert n h s.reply_hooks ];
}

unfoldable pub start_on : ℕ → Bool → Option Hook → Client → Begun × Client
unfolding register_call next_id
start_on w serializable hook s =
    let (n, numbered) = next_id s in
    if serializable
    then (sending w n, register_call hook n numbered)
    else (unserializable, numbered)

-- After the send, still under the lock, up to the close of the socket after a failed one; `none`
-- goes on to wait for the reply.
unfoldable pub finish_send : ℕ → ℕ → Sent → Client → Option Outcome × Client
finish_send w n sent s = (none, s)
finish_send w n (send_failed why) s =
    (some (raised (closed why Phase.call)), close_websocket w why (unregister_call n s))
finish_send w n aborted s = (some stopped, unregister_call n s)

-- A wait that is cancelled, or timed out, cancels the future.
unfoldable pub cancel_future : ℕ → Client → Client
unfolding nat_eq future
cancel_future n s =
    if done (future s.futures n) then s else record s { futures = insert n cancelled s.futures }

unfoldable pub end_wait : ℕ → Waited → Client → Client
unfolding cancel_future
end_wait n timed_out s = cancel_future n s
end_wait n interrupted s = cancel_future n s
end_wait n _ s = s

unfoldable pub start_call : Option ℕ → Bool → Option Hook → Client → Begun × Client
start_call none serializable hook s =
    (refused (plain connection "not connected; call connect() first"), s)
start_call (some w) serializable hook s = start_on w serializable hook s

-- `repr` is Python's, of a method name, and `format` is `str`.
module _ (repr : String → String) where
  -- The message with which the connection is to be closed after the wait, if it is.
  abbrev pub close_message : String → Waited → Option String
  close_message method timed_out = some ("connection closed after " <> repr method <> " timed out")
  close_message method (lost why) = some why
  close_message method _ = none

  -- Up to the send, under the lock.
  unfoldable pub begin_call : String → Option ℕ → Bool → Option Hook → Client → Begun × Client
  begin_call method expected serializable hook s =
      if other_connection expected s.ws
      then (
        refused (closed ("connection closed before " <> repr method <> " was sent") Phase.call),
        s,
      )
      else start_call s.ws serializable hook s

module _ (repr : String → String) (format : Value → String) where
  -- The result of a reply.
  unfoldable pub reply_outcome : String → Fields → Outcome
  unfolding member_of truthy get
  reply_outcome method response =
      let error = member_of (obj response) "error" in
      if truthy error
      then raised (build_call_error format error)
      else elim (get (text "result") response) [
        | none ↦
            raised (plain malformed_response ("response for " <> repr method <> " has no result"))
        | some result ↦ returned result
      ]

  -- What the wait leads to, unless a cancellation comes while the connection is closed.
  unfoldable pub wait_outcome : String → Waited → Outcome
  unfolding reply_outcome
  wait_outcome method (answered response) = reply_outcome method response
  wait_outcome method timed_out =
      raised (plain call_timeout ("timed out while waiting for response to " <> repr method))
  wait_outcome method (lost why) = raised (closed why Phase.call)
  wait_outcome method (failed_with e) = raised e
  wait_outcome method interrupted = stopped
