-- ===== src/Client/Requests.antt =====
-- `call`: the parts of `_call_on_connection` one after the other, with what other tasks do at its
-- suspensions, and the calls that poll a job.
pub mod Unregistered
pub mod Polling
use aiotruenas.Base.{
  ℕ, ◌+◌, String, Bool, true, false, not, ◌||◌, Option, none, some, List, [], ◌∷◌, leb,
  if◌then◌else◌,
}
use Prim.Native.String.{◌++◌ as ◌<>◌}
use aiotruenas.Base.Int.{ℤ}
use aiotruenas.Value.{Value, int, truthy}
use aiotruenas.Errors.Exceptions.{ClientError, plain, malformed_response}
use aiotruenas.Rpc.{Reply}
use aiotruenas.Client.State.{Hook, Client}
use aiotruenas.Client.Calls.{
  Begun, refused, unserializable, sending, Sent, Waited, Outcome, returned, raised, stopped,
  begin_call, finish_send, end_wait, close_message, wait_outcome, unregister_call,
}
use aiotruenas.Client.Connection.{close_websocket}
use aiotruenas.Client.Job.{JobOutcome, decide, missing_error, job_missing_retry_limit}

-- What happens to one call: whether its params can be serialized, what becomes of the send and of
-- the wait, and what other tasks do during each. After a failure the call waits for the lock and for
-- the socket to close: what other tasks do meanwhile, and whether the call is cancelled there.
pub record Trip : Type 0 where
  pub serializable : Bool
  pub sent : Sent
  pub waited : Waited
  pub during_send : Client → Client
  pub during_wait : Client → Client
  pub during_lock : Client → Client
  pub lock_cancelled : Bool
  pub during_close : Client → Client
  pub close_cancelled : Bool

abbrev pub reply_of : Outcome → Reply
reply_of (returned v) = Reply.returned v
reply_of (raised e) = Reply.failed e
reply_of stopped = Reply.aborted "stopped"

-- How one poll of a job leaves the loop of `_wait_for_job`, or with which count it goes on.
pub data Round : Type 0 where
  ended : Reply → Round
  again : ℕ → Round

round_of : JobOutcome → Round
round_of JobOutcome.waiting = again 0
round_of (JobOutcome.returned v) = ended (Reply.returned v)
round_of (JobOutcome.raised e) = ended (Reply.failed e)
round_of JobOutcome.type_error = ended (Reply.aborted "TypeError")

abbrev next_round : Round → (ℕ → Option Reply × Client) → Client → Option Reply × Client
next_round (ended reply) go_on s = (some reply, s)
next_round (again count) go_on s = go_on count

-- `_close_failed_call_connection`, if there is a message to close the connection with. Cancelled
-- while it waits for the lock, it detaches the connection all the same, and the socket is not
-- closed in order.
unfoldable pub close_failed : ℕ → Option String → Trip → Client → Client
unfolding close_websocket
close_failed w none t s = s
close_failed w (some why) t s =
    let detached = close_websocket w why (t.during_lock s) in
    if t.lock_cancelled then detached else t.during_close detached

abbrev pub close_outcome : Option String → Trip → Outcome → Outcome
close_outcome none t outcome = outcome
close_outcome (some why) t outcome =
    if t.lock_cancelled || t.close_cancelled then stopped else outcome

-- After a failed send: the socket is closed under the lock that the call holds.
abbrev pub after_send : Trip → Outcome → Client → Outcome × Client
after_send t stopped s = (stopped, s)
after_send t outcome s = (if t.close_cancelled then stopped else outcome, t.during_close s)

module _ (repr : String → String) (format : Value → String) where
  -- From the end of the wait on. Every exit unregisters the call.
  unfoldable pub finish_call : String → ℕ → ℕ → Trip → Client → Outcome × Client
  unfolding end_wait close_failed wait_outcome unregister_call
  finish_call method w n t s =
      let message = close_message repr method t.waited in
      (
        close_outcome message t (wait_outcome repr format method t.waited),
        unregister_call n (close_failed w message t (end_wait n t.waited s)),
      )

  -- The wait, unless the send has ended the call.
  wait_on : String → ℕ → ℕ → Trip → Option Outcome × Client → Reply × Client
  unfolding finish_call
  wait_on method w n t (some outcome, s) =
      let (last, s') = after_send t outcome s in (reply_of last, s')
  wait_on method w n t (none, s) =
      let (outcome, s') = finish_call method w n t (t.during_wait s) in (reply_of outcome, s')

  send_on : String → Trip → Begun × Client → Reply × Client
  unfolding wait_on finish_send
  send_on method t (refused e, s) = (Reply.failed e, s)
  send_on method t (unserializable, s) = (Reply.aborted "params are not serializable", s)
  send_on method t (sending w n, s) =
      wait_on method w n t (finish_send w n t.sent (t.during_send s))

  -- `_call_on_connection`
  unfoldable pub call_on_connection :
      String → Option ℕ → Option Hook → Trip → Client → Reply × Client
  unfolding send_on begin_call
  call_on_connection method expected hook t s =
      send_on method t (begin_call repr method expected t.serializable hook s)

  unfoldable pub poll_round : ℤ → ℕ → Reply → Round
  unfolding round_of truthy decide missing_error
  poll_round job_id missing (Reply.returned answer) =
      if truthy answer
      then round_of (decide format job_id answer)
      else if leb job_missing_retry_limit (missing + 1)
      then ended (Reply.failed (missing_error format job_id (missing + 1)))
      else again (missing + 1)
  poll_round job_id missing reply = ended reply

  -- The loop of `_wait_for_job`, over what happens to its calls; none if it still polls.
  unfoldable pub poll_calls : ℤ → List Trip → ℕ → Client → Option Reply × Client
  unfolding poll_round call_on_connection
  poll_calls job_id [] missing s = (none, s)
  poll_calls job_id (t ∷ trips) missing s =
      let (reply, s') = call_on_connection "core.get_jobs" none none t s in
      next_round (poll_round job_id missing reply) (λ count. poll_calls job_id trips count s') s'

  -- `repr_value` is `repr` of a value.
  module _ (repr_value : Value → String) where
    with_job : List Trip → Reply × Client → Option Reply × Client
    unfolding poll_calls
    with_job trips (Reply.returned (int job_id), s) = poll_calls job_id trips 0 s
    with_job trips (Reply.returned v, s) = (
      some (
          Reply.failed (
            plain malformed_response
              ("job=True expected an integer job id, got " <> repr_value v))),
      s,
    )
    with_job trips (reply, s) = (some reply, s)

    -- `call`, over what happens to its request and to the calls that poll its job.
    unfoldable pub call : String → Bool → Trip → List Trip → Client → Option Reply × Client
    unfolding with_job call_on_connection
    call method true t trips s = with_job trips (call_on_connection method none none t s)
    call method false t trips s =
        let (reply, s') = call_on_connection method none none t s in (some reply, s')
