-- ===== src/Client/Job.antt =====
-- `_wait_for_job`, over the answers of `core.get_jobs` to its polls.
pub mod Laws
pub mod States
use aiotruenas.Base.{ℕ, ◌+◌, String, Bool, ◌||◌, List, [], ◌∷◌, ◌==◌, leb, string_eq, if◌then◌else◌}
use aiotruenas.Base.Int.{ℤ, pos}
use Prim.Native.String.{◌++◌ as ◌<>◌}
use aiotruenas.Value.{text, Value, int, str, arr, obj, cons, Fields, end, field, truthy}
use aiotruenas.Errors.Exceptions.{ClientError, plain, malformed_response}
use aiotruenas.Errors.Classify.{member_of, build_call_error}

-- `waiting` has had no deciding answer yet. `type_error` is the exception of indexing an answer that
-- is no list of dicts.
pub data JobOutcome : Type 0 where
  waiting : JobOutcome
  returned : Value → JobOutcome
  raised : ClientError → JobOutcome
  type_error : JobOutcome

abbrev pub job_missing_retry_limit : ℕ
job_missing_retry_limit = 5

-- `_JOB_TERMINAL_STATES`
unfoldable pub is_terminal : String → Bool
unfolding string_eq
is_terminal state = state == "SUCCESS" || state == "FAILED" || state == "ABORTED"

-- `_resolve_job_result`; `format` is `str`, as an f-string applies it.
module _ (format : Value → String) (job_id : ℤ) where
  job_message : Value → String → Value
  unfolding truthy
  job_message error state =
      if truthy error
      then error
      else str ("job " <> format (int job_id) <> " ended with state " <> state)

  unfoldable pub resolve_job_result : Fields → String → JobOutcome
  unfolding string_eq member_of job_message
  resolve_job_result job state =
      if state == "SUCCESS"
      then returned (member_of (obj job) "result")
      else raised (
          build_call_error format
            (obj (field (text "message") (job_message (member_of (obj job) "error") state) end)))

  by_state : Fields → Value → JobOutcome
  unfolding resolve_job_result is_terminal
  by_state job (str state) = if is_terminal state then resolve_job_result job state else waiting
  by_state job (arr xs) = type_error
  by_state job (obj fs) = type_error
  by_state job _ = waiting

  -- A truthy answer: its first item decides, or the job still runs.
  unfoldable pub decide : Value → JobOutcome
  unfolding by_state member_of
  decide (arr (cons (obj job) rest)) = by_state job (member_of (obj job) "state")
  decide _ = type_error

  unfoldable pub missing_error : ℕ → ClientError
  missing_error attempts = plain malformed_response (
      "job "
      <> format (int job_id)
      <> " did not appear in core.get_jobs after "
      <> format (int (pos attempts))
      <> " attempts")

  abbrev pub or_poll : JobOutcome → JobOutcome → JobOutcome
  or_poll waiting later = later
  or_poll o later = o

  -- The loop: the answers to come, and `missing_count`.
  unfoldable pub poll : List Value → ℕ → JobOutcome
  unfolding missing_error
  poll [] missing = waiting
  poll (answer ∷ answers) missing =
      let found = poll answers 0 in
      let absent = poll answers (missing + 1) in
      if truthy answer
      then or_poll (decide answer) found
      else if leb job_missing_retry_limit (missing + 1)
      then raised (missing_error (missing + 1))
      else absent

-- `_wait_for_job`: a job id that is no integer is refused before any poll.
module _ (format repr_value : Value → String) where
  unfoldable pub wait_for_job : Value → List Value → JobOutcome
  wait_for_job (int n) answers = poll format n answers 0
  wait_for_job v answers =
      raised
        (plain malformed_response ("job=True expected an integer job id, got " <> repr_value v))
