-- ===== src/Client/Job/States.antt =====
-- What the answers to the polls of a job show, in terms of the job's state.
use aiotruenas.Base.{
  ℕ, ◌+◌, ◌<◌, String, true, false, ◌≡◌, ◌≢◌, ◌⊎◌, Option, none, some, refl, ap, ◌∙◌, List, [], ◌∷◌,
  arith, string_eq, inl, inr,
}
use aiotruenas.Base.Int.{ℤ}
use aiotruenas.Value.{Value, str, text, field, end, arr, obj, Items, cons, Fields, truthy}
use aiotruenas.Errors.Exceptions.{Class, ClientError, class_of}
use aiotruenas.Errors.Classify.{member_of, build_call_error}
use aiotruenas.Rpc.{Reply}
use aiotruenas.Client.Job.{
  JobOutcome, waiting, returned, raised, type_error, job_message, is_terminal, resolve_job_result,
  by_state, decide,
}
use aiotruenas.Client.Job.Laws.{goes_on, is_waiting}

-- What a poll loop returns or raises, if it has ended.
abbrev pub reply_to : JobOutcome → Option Reply
reply_to waiting = none
reply_to (returned v) = some (Reply.returned v)
reply_to (raised e) = some (Reply.failed e)
reply_to type_error = some (Reply.aborted "TypeError")

-- The answer lists a job in the state.
abbrev pub IsIn : Value → Fields → String → Type 0
IsIn answer job state =
    ((rest : Items) × (answer ≡ arr (cons (obj job) rest)))
    × (member_of (obj job) "state" ≡ str state)

abbrev pub IsRunning : Value → Type 0
IsRunning answer =
    (job : Fields) × (state : String) × IsIn answer job state
    × (state ≢ "SUCCESS")
    × (state ≢ "FAILED")
    × (state ≢ "ABORTED")

-- Answers that all show the job running, or no job, but that not five times in a row.
abbrev pub IsQuiet : List Value → ℕ → Type 0
IsQuiet [] missing = Unit
IsQuiet (answer ∷ answers) missing =
    (IsRunning answer × IsQuiet answers 0)
    ⊎ (truthy answer ≡ false) × (missing + 1 < 5) × IsQuiet answers (missing + 1)

-- An answer that shows the job ended.
abbrev pub IsFinished : Value → Type 0
IsFinished answer =
    (job : Fields) × (IsIn answer job "SUCCESS"
      ⊎ (IsIn answer job "FAILED" ⊎ IsIn answer job "ABORTED"))

-- What the caller gets for it: the job's result, or a call error.
abbrev pub IsResult : Value → Option Reply → Type 0
IsResult answer reply =
    (job : Fields) × ((IsIn answer job "SUCCESS"
        × (reply ≡ some (Reply.returned (member_of (obj job) "result"))))
      ⊎ ((IsIn answer job "FAILED" ⊎ IsIn answer job "ABORTED")
          × (e : ClientError) × (reply ≡ some (Reply.failed e))
          × (class_of e ≡ Class.call)))

module _ (format : Value → String) (job_id : ℤ) where
  decide-by_state :
      (answer : Value) (job : Fields) (state : String)
      → IsIn answer job state
      → decide format job_id answer ≡ by_state format job_id job (str state)
  unfolding decide
  decide-by_state answer job state ((rest, listed), stated) =
      ap (decide format job_id) listed ∙ ap (by_state format job_id job) stated

  truthy-IsIn :
      (answer : Value) (job : Fields) (state : String)
      → IsIn answer job state
      → truthy answer ≡ true
  unfolding truthy
  truthy-IsIn answer job state ((rest, listed), stated) = ap truthy listed

  decide-running : (answer : Value) → IsRunning answer → decide format job_id answer ≡ waiting
  unfolding by_state is_terminal
  decide-running answer (job, state, shown, other, another, third) =
      decide-by_state answer job state shown ∙ ground arith

  -- The error of a failed job.
  job_error : Fields → String → ClientError
  job_error job state = build_call_error format (
      obj (
        field (text "message") (job_message format job_id (member_of (obj job) "error") state) end))

  class_of-job_error : (job : Fields) (state : String) → class_of (job_error job state) ≡ Class.call
  unfolding class_of job_error build_call_error
  class_of-job_error job state = refl

  decide-succeeded :
      (answer : Value) (job : Fields)
      → IsIn answer job "SUCCESS"
      → decide format job_id answer ≡ returned (member_of (obj job) "result")
  unfolding by_state is_terminal resolve_job_result
  decide-succeeded answer job shown = decide-by_state answer job "SUCCESS" shown

  decide-failed :
      (answer : Value) (job : Fields)
      → IsIn answer job "FAILED"
      → decide format job_id answer ≡ raised (job_error job "FAILED")
  unfolding by_state is_terminal resolve_job_result job_error
  decide-failed answer job shown = decide-by_state answer job "FAILED" shown

  decide-aborted :
      (answer : Value) (job : Fields)
      → IsIn answer job "ABORTED"
      → decide format job_id answer ≡ raised (job_error job "ABORTED")
  unfolding by_state is_terminal resolve_job_result job_error
  decide-aborted answer job shown = decide-by_state answer job "ABORTED" shown

  pub quiet-goes_on :
      (answers : List Value) (missing : ℕ)
      → IsQuiet answers missing
      → goes_on format job_id answers missing ≡ true
  unfolding goes_on
  quiet-goes_on [] missing quiet = refl
  quiet-goes_on (answer ∷ answers) missing (inl (running, quiet)) = ground (
    arith,
    truthy-IsIn answer running.0 running.1 running.2,
    ap is_waiting (decide-running answer running),
    quiet-goes_on answers 0 quiet,
  )
  quiet-goes_on (answer ∷ answers) missing (inr (absent, below, quiet)) =
      ground (arith, quiet-goes_on answers (missing + 1) quiet)

  pub finished-truthy : (answer : Value) → IsFinished answer → truthy answer ≡ true
  finished-truthy answer (job, inl shown) = truthy-IsIn answer job "SUCCESS" shown
  finished-truthy answer (job, inr (inl shown)) = truthy-IsIn answer job "FAILED" shown
  finished-truthy answer (job, inr (inr shown)) = truthy-IsIn answer job "ABORTED" shown

  -- Such an answer decides, with this result.
  pub decide-finished :
      (answer : Value)
      → IsFinished answer
      → (is_waiting (decide format job_id answer) ≡ false)
        × IsResult answer (reply_to (decide format job_id answer))
  decide-finished answer (job, inl shown) =
      let decided = decide-succeeded answer job shown in
      (ap is_waiting decided, (job, inl (shown, ap reply_to decided)))
  decide-finished answer (job, inr (inl shown)) =
      let decided = decide-failed answer job shown in
      (
        ap is_waiting decided,
        (
          job,
          inr (
            inl shown,
            job_error job "FAILED",
            ap reply_to decided,
            class_of-job_error job "FAILED",
          ),
        ),
      )
  decide-finished answer (job, inr (inr shown)) =
      let decided = decide-aborted answer job shown in
      (
        ap is_waiting decided,
        (
          job,
          inr (
            inr shown,
            job_error job "ABORTED",
            ap reply_to decided,
            class_of-job_error job "ABORTED",
          ),
        ),
      )
