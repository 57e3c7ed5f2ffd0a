-- ===== src/Client/Requests/Polling.antt =====
-- The calls that poll a job: the loop over their answers, and how it ends.
use aiotruenas.Base.{
  ℕ, ◌+◌, String, ◌≡◌, refl, ap, ◌∙◌, Option, none, List, [], ◌∷◌, ◌++◌, leb, if◌then◌else◌,
  Bool-cases, inl, inr,
}
use aiotruenas.Base.Int.{ℤ}
use aiotruenas.Value.{Value, truthy}
use aiotruenas.Rpc.{Reply}
use aiotruenas.Client.State.{Client}
use aiotruenas.Client.Job.{
  JobOutcome, waiting, returned, raised, type_error, decide, or_poll, poll, missing_error,
  job_missing_retry_limit,
}
use mathlib.Core.Path.{subst, sym}
use aiotruenas.Client.Job.Laws.{poll-decided}
use aiotruenas.Client.Job.States.{
  reply_to, IsQuiet, IsFinished, IsResult, quiet-goes_on, finished-truthy, decide-finished,
}
use aiotruenas.Client.Requests.{
  Trip, round_of, next_round, poll_round, call_on_connection, poll_calls,
}

module _ (repr : String → String) (format : Value → String) (job_id : ℤ) where
  -- The calls, made one after the other, return these answers.
  abbrev pub Answers : List Trip → List Value → Client → Type 0
  Answers (t ∷ trips) (answer ∷ answers) s =
      ((call_on_connection repr format "core.get_jobs" none none t s).0 ≡ Reply.returned answer)
      × Answers trips answers (call_on_connection repr format "core.get_jobs" none none t s).1
  Answers [] [] s = Unit
  Answers trips answers s = ⊥

  next_round-round_of :
      (o later : JobOutcome) (go_on : ℕ → Option Reply × Client) (s : Client)
      → (go_on 0).0 ≡ reply_to later
      → (next_round (round_of o) go_on s).0 ≡ reply_to (or_poll format job_id o later)
  unfolding round_of
  next_round-round_of waiting later go_on s h = h
  next_round-round_of (returned v) later go_on s h = refl
  next_round-round_of (raised e) later go_on s h = refl
  next_round-round_of type_error later go_on s h = refl

  -- One answer.
  answered_round :
      (answer : Value) (missing : ℕ) (found absent : JobOutcome) (go_on : ℕ → Option Reply × Client)
      (s : Client)
      → (go_on 0).0 ≡ reply_to found
      → (go_on (missing + 1)).0 ≡ reply_to absent
      → (next_round (poll_round repr format job_id missing (Reply.returned answer)) go_on s).0
        ≡ reply_to (
            if truthy answer
            then or_poll format job_id (decide format job_id answer) found
            else if leb job_missing_retry_limit (missing + 1)
            then raised (missing_error format job_id (missing + 1))
            else absent)
  unfolding poll_round
  answered_round answer missing found absent go_on s h k = elim (Bool-cases (truthy answer)) [
    | inl there ↦ rw there (next_round-round_of (decide format job_id answer) found go_on s h)
    | inr none_found ↦
        rw none_found (elim (Bool-cases (leb job_missing_retry_limit (missing + 1))) [
          | inl limit ↦ rw limit
          | inr below ↦ rw below k
        ])
  ]

  -- The loop over the calls is `poll` over their answers, whatever other tasks do meanwhile.
  poll_calls-poll :
      (trips : List Trip) (answers : List Value) (missing : ℕ) (s : Client)
      → Answers trips answers s
      → (poll_calls repr format job_id trips missing s).0
        ≡ reply_to (poll format job_id answers missing)
  unfolding poll_calls poll
  poll_calls-poll [] [] missing s all = refl
  poll_calls-poll [] (answer ∷ answers) missing s all = elim all [ ]
  poll_calls-poll (t ∷ trips) [] missing s all = elim all [ ]
  poll_calls-poll (t ∷ trips) (answer ∷ answers) missing s (first, all) =
      let s' = (call_on_connection repr format "core.get_jobs" none none t s).1 in
      ap
        (λ reply.
          (next_round (poll_round repr format job_id missing reply)
            (λ count. poll_calls repr format job_id trips count s') s').0)
        first
      ∙ answered_round answer missing (poll format job_id answers 0)
          (poll format job_id answers (missing + 1))
          (λ count. poll_calls repr format job_id trips count s') s'
          (poll_calls-poll trips answers 0 s' all)
          (poll_calls-poll trips answers (missing + 1) s' all)

  -- If the calls that poll a job return answers that all show it running or not at all, but not at
  -- all less than five times in a row, and then one that shows it in a terminal state, the loop
  -- ends: with the result of a job that succeeded, or a call error for one that failed or was
  -- aborted; whatever other tasks do meanwhile.
  pub poll_calls-ends :
      (trips : List Trip) (answers : List Value) (last : Value) (s : Client)
      → Answers trips (answers ++ last ∷ []) s
      → IsQuiet answers 0
      → IsFinished last
      → IsResult last (poll_calls repr format job_id trips 0 s).0
  poll_calls-ends trips answers last s all quiet finished =
      let (decided, result) = decide-finished format job_id last finished in
      subst (IsResult last)
        (sym (
          poll_calls-poll trips (answers ++ last ∷ []) 0 s all
          ∙ ap reply_to (
              poll-decided format job_id answers 0 last []
                (quiet-goes_on format job_id answers 0 quiet)
                (finished-truthy format job_id last finished) decided)))
        result
