-- ===== src/Client/Job/Laws.antt =====
-- When the wait for a job ends, and with what.
use aiotruenas.Base.{
  ℕ, ◌+◌, String, Bool, true, false, not, ◌&&◌, ◌≡◌, refl, List, [], ◌∷◌, ◌++◌, arith, leb,
  if◌then◌else◌, Bool-cases, inl, inr,
}
use aiotruenas.Base.Int.{ℤ}
use aiotruenas.Value.{Value, truthy}
use aiotruenas.Client.Job.{
  JobOutcome, waiting, returned, raised, type_error, job_missing_retry_limit, decide, or_poll, poll,
}

abbrev pub is_waiting : JobOutcome → Bool
is_waiting waiting = true
is_waiting o = false

module _ (format : Value → String) (job_id : ℤ) where
  -- Answers that let the loop go on after `missing` answers without the job: no answer decides, and
  -- the job is never missing as often in a row as the limit.
  unfoldable pub goes_on : List Value → ℕ → Bool
  goes_on [] missing = true
  goes_on (answer ∷ answers) missing =
      let found = goes_on answers 0 in
      let absent = goes_on answers (missing + 1) in
      if truthy answer
      then is_waiting (decide format job_id answer) && found
      else not (leb job_missing_retry_limit (missing + 1)) && absent

  or_poll-waiting :
      (o later : JobOutcome) → is_waiting o ≡ true → or_poll format job_id o later ≡ later
  or_poll-waiting waiting later h = refl
  or_poll-waiting (returned v) later h = cc
  or_poll-waiting (raised e) later h = cc
  or_poll-waiting type_error later h = cc

  or_poll-decided :
      (o later : JobOutcome) → is_waiting o ≡ false → or_poll format job_id o later ≡ o
  or_poll-decided waiting later h = cc
  or_poll-decided (returned v) later h = refl
  or_poll-decided (raised e) later h = refl
  or_poll-decided type_error later h = refl

  -- After answers that let the loop go on, the first answer with the job in a terminal state, or of
  -- the wrong shape, ends the wait with its outcome, whatever would follow.
  pub poll-decided :
      (answers : List Value) (missing : ℕ) (answer : Value) (rest : List Value)
      → goes_on answers missing ≡ true
      → truthy answer ≡ true
      → is_waiting (decide format job_id answer) ≡ false
      → poll format job_id (answers ++ answer ∷ rest) missing ≡ decide format job_id answer
  unfolding poll goes_on
  poll-decided [] missing answer rest quiet present decided =
      ground (arith, or_poll-decided (decide format job_id answer) (poll format job_id rest 0))
  poll-decided (a ∷ answers) missing answer rest quiet present decided =
      elim (Bool-cases (truthy a)) [
        | inl found ↦ ground (
          arith,
          or_poll-waiting (decide format job_id a)
              (poll format job_id (answers ++ answer ∷ rest) 0),
          poll-decided answers 0 answer rest,
        )
        | inr lost ↦ ground (arith, poll-decided answers (missing + 1) answer rest)
      ]
