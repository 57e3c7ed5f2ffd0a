-- ===== src/Specs/Tasks.antt =====
-- The tables of domain/_specs.py for jobs and the tasks that run them.
use aiotruenas.Base.{false, List, [], ◌∷◌, ◌++◌}
use aiotruenas.Base.Int.{pos}
use aiotruenas.Value.{bool, int, str, obj, end}
use aiotruenas.Normalize.Spec.{ApiValueSpec}
use aiotruenas.Specs.Shape.{plain, plain_from, flag, converted}

-- `_JOB_PROGRESS_VALS`
abbrev pub job_progress_vals : List ApiValueSpec
job_progress_vals =
    converted "utc_from_timestamp" "time_started" "job/time_started/$date" (int (pos 0))
    ∷ converted "utc_from_timestamp" "time_finished" "job/time_finished/$date" (int (pos 0))
    ∷ plain_from "job_percent" "job/progress/percent" (int (pos 0))
    ∷ plain_from "job_description" "job/progress/description" (str "unknown")
    ∷ []

-- `_JOB_STATUS_VALS`
abbrev pub job_status_vals : List ApiValueSpec
job_status_vals = (plain_from "state" "job/state" (str "unknown") ∷ []) ++ job_progress_vals

-- `_CLOUDSYNC_VALS`
abbrev pub cloudsync_vals : List ApiValueSpec
cloudsync_vals =
    (plain "id" (str "unknown")
      ∷ plain "description" (str "unknown")
      ∷ plain "direction" (str "unknown")
      ∷ plain "path" (str "unknown")
      ∷ flag "enabled" (bool false)
      ∷ plain "transfer_mode" (str "unknown")
      ∷ flag "snapshot" (bool false)
      ∷ [])
    ++ job_status_vals

-- `_REPLICATION_VALS`
abbrev pub replication_vals : List ApiValueSpec
replication_vals =
    (plain "id" (int (pos 0))
      ∷ plain "name" (str "unknown")
      ∷ plain "source_datasets" (str "unknown")
      ∷ plain "target_dataset" (str "unknown")
      ∷ flag "recursive" (bool false)
      ∷ flag "enabled" (bool false)
      ∷ plain "direction" (str "unknown")
      ∷ plain "transport" (str "unknown")
      ∷ flag "auto" (bool false)
      ∷ plain "retention_policy" (str "unknown")
      ∷ plain_from "state" "state/state" (str "unknown")
      ∷ plain_from "job_state" "job/state" (str "unknown")
      ∷ [])
    ++ job_progress_vals

-- `_RSYNC_VALS`
abbrev pub rsync_vals : List ApiValueSpec
rsync_vals =
    (plain "id" (int (pos 0))
      ∷ plain "path" (str "unknown")
      ∷ plain "desc" (str "unknown")
      ∷ plain "remotehost" (str "unknown")
      ∷ plain "remotemodule" (str "unknown")
      ∷ plain "direction" (str "unknown")
      ∷ plain "mode" (str "unknown")
      ∷ flag "enabled" (bool false)
      ∷ [])
    ++ job_status_vals

-- `_SNAPSHOTTASK_VALS`
abbrev pub snapshottask_vals : List ApiValueSpec
snapshottask_vals =
    plain "id" (int (pos 0))
    ∷ plain "dataset" (str "unknown")
    ∷ flag "recursive" (bool false)
    ∷ plain "lifetime_value" (int (pos 0))
    ∷ plain "lifetime_unit" (str "unknown")
    ∷ flag "enabled" (bool false)
    ∷ plain "naming_schema" (str "unknown")
    ∷ flag "allow_empty" (bool false)
    ∷ flag "vmware_sync" (bool false)
    ∷ plain "schedule" (obj end)
    ∷ plain_from "state" "state/state" (str "unknown")
    ∷ converted "utc_from_timestamp" "datetime" "state/datetime/$date" (int (pos 0))
    ∷ []

-- `_CRONJOB_VALS`
abbrev pub cronjob_vals : List ApiValueSpec
cronjob_vals =
    plain "id" (int (pos 0))
    ∷ flag "enabled" (bool false)
    ∷ plain "command" (str "")
    ∷ plain "description" (str "")
    ∷ plain "user" (str "unknown")
    ∷ plain "schedule" (obj end)
    ∷ flag "stdout" (bool false)
    ∷ flag "stderr" (bool false)
    ∷ []

-- `_CRONJOB_ENSURE_VALS`
abbrev pub cronjob_ensure_vals : List ApiValueSpec
cronjob_ensure_vals = plain "display_name" (str "") ∷ []
