-- ===== src/Specs/Storage.antt =====
-- The tables of domain/_specs.py for pools, datasets, disks and scrub tasks.
use aiotruenas.Base.{false, List, [], ◌∷◌}
use aiotruenas.Base.Int.{pos}
use aiotruenas.Value.{null, bool, int, float, finite, str}
use aiotruenas.Normalize.Spec.{ApiValueSpec}
use aiotruenas.Specs.Shape.{plain, plain_from, flag, flag_from, converted}

-- `_POOL_VALS`
abbrev pub pool_vals : List ApiValueSpec
pool_vals =
    plain "guid" (int (pos 0))
    ∷ plain "id" (int (pos 0))
    ∷ plain "name" (str "unknown")
    ∷ plain "path" (str "unknown")
    ∷ plain "status" (str "unknown")
    ∷ flag "healthy" (bool false)
    ∷ flag "is_decrypted" (bool false)
    ∷ plain "size" null
    ∷ plain "allocated" null
    ∷ plain "free" null
    ∷ plain "fragmentation" (int (pos 0))
    ∷ flag_from "autotrim" "autotrim/parsed" (bool false)
    ∷ plain_from "scan_function" "scan/function" (str "unknown")
    ∷ plain_from "scrub_state" "scan/state" (str "unknown")
    ∷ converted "utc_from_timestamp" "scrub_start" "scan/start_time/$date" (int (pos 0))
    ∷ converted "utc_from_timestamp" "scrub_end" "scan/end_time/$date" (int (pos 0))
    ∷ converted "utc_from_timestamp" "scrub_pause" "scan/pause/$date" (int (pos 0))
    ∷ plain_from "scrub_percentage" "scan/percentage" (int (pos 0))
    ∷ plain_from "scrub_secs_left" "scan/total_secs_left" (int (pos 0))
    ∷ []

-- `_POOL_ENSURE_VALS`
abbrev pub pool_ensure_vals : List ApiValueSpec
pool_ensure_vals =
    plain "available" (float (finite (pos 0) 0))
    ∷ plain "total" (float (finite (pos 0) 0))
    ∷ plain "usage" (float (finite (pos 0) 0))
    ∷ plain "errors" (int (pos 0))
    ∷ plain "read_errors" (int (pos 0))
    ∷ plain "write_errors" (int (pos 0))
    ∷ plain "checksum_errors" (int (pos 0))
    ∷ []

-- `_DATASET_VALS`
abbrev pub dataset_vals : List ApiValueSpec
dataset_vals =
    plain "id" (str "unknown")
    ∷ plain "type" (str "unknown")
    ∷ plain "name" (str "unknown")
    ∷ plain "pool" (str "unknown")
    ∷ plain "mountpoint" (str "unknown")
    ∷ plain_from "comments" "comments/parsed" (str "")
    ∷ flag_from "deduplication" "deduplication/parsed" (bool false)
    ∷ flag_from "atime" "atime/parsed" (bool false)
    ∷ plain_from "casesensitivity" "casesensitivity/parsed" (str "unknown")
    ∷ plain_from "checksum" "checksum/parsed" (str "unknown")
    ∷ flag_from "exec" "exec/parsed" (bool false)
    ∷ plain_from "sync" "sync/parsed" (str "unknown")
    ∷ plain_from "compression" "compression/parsed" (str "unknown")
    ∷ plain_from "compressratio" "compressratio/parsed" (str "unknown")
    ∷ plain_from "quota" "quota/parsed" (str "unknown")
    ∷ plain_from "copies" "copies/parsed" (int (pos 0))
    ∷ flag_from "readonly" "readonly/parsed" (bool false)
    ∷ plain_from "recordsize" "recordsize/parsed" (int (pos 0))
    ∷ plain_from "encryption_algorithm" "encryption_algorithm/parsed" (str "unknown")
    ∷ plain_from "encryption_key_format" "key_format/parsed" (str "unknown")
    ∷ flag "encrypted" (bool false)
    ∷ flag "locked" (bool false)
    ∷ plain_from "used" "used/parsed" null
    ∷ plain_from "available" "available/parsed" null
    ∷ []

-- `_DISK_VALS`
abbrev pub disk_vals : List ApiValueSpec
disk_vals =
    plain "name" (str "unknown")
    ∷ plain "devname" (str "unknown")
    ∷ plain "serial" (str "unknown")
    ∷ plain "size" (str "unknown")
    ∷ plain "hddstandby" (str "unknown")
    ∷ flag "hddstandby_force" (bool false)
    ∷ plain "advpowermgmt" (str "unknown")
    ∷ plain "acousticlevel" (str "unknown")
    ∷ plain "model" (str "unknown")
    ∷ plain "rotationrate" (str "unknown")
    ∷ plain "type" (str "unknown")
    ∷ plain "zfs_guid" (str "unknown")
    ∷ plain "identifier" (str "unknown")
    ∷ []

-- `_DISK_ENSURE_VALS`
abbrev pub disk_ensure_vals : List ApiValueSpec
disk_ensure_vals = plain "temperature" null ∷ []

-- `_SCRUB_VALS`
abbrev pub scrub_vals : List ApiValueSpec
scrub_vals = plain "id" null ∷ plain "pool_name" (str "") ∷ flag "enabled" (bool false) ∷ []
