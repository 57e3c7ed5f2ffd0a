-- ===== src/Tests/Caching.antt =====
-- The cached state: outages, pools, alerts, SMB and UPS.
use aiotruenas.Value.Dict.{put}
use aiotruenas.Base.Assoc.{lookup}
use aiotruenas.Normalize.Uid.{get_uid}
use aiotruenas.State.Pool.{is_pool_list, get_pool}
use aiotruenas.State.Smb.{is_smb_denied, get_smb}
use aiotruenas.Base.{
  ℕ, zero, ◌+◌, ◌/◌, String, true, false, ◌≡◌, refl, ◌↔◌, ◌⊎◌, none, some, List, [], ◌∷◌, leb,
}
use aiotruenas.Base.Int.{pos}
use aiotruenas.Value.{
  text, no_value, Value, null, int, float, str, arr, obj, nil, cons, Fields, end, field, get,
  finite,
}
use aiotruenas.Errors.Exceptions.{ClientError, call_error, class_of, is_subclass}
use aiotruenas.Rpc.{Reply, returned, failed}
use aiotruenas.Helpers.Netdata.{Arithmetic}
use aiotruenas.Client.Options.{enabled_reply, is_rejection}
use aiotruenas.State.Cache.{
  Cache, warned, recovered, Server, Platform, refreshed, endpoint, plain_derive,
}
use aiotruenas.State.Initial.{initial}
use aiotruenas.State.Fallback.{is_failing, note_fallback_outcome, stale_endpoints, is_usable}
use aiotruenas.State.Fallback.Log.{lines_of, own, note_outcomes, lines_of-note_outcomes}
use aiotruenas.State.Fallback.Stale.{Among, IsStale, stale_endpoints-Among}
use aiotruenas.State.Entries.{unchanged, derive_service, derive_vm, note_link}
use aiotruenas.State.Endpoints.{get_service, get_vm, get_interface, get_scrub}
use aiotruenas.State.Kept.{IsKept, tracked_endpoints-unusable}
use aiotruenas.State.Recovery.{tracked_endpoints-usable}
use aiotruenas.State.Pool.Capacity.{apply_pool_capacity}
use aiotruenas.State.Pool.Capacity.Bounds.{IsCapacity, apply_pool_capacity-IsCapacity}
use aiotruenas.State.Pool.Publishing.{IsAtomic, get_pool-IsAtomic}
use aiotruenas.State.Pool.Malformed.{get_pool-malformed}
use aiotruenas.State.Alerts.{aggregate_alerts, levels_of}
use aiotruenas.State.Alerts.Totals.{counter, sum_of, level_names, sum_of-aggregate_alerts}
use aiotruenas.State.Alerts.Highest.{IsMax, highest_level-IsMax}
use aiotruenas.State.Smb.Latch.{refresh_all, get_smb-refused_forever}
use aiotruenas.State.Ups.{get_ups}
use aiotruenas.State.Ups.Stale.{IsStaleCached, get_ups-IsStaleCached}
use aiotruenas.Tests.Data.{platform}

-- Arithmetic on numbers without a fraction.
abbrev size : Value → ℕ
size (int (pos n)) = n
size (float (finite (pos n) zero)) = n
size v = 0

abbrev arithmetic : Arithmetic
arithmetic = record {
  convertible = λ n. true;
  plus = λ v w. int (pos (size v + size w));
  over = λ v n. int (pos (size v / n));
  round2 = λ v. v;
  to_float = λ v. v;
  kibibytes = λ v. v;
  at_most = λ v w. leb (size v) (size w);
  format = λ v. "value";
}

abbrev machine : Platform
machine = record {
  runtime = platform;
  arithmetic = arithmetic;
  to_int = λ v. none;
  round_quotient = λ v n. some (int (pos (size v / n)));
  format_key = λ k. "key";
  percent_used = λ available total. int (pos 0);
  memory_percent = λ total available. some (int (pos 0));
  digit = λ c. none;
  epoch_before = λ now seconds. now;
  is_far = λ epoch previous. true;
}

-- A server that answers every call in the same way.
abbrev answering : Reply → Server
answering r = record {
  call = λ method. r;
  graph = λ graph. r;
  temperatures = λ names. r;
  set_options = some r;
  now_epoch = pos 1700000000;
  now = pos 1700000000000000;
}

abbrev fresh : Cache
fresh = initial machine

abbrev outage : Cache
outage = note_fallback_outcome "vm_query" true fresh

-- A virtual machine of four gibibytes.
abbrev vm : Fields
vm =
    field (text "id") (int (pos 1))
      (field (text "memory") (int (pos 4096)) (field (text "status") (str "RUNNING") end))

abbrev machines : Value
machines = arr (cons (obj vm) nil)

lines_of-note_outcomes_example :
    lines_of "vm_query"
      (note_outcomes
        (("vm_query", true) ∷ ("alert_list", true) ∷ ("vm_query", true) ∷ ("vm_query", false) ∷ [])
        fresh).log
    ≡ recovered "vm_query" ∷ warned "vm_query" ∷ []
unfolding own is_failing lookup initial lines_of
lines_of-note_outcomes_example =
    lines_of-note_outcomes "vm_query"
      (("vm_query", true) ∷ ("alert_list", true) ∷ ("vm_query", true) ∷ ("vm_query", false) ∷ [])
      fresh

stale_endpoints-Among_example : Among "vm" (stale_endpoints outage) ↔ IsStale "vm" outage
stale_endpoints-Among_example = stale_endpoints-Among "vm" outage

tracked_endpoints-unusable_example :
    IsKept "service" derive_service fresh (get_service machine (answering (returned null)) fresh).1
    × IsKept "vm" (derive_vm machine) fresh (get_vm machine (answering (returned null)) fresh).1
    × IsKept "interface"
        (plain_derive (λ k vals. note_link vals))
        fresh
        (get_interface machine (answering (returned null)) fresh).1
    × IsKept "scrub" unchanged fresh (get_scrub machine (answering (returned null)) fresh).1
unfolding is_usable
tracked_endpoints-unusable_example =
    tracked_endpoints-unusable machine null fresh (answering (returned null)) (λ method. refl) refl

tracked_endpoints-usable_example :
    (¬ Among "service"
      (stale_endpoints (get_service machine (answering (returned machines)) outage).1))
    × (¬ Among "vm" (stale_endpoints (get_vm machine (answering (returned machines)) outage).1))
    × (¬ Among "interface"
        (stale_endpoints (get_interface machine (answering (returned machines)) outage).1))
    × (¬ Among "scrub"
        (stale_endpoints (get_scrub machine (answering (returned machines)) outage).1))
unfolding is_usable get_uid
tracked_endpoints-usable_example =
    tracked_endpoints-usable machine machines outage (answering (returned machines))
      (λ method. refl) refl

apply_pool_capacity-IsCapacity_example : IsCapacity (
    apply_pool_capacity machine none
      (field (text "free") (int (pos 3)) (field (text "allocated") (int (pos 5)) end)))
apply_pool_capacity-IsCapacity_example =
    apply_pool_capacity-IsCapacity machine none
      (field (text "free") (int (pos 3)) (field (text "allocated") (int (pos 5)) end))

get_pool-IsAtomic_example :
    IsAtomic machine
      (answering (returned machines))
      fresh
      (get_pool machine (answering (returned machines)) fresh)
get_pool-IsAtomic_example = get_pool-IsAtomic machine (answering (returned machines)) fresh

get_pool-malformed_example :
    ((get_pool machine (answering (returned null)) outage).0 ≡ refreshed)
    × ((get_pool machine (answering (returned null)) outage).1.ds ≡ outage.ds)
    × Among "pool" (stale_endpoints (get_pool machine (answering (returned null)) outage).1)
    × Among "dataset" (stale_endpoints (get_pool machine (answering (returned null)) outage).1)
unfolding is_pool_list
get_pool-malformed_example =
    get_pool-malformed machine (answering (returned null)) outage null null refl refl refl

abbrev alerts : List Fields
alerts =
    field (text "uuid") (str "a") (field (text "level") (str "CRITICAL") end)
    ∷ field (text "uuid") (str "b") (field (text "level") (int (pos 7)) end)
    ∷ []

sum_of-aggregate_alerts_example :
    (sum_of level_names (aggregate_alerts machine alerts) ≡ 2)
    × (counter "count" (aggregate_alerts machine alerts) ≡ 2)
sum_of-aggregate_alerts_example = sum_of-aggregate_alerts machine alerts

highest_level-IsMax_example :
    ((alerts ≡ []) × (get (text "highest_level") (aggregate_alerts machine alerts) ≡ some null))
    ⊎ (h : String) × (get (text "highest_level") (aggregate_alerts machine alerts) ≡ some (str h))
      × IsMax h (levels_of alerts)
highest_level-IsMax_example = highest_level-IsMax machine alerts

abbrev refusal : ClientError
refusal = call_error (str "") null (str "EACCES") null null

get_smb-refused_forever_example :
    ((get_smb (answering (failed refusal)) fresh).0 ≡ refreshed)
    × (endpoint "smb" (
          refresh_all
            (answering (returned machines) ∷ [])
            (get_smb (answering (failed refusal)) fresh).1)
        ≡ endpoint "smb" fresh)
    × Among "smb" (
        stale_endpoints (
          refresh_all
            (answering (returned machines) ∷ [])
            (get_smb (answering (failed refusal)) fresh).1))
unfolding initial is_smb_denied enabled_reply is_rejection is_subclass class_of
get_smb-refused_forever_example =
    get_smb-refused_forever (answering (failed refusal)) (answering (returned machines) ∷ []) fresh
      refusal refl refl (refl, refl)

fresh_readings : IsStaleCached fresh
unfolding initial
fresh_readings graph among = elim among [ ]

get_ups-IsStaleCached_example : IsStaleCached (get_ups machine (answering (failed refusal)) fresh).1
get_ups-IsStaleCached_example =
    get_ups-IsStaleCached machine (answering (failed refusal)) fresh fresh_readings

-- The loop of `get_vm` on a machine that it has processed once, as after an unusable response.
vm_memory :
    get (text "memory") (derive_vm machine no_value (derive_vm machine no_value vm).0).0
    ≡ some (int (pos 0))
unfolding get derive_vm put
vm_memory = refl
