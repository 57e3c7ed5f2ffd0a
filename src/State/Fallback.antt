-- ===== src/State/Fallback.antt =====
-- Which endpoints serve a cached value: the tracking of failing paths and their log lines.
pub mod Log
pub mod Stale
use aiotruenas.Base.{
  String, Bool, true, false, not, ◌&&◌, ◌||◌, Option, none, some, List, [], ◌∷◌, ◌==◌, string_eq,
  if◌then◌else◌,
}
use aiotruenas.Base.Assoc.{Dict, lookup, insert, erase}
use aiotruenas.Value.{Value, arr, obj, Items, nil, cons}
use aiotruenas.Normalize.Uid.{get_uid, nonempty}
use aiotruenas.State.Cache.{Note, warned, recovered, Cache}

abbrev true_or_false : Option Bool → Bool
true_or_false none = false
true_or_false (some b) = b

-- `self._fallback_failing.get(key, False)`
unfoldable pub is_failing : String → Cache → Bool
unfolding string_eq
is_failing key s = true_or_false (lookup key s.fallback_failing)

-- `self._fallback_failing.pop(key, None)`
unfoldable pub clear : String → Cache → Cache
unfolding string_eq
clear key s = record s { fallback_failing = erase key s.fallback_failing }

-- `self._fallback_failing[key] = True`
unfoldable pub flag_failing : String → Cache → Cache
unfolding string_eq
flag_failing key s = record s { fallback_failing = insert key true s.fallback_failing }

abbrev log_if : Bool → Note → Cache → Cache
log_if b note s = if b then record s { log = note ∷ s.log } else s

-- `_note_fallback_outcome`, of a failure and of a success.
unfoldable pub note_failed : String → Cache → Cache
unfolding is_failing flag_failing
note_failed key s =
    if is_failing key s then s else record (flag_failing key s) { log = warned key ∷ s.log }

unfoldable pub note_recovered : String → Cache → Cache
unfolding is_failing clear
note_recovered key s = log_if (is_failing key s) (recovered key) (clear key s)

unfoldable pub note_fallback_outcome : String → Bool → Cache → Cache
note_fallback_outcome key failed s = if failed then note_failed key s else note_recovered key s

-- `get_uid(entry, id_field, None, None, None) is not None`
unfoldable pub has_id : String → Value → Bool
has_id id_field entry = elim (get_uid entry (some id_field) none none []) [
  | none ↦ false
  | some uid ↦ true
]

unfoldable pub any_id : String → Items → Bool
unfolding has_id
any_id id_field nil = false
any_id id_field (cons entry rest) = has_id id_field entry || any_id id_field rest

-- The test of `_note_primary_query_outcome`: what `parse_api` does not take for a failed query.
unfoldable pub is_usable : String → Value → Bool
unfolding any_id
is_usable id_field (obj entry) = has_id id_field (obj entry)
is_usable id_field (arr nil) = true
is_usable id_field (arr (cons entry rest)) = any_id id_field (cons entry rest)
is_usable id_field v = false

-- `_note_primary_query_outcome`, for endpoints with the key "id".
unfoldable pub note_primary_query_outcome : String → Value → Cache → Cache
note_primary_query_outcome key raw s = note_fallback_outcome key (not (is_usable "id" raw)) s

-- `_FALLBACK_KEY_ENDPOINTS`
abbrev pub fallback_key_endpoints : Dict String String
fallback_key_endpoints =
    ("pool_query", "pool")
    ∷ ("boot_pool", "pool")
    ∷ ("pool_capacity_dataset", "pool")
    ∷ ("dataset_query", "dataset")
    ∷ ("dataset_not_published", "dataset")
    ∷ ("ups_netdata_graphs", "ups")
    ∷ ("directoryservices_config", "directoryservices")
    ∷ ("directoryservices_status", "directoryservices")
    ∷ ("alert_list", "alerts")
    ∷ ("smb_status", "smb")
    ∷ ("system_info", "system_info")
    ∷ ("interface_query", "interface")
    ∷ ("scrub_query", "scrub")
    ∷ ("service_query", "service")
    ∷ ("vm_query", "vm")
    ∷ []

-- `_fallback_endpoint`
unfoldable pub fallback_endpoint : String → Option String
unfolding string_eq
fallback_endpoint key = lookup key fallback_key_endpoints

abbrev pub with_endpoint : Option String → List String → List String
with_endpoint none others = others
with_endpoint (some name) others = name ∷ others

unfoldable pub failing_endpoints : Dict String Bool → List String
failing_endpoints [] = []
failing_endpoints ((key, failing) ∷ rest) =
    let others = failing_endpoints rest in
    if failing then with_endpoint (fallback_endpoint key) others else others

-- `stale_endpoints`, as a list with repetitions
unfoldable pub stale_endpoints : Cache → List String
unfolding failing_endpoints
stale_endpoints s =
    let failing = failing_endpoints s.fallback_failing in
    if nonempty s.ups_stale_graphs then "ups" ∷ failing else failing
