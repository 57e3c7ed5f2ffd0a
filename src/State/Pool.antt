-- ===== src/State/Pool.antt =====
-- `get_dataset` and `get_pool`: two endpoints that are published together, the boot pool, and the
-- capacity of a pool by its root dataset.
pub mod Capacity
pub mod Publishing
pub mod Malformed
use aiotruenas.Base.{
  ℕ, String, Bool, true, false, not, ◌&&◌, ◌||◌, Option, none, some, List, [], ◌∷◌, ◌==◌, string_eq,
  if◌then◌else◌,
}
use aiotruenas.Base.Assoc.{Dict, lookup, insert}
use aiotruenas.Value.{
  Key, text, Value, null, str, arr, obj, Items, nil, cons, Fields, end, field, truthy, get,
  hash_key, key_eq, int,
}
use aiotruenas.Base.Int.{◌+ℤ◌}
use aiotruenas.Value.Dict.{put, has}
use aiotruenas.Errors.Classify.{member_of}
use aiotruenas.Normalize.Spec.{or_default}
use aiotruenas.Normalize.Uid.{get_uid}
use aiotruenas.Normalize.Parse.{Mapping}
use aiotruenas.Helpers.Topology.{Totals, aggregate_topology_errors}
use aiotruenas.Specs.Storage.{dataset_vals, pool_vals, pool_ensure_vals}
use aiotruenas.State.Cache.{
  Cache, Server, Platform, Ended, refreshed, on_reply, keyed, plain_derive, each_entry, endpoint,
  set_endpoint, normalize,
}
use aiotruenas.State.Fallback.{
  is_failing, clear, flag_failing, note_failed, note_recovered, note_fallback_outcome,
  note_primary_query_outcome, any_id,
}
use aiotruenas.State.Pool.Capacity.{apply_pool_capacity, to_int_or}

-- The test of `get_pool` on "pool.query": a list that is empty or has a pool with a guid.
unfoldable pub is_pool_list : Value → Bool
is_pool_list (arr nil) = true
is_pool_list (arr (cons entry rest)) = any_id "guid" (cons entry rest)
is_pool_list v = false

-- An assignment to fields of `pools[uid]`, which is a dict.
unfoldable pub modify_entry : Key → (Fields → Fields) → Fields → Fields
unfolding get put
modify_entry uid change pools = elim (get uid pools) [
  | some (obj vals) ↦ put uid (obj (change vals)) pools
  | some v ↦ pools
  | none ↦ pools
]

unfoldable pub put_errors : Totals → Fields → Fields
unfolding ◌+ℤ◌ put
put_errors t vals = put (text "errors") (int (t.read +ℤ t.write +ℤ t.checksum)) (
    put (text "checksum_errors") (int t.checksum)
      (put (text "write_errors") (int t.write) (put (text "read_errors") (int t.read) vals)))

apply_errors_at : Option Key → Fields → Fields → Fields
unfolding modify_entry put_errors aggregate_topology_errors member_of
apply_errors_at none raw_pool pools = pools
apply_errors_at (some uid) raw_pool pools =
    modify_entry uid (put_errors (aggregate_topology_errors (member_of (obj raw_pool) "topology")))
      pools

-- `_apply_pool_errors` of a list
unfoldable pub apply_pool_errors : Items → Fields → Fields
unfolding apply_errors_at hash_key member_of
apply_pool_errors nil pools = pools
apply_pool_errors (cons (obj raw_pool) rest) pools =
    apply_pool_errors rest
      (apply_errors_at (hash_key (member_of (obj raw_pool) "guid")) raw_pool pools)
apply_pool_errors (cons raw_pool rest) pools = apply_pool_errors rest pools

-- `raw_boot.setdefault(name, value)`
abbrev set_default : String → Value → Fields → Fields
set_default name value fs = if has (text name) fs then fs else put (text name) value fs

-- The response of "boot.get_state" with a guid and an id, unless it is empty or no dict.
unfoldable pub named_boot_pool : Value → Value
unfolding has put get
named_boot_pool (obj (field k v fs)) =
    let raw = field k v fs in
    let name = or_default (get (text "name") raw) (str "boot-pool") in
    obj (set_default "id" name (set_default "guid" name raw))
named_boot_pool v = v

abbrev pub pool_mapping : Mapping
pool_mapping = keyed "guid" pool_vals pool_ensure_vals

carried : Option Value → Key → Fields → Cache → Fields × Cache
unfolding put
carried none uid pools s = (pools, s)
carried (some cached) uid pools s = (put uid cached pools, note_failed "boot_pool" s)

-- A boot pool that was merged before stays as it was cached.
unfoldable pub carry_over : Option Key → Fields → Cache → Fields × Cache
unfolding carried get
carry_over none pools s = (pools, s)
carry_over (some uid) pools s = carried (get uid (endpoint "pool" s)) uid pools s

unfoldable pub merge_boot_pool : Platform → Value → Option Key → Fields → Cache → Fields × Cache
merge_boot_pool P boot none pools s = carry_over s.boot_pool_uid pools s
merge_boot_pool P boot (some guid) pools s = (
  apply_pool_errors (cons boot nil)
      (normalize P (record pool_mapping { prune = false }) pools boot),
  note_recovered "boot_pool" (record s { boot_pool_uid = some guid }),
)

-- `_add_boot_pool` on its response
unfoldable pub add_boot_pool : Platform → Value → Fields → Cache → Fields × Cache
add_boot_pool P raw_boot pools s =
    let boot = named_boot_pool raw_boot in
    merge_boot_pool P boot (get_uid boot (some "guid") none none []) pools s

-- `dataset_by_mountpoint`
note_mountpoint : Value → Fields → Dict String Fields → Dict String Fields
unfolding string_eq
note_mountpoint (str path) dataset mounts =
    if path == "" || path == "unknown" then mounts else insert path dataset mounts
note_mountpoint v dataset mounts = mounts

unfoldable pub by_mountpoint : Fields → Dict String Fields → Dict String Fields
unfolding note_mountpoint member_of
by_mountpoint end mounts = mounts
by_mountpoint (field k (obj dataset) rest) mounts =
    by_mountpoint rest (note_mountpoint (member_of (obj dataset) "mountpoint") dataset mounts)
by_mountpoint (field k v rest) mounts = by_mountpoint rest mounts

abbrev as_dataset : Option Value → Option Fields
as_dataset (some (obj dataset)) = some dataset
as_dataset o = none

by_path : Value → Dict String Fields → Option Fields
unfolding string_eq
by_path (str path) mounts = lookup path mounts
by_path v mounts = none

by_name : Option Key → Fields → Option Fields
unfolding get
by_name none datasets = none
by_name (some name) datasets = as_dataset (get name datasets)

abbrev first_dataset : Option Fields → Option Fields → Option Fields
first_dataset none o = o
first_dataset (some d) o = some d

-- The root dataset of a pool: by the mountpoint, or else by the name.
unfoldable pub root_dataset : Fields → Fields → Option Fields
unfolding by_path by_name member_of hash_key by_mountpoint
root_dataset datasets vals =
    first_dataset (by_path (member_of (obj vals) "path") (by_mountpoint datasets []))
      (by_name (hash_key (member_of (obj vals) "name")) datasets)

unfoldable pub finish_pool : Platform → Fields → Fields → Fields
unfolding put member_of
finish_pool P datasets vals =
    let sized = apply_pool_capacity P (root_dataset datasets vals) vals in
    put (text "fragmentation") (to_int_or P (member_of (obj sized) "fragmentation")) sized

-- Some pool has a root dataset.
unfoldable pub any_root : Fields → Fields → Bool
any_root datasets end = false
any_root datasets (field k (obj vals) rest) = elim (root_dataset datasets vals) [
  | none ↦ any_root datasets rest
  | some dataset ↦ true
]
any_root datasets (field k v rest) = any_root datasets rest

-- The end of `get_pool`, with the boot pool merged.
unfoldable pub publish_pools : Platform → Fields → Fields × Cache → Ended × Cache
publish_pools P datasets (pools, s) =
    let stale = is_failing "dataset_query" s && any_root datasets pools in
    let finished = (each_entry (plain_derive (λ k vals. finish_pool P datasets vals)) pools).0 in
    (
      refreshed,
      set_endpoint "pool" finished
          (set_endpoint "dataset" datasets (note_fallback_outcome "pool_capacity_dataset" stale s)),
    )

-- `_compute_dataset` on its response
unfoldable pub compute_dataset : Platform → Value → Cache → Fields × Cache
compute_dataset P raw s = (
  normalize P (keyed "id" dataset_vals []) (endpoint "dataset" s) raw,
  note_primary_query_outcome "dataset_query" raw s,
)

abbrev list_or_nil : Value → Items
list_or_nil (arr xs) = xs
list_or_nil v = nil

module _ (P : Platform) (V : Server) where
  unfoldable pub get_dataset : Cache → Ended × Cache
  get_dataset = on_reply (V.call "pool.dataset.query") λ raw s.
      let (datasets, noted) = compute_dataset P raw s in
      (refreshed, clear "dataset_not_published" (set_endpoint "dataset" datasets noted))

  -- `get_pool` from the response of "pool.query" on
  unfoldable pub with_pools : Fields → Value → Cache → Ended × Cache
  with_pools datasets raw_pools s =
      if is_pool_list raw_pools
      then (let noted = clear "dataset_not_published" (note_recovered "pool_query" s) in
          let pools = normalize P pool_mapping (endpoint "pool" noted) raw_pools in
          on_reply (V.call "boot.get_state")
            (λ raw_boot u.
              publish_pools P datasets
                (add_boot_pool P raw_boot (apply_pool_errors (list_or_nil raw_pools) pools) u))
            noted)
      else (refreshed, flag_failing "dataset_not_published" (note_failed "pool_query" s))

  unfoldable pub get_pool : Cache → Ended × Cache
  get_pool = on_reply (V.call "pool.dataset.query") λ raw s.
      let (datasets, noted) = compute_dataset P raw s in
      on_reply (V.call "pool.query") (with_pools datasets) noted
