-- ===== src/Helpers/Topology.antt =====
-- Error counts of a pool topology: a tree of vdevs in which only the leaves count.
pub mod Leaves
use aiotruenas.Base.{Bool, Option, none, some, ◌==◌, if◌then◌else◌}
use aiotruenas.Base.Int.{ℤ, pos, ◌+ℤ◌}
use aiotruenas.Value.{text, Value, int, arr, obj, Items, nil, cons, Fields, end, field, key_eq}
use aiotruenas.Errors.Classify.{member_of}

-- `totals`
pub record Totals : Type 0 where
  pub read : ℤ
  pub write : ℤ
  pub checksum : ℤ

-- `_as_int`: a bool is no count.
unfoldable pub as_int : Value → ℤ
as_int (int n) = n
as_int v = pos 0

-- The end of `_accumulate_vdev_errors`, for a leaf.
unfoldable pub add_stats : Value → Totals → Totals
unfolding ◌+ℤ◌
add_stats (obj stats) t = record {
  read = t.read +ℤ as_int (member_of (obj stats) "read_errors");
  write = t.write +ℤ as_int (member_of (obj stats) "write_errors");
  checksum = t.checksum +ℤ as_int (member_of (obj stats) "checksum_errors");
}
add_stats v t = t

abbrev pub or_leaf : Option Totals → Fields → Totals → Totals
or_leaf none vdev t = add_stats (member_of (obj vdev) "stats") t
or_leaf (some total) vdev t = total

-- `_accumulate_vdev_errors`. `over_children` is the loop over the children of a vdev, if it has a
-- non-empty list of them.
unfoldable mutual
  unfolding key_eq

  pub accumulate_vdev_errors : Value → Totals → Totals
  accumulate_vdev_errors (obj vdev) t = or_leaf (over_children vdev t) vdev t
  accumulate_vdev_errors v t = t

  pub over_children : Fields → Totals → Option Totals
  over_children end t = none
  over_children (field k v fs) t =
      let rest = over_children fs t in if k == text "children" then over_list v t else rest

  pub over_list : Value → Totals → Option Totals
  over_list (arr (cons v vs)) t = some (over_vdevs vs (accumulate_vdev_errors v t))
  over_list v t = none

  pub over_vdevs : Items → Totals → Totals
  over_vdevs nil t = t
  over_vdevs (cons v vs) t = over_vdevs vs (accumulate_vdev_errors v t)

over_category : Value → Totals → Totals
unfolding accumulate_vdev_errors
over_category (arr vdevs) t = over_vdevs vdevs t
over_category v t = t

unfoldable pub over_categories : Fields → Totals → Totals
unfolding over_category
over_categories end t = t
over_categories (field k v fs) t = over_categories fs (over_category v t)

-- `_aggregate_topology_errors`
unfoldable pub aggregate_topology_errors : Value → Totals
aggregate_topology_errors (obj topology) =
    over_categories topology (record { read = pos 0; write = pos 0; checksum = pos 0 })
aggregate_topology_errors v = record { read = pos 0; write = pos 0; checksum = pos 0 }
