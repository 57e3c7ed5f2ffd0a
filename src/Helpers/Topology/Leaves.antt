-- ===== src/Helpers/Topology/Leaves.antt =====
-- The totals of a topology are those of the list of its leaves.
use aiotruenas.Base.{
  Bool, true, false, Option, none, some, List, [], ◌∷◌, ◌++◌, ◌≡◌, refl, ◌==◌, if◌then◌else◌,
}
use aiotruenas.Base.Int.{pos}
use aiotruenas.Value.{
  text, Value, null, bool, int, float, str, datetime, arr, obj, Items, nil, cons, Fields, end,
  field, key_eq,
}
use aiotruenas.Errors.Classify.{member_of}
use aiotruenas.Helpers.Topology.{
  Totals, add_stats, or_leaf, accumulate_vdev_errors, over_children, over_list, over_vdevs,
  over_categories, aggregate_topology_errors,
}

-- The leaves under a vdev, in order: the dicts without a non-empty list of children.
abbrev own_leaf : Option (List Fields) → Fields → List Fields
own_leaf none vdev = vdev ∷ []
own_leaf (some below) vdev = below

unfoldable mutual
  unfolding key_eq

  pub leaves : Value → List Fields
  leaves (obj vdev) = own_leaf (leaves_of_children vdev) vdev
  leaves v = []

  pub leaves_of_children : Fields → Option (List Fields)
  leaves_of_children end = none
  leaves_of_children (field k v fs) =
      let rest = leaves_of_children fs in if k == text "children" then leaves_of_list v else rest

  pub leaves_of_list : Value → Option (List Fields)
  leaves_of_list (arr (cons v vs)) = some (leaves v ++ leaves_of_vdevs vs)
  leaves_of_list v = none

  pub leaves_of_vdevs : Items → List Fields
  leaves_of_vdevs nil = []
  leaves_of_vdevs (cons v vs) = leaves v ++ leaves_of_vdevs vs

unfoldable pub leaves_of_topology : Fields → List Fields
leaves_of_topology end = []
leaves_of_topology (field k (arr vdevs) fs) = leaves_of_vdevs vdevs ++ leaves_of_topology fs
leaves_of_topology (field k v fs) = leaves_of_topology fs

unfoldable pub add_all : List Fields → Totals → Totals
add_all [] t = t
add_all (leaf ∷ rest) t = add_all rest (add_stats (member_of (obj leaf) "stats") t)

add_all-++ : (xs ys : List Fields) (t : Totals) → add_all (xs ++ ys) t ≡ add_all ys (add_all xs t)
unfolding add_all
add_all-++ [] ys t = refl
add_all-++ (x ∷ xs) ys t = add_all-++ xs ys (add_stats (member_of (obj x) "stats") t)

abbrev add_some : Option (List Fields) → Totals → Option Totals
add_some none t = none
add_some (some ls) t = some (add_all ls t)

or_leaf-own_leaf :
    (o : Option (List Fields)) (vdev : Fields) (t : Totals)
    → or_leaf (add_some o t) vdev t ≡ add_all (own_leaf o vdev) t
unfolding add_all
or_leaf-own_leaf none vdev t = refl
or_leaf-own_leaf (some ls) vdev t = refl

add_some-if :
    (b : Bool) (o p : Option (List Fields)) (t : Totals) {x y : Option Totals}
    → x ≡ add_some o t
    → y ≡ add_some p t
    → (if b then x else y) ≡ add_some (if b then o else p) t
add_some-if true o p t h i = h
add_some-if false o p t h i = i

mutual
  unfolding accumulate_vdev_errors leaves add_all

  accumulate-leaves : (v : Value) (t : Totals) → accumulate_vdev_errors v t ≡ add_all (leaves v) t
  accumulate-leaves (obj vdev) t =
      rw (over_children-leaves vdev t) (or_leaf-own_leaf (leaves_of_children vdev) vdev t)
  accumulate-leaves null t = refl
  accumulate-leaves (bool b) t = refl
  accumulate-leaves (int n) t = refl
  accumulate-leaves (float x) t = refl
  accumulate-leaves (str s) t = refl
  accumulate-leaves (datetime n) t = refl
  accumulate-leaves (arr xs) t = refl

  over_children-leaves :
      (fs : Fields) (t : Totals) → over_children fs t ≡ add_some (leaves_of_children fs) t
  over_children-leaves end t = refl
  over_children-leaves (field k v fs) t =
      add_some-if (k == text "children") _ _ t (over_list-leaves v t) (over_children-leaves fs t)

  over_list-leaves : (v : Value) (t : Totals) → over_list v t ≡ add_some (leaves_of_list v) t
  over_list-leaves (arr (cons v vs)) t =
      rw
        (
          accumulate-leaves v t,
          over_vdevs-leaves vs (add_all (leaves v) t),
          add_all-++ (leaves v) (leaves_of_vdevs vs) t,
        )
        refl
  over_list-leaves (arr nil) t = refl
  over_list-leaves null t = refl
  over_list-leaves (bool b) t = refl
  over_list-leaves (int n) t = refl
  over_list-leaves (float x) t = refl
  over_list-leaves (str s) t = refl
  over_list-leaves (datetime n) t = refl
  over_list-leaves (obj fs) t = refl

  over_vdevs-leaves : (vs : Items) (t : Totals) → over_vdevs vs t ≡ add_all (leaves_of_vdevs vs) t
  over_vdevs-leaves nil t = refl
  over_vdevs-leaves (cons v vs) t =
      rw
        (
          accumulate-leaves v t,
          over_vdevs-leaves vs (add_all (leaves v) t),
          add_all-++ (leaves v) (leaves_of_vdevs vs) t,
        )
        refl

over_categories-leaves :
    (fs : Fields) (t : Totals) → over_categories fs t ≡ add_all (leaves_of_topology fs) t
unfolding over_categories leaves_of_topology add_all
over_categories-leaves end t = refl
over_categories-leaves (field k (arr vdevs) fs) t =
    rw (add_all-++ (leaves_of_vdevs vdevs) (leaves_of_topology fs) t, over_vdevs-leaves vdevs t)
      (over_categories-leaves fs _)
over_categories-leaves (field k null fs) t = over_categories-leaves fs t
over_categories-leaves (field k (bool b) fs) t = over_categories-leaves fs t
over_categories-leaves (field k (int n) fs) t = over_categories-leaves fs t
over_categories-leaves (field k (float x) fs) t = over_categories-leaves fs t
over_categories-leaves (field k (str s) fs) t = over_categories-leaves fs t
over_categories-leaves (field k (datetime n) fs) t = over_categories-leaves fs t
over_categories-leaves (field k (obj gs) fs) t = over_categories-leaves fs t

-- The error totals of a topology are the sums over its leaf vdevs alone, those of a vdev with
-- children being left out at every level.
pub aggregate_topology_errors-leaves :
    (topology : Fields)
    → aggregate_topology_errors (obj topology)
      ≡ add_all
          (leaves_of_topology topology)
          (record { read = pos 0; write = pos 0; checksum = pos 0 })
unfolding aggregate_topology_errors
aggregate_topology_errors-leaves topology = over_categories-leaves topology _
