-- ===== src/Helpers/Netdata.antt =====
-- Readings of the graphs that TrueNAS's reporting service (netdata) returns.
pub mod Disks
pub mod Interfaces
use aiotruenas.Base.{
  ℕ, suc, ◌+◌, String, Bool, true, false, not, ◌&&◌, ◌||◌, Option, none, some, List, [], ◌∷◌, ◌++◌,
  ◌==◌, nat_eq, string_eq, if◌then◌else◌, ◌/◌, ◌%◌,
}
use aiotruenas.Base.Int.{ℤ, pos}
use aiotruenas.Base.Assoc.{Dict, lookup, insert}
use aiotruenas.Value.{
  text, Value, null, bool, int, float, str, arr, obj, Items, nil, cons, Fields, end, field, truthy,
  py_eq, finite,
}
use aiotruenas.Value.Dict.{put}
use aiotruenas.Errors.Classify.{member_of}

-- Python's arithmetic on ints and floats, for operands that `is_finite_number` accepts.
pub record Arithmetic : Type 0 where
  -- Whether an int is small enough to be a float, without which `math.isfinite` raises.
  pub convertible : ℤ → Bool
  -- `x + y`, `x / n`, `round(x, 2)`, `float(x)`, `x * 1000 / 8192`, `x <= y`
  pub plus : Value → Value → Value
  pub over : Value → ℕ → Value
  pub round2 : Value → Value
  pub to_float : Value → Value
  pub kibibytes : Value → Value
  pub at_most : Value → Value → Bool
  -- `str(value)`
  pub format : Value → String

abbrev pub samples_or_none : Option (List Value) → List Value
samples_or_none none = []
samples_or_none (some vs) = vs

abbrev pub size_of : List Value → ℕ
size_of [] = 0
size_of (v ∷ vs) = suc (size_of vs)

-- `v in items`, for a text
unfoldable pub has_text : String → Items → Bool
unfolding py_eq
has_text s nil = false
has_text s (cons v vs) = py_eq (str s) v || has_text s vs

-- The first item of a graph, if it is a dict, with its "aggregations" / "mean", if both are dicts.
unfoldable pub first_item : Value → Option Fields
first_item (arr (cons (obj item) rest)) = some item
first_item v = none

unfoldable pub mean_of : Fields → Value
unfolding member_of
mean_of item = member_of (member_of (obj item) "aggregations") "mean"

-- `_has_disk_temp_entries` and `_has_netdata_series_entry` on the entries of a list.
unfoldable pub any_disk : Items → Bool
unfolding member_of truthy
any_disk nil = false
any_disk (cons (obj entry) rest) = truthy (member_of (obj entry) "identifier") || any_disk rest
any_disk (cons entry rest) = any_disk rest

unfoldable pub has_disk_temp_entries : Value → Bool
unfolding any_disk
has_disk_temp_entries (arr entries) = any_disk entries
has_disk_temp_entries v = false

unfoldable pub any_series : Items → Bool
unfolding member_of truthy
any_series nil = false
any_series (cons (obj entry) rest) =
    truthy (member_of (obj entry) "identifier")
    || truthy (member_of (obj entry) "name")
    || any_series rest
any_series (cons entry rest) = any_series rest

unfoldable pub has_netdata_series_entry : Value → Bool
unfolding any_series
has_netdata_series_entry (arr entries) = any_series entries
has_netdata_series_entry v = false

module _ (A : Arithmetic) where
  -- `_is_finite_number`
  unfoldable pub is_finite_number : Value → Bool
  is_finite_number (int n) = A.convertible n
  is_finite_number (float (finite m k)) = true
  is_finite_number v = false

  unfoldable pub finite_values : Fields → List Value
  unfolding is_finite_number
  finite_values end = []
  finite_values (field k v fs) =
      let rest = finite_values fs in if is_finite_number v then v ∷ rest else rest

  unfoldable pub finite_means : Value → List Value
  finite_means (obj fs) = finite_values fs
  finite_means v = []

  unfoldable pub total : Value → List Value → Value
  total sum [] = sum
  total sum (v ∷ vs) = total (A.plus sum v) vs

  -- `sum(vs) / len(vs)`
  unfoldable pub average : List Value → Value
  unfolding total
  average vs = A.over (total (int (pos 0)) vs) (size_of vs)

  -- The inner loop of `_raw_sample_values`, from column `i` on.
  unfoldable pub note_point : ℕ → Items → Dict ℕ (List Value) → Dict ℕ (List Value)
  unfolding nat_eq
  note_point i nil series = series
  note_point i (cons v vs) series = note_point (i + 1) vs (
      if is_finite_number v
      then insert i (samples_or_none (lookup i series) ++ v ∷ []) series
      else series)

  unfoldable pub note_points : Items → Dict ℕ (List Value) → Dict ℕ (List Value)
  unfolding note_point
  note_points nil series = series
  note_points (cons (arr (cons timestamp values)) rest) series =
      note_points rest (note_point 0 values series)
  note_points (cons point rest) series = note_points rest series

  unfoldable pub averages : Dict ℕ (List Value) → List Value
  unfolding average
  averages [] = []
  averages ((i, vs) ∷ series) = average vs ∷ averages series

  -- `_raw_sample_values`
  unfoldable pub raw_sample_values : Value → List Value
  unfolding note_points averages
  raw_sample_values (arr points) = averages (note_points points [])
  raw_sample_values v = []

  abbrev or_raw : List Value → Value → List Value
  or_raw [] points = raw_sample_values points
  or_raw (v ∷ vs) points = v ∷ vs

  -- The readings of an item: the means of its series, or else those of the raw samples.
  unfoldable pub readings : Fields → List Value
  unfolding finite_means member_of
  readings item = or_raw (finite_means (mean_of item)) (member_of (obj item) "data")

  unfoldable pub rounded_average : List Value → Option Value
  unfolding average
  rounded_average [] = none
  rounded_average (v ∷ vs) = some (A.round2 (average (v ∷ vs)))

  -- `_netdata_mean_value`
  unfoldable pub netdata_mean_value : Value → Option Value
  unfolding readings rounded_average
  netdata_mean_value graph = elim (first_item graph) [
    | none ↦ none
    | some item ↦ rounded_average (readings item)
  ]

  -- Python's `max`: the first of the largest.
  unfoldable pub largest : Value → List Value → Value
  largest best [] = best
  largest best (v ∷ vs) = largest (if A.at_most v best then best else v) vs

  unfoldable pub rounded_largest : List Value → Option Value
  unfolding largest
  rounded_largest [] = none
  rounded_largest (v ∷ vs) = some (A.round2 (largest v vs))

  -- `_netdata_max_mean`
  unfoldable pub netdata_max_mean : Value → Option Value
  unfolding rounded_largest
  netdata_max_mean graph = elim (first_item graph) [
    | none ↦ none
    | some item ↦ rounded_largest (finite_means (mean_of item))
  ]

  -- The loop of `_netdata_named_means` over the names.
  unfoldable pub named_means : Items → Value → List String → Fields → Fields
  unfolding member_of has_text
  named_means legend mean [] result = result
  named_means legend mean (name ∷ names) result = named_means legend mean names (
      if has_text name legend && is_finite_number (member_of mean name)
      then put (text name) (A.to_float (member_of mean name)) result
      else result)

  unfoldable pub means_by_legend : Value → Value → List String → Fields
  unfolding named_means
  means_by_legend (arr legend) (obj aggregations) names =
      named_means legend (member_of (obj aggregations) "mean") names end
  means_by_legend legend aggregations names = end

  -- `_netdata_named_means`
  unfoldable pub netdata_named_means : Value → List String → Fields
  unfolding means_by_legend member_of
  netdata_named_means graph names = elim (first_item graph) [
    | none ↦ end
    | some item ↦
        means_by_legend (member_of (obj item) "legend") (member_of (obj item) "aggregations") names
  ]
