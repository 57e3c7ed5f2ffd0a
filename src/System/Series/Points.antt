-- ===== src/System/Series/Points.antt =====
-- The samples of each series in the raw points.
use mathlib.Core.List.{append-nil}
use aiotruenas.Base.{
  ◌+◌, String, Bool, true, false, ◌≡◌, sym, ap, ◌∙◌, Option, none, some, List, [], ◌==◌, arith,
  string_eq, nat_eq, if◌then◌else◌, Bool-cases, inl, inr,
}
use aiotruenas.Base.Assoc.{Dict, lookup}
use aiotruenas.Value.{Value, str, arr, Items, nil, cons}
use aiotruenas.Helpers.Netdata.{has_text}
use aiotruenas.System.Models.{Finite}
use aiotruenas.System.Fields.{Floats, finite_float}
use aiotruenas.System.Series.{
  count_items, columns, width_of, note_value, note_sample, note_point, note_points,
}
use aiotruenas.System.Series.Samples.{
  either, either-append, extend, extend-append, extend-none, is_name, lookup-noted, with_sample,
  with_sample-append, with_sample-none,
}

module _ (F : Floats) where
  -- The column of a series in a point that has one sample for each name of the legend.
  unfoldable pub column : String → Items → Items → Option (List Finite)
  unfolding finite_float
  column name nil nil = some []
  column name (cons w legend) (cons v point) = elim (column name legend point) [
    | none ↦ none
    | some xs ↦ some (with_sample (is_name name w) (finite_float F v) xs)
  ]
  column name nil (cons v point) = none
  column name (cons w legend) nil = none

  -- The same, where the first sample of a point is its time if the legend does not name that.
  unfoldable pub timed_column : String → Items → Value → Option (List Finite)
  unfolding column has_text
  timed_column name legend (arr (cons v point)) =
      if has_text "time" legend then column name legend (cons v point) else column name legend point
  timed_column name legend (arr nil) =
      if has_text "time" legend then column name legend nil else none
  timed_column name legend v = none

  -- All samples of a series, in order.
  unfoldable pub column_samples : String → Items → Items → List Finite
  unfolding timed_column
  column_samples name legend nil = []
  column_samples name legend (cons point points) =
      either (timed_column name legend point) (column_samples name legend points)

  -- What the loop over a point takes from it.
  taken : String → Items → Items → List Finite
  taken name (cons w legend) (cons v point) =
      with_sample (is_name name w) (finite_float F v) (taken name legend point)
  taken name nil point = []
  taken name (cons w legend) nil = []

  column-taken :
      (name : String) (legend point : Items)
      → column name legend point
        ≡ (if count_items point == count_items legend then some (taken name legend point) else none)
  unfolding column taken count_items
  column-taken name nil nil = ground arith
  column-taken name nil (cons v point) = ground arith
  column-taken name (cons w legend) nil = ground arith
  column-taken name (cons w legend) (cons v point) = ground (arith, column-taken name legend point)

  lookup-note_value :
      (name n : String) (o : Option Finite) (samples : Dict String (List Finite))
      → (name == "time") ≡ false
      → lookup name (note_value F n o samples)
        ≡ extend (lookup name samples) (with_sample (name == n) o [])
  unfolding note_value
  lookup-note_value name n none samples other =
      rw (with_sample-none (name == n) []) (sym (extend-none _))
  lookup-note_value name n (some x) samples other = lookup-noted "time" name n x samples other

  lookup-note_sample :
      (name : String) (w v : Value) (samples : Dict String (List Finite))
      → (name == "time") ≡ false
      → lookup name (note_sample F w v samples)
        ≡ extend (lookup name samples) (with_sample (is_name name w) (finite_float F v) [])
  unfolding note_sample
  lookup-note_sample name (str n) v samples other =
      lookup-note_value name n (finite_float F v) samples other
  lookup-note_sample name _ v samples other = sym (extend-none _)

  lookup-note_point :
      (name : String) (legend point : Items) (samples : Dict String (List Finite))
      → (name == "time") ≡ false
      → lookup name (note_point F legend point samples)
        ≡ extend (lookup name samples) (taken name legend point)
  unfolding note_point taken
  lookup-note_point name nil point samples other = sym (extend-none _)
  lookup-note_point name (cons w legend) nil samples other = sym (extend-none _)
  lookup-note_point name (cons w legend) (cons v point) samples other =
      lookup-note_point name legend point (note_sample F w v samples) other
      ∙ ap (λ o. extend o (taken name legend point)) (lookup-note_sample name w v samples other)
      ∙ extend-append (lookup name samples) _ _
      ∙ ap (extend (lookup name samples))
          (with_sample-append (is_name name w) (finite_float F v) (taken name legend point))

  either-test :
      (name : String) (legend point : Items) (test : Bool) (samples : Dict String (List Finite))
      → (name == "time") ≡ false
      → lookup name (if test then note_point F legend point samples else samples)
        ≡ extend
            (lookup name samples)
            (either (if test then some (taken name legend point) else none) [])
  either-test name legend point true samples other =
      lookup-note_point name legend point samples other
      ∙ ap (extend (lookup name samples)) (sym (append-nil (taken name legend point)))
  either-test name legend point false samples other = sym (extend-none _)

  -- One point.
  noted_point : Items → Items → Dict String (List Finite) → Dict String (List Finite)
  noted_point legend point samples =
      if count_items point == width_of legend
      then note_point F legend (columns (has_text "time" legend) point) samples
      else samples

  abbrev column_of : Bool → Items → Items → String → Option (List Finite)
  column_of true legend point name = column name legend point
  column_of false legend nil name = none
  column_of false legend (cons t point) name = column name legend point

  width-column :
      (timed : Bool) (name : String) (legend point : Items)
      → column_of timed legend point name ≡ (
          if count_items point == (if timed then count_items legend else count_items legend + 1)
          then some (taken name legend (columns timed point))
          else none)
  unfolding count_items
  width-column true name legend point = column-taken name legend point
  width-column false name legend nil = ground arith
  width-column false name legend (cons t point) = ground (arith, column-taken name legend point)

  timed_column-split :
      (name : String) (legend point : Items)
      → timed_column name legend (arr point) ≡ column_of (has_text "time" legend) legend point name
  unfolding timed_column
  timed_column-split name legend nil = elim (Bool-cases (has_text "time" legend)) [
    | inl timed ↦ rw timed
    | inr bare ↦ rw bare
  ]
  timed_column-split name legend (cons t point) = elim (Bool-cases (has_text "time" legend)) [
    | inl timed ↦ rw timed
    | inr bare ↦ rw bare
  ]

  lookup-noted_point :
      (name : String) (legend point : Items) (samples : Dict String (List Finite))
      → (name == "time") ≡ false
      → lookup name (noted_point legend point samples)
        ≡ extend (lookup name samples) (either (timed_column name legend (arr point)) [])
  unfolding noted_point
  lookup-noted_point name legend point samples other =
      either-test name legend (columns (has_text "time" legend) point)
        (count_items point == width_of legend) samples other
      ∙ ap (λ o. extend (lookup name samples) (either o []))
          (sym (
            timed_column-split name legend point
            ∙ width-column (has_text "time" legend) name legend point))

  pub lookup-note_points :
      (name : String) (legend points : Items) (samples : Dict String (List Finite))
      → (name == "time") ≡ false
      → lookup name (note_points F legend points samples)
        ≡ extend (lookup name samples) (column_samples name legend points)
  unfolding note_points column_samples noted_point
  lookup-note_points name legend nil samples other = sym (extend-none _)
  lookup-note_points name legend (cons (arr point) points) samples other =
      lookup-note_points name legend points (noted_point legend point samples) other
      ∙ ap (λ o. extend o (column_samples name legend points))
          (lookup-noted_point name legend point samples other)
      ∙ extend-append (lookup name samples) _ _
      ∙ ap (extend (lookup name samples))
          (either-append (timed_column name legend (arr point)) (column_samples name legend points))
  lookup-note_points name legend (cons _ points) samples other =
      lookup-note_points name legend points samples other
