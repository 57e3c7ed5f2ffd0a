-- ===== src/System/Series/Means.antt =====
-- The mean of each series that the legend of an item names.
use aiotruenas.Base.{
  String, Bool, true, false, ◌||◌, ◌≡◌, refl, sym, ap, ◌∙◌, Option, none, some, List, [], ◌∷◌, ◌==◌,
  arith, string_eq, nat_eq, if◌then◌else◌, Bool-cases, inl, inr, Eq,
}
use aiotruenas.Base.Equality.{==-eq}
use aiotruenas.Base.Assoc.{Dict, lookup, lookup-insert}
use aiotruenas.Value.{text, Value, str, arr, obj, Items, nil, cons, Fields}
use aiotruenas.Value.Dict.{has}
use aiotruenas.Errors.Classify.{member_of}
use aiotruenas.Helpers.Netdata.{mean_of}
use aiotruenas.System.Models.{Finite}
use aiotruenas.System.Fields.{Floats, finite_float}
use aiotruenas.System.Series.{
  items_of, note_points, add_mean, sample_means, raw_series_means, put_mean, or_next, series_mean,
  legend_means, series_means,
}
use aiotruenas.System.Series.Samples.{names_series, extend, IsNodup}
use aiotruenas.System.Series.Points.{column_samples, lookup-note_points}
use aiotruenas.System.Series.Nodup.{note_points-IsNodup}

not_named :
    {K : Type 0} ⦃e : Eq K⦄ (name n time : K)
    → (name == time) ≡ false
    → n == time ≡ true
    → (name == n) ≡ false
not_named name n time other same = ground arith

-- The mean of a series in a dict of means or samples, put under another name or this one.
module _ {ℓ κ} {K : Type ℓ} {V : Type κ} ⦃e : Eq K⦄ where
  at_name :
      (name n : K)
      → (f : K → Option V)
      → (if name == n then f n else none) ≡ (if name == n then f name else none)
  at_name name n f = elim (Bool-cases (name == n)) [
    | inl same ↦ rw same (ap f (sym (==-eq name n same)))
    | inr other ↦ rw other
  ]

module _ (F : Floats) where
  abbrev pub or_mean : List Finite → Option Finite
  or_mean [] = none
  or_mean (x ∷ xs) = F.mean (x ∷ xs)

  abbrev mean_in : Option (List Finite) → Option Finite
  mean_in none = none
  mean_in (some xs) = F.mean xs

  lookup-add_mean :
      (name n : String) (o : Option Finite) (means : Dict String Finite)
      → lookup name (add_mean F n o means)
        ≡ (if name == n then or_next o (lookup name means) else lookup name means)
  unfolding add_mean lookup
  lookup-add_mean name n none means = ground arith
  lookup-add_mean name n (some x) means = refl

  or_next-none : (o : Option Finite) → or_next o none ≡ o
  or_next-none none = refl
  or_next-none (some x) = refl

  lookup-sample_means :
      (name : String) (samples : Dict String (List Finite))
      → IsNodup samples
      → lookup name (sample_means F samples) ≡ mean_in (lookup name samples)
  unfolding sample_means lookup
  lookup-sample_means name [] nodup = refl
  lookup-sample_means name ((n, xs) ∷ samples) (fresh, nodup) =
      lookup-add_mean name n (F.mean xs) (sample_means F samples) ∙ elim (Bool-cases (name == n)) [
        | inl same ↦ rw same (
            ap (or_next (F.mean xs)) (
              lookup-sample_means name samples nodup
              ∙ ap mean_in (ap (λ k. lookup k samples) (==-eq name n same) ∙ fresh))
            ∙ or_next-none (F.mean xs))
        | inr other ↦ rw other (lookup-sample_means name samples nodup)
      ]

  mean_in-extend : (xs : List Finite) → mean_in (extend none xs) ≡ or_mean xs
  mean_in-extend [] = refl
  mean_in-extend (x ∷ xs) = refl

  lookup-raw_series_means :
      (name : String) (v : Value) (legend : Items)
      → (name == "time") ≡ false
      → lookup name (raw_series_means F v legend)
        ≡ or_mean (column_samples F name legend (items_of v))
  unfolding raw_series_means column_samples lookup
  lookup-raw_series_means name (arr points) legend other =
      lookup-sample_means name (note_points F legend points [])
        (note_points-IsNodup F legend points [] tt)
      ∙ ap mean_in (lookup-note_points F name legend points [] other)
      ∙ mean_in-extend (column_samples F name legend points)
  lookup-raw_series_means name _ legend other = refl

  -- The mean of a series that the server aggregated, or else that of its samples.
  unfoldable pub mean_or_samples : Fields → String → Option Finite
  unfolding finite_float member_of mean_of column_samples
  mean_or_samples item name = or_next (finite_float F (member_of (mean_of item) name)) (
      or_mean (
        column_samples F name (items_of (member_of (obj item) "legend"))
          (items_of (member_of (obj item) "data"))))

  series_mean-eq :
      (item : Fields) (name : String)
      → (name == "time") ≡ false
      → series_mean F item name ≡ mean_or_samples item name
  unfolding series_mean mean_or_samples
  series_mean-eq item name other = ap (or_next (finite_float F (member_of (mean_of item) name))) (
      lookup-raw_series_means name (member_of (obj item) "data")
        (items_of (member_of (obj item) "legend")) other)

  lookup-put_mean :
      (name n : String) (o : Option Finite) (means : Dict String Finite)
      → lookup name (put_mean F n o means)
        ≡ or_next (if name == n then o else none) (lookup name means)
  unfolding put_mean
  lookup-put_mean name n none means = ground arith
  lookup-put_mean name n (some x) means = ground (arith, lookup-insert name n x means)

  -- One name of a legend.
  lookup-name :
      (item : Fields) (name n : String) (means : Dict String Finite)
      → (name == "time") ≡ false
      → lookup name (if n == "time" then means else put_mean F n (series_mean F item n) means)
        ≡ or_next (if name == n then series_mean F item name else none) (lookup name means)
  lookup-name item name n means other = elim (Bool-cases (n == "time")) [
    | inl time ↦ rw (time, not_named name n "time" other time)
    | inr named ↦ rw named (
        lookup-put_mean name n (series_mean F item n) means
        ∙ ap (λ o. or_next o (lookup name means)) (at_name name n (series_mean F item)))
  ]

  or_next-either :
      (a b : Bool) (o m : Option Finite)
      → or_next (if b then o else none) (or_next (if a then o else none) m)
        ≡ or_next (if a || b then o else none) m
  or_next-either true true none m = refl
  or_next-either true true (some x) m = refl
  or_next-either true false o m = refl
  or_next-either false b o m = refl

  lookup-legend_means :
      (item : Fields) (name : String) (legend : Items) (means : Dict String Finite)
      → (name == "time") ≡ false
      → lookup name (legend_means F item legend means)
        ≡ or_next
            (if names_series name legend then series_mean F item name else none)
            (lookup name means)
  unfolding legend_means names_series
  lookup-legend_means item name nil means other = refl
  lookup-legend_means item name (cons (str n) legend) means other =
      lookup-legend_means item name legend _ other
      ∙ ap (or_next (if names_series name legend then series_mean F item name else none))
          (lookup-name item name n means other)
      ∙ or_next-either (name == n) (names_series name legend) (series_mean F item name)
          (lookup name means)
  lookup-legend_means item name (cons _ legend) means other =
      lookup-legend_means item name legend means other

  -- For an item with a legend, whatever its points are: a series that the legend names has the mean
  -- that the server aggregated, if that is a finite number, or else the mean of its samples, taken
  -- from the points that have exactly one sample for each name (and a time before them, if the
  -- legend does not name it); another series has none.
  pub lookup-series_means :
      (item : Fields) (name : String)
      → has (text "legend") item ≡ true
      → (name == "time") ≡ false
      → lookup name (series_means F item) ≡ (
          if names_series name (items_of (member_of (obj item) "legend"))
          then mean_or_samples item name
          else none)
  unfolding series_means lookup
  lookup-series_means item name legend other = rw legend (
      lookup-legend_means item name (items_of (member_of (obj item) "legend")) [] other
      ∙ or_next-none _
      ∙ ap (λ o. if names_series name (items_of (member_of (obj item) "legend")) then o else none)
          (series_mean-eq item name other))
