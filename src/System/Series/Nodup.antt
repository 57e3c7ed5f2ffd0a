-- ===== src/System/Series/Nodup.antt =====
-- The samples of a series are noted under one key.
use aiotruenas.Base.{
  String, Bool, true, false, Option, none, some, List, [], ◌∷◌, ◌++◌, ◌==◌, string_eq, nat_eq,
  if◌then◌else◌,
}
use aiotruenas.Base.Assoc.{Dict, lookup}
use aiotruenas.Value.{Value, str, arr, Items, nil, cons}
use aiotruenas.Helpers.Netdata.{has_text}
use aiotruenas.System.Models.{Finite}
use aiotruenas.System.Fields.{Floats, finite_float}
use aiotruenas.System.Series.{
  count_items, columns, width_of, samples_or_none, note_value, note_sample, note_point, note_points,
}
use aiotruenas.System.Series.Samples.{IsNodup, insert-IsNodup}

if-IsNodup :
    (test : Bool) (a b : Dict String (List Finite))
    → IsNodup a
    → IsNodup b
    → IsNodup (if test then a else b)
if-IsNodup true a b left right = left
if-IsNodup false a b left right = right

module _ (F : Floats) where
  note_sample-IsNodup :
      (w v : Value) (samples : Dict String (List Finite))
      → IsNodup samples
      → IsNodup (note_sample F w v samples)
  unfolding note_sample
  note_sample-IsNodup (str n) v samples nodup = noted (finite_float F v)
    where
      noted : (o : Option Finite) → IsNodup (note_value F n o samples)
      noted none = nodup
      noted (some x) =
          if-IsNodup (n == "time") samples _ nodup
            (insert-IsNodup n (samples_or_none (lookup n samples) ++ (x ∷ [])) samples nodup)
  note_sample-IsNodup _ v samples nodup = nodup

  note_point-IsNodup :
      (legend point : Items) (samples : Dict String (List Finite))
      → IsNodup samples
      → IsNodup (note_point F legend point samples)
  unfolding note_point
  note_point-IsNodup nil point samples nodup = nodup
  note_point-IsNodup (cons w legend) nil samples nodup = nodup
  note_point-IsNodup (cons w legend) (cons v point) samples nodup =
      note_point-IsNodup legend point _ (note_sample-IsNodup w v samples nodup)

  pub note_points-IsNodup :
      (legend points : Items) (samples : Dict String (List Finite))
      → IsNodup samples
      → IsNodup (note_points F legend points samples)
  unfolding note_points
  note_points-IsNodup legend nil samples nodup = nodup
  note_points-IsNodup legend (cons (arr point) points) samples nodup =
      note_points-IsNodup legend points _ (
        if-IsNodup (count_items point == width_of legend)
          (note_point F legend (columns (has_text "time" legend) point) samples) samples
          (note_point-IsNodup legend (columns (has_text "time" legend) point) samples nodup) nodup)
  note_points-IsNodup legend (cons _ points) samples nodup =
      note_points-IsNodup legend points samples nodup
