-- ===== src/System/Series.antt =====
-- The means of the series of one graph item, and the throughput of interfaces.
pub mod Samples
pub mod Points
pub mod Nodup
pub mod Means
use aiotruenas.Base.{
  ℕ, zero, suc, ◌+◌, String, Bool, true, false, Option, none, some, List, [], ◌∷◌, ◌++◌, ◌==◌,
  string_eq, nat_eq, if◌then◌else◌,
}
use aiotruenas.Base.Assoc.{Dict, lookup, insert}
use aiotruenas.Value.{text, Key, Value, str, arr, obj, Items, nil, cons, Fields, end, field}
use aiotruenas.Value.Dict.{has}
use aiotruenas.Errors.Classify.{member_of}
use aiotruenas.Helpers.Netdata.{has_text, mean_of}
use aiotruenas.System.Models.{Finite, InterfaceTraffic}
use aiotruenas.System.Fields.{Floats, finite_float, non_negative}

-- `len(items)`
unfoldable pub count_items : Items → ℕ
count_items nil = 0
count_items (cons v vs) = suc (count_items vs)

abbrev pub items_of : Value → Items
items_of (arr items) = items
items_of v = nil

abbrev pub fields_of : Value → Fields
fields_of (obj fs) = fs
fields_of v = end

-- `point if has_time else point[1:]`
abbrev pub columns : Bool → Items → Items
columns true point = point
columns false nil = nil
columns false (cons timestamp point) = point

-- `len(legend) if has_time else len(legend) + 1`
abbrev pub width_of : Items → ℕ
width_of legend = if has_text "time" legend then count_items legend else count_items legend + 1

abbrev pub samples_or_none : Option (List Finite) → List Finite
samples_or_none none = []
samples_or_none (some xs) = xs

abbrev pub or_next : Option Finite → Option Finite → Option Finite
or_next none next = next
or_next (some x) next = some x

-- `_first_rate`
unfoldable pub first_rate : Dict String Finite → List String → Option Finite
unfolding non_negative lookup string_eq
first_rate means [] = none
first_rate means (name ∷ names) =
    or_next (non_negative (lookup name means)) (first_rate means names)

module _ (F : Floats) where
  note_value : String → Option Finite → Dict String (List Finite) → Dict String (List Finite)
  unfolding string_eq lookup insert
  note_value name none samples = samples
  note_value name (some x) samples =
      if name == "time"
      then samples
      else insert name (samples_or_none (lookup name samples) ++ (x ∷ [])) samples

  note_sample : Value → Value → Dict String (List Finite) → Dict String (List Finite)
  unfolding note_value finite_float
  note_sample (str name) sample samples = note_value name (finite_float F sample) samples
  note_sample v sample samples = samples

  -- The loop over a point, zipped with the legend.
  unfoldable pub note_point : Items → Items → Dict String (List Finite) → Dict String (List Finite)
  unfolding note_sample
  note_point (cons name legend) (cons sample point) samples =
      note_point legend point (note_sample name sample samples)
  note_point legend point samples = samples

  -- The loop over the points. One that is no list, or of another width, is ignored.
  unfoldable pub note_points : Items → Items → Dict String (List Finite) → Dict String (List Finite)
  unfolding note_point count_items has_text nat_eq
  note_points legend nil samples = samples
  note_points legend (cons (arr point) points) samples = note_points legend points (
      if count_items point == width_of legend
      then note_point legend (columns (has_text "time" legend) point) samples
      else samples)
  note_points legend (cons v points) samples = note_points legend points samples

  add_mean : String → Option Finite → Dict String Finite → Dict String Finite
  add_mean name none means = means
  add_mean name (some x) means = (name, x) ∷ means

  -- The finite means of the samples.
  unfoldable pub sample_means : Dict String (List Finite) → Dict String Finite
  unfolding add_mean
  sample_means [] = []
  sample_means ((name, values) ∷ samples) = add_mean name (F.mean values) (sample_means samples)

  -- `_raw_series_means`
  unfoldable pub raw_series_means : Value → Items → Dict String Finite
  unfolding note_points sample_means
  raw_series_means (arr points) legend = sample_means (note_points legend points [])
  raw_series_means v legend = []

  put_mean : String → Option Finite → Dict String Finite → Dict String Finite
  unfolding insert string_eq
  put_mean name none means = means
  put_mean name (some x) means = insert name x means

  -- The mean of a series that the legend names: the aggregated one, or else that of the raw points.
  unfoldable pub series_mean : Fields → String → Option Finite
  unfolding finite_float member_of mean_of raw_series_means lookup string_eq
  series_mean item name = or_next (finite_float F (member_of (mean_of item) name)) (
      lookup name
        (raw_series_means (member_of (obj item) "data") (items_of (member_of (obj item) "legend"))))

  -- The loop over the names of the legend.
  unfoldable pub legend_means : Fields → Items → Dict String Finite → Dict String Finite
  unfolding put_mean series_mean string_eq
  legend_means item nil means = means
  legend_means item (cons (str name) legend) means =
      legend_means item legend
        (if name == "time" then means else put_mean name (series_mean item name) means)
  legend_means item (cons v legend) means = legend_means item legend means

  -- The aggregated means alone, where there is no legend.
  unfoldable pub aggregated_only : Fields → Dict String Finite
  unfolding add_mean finite_float string_eq
  aggregated_only end = []
  aggregated_only (field (text name) v mean) =
      let rest = aggregated_only mean in
      if name == "time" then rest else add_mean name (finite_float F v) rest
  aggregated_only (field k v mean) = aggregated_only mean

  -- `_series_means`, of an item whose legend is a list if it has one
  unfoldable pub series_means : Fields → Dict String Finite
  unfolding legend_means aggregated_only has mean_of member_of
  series_means item =
      if has (text "legend") item
      then legend_means item (items_of (member_of (obj item) "legend")) []
      else aggregated_only (fields_of (mean_of item))

  -- `_first_item_means`
  unfoldable pub first_item_means : Value → Dict String Finite
  unfolding series_means
  first_item_means (arr (cons item items)) = series_means (fields_of item)
  first_item_means v = []

  unfoldable pub traffic_of : Fields → InterfaceTraffic
  unfolding series_means first_rate
  traffic_of item =
      let means = series_means item in
      record {
        rx_kbps = first_rate means ("received" ∷ "rx" ∷ []);
        tx_kbps = first_rate means ("sent" ∷ "tx" ∷ []);
      }

  unfoldable pub note_traffic :
      Value → Fields → Dict String InterfaceTraffic → Dict String InterfaceTraffic
  unfolding traffic_of insert string_eq
  note_traffic (str identifier) item traffic = insert identifier (traffic_of item) traffic
  note_traffic v item traffic = traffic

  -- `_interface_traffic`, on the traffic so far: every item is a dict with a text "identifier".
  unfoldable pub interface_traffic :
      Items → Dict String InterfaceTraffic → Dict String InterfaceTraffic
  unfolding note_traffic member_of
  interface_traffic nil traffic = traffic
  interface_traffic (cons item items) traffic =
      interface_traffic items (note_traffic (member_of item "identifier") (fields_of item) traffic)
