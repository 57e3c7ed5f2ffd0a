-- ===== src/Helpers/Netdata/Interfaces.antt =====
-- The throughput of network interfaces.
use aiotruenas.Base.{String, ◌||◌, Option, none, some, nat_eq, if◌then◌else◌}
use aiotruenas.Value.{text, Value, str, arr, obj, Items, nil, cons, Fields, end, truthy}
use aiotruenas.Value.Dict.{put}
use aiotruenas.Errors.Classify.{member_of}
use aiotruenas.Helpers.Netdata.{Arithmetic, has_text, mean_of, is_finite_number}

module _ (A : Arithmetic) where
  -- One entry of the loop of `_interface_item_throughput`: the first reading that is a number.
  first_finite : Value → Value → Option Value
  first_finite v w =
      if is_finite_number A v then some v else if is_finite_number A w then some w else none

  note_rate : Option Value → String → Fields → Fields
  note_rate none name throughput = throughput
  note_rate (some v) name throughput = put (text name) (A.round2 (A.kibibytes v)) throughput

  unfoldable pub add_rate : Items → Value → String → String → Fields → Fields
  unfolding first_finite note_rate member_of has_text
  add_rate legend mean raw_name short_name throughput =
      if has_text raw_name legend || has_text short_name legend
      then note_rate (first_finite (member_of mean raw_name) (member_of mean short_name)) short_name
          throughput
      else throughput

  rates : Value → Value → Fields
  unfolding add_rate
  rates (arr legend) (obj mean) =
      add_rate legend (obj mean) "sent" "tx" (add_rate legend (obj mean) "received" "rx" end)
  rates legend mean = end

  -- `_interface_item_throughput`
  unfoldable pub interface_item_throughput : Fields → Fields
  unfolding rates member_of
  interface_item_throughput item = rates (member_of (obj item) "legend") (mean_of item)

  note_interface : Value → Fields → Fields → Fields
  unfolding truthy
  note_interface (str name) item result =
      if truthy (str name)
      then put (text name) (obj (interface_item_throughput item)) result
      else result
  note_interface v item result = result

  unfoldable pub interfaces_from : Items → Fields → Fields
  unfolding note_interface member_of
  interfaces_from nil result = result
  interfaces_from (cons (obj item) rest) result =
      interfaces_from rest (note_interface (member_of (obj item) "identifier") item result)
  interfaces_from (cons item rest) result = interfaces_from rest result

  -- `_netdata_interface_throughput`
  unfoldable pub netdata_interface_throughput : Value → Fields
  netdata_interface_throughput (arr items) = interfaces_from items end
  netdata_interface_throughput v = end
