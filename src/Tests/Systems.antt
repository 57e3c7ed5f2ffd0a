-- ===== src/Tests/Systems.antt =====
-- System info, interfaces and stats.
use aiotruenas.System.Info.Identity.{all_space, get_system_id-padded}
use aiotruenas.Value.Text.{strip, is_space}
use aiotruenas.Value.Dict.{has}
use aiotruenas.Base.{
  ℕ, suc, ◌+◌, ◌*◌, ◌/◌, String, true, ◌≡◌, refl, none, some, List, [], ◌∷◌, ok, ◌==◌, string_eq,
  if◌then◌else◌,
}
use aiotruenas.Base.Int.{pos, pos_part}
use aiotruenas.Base.Assoc.{Dict, lookup}
use aiotruenas.Value.{text, Value, null, int, str, arr, obj, Items, nil, cons, Fields, end, field}
use aiotruenas.Errors.Exceptions.{ClientError, call_error, plain, malformed_response}
use aiotruenas.Rpc.{Reply, returned, failed}
use aiotruenas.System.Models.{Finite, SystemStats, NetworkInterface}
use aiotruenas.System.Fields.{Floats}
use aiotruenas.System.Info.{get_system_id, parse_system_info}
use aiotruenas.System.Interfaces.{get_network_interfaces}
use aiotruenas.System.Interfaces.Keyed.{
  get_network_interfaces-last, last_usable, unusable_entries, IsKeyed,
}
use aiotruenas.System.Series.{series_means}
use aiotruenas.System.Series.Samples.{names_series}
use aiotruenas.System.Series.Means.{lookup-series_means, mean_or_samples}
use aiotruenas.System.Graphs.{
  sort_replies, is_absent_optional_graph, report_or_raise, is_per_graph, fatal,
}
use aiotruenas.System.Stats.{get_system_stats}
use aiotruenas.System.Stats.Failed.{get_system_stats-failed}
use aiotruenas.System.Stats.Unread.{is_unfilled}
use aiotruenas.System.Stats.Virtual.{get_system_stats-virtual}
use aiotruenas.System.Stats.Sane.{whole}

-- Floats without a fraction.
abbrev sum_of : List Finite → ℕ
sum_of [] = 0
sum_of (x ∷ xs) = pos_part x.mantissa + sum_of xs

abbrev count_of : List Finite → ℕ
count_of [] = 0
count_of (x ∷ xs) = suc (count_of xs)

abbrev integers : Floats
integers = record {
  to_float = λ n. some (record { mantissa = n; scale = 0 });
  mean = λ xs. some (whole (sum_of xs / count_of xs));
  ratio = λ n d. whole (n / d);
  from_millis = λ x. some (pos (pos_part x.mantissa * 1000));
}

abbrev repr : Value → String
repr v = "value"

identifier : get_system_id repr (returned (str "  ab c ")) ≡ ok "ab c"
unfolding get_system_id is_space
identifier = refl

get_system_id-padded_example :
    (get_system_id repr (returned (str "  ab c ")) ≡ ok "ab c") × ◌≡◌ {A = String} "ab c" "ab c"
unfolding all_space is_space string_eq strip
get_system_id-padded_example = get_system_id-padded repr "  " "ab c" " " refl refl refl

abbrev interface : String → String → Value
interface id state = obj (
    field (text "id") (str id)
      (field (text "state") (obj (field (text "link_state") (str state) end)) end))

abbrev entries : Items
entries =
    cons (interface "eno1" "LINK_STATE_DOWN")
      (cons (interface " " "LINK_STATE_UP") (cons (interface "eno1" "LINK_STATE_UP") nil))

get_network_interfaces-last_example :
    (interfaces : Dict String NetworkInterface) × (get_network_interfaces integers repr
        (returned (arr entries))
      ≡ ok (interfaces, unusable_entries integers entries))
    × (lookup "eno1" interfaces ≡ last_usable integers "eno1" entries)
    × IsKeyed interfaces
get_network_interfaces-last_example = get_network_interfaces-last integers repr entries "eno1"

-- A graph with two points, and one that is too short.
abbrev number : ℕ → Value
number n = int (pos n)

abbrev point : ℕ → ℕ → Value
point t n = arr (cons (number t) (cons (number n) nil))

abbrev graph_item : String → Fields
graph_item series = field (text "legend") (arr (cons (str "time") (cons (str series) nil))) (
    field (text "data")
      (arr (cons (point 1 10) (cons (arr (cons (number 90) nil)) (cons (point 2 20) nil)))) end)

lookup-series_means_example :
    lookup "cpu" (series_means integers (graph_item "cpu"))
    ≡ mean_or_samples integers (graph_item "cpu") "cpu"
unfolding has string_eq mean_or_samples names_series
lookup-series_means_example = lookup-series_means integers (graph_item "cpu") "cpu" refl refl

mean_of_points : lookup "cpu" (series_means integers (graph_item "cpu")) ≡ some (whole 15)
unfolding series_means
mean_of_points = refl

abbrev raw_info : Fields
raw_info =
    field (text "system_product") (str " VirtualBox ")
      (field (text "physmem") (number 60) (field (text "loadavg") (arr nil) end))

virtual_machine : (parse_system_info integers raw_info).is_virtual ≡ some true
unfolding parse_system_info
virtual_machine = refl

abbrev answer : String → Reply
answer graph =
    if graph == "memory"
    then returned (arr (cons (obj (graph_item "available")) nil))
    else if graph == "arcsize"
    then failed (call_error (str "denied") null null null null)
    else returned (arr (cons (obj (graph_item "cpu")) nil))

abbrev other_answer : String → Reply
other_answer graph = if graph == "cputemp" then returned null else answer graph

abbrev malformed_interface : ClientError
malformed_interface =
    plain malformed_response
      "Malformed 'reporting.netdata_graph' response: graph 'interface' item has no identifier: value"

abbrev stats : SystemStats
stats = record {
  cpu_usage_percent = some (whole 15);
  cpu_temperature = none;
  memory_available = some (pos 15);
  memory_usage_percent = some (whole 75);
  arc_size = none;
  interfaces = [];
  failed_graphs =
      ("arcsize", call_error (str "denied") null null null null)
      ∷ ("interface", malformed_interface)
      ∷ [];
}

stats_returned :
    get_system_stats integers repr (some (parse_system_info integers raw_info)) true answer
    ≡ ok stats
unfolding get_system_stats sort_replies is_absent_optional_graph parse_system_info report_or_raise
    is_per_graph
stats_returned = refl

get_system_stats-failed_example :
    (is_unfilled "interface" stats ≡ true) × (fatal stats.failed_graphs ≡ [])
unfolding lookup string_eq
get_system_stats-failed_example =
    get_system_stats-failed integers repr (some (parse_system_info integers raw_info)) true answer
      stats "interface" malformed_interface stats_returned refl

get_system_stats-virtual_example :
    (get_system_stats integers repr (some (parse_system_info integers raw_info)) true other_answer
      ≡ ok stats)
    × (stats.cpu_temperature ≡ none)
unfolding string_eq
get_system_stats-virtual_example =
    get_system_stats-virtual integers repr (parse_system_info integers raw_info) true answer
      other_answer stats virtual_machine (refl, (refl, (refl, (refl, tt)))) stats_returned
