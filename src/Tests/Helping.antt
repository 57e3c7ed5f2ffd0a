-- ===== src/Tests/Helping.antt =====
-- Pool topologies, disk temperatures and graph failures.
use aiotruenas.Value.Text.{is_space}
use aiotruenas.Helpers.System.{parse_version_tuple, cpuset_size, sum_sizes}
use aiotruenas.Helpers.System.Version.{
  ReadsDecimals, parse_version_tuple-version_text, version_text,
}
use aiotruenas.Errors.Classify.{member_of}
use aiotruenas.Helpers.Netdata.{finite_values, mean_of, readings, Arithmetic}
use aiotruenas.Helpers.Topology.{add_stats, as_int, over_categories, aggregate_topology_errors}
use aiotruenas.Rpc.{Reply, returned, failed}
use aiotruenas.Value.Dict.{put}
use aiotruenas.Base.{
  ℕ, zero, ◌+◌, ◌/◌, String, true, ◌≡◌, refl, some, List, [], ◌∷◌, arith, leb, ok, raise, ◌-◌, ◌&&◌,
  ◌==◌, Option, none, string_eq, if◌then◌else◌,
}
use aiotruenas.Base.Int.{pos}
use aiotruenas.Value.{
  text, Value, null, int, float, str, arr, obj, Items, nil, cons, Fields, end, field, get, finite,
}
use aiotruenas.Errors.Exceptions.{ClientError, plain, closed, call_error, Phase, call_timeout}
use aiotruenas.Helpers.Topology.Leaves.{
  aggregate_topology_errors-leaves, add_all, leaves_of_topology,
}
use aiotruenas.Helpers.Netdata.Disks.{disk_temps_from_graph_data, in_range, disk_temps}
use aiotruenas.Helpers.Netdata.Disks.Range.{disk_temps_from_graph_data-in_range}
use aiotruenas.System.Graphs.{
  while_fetching, fetch_graphs, reportable_failures, fatal, is_absent_optional_graph,
  is_disconnect_symptom, is_per_graph, primary_error, report_or_raise, root_cause, sort_replies,
}
use aiotruenas.System.Graphs.Failures.{reportable_failures-raise, IsRootOf}

abbrev errors : ℕ → Value
errors n = obj (field (text "read_errors") (int (pos n)) end)

-- A mirror of two disks: the count of the mirror itself is not added.
abbrev pool : Fields
pool =
    field (text "data")
      (arr (
        cons
          (obj (
            field (text "stats") (errors 100) (
              field (text "children")
                (arr (
                  cons (obj (field (text "stats") (errors 1) end))
                    (cons (obj (field (text "stats") (errors 2) end)) nil)))
                end)))
          nil))
      end

pool_errors :
    aggregate_topology_errors (obj pool) ≡ record { read = pos 3; write = pos 0; checksum = pos 0 }
unfolding aggregate_topology_errors over_categories add_stats member_of as_int
pool_errors = refl

aggregate_topology_errors-leaves_example :
    aggregate_topology_errors (obj pool)
    ≡ add_all (leaves_of_topology pool) (record { read = pos 0; write = pos 0; checksum = pos 0 })
aggregate_topology_errors-leaves_example = aggregate_topology_errors-leaves pool

-- Arithmetic on numbers without a fraction.
abbrev size : Value → ℕ
size (int (pos n)) = n
size (float (finite (pos n) zero)) = n
size v = 1000

abbrev whole : Arithmetic
whole = record {
  convertible = λ n. true;
  plus = λ v w. int (pos (size v + size w));
  over = λ v n. int (pos (size v / n));
  round2 = λ v. v;
  to_float = λ v. v;
  kibibytes = λ v. v;
  at_most = λ v w. leb (size v) (size w);
  format = λ v. "disk";
}

mean_in_range :
    (v w : Value)
    → in_range whole v ≡ true
    → in_range whole w ≡ true
    → in_range whole (int (pos ((size v + size w) / 2))) ≡ true
unfolding in_range
mean_in_range v w h i = ground arith

abbrev temperatures : Items
temperatures =
    cons
      (obj (
        field (text "identifier") (str "sda") (
          field (text "aggregations")
            (obj (
              field (text "mean")
                (obj (
                  field (text "a") (int (pos 30))
                    (field (text "b") (int (pos 40)) (field (text "c") (int (pos 900)) end))))
                end))
            end)))
      nil

median_temperature :
    get (text "disk") (disk_temps_from_graph_data whole temperatures) ≡ some (int (pos 35))
unfolding disk_temps_from_graph_data get disk_temps readings mean_of finite_values put
median_temperature = refl

disk_temps_from_graph_data-in_range_example : in_range whole (int (pos 35)) ≡ true
disk_temps_from_graph_data-in_range_example =
    disk_temps_from_graph_data-in_range whole mean_in_range temperatures (text "disk")
      (int (pos 35)) median_temperature

abbrev repr : Value → String
repr v = "value"

abbrev rejected : ClientError
rejected = call_error (str "denied") null null null null

abbrev replies : List (String × Reply)
replies = ("cpu", returned (arr nil)) ∷ ("memory", failed rejected) ∷ []

partial_stats :
    fetch_graphs repr true replies ≡ ok (("cpu", arr nil) ∷ [], ("memory", rejected) ∷ [])
unfolding fetch_graphs sort_replies is_absent_optional_graph report_or_raise is_per_graph
partial_stats = refl

-- A timeout, and the call that it disconnected.
abbrev lost_calls : List (String × ClientError)
lost_calls =
    ("cpu", closed "timed out" Phase.disconnect)
    ∷ ("memory", plain call_timeout "timed out")
    ∷ ("arcsize", rejected)
    ∷ []

timeout_raised :
    reportable_failures true lost_calls
    ≡ raise (while_fetching "memory" (plain call_timeout "timed out"))
unfolding reportable_failures report_or_raise is_per_graph primary_error root_cause
    is_disconnect_symptom
timeout_raised = refl

reportable_failures-raise_example :
    IsRootOf ("memory", plain call_timeout "timed out") (fatal lost_calls)
reportable_failures-raise_example =
    reportable_failures-raise true lost_calls "memory" (plain call_timeout "timed out")
      timeout_raised

-- The decimal digits of ASCII.
abbrev ascii_digit : ℕ → Option ℕ
ascii_digit c = if leb 48 c && leb c 57 then some (c - 48) else none

ascii_reads : ReadsDecimals ascii_digit
ascii_reads = (λ d h. ground arith, refl)

parse_version_tuple-version_text_example :
    parse_version_tuple ascii_digit (str "TrueNAS-25.10.0") ≡ (25, 10)
unfolding version_text
parse_version_tuple-version_text_example =
    parse_version_tuple-version_text ascii_digit ascii_reads "TrueNAS-25.10.0" 25 10
      (b'.' ∷ b'0' ∷ []) (omega arith) (omega arith) (omega arith, (omega arith, tt)) refl refl

-- A cpuset with a range, a single CPU, and a part that is none.
cpuset :
    cpuset_size
      (λ s. if s == "0" then some (pos 0) else if s == "3" then some (pos 3) else none)
      (str "0-3, 3,x")
    ≡ 5
unfolding cpuset_size sum_sizes is_space
cpuset = refl
