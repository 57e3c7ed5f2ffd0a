-- ===== src/System/Stats.antt =====
-- `get_system_stats`
pub mod Unread
pub mod Failed
pub mod Virtual
pub mod Sane
use aiotruenas.Base.{
  ℕ, ◌-◌, ◌*◌, ◌^◌, suc, String, Bool, true, false, ◌||◌, Option, none, some, List, [], ◌∷◌, ◌++◌,
  map, ◌==◌, string_eq, nat_eq, ltb, if◌then◌else◌, Result, ok, raise, ◌>>=◌,
}
use aiotruenas.Base.Int.{ℤ, pos, negsuc, ltb_ℤ}
use aiotruenas.Base.Assoc.{Dict, lookup}
use aiotruenas.Value.{Value, arr, nil}
use aiotruenas.Errors.Exceptions.{ClientError}
use aiotruenas.Rpc.{Reply}
use aiotruenas.System.Models.{Finite, SystemInfo, SystemStats}
use aiotruenas.System.Fields.{Floats, non_negative, optional_bytes}
use aiotruenas.System.Graphs.{Raised, fetch_graphs}
use aiotruenas.System.Series.{first_item_means, interface_traffic, items_of}

-- m * 2 ^ k
scaled : ℤ → ℕ → ℤ
scaled (pos m) k = pos (m * 2 ^ k)
scaled (negsuc m) k = negsuc (suc m * 2 ^ k - 1)

-- `x < y`
unfoldable pub less : Finite → Finite → Bool
unfolding scaled
less x y = ltb_ℤ (scaled x.mantissa y.scale) (scaled y.mantissa x.scale)

-- `max(values, default=None)`: the first of the largest.
unfoldable pub largest : Finite → List Finite → Finite
unfolding less
largest best [] = best
largest best (x ∷ xs) = largest (if less best x then x else best) xs

unfoldable pub max_or_none : List Finite → Option Finite
unfolding largest
max_or_none [] = none
max_or_none (x ∷ xs) = some (largest x xs)

-- `means.values()`
abbrev pub values : Dict String Finite → List Finite
values [] = []
values ((name, x) ∷ means) = x ∷ values means

-- `system_info.physical_memory`, and the test of `is_virtual`
abbrev pub memory_of : Option SystemInfo → Option ℤ
memory_of none = none
memory_of (some info) = info.physical_memory

abbrev pub virtual_info : Option SystemInfo → Option Bool
virtual_info none = none
virtual_info (some info) = info.is_virtual

abbrev pub temperature_graph : Option Bool → List String
temperature_graph (some true) = []
temperature_graph is_virtual = "cputemp" ∷ []

abbrev pub graphs_of : Option SystemInfo → List String
graphs_of info = "cpu" ∷ "memory" ∷ "arcsize" ∷ "interface" ∷ temperature_graph (virtual_info info)

-- The calls of one query, with what `answer` makes of the call for each graph.
unfoldable pub ask : (String → Reply) → List String → List (String × Reply)
ask answer [] = []
ask answer (graph ∷ graphs) = (graph, answer graph) ∷ ask answer graphs

module _ (F : Floats) where
  -- `_memory_usage_percent`
  unfoldable pub memory_usage_percent : Option ℤ → Option ℤ → Option Finite
  unfolding nat_eq
  memory_usage_percent (some (pos total)) (some (pos available)) =
      if total == 0 || ltb total available
      then none
      else some (F.ratio (100 * (total - available)) total)
  memory_usage_percent total available = none

  -- `data.get(graph, [])`
  unfoldable pub graph_data : String → Dict String Value → Value
  unfolding lookup string_eq
  graph_data graph readings = elim (lookup graph readings) [ none ↦ arr nil | some v ↦ v ]

  -- A series of the first item of a graph.
  unfoldable pub reading : String → String → Dict String Value → Option Finite
  unfolding graph_data first_item_means lookup string_eq
  reading graph series readings = lookup series (first_item_means F (graph_data graph readings))

  unfoldable pub stats_of :
      Option SystemInfo → Dict String Value × List (String × ClientError) → SystemStats
  unfolding reading graph_data first_item_means optional_bytes non_negative memory_usage_percent
      max_or_none interface_traffic
  stats_of info (readings, failed) =
      let memory_available = optional_bytes (reading "memory" "available" readings) in
      record {
        cpu_usage_percent = non_negative (reading "cpu" "cpu" readings);
        cpu_temperature = max_or_none (values (first_item_means F (graph_data "cputemp" readings)));
        memory_available = memory_available;
        memory_usage_percent = memory_usage_percent (memory_of info) memory_available;
        arc_size = optional_bytes (reading "arcsize" "size" readings);
        interfaces = interface_traffic F (items_of (graph_data "interface" readings)) [];
        failed_graphs = failed;
      }

  -- `get_system_stats`, with `repr` as in `Graphs`.
  unfoldable pub get_system_stats :
      (Value → String) → Option SystemInfo → Bool → (String → Reply) → Result Raised SystemStats
  unfolding stats_of ask fetch_graphs
  get_system_stats repr info partial answer =
      fetch_graphs repr partial (ask answer (graphs_of info)) >>= λ found. ok (stats_of info found)
