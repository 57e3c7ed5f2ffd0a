-- ===== src/System/Stats/Virtual.antt =====
-- A virtual machine's temperature is not queried.
use aiotruenas.Base.{
  String, Bool, true, false, ◌≡◌, refl, ap, sym, ◌∙◌, Option, none, some, List, [], ◌∷◌, ◌==◌, ◌||◌,
  ◌>>=◌, arith, string_eq, ok,
}
use aiotruenas.Base.Assoc.{Dict, lookup}
use aiotruenas.Value.{Value}
use aiotruenas.Errors.Exceptions.{ClientError}
use aiotruenas.Rpc.{Reply}
use aiotruenas.System.Models.{SystemInfo, SystemStats}
use aiotruenas.System.Fields.{Floats}
use aiotruenas.System.Graphs.{fetch_graphs, judge}
use aiotruenas.System.Graphs.Failures.{usables, fetch_graphs-ok}
use aiotruenas.System.Stats.{graphs_of, temperature_graph, ask, stats_of, get_system_stats}
use aiotruenas.System.Stats.Failed.{get_system_stats-ok, lookup-usable_of}
use aiotruenas.System.Stats.Unread.{unread-temperature}

-- Two servers that answer the calls for some graphs alike.
abbrev pub Alike : (String → Reply) → (String → Reply) → List String → Type 0
Alike answer other [] = Unit
Alike answer other (graph ∷ graphs) = (answer graph ≡ other graph) × Alike answer other graphs

ask-Alike :
    (answer other : String → Reply) (graphs : List String)
    → Alike answer other graphs
    → ask answer graphs ≡ ask other graphs
unfolding ask
ask-Alike answer other [] alike = refl
ask-Alike answer other (graph ∷ graphs) (same, alike) =
    rw (same, ask-Alike answer other graphs alike)

abbrev pub machine_graphs : List String
machine_graphs = "cpu" ∷ "memory" ∷ "arcsize" ∷ "interface" ∷ []

ask-virtual :
    (info : SystemInfo) (answer : String → Reply)
    → info.is_virtual ≡ some true
    → ask answer (graphs_of (some info)) ≡ ask answer machine_graphs
ask-virtual info answer virtual =
    ap (λ v. ask answer ("cpu" ∷ "memory" ∷ "arcsize" ∷ "interface" ∷ temperature_graph v)) virtual

is_asked : String → List String → Bool
is_asked g [] = false
is_asked g (n ∷ graphs) = g == n || is_asked g graphs

unasked :
    (repr : Value → String) (answer : String → Reply) (g : String) (graphs : List String)
    → is_asked g graphs ≡ false
    → lookup g (usables repr (ask answer graphs)) ≡ none
unfolding usables ask lookup is_asked
unasked repr answer g [] h = refl
unasked repr answer g (n ∷ graphs) h = ground (
  arith,
  lookup-usable_of repr g n (judge repr n (answer n)) (usables repr (ask answer graphs)),
  unasked repr answer g graphs,
)

-- With the calls for these graphs only, there is no temperature.
no_temperature :
    (F : Floats) (repr : Value → String) (info : Option SystemInfo) (partial : Bool)
    (answer : String → Reply) {readings : Dict String Value} {failed : List (String × ClientError)}
    → fetch_graphs repr partial (ask answer machine_graphs) ≡ ok (readings, failed)
    → (stats_of F info (readings, failed)).cpu_temperature ≡ none
unfolding is_asked string_eq
no_temperature F repr info partial answer {readings = readings} {failed = failed} found =
    let (same_readings, same_failed, none_fatal) =
      fetch_graphs-ok repr partial (ask answer machine_graphs) found in
    unread-temperature F info readings failed
      (ap (lookup "cputemp") same_readings ∙ unasked repr answer "cputemp" machine_graphs refl)

with_calls :
    (F : Floats) (repr : Value → String) (info : SystemInfo) (partial : Bool)
    (answer other : String → Reply)
    → ask answer (graphs_of (some info)) ≡ ask other (graphs_of (some info))
    → get_system_stats F repr (some info) partial answer
      ≡ get_system_stats F repr (some info) partial other
unfolding get_system_stats
with_calls F repr info partial answer other same =
    ap (λ calls. fetch_graphs repr partial calls >>= λ found. ok (stats_of F (some info) found))
      same

-- When the system info says that the machine is virtual and get_system_stats returns, then it
-- returns the same stats for every server that answers the calls for the four other graphs alike,
-- and the temperature is None.
pub get_system_stats-virtual :
    (F : Floats) (repr : Value → String) (info : SystemInfo) (partial : Bool)
    (answer other : String → Reply) (stats : SystemStats)
    → info.is_virtual ≡ some true
    → Alike answer other machine_graphs
    → get_system_stats F repr (some info) partial answer ≡ ok stats
    → (get_system_stats F repr (some info) partial other ≡ ok stats)
      × (stats.cpu_temperature ≡ none)
get_system_stats-virtual F repr info partial answer other stats virtual alike returns =
    let (readings, failed, found, same) =
      get_system_stats-ok F repr (some info) partial answer stats returns in
    let same_calls : ask answer (graphs_of (some info)) ≡ ask other (graphs_of (some info)) =
      ask-virtual info answer virtual
      ∙ ask-Alike answer other machine_graphs alike
      ∙ sym (ask-virtual info other virtual) in
    (
      with_calls F repr info partial other answer (sym same_calls) ∙ returns,
      ap (λ s. s.cpu_temperature) (sym same)
          ∙ no_temperature F repr (some info) partial answer {readings = readings} {failed = failed}
              (ap (fetch_graphs repr partial) (sym (ask-virtual info answer virtual)) ∙ found),
    )
