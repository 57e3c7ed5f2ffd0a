-- ===== src/State/Ups.antt =====
-- `get_arc` and `get_ups`: readings from graphs. The discovered UPS graphs are a set: here they are
-- in the order of `_UPS_GRAPHS`, and so are the fields of the readings.
pub mod Readings
pub mod Stale
use aiotruenas.Base.{
  String, Bool, true, false, not, ◌&&◌, ◌||◌, Option, none, some, List, [], ◌∷◌, ◌==◌, string_eq,
  Result, ok, raise, if◌then◌else◌,
}
use aiotruenas.Base.Assoc.{Dict}
use Prim.Native.String.{◌++◌ as ◌<>◌}
use aiotruenas.Value.{text, Value, null, str, arr, obj, Items, nil, cons, Fields, end, get}
use aiotruenas.Value.Dict.{put, has}
use aiotruenas.Value.Text.{codes, begins}
use aiotruenas.Normalize.Spec.{or_default}
use aiotruenas.Normalize.Uid.{nonempty}
use aiotruenas.Rpc.{Reply, returned, failed, aborted}
use aiotruenas.Helpers.Netdata.{netdata_mean_value, has_netdata_series_entry}
use aiotruenas.State.Cache.{
  Cache, Server, Platform, Ended, refreshed, propagated, on_reply, endpoint, set_endpoint,
}
use aiotruenas.State.Fallback.{clear, note_failed, note_recovered}
use aiotruenas.State.Alerts.{text_of}

-- `_ARC_GRAPHS`
abbrev pub arc_graphs : List (String × String)
arc_graphs =
    ("demanddatahitpercentage", "data_hit_percent")
    ∷ ("demandmetadatahitpercentage", "metadata_hit_percent")
    ∷ ("l2architpercentage", "l2_hit_percent")
    ∷ []

-- `_UPS_GRAPHS`
abbrev pub ups_graphs : List (String × String)
ups_graphs =
    ("upscharge", "battery_charge")
    ∷ ("upsruntime", "runtime_seconds")
    ∷ ("upsload", "load")
    ∷ ("upsvoltage", "voltage")
    ∷ ("upscurrent", "current")
    ∷ ("upsfrequency", "frequency")
    ∷ ("upstemperature", "temperature")
    ∷ []

abbrev or_null : Option Value → Value
or_null none = null
or_null (some v) = v

-- `ups_graph:` with the name of a graph
abbrev pub ups_key : String → String
ups_key graph = "ups_graph:" <> graph

-- `_all_cached_ups_graphs`: the graphs whose field is in the readings.
unfoldable pub cached_graphs : List (String × String) → Fields → List String
unfolding has
cached_graphs [] ups = []
cached_graphs ((graph, name) ∷ rest) ups =
    let others = cached_graphs rest ups in if has (text name) ups then graph ∷ others else others

unfoldable pub undiscovered : Cache → Cache
unfolding note_failed endpoint cached_graphs
undiscovered s = record (note_failed "ups_netdata_graphs" s) {
  ups_stale_graphs = cached_graphs ups_graphs (endpoint "ups" s);
}

unfoldable pub is_named : Platform → String → Items → Bool
unfolding get string_eq
is_named P name nil = false
is_named P name (cons (obj graph) rest) =
    text_of P (or_default (get (text "name") graph) (str "")) == name || is_named P name rest
is_named P name (cons v rest) = is_named P name rest

unfoldable pub discovered : Platform → Items → List (String × String) → List (String × String)
unfolding is_named
discovered P graphs [] = []
discovered P graphs ((graph, name) ∷ rest) =
    let others = discovered P graphs rest in
    if is_named P graph graphs then (graph, name) ∷ others else others

is_current : String → List (String × String) → Bool
unfolding string_eq
is_current key [] = false
is_current key ((graph, name) ∷ rest) = key == ups_key graph || is_current key rest

-- The failing keys without those of UPS graphs that are not discovered any more.
unfoldable pub drop_absent : List (String × String) → Dict String Bool → Dict String Bool
unfolding is_current begins
drop_absent available [] = []
drop_absent available ((key, failing) ∷ rest) =
    let others = drop_absent available rest in
    if begins (codes "ups_graph:") (codes key) && not (is_current key available)
    then others
    else (key, failing) ∷ others

-- The cached readings of the discovered graphs.
unfoldable pub seeded : List (String × String) → Fields → Fields
unfolding put get
seeded [] ups = end
seeded ((graph, name) ∷ rest) ups = elim (get (text name) ups) [
  | none ↦ seeded rest ups
  | some value ↦ put (text name) value (seeded rest ups)
]

abbrev first_entry : Items → Items
first_entry nil = nil
first_entry (cons v rest) = cons v nil

-- A list that is empty, or whose first entry is a series.
is_empty_reading : Value → Bool
unfolding has_netdata_series_entry
is_empty_reading (arr nil) = true
is_empty_reading (arr entries) = has_netdata_series_entry (arr (first_entry entries))
is_empty_reading v = false

note_reading : String → Value → Option Value → Cache → Cache
unfolding is_empty_reading
note_reading key raw none s = if is_empty_reading raw then clear key s else note_failed key s
note_reading key raw (some value) s = note_recovered key s

-- The readings of the graphs, or an exception that is none of the library's.
abbrev pub Readings : Type 0
Readings = Result String (List ((String × String) × Option Value))

abbrev add_reading : String × String → Option Value → Readings → Readings
add_reading graph value (ok values) = ok ((graph, value) ∷ values)
add_reading graph value (raise why) = raise why

-- `_apply_ups_graph_result` of each result, in the order of the graphs.
unfoldable pub apply_ups_graph_results :
    Platform → List ((String × String) × Reply) → Cache → Readings × Cache
unfolding note_reading netdata_mean_value
apply_ups_graph_results P [] s = (ok [], s)
apply_ups_graph_results P ((graph, returned raw) ∷ rest) s =
    let value = netdata_mean_value P.arithmetic raw in
    let (later, noted) =
      apply_ups_graph_results P rest (note_reading (ups_key graph.0) raw value s) in
    (add_reading graph value later, noted)
apply_ups_graph_results P ((graph, failed e) ∷ rest) s =
    let (later, noted) = apply_ups_graph_results P rest (note_failed (ups_key graph.0) s) in
    (add_reading graph none later, noted)
apply_ups_graph_results P ((graph, aborted why) ∷ rest) s = (raise why, s)

-- The readings with the new values, and the graphs whose field keeps an older one.
unfoldable pub take_readings :
    List ((String × String) × Option Value) → Fields → Fields × List String
unfolding put has
take_readings [] ups = (ups, [])
take_readings (((graph, name), none) ∷ rest) ups =
    let (later, stale) = take_readings rest ups in
    (later, if has (text name) ups then graph ∷ stale else stale)
take_readings (((graph, name), some value) ∷ rest) ups =
    take_readings rest (put (text name) value ups)

publish_ups : Fields → Readings × Cache → Ended × Cache
unfolding take_readings
publish_ups ups (raise why, s) = (propagated why, s)
publish_ups ups (ok values, s) =
    let (taken, stale) = take_readings values ups in
    (refreshed, record (set_endpoint "ups" taken s) { ups_stale_graphs = stale })

abbrev ask : Server → List (String × String) → List ((String × String) × Reply)
ask V [] = []
ask V (graph ∷ rest) = (graph, V.graph graph.0) ∷ ask V rest

module _ (P : Platform) (V : Server) where
  query_ups_graphs : List (String × String) → Cache → Ended × Cache
  unfolding publish_ups apply_ups_graph_results
  query_ups_graphs available s =
      if nonempty available
      then publish_ups (seeded available (endpoint "ups" s))
          (apply_ups_graph_results P (ask V available) s)
      else (refreshed, record (set_endpoint "ups" end s) { ups_stale_graphs = [] })

  -- `get_ups` from the response of "reporting.netdata_graphs" on
  unfoldable pub with_graphs : Value → Cache → Ended × Cache
  unfolding query_ups_graphs
  with_graphs (arr graphs) s =
      let available = discovered P graphs ups_graphs in
      let noted = note_recovered "ups_netdata_graphs" s in
      query_ups_graphs available
        (record noted { fallback_failing = drop_absent available noted.fallback_failing })
  with_graphs v s = (refreshed, undiscovered s)

  with_discovery : Reply → Cache → Ended × Cache
  with_discovery (returned raw) s = with_graphs raw s
  with_discovery (failed e) s = (refreshed, undiscovered s)
  with_discovery (aborted why) s = (propagated why, s)

  unfoldable pub get_ups : Cache → Ended × Cache
  unfolding with_discovery
  get_ups = with_discovery (V.call "reporting.netdata_graphs")

  -- The loop of `get_arc`
  unfoldable pub read_arc : List (String × String) → Fields → Cache → Ended × Cache
  unfolding put netdata_mean_value
  read_arc [] arc s = (refreshed, set_endpoint "arc" arc s)
  read_arc ((graph, name) ∷ rest) arc s =
      on_reply (V.graph graph)
        (λ raw u.
          read_arc rest (put (text name) (or_null (netdata_mean_value P.arithmetic raw)) arc) u)
        s

  unfoldable pub get_arc : Cache → Ended × Cache
  get_arc = read_arc arc_graphs end
