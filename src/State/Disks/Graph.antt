-- ===== src/State/Disks/Graph.antt =====
-- The graph with the temperatures: its discovery and its readings.
use aiotruenas.Base.{
  ℕ, String, Bool, true, false, not, ◌&&◌, ◌||◌, Option, none, some, List, ◌==◌, string_eq, Result,
  ok, raise, if◌then◌else◌,
}
use aiotruenas.Value.{text, str, arr, obj, Items, nil, cons, Fields, end, get, key_eq}
use aiotruenas.Value.Text.{codes, lower, has_fragment}
use aiotruenas.Normalize.Spec.{or_default}
use aiotruenas.Rpc.{Reply, returned, failed, aborted}
use aiotruenas.Helpers.Netdata.{has_disk_temp_entries}
use aiotruenas.Helpers.Netdata.Disks.{disk_temps_from_graph_data}
use aiotruenas.State.Cache.{Cache, Server, Platform}
use aiotruenas.State.Fallback.{clear, note_failed, note_recovered}
use aiotruenas.State.Alerts.{text_of}

graph_text : Platform → Fields → String → List ℕ
unfolding get
graph_text P graph name = codes (text_of P (or_default (get (text name) graph) (str "")))

-- The test of `_find_disk_temp_graph_name`.
unfoldable pub is_disk_temp_graph : Platform → Fields → Bool
unfolding graph_text has_fragment lower
is_disk_temp_graph P graph =
    let name = graph_text P graph "name" in
    let title = lower (graph_text P graph "title") in
    let vertical = lower (graph_text P graph "vertical_label") in
    (has_fragment (codes "disk") name || has_fragment (codes "disk") title)
    && (has_fragment (codes "temp") name
        || has_fragment (codes "temp") title
        || has_fragment (codes "celsius") vertical)

unfoldable pub find_disk_temp_graph_name : Platform → Items → String
unfolding is_disk_temp_graph get
find_disk_temp_graph_name P nil = ""
find_disk_temp_graph_name P (cons (obj graph) rest) =
    let later = find_disk_temp_graph_name P rest in
    if is_disk_temp_graph P graph
    then text_of P (or_default (get (text "name") graph) (str ""))
    else later
find_disk_temp_graph_name P (cons v rest) = find_disk_temp_graph_name P rest

-- The readings of the graph, or none.
abbrev pub Readings : Type 0
Readings = Option Fields

is_nil : Items → Bool
is_nil nil = true
is_nil (cons v vs) = false

judge_temps : Items → Fields → Cache → Readings × Cache
unfolding is_nil has_disk_temp_entries
judge_temps graph end s = (
  none,
  if not (is_nil graph) && not (has_disk_temp_entries (arr graph))
      then note_failed "disk_temp_netdata" s
      else clear "disk_temp_netdata" s,
)
judge_temps graph temps s = (some temps, note_recovered "disk_temp_netdata" s)

-- `_disk_temps_from_netdata` on the response of "reporting.netdata_graph"
unfoldable pub with_graph : Platform → Reply → Cache → Result String Readings × Cache
unfolding judge_temps disk_temps_from_graph_data
with_graph P (returned (arr graph)) s =
    let (temps, noted) = judge_temps graph (disk_temps_from_graph_data P.arithmetic graph) s in
    (ok temps, noted)
with_graph P (returned v) s = (ok none, note_failed "disk_temp_netdata" s)
with_graph P (failed e) s = (ok none, note_failed "disk_temp_netdata" s)
with_graph P (aborted why) s = (raise why, s)

-- `_disk_temps_from_netdata` with the name of the graph
read_graph : Platform → Server → String → Cache → Result String Readings × Cache
unfolding string_eq with_graph
read_graph P V name s =
    if name == ""
    then (ok none, note_recovered "disk_temp_netdata" s)
    else with_graph P (V.graph name) s

with_graph_list : Platform → Server → Reply → Cache → Result String Readings × Cache
unfolding read_graph find_disk_temp_graph_name
with_graph_list P V (returned (arr graphs)) s =
    let name = find_disk_temp_graph_name P graphs in
    read_graph P V name (record s { disk_temp_graph = some name })
with_graph_list P V (returned v) s = (ok none, note_failed "disk_temp_netdata" s)
with_graph_list P V (failed e) s = (ok none, note_failed "disk_temp_netdata" s)
with_graph_list P V (aborted why) s = (raise why, s)

unfoldable pub disk_temps_from_netdata :
    Platform → Server → Option String → Cache → Result String Readings × Cache
unfolding with_graph_list read_graph
disk_temps_from_netdata P V none s = with_graph_list P V (V.call "reporting.netdata_graphs") s
disk_temps_from_netdata P V (some name) s = read_graph P V name s
