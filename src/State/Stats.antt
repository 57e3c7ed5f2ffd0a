-- ===== src/State/Stats.antt =====
-- `get_systemstats`: the readings of graphs in the system info, and the throughput of interfaces.
use aiotruenas.Base.{
  String, Bool, true, false, Option, none, some, List, [], ◌∷◌, ◌++◌, ◌==◌, string_eq,
  if◌then◌else◌,
}
use Prim.Native.String.{◌++◌ as ◌<>◌}
use aiotruenas.Value.{Key, text, Value, int, obj, Fields, end, field, get}
use aiotruenas.Base.Int.{pos}
use aiotruenas.Value.Dict.{put}
use aiotruenas.Rpc.{Reply, returned, failed, aborted}
use aiotruenas.Normalize.Spec.{or_default}
use aiotruenas.Helpers.Netdata.{netdata_max_mean, netdata_named_means}
use aiotruenas.Helpers.Netdata.Interfaces.{netdata_interface_throughput}
use aiotruenas.State.Cache.{
  Cache, Server, Platform, Ended, refreshed, propagated, crashed, endpoint, set_endpoint,
}
use aiotruenas.State.Fallback.{clear, note_failed, note_recovered}
use aiotruenas.State.Info.{is_positive, with_virtual}

-- What a handler does: whether it applied a reading, or none for an exception, and the info.
abbrev pub Applied : Type 0
Applied = Option Bool × Fields

put_some : Option Value → String → Fields → Applied
unfolding put
put_some none name info = (some false, info)
put_some (some v) name info = (some true, put (text name) v info)

-- A mean that a graph has, rounded.
put_mean : Platform → Option Value → String → Fields → Fields
unfolding put
put_mean P none name info = info
put_mean P (some v) name info = put (text name) (P.arithmetic.round2 v) info

nonempty_fields : Fields → Bool
nonempty_fields end = false
nonempty_fields (field k v fs) = true

-- `_apply_load_stat`
unfoldable pub apply_load_stat : Platform → Fields → Fields → Applied
unfolding put_mean get nonempty_fields
apply_load_stat P means info = (
  some (nonempty_fields means),
  put_mean P (get (text "longterm") means) "load_longterm" (
      put_mean P (get (text "midterm") means) "load_midterm"
        (put_mean P (get (text "shortterm") means) "load_shortterm" info)),
)

-- `_apply_cpu_stat` and `_apply_arcsize_stat`, on the mean of their only series.
unfoldable pub apply_single_stat : Platform → String → Option Value → Fields → Applied
unfolding put
apply_single_stat P name none info = (some false, info)
apply_single_stat P name (some mean) info =
    (some true, put (text name) (P.arithmetic.round2 mean) info)

put_percent : Option Value → Fields → Applied
unfolding put
put_percent none info = (none, info)
put_percent (some percent) info = (some true, put (text "memory-usage_percent") percent info)

-- `_apply_memory_stat`
unfoldable pub apply_memory_stat : Platform → Option Value → Fields → Applied
unfolding put get put_percent is_positive
apply_memory_stat P none info = (some false, info)
apply_memory_stat P (some mean) info =
    let changed = put (text "memory-free_value") (P.arithmetic.round2 mean) info in
    let total = or_default (get (text "memory-total_value") changed) (int (pos 0)) in
    if is_positive total
    then put_percent (P.memory_percent total mean) changed
    else (some true, changed)

mean_named : Platform → Value → String → Option Value
unfolding get netdata_named_means
mean_named P raw name = get (text name) (netdata_named_means P.arithmetic raw (name ∷ []))

-- `_apply_systemstat` with `_SYSTEMSTAT_HANDLERS`
unfoldable pub apply_systemstat : Platform → String → Value → Fields → Applied
unfolding put_some mean_named netdata_max_mean netdata_named_means string_eq
apply_systemstat P graph raw info =
    if graph == "cputemp"
    then put_some (netdata_max_mean P.arithmetic raw) "cpu_temperature" info
    else if graph == "load"
    then apply_load_stat P
        (netdata_named_means P.arithmetic raw ("shortterm" ∷ "midterm" ∷ "longterm" ∷ [])) info
    else if graph == "cpu"
    then apply_single_stat P "cpu_usage" (mean_named P raw "cpu") info
    else if graph == "arcsize"
    then apply_single_stat P "cache_size-arc_value" (mean_named P raw "size") info
    else if graph == "memory"
    then apply_memory_stat P (mean_named P raw "available") info
    else (some true, info)

-- The graphs that are asked for.
unfoldable pub systemstats_graphs : Bool → List String
systemstats_graphs true = "load" ∷ "cpu" ∷ "memory" ∷ "arcsize" ∷ []
systemstats_graphs false = "load" ∷ "cpu" ∷ "cputemp" ∷ "memory" ∷ "arcsize" ∷ []

abbrev pub systemstat_key : String → String
systemstat_key graph = "systemstat:" <> graph

-- The stale graphs, unless an exception ends the refresh.
abbrev pub Stale : Type 0
Stale = Ended × List String

abbrev add_stale : String → Stale × Cache → Stale × Cache
add_stale graph ((ended, stale), s) = ((ended, graph ∷ stale), s)

-- The part of the loop on one usable result, which goes on with `later`.
note_applied : String → Applied → (Cache → Stale × Cache) → Cache → Stale × Cache
note_applied graph (none, info) later s = ((crashed, []), set_endpoint "system_info" info s)
note_applied graph (some true, info) later s =
    later (note_recovered (systemstat_key graph) (set_endpoint "system_info" info s))
note_applied graph (some false, info) later s =
    add_stale graph (later (note_failed (systemstat_key graph) (set_endpoint "system_info" info s)))

-- The loop of `_refresh_systemstat_graphs` over the replies.
unfoldable pub refresh_systemstat_graphs : Platform → List (String × Reply) → Cache → Stale × Cache
unfolding note_applied
refresh_systemstat_graphs P [] s = ((refreshed, []), s)
refresh_systemstat_graphs P ((graph, returned raw) ∷ rest) s =
    note_applied graph (apply_systemstat P graph raw (endpoint "system_info" s))
      (refresh_systemstat_graphs P rest) s
refresh_systemstat_graphs P ((graph, failed e) ∷ rest) s =
    add_stale graph (refresh_systemstat_graphs P rest (note_failed (systemstat_key graph) s))
refresh_systemstat_graphs P ((graph, aborted why) ∷ rest) s = ((propagated why, []), s)

-- `d.update(other)`
unfoldable pub update_fields : Fields → Fields → Fields
unfolding put
update_fields end d = d
update_fields (field k v rest) d = update_fields rest (put k v d)

update_interface : Key → Option Value → Fields → Bool × Fields → Bool × Fields
unfolding put update_fields nonempty_fields
update_interface k (some (obj vals)) throughput (applied, changed) =
    if nonempty_fields throughput
    then (true, put k (obj (update_fields throughput vals)) changed)
    else (applied, changed)
update_interface k o throughput so_far = so_far

-- The loop of `_refresh_interface_throughput`.
unfoldable pub apply_throughput : Fields → Bool × Fields → Bool × Fields
unfolding update_interface get
apply_throughput end so_far = so_far
apply_throughput (field k (obj throughput) rest) (applied, interfaces) =
    apply_throughput rest (update_interface k (get k interfaces) throughput (applied, interfaces))
apply_throughput (field k v rest) so_far = apply_throughput rest so_far

publish_throughput : Bool × Fields → Cache → Stale × Cache
publish_throughput (true, interfaces) s =
    ((refreshed, []), note_recovered "interface_throughput" (set_endpoint "interface" interfaces s))
publish_throughput (false, interfaces) s =
    ((refreshed, "interface" ∷ []), note_failed "interface_throughput" s)

-- `_refresh_interface_throughput` on its response
unfoldable pub with_throughput : Platform → Reply → Cache → Stale × Cache
unfolding publish_throughput apply_throughput
with_throughput P (returned raw) s =
    publish_throughput
      (apply_throughput (netdata_interface_throughput P.arithmetic raw)
        (false, endpoint "interface" s))
      s
with_throughput P (failed e) s =
    ((refreshed, "interface" ∷ []), note_failed "interface_throughput" s)
with_throughput P (aborted why) s = ((propagated why, []), s)

unfoldable pub refresh_interface_throughput : Platform → Server → Cache → Stale × Cache
unfolding nonempty_fields
refresh_interface_throughput P V s =
    if nonempty_fields (endpoint "interface" s)
    then with_throughput P (V.graph "interface") s
    else ((refreshed, []), clear "interface_throughput" s)

abbrev ask : Server → List String → List (String × Reply)
ask V [] = []
ask V (graph ∷ rest) = (graph, V.graph graph) ∷ ask V rest

finish_stats : List String → Stale × Cache → Ended × Cache
finish_stats stale ((refreshed, more), s) =
    (refreshed, record s { systemstats_stale_graphs = stale ++ more })
finish_stats stale ((ended, more), s) = (ended, s)

then_interfaces : Platform → Server → Stale × Cache → Ended × Cache
unfolding finish_stats refresh_interface_throughput
then_interfaces P V ((refreshed, stale), s) =
    finish_stats stale (refresh_interface_throughput P V s)
then_interfaces P V ((ended, stale), s) = (ended, s)

-- `get_systemstats`, whose detection of a virtual system asks for "system.info" once.
unfoldable pub get_systemstats : Platform → Server → Cache → Ended × Cache
unfolding then_interfaces
get_systemstats P V s = with_known s.is_virtual
  where
    stats : Bool → Cache → Ended × Cache
    stats is_virtual u =
        then_interfaces P V (refresh_systemstat_graphs P (ask V (systemstats_graphs is_virtual)) u)

    with_known : Option Bool → Ended × Cache
    with_known none = with_virtual (V.call "system.info") stats s
    with_known (some is_virtual) = stats is_virtual s
