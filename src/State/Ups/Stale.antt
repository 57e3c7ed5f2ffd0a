-- ===== src/State/Ups/Stale.antt =====
-- A graph is listed as stale only with a reading that it keeps.
use mathlib.Core.Path.{subst}
use aiotruenas.Base.{
  String, Bool, true, false, ◌≡◌, refl, ap, ◌∙◌, ◌⊎◌, inl, inr, Option, none, some, List, [], ◌∷◌,
  string_eq, ok, raise, if◌then◌else◌, Bool-cases,
}
use aiotruenas.Value.{text, Value, arr, Items, Fields, key_eq}
use aiotruenas.Value.Dict.{has}
use aiotruenas.Rpc.{Reply, returned, failed, aborted}
use aiotruenas.Helpers.Netdata.{netdata_mean_value}
use aiotruenas.State.Cache.{Cache, Server, Platform, endpoint, set_endpoint}
use aiotruenas.State.Fallback.{clear, flag_failing, note_failed, note_recovered, is_failing}
use aiotruenas.State.Fallback.Log.{ds-note_failed}
use aiotruenas.State.Fallback.Stale.{Among}
use aiotruenas.State.Kept.{endpoint-set_endpoint}
use aiotruenas.State.Ups.{
  ups_graphs, ups_key, Readings, add_reading, undiscovered, discovered, is_named, drop_absent,
  seeded, note_reading, is_empty_reading, apply_ups_graph_results, take_readings, publish_ups, ask,
  query_ups_graphs, with_graphs, with_discovery, get_ups,
}
use aiotruenas.State.Ups.Readings.{
  HasReading, cached_graphs-HasReading, graphs_of, take_readings-HasReading,
}

-- Every stale graph has a reading.
abbrev pub IsStaleCached : Cache → Type 0
IsStaleCached s =
    (graph : String)
    → Among graph s.ups_stale_graphs
    → HasReading ups_graphs (endpoint "ups" s) graph

-- A refresh that ends before it publishes.
abbrev KeepsReadings : Cache → Cache → Type 0
KeepsReadings s s' = (s'.ds ≡ s.ds) × (s'.ups_stale_graphs ≡ s.ups_stale_graphs)

note_failed-KeepsReadings : (key : String) (s : Cache) → KeepsReadings s (note_failed key s)
unfolding note_failed flag_failing
note_failed-KeepsReadings key s = elim (Bool-cases (is_failing key s)) [
  | inl failing ↦ rw failing (refl, refl)
  | inr working ↦ rw working (refl, refl)
]

note_recovered-KeepsReadings : (key : String) (s : Cache) → KeepsReadings s (note_recovered key s)
unfolding note_recovered clear
note_recovered-KeepsReadings key s = elim (Bool-cases (is_failing key s)) [
  | inl failing ↦ rw failing (refl, refl)
  | inr working ↦ rw working (refl, refl)
]

note_reading-KeepsReadings :
    (key : String) (raw : Value) (value : Option Value) (s : Cache)
    → KeepsReadings s (note_reading key raw value s)
unfolding note_reading clear
note_reading-KeepsReadings key raw none s = elim (Bool-cases (is_empty_reading raw)) [
  | inl empty ↦ rw empty (refl, refl)
  | inr malformed ↦ rw malformed (note_failed-KeepsReadings key s)
]
note_reading-KeepsReadings key raw (some value) s = note_recovered-KeepsReadings key s

KeepsReadings-trans : (s t u : Cache) → KeepsReadings s t → KeepsReadings t u → KeepsReadings s u
KeepsReadings-trans s t u (ds, stale) (ds', stale') = (ds' ∙ ds, stale' ∙ stale)

-- What the graphs' results become: values of the same graphs, and notes.
abbrev OfGraphs : List (String × String) → Readings → Type 0
OfGraphs graphs (ok values) = graphs_of values ≡ graphs
OfGraphs graphs (raise why) = Unit

add_reading-OfGraphs :
    (graph : String × String) (value : Option Value) (graphs : List (String × String))
    (r : Readings)
    → OfGraphs graphs r
    → OfGraphs (graph ∷ graphs) (add_reading graph value r)
add_reading-OfGraphs graph value graphs (ok values) h = ap (λ rest. graph ∷ rest) h
add_reading-OfGraphs graph value graphs (raise why) h = tt

module _ (P : Platform) where
  results-OfGraphs :
      (replies : List ((String × String) × Reply)) (s : Cache)
      → OfGraphs (graphs_of replies) (apply_ups_graph_results P replies s).0
        × KeepsReadings s (apply_ups_graph_results P replies s).1
  unfolding apply_ups_graph_results
  results-OfGraphs [] s = (refl, (refl, refl))
  results-OfGraphs ((graph, returned raw) ∷ rest) s =
      let noted = note_reading (ups_key graph.0) raw (netdata_mean_value P.arithmetic raw) s in
      let (later, kept) = results-OfGraphs rest noted in
      (
        add_reading-OfGraphs graph (netdata_mean_value P.arithmetic raw) (graphs_of rest) _ later,
        KeepsReadings-trans s noted (apply_ups_graph_results P rest noted).1
            (note_reading-KeepsReadings (ups_key graph.0) raw (netdata_mean_value P.arithmetic raw)
              s)
            kept,
      )
  results-OfGraphs ((graph, failed e) ∷ rest) s =
      let (later, kept) = results-OfGraphs rest (note_failed (ups_key graph.0) s) in
      (
        add_reading-OfGraphs graph none (graphs_of rest) _ later,
        KeepsReadings-trans s (note_failed (ups_key graph.0) s)
            (apply_ups_graph_results P rest (note_failed (ups_key graph.0) s)).1
            (note_failed-KeepsReadings (ups_key graph.0) s) kept,
      )
  results-OfGraphs ((graph, aborted why) ∷ rest) s = (tt, (refl, refl))

  graphs_of-ask : (V : Server) (graphs : List (String × String)) → graphs_of (ask V graphs) ≡ graphs
  graphs_of-ask V [] = refl
  graphs_of-ask V (graph ∷ rest) = ap (λ graphs. graph ∷ graphs) (graphs_of-ask V rest)

  discovered-Among :
      (raw : Items) (graphs : List (String × String)) (graph : String × String)
      → Among graph (discovered P raw graphs)
      → Among graph graphs
  unfolding discovered
  discovered-Among raw [] graph among = elim among [ ]
  discovered-Among raw ((first, name) ∷ rest) graph among =
      either (is_named P first raw) among (discovered-Among raw rest graph)
    where
      either :
          (b : Bool)
          → Among graph (if b then (first, name) ∷ discovered P raw rest else discovered P raw rest)
          → (Among graph (discovered P raw rest) → Among graph rest)
          → (graph ≡ (first, name)) ⊎ Among graph rest
      either true (inl same) later = inl same
      either true (inr others) later = inr (later others)
      either false others later = inr (later others)

same_ups : (s s' : Cache) → s'.ds ≡ s.ds → endpoint "ups" s' ≡ endpoint "ups" s
unfolding endpoint
same_ups s s' ds = rw ds

IsStaleCached-kept : (s s' : Cache) → KeepsReadings s s' → IsStaleCached s → IsStaleCached s'
IsStaleCached-kept s s' (ds, stale) cached graph among =
    let (name, named, present) = cached graph (subst (Among graph) stale among) in
    (name, named, ap (λ ups. has (text name) ups) (same_ups s s' ds) ∙ present)

publish_ups-IsStaleCached :
    (graphs : List (String × String)) (ups : Fields) (r : Readings) (s : Cache)
    → OfGraphs graphs r
    → ((graph : String × String) → Among graph graphs → Among graph ups_graphs)
    → IsStaleCached s
    → IsStaleCached (publish_ups ups (r, s)).1
unfolding publish_ups endpoint set_endpoint
publish_ups-IsStaleCached graphs ups (raise why) s of_graphs subset cached = cached
publish_ups-IsStaleCached graphs ups (ok values) s of_graphs subset cached = λ graph among.
    let (name, named, present) = take_readings-HasReading values ups graph among in
    (
      name,
      subset (graph, name) (subst (Among (graph, name)) of_graphs named),
      ap (λ d. has (text name) d) (endpoint-set_endpoint "ups" (take_readings values ups).0 s)
          ∙ present,
    )

undiscovered-IsStaleCached : (s : Cache) → IsStaleCached (undiscovered s)
unfolding undiscovered endpoint
undiscovered-IsStaleCached s graph among =
    let (name, named, present) =
      cached_graphs-HasReading ups_graphs (endpoint "ups" s) graph among in
    (
      name,
      named,
      ap (λ d. has (text name) d)
            (same_ups s (note_failed "ups_netdata_graphs" s)
              (ds-note_failed "ups_netdata_graphs" s))
          ∙ present,
    )

module _ (P : Platform) (V : Server) where
  query_ups_graphs-IsStaleCached :
      (available : List (String × String)) (s : Cache)
      → ((graph : String × String) → Among graph available → Among graph ups_graphs)
      → IsStaleCached s
      → IsStaleCached (query_ups_graphs P V available s).1
  unfolding query_ups_graphs
  query_ups_graphs-IsStaleCached [] s subset cached = λ graph among. elim among [ ]
  query_ups_graphs-IsStaleCached (first ∷ rest) s subset cached =
      let available = first ∷ rest in
      let (of_graphs, kept) = results-OfGraphs P (ask V available) s in
      publish_ups-IsStaleCached available (seeded available (endpoint "ups" s))
        (apply_ups_graph_results P (ask V available) s).0
        (apply_ups_graph_results P (ask V available) s).1
        (subst (λ graphs. OfGraphs graphs (apply_ups_graph_results P (ask V available) s).0)
          (graphs_of-ask P V available) of_graphs)
        subset (IsStaleCached-kept s (apply_ups_graph_results P (ask V available) s).1 kept cached)

  with_graphs-IsStaleCached :
      (raw : Value) (s : Cache) → IsStaleCached s → IsStaleCached (with_graphs P V raw s).1
  unfolding with_graphs
  with_graphs-IsStaleCached (arr graphs) s cached =
      let available = discovered P graphs ups_graphs in
      let noted = note_recovered "ups_netdata_graphs" s in
      let s' = record noted { fallback_failing = drop_absent available noted.fallback_failing } in
      query_ups_graphs-IsStaleCached available s' (discovered-Among P graphs ups_graphs)
        (IsStaleCached-kept s s' (note_recovered-KeepsReadings "ups_netdata_graphs" s) cached)
  with_graphs-IsStaleCached v s cached = undiscovered-IsStaleCached s

  with_discovery-IsStaleCached :
      (r : Reply) (s : Cache) → IsStaleCached s → IsStaleCached (with_discovery P V r s).1
  unfolding with_discovery
  with_discovery-IsStaleCached (returned raw) s cached = with_graphs-IsStaleCached raw s cached
  with_discovery-IsStaleCached (failed e) s cached = undiscovered-IsStaleCached s
  with_discovery-IsStaleCached (aborted why) s cached = cached

  -- Whatever the replies are, a refresh of the UPS keeps it so that every graph that is listed as
  -- stale has a reading in the cache.
  pub get_ups-IsStaleCached : (s : Cache) → IsStaleCached s → IsStaleCached (get_ups P V s).1
  unfolding get_ups
  get_ups-IsStaleCached s cached =
      with_discovery-IsStaleCached (V.call "reporting.netdata_graphs") s cached
