-- ===== src/System/Graphs.antt =====
-- `_fetch_graphs`: the replies to several graph calls, the shape of a graph, and which of several
-- errors is raised or reported.
pub mod Failures
use aiotruenas.Base.{
  ℕ, String, Bool, true, false, not, ◌&&◌, ◌||◌, Option, none, some, List, [], ◌∷◌, ◌==◌, string_eq,
  if◌then◌else◌, Result, ok, raise, ◌>>=◌,
}
use Prim.Native.String.{◌++◌ as ◌<>◌}
use aiotruenas.Value.{text, Value, null, str, arr, obj, Items, nil, cons, Fields, end, field, py_eq}
use aiotruenas.Value.Text
use aiotruenas.Value.Text.{codes}
use aiotruenas.Value.Dict.{has}
use aiotruenas.Errors.Exceptions.{
  ClientError, plain, closed, call_error, Phase, connection, malformed_response,
}
use aiotruenas.Rpc.{Reply, returned, failed, aborted}
use aiotruenas.Errors.Classify.{member_of}

-- What `get_system_stats` raises: an error of a graph, noted with it, or another exception.
pub data Raised : Type 0 where
  while_fetching : String → ClientError → Raised
  propagated : String → Raised

-- `_optional_str(v) is None`
unfoldable pub is_blank : Value → Bool
unfolding Text.strip_left
is_blank (str s) = elim (Text.strip_left (codes s)) [ [] ↦ true | c ∷ cs ↦ false ]
is_blank v = true

-- `_aggregated_means(item)` is empty.
no_means : Value → Bool
no_means (obj (field k v fs)) = false
no_means v = true

unfoldable pub legend_error : Fields → Option String
unfolding no_means member_of has
legend_error item =
    if has (text "legend") item
    then elim (member_of (obj item) "legend") [
      | arr names ↦ none
      | v ↦ some "has a non-list legend"
    ]
    else if no_means (member_of (member_of (obj item) "aggregations") "mean")
    then some "has neither a legend nor aggregations.mean"
    else none

-- `_item_shape_error`
unfoldable pub item_shape_error : String → Value → Option String
unfolding legend_error is_blank string_eq member_of
item_shape_error graph (obj item) = elim (legend_error item) [
  | some problem ↦ some problem
  | none ↦
      if graph == "interface" && is_blank (member_of (obj item) "identifier")
      then some "has no identifier"
      else none
]
item_shape_error graph v = some "is not an object"

-- `_is_disconnect_symptom`
unfoldable pub is_disconnect_symptom : ClientError → Bool
is_disconnect_symptom (plain connection message) = true
is_disconnect_symptom (closed message Phase.disconnect) = true
is_disconnect_symptom e = false

-- `isinstance(err, _PER_GRAPH_ERRORS)`
unfoldable pub is_per_graph : ClientError → Bool
is_per_graph (plain malformed_response message) = true
is_per_graph (call_error message code errname reason payload) = true
is_per_graph e = false

-- `_is_absent_optional_graph` on an error
unfoldable pub is_absent_optional_graph : String → ClientError → Bool
unfolding string_eq py_eq
is_absent_optional_graph graph (call_error message code errname reason payload) =
    graph == "cputemp" && py_eq errname (str "ENOENT")
is_absent_optional_graph graph e = false

unfoldable pub root_cause : List (String × ClientError) → Option (String × ClientError)
root_cause [] = none
root_cause ((graph, e) ∷ errors) =
    let rest = root_cause errors in if is_disconnect_symptom e then rest else some (graph, e)

abbrev or_first : Option (String × ClientError) → String × ClientError → String × ClientError
or_first none first = first
or_first (some cause) first = cause

-- `_primary_error` of the first error and the others
unfoldable pub primary_error :
    String × ClientError → List (String × ClientError) → String × ClientError
primary_error first others = or_first (root_cause (first ∷ others)) first

-- The errors of `_reportable_failures` that concern the whole connection.
unfoldable pub fatal : List (String × ClientError) → List (String × ClientError)
fatal [] = []
fatal ((graph, e) ∷ errors) =
    let rest = fatal errors in if is_per_graph e then rest else (graph, e) ∷ rest

abbrev raise_primary :
    {A : Type 0} → String × ClientError → List (String × ClientError) → Result Raised A
raise_primary first others =
    let (graph, e) = primary_error first others in raise (while_fetching graph e)

unfoldable pub report_or_raise :
    List (String × ClientError)
    → List (String × ClientError)
    → Result Raised (List (String × ClientError))
report_or_raise errors [] = ok errors
report_or_raise errors (first ∷ others) = raise_primary first others

-- `_reportable_failures`: a strict call raises for any error.
unfoldable pub reportable_failures :
    Bool → List (String × ClientError) → Result Raised (List (String × ClientError))
unfolding fatal
reportable_failures partial errors =
    report_or_raise errors (if partial then fatal errors else errors)

-- `repr` is Python's, cut to 200 characters.
module _ (repr : Value → String) where
  items_error : String → Items → Option String
  unfolding item_shape_error
  items_error graph nil = none
  items_error graph (cons item rest) = elim (item_shape_error graph item) [
    | some problem ↦ some ("graph '" <> graph <> "' item " <> problem <> ": " <> repr item)
    | none ↦ items_error graph rest
  ]

  -- `_graph_shape_error`
  unfoldable pub graph_shape_error : String → Value → Option String
  unfolding items_error
  graph_shape_error graph (arr items) = items_error graph items
  graph_shape_error graph v = some ("expected a list for graph '" <> graph <> "': " <> repr v)

  malformed : String → ClientError
  malformed detail =
      plain malformed_response ("Malformed 'reporting.netdata_graph' response: " <> detail)

  -- What the loop of `_fetch_graphs` makes of one reply.
  pub data Verdict : Type 0 where
    absent : Verdict
    usable : Value → Verdict
    unusable : ClientError → Verdict
    fatal_exception : String → Verdict

  unfoldable pub judge : String → Reply → Verdict
  unfolding malformed graph_shape_error
  judge graph (failed e) = if is_absent_optional_graph graph e then absent else unusable e
  judge graph (aborted why) = fatal_exception why
  judge graph (returned v) = elim (graph_shape_error graph v) [
    | none ↦ usable v
    | some detail ↦ unusable (malformed detail)
  ]

  abbrev Readings : Type 0
  Readings = List (String × Value) × List (String × ClientError)

  note_reply : String → Verdict → Result Raised Readings → Result Raised Readings
  note_reply graph absent rest = rest
  note_reply graph (usable v) rest =
      rest >>= λ (readings, errors). ok ((graph, v) ∷ readings, errors)
  note_reply graph (unusable e) rest =
      rest >>= λ (readings, errors). ok (readings, (graph, e) ∷ errors)
  note_reply graph (fatal_exception why) rest = raise (propagated why)

  -- The loop of `_fetch_graphs`. The graphs of a call are distinct.
  unfoldable pub sort_replies : List (String × Reply) → Result Raised Readings
  unfolding note_reply judge
  sort_replies [] = ok ([], [])
  sort_replies ((graph, reply) ∷ replies) =
      note_reply graph (judge graph reply) (sort_replies replies)

  -- `_fetch_graphs` on the replies
  unfoldable pub fetch_graphs : Bool → List (String × Reply) → Result Raised Readings
  unfolding reportable_failures
  fetch_graphs partial replies = sort_replies replies >>= λ (readings, errors).
      reportable_failures partial errors >>= λ failures. ok (readings, failures)
