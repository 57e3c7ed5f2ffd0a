-- ===== src/State/Alerts/Warned.antt =====
-- `_alert_level` with its log lines: the set of unrecognized levels that the process has reported.
-- `repr` and SHA-256 are the record Reprs.
pub mod Capped
use Prim.Native.String.{◌++◌ as ◌<>◌}
use aiotruenas.Base.{
  ℕ, suc, String, Bool, true, false, ◌||◌, Option, none, some, List, [], ◌∷◌, ◌++◌, ◌==◌, nat_eq,
  ltb, leb, if◌then◌else◌,
}
use aiotruenas.Value.{Value, null, bool, int, float, str, datetime, arr, obj, Fields}
use aiotruenas.Value.Text.{take}
use aiotruenas.Errors.Classify.{member_of}
use aiotruenas.State.Alerts.{unknown_level, alert_level_rank, length}

-- `repr(value)`, none for a RecursionError, and the digest of a text in UTF-8, as the number that
-- its bytes spell.
pub record Reprs : Type 0 where
  pub repr : Value → Option String
  pub sha256 : String → ℕ

-- The log lines, with the text of the level and the uuid of the alert: `repeated` at DEBUG, the
-- others at WARNING.
pub data Line : Type 0 where
  repeated : String → Value → Line
  unrecognized : String → Value → Line
  cap_reached : Line

-- `_WARNED_ALERT_LEVELS_MAX`
abbrev pub warned_alert_levels_max : ℕ
warned_alert_levels_max = 64

-- `_ALERT_LEVEL_REPR_MAX`
abbrev pub alert_level_repr_max : ℕ
alert_level_repr_max = 100

-- `type(level).__name__`
abbrev type_name_of : Value → String
type_name_of null = "NoneType"
type_name_of (bool b) = "bool"
type_name_of (int i) = "int"
type_name_of (float x) = "float"
type_name_of (str s) = "str"
type_name_of (datetime t) = "datetime"
type_name_of (arr items) = "list"
type_name_of (obj fields) = "dict"

abbrev repr_or : Option String → Value → String
repr_or (some s) level = s
repr_or none level = "<deeply nested " <> (type_name_of level <> ">")

unfoldable pub full_repr : Reprs → Value → String
full_repr R level = repr_or (R.repr level) level

-- `key in _WARNED_ALERT_LEVELS`
unfoldable pub is_warned : ℕ → List ℕ → Bool
unfolding nat_eq
is_warned key [] = false
is_warned key (other ∷ digests) = key == other || is_warned key digests

-- The line that the cap is reached.
unfoldable pub cap_lines : ℕ → List Line
cap_lines n = if leb warned_alert_levels_max n then cap_reached ∷ [] else []

-- The lines about an unrecognized level, and the digests after them.
unfoldable pub warn_level : Reprs → Value → Value → List ℕ → List Line × List ℕ
unfolding full_repr is_warned cap_lines take
warn_level R level uuid digests =
    let full = full_repr R level in
    let level_repr = take alert_level_repr_max full in
    let key = R.sha256 full in
    if is_warned key digests || leb warned_alert_levels_max (length digests)
    then (repeated level_repr uuid ∷ [], digests)
    else (unrecognized level_repr uuid ∷ cap_lines (length (key ∷ digests)), key ∷ digests)

-- A level or `UNKNOWN`, with what is logged.
unfoldable pub report_value : Reprs → Value → Value → List ℕ → String × (List Line × List ℕ)
unfolding alert_level_rank warn_level
report_value R (str s) uuid digests =
    if ltb 0 (alert_level_rank s)
    then (s, ([], digests))
    else (unknown_level, warn_level R (str s) uuid digests)
report_value R v uuid digests = (unknown_level, warn_level R v uuid digests)

unfoldable pub report_level : Reprs → Fields → List ℕ → String × (List Line × List ℕ)
unfolding report_value member_of
report_level R alert digests =
    report_value R (member_of (obj alert) "level") (member_of (obj alert) "uuid") digests

-- The levels of the alerts of a poll, in their order.
unfoldable pub report_levels : Reprs → List Fields → List ℕ → List String × (List Line × List ℕ)
unfolding report_level
report_levels R [] digests = ([], ([], digests))
report_levels R (alert ∷ rest) digests =
    let (level, (lines, after)) = report_level R alert digests in
    let (levels, (more, last)) = report_levels R rest after in
    (level ∷ levels, (lines ++ more, last))
