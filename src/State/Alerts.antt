-- ===== src/State/Alerts.antt =====
-- `get_alerts`: the aggregation of the active alerts. Warned adds what is logged about unknown
-- levels.
pub mod Totals
pub mod Highest
pub mod Warned
use aiotruenas.Base.{
  ℕ, zero, suc, ◌+◌, String, Bool, true, false, not, ◌&&◌, ◌||◌, Option, none, some, List, [], ◌∷◌,
  ◌==◌, string_eq, ltb, if◌then◌else◌,
}
use aiotruenas.Base.Int.{pos}
use aiotruenas.Value.{
  text, Value, null, bool, int, str, arr, obj, Items, nil, cons, Fields, end, field, truthy, get,
}
use aiotruenas.Value.Text.{codes, lower, has_fragment}
use aiotruenas.Errors.Classify.{member_of}
use aiotruenas.Normalize.Spec.{or_default}
use aiotruenas.Normalize.Uid.{nonempty}
use aiotruenas.State.Cache.{Cache, Server, Platform, Ended, refreshed, on_reply, set_endpoint}
use aiotruenas.State.Fallback.{note_failed, note_recovered}

-- `_ALERT_LEVELS`, each with its lower-case name.
abbrev pub alert_levels : List (String × String)
alert_levels =
    ("INFO", "info")
    ∷ ("NOTICE", "notice")
    ∷ ("WARNING", "warning")
    ∷ ("ERROR", "error")
    ∷ ("CRITICAL", "critical")
    ∷ ("ALERT", "alert")
    ∷ ("EMERGENCY", "emergency")
    ∷ []

abbrev pub unknown_level : String
unknown_level = "UNKNOWN"

-- `_ALERT_LEVEL_RANK.get(level, -1) + 1`
unfoldable pub rank_from : ℕ → List (String × String) → String → ℕ
unfolding string_eq
rank_from n [] level = 0
rank_from n ((known, name) ∷ rest) level =
    let later = rank_from (suc n) rest level in if level == known then n else later

unfoldable pub alert_level_rank : String → ℕ
unfolding rank_from
alert_level_rank level = rank_from 1 alert_levels level

-- `_alert_level`
level_or_unknown : Value → String
unfolding alert_level_rank
level_or_unknown (str s) = if ltb 0 (alert_level_rank s) then s else unknown_level
level_or_unknown v = unknown_level

unfoldable pub alert_level : Fields → String
unfolding level_or_unknown member_of
alert_level alert = level_or_unknown (member_of (obj alert) "level")

-- `_DISK_ALERT_TERMS`
abbrev pub disk_alert_terms : List String
disk_alert_terms = "disk" ∷ "pool" ∷ "smart" ∷ []

unfoldable pub mentions : List String → List ℕ → Bool
unfolding has_fragment
mentions [] s = false
mentions (term ∷ terms) s = has_fragment (codes term) s || mentions terms s

-- `str(value)`
abbrev pub text_of : Platform → Value → String
text_of P (str s) = s
text_of P v = P.arithmetic.format v

-- `_is_disk_alert`
unfoldable pub is_disk_alert : Platform → Fields → Bool
unfolding mentions lower get
is_disk_alert P alert =
    mentions disk_alert_terms
      (lower (codes (text_of P (or_default (get (text "klass") alert) (str "")))))
    || mentions disk_alert_terms
        (lower (codes (text_of P (or_default (get (text "title") alert) (str "")))))

unfoldable pub levels_of : List Fields → List String
unfolding alert_level
levels_of [] = []
levels_of (alert ∷ rest) = alert_level alert ∷ levels_of rest

abbrev pub items_of : {A : Type 0} → (A → Value) → List A → Items
items_of f [] = nil
items_of f (x ∷ xs) = cons (f x) (items_of f xs)

abbrev pub length : {A : Type 0} → List A → ℕ
length [] = 0
length (x ∷ xs) = suc (length xs)

-- `levels.count(level)`
unfoldable pub count : String → List String → ℕ
unfolding string_eq
count level [] = 0
count level (l ∷ ls) = let n = count level ls in if l == level then suc n else n

unfoldable pub counters : List (String × String) → List String → Fields → Fields
unfolding count
counters [] levels rest = rest
counters ((level, name) ∷ more) levels rest =
    field (text name) (int (pos (count level levels))) (counters more levels rest)

unfoldable pub any_disk_alert : Platform → List Fields → Bool
any_disk_alert P [] = false
any_disk_alert P (alert ∷ rest) = is_disk_alert P alert || any_disk_alert P rest

unfoldable pub severer : String → String → String
severer best l = if ltb (alert_level_rank best) (alert_level_rank l) then l else best

-- `max` with a key: the first of the largest.
unfoldable pub most_severe : String → List String → String
most_severe best [] = best
most_severe best (l ∷ ls) = most_severe (severer best l) ls

unfoldable pub highest_level : List String → Value
unfolding most_severe
highest_level [] = null
highest_level (l ∷ ls) = str (most_severe l ls)

-- `_aggregate_alerts`
unfoldable pub aggregate_alerts : Platform → List Fields → Fields
unfolding counters levels_of get
aggregate_alerts P active = field (text "count") (int (pos (length active))) (
    field (text "messages")
      (arr (
        items_of (λ alert. or_default (get (text "formatted") alert) (str "Unknown alert")) active))
      (counters alert_levels (levels_of active) (
        field (text "unknown") (int (pos (count unknown_level (levels_of active)))) (
          field (text "disk_issues") (bool (any_disk_alert P active)) (
            field (text "uuids") (arr (items_of (λ alert. member_of (obj alert) "uuid") active)) (
              field (text "levels") (arr (items_of str (levels_of active)))
                (field (text "highest_level") (highest_level (levels_of active)) end)))))))

-- The dicts of the response with a uuid.
unfoldable pub usable_alerts : Items → List Fields
unfolding truthy member_of
usable_alerts nil = []
usable_alerts (cons (obj alert) rest) =
    let others = usable_alerts rest in
    if truthy (member_of (obj alert) "uuid") then alert ∷ others else others
usable_alerts (cons v rest) = usable_alerts rest

unfoldable pub active_alerts : List Fields → List Fields
unfolding truthy member_of
active_alerts [] = []
active_alerts (alert ∷ rest) =
    let others = active_alerts rest in
    if truthy (member_of (obj alert) "dismissed") then others else alert ∷ others

publish_alerts : Platform → Items → List Fields → Cache → Ended × Cache
publish_alerts P nil usable s = (
  refreshed,
  set_endpoint "alerts" (aggregate_alerts P (active_alerts usable)) (note_recovered "alert_list" s),
)
publish_alerts P raw usable s = (
  refreshed,
  if nonempty usable
      then set_endpoint "alerts" (aggregate_alerts P (active_alerts usable))
          (note_recovered "alert_list" s)
      else note_failed "alert_list" s,
)

-- `get_alerts` on its response
unfoldable pub with_alerts : Platform → Value → Cache → Ended × Cache
unfolding publish_alerts
with_alerts P (arr raw) s = publish_alerts P raw (usable_alerts raw) s
with_alerts P v s = (refreshed, note_failed "alert_list" s)

unfoldable pub get_alerts : Platform → Server → Cache → Ended × Cache
get_alerts P V = on_reply (V.call "alert.list") (with_alerts P)
