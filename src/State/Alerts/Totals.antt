-- ===== src/State/Alerts/Totals.antt =====
-- The counters and the highest level of the active alerts.
use aiotruenas.Base.Equality.{==-eq, ==-sym}
use aiotruenas.Base.{
  ℕ, suc, ◌+◌, String, Bool, true, false, ◌&&◌, ◌≡◌, refl, ap, ◌∙◌, inl, inr, Option, some, List,
  [], ◌∷◌, ◌==◌, string_eq, nat_eq, arith, ltb, if◌then◌else◌, Bool-cases,
}
use aiotruenas.Base.Int.{pos}
use aiotruenas.Value.{text, Value, int, str, obj, Fields, get, key_eq}
use aiotruenas.Errors.Classify.{member_of}
use aiotruenas.State.Cache.{Platform}
use aiotruenas.State.Fallback.Stale.{Among}
use aiotruenas.State.Alerts.{
  alert_levels, unknown_level, rank_from, alert_level_rank, level_or_unknown, alert_level,
  levels_of, length, count, counters, aggregate_alerts,
}

-- A counter of the map.
abbrev natural : Option Value → ℕ
natural (some (int (pos n))) = n
natural o = 0

unfoldable pub counter : String → Fields → ℕ
unfolding get string_eq
counter name alerts = natural (get (text name) alerts)

-- The sum of counters.
unfoldable pub sum_of : List String → Fields → ℕ
unfolding counter
sum_of [] alerts = 0
sum_of (name ∷ names) alerts = counter name alerts + sum_of names alerts

abbrev pub level_names : List String
level_names =
    "info" ∷ "notice" ∷ "warning" ∷ "error" ∷ "critical" ∷ "alert" ∷ "emergency" ∷ "unknown" ∷ []

abbrev names_of : List (String × String) → List String
names_of [] = unknown_level ∷ []
names_of ((level, name) ∷ rest) = level ∷ names_of rest

counts : List String → List String → ℕ
counts [] ls = 0
counts (name ∷ names) ls = count name ls + counts names ls

counts-none : (names : List String) → counts names [] ≡ 0
unfolding counts count
counts-none [] = refl
counts-none (name ∷ names) = omega (arith, counts-none names)

-- One more level is counted as often as it is a name.
counts-more :
    (names : List String) (l : String) (ls : List String)
    → counts names (l ∷ ls) ≡ count l names + counts names ls
unfolding counts count
counts-more [] l ls = refl
counts-more (name ∷ names) l ls =
    rw (counts-more names l ls) (rw (==-sym l name) (by_same (name == l)))
  where
    by_same :
        (same : Bool)
        → (if same then suc (count name ls) else count name ls) + (count l names + counts names ls)
          ≡ (if same then suc (count l names) else count l names)
            + (count name ls + counts names ls)
    by_same true = omega arith
    by_same false = omega arith

Among-unknown : (names : List (String × String)) → Among unknown_level (names_of names)
Among-unknown [] = inl refl
Among-unknown ((level, name) ∷ rest) = inr (Among-unknown rest)

rank-Among :
    (n : ℕ) (names : List (String × String)) (l : String)
    → ltb 0 (rank_from n names l) ≡ true
    → Among l (names_of names)
unfolding rank_from
rank-Among n [] l h = inr (ground arith)
rank-Among n ((level, name) ∷ rest) l h = elim (Bool-cases (l == level)) [
  | inl same ↦ inl (==-eq l level same)
  | inr differ ↦ inr (rank-Among (suc n) rest l (ground arith))
]

known_level : (s : String) → ltb 0 (alert_level_rank s) ≡ true → Among s (names_of alert_levels)
unfolding alert_level_rank
known_level s h = rank-Among 1 alert_levels s h

level_or_unknown-Among : (v : Value) → Among (level_or_unknown v) (names_of alert_levels)
unfolding level_or_unknown
level_or_unknown-Among (str s) = elim (Bool-cases (ltb 0 (alert_level_rank s))) [
  | inl known ↦ rw known (known_level s known)
  | inr unknown ↦ rw unknown (Among-unknown alert_levels)
]
level_or_unknown-Among v = Among-unknown alert_levels

all_once : List String → List String → Bool
unfolding count nat_eq
all_once every [] = true
all_once every (name ∷ names) = count name every == 1 && all_once every names

all_once-Among :
    (every names : List String) (l : String)
    → all_once every names ≡ true
    → Among l names
    → count l every ≡ 1
unfolding all_once
all_once-Among every [] l once among = elim among [ ]
all_once-Among every (name ∷ names) l once (inl same) =
    ap (λ x. count x every) same ∙ (ground arith)
all_once-Among every (name ∷ names) l once (inr among) =
    all_once-Among every names l (ground arith) among

-- Every level is counted once.
alert_level-counted : (alert : Fields) → count (alert_level alert) (names_of alert_levels) ≡ 1
unfolding alert_level all_once count string_eq nat_eq
alert_level-counted alert =
    all_once-Among (names_of alert_levels) (names_of alert_levels) (alert_level alert) refl
      (level_or_unknown-Among (member_of (obj alert) "level"))

counts-levels_of :
    (active : List Fields) → counts (names_of alert_levels) (levels_of active) ≡ length active
unfolding levels_of
counts-levels_of [] = counts-none (names_of alert_levels)
counts-levels_of (alert ∷ rest) =
    counts-more (names_of alert_levels) (alert_level alert) (levels_of rest)
    ∙ omega (arith, alert_level-counted alert, counts-levels_of rest)

-- The counters of the levels sum to the count, which is the number of active alerts.
pub sum_of-aggregate_alerts :
    (P : Platform) (active : List Fields)
    → (sum_of level_names (aggregate_alerts P active) ≡ length active)
      × (counter "count" (aggregate_alerts P active) ≡ length active)
unfolding sum_of counter aggregate_alerts counters get key_eq string_eq counts
sum_of-aggregate_alerts P active = (counts-levels_of active, refl)
