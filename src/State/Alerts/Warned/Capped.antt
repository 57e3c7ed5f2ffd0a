-- ===== src/State/Alerts/Warned/Capped.antt =====
-- Unrecognized levels are reported once, up to the cap.
use aiotruenas.Base.{
  ℕ, suc, ◌+◌, String, true, false, ◌≡◌, refl, inl, inr, List, [], ◌∷◌, ◌++◌, ◌||◌, nat_eq, arith,
  ltb, leb, if◌then◌else◌, Bool-cases,
}
use aiotruenas.Value.{Value, str, obj, Fields}
use aiotruenas.Value.Text.{take}
use aiotruenas.Errors.Classify.{member_of}
use aiotruenas.State.Alerts.{alert_level_rank, level_or_unknown, alert_level, levels_of, length}
use aiotruenas.State.Alerts.Warned.{
  Reprs, Line, repeated, unrecognized, cap_reached, warned_alert_levels_max, alert_level_repr_max,
  full_repr, is_warned, cap_lines, warn_level, report_value, report_level, report_levels,
}

-- No digest twice, and no more of them than the cap.
abbrev IsNodup : List ℕ → Type 0
IsNodup [] = Unit
IsNodup (key ∷ digests) = (is_warned key digests ≡ false) × IsNodup digests

abbrev pub IsCapped : List ℕ → Type 0
IsCapped digests = IsNodup digests × (leb (length digests) warned_alert_levels_max ≡ true)

-- How many lines warn about a level, and how many say that the cap is reached.
unfoldable pub warnings : List Line → ℕ
warnings [] = 0
warnings (unrecognized s uuid ∷ lines) = suc (warnings lines)
warnings (line ∷ lines) = warnings lines

unfoldable pub announcements : List Line → ℕ
announcements [] = 0
announcements (cap_reached ∷ lines) = suc (announcements lines)
announcements (line ∷ lines) = announcements lines

-- 1 if the cap is reached in between, else 0.
unfoldable pub reached : ℕ → ℕ → ℕ
reached before after =
    if leb warned_alert_levels_max before
    then 0
    else if leb warned_alert_levels_max after
    then 1
    else 0

-- From one set of digests to another, with the lines in between.
abbrev pub IsReported : List ℕ → List Line × List ℕ → Type 0
IsReported before (lines, after) =
    IsCapped after
    × ((length after ≡ warnings lines + length before)
        × (announcements lines ≡ reached (length before) (length after)))

warnings-++ : (ls ms : List Line) → warnings (ls ++ ms) ≡ warnings ls + warnings ms
unfolding warnings
warnings-++ [] ms = omega arith
warnings-++ (repeated s uuid ∷ ls) ms = warnings-++ ls ms
warnings-++ (unrecognized s uuid ∷ ls) ms = omega (arith, warnings-++ ls ms)
warnings-++ (cap_reached ∷ ls) ms = warnings-++ ls ms

announcements-++ :
    (ls ms : List Line) → announcements (ls ++ ms) ≡ announcements ls + announcements ms
unfolding announcements
announcements-++ [] ms = omega arith
announcements-++ (repeated s uuid ∷ ls) ms = announcements-++ ls ms
announcements-++ (unrecognized s uuid ∷ ls) ms = announcements-++ ls ms
announcements-++ (cap_reached ∷ ls) ms = omega (arith, announcements-++ ls ms)

IsReported-nothing : (ds : List ℕ) → IsCapped ds → IsReported ds ([], ds)
unfolding warnings announcements reached
IsReported-nothing ds capped = (capped, (omega arith, ground arith))

IsReported-++ :
    (ds es fs : List ℕ) (ls ms : List Line)
    → IsReported ds (ls, es)
    → IsReported es (ms, fs)
    → IsReported ds (ls ++ ms, fs)
unfolding reached
IsReported-++ ds es fs ls ms (_, (grown, told)) (capped, (grown_more, told_more)) =
    (capped, (rw (warnings-++ ls ms) (omega arith), rw (announcements-++ ls ms) (ground arith)))

IsReported-new :
    (ds : List ℕ) (key : ℕ) (text : String) (uuid : Value)
    → IsCapped ds
    → (is_warned key ds || leb warned_alert_levels_max (length ds)) ≡ false
    → IsReported ds (unrecognized text uuid ∷ cap_lines (suc (length ds)), key ∷ ds)
unfolding warnings announcements reached cap_lines
IsReported-new ds key text uuid (nodup, small) new =
    elim (Bool-cases (leb warned_alert_levels_max (suc (length ds)))) [
      | inl full ↦ rw full (((ground arith, nodup), ground arith), (ground arith, ground arith))
      | inr more ↦ rw more (((ground arith, nodup), ground arith), (ground arith, ground arith))
    ]

module _ (R : Reprs) where
  warn_level-IsReported :
      (level uuid : Value) (ds : List ℕ) → IsCapped ds → IsReported ds (warn_level R level uuid ds)
  unfolding warn_level warnings announcements reached
  warn_level-IsReported level uuid ds capped =
      elim (Bool-cases
        (is_warned (R.sha256 (full_repr R level)) ds || leb warned_alert_levels_max (length ds))) [
          | inl old ↦ rw old (capped, (omega arith, ground arith))
          | inr new ↦
              rw new (
                IsReported-new ds _ (take alert_level_repr_max (full_repr R level)) uuid capped new)
        ]

  report_value-IsReported :
      (level uuid : Value) (ds : List ℕ)
      → IsCapped ds
      → (report_value R level uuid ds).0 ≡ level_or_unknown level
        × IsReported ds (report_value R level uuid ds).1
  unfolding report_value level_or_unknown
  report_value-IsReported (str s) uuid ds capped = elim (Bool-cases (ltb 0 (alert_level_rank s))) [
    | inl known ↦ rw known (refl, IsReported-nothing ds capped)
    | inr unknown ↦ rw unknown (refl, warn_level-IsReported (str s) uuid ds capped)
  ]
  report_value-IsReported v uuid ds capped = (refl, warn_level-IsReported v uuid ds capped)

  -- From a set of distinct digests within the cap, however many alerts are read: each gets its
  -- level or UNKNOWN; the set stays so, it grows by one for each level that is warned about, and
  -- the cap is announced once if it is reached, else not at all.
  pub report_levels-IsReported :
      (alerts : List Fields) (ds : List ℕ)
      → IsCapped ds
      → (report_levels R alerts ds).0 ≡ levels_of alerts
        × IsReported ds (report_levels R alerts ds).1
  unfolding report_levels levels_of report_level alert_level
  report_levels-IsReported [] ds capped = (refl, IsReported-nothing ds capped)
  report_levels-IsReported (alert ∷ rest) ds capped =
      let (level, reported) =
        report_value-IsReported (member_of (obj alert) "level") (member_of (obj alert) "uuid") ds
          capped in
      let (levels, later) = report_levels-IsReported rest _ reported.0 in
      ((λ i. level i ∷ levels i), IsReported-++ ds _ _ _ _ reported later)
