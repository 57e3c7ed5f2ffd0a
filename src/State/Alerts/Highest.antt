-- ===== src/State/Alerts/Highest.antt =====
-- The highest level of the active alerts.
use aiotruenas.Base.{
  ◌≤◌, String, ◌≡◌, refl, ◌∙◌, ◌⊎◌, inl, inr, some, List, [], ◌∷◌, string_eq, arith, ltb,
  Bool-cases,
}
use aiotruenas.Value.{text, null, str, Fields, get, key_eq}
use aiotruenas.State.Cache.{Platform}
use aiotruenas.State.Fallback.Stale.{Among}
use aiotruenas.State.Alerts.{
  alert_level_rank, alert_level, levels_of, counters, severer, most_severe, highest_level,
  aggregate_alerts,
}

-- A level of the list that none of it is above.
abbrev pub IsMax : String → List String → Type 0
IsMax h levels =
    Among h levels × ((l : String) → Among l levels → alert_level_rank l ≤ alert_level_rank h)

severer-cases :
    (best l : String)
    → ((severer best l ≡ best) × (alert_level_rank l ≤ alert_level_rank best))
      ⊎ (severer best l ≡ l) × (alert_level_rank best ≤ alert_level_rank l)
unfolding severer
severer-cases best l = elim (Bool-cases (ltb (alert_level_rank best) (alert_level_rank l))) [
  | inl above ↦ inr (rw above refl, ground arith)
  | inr below ↦ inl (rw below refl, ground arith)
]

-- What the comparison of two levels leaves.
abbrev IsSeverer : String → String → String → Type 0
IsSeverer best first chosen =
    ((chosen ≡ best) × (alert_level_rank first ≤ alert_level_rank best))
    ⊎ (chosen ≡ first) × (alert_level_rank best ≤ alert_level_rank first)

chosen-Among :
    (best first chosen m : String) (rest : List String)
    → IsSeverer best first chosen
    → Among m (chosen ∷ rest)
    → Among m (best ∷ first ∷ rest)
chosen-Among best first chosen m rest (inl (is_best, le)) (inl same) = inl (same ∙ is_best)
chosen-Among best first chosen m rest (inr (is_first, le)) (inl same) = inr (inl (same ∙ is_first))
chosen-Among best first chosen m rest severe (inr among) = inr (inr among)

chosen-above :
    (best first chosen : String)
    → IsSeverer best first chosen
    → (alert_level_rank best ≤ alert_level_rank chosen)
      × (alert_level_rank first ≤ alert_level_rank chosen)
chosen-above best first chosen (inl (same, le)) = rw same (omega arith, le)
chosen-above best first chosen (inr (same, le)) = rw same (le, omega arith)

above_both :
    (best first chosen m : String) (rest : List String)
    → IsSeverer best first chosen
    → ((l : String) → Among l (chosen ∷ rest) → alert_level_rank l ≤ alert_level_rank m)
    → (l : String) → Among l (best ∷ first ∷ rest)
    → alert_level_rank l ≤ alert_level_rank m
above_both best first chosen m rest severe above l (inl same) =
    rw same (omega (arith, (chosen-above best first chosen severe).0, above chosen (inl refl)))
above_both best first chosen m rest severe above l (inr (inl same)) =
    rw same (omega (arith, (chosen-above best first chosen severe).1, above chosen (inl refl)))
above_both best first chosen m rest severe above l (inr (inr among)) = above l (inr among)

most_severe-IsMax :
    (best : String) (levels : List String) → IsMax (most_severe best levels) (best ∷ levels)
unfolding most_severe
most_severe-IsMax best [] = (
  inl refl,
  λ l among. elim among [ inl same ↦ rw same (omega arith) | inr others ↦ elim others [ ] ],
)
most_severe-IsMax best (first ∷ rest) =
    let severe = severer-cases best first in
    let (among, above) = most_severe-IsMax (severer best first) rest in
    (
      chosen-Among best first (severer best first) _ rest severe among,
      above_both best first (severer best first) _ rest severe above,
    )

-- The highest level is that of an active alert, and no active alert has a higher one; without
-- active alerts it is None.
pub highest_level-IsMax :
    (P : Platform) (active : List Fields)
    → ((active ≡ []) × (get (text "highest_level") (aggregate_alerts P active) ≡ some null))
      ⊎ (h : String) × (get (text "highest_level") (aggregate_alerts P active) ≡ some (str h))
        × IsMax h (levels_of active)
unfolding aggregate_alerts counters highest_level levels_of get key_eq string_eq
highest_level-IsMax P [] = inl (refl, refl)
highest_level-IsMax P (alert ∷ rest) = inr (
  most_severe (alert_level alert) (levels_of rest),
  refl,
  most_severe-IsMax (alert_level alert) (levels_of rest),
)
