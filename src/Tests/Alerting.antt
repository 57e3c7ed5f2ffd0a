-- ===== src/Tests/Alerting.antt =====
-- The reports of unrecognized alert levels.
use Prim.Native.String.{◌++◌ as ◌<>◌}
use aiotruenas.Base.{ℕ, ◌+◌, ◌*◌, String, ◌≡◌, refl, Option, none, some, List, [], ◌∷◌}
use aiotruenas.Value.{text, Value, null, str, Fields, end, field}
use aiotruenas.Value.Text.{codes, take}
use aiotruenas.State.Alerts.{unknown_level, levels_of}
use aiotruenas.State.Alerts.Warned.{Reprs, repeated, unrecognized, report_levels}
use aiotruenas.State.Alerts.Warned.Capped.{IsReported, report_levels-IsReported}

-- Texts, None, and everything else as too deep.
abbrev shown : Value → Option String
shown null = some "None"
shown (str s) = some ("'" <> (s <> "'"))
shown v = none

-- A text as the number that its code points spell.
spelled : List ℕ → ℕ
spelled [] = 1
spelled (c ∷ cs) = c + 2097152 * spelled cs

abbrev reprs : Reprs
reprs = record { repr = shown; sha256 = λ s. spelled (codes s) }

abbrev alert_of : String → String → Fields
alert_of uuid level = field (text "uuid") (str uuid) (field (text "level") (str level) end)

abbrev alerts : List Fields
alerts = alert_of "u1" "DEBUG" ∷ alert_of "u2" "ERROR" ∷ alert_of "u3" "DEBUG" ∷ []

alerts_reported : report_levels reprs alerts [] ≡ (
  unknown_level ∷ "ERROR" ∷ unknown_level ∷ [],
  (
    unrecognized "'DEBUG'" (str "u1") ∷ repeated "'DEBUG'" (str "u3") ∷ [],
    spelled (codes "'DEBUG'") ∷ [],
  ),
)
unfolding report_levels spelled take
alerts_reported = refl

report_levels-IsReported_example :
    ((report_levels reprs alerts []).0 ≡ levels_of alerts)
    × IsReported [] (report_levels reprs alerts []).1
report_levels-IsReported_example = report_levels-IsReported reprs alerts [] (tt, refl)
