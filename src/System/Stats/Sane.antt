-- ===== src/System/Stats/Sane.antt =====
-- The ranges of the readings.
use aiotruenas.Base.{
  ℕ, ◌*◌, ◌^◌, ◌≤◌, ◌<◌, String, Bool, true, false, not, ◌&&◌, ◌≡◌, Option, none, some, [], ◌∷◌,
  string_eq, nat_eq,
}
use aiotruenas.Base.Int.{ℤ, pos, negsuc}
use aiotruenas.Base.Assoc.{Dict}
use aiotruenas.Value.{Value, Fields}
use aiotruenas.System.Models.{Finite, SystemStats, InterfaceTraffic}
use aiotruenas.System.Fields.{Floats, is_negative}
use aiotruenas.System.Stats.{less, memory_usage_percent}

abbrev pub whole : ℕ → Finite
whole n = record { mantissa = pos n; scale = 0 }

-- What is known of the division of two ints: it is exact where the quotient is a small whole number,
-- and a larger dividend has no smaller quotient.
pub record IsRounded (F : Floats) : Type 0 where
  pub exact : (n d : ℕ) → 0 < d → n < 2 ^ 53 → F.ratio (n * d) d ≡ whole n
  pub monotone : (a b d : ℕ) → a ≤ b → less (F.ratio b d) (F.ratio a d) ≡ false

abbrev pub all_of {ℓ} : {A : Type ℓ} → (A → Bool) → Option A → Bool
all_of test none = true
all_of test (some a) = test a

abbrev pub lies_in : Finite → Finite → Finite → Bool
lies_in low high x = not (less x low) && not (less high x)

abbrev pub is_natural : ℤ → Bool
is_natural (pos n) = true
is_natural (negsuc n) = false

abbrev pub not_negative : Finite → Bool
not_negative x = not (is_negative x)

unfoldable pub rates_not_negative : Dict String InterfaceTraffic → Bool
rates_not_negative [] = true
rates_not_negative ((name, traffic) ∷ d) =
    all_of not_negative traffic.rx_kbps
    && all_of not_negative traffic.tx_kbps
    && rates_not_negative d

-- The ranges of the readings in the stats, where they are not None.
unfoldable pub in_ranges : SystemStats → Bool
unfolding rates_not_negative
in_ranges stats =
    all_of not_negative stats.cpu_usage_percent
    && all_of is_natural stats.memory_available
    && all_of (lies_in (whole 0) (whole 100)) stats.memory_usage_percent
    && all_of is_natural stats.arc_size
    && rates_not_negative stats.interfaces
