-- ===== src/System/Stats/Unread.antt =====
-- The fields of a graph without data.
use aiotruenas.Base.{
  String, Bool, true, false, ◌&&◌, ◌≡◌, refl, ap, sym, ◌∙◌, Option, none, some, List, [], ◌∷◌, ◌==◌,
  arith, string_eq, if◌then◌else◌,
}
use aiotruenas.Base.Int.{ℤ, pos, negsuc}
use aiotruenas.Base.Equality.{==-eq}
use aiotruenas.Base.Assoc.{Dict, lookup}
use aiotruenas.Value.{Value, arr, nil}
use aiotruenas.Errors.Exceptions.{ClientError}
use aiotruenas.System.Models.{SystemInfo, SystemStats, InterfaceTraffic}
use aiotruenas.System.Fields.{Floats, non_negative, optional_bytes}
use aiotruenas.System.Series.{first_item_means, interface_traffic}
use aiotruenas.System.Stats.{
  graph_data, reading, memory_of, memory_usage_percent, max_or_none, stats_of,
}

abbrev is_none {ℓ} : {A : Type ℓ} → Option A → Bool
is_none none = true
is_none (some a) = false

abbrev is_empty : Dict String InterfaceTraffic → Bool
is_empty [] = true
is_empty (p ∷ d) = false

-- The fields of a graph are None, or empty.
unfoldable pub is_unfilled : String → SystemStats → Bool
unfolding string_eq
is_unfilled graph stats =
    if graph == "cpu"
    then is_none stats.cpu_usage_percent
    else if graph == "cputemp"
    then is_none stats.cpu_temperature
    else if graph == "memory"
    then is_none stats.memory_available && is_none stats.memory_usage_percent
    else if graph == "arcsize"
    then is_none stats.arc_size
    else if graph == "interface"
    then is_empty stats.interfaces
    else true

unread-graph_data :
    (F : Floats) (graph : String) (readings : Dict String Value)
    → lookup graph readings ≡ none
    → graph_data F graph readings ≡ arr nil
unfolding graph_data
unread-graph_data F graph readings h = ground arith

unread-reading :
    (F : Floats) (graph series : String) (readings : Dict String Value)
    → lookup graph readings ≡ none
    → reading F graph series readings ≡ none
unfolding reading first_item_means lookup
unread-reading F graph series readings h = rw (unread-graph_data F graph readings h)

unmeasured : (F : Floats) (total : Option ℤ) → is_none (memory_usage_percent F total none) ≡ true
unfolding memory_usage_percent
unmeasured F none = refl
unmeasured F (some (pos total)) = refl
unmeasured F (some (negsuc total)) = refl

if_true : (test x y : Bool) → (test ≡ true → x ≡ true) → y ≡ true → (if test then x else y) ≡ true
if_true true x y h other = h refl
if_true false x y h other = other

module _ (F : Floats) (info : Option SystemInfo) (readings : Dict String Value)
    (failed : List (String × ClientError)) where
  abbrev stats : SystemStats
  stats = stats_of F info (readings, failed)

  unread-memory :
      lookup "memory" readings ≡ none
      → (is_none stats.memory_available && is_none stats.memory_usage_percent) ≡ true
  unfolding stats_of optional_bytes non_negative
  unread-memory h =
      rw (unread-reading F "memory" "available" readings h) (unmeasured F (memory_of info))

  pub unread-temperature : lookup "cputemp" readings ≡ none → stats.cpu_temperature ≡ none
  unfolding stats_of first_item_means max_or_none
  unread-temperature h = rw (unread-graph_data F "cputemp" readings h)

  unread-interfaces : lookup "interface" readings ≡ none → is_empty stats.interfaces ≡ true
  unfolding stats_of interface_traffic
  unread-interfaces h = rw (unread-graph_data F "interface" readings h)

  pub unread-is_unfilled :
      (graph : String) → lookup graph readings ≡ none → is_unfilled graph stats ≡ true
  unfolding is_unfilled stats_of optional_bytes non_negative
  unread-is_unfilled graph h =
      let missing : (name : String) → graph == name ≡ true → lookup name readings ≡ none =
        λ name same. ap (λ k. lookup k readings) (sym (==-eq graph name same)) ∙ h in
      if_true (graph == "cpu") _ _
        (λ same. rw (unread-reading F "cpu" "cpu" readings (missing "cpu" same)))
        (if_true (graph == "cputemp") _ _
          (λ same. ap is_none (unread-temperature (missing "cputemp" same)))
          (if_true (graph == "memory") _ _ (λ same. unread-memory (missing "memory" same))
            (if_true (graph == "arcsize") _ _
              (λ same. rw (unread-reading F "arcsize" "size" readings (missing "arcsize" same)))
              (if_true (graph == "interface") _ _
                (λ same. unread-interfaces (missing "interface" same)) refl))))
