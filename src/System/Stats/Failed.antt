-- ===== src/System/Stats/Failed.antt =====
-- The fields of a graph that failed.
use aiotruenas.Base.{
  String, Bool, true, ◌≡◌, refl, ap, sym, ◌∙◌, Option, none, some, List, [], ◌∷◌, ◌==◌, arith,
  string_eq, if◌then◌else◌, ok, >>=-eq-ok, Bool-cases, inl, inr, ◌⊎◌,
}
use mathlib.Core.Path.{subst}
use aiotruenas.Base.Equality.{==-eq}
use aiotruenas.Base.Assoc.{Dict, lookup}
use aiotruenas.Value.{Value}
use aiotruenas.Errors.Exceptions.{ClientError}
use aiotruenas.Rpc.{Reply}
use aiotruenas.System.Models.{SystemInfo, SystemStats}
use aiotruenas.System.Fields.{Floats}
use aiotruenas.System.Graphs.{
  Verdict, absent, usable, unusable, fatal_exception, judge, fetch_graphs, fatal,
}
use aiotruenas.System.Graphs.Failures.{usable_of, unusable_of, usables, unusables, fetch_graphs-ok}
use aiotruenas.System.Stats.Unread.{is_unfilled, unread-is_unfilled}
use aiotruenas.System.Stats.{graphs_of, ask, stats_of, get_system_stats}

abbrev pub first_of {ℓ} : {A : Type ℓ} → Option A → Option A → Option A
first_of none o = o
first_of (some a) o = some a

-- A lookup gives this, or nothing.
abbrev Either {ℓ} : {A : Type ℓ} → Option A → Option A → Type ℓ
Either found o = (found ≡ o) ⊎ (found ≡ none)

first_of-Either {ℓ} : {A : Type ℓ} (o rest : Option A) → Either rest o → first_of o rest ≡ o
first_of-Either none rest (inl h) = h
first_of-Either none rest (inr h) = h
first_of-Either (some a) rest h = refl

Either-step :
    {A : Type 0} (f : String → Option A) (g n : String) (found rest : Option A)
    → found ≡ (if g == n then first_of (f n) rest else rest)
    → Either rest (f g)
    → Either found (f g)
Either-step f g n found rest step later = elim (Bool-cases (g == n)) [
  | inl same ↦ inl (
      step
      ∙ rw same
          (ap (λ k. first_of (f k) rest) (sym (==-eq g n same)) ∙ first_of-Either (f g) rest later))
  | inr other ↦ rw other at (subst (λ o. Either o (f g)) (sym step)) later
]

module _ (repr : Value → String) where
  abbrev error_in : Verdict repr → Option ClientError
  error_in (unusable e) = some e
  error_in verdict = none

  abbrev pub value_in : Verdict repr → Option Value
  value_in (usable v) = some v
  value_in verdict = none

  lookup-unusable_of :
      (g n : String) (verdict : Verdict repr) (rest : Dict String ClientError)
      → lookup g (unusable_of repr n verdict rest)
        ≡ (if g == n then first_of (error_in verdict) (lookup g rest) else lookup g rest)
  unfolding lookup
  lookup-unusable_of g n (unusable e) rest = refl
  lookup-unusable_of g n absent rest = ground arith
  lookup-unusable_of g n (usable v) rest = ground arith
  lookup-unusable_of g n (fatal_exception why) rest = ground arith

  pub lookup-usable_of :
      (g n : String) (verdict : Verdict repr) (rest : Dict String Value)
      → lookup g (usable_of repr n verdict rest)
        ≡ (if g == n then first_of (value_in verdict) (lookup g rest) else lookup g rest)
  unfolding lookup
  lookup-usable_of g n (usable v) rest = refl
  lookup-usable_of g n absent rest = ground arith
  lookup-usable_of g n (unusable e) rest = ground arith
  lookup-usable_of g n (fatal_exception why) rest = ground arith

  failed_unread :
      (verdict : Verdict repr) {e : ClientError}
      → error_in verdict ≡ some e
      → value_in verdict ≡ none
  failed_unread absent h = refl
  failed_unread (usable v) h = cc
  failed_unread (unusable e) h = refl
  failed_unread (fatal_exception why) h = refl

  module _ (answer : String → Reply) where
    verdict_of : String → Verdict repr
    verdict_of graph = judge repr graph (answer graph)

    lookup-unusables :
        (g : String) (graphs : List String)
        → Either (lookup g (unusables repr (ask answer graphs))) (error_in (verdict_of g))
    unfolding unusables ask lookup verdict_of
    lookup-unusables g [] = inr refl
    lookup-unusables g (n ∷ graphs) =
        Either-step (λ k. error_in (verdict_of k)) g n _
          (lookup g (unusables repr (ask answer graphs)))
          (lookup-unusable_of g n (verdict_of n) (unusables repr (ask answer graphs)))
          (lookup-unusables g graphs)

    lookup-usables :
        (g : String) (graphs : List String)
        → Either (lookup g (usables repr (ask answer graphs))) (value_in (verdict_of g))
    unfolding usables ask lookup verdict_of
    lookup-usables g [] = inr refl
    lookup-usables g (n ∷ graphs) =
        Either-step (λ k. value_in (verdict_of k)) g n _
          (lookup g (usables repr (ask answer graphs)))
          (lookup-usable_of g n (verdict_of n) (usables repr (ask answer graphs)))
          (lookup-usables g graphs)

    failed-unread :
        (g : String) (graphs : List String) {e : ClientError}
        → lookup g (unusables repr (ask answer graphs)) ≡ some e
        → lookup g (usables repr (ask answer graphs)) ≡ none
    failed-unread g graphs h = elim (lookup-unusables g graphs) [
      | inr missing ↦ cc
      | inl there ↦ elim (lookup-usables g graphs) [
        | inr missing ↦ missing
        | inl read ↦ read ∙ failed_unread (verdict_of g) (sym there ∙ h)
      ]
    ]

-- Where the stats come from.
pub get_system_stats-ok :
    (F : Floats) (repr : Value → String) (info : Option SystemInfo) (partial : Bool)
    (answer : String → Reply) (stats : SystemStats)
    → get_system_stats F repr info partial answer ≡ ok stats
    → (readings : Dict String Value) × (failed : List (String × ClientError)) × (fetch_graphs repr
          partial
          (ask answer (graphs_of info))
        ≡ ok (readings, failed))
      × (stats_of F info (readings, failed) ≡ stats)
unfolding get_system_stats
get_system_stats-ok F repr info partial answer stats returns =
    let ((readings, failed), found, final) =
      >>=-eq-ok (fetch_graphs repr partial (ask answer (graphs_of info))) _ returns in
    (readings, failed, found, cc)

-- When get_system_stats returns and lists a graph as failed, then the fields of that graph are None,
-- or an empty dict for the interfaces; in strict mode no graph is listed, in partial mode none with
-- an error that concerns the whole connection.
pub get_system_stats-failed :
    (F : Floats) (repr : Value → String) (info : Option SystemInfo) (partial : Bool)
    (answer : String → Reply) (stats : SystemStats) (graph : String) (e : ClientError)
    → get_system_stats F repr info partial answer ≡ ok stats
    → lookup graph stats.failed_graphs ≡ some e
    → (is_unfilled graph stats ≡ true)
      × ((if partial then fatal stats.failed_graphs else stats.failed_graphs) ≡ [])
unfolding stats_of
get_system_stats-failed F repr info partial answer stats graph e returns listed =
    let (readings, failed, found, same) =
      get_system_stats-ok F repr info partial answer stats returns in
    let (same_readings, same_failed, none_fatal) =
      fetch_graphs-ok repr partial (ask answer (graphs_of info)) found in
    subst
      (λ s.
        lookup graph s.failed_graphs ≡ some e
        → (is_unfilled graph s ≡ true)
          × ((if partial then fatal s.failed_graphs else s.failed_graphs) ≡ []))
      same
      (λ h. (
        unread-is_unfilled F info readings failed graph (
            ap (lookup graph) same_readings
            ∙ failed-unread repr answer graph (graphs_of info)
                (ap (lookup graph) (sym same_failed) ∙ h)),
        none_fatal,
      ))
      listed
