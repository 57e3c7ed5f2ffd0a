-- ===== src/State/Fallback/Stale.antt =====
-- The endpoints that `stale_endpoints` lists.
use aiotruenas.Base.{
  String, Bool, true, false, ◌≡◌, refl, sym, ap, ◌∙◌, ◌⊎◌, inl, inr, ◌↔◌, Option, none, some, List,
  [], ◌∷◌, ◌==◌, string_eq, arith, if◌then◌else◌, Bool-cases,
}
use aiotruenas.Base.Assoc.{Dict, lookup}
use aiotruenas.Normalize.Uid.{nonempty}
use aiotruenas.State.Cache.{Cache}
use aiotruenas.State.Fallback.{
  is_failing, with_endpoint, fallback_endpoint, failing_endpoints, stale_endpoints,
}

-- One of a list.
abbrev pub Among : {A : Type 0} → A → List A → Type 0
Among x [] = ⊥
Among x (y ∷ ys) = (x ≡ y) ⊎ Among x ys

-- A failing key of the endpoint.
abbrev pub IsFailing : String → Dict String Bool → Type 0
IsFailing name failing =
    (key : String) × Among (key, true) failing × (fallback_endpoint key ≡ some name)

later :
    (name : String) (first : String × Bool) (rest : Dict String Bool)
    → IsFailing name rest
    → IsFailing name (first ∷ rest)
later name first rest (key, among, named) = (key, inr among, named)

split_endpoint :
    (name : String) (key : String) (rest : Dict String Bool) (o : Option String)
    → fallback_endpoint key ≡ o
    → (Among name (failing_endpoints rest) → IsFailing name rest)
    → Among name (with_endpoint o (failing_endpoints rest))
    → IsFailing name ((key, true) ∷ rest)
split_endpoint name key rest none mapped others among = later name (key, true) rest (others among)
split_endpoint name key rest (some endpoint) mapped others (inl same) =
    (key, inl refl, mapped ∙ ap some (sym same))
split_endpoint name key rest (some endpoint) mapped others (inr among) =
    later name (key, true) rest (others among)

failing_endpoints-Among :
    (name : String) (failing : Dict String Bool)
    → Among name (failing_endpoints failing)
    → IsFailing name failing
unfolding failing_endpoints
failing_endpoints-Among name [] among = elim among [ ]
failing_endpoints-Among name ((key, false) ∷ rest) among =
    later name (key, false) rest (failing_endpoints-Among name rest among)
failing_endpoints-Among name ((key, true) ∷ rest) among =
    split_endpoint name key rest (fallback_endpoint key) refl (failing_endpoints-Among name rest)
      among

first_endpoint :
    {name : String} (o : Option String) (others : List String)
    → o ≡ some name
    → Among name (with_endpoint o others)
first_endpoint none others h = cc
first_endpoint (some endpoint) others h = inl (cc)

other_endpoint :
    (name : String) (o : Option String) (failing : Bool) (others : List String)
    → Among name others
    → Among name (if failing then with_endpoint o others else others)
other_endpoint name none true others among = among
other_endpoint name (some endpoint) true others among = inr among
other_endpoint name o false others among = among

Among-failing_endpoints :
    (name : String) (failing : Dict String Bool)
    → IsFailing name failing
    → Among name (failing_endpoints failing)
unfolding failing_endpoints
Among-failing_endpoints name [] (key, among, named) = elim among [ ]
Among-failing_endpoints name ((other, b) ∷ rest) (key, inl same, named) =
    rw (← ap (λ p. p.1) same) (
      first_endpoint (fallback_endpoint other) (failing_endpoints rest)
        (ap fallback_endpoint (sym (ap (λ p. p.0) same)) ∙ named))
Among-failing_endpoints name ((other, b) ∷ rest) (key, inr among, named) =
    other_endpoint name (fallback_endpoint other) b (failing_endpoints rest)
      (Among-failing_endpoints name rest (key, among, named))

-- An endpoint serves a cached value.
abbrev pub IsStale : String → Cache → Type 0
IsStale name s =
    IsFailing name s.fallback_failing ⊎ (name ≡ "ups") × (nonempty s.ups_stale_graphs ≡ true)

-- `stale_endpoints` lists the endpoints that have a failing key, and "ups" if graphs are stale.
pub stale_endpoints-Among :
    (name : String) (s : Cache) → Among name (stale_endpoints s) ↔ IsStale name s
unfolding stale_endpoints
stale_endpoints-Among name s = by_graphs s.ups_stale_graphs
  where
    by_graphs :
        (graphs : List String)
        → Among name (
            if nonempty graphs
            then "ups" ∷ failing_endpoints s.fallback_failing
            else failing_endpoints s.fallback_failing)
          ↔ (IsFailing name s.fallback_failing ⊎ (name ≡ "ups") × (nonempty graphs ≡ true))
    by_graphs [] = (
      (λ among. inl (failing_endpoints-Among name s.fallback_failing among)),
      λ stale. elim stale [
        | inl failing ↦ Among-failing_endpoints name s.fallback_failing failing
        | inr (ups, graphs) ↦ cc
      ],
    )
    by_graphs (graph ∷ graphs) = (
      (λ among. elim among [
        | inl ups ↦ inr (ups, refl)
        | inr others ↦ inl (failing_endpoints-Among name s.fallback_failing others)
      ]),
      λ stale. elim stale [
        | inl failing ↦ inr (Among-failing_endpoints name s.fallback_failing failing)
        | inr (ups, graphs) ↦ inl ups
      ],
    )

lookup-Among :
    (key : String) (failing : Dict String Bool)
    → lookup key failing ≡ some true
    → Among (key, true) failing
unfolding lookup string_eq
lookup-Among key [] h = cc
lookup-Among key ((other, b) ∷ rest) h = elim (Bool-cases (key == other)) [
  | inl same ↦ inl (ground arith)
  | inr differ ↦ inr (lookup-Among key rest (ground arith))
]

is_failing-lookup :
    (key : String) (s : Cache) → is_failing key s ≡ true → lookup key s.fallback_failing ≡ some true
unfolding is_failing string_eq
is_failing-lookup key s h = ground arith

-- While a key fails, its endpoint is stale.
pub is_failing-Among :
    (key name : String) (s : Cache)
    → fallback_endpoint key ≡ some name
    → is_failing key s ≡ true
    → Among name (stale_endpoints s)
is_failing-Among key name s named failing =
    (stale_endpoints-Among name s).1
      (inl (key, lookup-Among key s.fallback_failing (is_failing-lookup key s failing), named))
