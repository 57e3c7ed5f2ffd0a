-- ===== src/State/Recovery.antt =====
-- The end of an outage: a usable response takes an endpoint off the list of stale ones.
use mathlib.Core.Path.{subst}
use aiotruenas.Base.Equality.{==-eq, ==-ne}
use aiotruenas.Base.{
  Eq, String, Bool, true, false, not, ◌≡◌, refl, ap, inl, inr, some, List, [], ◌∷◌, ◌==◌, ◌||◌,
  ◌&&◌, string_eq, arith, Bool-cases,
}
use aiotruenas.Base.Assoc.{Dict, lookup, erase}
use aiotruenas.Value.{Key, Value, Fields}
use aiotruenas.Rpc.{returned}
use aiotruenas.Normalize.Spec.{ApiValueSpec}
use aiotruenas.State.Cache.{
  Cache, Server, Platform, Ended, on_reply, keyed, plain_derive, set_endpoint, refresh,
}
use aiotruenas.State.Fallback.{
  is_failing, clear, note_recovered, note_fallback_outcome, note_primary_query_outcome, is_usable,
  fallback_endpoint, fallback_key_endpoints, stale_endpoints,
}
use aiotruenas.State.Fallback.Stale.{Among, stale_endpoints-Among}
use aiotruenas.State.Entries.{unchanged, derive_service, derive_vm, note_link}
use aiotruenas.State.Endpoints.{get_service, get_vm, get_interface, get_scrub}

erase-Absent : (key : String) (d : Dict String Bool) → ¬ Among (key, true) (erase key d)
unfolding erase
erase-Absent key [] = λ among. among
erase-Absent key ((other, b) ∷ rest) = elim (Bool-cases (key == other)) [
  | inl same ↦ rw same (erase-Absent key rest)
  | inr differ ↦ rw differ (λ among. elim among [
    | inl first ↦ ==-ne key other differ (ap (λ p. p.0) first)
    | inr others ↦ erase-Absent key rest others
  ])
]

module _ {K V : Type 0} ⦃e : Eq K⦄ ⦃f : Eq V⦄ where
  -- The value has no other key.
  only_for : K → V → Dict K V → Bool
  only_for key v [] = true
  only_for key v ((other, w) ∷ rest) = (not (w == v) || other == key) && only_for key v rest

  only_for-lookup :
      (key : K) (v : V) (other : K) (d : Dict K V)
      → only_for key v d ≡ true
      → lookup other d ≡ some v
      → other ≡ key
  unfolding only_for lookup
  only_for-lookup key v other [] only h = cc
  only_for-lookup key v other ((first, w) ∷ rest) only h = elim (Bool-cases (other == first)) [
    | inl same ↦ ground (arith, ==-eq other first, ==-eq first key)
    | inr differ ↦ only_for-lookup key v other rest (ground arith) (ground arith)
  ]

recovered_failing :
    (key : String) (s : Cache)
    → (note_fallback_outcome key false s).fallback_failing ≡ erase key s.fallback_failing
unfolding note_fallback_outcome note_recovered clear
recovered_failing key s = elim (Bool-cases (is_failing key s)) [
  | inl failing ↦ rw failing
  | inr working ↦ rw working
]

module _ (P : Platform) (raw : Value) (s : Cache) where
  module _ (name key : String) (vals ensure_vals : List ApiValueSpec)
      (derive : Key → Fields → Fields × Bool) where
    abbrev tracked : Ended × Cache
    tracked =
        refresh P name (keyed "id" vals ensure_vals) derive raw
          (note_primary_query_outcome key raw s)

    tracked-Absent : is_usable "id" raw ≡ true → ¬ Among (key, true) tracked.1.fallback_failing
    unfolding refresh note_primary_query_outcome set_endpoint
    tracked-Absent usable =
        rw usable (rw (recovered_failing key s) (erase-Absent key s.fallback_failing))

    tracked-usable :
        only_for key name fallback_key_endpoints ≡ true
        → (name ≡ "ups" → ⊥)
        → is_usable "id" raw ≡ true
        → ¬ Among name (stale_endpoints tracked.1)
    unfolding fallback_endpoint
    tracked-usable only no_ups usable among =
        elim ((stale_endpoints-Among name tracked.1).0 among) [
          | inl (other, failing, named) ↦ tracked-Absent usable (
              subst (λ k. Among (k, true) tracked.1.fallback_failing)
                (only_for-lookup key name other fallback_key_endpoints only named) failing)
          | inr (ups, graphs) ↦ no_ups ups
        ]

  -- A server that answers every method with the same usable response: none of the tracked
  -- endpoints is stale after its refresh, whatever the cache was before.
  pub tracked_endpoints-usable :
      (V : Server)
      → ((method : String) → V.call method ≡ returned raw)
      → is_usable "id" raw ≡ true
      → (¬ Among "service" (stale_endpoints (get_service P V s).1))
        × (¬ Among "vm" (stale_endpoints (get_vm P V s).1))
        × (¬ Among "interface" (stale_endpoints (get_interface P V s).1))
        × (¬ Among "scrub" (stale_endpoints (get_scrub P V s).1))
  unfolding get_service get_vm get_interface get_scrub on_reply string_eq only_for
  tracked_endpoints-usable V answers usable = (
    rw (answers "service.query")
        (tracked-usable "service" "service_query" _ _ derive_service refl (λ p. cc) usable),
    rw (answers "vm.query")
        (tracked-usable "vm" "vm_query" _ _ (derive_vm P) refl (λ p. cc) usable),
    rw (answers "interface.query") (
        tracked-usable "interface" "interface_query" _ _ (plain_derive (λ k vals. note_link vals))
          refl (λ p. cc) usable),
    rw (answers "pool.scrub.query")
        (tracked-usable "scrub" "scrub_query" _ _ unchanged refl (λ p. cc) usable),
  )
