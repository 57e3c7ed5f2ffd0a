-- ===== src/State/Kept.antt =====
-- The endpoints whose query is tracked, after a response that is usable and after one that is not.
use aiotruenas.Base.{
  String, Bool, true, false, not, ◌≡◌, refl, sym, ap, ◌∙◌, Option, none, some, List, [], string_eq,
  arith, ok,
}
use aiotruenas.Base.Assoc.{lookup, lookup-insert_self}
use aiotruenas.Value.{Key, Value, arr, obj, Items, nil, cons, Fields}
use aiotruenas.Rpc.{returned}
use aiotruenas.Normalize.Spec.{ApiValueSpec}
use aiotruenas.Normalize.Uid.{given, generate_keymap}
use aiotruenas.Normalize.Parse.{Mapping, is_keyed, uid_in, parse_api, empty_source_result}
use aiotruenas.Normalize.Parse.Pruning.{identified, has_uid}
use aiotruenas.Normalize.Parse.Outcome.{parse_api_unidentified}
use aiotruenas.State.Cache.{
  Cache, Server, Platform, Ended, on_reply, keyed, plain_derive, normalize, each_entry, endpoint,
  set_endpoint, refresh,
}
use aiotruenas.State.Fallback.{
  is_failing, note_fallback_outcome, note_primary_query_outcome, has_id, any_id, is_usable,
  fallback_endpoint, stale_endpoints,
}
use aiotruenas.State.Fallback.Log.{is_failing-noted, ds-note}
use aiotruenas.State.Fallback.Stale.{Among, is_failing-Among}
use aiotruenas.State.Entries.{unchanged, derive_service, derive_vm, note_link}
use aiotruenas.State.Endpoints.{get_service, get_vm, get_interface, get_scrub}

module _ (P : Platform) (vals ensure_vals : List ApiValueSpec) where
  abbrev by_id : Mapping
  by_id = keyed "id" vals ensure_vals

  has_id-has_uid : (entry : Value) → has_id "id" entry ≡ has_uid (uid_in by_id [] entry)
  unfolding has_id
  has_id-has_uid entry = by_uid (uid_in by_id [] entry)
    where
      by_uid : (o : Option Key) → elim o [ none ↦ false | some uid ↦ true ] ≡ has_uid o
      by_uid none = refl
      by_uid (some uid) = refl

  any_id-identified : (es : Items) → any_id "id" es ≡ identified by_id [] es
  unfolding any_id identified
  any_id-identified nil = refl
  any_id-identified (cons entry rest) = rw (has_id-has_uid entry) (rw (any_id-identified rest))

  parse_api-unusable :
      (d : Fields) (entry : Value) (rest : Items)
      → any_id "id" (cons entry rest) ≡ false
      → parse_api P.runtime by_id d (arr (cons entry rest)) ≡ ok d
  unfolding is_keyed given generate_keymap string_eq
  parse_api-unusable d entry rest h =
      parse_api_unidentified P.runtime by_id d entry rest refl
        (sym (any_id-identified (cons entry rest)) ∙ h)

  -- A response that is not usable leaves the data as it was.
  pub normalize-unusable :
      (d : Fields) (raw : Value) → is_usable "id" raw ≡ false → normalize P by_id d raw ≡ d
  unfolding normalize is_usable parse_api any_id is_keyed given string_eq empty_source_result
  normalize-unusable d (obj entry) h = rw (parse_api-unusable d (obj entry) nil (ground arith))
  normalize-unusable d (arr nil) h = cc
  normalize-unusable d (arr (cons entry rest)) h = rw (parse_api-unusable d entry rest h)
  normalize-unusable d v h = refl

pub endpoint-set_endpoint :
    (name : String) (d : Fields) (s : Cache) → endpoint name (set_endpoint name d s) ≡ d
unfolding endpoint set_endpoint string_eq
endpoint-set_endpoint name d s = rw (lookup-insert_self name d s.ds)

endpoint-note :
    (name key : String) (b : Bool) (s : Cache)
    → endpoint name (note_fallback_outcome key b s) ≡ endpoint name s
unfolding endpoint
endpoint-note name key b s = rw (ds-note key b s)

-- The endpoint serves what it had, its loop applied once more, and is listed as stale.
abbrev pub IsKept : String → (Key → Fields → Fields × Bool) → Cache → Cache → Type 0
IsKept name derive s s' =
    (endpoint name s' ≡ (each_entry derive (endpoint name s)).0) × Among name (stale_endpoints s')

module _ (P : Platform) (raw : Value) (s : Cache) where
  module _ (name key : String) (vals ensure_vals : List ApiValueSpec)
      (derive : Key → Fields → Fields × Bool) where
    abbrev tracked : Ended × Cache
    tracked =
        refresh P name (keyed "id" vals ensure_vals) derive raw
          (note_primary_query_outcome key raw s)

    noted : is_usable "id" raw ≡ false → is_failing key tracked.1 ≡ true
    unfolding is_failing refresh set_endpoint note_primary_query_outcome string_eq
    noted unusable = rw unusable (is_failing-noted key true s)

    tracked-unusable :
        fallback_endpoint key ≡ some name
        → is_usable "id" raw ≡ false
        → IsKept name derive s tracked.1
    unfolding refresh note_primary_query_outcome
    tracked-unusable named unusable = (
      endpoint-set_endpoint name _ _
          ∙ ap (λ d. (each_entry derive d).0)
              (normalize-unusable P vals ensure_vals
                  (endpoint name (note_primary_query_outcome key raw s)) raw unusable
                ∙ endpoint-note name key (not (is_usable "id" raw)) s),
      is_failing-Among key name tracked.1 named (noted unusable),
    )

  -- A server that answers every method with the same unusable response: each tracked endpoint
  -- serves what it had, its loop applied once more, and is listed as stale.
  pub tracked_endpoints-unusable :
      (V : Server)
      → ((method : String) → V.call method ≡ returned raw)
      → is_usable "id" raw ≡ false
      → IsKept "service" derive_service s (get_service P V s).1
        × IsKept "vm" (derive_vm P) s (get_vm P V s).1
        × IsKept "interface" (plain_derive (λ k vals. note_link vals)) s (get_interface P V s).1
        × IsKept "scrub" unchanged s (get_scrub P V s).1
  unfolding get_service get_vm get_interface get_scrub on_reply string_eq fallback_endpoint lookup
  tracked_endpoints-unusable V answers unusable = (
    rw (answers "service.query")
        (tracked-unusable "service" "service_query" _ _ derive_service refl unusable),
    rw (answers "vm.query") (tracked-unusable "vm" "vm_query" _ _ (derive_vm P) refl unusable),
    rw (answers "interface.query") (
        tracked-unusable "interface" "interface_query" _ _ (plain_derive (λ k vals. note_link vals))
          refl unusable),
    rw (answers "pool.scrub.query")
        (tracked-unusable "scrub" "scrub_query" _ _ unchanged refl unusable),
  )
