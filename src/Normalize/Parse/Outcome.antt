-- ===== src/Normalize/Parse/Outcome.antt =====
-- Payloads without entries, and responses that leave the data as it was.
use aiotruenas.Base.{
  Bool, true, false, ◌≡◌, refl, Option, none, some, List, [], ok, arith, if◌then◌else◌,
}
use aiotruenas.Value.{Key, Value, arr, obj, Items, nil, cons, Fields, end, key_eq}
use aiotruenas.Normalize.Spec.{Runtime}
use aiotruenas.Normalize.Fill.{fill_defaults}
use aiotruenas.Normalize.Uid.{Keymap, generate_keymap}
use aiotruenas.Normalize.Parse.{
  Mapping, is_keyed, uid_in, apply_target, apply_source, parse_entries, note_seen,
  resolve_entry_uid, finish, parse_api, empty_source_result,
}
use aiotruenas.Normalize.Parse.Pruning.{identified, has_uid}

-- Neither a dict nor a list, such as the None of a failed query.
abbrev pub is_scalar : Value → Bool
is_scalar (arr xs) = false
is_scalar (obj fs) = false
is_scalar _ = true

module _ (R : Runtime) (m : Mapping) where
  -- With a key, a payload that is no dict and no list keeps the data, and an empty list clears it;
  -- without keys both fill in the defaults that the data lacks.
  pub parse_api_without_entries :
      (d : Fields) (v : Value)
      → is_scalar v ≡ true
      → (parse_api R m d v ≡ ok (if is_keyed m then d else fill_defaults d m.vals))
        × (parse_api R m d (arr nil) ≡ ok (if is_keyed m then end else fill_defaults d m.vals))
  unfolding parse_api empty_source_result
  parse_api_without_entries d (arr xs) h = cc
  parse_api_without_entries d _ h = ground arith

  module _ (keymap : Keymap) (keyed : is_keyed m ≡ true) where
    apply_source_unidentified :
        (d : Fields) (entry : Value)
        → has_uid (uid_in m keymap entry) ≡ false
        → apply_source R m keymap d entry ≡ ok d
    unfolding apply_source apply_target resolve_entry_uid
    apply_source_unidentified d entry h = ground arith

    no_note :
        (o : Option Key) (seen : List Key) → has_uid o ≡ false → note_seen m keymap o seen ≡ seen
    no_note none seen h = refl
    no_note (some k) seen h = cc

    parse_entries_unidentified :
        (es : Items) (d : Fields) (seen : List Key)
        → identified m keymap es ≡ false
        → parse_entries R m keymap es d seen ≡ ok (d, seen)
    unfolding parse_entries identified
    parse_entries_unidentified nil d seen h = refl
    parse_entries_unidentified (cons entry rest) d seen h =
        rw (apply_source_unidentified d entry (ground arith)) (
          rw (no_note (uid_in m keymap entry) seen (ground arith))
            (parse_entries_unidentified rest d seen (ground arith)))

  -- With a key, a non-empty list in which no entry has a uid leaves the data as it was.
  pub parse_api_unidentified :
      (d : Fields) (entry : Value) (rest : Items)
      → is_keyed m ≡ true
      → identified m (generate_keymap d m.key_search) (cons entry rest) ≡ false
      → parse_api R m d (arr (cons entry rest)) ≡ ok d
  unfolding parse_api finish
  parse_api_unidentified d entry rest keyed h =
      rw
        (parse_entries_unidentified (generate_keymap d m.key_search) keyed (cons entry rest) d [] h)
        (ground arith)
