-- ===== src/Normalize/Uid.antt =====
-- The identity of an entry, and the filters: `get_uid`, `generate_keymap`, `matches_only`,
-- `can_skip`, `_should_skip_entry`.
pub mod Laws
use aiotruenas.Base.{
  String, Bool, true, false, not, ◌&&◌, ◌||◌, Option, none, some, List, [], ◌∷◌, ◌==◌, string_eq,
  if◌then◌else◌,
}
use aiotruenas.Base.Assoc.{Dict, lookup, insert}
use aiotruenas.Value.{
  Key, no_value, text, Value, null, str, obj, Fields, end, field, hash_key, key_eq, get, py_eq,
}
use aiotruenas.Value.Dict.{has}
use aiotruenas.Normalize.Spec.{Filter, or_default}

-- The truth of an optional text: neither None nor "".
unfoldable pub given : Option String → Bool
unfolding string_eq
given none = false
given (some s) = not (s == "")

-- A uid as `get_uid` returns it: None is no uid, and neither is an unhashable value.
unfoldable pub uid_of : Value → Option Key
unfolding hash_key
uid_of null = none
uid_of v = hash_key v

-- The search values of the cached entries, with the uids of these.
abbrev pub Keymap : Type 0
Keymap = Dict Key Key

abbrev pub nonempty {ℓ} : {A : Type ℓ} → List A → Bool
nonempty [] = false
nonempty (x ∷ xs) = true

uid_by_key : Fields → Option String → Option String → Option Key
unfolding has get uid_of
uid_by_key entry none none = none
uid_by_key entry none (some secondary) = uid_of (or_default (get (text secondary) entry) null)
uid_by_key entry (some key) none = elim (get (text key) entry) [ none ↦ none | some v ↦ uid_of v ]
uid_by_key entry (some key) (some secondary) = elim (get (text key) entry) [
  | none ↦ uid_of (or_default (get (text secondary) entry) null)
  | some v ↦ uid_of v
]

-- `keymap.get(search_value)`; a uid None in the map is no uid.
not_none : Option Key → Option Key
not_none (some no_value) = none
not_none o = o

uid_by_search : Fields → String → Keymap → Option Key
unfolding get hash_key lookup key_eq not_none
uid_by_search entry search keymap = elim (get (text search) entry) [
  | none ↦ none
  | some v ↦ elim (hash_key v) [ none ↦ none | some k ↦ not_none (lookup k keymap) ]
]

-- `get_uid`. Without `key_search` the keymap is None.
unfoldable pub get_uid : Value → Option String → Option String → Option String → Keymap → Option Key
unfolding given uid_by_key uid_by_search
get_uid (obj entry) key secondary none keymap = uid_by_key entry key secondary
get_uid (obj entry) key secondary (some search) keymap =
    if given (some search)
    then (if nonempty keymap then uid_by_search entry search keymap else none)
    else uid_by_key entry key secondary
get_uid _ key secondary search keymap = none

-- The search key of a cached entry: of a dict that has the field with a hashable value.
unfoldable pub search_key : String → Value → Option Key
unfolding get hash_key
search_key search (obj entry) = elim (get (text search) entry) [ none ↦ none | some v ↦ hash_key v ]
search_key search _ = none

note_entry : Option Key → Key → Keymap → Keymap
unfolding insert key_eq
note_entry none uid keymap = keymap
note_entry (some k) uid keymap = insert k uid keymap

-- The comprehension of `generate_keymap`: a later entry with the same search value wins.
unfoldable pub keymap_from : String → Fields → Keymap → Keymap
unfolding search_key note_entry
keymap_from search end keymap = keymap
keymap_from search (field uid entry d) keymap =
    keymap_from search d (note_entry (search_key search entry) uid keymap)

unfoldable pub generate_keymap : Fields → Option String → Keymap
unfolding keymap_from given
generate_keymap d none = []
generate_keymap d (some search) = if given (some search) then keymap_from search d [] else []

-- `matches_only`, on the fields of a dict
all_match : Fields → List Filter → Bool
unfolding get py_eq
all_match entry [] = true
all_match entry (f ∷ only) =
    py_eq (or_default (get (text f.field_name) entry) null) f.value && all_match entry only

unfoldable pub matches_only : Value → List Filter → Bool
unfolding all_match
matches_only (obj entry) only = all_match entry only
matches_only _ only = false

-- One round of the loop of `can_skip`.
abbrev skip_hit : Option Value → Value → Bool
skip_hit none value = py_eq value (str "")
skip_hit (some v) value = py_eq v value

any_skip : Fields → List Filter → Bool
unfolding get py_eq
any_skip entry [] = false
any_skip entry (f ∷ skip) = skip_hit (get (text f.field_name) entry) f.value || any_skip entry skip

unfoldable pub can_skip : Value → List Filter → Bool
unfolding any_skip
can_skip (obj entry) skip = any_skip entry skip
can_skip _ skip = false

unfoldable pub should_skip_entry : Value → List Filter → List Filter → Bool
unfolding matches_only can_skip
should_skip_entry entry only skip =
    (nonempty only && not (matches_only entry only)) || (nonempty skip && can_skip entry skip)
