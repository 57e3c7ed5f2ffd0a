-- ===== src/Normalize/Parse.antt =====
-- `parse_api`: the normalized dict after one more response, and the pruning of stale entries.
pub mod Entry
pub mod Schema
pub mod PerUid
pub mod Pruning
pub mod Outcome
use aiotruenas.Base.{
  String, Bool, true, false, not, ◌&&◌, ◌||◌, Option, none, some, List, [], ◌∷◌, Result, ok, raise,
  ◌>>=◌, ◌==◌, if◌then◌else◌,
}
use aiotruenas.Value.{Key, Value, arr, obj, Items, nil, cons, Fields, end, field, key_eq, get}
use aiotruenas.Value.Dict.{put}
use aiotruenas.Normalize.Spec.{Runtime, ApiValueSpec, ProcStep, Filter}
use aiotruenas.Normalize.Fill.{
  UnsupportedAction, fill_defaults, fill_vals, fill_ensure_vals, fill_vals_proc, resolve_target,
  write_back,
}
use aiotruenas.Normalize.Uid.{given, Keymap, nonempty, get_uid, generate_keymap, should_skip_entry}

-- The arguments of `parse_api` behind `data` and `source`. A list that is None is empty.
pub record Mapping : Type 0 where
  pub key : Option String
  pub key_secondary : Option String
  pub key_search : Option String
  pub vals : List ApiValueSpec
  pub val_proc : List (List ProcStep)
  pub ensure_vals : List ApiValueSpec
  pub only : List Filter
  pub skip : List Filter
  pub prune : Bool

-- `key or key_search`
unfoldable pub is_keyed : Mapping → Bool
unfolding given
is_keyed m = given m.key || given m.key_search

-- `_empty_source_result`
unfoldable pub empty_source_result : Mapping → Fields → Bool → Fields
empty_source_result m d source_was_none =
    if not (is_keyed m) then fill_defaults d m.vals else if source_was_none then d else end

-- `uid in seen_uids`
unfoldable pub contains : Key → List Key → Bool
unfolding key_eq
contains k [] = false
contains k (j ∷ ks) = k == j || contains k ks

-- `_prune_stale_uids` of keyed data
unfoldable pub drop_stale : List Key → Fields → Fields
unfolding contains
drop_stale seen end = end
drop_stale seen (field k v d) =
    let rest = drop_stale seen d in if contains k seen then field k v rest else rest

unfoldable pub prune_stale_uids : Mapping → Fields → List Key → Fields
prune_stale_uids m d seen = if not (is_keyed m) then d else drop_stale seen d

-- The end of `parse_api`: a response in which no entry had a uid prunes nothing.
unfoldable pub finish : Mapping → Fields × List Key → Fields
finish m (d, seen) =
    if m.prune && (not (is_keyed m) || nonempty seen) then prune_stale_uids m d seen else d

-- Where an entry goes: `unmatched`, the keyless data itself, or the entry of a uid.
pub data Target : Type 0 where
  unmatched : Target
  whole : Target
  entry_of : Key → Target

abbrev is_dict : Value → Bool
is_dict (obj fs) = true
is_dict v = false

abbrev entry_target : Option Key → Target
entry_target none = unmatched
entry_target (some uid) = entry_of uid

module _ (m : Mapping) (keymap : Keymap) where
  abbrev pub uid_in : Value → Option Key
  uid_in entry = get_uid entry m.key m.key_secondary m.key_search keymap

  -- `_resolve_entry_uid` but for its write, which `matched_target` makes.
  unfoldable pub resolve_entry_uid : Value → Target
  resolve_entry_uid entry =
      if is_keyed m then entry_target (uid_in entry) else if is_dict entry then whole else unmatched

  abbrev note_seen : Option Key → List Key → List Key
  note_seen none seen = seen
  note_seen (some k) seen = k ∷ seen

abbrev optional {ℓ κ} : {A : Type ℓ} {B : Type κ} → (A → List B → A) → List B → A → A
optional f [] a = a
optional f (b ∷ bs) a = f a (b ∷ bs)

module _ (R : Runtime) (m : Mapping) where
  -- `if val_proc: data = fill_vals_proc(...)`
  run_procs : Fields → Option Key → List (List ProcStep) → Result UnsupportedAction Fields
  run_procs d uid [] = ok d
  run_procs d uid (p ∷ ps) = fill_vals_proc R d uid (p ∷ ps)

  -- `_apply_entry`
  unfoldable pub apply_entry : Fields → Value → Option Key → Result UnsupportedAction Fields
  unfolding run_procs
  apply_entry d entry uid =
      let filled = optional (λ e vals. fill_vals R e entry uid vals) m.vals d in
      let ensured = optional (λ e vals. fill_ensure_vals e uid vals) m.ensure_vals filled in
      run_procs ensured uid m.val_proc

  -- What the loop does with an entry that is not skipped; `_resolve_target` creates its dict.
  unfoldable pub apply_target : Fields → Value → Target → Result UnsupportedAction Fields
  apply_target d entry unmatched = ok d
  apply_target d entry whole = apply_entry d entry none
  apply_target d entry (entry_of uid) =
      apply_entry (write_back d (some uid) (resolve_target d (some uid))) entry (some uid)

  -- One entry of the source, past the note of its uid.
  unfoldable pub apply_source : Keymap → Fields → Value → Result UnsupportedAction Fields
  apply_source keymap d entry =
      if should_skip_entry entry m.only m.skip
      then ok d
      else apply_target d entry (resolve_entry_uid m keymap entry)

  -- The loop over the source, with `data` and `seen_uids`.
  unfoldable pub parse_entries :
      Keymap → Items → Fields → List Key → Result UnsupportedAction (Fields × List Key)
  parse_entries keymap nil d seen = ok (d, seen)
  parse_entries keymap (cons entry rest) d seen = apply_source keymap d entry >>= λ d'.
      parse_entries keymap rest d' (note_seen m keymap (uid_in m keymap entry) seen)

  parse_list : Fields → Items → Result UnsupportedAction Fields
  parse_list d nil = ok (empty_source_result m d false)
  parse_list d (cons entry rest) =
      parse_entries (generate_keymap d m.key_search) (cons entry rest) d [] >>= λ r. ok (finish m r)

  -- `parse_api`. A source that is neither a dict nor a list counts as a failed query.
  unfoldable pub parse_api : Fields → Value → Result UnsupportedAction Fields
  unfolding parse_list
  parse_api d (obj entry) = parse_list d (cons (obj entry) nil)
  parse_api d (arr entries) = parse_list d entries
  parse_api d _ = ok (empty_source_result m d true)
