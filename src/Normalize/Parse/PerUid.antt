-- ===== src/Normalize/Parse/PerUid.antt =====
-- `parse_api` one uid at a time: what becomes of a uid's entry is a fold over the entries of the
-- source that carry the uid and pass the filters, whatever the other entries do.
use aiotruenas.Base.{
  Bool, true, false, not, ◌&&◌, ◌≡◌, Option, none, some, List, [], ◌∷◌, Result, ok, raise, ◌>>=◌,
  >>=-eq-ok, ◌∙◌, arith, ◌==◌, if◌then◌else◌,
}
use aiotruenas.Value.{Key, Value, obj, Items, nil, cons, Fields, end, key_eq, get}
use aiotruenas.Value.Dict.{get-put}
use aiotruenas.Normalize.Spec.{Runtime}
use aiotruenas.Normalize.Fill.{UnsupportedAction, resolve_target, write_back}
use aiotruenas.Normalize.Uid.{Keymap, should_skip_entry}
use aiotruenas.Normalize.Parse.{
  Mapping, entry_of, entry_target, is_keyed, uid_in, resolve_entry_uid, apply_target, apply_source,
  parse_entries,
}
use aiotruenas.Normalize.Parse.Entry.{entry_dict, apply_target_lem}

-- The dict that an entry is read into: a missing or malformed one starts empty.
abbrev pub dict_of : Option Value → Fields
dict_of (some (obj t)) = t
dict_of o = end

abbrev pub is_uid : Key → Option Key → Bool
is_uid k none = false
is_uid k (some uid) = k == uid

module _ (R : Runtime) (m : Mapping) where
  -- The updates of one dict, in the order of the source.
  unfoldable pub fold_updates : Option Value → List Value → Result UnsupportedAction (Option Value)
  fold_updates o [] = ok o
  fold_updates o (entry ∷ entries) =
      entry_dict R m (dict_of o) entry >>= λ t. fold_updates (some (obj t)) entries

module _ (m : Mapping) (keymap : Keymap) (k : Key) where
  -- The entries of the source with the uid that pass the filters.
  unfoldable pub updates : Items → List Value
  updates nil = []
  updates (cons entry rest) =
      let others = updates rest in
      if not (should_skip_entry entry m.only m.skip) && is_uid k (uid_in m keymap entry)
      then entry ∷ others
      else others

resolve_target_lem : (d : Fields) (uid : Key) → resolve_target d (some uid) ≡ dict_of (get uid d)
unfolding resolve_target
resolve_target_lem d uid = ground arith

module _ (R : Runtime) (m : Mapping) (k : Key) (d : Fields) where
  fold_step :
      (u : Key) (entry : Value) (later : List Value) (r : Result UnsupportedAction Fields)
      {d' : Fields}
      → entry_dict R m (dict_of (get u d)) entry ≡ r
      → (r >>= λ t. ok (write_back d (some u) t)) ≡ ok d'
      → fold_updates R m (get k d) (if k == u then entry ∷ later else later)
        ≡ fold_updates R m (get k d') later
  unfolding fold_updates write_back
  fold_step u entry later (ok t) e h = ground (arith, get-put k u (obj t) d)
  fold_step u entry later (raise x) e h = cc

  -- A source entry that is not skipped and has the uid `u`.
  step_at :
      (u : Key) (entry : Value) (later : List Value) {d' : Fields}
      → apply_target R m d entry (entry_of u) ≡ ok d'
      → fold_updates R m (get k d) (if k == u then entry ∷ later else later)
        ≡ fold_updates R m (get k d') later
  step_at u entry later h =
      fold_step u entry later _ (rw resolve_target_lem) (rw (apply_target_lem R m d u entry) at h)

  step_split :
      (skipped : Bool) (o : Option Key) (entry : Value) (later : List Value) {d' : Fields}
      → (if skipped then ok d else apply_target R m d entry (entry_target o)) ≡ ok d'
      → fold_updates R m (get k d) (if not skipped && is_uid k o then entry ∷ later else later)
        ≡ fold_updates R m (get k d') later
  step_split true o entry later h = cc
  step_split false none entry later h = unfold apply_target in cc
  step_split false (some u) entry later h = step_at u entry later h

module _ (R : Runtime) (m : Mapping) (keymap : Keymap) (keyed : is_keyed m ≡ true) (k : Key) where
  resolve_keyed :
      (entry : Value) → resolve_entry_uid m keymap entry ≡ entry_target (uid_in m keymap entry)
  unfolding resolve_entry_uid
  resolve_keyed entry = rw keyed

  source_step :
      (d : Fields) (entry : Value) (rest : Items) {d' : Fields}
      → apply_source R m keymap d entry ≡ ok d'
      → fold_updates R m (get k d) (updates m keymap k (cons entry rest))
        ≡ fold_updates R m (get k d') (updates m keymap k rest)
  unfolding apply_source updates
  source_step d entry rest h =
      step_split R m k d (should_skip_entry entry m.only m.skip) (uid_in m keymap entry) entry
        (updates m keymap k rest) (rw (resolve_keyed entry) at h)

  pub parse_entries-get :
      (es : Items) (d : Fields) (seen : List Key) {r : Fields × List Key}
      → parse_entries R m keymap es d seen ≡ ok r
      → fold_updates R m (get k d) (updates m keymap k es) ≡ ok (get k r.0)
  unfolding parse_entries
  parse_entries-get nil d seen h = unfold fold_updates updates in cc
  parse_entries-get (cons entry rest) d seen h =
      let (d1, one, more) = >>=-eq-ok (apply_source R m keymap d entry) _ h in
      source_step d entry rest one ∙ parse_entries-get rest d1 _ more
