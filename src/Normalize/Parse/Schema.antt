-- ===== src/Normalize/Parse/Schema.antt =====
-- The shape of a normalized entry: which fields it has, and what refreshing it changes.
use aiotruenas.Base.{Bool, true, false, ◌||◌, ◌≡◌, ◌≢◌, none, List, [], ◌∷◌, ok, arith, ◌==◌}
use aiotruenas.Value.{Key, text, Value, Fields, key_eq, get}
use aiotruenas.Value.Dict.{has}
use aiotruenas.Normalize.Spec.{Runtime, ApiValueSpec}
use aiotruenas.Normalize.Fill.{fill_defaults, set_vals, combine_all}
use aiotruenas.Normalize.Fill.Laws.{
  first_of_two, default_of, get-fill_defaults, value_of, get-set_vals,
}
use aiotruenas.Normalize.Parse.{Mapping}
use aiotruenas.Normalize.Parse.Entry.{entry_dict}

-- Some spec of the table has the key as its name.
unfoldable pub names : Key → List ApiValueSpec → Bool
names k [] = false
names k (val ∷ vals) = k == text val.name || names k vals

names-default_of :
    (k : Key) (vals : List ApiValueSpec) → names k vals ≡ true → default_of k vals ≢ none
unfolding names default_of
names-default_of k [] h = cc
names-default_of k (val ∷ vals) h = ground (arith, names-default_of k vals)

entry_dict_without_procs :
    (R : Runtime) (m : Mapping)
    → m.val_proc ≡ []
    → (t : Fields) (entry : Value)
    → entry_dict R m t entry ≡ ok (fill_defaults (set_vals R t entry m.vals) m.ensure_vals)
unfolding entry_dict combine_all
entry_dict_without_procs R m no_procs t entry = rw no_procs

module _ (R : Runtime) (m : Mapping) (no_procs : m.val_proc ≡ []) where
  names-value_of :
      (k : Key) (entry : Value) (vals : List ApiValueSpec)
      → names k vals ≡ true
      → value_of R k entry vals ≢ none
  unfolding names value_of
  names-value_of k entry [] h = cc
  names-value_of k entry (val ∷ vals) h = ground (arith, names-value_of k entry vals)

  module _ (t : Fields) (entry : Value) {t' : Fields} (read : entry_dict R m t entry ≡ ok t') where
    -- Without `val_proc`, a field of an entry that was read is what its last spec reads from the payload, or else the
    -- field's old value, or else the default that the entry is to have.
    pub get-entry_dict :
        (k : Key)
        → get k t'
          ≡ first_of_two
              (value_of R k entry m.vals)
              (first_of_two (get k t) (default_of k m.ensure_vals))
    get-entry_dict k = ground (
      arith,
      entry_dict_without_procs R m no_procs t entry,
      get-fill_defaults k (set_vals R t entry m.vals) m.ensure_vals,
      get-set_vals R k t entry m.vals,
    )

    -- Without `val_proc`, an entry that was read has every field that the tables name.
    pub has-entry_dict :
        (k : Key) → (names k m.vals || names k m.ensure_vals) ≡ true → has k t' ≡ true
    unfolding has
    has-entry_dict k h =
        ground
          (arith, get-entry_dict k, names-value_of k entry m.vals, names-default_of k m.ensure_vals)

  -- Without `val_proc`, reading the same payload again changes no field.
  pub entry_dict_idem :
      (t : Fields) (entry : Value) {t' t'' : Fields}
      → entry_dict R m t entry ≡ ok t'
      → entry_dict R m t' entry ≡ ok t''
      → (k : Key) → get k t'' ≡ get k t'
  entry_dict_idem t entry {t'} first second k =
      ground (arith, get-entry_dict t entry first k, get-entry_dict t' entry second k)
