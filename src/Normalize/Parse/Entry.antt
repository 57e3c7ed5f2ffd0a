-- ===== src/Normalize/Parse/Entry.antt =====
-- What one entry of the source does to the data: it updates the dict of its own uid.
use aiotruenas.Base.{◌≡◌, refl, some, List, [], ◌∷◌, Result, ok, raise, ◌>>=◌, ap, arith}
use aiotruenas.Value.{Key, Value, obj, Fields, key_eq}
use aiotruenas.Value.Dict.{get-put, put-put}
use aiotruenas.Normalize.Spec.{Runtime, ApiValueSpec, ProcStep}
use aiotruenas.Normalize.Fill.{
  UnsupportedAction, fill_defaults, fill_vals, fill_ensure_vals, fill_vals_proc, resolve_target,
  write_back, set_vals, combine_all,
}
use aiotruenas.Normalize.Parse.{Mapping, entry_of, optional, run_procs, apply_entry, apply_target}

resolve-write_back :
    (d t : Fields) (uid : Key) → resolve_target (write_back d (some uid) t) (some uid) ≡ t
unfolding resolve_target write_back
resolve-write_back d t uid = ground (arith, get-put uid uid (obj t) d)

write_back-write_back :
    (d t u : Fields) (uid : Key)
    → write_back (write_back d (some uid) t) (some uid) u ≡ write_back d (some uid) u
unfolding write_back
write_back-write_back d t u uid = put-put uid (obj t) (obj u) d

module _ (R : Runtime) (m : Mapping) where
  -- What the specs make of one target dict, apart from the data that holds it.
  unfoldable pub entry_dict : Fields → Value → Result UnsupportedAction Fields
  entry_dict t entry =
      combine_all R (fill_defaults (set_vals R t entry m.vals) m.ensure_vals) m.val_proc

  module _ (d : Fields) (uid : Key) where
    abbrev at : Fields → Fields
    at t = write_back d (some uid) t

    vals_at :
        (t : Fields) (entry : Value) (vals : List ApiValueSpec)
        → optional (λ e vs. fill_vals R e entry (some uid) vs) vals (at t)
          ≡ at (set_vals R t entry vals)
    unfolding optional fill_vals set_vals
    vals_at t entry [] = refl
    vals_at t entry (v ∷ vs) = rw resolve-write_back (write_back-write_back d t _ uid)

    ensured_at :
        (t : Fields) (vals : List ApiValueSpec)
        → optional (λ e vs. fill_ensure_vals e (some uid) vs) vals (at t)
          ≡ at (fill_defaults t vals)
    unfolding optional fill_ensure_vals fill_defaults
    ensured_at t [] = refl
    ensured_at t (v ∷ vs) = rw resolve-write_back (write_back-write_back d t _ uid)

    rewrite_at :
        (t : Fields) (r : Result UnsupportedAction Fields)
        → (r >>= λ u. ok (write_back (at t) (some uid) u)) ≡ (r >>= λ u. ok (at u))
    rewrite_at t (ok u) = ap ok (write_back-write_back d t u uid)
    rewrite_at t (raise e) = refl

    fill_vals_proc-at :
        (t : Fields) (procs : List (List ProcStep))
        → fill_vals_proc R (at t) (some uid) procs ≡ (combine_all R t procs >>= λ u. ok (at u))
    fill_vals_proc-at t procs =
        unfold fill_vals_proc in rw resolve-write_back (rewrite_at t (combine_all R t procs))

    procs_at :
        (t : Fields) (procs : List (List ProcStep))
        → run_procs R m (at t) (some uid) procs ≡ (combine_all R t procs >>= λ u. ok (at u))
    unfolding run_procs
    procs_at t [] = unfold combine_all in refl
    procs_at t (p ∷ ps) = fill_vals_proc-at t (p ∷ ps)

    -- An entry updates the dict of its uid by its specs, and nothing else of the data.
    pub apply_target_lem :
        (entry : Value)
        → apply_target R m d entry (entry_of uid)
          ≡ (entry_dict (resolve_target d (some uid)) entry >>= λ t. ok (write_back d (some uid) t))
    unfolding apply_target apply_entry entry_dict
    apply_target_lem entry =
        rw (vals_at (resolve_target d (some uid)) entry m.vals)
          (rw ensured_at (procs_at _ m.val_proc))
