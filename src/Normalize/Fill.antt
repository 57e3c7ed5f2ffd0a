-- ===== src/Normalize/Fill.antt =====
-- Writing an entry's values into the target dict: `fill_defaults`, `_set_val`, `_resolve_target`,
-- `fill_vals`, `fill_ensure_vals`, and the "combine" processors of `fill_vals_proc`.
pub mod Laws
pub mod Reversal
use aiotruenas.Base.{
  String, Bool, true, false, not, ◌&&◌, Option, none, some, List, [], ◌∷◌, Result, ok, raise, ◌>>=◌,
  ◌==◌, string_eq, if◌then◌else◌,
}
use Prim.Native.String.{◌++◌ as ◌<>◌}
use aiotruenas.Value.{Key, text, Value, null, str, obj, Fields, end, truthy, get}
use aiotruenas.Value.Dict.{put, has}
use aiotruenas.Normalize.Spec.{Runtime, ApiValueSpec, ProcStep, is_bool, source_of, or_default}
use aiotruenas.Normalize.Read.{
  from_entry, from_entry_bool, str_default, bool_default, spec_default, convert_timestamp,
  convert_human_date, max_len,
}

-- The loop of `fill_defaults`, and that of `fill_ensure_vals` on its target.
unfoldable pub fill_defaults : Fields → List ApiValueSpec → Fields
unfolding has put spec_default
fill_defaults d [] = d
fill_defaults d (val ∷ vals) =
    fill_defaults (if has (text val.name) d then d else put (text val.name) (spec_default val) d)
      vals

-- `data[uid]` if it is a dict, a new dict if not; `data` itself without a uid.
unfoldable pub resolve_target : Fields → Option Key → Fields
unfolding get
resolve_target d none = d
resolve_target d (some uid) = elim (get uid d) [ some (obj t) ↦ t | _ ↦ end ]

-- The target is a part of `data`: what is written to it is written there.
unfoldable pub write_back : Fields → Option Key → Fields → Fields
unfolding put
write_back d none target = target
write_back d (some uid) target = put uid (obj target) d

unfoldable pub fill_ensure_vals : Fields → Option Key → List ApiValueSpec → Fields
unfolding fill_defaults resolve_target write_back
fill_ensure_vals d uid vals = write_back d uid (fill_defaults (resolve_target d uid) vals)

module _ (R : Runtime) where
  -- The value that a spec reads from an entry, before its conversion.
  unfoldable pub read_val : Value → ApiValueSpec → Value
  unfolding is_bool from_entry from_entry_bool str_default bool_default
  read_val entry val =
      if is_bool val
      then from_entry_bool entry (source_of val) (bool_default val) (or_default val.reverse false)
      else from_entry R entry (source_of val) (str_default val) (some max_len) none

  convert : ApiValueSpec → Fields → Fields
  unfolding convert_timestamp convert_human_date get put string_eq
  convert val target =
      let kind = or_default val.convert "" in
      if kind == "utc_from_timestamp"
      then put (text val.name) (convert_timestamp R (get (text val.name) target)) target
      else if kind == "human_date_to_utc"
      then put (text val.name) (convert_human_date R (get (text val.name) target)) target
      else target

  unfoldable pub set_val : Fields → Value → ApiValueSpec → Fields
  unfolding read_val convert put
  set_val target entry val = convert val (put (text val.name) (read_val entry val) target)

  unfoldable pub set_vals : Fields → Value → List ApiValueSpec → Fields
  unfolding set_val
  set_vals target entry [] = target
  set_vals target entry (val ∷ vals) = set_vals (set_val target entry val) entry vals

  unfoldable pub fill_vals : Fields → Value → Option Key → List ApiValueSpec → Fields
  unfolding set_vals resolve_target write_back
  fill_vals d entry uid vals = write_back d uid (set_vals (resolve_target d uid) entry vals)

-- A ValueError of `_validate_action`: the unsupported action and the name it was meant for.
pub record UnsupportedAction : Type 0 where
  pub action : String
  pub name : Option String

unfoldable pub validate_action : String → Option String → Result UnsupportedAction String
unfolding string_eq
validate_action action name =
    if action == "combine" then ok action else raise (record { action = action; name = name })

module _ (R : Runtime) where
  append_text : Value → Value → Value
  unfolding truthy
  append_text value tmp = if truthy value then str (R.format value <> R.format tmp) else tmp

  append_key : Fields → Option String → Value → Value
  unfolding get truthy
  append_key source none value = value
  append_key source (some key) value =
      append_text value (or_default (get (text key) source) (str "unknown"))

  append_literal : Option String → Value → Value
  unfolding truthy
  append_literal none value = value
  append_literal (some s) value = append_text value (str s)

  unfoldable pub combine_value : Fields → ProcStep → Value → Value
  unfolding append_literal append_key append_text
  combine_value source val value = append_literal val.text (append_key source val.key value)

  -- One step of the loop of `_process_val_sub` that neither names nor acts: `none` is the `break`.
  combine_step : Fields → ProcStep → Option String → Option String → Value → Option Value
  unfolding combine_value string_eq
  combine_step source val (some name) (some action) value =
      some (if action == "combine" then combine_value source val value else value)
  combine_step source val _ _ value = none

  -- The loop, with its variables `name`, `action` and `value`.
  unfoldable pub process_val_sub :
      Fields
      → List ProcStep
      → Option String
      → Option String
      → Value
      → Result UnsupportedAction (Option String × Value)
  unfolding validate_action combine_step
  process_val_sub source [] name action value = ok (name, value)
  process_val_sub source (val ∷ vals) name action value = elim val.name [
    | some n ↦ process_val_sub source vals (some n) action value
    | none ↦ elim val.action [
      | some a ↦
          validate_action a name >>= λ valid. process_val_sub source vals name (some valid) value
      | none ↦ elim (combine_step source val name action value) [
        | none ↦ ok (name, value)
        | some v ↦ process_val_sub source vals name action v
      ]
    ]
  ]

  store_combined : Fields → Option String → Value → Fields
  unfolding put string_eq
  store_combined target (some name) null = target
  store_combined target (some name) value =
      if name == "" then target else put (text name) value target
  store_combined target none value = target

  -- The loop of `fill_vals_proc` on its target.
  unfoldable pub combine_all : Fields → List (List ProcStep) → Result UnsupportedAction Fields
  unfolding process_val_sub store_combined
  combine_all target [] = ok target
  combine_all target (val_sub ∷ rest) = process_val_sub target val_sub none none null >>= λ r.
      combine_all (store_combined target r.0 r.1) rest

  unfoldable pub fill_vals_proc :
      Fields → Option Key → List (List ProcStep) → Result UnsupportedAction Fields
  unfolding combine_all resolve_target write_back
  fill_vals_proc d uid procs =
      combine_all (resolve_target d uid) procs >>= λ target. ok (write_back d uid target)
