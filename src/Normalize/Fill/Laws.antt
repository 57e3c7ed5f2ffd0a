-- ===== src/Normalize/Fill/Laws.antt =====
-- The fields of a target dict after the specs of an entry: each is what its last spec reads.
use aiotruenas.Base.{
  ◌≡◌, refl, Option, none, some, List, [], ◌∷◌, arith, ◌==◌, string_eq, if◌then◌else◌,
}
use aiotruenas.Value.{Key, text, Value, Fields, key_eq, get}
use aiotruenas.Value.Dict.{put, has, get-put}
use aiotruenas.Normalize.Spec.{Runtime, ApiValueSpec, or_default}
use aiotruenas.Normalize.Read.{spec_default, convert_timestamp, convert_human_date}
use aiotruenas.Normalize.Fill.{fill_defaults, read_val, convert, set_val, set_vals}

-- The value of a key: what is known of it, or else another value.
abbrev pub first_of_two : Option Value → Option Value → Option Value
first_of_two none w = w
first_of_two (some v) w = some v

-- The default of the first spec with the key as its name.
unfoldable pub default_of : Key → List ApiValueSpec → Option Value
default_of k [] = none
default_of k (val ∷ vals) =
    if k == text val.name then some (spec_default val) else default_of k vals

-- `fill_defaults` keeps each value that is there, and gives a missing field the default of its
-- first spec.
pub get-fill_defaults :
    (k : Key) (d : Fields) (vals : List ApiValueSpec)
    → get k (fill_defaults d vals) ≡ first_of_two (get k d) (default_of k vals)
unfolding fill_defaults default_of has
get-fill_defaults k d [] = ground arith
get-fill_defaults k d (val ∷ vals) = ground (
  arith,
  get-fill_defaults k d vals,
  get-fill_defaults k (put (text val.name) (spec_default val) d) vals,
  get-put k (text val.name) (spec_default val) d,
)

module _ (R : Runtime) where
  -- What a spec stores of an entry, its conversion included.
  unfoldable pub stored : Value → ApiValueSpec → Value
  stored entry val =
      let kind = or_default val.convert "" in
      if kind == "utc_from_timestamp"
      then convert_timestamp R (some (read_val R entry val))
      else if kind == "human_date_to_utc"
      then convert_human_date R (some (read_val R entry val))
      else read_val R entry val

  pub get-set_val :
      (k : Key) (target : Fields) (entry : Value) (val : ApiValueSpec)
      → get k (set_val R target entry val)
        ≡ (if k == text val.name then some (stored entry val) else get k target)
  unfolding set_val convert stored
  get-set_val k target entry val = ground (
    arith,
    get-put k (text val.name) (read_val R entry val) target,
    get-put (text val.name) (text val.name) (read_val R entry val) target,
    get-put k (text val.name)
        (convert_timestamp R
          (get (text val.name) (put (text val.name) (read_val R entry val) target)))
        (put (text val.name) (read_val R entry val) target),
    get-put k (text val.name)
        (convert_human_date R
          (get (text val.name) (put (text val.name) (read_val R entry val) target)))
        (put (text val.name) (read_val R entry val) target),
  )

  -- What the last spec with the key as its name stores.
  unfoldable pub value_of : Key → Value → List ApiValueSpec → Option Value
  value_of k entry [] = none
  value_of k entry (val ∷ vals) =
      first_of_two (value_of k entry vals)
        (if k == text val.name then some (stored entry val) else none)

  -- After the specs of an entry, a field has the value of its last spec, whatever was there before;
  -- a field without a spec is as before.
  pub get-set_vals :
      (k : Key) (target : Fields) (entry : Value) (vals : List ApiValueSpec)
      → get k (set_vals R target entry vals) ≡ first_of_two (value_of k entry vals) (get k target)
  unfolding set_vals value_of
  get-set_vals k target entry [] = refl
  get-set_vals k target entry (val ∷ vals) = ground (
    arith,
    get-set_vals k (set_val R target entry val) entry vals,
    get-set_val k target entry val,
  )
