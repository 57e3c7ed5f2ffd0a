-- ===== src/Normalize/Read.antt =====
-- Reading one field of an API entry: `_resolve_source`, `from_entry`, `_coerce_bool`,
-- `from_entry_bool`, the defaults of a spec, and the two conversions.
pub mod Laws
use aiotruenas.Base.{
  ℕ, zero, suc, String, Bool, true, false, not, ◌||◌, Option, none, some, List, [], ◌∷◌, ltb, ◌==◌,
  string_eq, if◌then◌else◌,
}
use aiotruenas.Base.Int.{ℤ, pos, negsuc}
use aiotruenas.Value.{
  Key, text, Value, null, bool, int, float, str, datetime, obj, Fields, truthy, get,
}
use aiotruenas.Value.Text
use aiotruenas.Value.Text.{codes}
use aiotruenas.Normalize.Spec.{Runtime, ApiValueSpec, spec_get, is_bool, or_default}

-- `d[param]` if `d` is a dict that has it. `none` is the sentinel `_MISSING`.
unfoldable pub child : Value → String → Option Value
unfolding get
child (obj fs) param = get (text param) fs
child _ param = none

-- The loop over the pieces of a nested path.
unfoldable pub descend : Value → List String → Option Value
unfolding child
descend current [] = some current
descend current (p ∷ path) = elim (child current p) [ none ↦ none | some next ↦ descend next path ]

unfoldable pub resolve_source : Value → String → Option Value
unfolding child descend Text.has_char Text.split
resolve_source entry param =
    if not (Text.has_char b'/' param)
    then child entry param
    else (let (p, path) = Text.split b'/' param in descend entry (p ∷ path))

cut : Option ℕ → Value → Value
unfolding Text.length Text.take
cut (some n) (str s) = if ltb n (Text.length s) then str (Text.take n s) else str s
cut _ v = v

abbrev pub max_len : ℕ
max_len = 255

module _ (R : Runtime) where
  abbrev round_to : Option ℕ → Value → Value
  round_to (some digits) (float x) = float (R.round x digits)
  round_to _ v = v

  unfoldable pub from_entry : Value → String → Value → Option ℕ → Option ℕ → Value
  unfolding cut
  from_entry entry param default limit round_digits = elim (resolve_source entry param) [
    | none ↦ default
    | some ret ↦ cut limit (round_to round_digits ret)
  ]

member : List ℕ → List String → Bool
unfolding Text.same_codes
member s [] = false
member s (t ∷ ts) = Text.same_codes s (codes t) || member s ts

-- `_BOOL_TRUE_VALUES` and `_BOOL_FALSE_VALUES`
abbrev pub bool_true_values : List String
bool_true_values = "on" ∷ "yes" ∷ "up" ∷ "true" ∷ "1" ∷ []

abbrev pub bool_false_values : List String
bool_false_values = "off" ∷ "no" ∷ "down" ∷ "false" ∷ "0" ∷ []

abbrev own_bool : Value → Value → Value
own_bool (bool b) default = bool b
own_bool v default = default

unfoldable pub coerce_bool : Value → Value → Value
unfolding Text.strip_lower member
coerce_bool (str s) default =
    let normalized = Text.strip_lower s in
    if member normalized bool_true_values
    then bool true
    else if member normalized bool_false_values
    then bool false
    else default
coerce_bool v default = own_bool v default

unfoldable pub from_entry_bool : Value → String → Value → Bool → Value
from_entry_bool entry param default reverse = elim (resolve_source entry param) [
  | none ↦ default
  | some ret ↦
      let coerced = coerce_bool ret default in
      if reverse then bool (not (truthy coerced)) else coerced
]

-- `_str_default`: the value of the spec's own key that "default_val" names, or its default.
unfoldable pub str_default : ApiValueSpec → Value
unfolding spec_get
str_default val =
    let plain = or_default val.default (str "") in
    elim val.default_val [
      | none ↦ plain
      | some other ↦ elim (spec_get val other) [ none ↦ plain | some v ↦ v ]
    ]

-- `_bool_default`: the default, negated for a reversed spec.
unfoldable pub bool_default : ApiValueSpec → Value
unfolding truthy
bool_default val =
    let default = or_default val.default (bool false) in
    if or_default val.reverse false then bool (not (truthy default)) else default

unfoldable pub spec_default : ApiValueSpec → Value
unfolding is_bool str_default bool_default
spec_default val = if is_bool val then bool_default val else str_default val

-- `MILLIS_TIMESTAMP_THRESHOLD`
abbrev pub millis_timestamp_threshold : ℕ
millis_timestamp_threshold = 100_000_000_000

abbrev or_null : Option ℤ → Value
or_null none = null
or_null (some t) = datetime t

module _ (R : Runtime) where
  -- `utc_from_timestamp(n)` of a positive int, read as milliseconds above the threshold.
  unfoldable pub utc_from_timestamp : ℕ → Option ℤ
  utc_from_timestamp n =
      if ltb millis_timestamp_threshold n
      then elim (R.div_1000 n) [ none ↦ none | some x ↦ R.from_float_seconds x ]
      else R.from_seconds n

  -- The value that `_convert_timestamp` stores for the one that it finds.
  unfoldable pub convert_timestamp : Option Value → Value
  unfolding utc_from_timestamp
  convert_timestamp (some (int (pos (suc n)))) = or_null (utc_from_timestamp (suc n))
  convert_timestamp _ = null

  unfoldable pub human_date_to_utc : Value → Option ℤ
  human_date_to_utc (str s) = R.strptime s
  human_date_to_utc _ = none

  -- The value that `_convert_human_date` stores for `target.get(name)`.
  unfoldable pub convert_human_date : Option Value → Value
  unfolding human_date_to_utc
  convert_human_date found = or_null (human_date_to_utc (or_default found null))
