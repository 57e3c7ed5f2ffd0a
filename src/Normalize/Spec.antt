-- ===== src/Normalize/Spec.antt =====
-- The tables that drive the engine, and the run-time operations that it takes from outside.
use aiotruenas.Base.{ℕ, String, Bool, Option, none, some, ◌==◌, string_eq, if◌then◌else◌}
use aiotruenas.Base.Int.{ℤ}
use aiotruenas.Value.{Float, Value, str, bool}

-- What the platform does with floats, dates and text forms. `none` stands for the exceptions that
-- the callers catch: OverflowError, OSError and ValueError.
pub record Runtime : Type 0 where
  -- `round(x, digits)`
  pub round : Float → ℕ → Float
  -- `n / 1000`
  pub div_1000 : ℕ → Option Float
  -- `datetime.fromtimestamp(t, tz=UTC)` of an int and of a float
  pub from_seconds : ℕ → Option ℤ
  pub from_float_seconds : Float → Option ℤ
  -- `datetime.strptime(s, "%a %b %d %H:%M:%S %Y")`, taken as UTC
  pub strptime : String → Option ℤ
  -- `str(value)`, as an f-string inserts it
  pub format : Value → String

-- `ApiValueSpec`: a dict with these keys, all but "name" optional.
pub record ApiValueSpec : Type 0 where
  pub name : String
  pub type : Option String
  pub source : Option String
  pub default : Option Value
  pub default_val : Option String
  pub reverse : Option Bool
  pub convert : Option String

-- One dict of a `val_proc` list.
pub record ProcStep : Type 0 where
  pub name : Option String
  pub action : Option String
  pub key : Option String
  pub text : Option String

-- One dict of an `only` or `skip` list: the field ("key" or "name") and the value.
pub record Filter : Type 0 where
  pub field_name : String
  pub value : Value

abbrev map_str : Option String → Option Value
map_str none = none
map_str (some s) = some (str s)

abbrev map_bool : Option Bool → Option Value
map_bool none = none
map_bool (some b) = some (bool b)

-- `val[key]`, for a key of the spec's own dict.
unfoldable pub spec_get : ApiValueSpec → String → Option Value
unfolding string_eq
spec_get val key =
    if key == "name"
    then some (str val.name)
    else if key == "type"
    then map_str val.type
    else if key == "source"
    then map_str val.source
    else if key == "default"
    then val.default
    else if key == "default_val"
    then map_str val.default_val
    else if key == "reverse"
    then map_bool val.reverse
    else if key == "convert"
    then map_str val.convert
    else none

-- `x.get(field, d)` of an optional field
abbrev pub or_default {ℓ} : {A : Type ℓ} → Option A → A → A
or_default none d = d
or_default (some a) d = a

-- `val.get("type", "str") == "bool"`
unfoldable pub is_bool : ApiValueSpec → Bool
unfolding string_eq
is_bool val = or_default val.type "str" == "bool"

-- `val.get("source", name)`
abbrev pub source_of : ApiValueSpec → String
source_of val = or_default val.source val.name
