-- ===== src/Tests/Data.antt =====
-- A table of the engine, responses for it, and a platform whose times are whole numbers.
use aiotruenas.Base.{◌*◌, true, Option, none, some, [], ◌∷◌}
use aiotruenas.Base.Int.{ℤ, pos}
use aiotruenas.Value.{text, Value, int, str, obj, Fields, end, field, Float, finite}
use aiotruenas.Normalize.Spec.{Runtime, ApiValueSpec}
use aiotruenas.Normalize.Parse.{Mapping}

-- A float of whole milliseconds stands for the seconds that it is a thousandth of.
abbrev micros : Float → Option ℤ
micros (finite (pos n) k) = some (pos (n * 1000))
micros x = none

abbrev pub platform : Runtime
platform = record {
  round = λ x digits. x;
  div_1000 = λ n. some (finite (pos n) 0);
  from_seconds = λ n. some (pos (n * 1000 * 1000));
  from_float_seconds = micros;
  strptime = λ s. none;
  format = λ v. "value";
}

abbrev pub name_spec : ApiValueSpec
name_spec = record {
  name = "name";
  type = none;
  source = none;
  default = some (str "unknown");
  default_val = none;
  reverse = none;
  convert = none;
}

abbrev pub size_spec : ApiValueSpec
size_spec = record {
  name = "size";
  type = none;
  source = some "device/size";
  default = some (int (pos 0));
  default_val = none;
  reverse = none;
  convert = none;
}

abbrev pub model_spec : ApiValueSpec
model_spec = record {
  name = "model";
  type = none;
  source = none;
  default = none;
  default_val = none;
  reverse = none;
  convert = none;
}

abbrev pub disks : Mapping
disks = record {
  key = some "name";
  key_secondary = none;
  key_search = none;
  vals = name_spec ∷ size_spec ∷ [];
  val_proc = [];
  ensure_vals = model_spec ∷ [];
  only = [];
  skip = [];
  prune = true;
}

abbrev pub sda : Value
sda = obj (
    field (text "name") (str "sda")
      (field (text "device") (obj (field (text "size") (int (pos 8)) end)) end))

abbrev pub sda_fields : Fields
sda_fields =
    field (text "name") (str "sda")
      (field (text "size") (int (pos 8)) (field (text "model") (str "") end))

abbrev pub sda_entry : Value
sda_entry = obj sda_fields

abbrev pub stale : Fields
stale = field (text "sdb") (obj (field (text "name") (str "sdb") end)) end
