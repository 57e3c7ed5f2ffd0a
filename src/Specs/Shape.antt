-- ===== src/Specs/Shape.antt =====
-- The forms that a spec of a table has.
use aiotruenas.Base.{String, Option, none, some}
use aiotruenas.Value.{Value}
use aiotruenas.Normalize.Spec.{ApiValueSpec}

abbrev spec : Option String → String → Option String → Option String → Value → ApiValueSpec
spec type name source convert default = record {
  name = name;
  type = type;
  source = source;
  default = some default;
  default_val = none;
  reverse = none;
  convert = convert;
}

-- A spec with a name and a default, and one that also has a source.
abbrev pub plain : String → Value → ApiValueSpec
plain name default = spec none name none none default

abbrev pub plain_from : String → String → Value → ApiValueSpec
plain_from name source default = spec none name (some source) none default

-- The same of type "bool".
abbrev pub flag : String → Value → ApiValueSpec
flag name default = spec (some "bool") name none none default

abbrev pub flag_from : String → String → Value → ApiValueSpec
flag_from name source default = spec (some "bool") name (some source) none default

-- The same with a conversion.
abbrev pub converted : String → String → String → Value → ApiValueSpec
converted convert name source default = spec none name (some source) (some convert) default

abbrev pub converted_field : String → String → Value → ApiValueSpec
converted_field convert name default = spec none name none (some convert) default
