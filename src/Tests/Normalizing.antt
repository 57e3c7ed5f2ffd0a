-- ===== src/Tests/Normalizing.antt =====
-- The engine on a table of disks.
use aiotruenas.Normalize.Uid.{should_skip_entry, get_uid, generate_keymap}
use aiotruenas.Normalize.Read.Laws.{IsMalformed, IsCoerced}
use aiotruenas.Normalize.Spec.{ApiValueSpec, is_bool}
use aiotruenas.Normalize.Fill.Reversal.{Reads, read_val-reversed}
use aiotruenas.Base.{Bool, ◌⊎◌, not, none, some, ◌≡◌, refl, ok, true, false}
use aiotruenas.Base.Int.{pos}
use aiotruenas.Base.Assoc.{lookup}
use aiotruenas.Value.{text, Key, Value, bool, arr, nil, cons, end, field, get, key_eq}
use aiotruenas.Value.Dict.{has}
use aiotruenas.Normalize.Read.{resolve_source}
use aiotruenas.Normalize.Fill.{fill_defaults, set_vals, fill_ensure_vals, fill_vals, combine_all}
use aiotruenas.Normalize.Fill.Laws.{first_of_two, default_of, value_of}
use aiotruenas.Normalize.Uid.Laws.{generate_keymap-Holds, Holds}
use aiotruenas.Normalize.Parse.{
  parse_api, apply_target, is_keyed, apply_entry, apply_source, drop_stale, finish, parse_entries,
  prune_stale_uids, resolve_entry_uid,
}
use aiotruenas.Normalize.Parse.Entry.{entry_dict}
use aiotruenas.Normalize.Parse.Schema.{get-entry_dict, entry_dict_idem}
use aiotruenas.Normalize.Parse.Pruning.{get-parse_api, new_entry}
use aiotruenas.Tests.Data.{platform, disks, sda, sda_entry, sda_fields, stale}

first_disk :
    parse_api platform disks stale (arr (cons sda nil)) ≡ ok (field (text "sda") sda_entry end)
unfolding parse_api parse_entries apply_source should_skip_entry apply_target resolve_entry_uid
    is_keyed get_uid apply_entry finish prune_stale_uids drop_stale fill_ensure_vals fill_vals
    resolve_source
first_disk = refl

disks_are_keyed : is_keyed disks ≡ true
unfolding is_keyed
disks_are_keyed = refl

-- The entry of `sdb` is stale.
get-parse_api_example :
    new_entry platform disks stale (cons sda nil) (text "sdb")
    ≡ ok (get (text "sdb") (field (text "sda") sda_entry end))
get-parse_api_example =
    get-parse_api platform disks disks_are_keyed stale (text "sdb") sda nil first_disk

first_entry : entry_dict platform disks end sda ≡ ok sda_fields
unfolding entry_dict combine_all fill_defaults set_vals resolve_source
first_entry = refl

second_entry : entry_dict platform disks sda_fields sda ≡ ok sda_fields
unfolding entry_dict combine_all fill_defaults set_vals resolve_source
second_entry = refl

get-entry_dict_example :
    get (text "size") sda_fields
    ≡ first_of_two
        (value_of platform (text "size") sda disks.vals)
        (first_of_two (get (text "size") end) (default_of (text "size") disks.ensure_vals))
get-entry_dict_example = get-entry_dict platform disks refl end sda first_entry (text "size")

entry_dict_idem_example : get (text "size") sda_fields ≡ get (text "size") sda_fields
entry_dict_idem_example =
    entry_dict_idem platform disks refl end sda first_entry second_entry (text "size")

generate_keymap-Holds_example :
    Holds "size" (field (text "sda") sda_entry end) (Key.num (pos 8)) (text "sda")
unfolding generate_keymap has lookup
generate_keymap-Holds_example =
    generate_keymap-Holds "size" (field (text "sda") sda_entry end) (Key.num (pos 8)) (text "sda")
      (refl, tt) refl

-- A field of a boolean type that holds the text "sda".
abbrev flag : ApiValueSpec
flag = record {
  name = "name";
  type = some "bool";
  source = none;
  default = some (bool true);
  default_val = none;
  reverse = none;
  convert = none;
}

read_val-reversed_example :
    ((resolve_source sda "name" ≡ none) × Reads platform sda flag true true false)
    ⊎ (v : Value) × (resolve_source sda "name" ≡ some v)
      × (((b : Bool) × IsCoerced v b × Reads platform sda flag true b (not b))
          ⊎ (IsMalformed v × Reads platform sda flag true true true))
unfolding is_bool
read_val-reversed_example = read_val-reversed platform sda flag true refl refl
