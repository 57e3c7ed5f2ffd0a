-- ===== src/System/Info.antt =====
-- `get_system_id` and `get_system_info`
pub mod Identity
use aiotruenas.Base.{
  String, Bool, true, false, Option, none, some, ◌==◌, string_eq, if◌then◌else◌, Result, ok, raise,
  ◌>>=◌,
}
use Prim.Native.String.{◌++◌ as ◌<>◌}
use aiotruenas.Value.{Value, null, str, arr, obj, Fields, end, field}
use aiotruenas.Value.Text
use aiotruenas.Errors.Exceptions.{ClientError, plain, malformed_response}
use aiotruenas.Errors.Classify.{member_of}
use aiotruenas.Helpers.System.{is_virtual_machine}
use aiotruenas.Rpc.{Reply, Failure, error, result_of}
use aiotruenas.System.Models.{SystemInfo}
use aiotruenas.System.Fields.{
  Floats, optional_str, non_negative, finite_float, optional_count, parse_boot_time, parse_loadavg,
}

-- `_malformed`
unfoldable pub malformed : String → String → ClientError
malformed method detail =
    plain malformed_response ("Malformed '" <> method <> "' response: " <> detail)

-- `manufacturer and manufacturer.strip()`
stripped : Option String → Value
unfolding Text.strip
stripped none = null
stripped (some s) = str (Text.strip s)

unfoldable pub virtual_of : Option String → Option String → Option Bool
unfolding stripped is_virtual_machine
virtual_of none none = none
virtual_of manufacturer product =
    some (is_virtual_machine (stripped manufacturer) (stripped product))

-- `_parse_system_info`
unfoldable pub parse_system_info : Floats → Fields → SystemInfo
unfolding optional_str virtual_of optional_count parse_boot_time parse_loadavg non_negative
    finite_float member_of
parse_system_info F raw =
    let manufacturer = optional_str (member_of (obj raw) "system_manufacturer") in
    let product = optional_str (member_of (obj raw) "system_product") in
    let loads = parse_loadavg F (member_of (obj raw) "loadavg") in
    record {
      hostname = optional_str (member_of (obj raw) "hostname");
      version = optional_str (member_of (obj raw) "version");
      manufacturer = manufacturer;
      product = product;
      serial = optional_str (member_of (obj raw) "system_serial");
      physical_memory = optional_count F (member_of (obj raw) "physmem");
      boot_time = parse_boot_time F (member_of (obj raw) "boottime");
      uptime_seconds = non_negative (finite_float F (member_of (obj raw) "uptime_seconds"));
      load_1m = loads.0;
      load_5m = loads.1;
      load_15m = loads.2;
      is_virtual = virtual_of manufacturer product;
    }

-- `repr` is Python's.
module _ (repr : Value → String) where
  id_of : Value → Result Failure String
  unfolding malformed Text.strip string_eq
  id_of (str s) =
      if Text.strip s == ""
      then raise
          (error (malformed "system.global.id" ("expected a non-empty string: " <> repr (str s))))
      else ok (Text.strip s)
  id_of v = raise (error (malformed "system.global.id" ("expected a non-empty string: " <> repr v)))

  -- `get_system_id` on the reply
  unfoldable pub get_system_id : Reply → Result Failure String
  unfolding id_of
  get_system_id reply = result_of reply >>= id_of

  info_of : Floats → Value → Result Failure SystemInfo
  unfolding malformed parse_system_info
  info_of F (obj (field k v raw)) = ok (parse_system_info F (field k v raw))
  info_of F v = raise (error (malformed "system.info" ("expected a non-empty object: " <> repr v)))

  -- `get_system_info` on the reply
  unfoldable pub get_system_info : Floats → Reply → Result Failure SystemInfo
  unfolding info_of
  get_system_info F reply = result_of reply >>= info_of F
