-- ===== src/Specs/System.antt =====
-- The tables of domain/_specs.py for certificates, directory services, interfaces and the system.
use aiotruenas.Base.{false, List, [], ◌∷◌}
use aiotruenas.Base.Int.{pos}
use aiotruenas.Value.{null, bool, int, float, finite, str}
use aiotruenas.Normalize.Spec.{ApiValueSpec}
use aiotruenas.Specs.Shape.{plain, plain_from, flag, flag_from, converted_field}

-- `_CERTIFICATE_VALS`
abbrev pub certificate_vals : List ApiValueSpec
certificate_vals =
    plain "id" (int (pos 0))
    ∷ plain "name" (str "unknown")
    ∷ plain "cert_type" (str "unknown")
    ∷ plain "common" (str "")
    ∷ converted_field "human_date_to_utc" "until" null
    ∷ flag "expired" (bool false)
    ∷ plain "renew_days" (int (pos 0))
    ∷ []

-- `_DIRECTORYSERVICES_VALS`
abbrev pub directoryservices_vals : List ApiValueSpec
directoryservices_vals =
    plain "id" (int (pos 1))
    ∷ plain_from "type" "service_type" (str "unknown")
    ∷ flag "enable" (bool false)
    ∷ flag_from "account_cache" "enable_account_cache" (bool false)
    ∷ flag_from "dns_updates" "enable_dns_updates" (bool false)
    ∷ plain "kerberos_realm" (str "unknown")
    ∷ plain_from "domain" "configuration/domain" (str "unknown")
    ∷ plain_from "site" "configuration/site" (str "unknown")
    ∷ plain "status" (str "unknown")
    ∷ plain "status_msg" null
    ∷ []

-- `_DIRECTORYSERVICES_ENSURE_VALS`
abbrev pub directoryservices_ensure_vals : List ApiValueSpec
directoryservices_ensure_vals = flag "healthy" (bool false) ∷ []

-- `_INTERFACE_VALS`
abbrev pub interface_vals : List ApiValueSpec
interface_vals =
    plain "id" (str "unknown")
    ∷ plain "name" (str "unknown")
    ∷ plain "description" (str "unknown")
    ∷ plain "mtu" (str "unknown")
    ∷ plain_from "link_state" "state/link_state" (str "unknown")
    ∷ plain_from "active_media_type" "state/active_media_type" (str "unknown")
    ∷ plain_from "active_media_subtype" "state/active_media_subtype" (str "unknown")
    ∷ plain_from "link_address" "state/link_address" (str "unknown")
    ∷ []

-- `_INTERFACE_ENSURE_VALS`
abbrev pub interface_ensure_vals : List ApiValueSpec
interface_ensure_vals = plain "rx" (int (pos 0)) ∷ plain "tx" (int (pos 0)) ∷ []

-- `_SYSTEMINFO_VALS`
abbrev pub systeminfo_vals : List ApiValueSpec
systeminfo_vals =
    plain "version" (str "unknown")
    ∷ plain "hostname" (str "unknown")
    ∷ plain "uptime_seconds" (int (pos 0))
    ∷ plain "system_serial" (str "unknown")
    ∷ plain "system_product" (str "unknown")
    ∷ plain "system_manufacturer" (str "unknown")
    ∷ plain "physmem" (int (pos 0))
    ∷ []

-- `_SYSTEMINFO_ENSURE_VALS`
abbrev pub systeminfo_ensure_vals : List ApiValueSpec
systeminfo_ensure_vals =
    plain "uptimeEpoch" (int (pos 0))
    ∷ plain "cpu_temperature" null
    ∷ plain "cpu_usage" (float (finite (pos 0) 0))
    ∷ plain "load_shortterm" (float (finite (pos 0) 0))
    ∷ plain "load_midterm" (float (finite (pos 0) 0))
    ∷ plain "load_longterm" (float (finite (pos 0) 0))
    ∷ plain "cache_size-arc_value" (float (finite (pos 0) 0))
    ∷ plain "memory-free_value" (float (finite (pos 0) 0))
    ∷ plain "memory-total_value" (float (finite (pos 0) 0))
    ∷ plain "memory-usage_percent" (int (pos 0))
    ∷ []
