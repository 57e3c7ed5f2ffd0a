-- ===== src/State/Initial.antt =====
-- The cache of a new `TrueNASState`.
use aiotruenas.Base.{String, false, none, List, [], ◌∷◌}
use aiotruenas.Base.Int.{pos}
use aiotruenas.Base.Assoc.{Dict}
use aiotruenas.Value.{text, Value, null, int, float, str, Fields, end, field, finite}
use aiotruenas.State.Cache.{Platform, Cache}
use aiotruenas.State.Alerts.{aggregate_alerts}
use aiotruenas.State.Update.{no_update_pending}

abbrev fields_of : List (String × Value) → Fields
fields_of [] = end
fields_of ((name, value) ∷ rest) = field (text name) value (fields_of rest)

abbrev zero_float : Value
zero_float = float (finite (pos 0) 0)

-- `self._ds["system_info"]` of a new object
abbrev unknown_system : Fields
unknown_system = fields_of (
    ("version", str "unknown")
    ∷ ("hostname", str "unknown")
    ∷ ("uptime_seconds", int (pos 0))
    ∷ ("system_serial", str "unknown")
    ∷ ("system_product", str "unknown")
    ∷ ("system_manufacturer", str "unknown")
    ∷ ("physmem", int (pos 0))
    ∷ ("uptimeEpoch", int (pos 0))
    ∷ ("cpu_temperature", null)
    ∷ ("cpu_usage", zero_float)
    ∷ ("load_shortterm", zero_float)
    ∷ ("load_midterm", zero_float)
    ∷ ("load_longterm", zero_float)
    ∷ ("cache_size-arc_value", zero_float)
    ∷ ("memory-free_value", zero_float)
    ∷ ("memory-total_value", zero_float)
    ∷ ("memory-usage_percent", int (pos 0))
    ∷ [])

unfoldable pub initial_ds : Platform → Dict String Fields
initial_ds P =
    ("pool", end)
    ∷ ("dataset", end)
    ∷ ("cloudsync", end)
    ∷ ("replication", end)
    ∷ ("rsynctask", end)
    ∷ ("snapshottask", end)
    ∷ ("cronjob", end)
    ∷ ("service", end)
    ∷ ("vm", end)
    ∷ ("container", end)
    ∷ ("app", end)
    ∷ ("certificate", end)
    ∷ ("directoryservices", end)
    ∷ ("interface", end)
    ∷ ("disk", end)
    ∷ ("scrub", end)
    ∷ ("arc", end)
    ∷ ("ups", end)
    ∷ ("alerts", aggregate_alerts P [])
    ∷ ("update", no_update_pending)
    ∷ ("smb", fields_of (("connections", int (pos 0)) ∷ []))
    ∷ ("system_info", unknown_system)
    ∷ []

-- `TrueNASState.__init__`
unfoldable pub initial : Platform → Cache
unfolding initial_ds
initial P = record {
  ds = initial_ds P;
  version = none;
  disk_temp_graph = none;
  fallback_failing = [];
  is_virtual = none;
  systemstats_stale_graphs = [];
  ups_stale_graphs = [];
  boot_pool_uid = none;
  smb_denied = false;
  log = [];
}
