-- ===== src/System/Models.antt =====
-- src/aiotruenas/models.py: what the typed access returns. `None` is `none`.
use aiotruenas.Base.{ℕ, String, Bool, Option, List}
use aiotruenas.Base.Int.{ℤ}
use aiotruenas.Base.Assoc.{Dict}
use aiotruenas.Errors.Exceptions.{ClientError}

-- A finite float, which is `mantissa` / 2 ^ `scale`.
pub record Finite : Type 0 where
  pub mantissa : ℤ
  pub scale : ℕ

-- `boot_time` is in microseconds after the epoch.
pub record SystemInfo : Type 0 where
  pub hostname : Option String
  pub version : Option String
  pub manufacturer : Option String
  pub product : Option String
  pub serial : Option String
  pub physical_memory : Option ℤ
  pub boot_time : Option ℤ
  pub uptime_seconds : Option Finite
  pub load_1m : Option Finite
  pub load_5m : Option Finite
  pub load_15m : Option Finite
  pub is_virtual : Option Bool

pub record NetworkInterface : Type 0 where
  pub id : String
  pub name : Option String
  pub description : Option String
  pub mtu : Option ℤ
  pub link_state : Option String
  pub link_up : Option Bool
  pub active_media_type : Option String
  pub active_media_subtype : Option String
  pub link_address : Option String

pub record InterfaceTraffic : Type 0 where
  pub rx_kbps : Option Finite
  pub tx_kbps : Option Finite

-- The two mappings are values, so that the copies of `__post_init__` are not seen.
pub record SystemStats : Type 0 where
  pub cpu_usage_percent : Option Finite
  pub cpu_temperature : Option Finite
  pub memory_available : Option ℤ
  pub memory_usage_percent : Option Finite
  pub arc_size : Option ℤ
  pub interfaces : Dict String InterfaceTraffic
  pub failed_graphs : List (String × ClientError)
