-- ===== src/State/Entries.antt =====
-- What the refreshes make of the entries of an endpoint, after the normalization.
use aiotruenas.Base.{
  String, Bool, true, false, not, ◌&&◌, ◌||◌, Option, none, some, [], ◌∷◌, ◌==◌, ◌/◌, string_eq,
  if◌then◌else◌,
}
use aiotruenas.Base.Int.{ℤ, pos, negsuc, ◌-ℤ◌}
use aiotruenas.Base.Assoc.{Dict, lookup}
use Prim.Native.String.{◌++◌ as ◌<>◌}
use aiotruenas.Value.{
  Key, text, Value, null, bool, int, float, str, datetime, arr, obj, Fields, py_eq, truthy, get,
}
use aiotruenas.Value.Dict.{put, remove}
use aiotruenas.Value.Text
use aiotruenas.Errors.Classify.{member_of}
use aiotruenas.Normalize.Spec.{or_default}
use aiotruenas.State.Cache.{Platform}

abbrev pub unchanged : Key → Fields → Fields × Bool
unchanged k vals = (vals, true)

-- `vals.get(name) == s`
abbrev pub is_text : Fields → String → String → Bool
is_text vals name s = py_eq (member_of (obj vals) name) (str s)

-- The loop of `get_replication`.
state_or : Value → Fields → Value
unfolding string_eq get
state_or (str s) vals =
    if s == "unknown" then or_default (get (text "job_state") vals) (str "unknown") else str s
state_or v vals = or_default (get (text "job_state") vals) (str "unknown")

unfoldable pub settle_state : Fields → Fields
unfolding state_or member_of remove
settle_state vals =
    remove (text "job_state")
      (put (text "state") (state_or (member_of (obj vals) "state") vals) vals)

stripped : Value → String
unfolding Text.strip
stripped (str s) = Text.strip s
stripped v = ""

-- The first that is not empty.
abbrev or_text : String → String → String
or_text s t = if s == "" then t else s

-- The loop of `get_cronjob`.
unfoldable pub name_cronjob : (Key → String) → Key → Fields → Fields
unfolding stripped member_of string_eq
name_cronjob format k vals =
    put (text "display_name")
      (str (
        or_text (stripped (member_of (obj vals) "description"))
          (or_text (stripped (member_of (obj vals) "command")) ("Cronjob " <> format k))))
      vals

-- `_SERVICE_DISPLAY_NAMES`
abbrev pub service_display_names : Dict String String
service_display_names =
    ("afp", "AFP")
    ∷ ("cifs", "SMB")
    ∷ ("dynamicdns", "Dynamic DNS")
    ∷ ("ftp", "FTP")
    ∷ ("iscsitarget", "iSCSI")
    ∷ ("lldp", "LLDP")
    ∷ ("nfs", "NFS")
    ∷ ("openvpn_client", "OpenVPN Client")
    ∷ ("openvpn_server", "OpenVPN Server")
    ∷ ("rsync", "Rsync")
    ∷ ("s3", "S3")
    ∷ ("snmp", "SNMP")
    ∷ ("ssh", "SSH")
    ∷ ("tftp", "TFTP")
    ∷ ("ups", "UPS")
    ∷ ("webdav", "WebDAV")
    ∷ []

abbrev known_name : Option String → String → Value
known_name none s = str s
known_name (some name) s = str name

-- The lookup of a service's display name: none is the TypeError of an unhashable service.
service_name : Option Value → Option Value
unfolding lookup string_eq
service_name none = some (str "unknown")
service_name (some (str s)) = some (known_name (lookup s service_display_names) s)
service_name (some (arr xs)) = none
service_name (some (obj fs)) = none
service_name (some v) = some v

abbrev put_display_name : Option Value → Fields → Fields × Bool
put_display_name none vals = (vals, false)
put_display_name (some name) vals = (put (text "display_name") name vals, true)

-- `vals["running"] = vals[field] == "RUNNING"`; none is a KeyError.
note_running : String → Fields → Option Fields
unfolding get py_eq
note_running field_name vals = elim (get (text field_name) vals) [
  | none ↦ none
  | some state ↦ some (put (text "running") (bool (py_eq state (str "RUNNING"))) vals)
]

name_service : Option Fields → Fields → Fields × Bool
unfolding service_name member_of truthy py_eq get
name_service none vals = (vals, false)
name_service (some running) vals =
    let name = member_of (obj running) "name" in
    put_display_name
      (if not (truthy name) || py_eq name (str "unknown")
        then service_name (get (text "service") running)
        else some name)
      running

-- The loop of `get_service`.
unfoldable pub derive_service : Key → Fields → Fields × Bool
unfolding note_running name_service
derive_service k vals = name_service (note_running "state" vals) vals

-- The loop of `get_vm`. A memory that is no number raises.
unfoldable pub memory_in_gib : Platform → Value → Option Value
memory_in_gib P null = P.round_quotient (int (pos 0)) 1024
memory_in_gib P (bool b) = P.round_quotient (bool b) 1024
memory_in_gib P (int n) = P.round_quotient (int n) 1024
memory_in_gib P (float x) = P.round_quotient (float x) 1024
memory_in_gib P v = none

abbrev or_crash : Option Fields → Fields → Fields × Bool
or_crash none vals = (vals, false)
or_crash (some changed) vals = (changed, true)

run_vm : Option Value → Fields → Fields × Bool
unfolding note_running
run_vm none vals = (vals, false)
run_vm (some memory) vals =
    let sized = put (text "memory") memory vals in or_crash (note_running "status" sized) sized

unfoldable pub derive_vm : Platform → Key → Fields → Fields × Bool
unfolding run_vm memory_in_gib member_of
derive_vm P k vals = run_vm (memory_in_gib P (member_of (obj vals) "memory")) vals

-- The loop of `get_app`.
note_update : Option Fields → Fields → Fields × Bool
unfolding truthy member_of
note_update none vals = (vals, false)
note_update (some running) vals = (
  put (text "update_available")
      (bool (
        truthy (member_of (obj running) "update_available")
        || truthy (member_of (obj running) "custom_app")
          && truthy (member_of (obj running) "image_updates_available")))
      running,
  true,
)

unfoldable pub derive_app : Key → Fields → Fields × Bool
unfolding note_running note_update
derive_app k vals = note_update (note_running "state" vals) vals

-- `max(0, (until - now).days)`, where a timedelta's days are rounded down.
abbrev whole_days : ℤ → ℤ
whole_days (pos n) = pos (n / 86400000000)
whole_days (negsuc n) = pos 0

unfoldable pub days_left : Value → ℤ → Value
unfolding ◌-ℤ◌
days_left (datetime until) now = int (whole_days (until -ℤ now))
days_left v now = null

-- The loop of `get_certificates`.
unfoldable pub note_expiry : ℤ → Fields → Fields
unfolding days_left member_of
note_expiry now vals =
    put (text "days_until_expiry") (days_left (member_of (obj vals) "until") now) vals

-- The loop of `get_interface`.
unfoldable pub note_link : Fields → Fields
unfolding py_eq member_of
note_link vals = put (text "link_up") (bool (is_text vals "link_state" "LINK_STATE_UP")) vals
