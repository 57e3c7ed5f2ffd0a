-- ===== src/Specs/Services.antt =====
-- The tables of domain/_specs.py for services, virtual machines, containers and apps.
use aiotruenas.Base.{false, List, [], ◌∷◌}
use aiotruenas.Base.Int.{pos}
use aiotruenas.Value.{null, bool, int, str, arr, nil}
use aiotruenas.Normalize.Spec.{ApiValueSpec}
use aiotruenas.Specs.Shape.{plain, plain_from, flag, flag_from}

-- `_SERVICE_VALS`
abbrev pub service_vals : List ApiValueSpec
service_vals =
    plain "id" (int (pos 0))
    ∷ plain "service" (str "unknown")
    ∷ plain "name" (str "")
    ∷ flag "enable" (bool false)
    ∷ plain "state" (str "unknown")
    ∷ plain "pids" (arr nil)
    ∷ []

-- `_SERVICE_ENSURE_VALS`
abbrev pub service_ensure_vals : List ApiValueSpec
service_ensure_vals = flag "running" (bool false) ∷ plain "display_name" (str "unknown") ∷ []

-- `_VM_VALS`
abbrev pub vm_vals : List ApiValueSpec
vm_vals =
    plain "id" (int (pos 0))
    ∷ plain "name" (str "unknown")
    ∷ plain "type" (str "unknown")
    ∷ plain_from "cpu" "vcpus" (int (pos 0))
    ∷ plain "memory" (int (pos 0))
    ∷ flag "autostart" (bool false)
    ∷ plain_from "image" "description" (str "unknown")
    ∷ plain_from "status" "status/state" (str "unknown")
    ∷ []

-- `_VM_ENSURE_VALS`
abbrev pub vm_ensure_vals : List ApiValueSpec
vm_ensure_vals = flag "running" (bool false) ∷ []

-- `_CONTAINER_VALS`
abbrev pub container_vals : List ApiValueSpec
container_vals =
    plain "id" (str "unknown")
    ∷ plain "name" (str "unknown")
    ∷ plain "type" (str "unknown")
    ∷ plain "cpu" (int (pos 0))
    ∷ plain "memory" (int (pos 0))
    ∷ flag "autostart" (bool false)
    ∷ plain_from "image" "image/description" (str "unknown")
    ∷ plain "status" (str "unknown")
    ∷ plain "aliases" (arr nil)
    ∷ []

-- `_CONTAINER_ENSURE_VALS`
abbrev pub container_ensure_vals : List ApiValueSpec
container_ensure_vals = flag "running" (bool false) ∷ plain "ip_address" (str "unknown") ∷ []

-- `_CONTAINER_V26_VALS`
abbrev pub container_v26_vals : List ApiValueSpec
container_v26_vals =
    plain "id" (str "unknown")
    ∷ plain "name" (str "unknown")
    ∷ plain "cpuset" null
    ∷ flag "autostart" (bool false)
    ∷ plain_from "image" "description" (str "unknown")
    ∷ plain_from "status" "status/state" (str "unknown")
    ∷ []

-- `_CONTAINER_V26_ENSURE_VALS`
abbrev pub container_v26_ensure_vals : List ApiValueSpec
container_v26_ensure_vals =
    plain "type" (str "CONTAINER")
    ∷ plain "cpu" (int (pos 0))
    ∷ plain "memory" (int (pos 0))
    ∷ plain "aliases" (arr nil)
    ∷ flag "running" (bool false)
    ∷ plain "ip_address" (str "unknown")
    ∷ []

-- `_APP_VALS`
abbrev pub app_vals : List ApiValueSpec
app_vals =
    plain "id" (int (pos 0))
    ∷ plain "name" (str "unknown")
    ∷ plain "human_version" (str "unknown")
    ∷ plain "version" (str "unknown")
    ∷ plain "latest_version" (str "unknown")
    ∷ flag "custom_app" (bool false)
    ∷ flag_from "update_available" "upgrade_available" (bool false)
    ∷ flag "image_updates_available" (bool false)
    ∷ plain_from "portal" "portals/Web UI" (str "unknown")
    ∷ plain "state" (str "unknown")
    ∷ []

-- `_APP_ENSURE_VALS`
abbrev pub app_ensure_vals : List ApiValueSpec
app_ensure_vals =
    flag "running" (bool false)
    ∷ plain "update_jobid" (int (pos 0))
    ∷ plain "update_progress" (int (pos 0))
    ∷ plain "update_state" (str "unknown")
    ∷ plain "update_description" (str "")
    ∷ []
