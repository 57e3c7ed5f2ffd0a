-- ===== src/System/Interfaces.antt =====
-- `get_network_interfaces`
pub mod Keyed
use aiotruenas.Base.{
  String, Bool, true, false, Option, none, some, List, [], ◌∷◌, ◌++◌, ◌==◌, string_eq,
  if◌then◌else◌, Result, ok, raise, ◌>>=◌,
}
use aiotruenas.Base.Assoc.{Dict, insert}
use Prim.Native.String.{◌++◌ as ◌<>◌}
use aiotruenas.Value.{Value, arr, obj, Items, nil, cons, Fields, end}
use aiotruenas.Errors.Classify.{member_of}
use aiotruenas.Rpc.{Reply, Failure, error, result_of}
use aiotruenas.System.Models.{NetworkInterface}
use aiotruenas.System.Fields.{Floats, optional_str, optional_count}
use aiotruenas.System.Info.{malformed}

-- `_LINK_UP_BY_STATE.get(link_state) if link_state else None`
unfoldable pub link_up_by_state : Option String → Option Bool
unfolding string_eq
link_up_by_state none = none
link_up_by_state (some state) =
    if state == "LINK_STATE_UP"
    then some true
    else if state == "LINK_STATE_DOWN"
    then some false
    else none

state_of : Value → Fields
state_of (obj state) = state
state_of v = end

module _ (F : Floats) where
  interface_with : Fields → String → NetworkInterface
  unfolding state_of optional_str optional_count link_up_by_state member_of
  interface_with entry interface_id =
      let state = obj (state_of (member_of (obj entry) "state")) in
      let link_state = optional_str (member_of state "link_state") in
      record {
        id = interface_id;
        name = optional_str (member_of (obj entry) "name");
        description = optional_str (member_of (obj entry) "description");
        mtu = optional_count F (member_of (obj entry) "mtu");
        link_state = link_state;
        link_up = link_up_by_state link_state;
        active_media_type = optional_str (member_of state "active_media_type");
        active_media_subtype = optional_str (member_of state "active_media_subtype");
        link_address = optional_str (member_of state "link_address");
      }

  -- `_parse_interface`
  unfoldable pub parse_interface : Fields → Option NetworkInterface
  unfolding interface_with optional_str member_of
  parse_interface entry = elim (optional_str (member_of (obj entry) "id")) [
    | none ↦ none
    | some interface_id ↦ some (interface_with entry interface_id)
  ]

  -- An entry of the response, which may be no dict.
  unfoldable pub usable_interface : Value → Option NetworkInterface
  unfolding parse_interface
  usable_interface (obj entry) = parse_interface entry
  usable_interface v = none

  -- The interfaces, and the entries that were skipped.
  abbrev pub Interfaces : Type 0
  Interfaces = Dict String NetworkInterface × List Value

  note_entry : Value → Option NetworkInterface → Interfaces → Interfaces
  unfolding insert string_eq
  note_entry entry none (interfaces, skipped) = (interfaces, skipped ++ (entry ∷ []))
  note_entry entry (some interface) (interfaces, skipped) =
      (insert interface.id interface interfaces, skipped)

  -- The loop of `get_network_interfaces`
  unfoldable pub note_entries : Items → Interfaces → Interfaces
  unfolding note_entry usable_interface
  note_entries nil found = found
  note_entries (cons entry entries) found =
      note_entries entries (note_entry entry (usable_interface entry) found)

  -- `repr` is Python's.
  module _ (repr : Value → String) where
    interfaces_of : Value → Result Failure Interfaces
    unfolding note_entries malformed
    interfaces_of (arr entries) = ok (note_entries entries ([], []))
    interfaces_of v = raise (error (malformed "interface.query" ("expected a list: " <> repr v)))

    -- `get_network_interfaces` on the reply, with the entries that its warning lists.
    unfoldable pub get_network_interfaces : Reply → Result Failure Interfaces
    unfolding interfaces_of
    get_network_interfaces reply = result_of reply >>= interfaces_of
