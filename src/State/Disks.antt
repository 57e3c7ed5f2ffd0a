-- ===== src/State/Disks.antt =====
-- `get_disk`: the disks, with temperatures from a graph, or else from "disk.temperatures".
pub mod Graph
use aiotruenas.Base.{
  ℕ, String, Bool, true, false, not, ◌&&◌, ◌||◌, Option, none, some, List, [], ◌∷◌, ◌==◌, string_eq,
  Result, ok, raise, if◌then◌else◌,
}
use aiotruenas.Base.Assoc.{Dict, lookup, insert}
use aiotruenas.Value.{
  Key, text, Value, null, bool, int, float, str, arr, obj, Items, nil, cons, Fields, end, field,
  get, key_eq,
}
use aiotruenas.Value.Dict.{put, has}
use aiotruenas.Value.Text.{codes, lower, has_fragment}
use aiotruenas.Errors.Classify.{member_of}
use aiotruenas.Normalize.Spec.{or_default}
use aiotruenas.Normalize.Uid.{nonempty}
use aiotruenas.Rpc.{Reply, returned, failed, aborted}
use aiotruenas.Helpers.Netdata.{has_disk_temp_entries}
use aiotruenas.Helpers.Netdata.Disks.{disk_temps_from_graph_data}
use aiotruenas.Specs.Storage.{disk_vals, disk_ensure_vals}
use aiotruenas.State.Cache.{
  Cache, Server, Platform, Ended, refreshed, propagated, on_reply, keyed, endpoint, set_endpoint,
  normalize,
}
use aiotruenas.State.Fallback.{clear, note_failed, note_recovered}
use aiotruenas.State.Alerts.{text_of}
use aiotruenas.State.Pool.{modify_entry}
use aiotruenas.State.Disks.Graph.{Readings, disk_temps_from_netdata}

-- `_build_disk_name_map`: the first disk of a name has it.
unfoldable pub note_name : Value → Key → Dict String Key → Dict String Key
unfolding string_eq
note_name (str name) uid names =
    if name == ""
    then names
    else elim (lookup name names) [ none ↦ insert name uid names | some other ↦ names ]
note_name v uid names = names

unfoldable pub name_map : Fields → Dict String Key → Dict String Key
unfolding note_name member_of
name_map end names = names
name_map (field uid vals rest) names = name_map rest (
    note_name (member_of vals "name") uid (
      note_name (member_of vals "devname") uid (note_name (member_of vals "identifier") uid names)))

mapped_uid : Key → Dict String Key → Option Key
unfolding string_eq
mapped_uid (text name) names = lookup name names
mapped_uid k names = none

-- The loop over the readings: the disks, and the uids with a new temperature.
unfoldable pub take_temps :
    Platform → Fields → Dict String Key → Fields × List Key → Fields × List Key
unfolding mapped_uid modify_entry put
take_temps P end names (disks, fresh) = (disks, fresh)
take_temps P (field name temp rest) names (disks, fresh) = elim (mapped_uid name names) [
  | none ↦ take_temps P rest names (disks, fresh)
  | some uid ↦
      take_temps P rest names
        (modify_entry uid (put (text "temperature") (P.arithmetic.round2 temp)) disks, uid ∷ fresh)
]

is_member : Key → List Key → Bool
unfolding key_eq
is_member k [] = false
is_member k (j ∷ js) = k == j || is_member k js

unfoldable pub not_refreshed : Fields → List Key → List Key
unfolding is_member
not_refreshed end fresh = []
not_refreshed (field uid vals rest) fresh =
    let others = not_refreshed rest fresh in if is_member uid fresh then others else uid ∷ others

entry_or_empty : Option Value → Fields
entry_or_empty (some (obj vals)) = vals
entry_or_empty v = end

name_of_disk : Value → Option String
unfolding string_eq
name_of_disk (str name) = if name == "unknown" then none else some name
name_of_disk v = none

-- The names for "disk.temperatures"
unfoldable pub disk_names : List Key → Fields → List String
unfolding name_of_disk member_of get entry_or_empty
disk_names [] disks = []
disk_names (uid ∷ rest) disks =
    elim (name_of_disk (member_of (obj (entry_or_empty (get uid disks))) "name")) [
      | none ↦ disk_names rest disks
      | some name ↦ name ∷ disk_names rest disks
    ]

temp_at : Value → Fields → Option Value → Option Value
unfolding get
temp_at (str name) temps otherwise = elim (get (text name) temps) [
  | none ↦ otherwise
  | some v ↦ some v
]
temp_at v temps otherwise = otherwise

-- The temperature of the first of a disk's names that has one.
unfoldable pub matched_temp : Fields → Fields → Option Value
unfolding temp_at member_of
matched_temp vals temps = temp_at (member_of (obj vals) "identifier") temps (
    temp_at (member_of (obj vals) "devname") temps
      (temp_at (member_of (obj vals) "name") temps none))

put_temp : Option Value → Fields → Fields
unfolding put
put_temp (some (int n)) vals = put (text "temperature") (int n) vals
put_temp (some (float x)) vals = put (text "temperature") (float x) vals
put_temp o vals = vals

unfoldable pub apply_fallback : List Key → Fields → Fields → Fields
unfolding put_temp matched_temp modify_entry
apply_fallback [] temps disks = disks
apply_fallback (uid ∷ rest) temps disks =
    apply_fallback rest temps
      (modify_entry uid (λ vals. put_temp (matched_temp vals temps) vals) disks)

-- `_fallback_disk_temperatures` on its response
unfoldable pub fallback_disk_temperatures : List Key → Reply → Cache → Ended × Cache
fallback_disk_temperatures uids (returned (obj temps)) s = (
  refreshed,
  set_endpoint "disk" (apply_fallback uids temps (endpoint "disk" s))
      (note_recovered "disk_temp_fallback" s),
)
fallback_disk_temperatures uids (returned v) s = (refreshed, note_failed "disk_temp_fallback" s)
fallback_disk_temperatures uids (failed e) s = (refreshed, note_failed "disk_temp_fallback" s)
fallback_disk_temperatures uids (aborted why) s = (propagated why, s)

module _ (P : Platform) (V : Server) where
  read_others : Fields × List Key → Cache → Ended × Cache
  unfolding not_refreshed disk_names fallback_disk_temperatures
  read_others (disks, fresh) s =
      let uids = not_refreshed disks fresh in
      if nonempty uids
      then fallback_disk_temperatures uids (V.temperatures (disk_names uids disks))
          (set_endpoint "disk" disks s)
      else (refreshed, clear "disk_temp_fallback" (set_endpoint "disk" disks s))

  -- `_update_disk_temperatures` on the readings
  unfoldable pub with_readings : Result String Readings × Cache → Ended × Cache
  unfolding read_others take_temps name_map endpoint
  with_readings (raise why, s) = (propagated why, s)
  with_readings (ok none, s) = read_others (endpoint "disk" s, []) s
  with_readings (ok (some temps), s) =
      read_others (take_temps P temps (name_map (endpoint "disk" s) []) (endpoint "disk" s, [])) s

  -- `_update_disk_temperatures`
  unfoldable pub update_disk_temperatures : Cache → Ended × Cache
  update_disk_temperatures s = with_readings (disk_temps_from_netdata P V s.disk_temp_graph s)

  -- No library error reaches the handler of `get_disk`: both calls have their own.
  finish_disk : Ended × Cache → Ended × Cache
  finish_disk (refreshed, s) = (refreshed, note_recovered "disk_temperature_update_unexpected" s)
  finish_disk (ended, s) = (ended, s)

  unfoldable pub get_disk : Cache → Ended × Cache
  unfolding finish_disk
  get_disk = on_reply (V.call "disk.query") λ raw s. finish_disk (
      update_disk_temperatures (
        set_endpoint "disk"
          (normalize P (keyed "identifier" disk_vals disk_ensure_vals) (endpoint "disk" s) raw) s))
