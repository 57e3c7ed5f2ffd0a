-- ===== src/State/Directory.antt =====
-- `get_directoryservices`: the configuration and the live status, merged into one entry.
use aiotruenas.Base.{Bool, false, not, ◌&&◌, Option, some, ◌==◌, string_eq, if◌then◌else◌}
use aiotruenas.Base.Int.{pos}
use aiotruenas.Value.{
  text, num, Value, bool, int, str, arr, obj, nil, cons, Fields, end, truthy, get,
}
use aiotruenas.Value.Dict.{put}
use aiotruenas.Errors.Classify.{member_of}
use aiotruenas.Normalize.Spec.{or_default}
use aiotruenas.Specs.System.{directoryservices_vals, directoryservices_ensure_vals}
use aiotruenas.State.Cache.{
  Cache, Server, Platform, Ended, refreshed, on_reply, keyed, plain_derive, each_entry, endpoint,
  set_endpoint, normalize,
}
use aiotruenas.State.Fallback.{clear, note_failed, note_recovered}
use aiotruenas.State.Entries.{is_text}

-- A status that is a text, and not the empty one.
abbrev is_status : Value → Bool
is_status (str status) = not (status == "")
is_status v = false

previous_entry : Option Value → Fields
previous_entry (some (obj fs)) = fs
previous_entry v = end

-- The status and its message: those cached before, where the response has no status.
status_or_cached : Value → Fields → Cache → (Value × Value) × Cache
unfolding get member_of string_eq
status_or_cached raw previous s =
    if is_status (member_of raw "status")
    then (
      (member_of raw "status", member_of raw "status_msg"),
      note_recovered "directoryservices_status" s,
    )
    else (
      (
        or_default (get (text "status") previous) (str "unknown"),
        member_of (obj previous) "status_msg",
      ),
      note_failed "directoryservices_status" s,
    )

unfoldable pub note_health : Fields → Fields
unfolding is_text
note_health vals = put (text "healthy") (bool (is_text vals "status" "HEALTHY")) vals

merged : Fields → Value → Value → Fields
unfolding put
merged config status status_msg =
    put (text "status_msg") status_msg
      (put (text "status") status (put (text "id") (int (pos 1)) config))

publish_directory : Platform → Fields → (Value × Value) × Cache → Ended × Cache
unfolding merged
publish_directory P config ((status, status_msg), s) =
    let row = cons (obj (merged config status status_msg)) nil in
    let entries =
      normalize P (keyed "id" directoryservices_vals directoryservices_ensure_vals) end (arr row) in
    (
      refreshed,
      set_endpoint "directoryservices"
          (each_entry (plain_derive (λ k vals. note_health vals)) entries).0 s,
    )

-- `self._ds["directoryservices"].get(1, {})`
unfoldable pub cached_entry : Cache → Fields
unfolding get previous_entry
cached_entry s = previous_entry (get (num (pos 1)) (endpoint "directoryservices" s))

is_enabled : Fields → Bool
unfolding truthy member_of
is_enabled config =
    truthy (member_of (obj config) "service_type") && truthy (member_of (obj config) "enable")

module _ (P : Platform) (V : Server) where
  -- `get_directoryservices` on the configuration
  unfoldable pub with_config : Value → Cache → Ended × Cache
  unfolding is_enabled publish_directory status_or_cached
  with_config (obj config) s =
      let noted = note_recovered "directoryservices_config" s in
      if is_enabled config
      then on_reply (V.call "directoryservices.status")
          (λ raw u. publish_directory P config (status_or_cached raw (cached_entry u) u)) noted
      else (
        refreshed,
        clear "directoryservices_status" (set_endpoint "directoryservices" end noted),
      )
  with_config v s = (refreshed, note_failed "directoryservices_config" s)

  unfoldable pub get_directoryservices : Cache → Ended × Cache
  get_directoryservices = on_reply (V.call "directoryservices.config") with_config
