-- ===== src/State/Smb.antt =====
-- `get_smb`: the count of SMB connections, and the latch on a refusal.
pub mod Latch
use aiotruenas.Base.{
  ℕ, zero, suc, String, Bool, true, false, not, ◌&&◌, ◌||◌, Option, none, some, List, [], ◌∷◌, ◌==◌,
  string_eq, if◌then◌else◌,
}
use aiotruenas.Base.Int.{pos}
use aiotruenas.Value.{
  Key, text, num, Value, null, bool, int, str, arr, obj, Items, nil, cons, Fields, end, field,
  truthy, get, py_eq,
}
use aiotruenas.Value.Dict.{put}
use aiotruenas.Errors.Exceptions.{ClientError, call_error}
use aiotruenas.Errors.Classify.{member_of}
use aiotruenas.Normalize.Spec.{or_default}
use aiotruenas.Rpc.{Reply, returned, failed, aborted}
use aiotruenas.Helpers.Netdata.{Arithmetic, netdata_mean_value}
use aiotruenas.Specs.System.{directoryservices_vals, directoryservices_ensure_vals}
use aiotruenas.Client.Options.{enabled_reply}
use aiotruenas.State.Cache.{
  Cache, Server, Platform, Ended, refreshed, raised, propagated, on_reply, keyed, plain_derive,
  each_entry, endpoint, set_endpoint, normalize,
}
use aiotruenas.State.Fallback.{clear, flag_failing, note_failed, note_recovered}
use aiotruenas.State.Entries.{is_text}

-- The test of `_latch_smb_denied`.
unfoldable pub is_smb_denied : ClientError → Bool
unfolding py_eq
is_smb_denied (call_error message code errname reason payload) = py_eq errname (str "EACCES")
is_smb_denied e = false

smb_failed : ClientError → Cache → Ended × Cache
smb_failed e s = (
  refreshed,
  if is_smb_denied e
      then flag_failing "smb_status" (record s { smb_denied = true })
      else note_failed "smb_status" s,
)

items_length : Items → ℕ
items_length nil = 0
items_length (cons v vs) = suc (items_length vs)

publish_smb : Items → Cache → Ended × Cache
unfolding items_length
publish_smb sessions s = (
  refreshed,
  note_recovered "smb_status"
      (set_endpoint "smb" (field (text "connections") (int (pos (items_length sessions))) end) s),
)

sessions_of : Value → Option Items
sessions_of (arr sessions) = some sessions
sessions_of v = none

with_sessions : Option Items → Cache → Ended × Cache
unfolding publish_smb
with_sessions none s = (refreshed, note_failed "smb_status" s)
with_sessions (some sessions) s = publish_smb sessions s

-- `get_smb` on its response
unfoldable pub with_smb : Value → Cache → Ended × Cache
unfolding publish_smb sessions_of with_sessions member_of
with_smb (arr sessions) s = publish_smb sessions s
with_smb (obj raw) s = with_sessions (sessions_of (member_of (obj raw) "sessions")) s
with_smb v s = (refreshed, note_failed "smb_status" s)

-- A call whose library errors end the refresh.
query_smb : Reply → (Value → Cache → Ended × Cache) → Cache → Ended × Cache
unfolding smb_failed
query_smb (returned raw) use_raw s = use_raw raw s
query_smb (failed e) use_raw s = smb_failed e s
query_smb (aborted why) use_raw s = (propagated why, s)

unfoldable pub get_smb : Server → Cache → Ended × Cache
unfolding query_smb with_smb enabled_reply
get_smb V s =
    if s.smb_denied
    then (refreshed, s)
    else query_smb (enabled_reply V.set_options) (λ v u. query_smb (V.call "smb.status") with_smb u)
        s
