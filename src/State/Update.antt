-- ===== src/State/Update.antt =====
-- `get_update`: the pending update.
use aiotruenas.Base.{true, false, string_eq, if◌then◌else◌}
use aiotruenas.Value.{text, Value, null, bool, str, obj, Fields, end, field, truthy}
use aiotruenas.Errors.Classify.{member_of}
use aiotruenas.State.Cache.{Cache, Server, Ended, refreshed, on_reply, set_endpoint}

-- `_no_update_pending`
abbrev pub no_update_pending : Fields
no_update_pending = field (text "update_available") (bool false) (
    field (text "update_state") (str "IDLE") (
      field (text "update_version") (str "up-to-date") (
        field (text "update_date") null (
          field (text "update_profile") null
            (field (text "update_train") null (field (text "update_filename") null end))))))

abbrev text_or_unknown : Value → Value
text_or_unknown (str s) = str s
text_or_unknown v = str "unknown"

abbrev or_value : Value → Value → Value
or_value v w = if truthy v then v else w

-- `manifest.get(name)`, where a manifest that is no dict is taken as empty, as `member_of` does.
pending_update : Value → Fields → Fields
unfolding truthy member_of
pending_update status new_version =
    let manifest = member_of (obj new_version) "manifest" in
    field (text "update_available") (bool true) (
      field (text "update_state")
        (text_or_unknown (or_value (member_of status "state") (member_of status "status")))
        (field (text "update_version") (member_of (obj new_version) "version") (
          field (text "update_date") (member_of manifest "date") (
            field (text "update_profile") (member_of manifest "profile") (
              field (text "update_train") (member_of manifest "train")
                (field (text "update_filename") (member_of manifest "filename") end))))))

update_of : Value → Value → Fields
unfolding pending_update truthy member_of
update_of status (obj new_version) =
    if truthy (member_of (obj new_version) "version")
    then pending_update status new_version
    else no_update_pending
update_of status v = no_update_pending

unfoldable pub get_update : Server → Cache → Ended × Cache
unfolding update_of member_of
get_update V = on_reply (V.call "update.status") λ raw s.
    let status = member_of raw "status" in
    (refreshed, set_endpoint "update" (update_of status (member_of status "new_version")) s)
