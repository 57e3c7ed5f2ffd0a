-- ===== src/State/Info.antt =====
-- `get_systeminfo`, and what it shares with the other refreshes: the version and whether the system
-- is virtual.
use aiotruenas.Base.{
  ℕ, Bool, true, false, not, ◌&&◌, ◌||◌, Option, none, some, ◌==◌, string_eq, nat_eq, if◌then◌else◌,
}
use aiotruenas.Base.Int.{ℤ, pos, ltb_ℤ}
use aiotruenas.Value.{text, Value, bool, int, float, str, obj, Fields, field, finite, infinite}
use aiotruenas.Value.Dict.{put}
use aiotruenas.Value.Text
use aiotruenas.Rpc.{Reply, returned, failed, aborted}
use aiotruenas.Errors.Classify.{member_of}
use aiotruenas.Helpers.Netdata.{is_finite_number}
use aiotruenas.Helpers.System.{parse_version_tuple, is_virtual_machine}
use aiotruenas.Specs.System.{systeminfo_vals, systeminfo_ensure_vals}
use aiotruenas.State.Cache.{
  Cache, Server, Platform, Ended, refreshed, crashed, propagated, on_reply, flat, normalize,
  endpoint, set_endpoint,
}
use aiotruenas.State.Fallback.{note_failed, note_recovered}

-- `version != (0, 0)`
unfoldable pub is_known : ℕ × ℕ → Bool
unfolding nat_eq
is_known (major, minor) = not (major == 0 && minor == 0)

abbrev keep_version : ℕ × ℕ → Cache → Cache
keep_version version s = note_recovered "detect_version" (record s { version = some version })

-- The end of `_detect_version`.
unfoldable pub note_version : ℕ × ℕ → Cache → Cache
note_version version s =
    if is_known version then keep_version version s else note_failed "detect_version" s

abbrev is_dict : Value → Bool
is_dict (obj fs) = true
is_dict v = false

-- The version of a response: (0, 0) of one that is no dict.
unfoldable pub version_of : Platform → Value → ℕ × ℕ
unfolding parse_version_tuple member_of
version_of P raw = parse_version_tuple P.digit (member_of raw "version")

-- A text with more than spaces in it.
unfoldable pub is_usable_text : Value → Bool
unfolding Text.strip string_eq
is_usable_text (str s) = not (Text.strip s == "")
is_usable_text v = false

abbrev stripped_text : Value → Value
unfolding Text.strip
stripped_text (str s) = if is_usable_text (str s) then str (Text.strip s) else str s
stripped_text v = v

abbrev is_unknown : Option Bool → Bool
is_unknown none = true
is_unknown (some b) = false

-- `_apply_virtual_detection`
unfoldable pub apply_virtual_detection : Fields → Cache → Cache
unfolding is_virtual_machine stripped_text member_of is_usable_text
apply_virtual_detection raw s =
    let manufacturer = member_of (obj raw) "system_manufacturer" in
    let product = member_of (obj raw) "system_product" in
    if is_usable_text manufacturer || is_usable_text product
    then note_recovered "detect_virtual" (record s {
      is_virtual = some (is_virtual_machine (stripped_text manufacturer) (stripped_text product));
    })
    else if is_unknown s.is_virtual
    then note_failed "detect_virtual" s
    else s

true_or_false : Option Bool → Bool
true_or_false (some b) = b
true_or_false none = false

-- `_detect_virtual` on its response, with what follows it.
unfoldable pub with_virtual : Reply → (Bool → Cache → Ended × Cache) → Cache → Ended × Cache
unfolding apply_virtual_detection true_or_false
with_virtual (returned (obj raw)) next s =
    let noted = apply_virtual_detection raw s in next (true_or_false noted.is_virtual) noted
with_virtual (returned v) next s = next false (note_failed "detect_virtual" s)
with_virtual (failed e) next s = next false (note_failed "detect_virtual" s)
with_virtual (aborted why) next s = (propagated why, s)

-- `x > 0` and `x >= 0` of an int or a float that is no bool
unfoldable pub is_positive : Value → Bool
is_positive (int n) = ltb_ℤ (pos 0) n
is_positive (float (finite m k)) = ltb_ℤ (pos 0) m
is_positive (float (infinite above)) = above
is_positive v = false

unfoldable pub is_nonnegative : Value → Bool
is_nonnegative (int n) = not (ltb_ℤ n (pos 0))
is_nonnegative (float (finite m k)) = not (ltb_ℤ m (pos 0))
is_nonnegative (float (infinite above)) = above
is_nonnegative v = false

unfoldable pub put_physmem : Platform → Fields → Fields
unfolding put member_of
put_physmem P info =
    let physmem = member_of (obj info) "physmem" in
    if is_finite_number P.arithmetic physmem && is_positive physmem
    then put (text "memory-total_value") physmem info
    else info

number_or_zero : Value → Value
number_or_zero (int n) = int n
number_or_zero (float x) = float x
number_or_zero (bool b) = bool b
number_or_zero v = int (pos 0)

-- `int(value)` of a number
whole_of : Platform → Value → Option ℤ
whole_of P (bool b) = some (pos (if b then 1 else 0))
whole_of P (int n) = some n
whole_of P v = P.to_int v

-- `_stable_uptime_epoch`; none is an exception.
unfoldable pub stable_uptime_epoch : Platform → Value → Value → ℤ → Option ℤ
unfolding number_or_zero whole_of
stable_uptime_epoch P previous_epoch uptime_seconds now =
    let previous = number_or_zero previous_epoch in
    let epoch = P.epoch_before now uptime_seconds in
    if not (is_finite_number P.arithmetic uptime_seconds)
    then whole_of P previous
    else if P.is_far epoch previous
    then some epoch
    else whole_of P previous

put_epoch : Option ℤ → Fields → Ended × Fields
unfolding put
put_epoch none info = (crashed, info)
put_epoch (some epoch) info = (refreshed, put (text "uptimeEpoch") (int epoch) info)

unfoldable pub put_uptime : Platform → ℤ → Fields → Ended × Fields
unfolding put_epoch stable_uptime_epoch member_of
put_uptime P now info =
    let uptime = member_of (obj info) "uptime_seconds" in
    if is_nonnegative uptime
    then put_epoch (stable_uptime_epoch P (member_of (obj info) "uptimeEpoch") uptime now) info
    else (refreshed, info)

is_known_version : Option (ℕ × ℕ) → Bool
is_known_version none = false
is_known_version (some v) = true

-- The part of `get_systeminfo` on the version.
unfoldable pub note_info_version : ℕ × ℕ → Cache → Cache
unfolding is_known_version
note_info_version version s =
    if is_known version
    then keep_version version s
    else if is_known_version s.version
    then s
    else note_failed "detect_version" s

-- `get_systeminfo` on its response
unfoldable pub with_system_info : Platform → ℤ → Value → Cache → Ended × Cache
unfolding put_uptime put_physmem
with_system_info P now (obj (field k v fs)) s =
    let raw = field k v fs in
    let noted = note_recovered "system_info" s in
    let info =
      normalize P (flat systeminfo_vals systeminfo_ensure_vals) (endpoint "system_info" noted)
        (obj raw) in
    let (ended, published) = put_uptime P now (put_physmem P info) in
    (
      ended,
      set_endpoint "system_info" published
          (apply_virtual_detection raw (note_info_version (version_of P (obj info)) noted)),
    )
with_system_info P now v s = (refreshed, note_failed "system_info" s)

unfoldable pub get_systeminfo : Platform → Server → Cache → Ended × Cache
get_systeminfo P V = on_reply (V.call "system.info") (with_system_info P V.now_epoch)
