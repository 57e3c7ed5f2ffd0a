-- ===== src/State/Containers.antt =====
-- `get_container`: one of two APIs, by the version of the system.
use aiotruenas.Base.{ℕ, Bool, true, false, Option, none, some, string_eq, leb, if◌then◌else◌}
use aiotruenas.Base.Int.{pos}
use aiotruenas.Value.{
  Key, text, Value, bool, int, float, str, arr, obj, Items, nil, cons, Fields, truthy,
}
use aiotruenas.Value.Dict.{put, remove}
use aiotruenas.Errors.Classify.{member_of}
use aiotruenas.Helpers.System.{cpuset_size, first_ipv4}
use aiotruenas.Specs.Services.{
  container_vals, container_ensure_vals, container_v26_vals, container_v26_ensure_vals,
}
use aiotruenas.State.Cache.{Cache, Server, Platform, Ended, on_reply, keyed, plain_derive, refresh}
use aiotruenas.State.Fallback.{note_failed}
use aiotruenas.State.Entries.{is_text}
use aiotruenas.State.Pool.Capacity.{to_int_or}
use aiotruenas.State.Info.{version_of, note_version}

-- The containers of a response: a value that is no list has none.
unfoldable pub containers_of : Items → Items
unfolding is_text
containers_of nil = nil
containers_of (cons (obj instance) rest) =
    let others = containers_of rest in
    if is_text instance "type" "CONTAINER" then cons (obj instance) others else others
containers_of (cons v rest) = containers_of rest

list_or_empty : Value → Items
list_or_empty (arr items) = items
list_or_empty v = nil

number_or_zero : Value → Value
number_or_zero (bool b) = bool b
number_or_zero (int n) = int n
number_or_zero (float x) = float x
number_or_zero v = int (pos 0)

put_running : Fields → Fields
unfolding put is_text
put_running vals = put (text "running") (bool (is_text vals "status" "RUNNING")) vals

put_memory : Option Value → Fields → Fields × Bool
unfolding put put_running first_ipv4 member_of
put_memory none vals = (vals, false)
put_memory (some memory) vals =
    let running = put_running (put (text "memory") memory vals) in
    (put (text "ip_address") (str (first_ipv4 (member_of (obj running) "aliases"))) running, true)

-- The loop of `_compute_container_legacy`; a memory that cannot be rounded raises.
unfoldable pub derive_legacy : Platform → Key → Fields → Fields × Bool
unfolding put number_or_zero put_memory member_of
derive_legacy P k vals =
    let counted = put (text "cpu") (to_int_or P (member_of (obj vals) "cpu")) vals in
    put_memory (P.round_quotient (number_or_zero (member_of (obj counted) "memory")) 1048576)
      counted

put_image : Fields → Fields
unfolding put truthy member_of
put_image vals =
    if truthy (member_of (obj vals) "image") then vals else put (text "image") (str "unknown") vals

-- The loop of `_compute_container_v26`.
unfoldable pub derive_v26 : Platform → Fields → Fields
unfolding put put_image put_running cpuset_size member_of remove
derive_v26 P vals =
    let typed = put (text "type") (str "CONTAINER") vals in
    let counted =
      put (text "cpu")
        (int (pos (cpuset_size (λ s. P.to_int (str s)) (member_of (obj typed) "cpuset"))))
        (remove (text "cpuset") typed) in
    put_running (
      put_image (
        put (text "ip_address") (str "unknown")
          (put (text "aliases") (arr nil) (put (text "memory") (int (pos 0)) counted))))

-- `version >= (26, 0)`
unfoldable pub is_v26 : ℕ × ℕ → Bool
is_v26 (major, minor) = leb 26 major

module _ (P : Platform) (V : Server) where
  -- `_compute_container_legacy`
  unfoldable pub compute_container_legacy : Cache → Ended × Cache
  unfolding list_or_empty
  compute_container_legacy = on_reply (V.call "virt.instance.query") λ raw s.
      refresh P "container" (keyed "id" container_vals container_ensure_vals) (derive_legacy P)
        (arr (containers_of (list_or_empty raw))) s

  -- `_compute_container_v26`
  unfoldable pub compute_container_v26 : Cache → Ended × Cache
  unfolding list_or_empty
  compute_container_v26 = on_reply (V.call "container.query") λ raw s.
      refresh P "container" (keyed "id" container_v26_vals container_v26_ensure_vals)
        (plain_derive (λ k vals. derive_v26 P vals)) (arr (list_or_empty raw)) s

  unfoldable pub with_version : ℕ × ℕ → Cache → Ended × Cache
  with_version version s =
      if is_v26 version then compute_container_v26 s else compute_container_legacy s

  -- `_detect_version` on its response, with what follows it.
  unfoldable pub with_detection : Value → Cache → Ended × Cache
  with_detection (obj raw) s =
      with_version (version_of P (obj raw)) (note_version (version_of P (obj raw)) s)
  with_detection v s = with_version (0, 0) (note_failed "detect_version" s)

  -- `_detect_version`
  unfoldable pub detect_version : Option (ℕ × ℕ) → Cache → Ended × Cache
  detect_version none = on_reply (V.call "system.info") with_detection
  detect_version (some version) = with_version version

  unfoldable pub get_container : Cache → Ended × Cache
  get_container s = detect_version s.version s
