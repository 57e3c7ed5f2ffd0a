-- ===== src/State/Cache.antt =====
-- The attributes of a `TrueNASState`, and the parts that its refreshes share. The lock lets one
-- refresh run at a time, so a refresh is a function of the cache and of the replies that it gets.
use aiotruenas.Base.{
  ℕ, String, Bool, true, false, ◌&&◌, Option, none, some, List, [], string_eq, Result, ok, raise,
  if◌then◌else◌,
}
use aiotruenas.Base.Int.{ℤ}
use aiotruenas.Base.Assoc.{Dict, lookup, insert}
use aiotruenas.Value.{Key, Value, obj, Fields, end, field}
use aiotruenas.Errors.Exceptions.{ClientError}
use aiotruenas.Rpc.{Reply, returned, failed, aborted}
use aiotruenas.Normalize.Spec.{Runtime, ApiValueSpec}
use aiotruenas.Normalize.Fill.{UnsupportedAction}
use aiotruenas.Normalize.Parse.{Mapping, parse_api}
use aiotruenas.Helpers.Netdata.{Arithmetic}

-- A line that `_note_fallback_outcome` logs for a key.
pub data Note : Type 0 where
  warned : String → Note
  recovered : String → Note

-- A set of names is a list. `log` has the newest line first.
pub record Cache : Type 0 where
  pub ds : Dict String Fields
  pub version : Option (ℕ × ℕ)
  pub disk_temp_graph : Option String
  pub fallback_failing : Dict String Bool
  pub is_virtual : Option Bool
  pub systemstats_stale_graphs : List String
  pub ups_stale_graphs : List String
  pub boot_pool_uid : Option Key
  pub smb_denied : Bool
  pub log : List Note

abbrev fields_or_none : Option Fields → Fields
fields_or_none none = end
fields_or_none (some d) = d

-- `self._ds[name]`
unfoldable pub endpoint : String → Cache → Fields
unfolding string_eq
endpoint name s = fields_or_none (lookup name s.ds)

-- `self._ds[name] = d`
unfoldable pub set_endpoint : String → Fields → Cache → Cache
unfolding string_eq
set_endpoint name d s = record s { ds = insert name d s.ds }

-- What the server answers to the calls of one refresh, and its time.
pub record Server : Type 0 where
  -- A method without parameters.
  pub call : String → Reply
  -- "reporting.netdata_graph" of a graph.
  pub graph : String → Reply
  -- "disk.temperatures" of the names.
  pub temperatures : List String → Reply
  -- "core.set_options", if `enable_private_methods` calls it: the client is connected and has not
  -- sent it on the connection.
  pub set_options : Option Reply
  -- The time in seconds, and in microseconds, after the epoch.
  pub now_epoch : ℤ
  pub now : ℤ

-- Python's numbers, beside those of the normalization and of the graphs.
pub record Platform : Type 0 where
  pub runtime : Runtime
  pub arithmetic : Arithmetic
  -- `int(value)` of a text or a float; `none` is an exception.
  pub to_int : Value → Option ℤ
  -- `round(value / n)` of a bool, an int or a float; `none` is an exception.
  pub round_quotient : Value → ℕ → Option Value
  -- `str(uid)`; a uid is known up to equality, so it may be the text of an equal one.
  pub format_key : Key → String
  -- `round((total - available) / total * 100)`
  pub percent_used : ℤ → ℤ → Value
  -- `round(100 * (total - available) / total)`; `none` is an exception.
  pub memory_percent : Value → Value → Option Value
  -- The value of a code point that is a decimal digit.
  pub digit : ℕ → Option ℕ
  -- `int(now - seconds)` of a finite number, and `abs(epoch - previous) > 300`
  pub epoch_before : ℤ → Value → ℤ
  pub is_far : ℤ → Value → Bool

-- How a refresh ends. `crashed` is an exception of the library's own code.
pub data Ended : Type 0 where
  refreshed : Ended
  raised : ClientError → Ended
  propagated : String → Ended
  crashed : Ended

-- A call whose errors propagate.
unfoldable pub on_reply : Reply → (Value → Cache → Ended × Cache) → Cache → Ended × Cache
on_reply (returned raw) use_raw s = use_raw raw s
on_reply (failed e) use_raw s = (raised e, s)
on_reply (aborted why) use_raw s = (propagated why, s)

-- The arguments of `parse_api` as the endpoints give them.
abbrev pub keyed : String → List ApiValueSpec → List ApiValueSpec → Mapping
keyed key vals ensure_vals = record {
  key = some key;
  key_secondary = none;
  key_search = none;
  vals = vals;
  val_proc = [];
  ensure_vals = ensure_vals;
  only = [];
  skip = [];
  prune = true;
}

abbrev pub flat : List ApiValueSpec → List ApiValueSpec → Mapping
flat vals ensure_vals = record (keyed "" vals ensure_vals) { key = none }

abbrev result_or : Fields → Result UnsupportedAction Fields → Fields
result_or d (ok d') = d'
result_or d (raise e) = d

module _ (P : Platform) where
  -- `parse_api` of a mapping without `val_proc`, which returns.
  unfoldable pub normalize : Mapping → Fields → Value → Fields
  normalize m d raw = result_or d (parse_api P.runtime m d raw)

-- A loop over the entries of an endpoint that changes each by its own fields; `false` is an
-- exception, which leaves the later entries as they are.
unfoldable pub each_entry : (Key → Fields → Fields × Bool) → Fields → Fields × Bool
each_entry derive end = (end, true)
each_entry derive (field k (obj vals) rest) =
    let (changed, through) = derive k vals in
    let (later, all) = each_entry derive rest in
    (field k (obj changed) (if through then later else rest), through && all)
each_entry derive (field k v rest) = (field k v rest, false)

abbrev pub plain_derive : (Key → Fields → Fields) → Key → Fields → Fields × Bool
plain_derive derive k vals = (derive k vals, true)

abbrev pub ended_if : Bool → Ended
ended_if through = if through then refreshed else crashed

-- Normalize a response into an endpoint, then run a loop over the entries.
unfoldable pub refresh :
    Platform → String → Mapping → (Key → Fields → Fields × Bool) → Value → Cache → Ended × Cache
refresh P name m derive raw s =
    let (d, through) = each_entry derive (normalize P m (endpoint name s) raw) in
    (ended_if through, set_endpoint name d s)
