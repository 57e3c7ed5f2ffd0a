-- ===== src/State/Pool/Capacity.antt =====
-- The capacity of a pool.
pub mod Bounds
use aiotruenas.Base.{
  ℕ, String, Bool, true, false, not, ◌&&◌, ◌||◌, Option, none, some, if◌then◌else◌,
}
use aiotruenas.Base.Int.{ℤ, pos, ◌+ℤ◌, ◌-ℤ◌, ltb_ℤ}
use aiotruenas.Value.{text, Value, null, bool, int, float, str, obj, Fields, end, field}
use aiotruenas.Value.Dict.{put}
use aiotruenas.Errors.Classify.{member_of}
use aiotruenas.State.Cache.{Platform}

-- `_to_optional_int`
unfoldable pub to_optional_int : Platform → Value → Option ℤ
to_optional_int P (bool b) = none
to_optional_int P (int n) = some n
to_optional_int P (float x) = P.to_int (float x)
to_optional_int P (str s) = P.to_int (str s)
to_optional_int P v = none

abbrev int_or_zero : Option ℤ → Value
int_or_zero none = int (pos 0)
int_or_zero (some n) = int n

-- `_to_int`
unfoldable pub to_int_or : Platform → Value → Value
unfolding to_optional_int
to_int_or P v = int_or_zero (to_optional_int P v)

abbrev leb_ℤ : ℤ → ℤ → Bool
leb_ℤ a b = not (ltb_ℤ b a)

abbrev in_total : Option ℤ → ℤ → Bool
in_total none total = true
in_total (some used) total = leb_ℤ (pos 0) used && leb_ℤ used total

-- `_is_plausible_capacity`
unfoldable pub is_plausible_capacity : ℤ → ℤ → Option ℤ → Bool
is_plausible_capacity available total used =
    ltb_ℤ (pos 0) total && leb_ℤ (pos 0) available && leb_ℤ available total && in_total used total

-- `_sum_or_none`
unfoldable pub sum_or_none : Option ℤ → Option ℤ → Option ℤ
unfolding ◌+ℤ◌
sum_or_none (some a) (some b) = some (a +ℤ b)
sum_or_none a b = none

-- available, total and used
abbrev pub Figures : Type 0
Figures = Option ℤ × Option ℤ × Option ℤ

positive_or : Option ℤ → Option ℤ → Option ℤ
positive_or none o = o
positive_or (some size) o = if ltb_ℤ (pos 0) size then some size else o

-- `_pool_query_capacity`
unfoldable pub pool_query_capacity : Platform → Fields → Figures
unfolding member_of positive_or
pool_query_capacity P vals =
    let available = to_optional_int P (member_of (obj vals) "free") in
    let used = to_optional_int P (member_of (obj vals) "allocated") in
    let size = to_optional_int P (member_of (obj vals) "size") in
    (available, positive_or size (sum_or_none used available), used)

unfoldable pub figures_of : Platform → Option Fields → Fields → Figures
unfolding member_of
figures_of P (some (field k v dataset)) vals =
    let available = to_optional_int P (member_of (obj (field k v dataset)) "available") in
    let used = to_optional_int P (member_of (obj (field k v dataset)) "used") in
    (available, sum_or_none available used, used)
figures_of P o vals = pool_query_capacity P vals

-- `_POOL_CAPACITY_KEYS`, all set to None
unfoldable pub put_unknown : Fields → Fields
unfolding put
put_unknown vals = put (text "free") null (
    put (text "allocated") null (
      put (text "size") null
        (put (text "usage") null (put (text "total") null (put (text "available") null vals)))))

-- `total - available` for a used figure that does not fit, or is missing.
unfoldable pub allocated : ℤ → ℤ → Option ℤ → ℤ
unfolding ◌+ℤ◌ ◌-ℤ◌
allocated available total none = total -ℤ available
allocated available total (some used) =
    if ltb_ℤ (used +ℤ available) total || ltb_ℤ total (used +ℤ available)
    then total -ℤ available
    else used

unfoldable pub put_capacity : Platform → ℤ → ℤ → Option ℤ → Fields → Fields
unfolding put allocated
put_capacity P available total used vals = put (text "usage") (P.percent_used available total) (
    put (text "total") (int total) (
      put (text "available") (int available) (
        put (text "allocated") (int (allocated available total used))
          (put (text "size") (int total) vals))))

unfoldable pub put_figures : Platform → Figures → Fields → Fields
put_figures P (some available, some total, used) vals =
    if is_plausible_capacity available total used
    then put_capacity P available total used vals
    else put_unknown vals
put_figures P figures vals = put_unknown vals

-- `_apply_pool_capacity`
unfoldable pub apply_pool_capacity : Platform → Option Fields → Fields → Fields
apply_pool_capacity P root vals = put_figures P (figures_of P root vals) vals
