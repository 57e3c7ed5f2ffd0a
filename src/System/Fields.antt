-- ===== src/System/Fields.antt =====
-- The readers of single fields of a response: a value of an unexpected type is None.
use aiotruenas.Base.{
  ℕ, zero, suc, ◌+◌, ◌*◌, ◌/◌, ◌%◌, ◌^◌, String, Bool, Option, none, some, List, nat_eq, ltb,
  if◌then◌else◌,
}
use aiotruenas.Base.Int.{ℤ, pos, negsuc, ltb_ℤ}
use aiotruenas.Value.{Value, int, float, str, arr, obj, nil, cons, Key, num, float_key, finite}
use aiotruenas.Errors.Classify.{member_of}
use aiotruenas.System.Graphs.{is_blank}
use aiotruenas.System.Models.{Finite}

-- Python's arithmetic on floats.
pub record Floats : Type 0 where
  -- `float(n)`, which is finite or raises OverflowError.
  pub to_float : ℤ → Option Finite
  -- `sum(values) / len(values)` of some floats, if the result is finite.
  pub mean : List Finite → Option Finite
  -- `n / d` of two ints, for a quotient of at most 100.
  pub ratio : ℕ → ℕ → Finite
  -- `datetime.fromtimestamp(millis / 1000, tz=UTC)`, unless it raises.
  pub from_millis : Finite → Option ℤ

-- `_optional_str`
unfoldable pub optional_str : Value → Option String
unfolding is_blank
optional_str (str s) = if is_blank (str s) then none else some s
optional_str v = none

abbrev pub is_negative : Finite → Bool
is_negative x = ltb_ℤ x.mantissa (pos 0)

-- `number.is_integer()` with `int(number)`
abbrev pub whole_part : Key → Option ℤ
whole_part (num n) = some n
whole_part k = none

-- `_non_negative`
unfoldable pub non_negative : Option Finite → Option Finite
non_negative none = none
non_negative (some x) = if is_negative x then none else some x

-- `round(a / 2 ** k)`: to the nearest integer, and to the even one in the middle.
unfoldable pub round_half_even : ℕ → ℕ → ℕ
unfolding nat_eq
round_half_even a k =
    let quotient = a / 2 ^ k in
    let twice = 2 * (a % 2 ^ k) in
    if ltb twice (2 ^ k)
    then quotient
    else if ltb (2 ^ k) twice
    then quotient + 1
    else quotient + quotient % 2

unfoldable pub round : Finite → ℤ
unfolding round_half_even
round x = elim x.mantissa [
  | pos a ↦ pos (round_half_even a x.scale)
  | negsuc a ↦ negate (round_half_even (suc a) x.scale)
]
  where
    negate : ℕ → ℤ
    negate zero = pos zero
    negate (suc n) = negsuc n

abbrev pub rounded : Option Finite → Option ℤ
rounded none = none
rounded (some x) = some (round x)

-- `_optional_bytes`
unfoldable pub optional_bytes : Option Finite → Option ℤ
unfolding non_negative round
optional_bytes value = rounded (non_negative value)

module _ (F : Floats) where
  -- `_finite_float`
  unfoldable pub finite_float : Value → Option Finite
  finite_float (int n) = F.to_float n
  finite_float (float (finite m k)) = some (record { mantissa = m; scale = k })
  finite_float v = none

  count_of : Value → Finite → Option ℤ
  unfolding float_key
  count_of v x =
      if is_negative x then none else elim (whole_part (float_key (finite x.mantissa x.scale))) [
        | none ↦ none
        | some n ↦ elim v [ int i ↦ some i | _ ↦ some n ]
      ]

  -- `_optional_count`
  unfoldable pub optional_count : Value → Option ℤ
  unfolding count_of finite_float
  optional_count v = elim (finite_float v) [ none ↦ none | some x ↦ count_of v x ]

  boot_time_of : Option Finite → Option ℤ
  boot_time_of none = none
  boot_time_of (some millis) = if ltb_ℤ (pos 0) millis.mantissa then F.from_millis millis else none

  -- `_parse_boot_time`
  unfoldable pub parse_boot_time : Value → Option ℤ
  unfolding boot_time_of finite_float member_of
  parse_boot_time (obj fs) = boot_time_of (finite_float (member_of (obj fs) "$date"))
  parse_boot_time v = none

  load : Value → Option Finite
  unfolding non_negative finite_float
  load v = non_negative (finite_float v)

  -- `_parse_loadavg`
  unfoldable pub parse_loadavg : Value → Option Finite × Option Finite × Option Finite
  unfolding load
  parse_loadavg (arr (cons a (cons b (cons c nil)))) = (load a, load b, load c)
  parse_loadavg v = (none, none, none)
